-- ===== src/Io/BufferReader/Examples.antt =====
-- The theorems of the buffered reader at concrete inputs.
use xyco.Common.{
  ℕ, ◌+◌, ◌≡◌, ◌++◌, List, [], ◌∷◌, refl, arith, length, replicate, length-replicate, ap,
}
use xyco.Utils.Error.{ok}
use xyco.Io.BufferReader.{BufferReader, read, returns, read_to_end, read_until}
use xyco.Io.BufferReader.Inv.{Inv, unread}
use xyco.Io.BufferReader.Read.{read_buffered, read_stale}
use xyco.Io.BufferReader.ReadToEnd.{content_of, read_to_end-complete}
use xyco.Io.BufferReader.ReadUntil.{read_until_found}

-- "abcd" is buffered, of which "a" has been consumed; "ef" comes from the inner reader.
abbrev partly : BufferReader
partly = record {
  source = ok (101 ∷ 102 ∷ []) ∷ [];
  buffer = 97 ∷ 98 ∷ 99 ∷ 100 ∷ replicate 8188 0;
  pos = 1;
  cap = 4;
}

partly-Inv : Inv partly
partly-Inv = record {
  size = ap (λ (n : ℕ). n + 4) (length-replicate {A = ℕ} 8188 0);
  pos_le = omega arith;
  cap_le = omega arith;
  fits = omega arith;
}

read_buffered_example :
    (bytes : List ℕ) × ((read 2 partly).1 ≡ ok bytes)
    × (length bytes ≡ 2)
    × (bytes ++ unread (read 2 partly).0 ≡ 98 ∷ 99 ∷ 100 ∷ [])
read_buffered_example = read_buffered 2 partly partly-Inv (omega arith)

abbrev used : BufferReader
used = record partly { pos = 4 }

used-Inv : Inv used
used-Inv = record {
  size = partly-Inv.size;
  pos_le = omega arith;
  cap_le = omega arith;
  fits = omega arith;
}

-- "bcd" is to be read, and a read of five bytes returns "abc".
read_stale_example :
    let (r', result) = read 5 partly in (result ≡ ok (97 ∷ 98 ∷ 99 ∷ [])) × (unread r' ≡ [])
read_stale_example = read_stale 5 partly partly-Inv (omega arith) (omega arith)

read_to_end-complete_example :
    content_of (read_to_end 3 [] partly) ≡ returns (98 ∷ 99 ∷ 100 ∷ 101 ∷ 102 ∷ [])
read_to_end-complete_example = read_to_end-complete partly partly-Inv

read_until_found_example :
    (r' : BufferReader) × (read_until 1 99 [] partly ≡ returns (98 ∷ 99 ∷ [], r'))
    × (unread r' ≡ 100 ∷ [])
    × Inv r'
    × (r'.source ≡ partly.source)
read_until_found_example =
    read_until_found 0 99 partly (98 ∷ []) (100 ∷ []) partly-Inv (omega arith) refl
