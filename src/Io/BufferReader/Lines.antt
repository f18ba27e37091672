-- ===== src/Io/BufferReader/Lines.antt =====
-- BufferReadExt::read_line, as its callers use it: one line after the other.
use xyco.Common.{
  zero, take_all, ℕ, suc, ◌-◌, ◌≤◌, ◌<◌, ◌≡◌, refl, sym, List, [], ◌∷◌, ◌++◌, length, arith, ap,
  ◌∙◌, take-append_left,
}
use xyco.Utils.Error.{Result, ok}
use xyco.Io.BufferReader.{
  BufferReader, default_buffer_size, new, returns, read_until, read_until_round, read_line,
}
use xyco.Io.BufferReader.Inv.{Inv, unread, Fits, new-Inv}
use xyco.Io.BufferReader.Read.{
  fill_buffer_kept, fill_buffer_eof, fill_buffer-filled, filled, filled-Inv,
}
use xyco.Io.BufferReader.ReadUntil.{length-unread, Lacks, read_until_found}

-- A buffered line is returned with its line feed.
pub read_line_found :
    (fuel : ℕ) (r : BufferReader) (pre rest : List ℕ)
    → Inv r
    → Lacks b'\n' pre
    → unread r ≡ pre ++ (b'\n' ∷ rest)
    → (r' : BufferReader) × (read_line (suc fuel) r ≡ returns (pre ++ (b'\n' ∷ []), r'))
      × (unread r' ≡ rest)
      × Inv r'
      × (r'.source ≡ r.source)
unfolding read_line
read_line_found fuel r pre rest i l u = read_until_found fuel b'\n' r pre rest i l u

-- The reader of a stream after its first read.
abbrev pub opened : List ℕ → List (Result (List ℕ)) → BufferReader
opened bytes rest = filled (new (ok bytes ∷ rest)) bytes rest

pub opened-Inv :
    (bytes : List ℕ) (rest : List (Result (List ℕ)))
    → length bytes ≤ default_buffer_size
    → Fits rest
    → Inv (opened bytes rest)
unfolding new
opened-Inv bytes rest b f =
    filled-Inv (new (ok bytes ∷ rest)) bytes rest (new-Inv (ok bytes ∷ rest) (b, f)) refl refl

pub unread-opened :
    (bytes : List ℕ) (rest : List (Result (List ℕ))) → unread (opened bytes rest) ≡ bytes
unread-opened bytes rest =
    take-append_left (length bytes - 0) bytes _ (omega arith)
    ∙ take_all (length bytes - 0) bytes (omega arith)

new-pos : (source : List (Result (List ℕ))) → (new source).pos ≡ (new source).cap
unfolding new
new-pos source = refl

pub unread-new : (source : List (Result (List ℕ))) → unread (new source) ≡ []
unfolding new
unread-new source = refl

pub new-source : (source : List (Result (List ℕ))) → (new source).source ≡ source
unfolding new
new-source source = refl

-- The first line makes the first read.
read_line_first :
    (fuel b : ℕ) (bytes : List ℕ) (rest : List (Result (List ℕ)))
    → read_line fuel (new (ok (b ∷ bytes) ∷ rest)) ≡ read_line fuel (opened (b ∷ bytes) rest)
unfolding read_line read_until
read_line_first zero b bytes rest = refl
read_line_first (suc fuel) b bytes rest = ap (read_until_round (read_until fuel b'\n') b'\n' []) (
    fill_buffer-filled (new (ok (b ∷ bytes) ∷ rest)) (b ∷ bytes) rest (new-pos _) (new-source _)
    ∙ sym (fill_buffer_kept (opened (b ∷ bytes) rest) (omega arith)))

pub read_line-opened :
    (fuel : ℕ) (bytes : List ℕ) (rest : List (Result (List ℕ)))
    → 0 < length bytes
    → read_line fuel (new (ok bytes ∷ rest)) ≡ read_line fuel (opened bytes rest)
read_line-opened fuel [] rest h = absurd (omega arith)
read_line-opened fuel (b ∷ bytes) rest h = read_line_first fuel b bytes rest

-- Behind the last line of a stream that has ended, the line is empty.
pub read_line_end :
    (fuel : ℕ) (r : BufferReader)
    → Inv r
    → unread r ≡ []
    → r.source ≡ []
    → (r' : BufferReader) × (read_line (suc fuel) r ≡ returns ([], r'))
unfolding read_line read_until read_until_round
read_line_end fuel r i u s = (
  record r { pos = 0; cap = 0 },
  rw (fill_buffer_eof r (omega (arith, i.pos_le, length-unread r i, ap length u)) s) refl,
)
