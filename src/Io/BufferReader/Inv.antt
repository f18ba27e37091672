-- ===== src/Io/BufferReader/Inv.antt =====
-- The indices stay inside the buffer, whose size never changes.
use xyco.Common.{
  ℕ, ◌-◌, ◌≤◌, ◌≡◌, refl, List, [], ◌∷◌, length, drop, arith, length-append, length-drop,
  length-replicate,
}
use xyco.Utils.Error.{Result, ok, err}
use xyco.Io.BufferReader.{
  BufferReader, default_buffer_size, new, slice, read_inner, fill_buffer, consume, read_filled,
  read,
}

-- A read returns no more bytes than it was asked for, here the size of the buffer.
abbrev pub Fits : List (Result (List ℕ)) → Type 0
Fits [] = Unit
Fits (ok bytes ∷ rest) = (length bytes ≤ default_buffer_size) × Fits rest
Fits (err e ∷ rest) = Fits rest

pub record Inv (r : BufferReader) : Type 0 where
  pub size : length r.buffer ≡ default_buffer_size
  pub pos_le : r.pos ≤ r.cap
  pub cap_le : r.cap ≤ default_buffer_size
  pub fits : Fits r.source

pub new-Inv : (source : List (Result (List ℕ))) → Fits source → Inv (new source)
unfolding new
new-Inv source h = record {
  size = length-replicate {A = ℕ} default_buffer_size 0;
  pos_le = omega arith;
  cap_le = omega arith;
  fits = h;
}

read_inner-Inv :
    (source : List (Result (List ℕ))) (r : BufferReader)
    → Fits source
    → r.source ≡ source
    → Inv r
    → Inv (read_inner source r).0
unfolding read_inner
read_inner-Inv [] r f e h = ground arith
read_inner-Inv (ok bytes ∷ rest) r f e h =
    ground (
      arith,
      length-append bytes (drop (length bytes) r.buffer),
      length-drop (length bytes) r.buffer,
    )
read_inner-Inv (err x ∷ rest) r f e h = ground arith

pub fill_buffer-Inv : (r : BufferReader) → Inv r → Inv (fill_buffer r).0
unfolding fill_buffer
fill_buffer-Inv r h = ground (arith, read_inner-Inv r.source r h.fits refl h)

pub consume-Inv : (amt : ℕ) (r : BufferReader) → Inv r → Inv (consume amt r)
unfolding consume
consume-Inv amt r h = ground arith

read_filled-Inv :
    (len : ℕ) (r : BufferReader) (f : Result (ℕ × ℕ)) → Inv r → Inv (read_filled len (r, f)).0
unfolding read_filled
read_filled-Inv len r (ok _) h = consume-Inv _ r h
read_filled-Inv len r (err e) h = h

-- A read keeps the invariant of the buffered reader: the buffer has its fixed size, and what is
-- buffered and not consumed lies within it.
pub read-Inv : (len : ℕ) (r : BufferReader) → Inv r → Inv (read len r).0
unfolding read
read-Inv len r h = ground (
  arith,
  consume-Inv len r,
  fill_buffer-Inv r h,
  read_filled-Inv len (fill_buffer r).0 (fill_buffer r).1,
)

-- The bytes that are buffered and not yet consumed.
abbrev pub unread : BufferReader → List ℕ
unread r = slice r.buffer r.pos (r.cap - r.pos)
