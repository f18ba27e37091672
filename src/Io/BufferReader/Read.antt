-- ===== src/Io/BufferReader/Read.antt =====
-- What BufferReader::read copies out.
use xyco.Common.{
  drop-min, take-drop-append, take-min, min, ℕ, ◌+◌, ◌-◌, ◌≤◌, ◌<◌, ◌≡◌, List, [], ◌∷◌, ◌++◌,
  length, take, drop, arith, take-add, drop-drop, ap, ◌∙◌, length-take, length-drop,
  take-append_left,
}
use xyco.Utils.Error.{Error, err, Result, ok}
use xyco.Io.BufferReader.{BufferReader, slice, read_inner, fill_buffer, consume, read_filled, read}
use xyco.Io.BufferReader.Inv.{Inv, unread, fill_buffer-Inv}

pub slice-split :
    (buffer : List ℕ) (begin n m : ℕ)
    → slice buffer begin n ++ slice buffer (begin + n) m ≡ slice buffer begin (n + m)
slice-split buffer begin n m = rw (← drop-drop begin n buffer) (take-add n m (drop begin buffer))

-- The cast of `consume` to uint16_t loses nothing inside the buffer.
pub consume-pos :
    (n : ℕ) (r : BufferReader)
    → Inv r
    → n ≤ r.cap - r.pos
    → consume n r ≡ record r { pos = r.pos + n }
unfolding consume
consume-pos n r i h = ap (λ k. record r { pos = k }) (omega (arith, i.pos_le, i.cap_le))

pub unread-consume :
    (n : ℕ) (r : BufferReader)
    → Inv r
    → n ≤ r.cap - r.pos
    → slice r.buffer r.pos n ++ unread (consume n r) ≡ unread r
unread-consume n r i h = rw (consume-pos n r i h) (
    slice-split r.buffer r.pos n (r.cap - (r.pos + n))
    ∙ ap (slice r.buffer r.pos) (omega (arith, i.pos_le)))

pub length-slice :
    (buffer : List ℕ) (begin n : ℕ) → begin + n ≤ length buffer → length (slice buffer begin n) ≡ n
length-slice buffer begin n h =
    omega (arith, length-take n (drop begin buffer), length-drop begin buffer)

read_direct :
    (len : ℕ) (r : BufferReader)
    → len ≤ r.cap - r.pos
    → read len r ≡ (consume len r, ok (slice r.buffer r.pos len))
unfolding read
read_direct len r h = ground arith

-- A read of no more than is buffered returns as many bytes as asked for, the next ones in order,
-- and leaves the rest to be read.
pub read_buffered :
    (len : ℕ) (r : BufferReader)
    → Inv r
    → len ≤ r.cap - r.pos
    → (bytes : List ℕ) × ((read len r).1 ≡ ok bytes)
      × (length bytes ≡ len)
      × (bytes ++ unread (read len r).0 ≡ unread r)
read_buffered len r i h = (
  slice r.buffer r.pos len,
  rw (read_direct len r h),
  length-slice r.buffer r.pos len (omega (arith, i.pos_le, i.cap_le, i.size)),
  rw (read_direct len r h) (unread-consume len r i h),
)

read_through :
    (len : ℕ) (r : BufferReader)
    → r.cap - r.pos < len
    → read len r ≡ read_filled len (fill_buffer r)
unfolding read
read_through len r h = ground arith

-- `fill_buffer` while bytes are buffered.
pub fill_buffer_kept : (r : BufferReader) → r.pos < r.cap → fill_buffer r ≡ (r, ok (r.pos, r.cap))
unfolding fill_buffer
fill_buffer_kept r h = ground arith

-- The reader after a read of the inner reader.
abbrev pub filled : BufferReader → List ℕ → List (Result (List ℕ)) → BufferReader
filled r bytes rest = record r {
  source = rest;
  buffer = bytes ++ drop (length bytes) r.buffer;
  pos = 0;
  cap = length bytes;
}

-- `fill_buffer` with the buffer used up.
pub fill_buffer-filled :
    (r : BufferReader) (bytes : List ℕ) (rest : List (Result (List ℕ)))
    → r.pos ≡ r.cap
    → r.source ≡ ok bytes ∷ rest
    → fill_buffer r ≡ (filled r bytes rest, ok (0, length bytes))
unfolding fill_buffer read_inner
fill_buffer-filled r bytes rest e s = ground arith

pub fill_buffer_eof :
    (r : BufferReader)
    → r.pos ≡ r.cap
    → r.source ≡ []
    → fill_buffer r ≡ (record r { pos = 0; cap = 0 }, ok (0, 0))
unfolding fill_buffer read_inner
fill_buffer_eof r e s = ground arith

pub fill_buffer_failed :
    (r : BufferReader) (x : Error) (rest : List (Result (List ℕ)))
    → r.pos ≡ r.cap
    → r.source ≡ err x ∷ rest
    → fill_buffer r ≡ (record r { source = rest }, err x)
unfolding fill_buffer read_inner
fill_buffer_failed r x rest e s = ground arith

pub filled-Inv :
    (r : BufferReader) (bytes : List ℕ) (rest : List (Result (List ℕ)))
    → Inv r
    → r.pos ≡ r.cap
    → r.source ≡ ok bytes ∷ rest
    → Inv (filled r bytes rest)
filled-Inv r bytes rest i e s =
    rw (ap (λ (p : BufferReader × Result (ℕ × ℕ)). p.0) (fill_buffer-filled r bytes rest e s)) at
      (fill_buffer-Inv r i)

-- A read that finds the buffer used up returns the first bytes of what the inner reader gives, as
-- many as asked for or as there are, and leaves the others to be read.
pub read_refilled :
    (len : ℕ) (r : BufferReader) (bytes : List ℕ) (rest : List (Result (List ℕ)))
    → Inv r
    → r.pos ≡ r.cap
    → 0 < len
    → r.source ≡ ok bytes ∷ rest
    → let (r', result) = read len r in
      (result ≡ ok (take len bytes)) × (unread r' ≡ drop len bytes) × (r'.source ≡ rest)
unfolding read_filled
read_refilled len r bytes rest i e h s =
    rw (read_through len r (omega arith), fill_buffer-filled r bytes rest e s)
      (
        ap ok (take-append_left n bytes tail (omega arith) ∙ take-min n len bytes (omega arith)),
        rw consumed
            (take-drop-append n bytes tail (omega arith) ∙ drop-min n len bytes (omega arith)),
        rw consumed,
      )
  where
    n : ℕ
    n = min len (length bytes - 0)

    tail : List ℕ
    tail = drop (length bytes) r.buffer

    consumed : consume n (filled r bytes rest) ≡ record (filled r bytes rest) { pos = n }
    consumed =
        consume-pos n (filled r bytes rest) (filled-Inv r bytes rest i e s) (omega arith)
        ∙ ap (λ k. record (filled r bytes rest) { pos = k }) {x = 0 + n} (omega arith)

-- A read of more than is buffered, while some bytes are buffered, throws those away: it returns
-- that many bytes from the beginning of the buffer, and no byte is left to be read.
pub read_stale :
    (len : ℕ) (r : BufferReader)
    → Inv r
    → r.pos < r.cap
    → r.cap - r.pos < len
    → let (r', result) = read len r in
      (result ≡ ok (take (r.cap - r.pos) r.buffer)) × (unread r' ≡ [])
unfolding read_filled
read_stale len r i h l =
    rw (read_through len r l, fill_buffer_kept r h)
      (
        ap (λ k. ok (take k r.buffer)) {x = n} (omega arith),
        rw (consume-pos n r i (omega arith))
            (ap (λ k. take k (drop (r.pos + n) r.buffer)) {y = 0} (omega (arith, i.pos_le))),
      )
  where
    n : ℕ
    n = min len (r.cap - r.pos)
