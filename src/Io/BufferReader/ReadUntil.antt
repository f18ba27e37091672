-- ===== src/Io/BufferReader/ReadUntil.antt =====
-- BufferReadExt::read_until, with the delimiter in the buffer and without it.
use xyco.Common.{
  append-cancel, take-one-drop, take_all, ℕ, suc, ◌+◌, ◌-◌, ◌≤◌, ◌<◌, ◌≡◌, ◌≢◌, refl, sym, List, [],
  ◌∷◌, ◌++◌, length, take, drop, arith, ap, ◌∙◌, append_assoc, take-take, get_or, length-append,
  take-append_left,
}
use xyco.Utils.Error.{ok}
use xyco.Io.BufferReader.{
  BufferReader, default_buffer_size, slice, consume, returns, undefined, find, read_until,
  read_until_round,
}
use xyco.Io.BufferReader.Inv.{Inv, consume-Inv, unread}
use xyco.Io.BufferReader.Read.{
  slice-split, fill_buffer_kept, fill_buffer_eof, unread-consume, length-slice,
}
use xyco.Io.BufferReader.ReadToEnd.{content_of}

-- The byte does not occur.
abbrev pub Lacks : ℕ → List ℕ → Type 0
Lacks character [] = Unit
Lacks character (x ∷ xs) = (x ≢ character) × Lacks character xs

find-Lacks : (character : ℕ) (xs : List ℕ) → Lacks character xs → find character xs ≡ length xs
find-Lacks character [] h = refl
find-Lacks character (x ∷ xs) h = ground (arith, find-Lacks character xs h.1)

pub find-append :
    (character : ℕ) (pre rest : List ℕ)
    → Lacks character pre
    → find character (pre ++ (character ∷ rest)) ≡ length pre
find-append character [] rest h = ground arith
find-append character (x ∷ xs) rest h = ground (arith, find-append character xs rest h.1)

pub length-unread : (r : BufferReader) → Inv r → length (unread r) ≡ r.cap - r.pos
length-unread r i =
    length-slice r.buffer r.pos (r.cap - r.pos) (omega (arith, i.pos_le, i.cap_le, i.size))

-- A round with bytes in the buffer.
round :
    (fuel character : ℕ) (content : List ℕ) (r : BufferReader)
    → r.pos < r.cap
    → read_until (suc fuel) character content r
      ≡ read_until_round (read_until fuel character) character content (r, ok (r.pos, r.cap))
unfolding read_until
round fuel character content r h = rw (fill_buffer_kept r h)

round_found :
    (fuel character : ℕ) (r : BufferReader)
    → Inv r
    → find character (unread r) < r.cap - r.pos
    → read_until (suc fuel) character [] r
      ≡ returns (
        slice r.buffer r.pos (find character (unread r) + 1),
        consume (find character (unread r) + 1) r,
      )
unfolding read_until_round
round_found fuel character r i h =
    rw (round fuel character [] r (omega arith)) (ground (arith, i.size, i.cap_le, i.pos_le))

-- Where the delimiter is among the buffered bytes, `read_until` returns the bytes up to the first
-- occurrence, and it, in one round, reads nothing from the inner reader, leaves what follows to be read
-- and keeps the invariant of the buffered reader.
pub read_until_found :
    (fuel character : ℕ) (r : BufferReader) (pre rest : List ℕ)
    → Inv r
    → Lacks character pre
    → unread r ≡ pre ++ (character ∷ rest)
    → (r' : BufferReader) × (read_until (suc fuel) character [] r
        ≡ returns (pre ++ (character ∷ []), r'))
      × (unread r' ≡ rest)
      × Inv r'
      × (r'.source ≡ r.source)
unfolding consume
read_until_found fuel character r pre rest i l u = (
  consume n r,
  round_found fuel character r i (omega (arith, within))
      ∙ ap (λ bytes. returns (bytes, consume n r)) prefix,
  append-cancel (pre ++ (character ∷ [])) (
      ap (λ bytes. bytes ++ unread (consume n r)) (sym prefix)
      ∙ unread-consume n r i within
      ∙ u
      ∙ sym (append_assoc pre (character ∷ []) rest)),
  consume-Inv n r i,
  refl,
)
  where
    n : ℕ
    n = find character (unread r) + 1

    found : find character (unread r) ≡ length pre
    found = ap (find character) u ∙ find-append character pre rest l

    within : n ≤ r.cap - r.pos
    within =
        omega (arith, found, length-unread r i, ap length u, length-append pre (character ∷ rest))

    prefix : slice r.buffer r.pos n ≡ pre ++ (character ∷ [])
    prefix =
        sym (take-take n (r.cap - r.pos) (drop r.pos r.buffer) within)
        ∙ ap (take n) (u ∙ sym (append_assoc pre (character ∷ []) rest))
        ∙ take-append_left n (pre ++ (character ∷ [])) rest
            (omega (arith, found, length-append pre (character ∷ [])))
        ∙ take_all n (pre ++ (character ∷ []))
            (omega (arith, found, length-append pre (character ∷ [])))

round_overrun :
    (fuel character : ℕ) (r : BufferReader)
    → Inv r
    → r.pos < r.cap
    → r.cap < default_buffer_size
    → Lacks character (unread r)
    → read_until (suc fuel) character [] r
      ≡ read_until fuel character
          (slice r.buffer r.pos (r.cap - r.pos + 1))
          (record r { pos = r.cap })
unfolding read_until_round consume
round_overrun fuel character r i h c l =
    rw (round fuel character [] r h, find-Lacks character (unread r) l, length-unread r i)
      (ground (arith, i.size))

-- Where the delimiter is not among the buffered bytes, of which there are some, and the buffer is not
-- full and the inner reader is at its end, `read_until` returns the buffered bytes followed by one byte
-- more: the one that stands behind them in the buffer.
pub read_until_overrun :
    (fuel character : ℕ) (r : BufferReader)
    → Inv r
    → r.pos < r.cap
    → r.cap < default_buffer_size
    → Lacks character (unread r)
    → r.source ≡ []
    → content_of (read_until (suc (suc fuel)) character [] r)
      ≡ returns (unread r ++ (get_or r.buffer r.cap 0 ∷ []))
unfolding read_until read_until_round
read_until_overrun fuel character r i h c l s =
    rw
      (
        round_overrun (suc fuel) character r i h c l,
        fill_buffer_eof (record r { pos = r.cap }) refl s,
      )
      (ap returns (
        sym (slice-split r.buffer r.pos (r.cap - r.pos) 1)
        ∙ ap (◌++◌ (unread r)) (
            ap (λ k. slice r.buffer k 1) {x = r.pos + (r.cap - r.pos)} (omega arith)
            ∙ take-one-drop r.cap r.buffer 0 (omega (arith, i.size)))))

-- Where the delimiter is not among the buffered bytes, of which there are some, and they reach to the
-- end of the buffer, the copy of `read_until` runs past that end.
pub read_until_past_end :
    (fuel character : ℕ) (r : BufferReader)
    → Inv r
    → r.pos < r.cap
    → r.cap ≡ default_buffer_size
    → Lacks character (unread r)
    → read_until (suc fuel) character [] r ≡ undefined
unfolding read_until_round
read_until_past_end fuel character r i h c l =
    rw (round fuel character [] r h)
      (ground (arith, i.size, find-Lacks character (unread r) l, length-unread r i))
