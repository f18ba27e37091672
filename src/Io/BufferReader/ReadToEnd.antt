-- ===== src/Io/BufferReader/ReadToEnd.antt =====
-- BufferReadExt::read_to_end returns all that is left.
use xyco.Common.{
  dec_lt, ℕ, zero, suc, ◌+◌, ◌-◌, ◌<◌, ◌≡◌, refl, sym, List, [], ◌∷◌, ◌++◌, length, take, drop,
  arith, ap, ◌∙◌, Option, some, none, append_assoc, append-nil, take-drop-append,
}
use mathlib.Core.Option
use xyco.Utils.Error.{Result, ok, err}
use xyco.Io.BufferReader.{
  read_to_end_round, BufferReader, slice, fill_buffer, consume, Outcome, returns, undefined,
  out_of_fuel, read_to_end,
}
use xyco.Io.BufferReader.Inv.{Inv, unread}
use xyco.Io.BufferReader.Read.{
  fill_buffer_failed, fill_buffer_eof, fill_buffer_kept, fill_buffer-filled, filled, filled-Inv,
  consume-pos,
}

-- What the inner reader gives before it reports the end of the file; none where it fails first.
abbrev pub until_eof : List (Result (List ℕ)) → Option (List ℕ)
until_eof [] = some []
until_eof (ok [] ∷ rest) = some []
until_eof (ok (b ∷ bytes) ∷ rest) = Option.map (◌++◌ (b ∷ bytes)) (until_eof rest)
until_eof (err e ∷ rest) = none

abbrev pub content_of : Outcome (List ℕ × BufferReader) → Outcome (List ℕ)
content_of (returns (content, r)) = returns content
content_of undefined = undefined
content_of out_of_fuel = out_of_fuel

-- The result that is due, with what has been read before.
abbrev pub complete : List ℕ → Option (List ℕ) → Outcome (List ℕ)
complete content (some bytes) = returns (content ++ bytes)
complete content none = undefined

complete-map :
    (xs ys : List ℕ) (o : Option (List ℕ))
    → complete (xs ++ ys) o ≡ complete xs (Option.map (◌++◌ ys) o)
complete-map xs ys none = refl
complete-map xs ys (some bytes) = ap returns (append_assoc xs ys bytes)

-- One round that finds bytes.
round :
    (fuel : ℕ) (content : List ℕ) (r r' : BufferReader) (begin end : ℕ)
    → fill_buffer r ≡ (r', ok (begin, end))
    → begin < end
    → read_to_end (suc fuel) content r
      ≡ read_to_end fuel (content ++ slice r'.buffer begin (end - begin)) (consume (end - begin) r')
unfolding read_to_end read_to_end_round
round fuel content r r' begin end e h = rw (e, read_to_end) (ground arith)

-- After it the buffer is used up.
pub used_up :
    (n : ℕ) (r : BufferReader) → Inv r → r.pos + n ≡ r.cap → consume n r ≡ record r { pos = r.cap }
used_up n r i e = consume-pos n r i (omega arith) ∙ ap (λ k. record r { pos = k }) {x = r.pos + n} e

read_to_end_used_up :
    (source : List (Result (List ℕ))) (fuel : ℕ) (content : List ℕ) (r : BufferReader)
    → length source < fuel
    → Inv r
    → r.pos ≡ r.cap
    → r.source ≡ source
    → content_of (read_to_end fuel content r) ≡ complete content (until_eof source)
unfolding read_to_end read_to_end_round
read_to_end_used_up source zero content r f i e s = absurd (omega arith)
read_to_end_used_up [] (suc fuel) content r f i e s =
    rw (fill_buffer_eof r e s) (sym (ap returns (append-nil content)))
read_to_end_used_up (err x ∷ rest) (suc fuel) content r f i e s =
    rw (fill_buffer_failed r x rest e s)
read_to_end_used_up (ok [] ∷ rest) (suc fuel) content r f i e s =
    rw (fill_buffer-filled r [] rest e s) (sym (ap returns (append-nil content)))
read_to_end_used_up (ok (b ∷ bs) ∷ rest) (suc fuel) content r f i e s =
    rw
      (
        round fuel content r (filled r (b ∷ bs) rest) 0 (length (b ∷ bs))
            (fill_buffer-filled r (b ∷ bs) rest e s) (omega arith),
        take-drop-append 0 (b ∷ bs) (drop (length (b ∷ bs)) r.buffer) (omega arith),
        used_up (length (b ∷ bs) - 0) (filled r (b ∷ bs) rest) i' (omega arith),
        read_to_end_used_up rest fuel (content ++ (b ∷ bs))
            (record (filled r (b ∷ bs) rest) { pos = length (b ∷ bs) }) (omega arith)
            (record { size = i'.size; pos_le = omega arith; cap_le = i'.cap_le; fits = i'.fits })
            refl refl,
      )
      (complete-map content (b ∷ bs) (until_eof rest))
  where
    i' : Inv (filled r (b ∷ bs) rest)
    i' = filled-Inv r (b ∷ bs) rest i e s

-- With fuel for one round more than the reads of the inner reader, and one for what is buffered,
-- `read_to_end` ends: with the bytes buffered and then all that the inner reader gives before it
-- reports the end of the file, or, where that fails first, in undefined behaviour.
pub read_to_end-complete :
    (r : BufferReader)
    → Inv r
    → content_of (read_to_end (length r.source + 2) [] r) ≡ complete (unread r) (until_eof r.source)
read_to_end-complete r i = elim (dec_lt r.pos r.cap) [
  | yes h ↦
      rw
        (
          ap (λ n. content_of (read_to_end n [] r)) {x = length r.source + 2}
              {y = suc (length r.source + 1)} (omega arith),
          round (length r.source + 1) [] r r r.pos r.cap (fill_buffer_kept r h) h,
          used_up (r.cap - r.pos) r i (omega (arith, i.pos_le)),
        )
        (read_to_end_used_up r.source (length r.source + 1) (unread r) (record r { pos = r.cap })
          (omega arith)
          (record { size = i.size; pos_le = omega arith; cap_le = i.cap_le; fits = i.fits }) refl
          refl)
  | no h ↦
      read_to_end_used_up r.source (length r.source + 2) [] r (omega arith) i
        (omega (arith, i.pos_le)) refl
      ∙ ap (λ k. complete (take k (drop r.pos r.buffer)) (until_eof r.source)) {x = 0}
          {y = r.cap - r.pos} (omega arith)
]
