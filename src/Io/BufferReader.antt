-- ===== src/Io/BufferReader.antt =====
-- include/xyco/io/buffer_reader.ccm and the loops of include/xyco/io/read.ccm. Bytes are numbers.
-- The inner reader is the list of what its reads return, one after the other; past the end of the
-- list a read returns no byte. An iterator into `buffer_` is an index.
pub mod Inv
pub mod Read
pub mod ReadToEnd
pub mod ReadUntil
pub mod Lines
pub mod Examples
use xyco.Common.{
  ℕ, zero, suc, ◌+◌, ◌-◌, ◌*◌, ◌%◌, ◌^◌, min, Bool, true, false, List, [], ◌∷◌, ◌++◌, length,
  get_or, take, drop, replicate, leb, ltb, ◌==◌, if◌then◌else◌,
}
use xyco.Utils.Error.{Error, Result, ok, err}

abbrev pub default_buffer_size : ℕ
default_buffer_size = 8 * 1024

pub record BufferReader : Type 0 where
  pub source : List (Result (List ℕ))
  pub buffer : List ℕ
  pub pos : ℕ
  pub cap : ℕ

pub new : List (Result (List ℕ)) → BufferReader
new source = record { source = source; buffer = replicate default_buffer_size 0; pos = 0; cap = 0 }

-- The bytes from index `begin` up to `begin + n`.
abbrev pub slice : List ℕ → ℕ → ℕ → List ℕ
slice buffer begin n = take n (drop begin buffer)

-- ReadExt::read into the buffer: the bytes overwrite its beginning.
pub read_inner : List (Result (List ℕ)) → BufferReader → BufferReader × Result (ℕ × ℕ)
read_inner [] r = (record r { pos = 0; cap = 0 }, ok (0, 0))
read_inner (ok bytes ∷ rest) r = (
  record r {
    source = rest;
    buffer = bytes ++ drop (length bytes) r.buffer;
    pos = 0;
    cap = length bytes;
  },
  ok (0, length bytes),
)
read_inner (err e ∷ rest) r = (record r { source = rest }, err e)

pub fill_buffer : BufferReader → BufferReader × Result (ℕ × ℕ)
fill_buffer r = if r.pos == r.cap then read_inner r.source r else (r, ok (r.pos, r.cap))

-- `amt` is a uint16_t.
pub consume : ℕ → BufferReader → BufferReader
consume amt r = record r { pos = min (r.pos + amt % 2 ^ 16) r.cap }

-- The second half of `read`, behind its `fill_buffer`.
pub read_filled : ℕ → BufferReader × Result (ℕ × ℕ) → BufferReader × Result (List ℕ)
read_filled len (r, err e) = (r, err e)
read_filled len (r, ok _) =
    let n = min len (r.cap - r.pos) in (consume n r, ok (slice r.buffer 0 n))

-- The bytes copied to the destination, which is `len` long; their number is what `read` returns.
pub read : ℕ → BufferReader → BufferReader × Result (List ℕ)
read len r =
    if leb len (r.cap - r.pos)
    then (consume len r, ok (slice r.buffer r.pos len))
    else read_filled len (fill_buffer r)

-- `undefined` is undefined behaviour: `*` on an error, or an iterator past the end of the buffer.
pub data Outcome {ℓ} (A : Type ℓ) : Type ℓ where
  returns : A → Outcome A
  undefined : Outcome A
  out_of_fuel : Outcome A

-- What the loops do next: with the content so far, and the reader.
abbrev pub Round : Type 0
Round = List ℕ → BufferReader → Outcome (List ℕ × BufferReader)

-- A round of BufferReadExt::read_to_end behind its `fill_buffer`.
pub read_to_end_round :
    Round → List ℕ → BufferReader × Result (ℕ × ℕ) → Outcome (List ℕ × BufferReader)
read_to_end_round again content (r, err e) = undefined
read_to_end_round again content (r, ok (begin, end)) =
    if begin == end
    then returns (content, r)
    else again (content ++ slice r.buffer begin (end - begin)) (consume (end - begin) r)

-- The loop of BufferReadExt::read_to_end, with fuel for its rounds.
pub read_to_end : ℕ → Round
read_to_end zero content r = out_of_fuel
read_to_end (suc fuel) content r = read_to_end_round (read_to_end fuel) content (fill_buffer r)

-- std::find: how many bytes of the range stand before `character`.
abbrev pub find : ℕ → List ℕ → ℕ
find character [] = 0
find character (x ∷ xs) = if x == character then 0 else suc (find character xs)

-- A round of BufferReadExt::read_until behind its `fill_buffer`. `n` is distance(begin, pos + 1).
pub read_until_round :
    Round → ℕ → List ℕ → BufferReader × Result (ℕ × ℕ) → Outcome (List ℕ × BufferReader)
read_until_round again character content (r, err e) = undefined
read_until_round again character content (r, ok (begin, end)) =
    let n = find character (slice r.buffer begin (end - begin)) + 1 in
    if begin == end
    then returns (content, r)
    else if ltb (length r.buffer) (begin + n)
    then undefined
    else if begin + n - 1 == end
    then again (content ++ slice r.buffer begin n) (consume n r)
    else returns (content ++ slice r.buffer begin n, consume n r)

pub read_until : ℕ → ℕ → Round
read_until zero character content r = out_of_fuel
read_until (suc fuel) character content r =
    read_until_round (read_until fuel character) character content (fill_buffer r)

pub read_line : ℕ → BufferReader → Outcome (List ℕ × BufferReader)
read_line fuel r = read_until fuel b'\n' [] r
