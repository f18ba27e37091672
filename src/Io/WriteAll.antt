-- ===== src/Io/WriteAll.antt =====
-- include/xyco/io/write.ccm: WriteExt::write_all. The writer is the list of what its `write` calls
-- return, one after the other; where the list ends, the coroutine waits for a further answer. The
-- error codes of <cerrno> are parameters.
pub mod Complete
pub mod Examples
use xyco.Common.{
  ℕ, ◌+◌, ◌-◌, ◌≤◌, Bool, true, false, not, ◌&&◌, ◌||◌, List, [], ◌∷◌, ◌++◌, length, take, drop,
  ◌==◌, if◌then◌else◌, ℤ, eqb,
}
use xyco.Utils.Error.{Error, Result, ok, err}

pub record Errno : Type 0 where
  pub eagain : ℤ
  pub ewouldblock : ℤ
  pub eintr : ℤ

-- `finished` with the coroutine's result, or `waiting`; with the bytes that the writer took.
pub data Progress : Type 0 where
  finished : List ℕ → Result (Unit {0}) → Progress
  waiting : List ℕ → Progress

module _ (codes : Errno) where
  -- The errors after which the loop goes round again.
  abbrev pub retried : Error → Bool
  retried e = eqb e.errno codes.eagain || eqb e.errno codes.ewouldblock || eqb e.errno codes.eintr

  -- The loop. `taken` is what the writer took, `total_write` bytes; the writer is offered the bytes
  -- from index `total_write` on.
  pub write_loop : List (Result ℕ) → List ℕ → ℕ → List ℕ → Progress
  write_loop [] buffer total_write taken =
      if total_write == length buffer then finished taken (ok tt) else waiting taken
  write_loop (ok nbytes ∷ answers) buffer total_write taken =
      let next =
        write_loop answers buffer (total_write + nbytes)
          (taken ++ take nbytes (drop total_write buffer)) in
      if total_write == length buffer then finished taken (ok tt) else next
  write_loop (err e ∷ answers) buffer total_write taken =
      let next = write_loop answers buffer total_write taken in
      if total_write == length buffer
      then finished taken (ok tt)
      else if not (retried e)
      then finished taken (err e)
      else next

  pub write_all : List (Result ℕ) → List ℕ → Progress
  unfolding write_loop
  write_all answers buffer = write_loop answers buffer 0 []
