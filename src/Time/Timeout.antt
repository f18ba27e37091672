-- ===== src/Time/Timeout.antt =====
-- include/xyco/time/timeout.ccm: a future with a limit of time. It is a select of the future and of a sleep,
-- which ends with a null pointer; the values of the two branches have one type here.
pub mod Decides
pub mod Examples
use xyco.Common.{ℕ, ◌⊎◌, inl, inr, Option, none, some, List, [], ◌∷◌}
use xyco.Task.Select.{Select, Polled, spawns, gives, throws, poll}

-- What the wrapped sleep returns.
abbrev pub Slept : Type 0
Slept = Unit {0}

-- What becomes of a timeout: it waits, returns the value or std::unexpected, or throws: what a branch threw
-- or std::bad_optional_access.
pub data Timed (T : Type 0) : Type 0 where
  waits : Timed T
  in_time : T → Timed T
  timed_out : Timed T
  rethrows : ℕ → Timed T
  bad_access : Timed T

module _ {T : Type 0} where
  -- `result.value()`
  abbrev pub value_of : Option (T ⊎ Slept) → Timed T
  value_of (some (inl v)) = in_time v
  value_of other = bad_access

  -- Behind the select, of which `result` and `sleep_result` are taken.
  abbrev pub decide : List (Option (T ⊎ Slept)) → Timed T
  decide (result ∷ some slept ∷ []) = timed_out
  decide (result ∷ none ∷ []) = value_of result
  decide other = bad_access

  abbrev pub after_select : Polled (T ⊎ Slept) → Timed T
  after_select spawns = waits
  after_select (gives results) = decide results
  after_select (throws e) = rethrows e

  pub timeout : Select (T ⊎ Slept) → Timed T
  timeout s = after_select (poll s).1
