-- ===== src/Task/Join.antt =====
-- include/xyco/task/join.ccm: a future that waits for several others. The branches have one type of
-- value here. A branch ends in two steps, as other threads may come between: its result is stored,
-- and then, under the mutex, `check` looks whether all have one.
pub mod Once
pub mod Results
pub mod Examples
use xyco.Common.{
  ℕ, ◌+◌, Bool, true, false, ◌&&◌, not, Option, none, some, List, [], ◌∷◌, set, replicate,
  if◌then◌else◌,
}

-- std::expected<T, std::exception_ptr>
pub data Completed {ℓ} (V : Type ℓ) : Type ℓ where
  value : V → Completed V
  threw : ℕ → Completed V

pub record Join {ℓ} (V : Type ℓ) : Type ℓ where
  pub ready : Bool
  pub registered : Bool
  pub branches : List (Option (Completed V))

-- What `poll` does: Pending, with the branches spawned, at the first time; the values; an
-- exception rethrown; or std::bad_optional_access, thrown by `value` on an empty optional.
pub data Polled {ℓ} (V : Type ℓ) : Type ℓ where
  spawns : Polled V
  gives : List V → Polled V
  throws : ℕ → Polled V
  bad_access : Polled V

pub data Op {ℓ} (V : Type ℓ) : Type ℓ where
  completes : ℕ → Completed V → Op V
  checks : Op V

module _ {ℓ} {V : Type ℓ} where
  pub new : ℕ → Join V
  new n = record { ready = false; registered = false; branches = replicate n none }

  -- `branch.second` of the branch `i` is assigned.
  pub complete : ℕ → Completed V → Join V → Join V
  complete i r j = record j { branches = set j.branches i (some r) }

  abbrev pub has_value : Option (Completed V) → Bool
  has_value none = false
  has_value (some r) = true

  abbrev pub all_completed : List (Option (Completed V)) → Bool
  all_completed [] = true
  all_completed (b ∷ bs) = has_value b && all_completed bs

  -- The end of run_single_branch, and whether it registers the future.
  pub check : Join V → Join V × Bool
  check j =
      if j.registered
      then (j, false)
      else if all_completed j.branches
      then (record j { registered = true }, true)
      else (j, false)

  abbrev pub prepend : V → Polled V → Polled V
  prepend v (gives vs) = gives (v ∷ vs)
  prepend v spawns = spawns
  prepend v (throws e) = throws e
  prepend v bad_access = bad_access

  -- The results are taken from left to right.
  pub extract : List (Option (Completed V)) → Polled V
  extract [] = gives []
  extract (none ∷ bs) = bad_access
  extract (some (threw e) ∷ bs) = throws e
  extract (some (value v) ∷ bs) = prepend v (extract bs)

  pub poll : Join V → Join V × Polled V
  poll j = if not j.ready then (record j { ready = true }, spawns) else (j, extract j.branches)

  -- How often a history registers the future.
  pub run : Join V → List (Op V) → Join V × ℕ
  run j [] = (j, 0)
  run j (completes i r ∷ ops) = run (complete i r j) ops
  run j (checks ∷ ops) =
      let (j', now) = check j in let (j'', n) = run j' ops in (j'', if now then 1 + n else n)
