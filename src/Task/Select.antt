-- ===== src/Task/Select.antt =====
-- include/xyco/task/select.ccm: a future that waits for the first of several others. The branches have
-- one type of value here. A branch ends in one step, under the mutex.
pub mod First
pub mod Results
pub mod Examples
use xyco.Common.{
  ℕ, ◌+◌, Bool, true, false, not, ◌&&◌, Option, none, some, List, [], ◌∷◌, set, replicate,
  if◌then◌else◌,
}
use xyco.Task.Join.{Completed, value, threw}

-- SelectFuture with its BranchShared: `is_alive` says whether `self_` is there.
pub record Select {ℓ} (V : Type ℓ) : Type ℓ where
  pub ready : Bool
  pub registered : Bool
  pub is_alive : Bool
  pub branches : List (Option (Completed V))

-- What `poll` does: Pending with the branches spawned; an optional value of each branch, with those
-- that have none cancelled; or an exception rethrown.
pub data Polled {ℓ} (V : Type ℓ) : Type ℓ where
  spawns : Polled V
  gives : List (Option V) → Polled V
  throws : ℕ → Polled V

-- A branch ends with a result; one ends with CancelException; the SelectFuture is destroyed.
pub data Op {ℓ} (V : Type ℓ) : Type ℓ where
  completes : ℕ → Completed V → Op V
  cancelled : ℕ → Op V
  drops : Op V

module _ {ℓ} {V : Type ℓ} where
  unfoldable pub new : ℕ → Select V
  new n = record { ready = false; registered = false; is_alive = true; branches = replicate n none }

  -- The end of run_single_branch, and whether it registers the future.
  abbrev pub notify : Select V → Select V × Bool
  notify s =
      if not s.registered && s.is_alive then (record s { registered = true }, true) else (s, false)

  unfoldable pub finish_branch : ℕ → Completed V → Select V → Select V × Bool
  finish_branch i r s = notify (record s { branches = set s.branches i (some r) })

  pub destroy : Select V → Select V
  destroy s = record s { is_alive = false }

  abbrev pub prepend : Option V → Polled V → Polled V
  prepend o (gives os) = gives (o ∷ os)
  prepend o spawns = spawns
  prepend o (throws e) = throws e

  -- The branches are taken from left to right.
  pub collect : List (Option (Completed V)) → Polled V
  collect [] = gives []
  collect (none ∷ bs) = prepend none (collect bs)
  collect (some (threw e) ∷ bs) = throws e
  collect (some (value v) ∷ bs) = prepend (some v) (collect bs)

  pub poll : Select V → Select V × Polled V
  poll s = if not s.ready then (record s { ready = true }, spawns) else (s, collect s.branches)

  abbrev pub step : Select V → Op V → Select V × Bool
  step s (completes i r) = finish_branch i r s
  step s (cancelled i) = (s, false)
  step s drops = (destroy s, false)

  -- How often a history registers the future.
  unfoldable pub run : Select V → List (Op V) → Select V × ℕ
  run s [] = (s, 0)
  run s (op ∷ ops) =
      let (s', now) = step s op in let (s'', n) = run s' ops in (s'', if now then 1 + n else n)
