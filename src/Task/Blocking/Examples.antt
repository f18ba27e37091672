-- ===== src/Task/Blocking/Examples.antt =====
-- The theorem of the blocking pool at a concrete input.
use xyco.Common.{◌+◌, ◌≡◌, refl, true, false, some, List, [], ◌∷◌, arith}
use xyco.Task.Blocking.{
  Registry, new, register, spawn, min_from, run_task, select, pending_events, returned_events,
}
use xyco.Task.Blocking.Counts.{queued, count}
use xyco.Task.Blocking.History.{Op, registers, runs, selects, run, fresh, run-Kept}

-- The calls 1 and 2 go to the two workers, and 2 returns 8.
abbrev history : List Op
history = registers 1 ∷ registers 2 ∷ runs 1 8 ∷ selects ∷ []

abbrev left : Registry
left = record { events = fresh 1 ∷ []; workers = (1 ∷ []) ∷ [] ∷ [] }

history_lem : run history (new 2) [] ≡ some (left, record { id = 2; after_extra = some 8 } ∷ [])
unfolding run new register spawn min_from run_task select pending_events returned_events
history_lem = refl

run-Kept_example :
    (queued 2 left.workers ≡ count false 2 left.events)
    × (count false 2 left.events
          + count true 2 left.events
          + count true 2 (record { id = 2; after_extra = some 8 } ∷ [])
        ≡ 1)
    × (count false 2 (record { id = 2; after_extra = some 8 } ∷ []) ≡ 0)
run-Kept_example =
    run-Kept 2 2 history left (record { id = 2; after_extra = some 8 } ∷ []) (omega arith)
      history_lem
