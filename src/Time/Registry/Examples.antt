-- ===== src/Time/Registry/Examples.antt =====
-- The theorem of the registry of timers at a concrete input.
use xyco.Common.{◌+◌, ◌*◌, ◌/◌, ◌<◌, ◌≤◌, ◌++◌, ◌≡◌, refl, some, List, [], ◌∷◌, arith}
use xyco.Utils.Error.{ok}
use xyco.Time.Wheel.{Event, Wheel, new}
use xyco.Time.Wheel.Spread.{All}
use xyco.Time.Wheel.Exact.{Every}
use xyco.Time.Wheel.Weights.{weight, levels_weight}
use xyco.Time.Wheel.Examples.{timer, armed_lem, moved, expire_lem}
use xyco.Time.Registry.{poll_sleep, register, select}
use xyco.Time.Registry.History.{Op, sleeps, selects, run, requested}
use xyco.Time.Registry.Due.{run-select}

-- Future 7 sleeps 5 milliseconds, and the registry is asked after 6.
abbrev history : List Op
history = sleeps 0 7 5 ∷ selects 6000 ∷ []

history_lem : run 1000 history (new 0) [] ≡ some (moved, timer ∷ [])
unfolding run poll_sleep register select
history_lem = rw (run, armed_lem, expire_lem) refl

run-select_example :
    (w' : Wheel) × (events : List Event) × (select 1000 (1000 * (0 + 6 + 1)) moved []
      ≡ some ((w', events), ok tt))
    × All (λ e. e.expire_time / 1000 ≤ 0 + 6 + 1) ((timer ∷ []) ++ events)
    × Every (λ e. 0 + 6 + 1 < e.expire_time / 1000) w'.levels
    × (levels_weight (λ _. 1) w'.levels + weight (λ _. 1) ((timer ∷ []) ++ events)
        ≡ weight (λ _. 1) (requested 1000 history))
run-select_example =
    run-select (λ _. 1) 1000 0 6 1 history moved (timer ∷ []) (omega arith) (omega arith)
      (omega arith) (6, refl, omega arith, refl) history_lem
