-- ===== src/Time/Timeout/Examples.antt =====
-- The theorem of timeouts at a concrete input: the future ends with 7, and then the sleep ends.
use xyco.Common.{ℕ, ◌⊎◌, ◌≡◌, refl, true, false, none, List, [], ◌∷◌}
use xyco.Task.Select.{Select, run, new}
use xyco.Time.Timeout.{Slept, timeout}
use xyco.Time.Timeout.Decides.{Move, ends, sleeps, ops_of, value_in, slept_in, due, timeout-run}

abbrev moves : List (Move ℕ)
moves = ends 7 ∷ sleeps ∷ []

abbrev pair : Select (ℕ ⊎ Slept)
pair = new 2

timeout-run_example :
    timeout (record ((run pair (ops_of moves)).0) { ready = true })
    ≡ due (value_in none moves) (slept_in false moves)
unfolding new
timeout-run_example = timeout-run moves pair refl
