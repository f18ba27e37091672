-- ===== src/Task/Select/Examples.antt =====
-- The theorems of `select` at concrete inputs.
use xyco.Common.{ℕ, ◌≡◌, refl, List, [], ◌∷◌, if◌then◌else◌}
use xyco.Task.Join.{value, threw}
use xyco.Task.Select.{Op, completes, cancelled, drops, new, run}
use xyco.Task.Select.First.{wins, run-wins}

abbrev history : List (Op ℕ)
history = cancelled 0 ∷ completes 1 (value 7) ∷ completes 2 (threw 9) ∷ drops ∷ []

run-wins_example : (run (new 3) history).1 ≡ (if wins history then 1 else 0)
unfolding new
run-wins_example = run-wins (new 3) history refl refl
