-- ===== src/Task/Join/Examples.antt =====
-- The theorems of `join` at concrete inputs.
use xyco.Common.{ℕ, ◌≡◌, refl, List, [], ◌∷◌, ◌++◌, if◌then◌else◌}
use xyco.Task.Join.{Op, completes, checks, value, threw, new, all_completed, run}
use xyco.Task.Join.Once.{run-checks}

abbrev history : List (Op ℕ)
history = completes 1 (value 7) ∷ checks ∷ completes 0 (threw 9) ∷ checks ∷ []

run-checks_example :
    (run (new 2) (history ++ (checks ∷ []))).1
    ≡ (if all_completed (run (new 2) history).0.branches then 1 else 0)
unfolding new
run-checks_example = run-checks (new 2) history refl
