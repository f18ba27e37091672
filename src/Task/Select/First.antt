-- ===== src/Task/Select/First.antt =====
-- How often `select` is woken.
use xyco.Common.{inr, ◌⊎◌, ◌≡◌, refl, Bool, true, false, List, [], ◌∷◌, arith, if◌then◌else◌}
use xyco.Task.Select.{Select, Op, completes, cancelled, drops, finish_branch, destroy, run}

module _ {ℓ} {V : Type ℓ} where
  run_quiet :
      (s : Select V) (ops : List (Op V))
      → (s.registered ≡ true) ⊎ (s.is_alive ≡ false)
      → (run s ops).1 ≡ 0
  unfolding run finish_branch destroy
  run_quiet s [] h = refl
  run_quiet s (completes i r ∷ ops) h = ground (arith, run_quiet (finish_branch i r s).0 ops)
  run_quiet s (cancelled i ∷ ops) h = run_quiet s ops h
  run_quiet s (drops ∷ ops) h = run_quiet (destroy s) ops (inr refl)

  -- Whether a branch ends with a result before the select is destroyed.
  abbrev pub wins : List (Op V) → Bool
  wins [] = false
  wins (completes i r ∷ ops) = true
  wins (cancelled i ∷ ops) = wins ops
  wins (drops ∷ ops) = false

  -- In every history of branches that end, in any order: the future is registered exactly once if
  -- some branch ends with a result before the select is destroyed, and else not at all.
  pub run-wins :
      (s : Select V) (ops : List (Op V))
      → s.registered ≡ false
      → s.is_alive ≡ true
      → (run s ops).1 ≡ (if wins ops then 1 else 0)
  unfolding run finish_branch destroy
  run-wins s [] h a = refl
  run-wins s (completes i r ∷ ops) h a = ground (arith, run_quiet (finish_branch i r s).0 ops)
  run-wins s (cancelled i ∷ ops) h a = run-wins s ops h a
  run-wins s (drops ∷ ops) h a = run_quiet (destroy s) ops (inr refl)
