-- ===== src/Task/Join/Once.antt =====
-- How often `join` is woken.
use xyco.Common.{
  zero, suc, Option, some, none, Bool-cases, inl, inr, set, ℕ, ◌≡◌, refl, true, false, List, [],
  ◌∷◌, ◌++◌, arith, if◌then◌else◌,
}
use xyco.Task.Join.{Join, Completed, Op, completes, checks, complete, check, all_completed, run}

module _ {ℓ} {V : Type ℓ} where
  check_done : (j : Join V) → j.registered ≡ true → check j ≡ (j, false)
  unfolding check
  check_done j h = rw h

  check_fires :
      (j : Join V)
      → j.registered ≡ false
      → all_completed j.branches ≡ true
      → check j ≡ (record j { registered = true }, true)
  unfolding check
  check_fires j h e = rw (h, e)

  check_waits :
      (j : Join V) → j.registered ≡ false → all_completed j.branches ≡ false → check j ≡ (j, false)
  unfolding check
  check_waits j h e = ground arith

  -- A join that was registered is never registered again.
  run_registered : (j : Join V) (ops : List (Op V)) → j.registered ≡ true → (run j ops).1 ≡ 0
  unfolding run complete check
  run_registered j [] h = refl
  run_registered j (completes i r ∷ ops) h = run_registered (complete i r j) ops h
  run_registered j (checks ∷ ops) h = ground (arith, run_registered (check j).0 ops)

  all_completed-set :
      (bs : List (Option (Completed V))) (i : ℕ) (r : Completed V)
      → all_completed bs ≡ true
      → all_completed (set bs i (some r)) ≡ true
  all_completed-set [] i r h = refl
  all_completed-set (some b ∷ bs) zero r h = h
  all_completed-set (some b ∷ bs) (suc i) r h = all_completed-set bs i r h
  all_completed-set (none ∷ bs) i r h = absurd (ground arith)

  run-all_completed :
      (j : Join V) (ops : List (Op V))
      → all_completed j.branches ≡ true
      → all_completed (run j ops).0.branches ≡ true
  unfolding run complete
  run-all_completed j [] h = h
  run-all_completed j (completes i r ∷ ops) h =
      run-all_completed (complete i r j) ops (all_completed-set j.branches i r h)
  run-all_completed j (checks ∷ ops) h = elim (Bool-cases j.registered) [
    | inl e ↦ rw (check_done j e) (run-all_completed j ops h)
    | inr e ↦ rw (check_fires j e h) (run-all_completed (record j { registered = true }) ops h)
  ]

  -- A join that is not registered yet, after any history of results and checks of branches, in any
  -- order, that ends with a check: the future was registered exactly once if every branch has a
  -- result, and not at all otherwise.
  pub run-checks :
      (j : Join V) (ops : List (Op V))
      → j.registered ≡ false
      → (run j (ops ++ (checks ∷ []))).1 ≡ (if all_completed (run j ops).0.branches then 1 else 0)
  unfolding run complete
  run-checks j [] h = elim (Bool-cases (all_completed j.branches)) [
    | inl e ↦ rw (check_fires j h e, e)
    | inr e ↦ rw (check_waits j h e, e)
  ]
  run-checks j (completes i r ∷ ops) h = run-checks (complete i r j) ops h
  run-checks j (checks ∷ ops) h = elim (Bool-cases (all_completed j.branches)) [
    | inl e ↦ rw (
      check_fires j h e,
      run_registered (record j { registered = true }) (ops ++ (checks ∷ [])) refl,
      run-all_completed (record j { registered = true }) ops e,
    )
    | inr e ↦ rw (check_waits j h e) (run-checks j ops h)
  ]
