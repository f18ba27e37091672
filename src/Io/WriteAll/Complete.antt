-- ===== src/Io/WriteAll/Complete.antt =====
-- What has been written when `write_all` ends, and that it ends.
use xyco.Common.{
  inr, take_all, inl, ◌==◌, Bool-cases, subst, ℕ, ◌+◌, ◌-◌, ◌≤◌, ◌<◌, ◌≡◌, true, false, List, [],
  ◌∷◌, ◌++◌, length, take, drop, arith, take-add, ◌∙◌, refl, suc,
}
use xyco.Utils.Error.{Result, ok, err}
use xyco.Io.WriteAll.{Errno, Progress, finished, waiting, retried, write_loop, write_all}

module _ (codes : Errno) where
  -- A write takes no more than it is offered.
  abbrev pub Offered : List (Result ℕ) → ℕ → Type 0
  Offered [] left = Unit
  Offered (ok nbytes ∷ answers) left = (nbytes ≤ left) × Offered answers (left - nbytes)
  Offered (err e ∷ answers) left = Offered answers left

  -- What the end of `write_all` promises.
  abbrev pub Written : List ℕ → Progress → Type 0
  Written buffer (finished taken (ok _)) = taken ≡ buffer
  Written buffer (finished taken (err e)) =
      (n : ℕ) × (n < length buffer) × (taken ≡ take n buffer) × (retried codes e ≡ false)
  Written buffer (waiting taken) = (n : ℕ) × (n < length buffer) × (taken ≡ take n buffer)

  write_loop-Written :
      (answers : List (Result ℕ)) (buffer : List ℕ) (total_write : ℕ) (taken : List ℕ)
      → Offered answers (length buffer - total_write)
      → total_write ≤ length buffer
      → taken ≡ take total_write buffer
      → Written buffer (write_loop codes answers buffer total_write taken)
  unfolding write_loop
  write_loop-Written [] buffer total_write taken o h e =
      elim (Bool-cases (total_write == length buffer)) [
        | inl d ↦ rw (d, write_loop) (e ∙ take_all total_write buffer (ground arith))
        | inr m ↦ rw (m, write_loop) (total_write, ground arith, e)
      ]
  write_loop-Written (ok nbytes ∷ answers) buffer total_write taken o h e =
      elim (Bool-cases (total_write == length buffer)) [
        | inl d ↦ rw (d, write_loop) (e ∙ take_all total_write buffer (ground arith))
        | inr m ↦
            rw (m, write_loop)
              (write_loop-Written answers buffer (total_write + nbytes)
                (taken ++ take nbytes (drop total_write buffer))
                (subst (Offered answers) {x = length buffer - total_write - nbytes} (omega arith)
                  o.1)
                (omega (arith, o.0)) (rw e (take-add total_write nbytes buffer)))
      ]
  write_loop-Written (err x ∷ answers) buffer total_write taken o h e =
      elim (Bool-cases (total_write == length buffer)) [
        | inl d ↦ rw (d, write_loop) (e ∙ take_all total_write buffer (ground arith))
        | inr m ↦
            rw (m, write_loop)
              (elim (Bool-cases (retried codes x)) [
                | inl again ↦ rw again (write_loop-Written answers buffer total_write taken o h e)
                | inr stop ↦ rw stop (total_write, ground arith, e, stop)
              ])
      ]

  -- With a writer that takes no more than it is offered: a success means that it took the whole
  -- buffer, in order; a failure is an error that is not retried, and what was taken is a proper
  -- prefix; and while the coroutine waits a proper prefix has been taken.
  pub write_all-Written :
      (answers : List (Result ℕ)) (buffer : List ℕ)
      → Offered answers (length buffer)
      → Written buffer (write_all codes answers buffer)
  unfolding write_all
  write_all-Written answers buffer o =
      write_loop-Written answers buffer 0 []
        (subst (Offered answers) {x = length buffer} (omega arith) o) (omega arith) refl

  -- Every answer takes something or is an error that is retried.
  abbrev pub Lively : List (Result ℕ) → Type 0
  Lively [] = Unit
  Lively (ok nbytes ∷ answers) = (0 < nbytes) × Lively answers
  Lively (err e ∷ answers) = (retried codes e ≡ true) × Lively answers

  abbrev pub successes : List (Result ℕ) → ℕ
  successes [] = 0
  successes (ok nbytes ∷ answers) = suc (successes answers)
  successes (err e ∷ answers) = successes answers

  -- The coroutine has ended with success.
  abbrev pub IsDone : Progress → Type 0
  IsDone (finished taken (ok _)) = Unit
  IsDone _ = ⊥

  write_loop-IsDone :
      (answers : List (Result ℕ)) (buffer : List ℕ) (total_write : ℕ) (taken : List ℕ)
      → Offered answers (length buffer - total_write)
      → Lively answers
      → total_write ≤ length buffer
      → length buffer ≤ total_write + successes answers
      → IsDone (write_loop codes answers buffer total_write taken)
  unfolding write_loop
  write_loop-IsDone [] buffer total_write taken o l h k =
      let e : total_write ≡ length buffer = omega arith in ground (arith, e)
  write_loop-IsDone (ok nbytes ∷ answers) buffer total_write taken o l h k =
      elim (Bool-cases (total_write == length buffer)) [
        | inl d ↦ rw (d, write_loop) tt
        | inr m ↦
            rw (m, write_loop)
              (write_loop-IsDone answers buffer (total_write + nbytes)
                (taken ++ take nbytes (drop total_write buffer))
                (subst (Offered answers) {x = length buffer - total_write - nbytes} (omega arith)
                  o.1)
                l.1 (omega (arith, o.0)) (omega (arith, l.0)))
      ]
  write_loop-IsDone (err x ∷ answers) buffer total_write taken o l h k =
      elim (Bool-cases (total_write == length buffer)) [
        | inl d ↦ rw (d, write_loop) tt
        | inr m ↦
            rw (m, write_loop)
              (rw (l.0) (write_loop-IsDone answers buffer total_write taken o l.1 h k))
      ]

  -- A writer whose errors are all retried and which takes at least one byte at every other answer
  -- has the whole buffer after as many of those as there are bytes: `write_all` ends with success.
  pub write_all-IsDone :
      (answers : List (Result ℕ)) (buffer : List ℕ)
      → Offered answers (length buffer)
      → Lively answers
      → length buffer ≤ successes answers
      → IsDone (write_all codes answers buffer)
  unfolding write_all
  write_all-IsDone answers buffer o l k =
      write_loop-IsDone answers buffer 0 []
        (subst (Offered answers) {x = length buffer} (omega arith) o) l (omega arith) (omega arith)
