-- ===== src/Time/Timeout/Decides.antt =====
-- What a timeout answers, by what its branches have done.
use xyco.Common.{
  ℕ, ◌⊎◌, inl, inr, ◌≡◌, refl, ap, ◌∙◌, Bool, true, false, set, Option, none, some, List, [], ◌∷◌,
  arith,
}
use xyco.Task.Join.{Completed, value}
use xyco.Task.Select.{Select, Op, completes, cancelled, finish_branch, run, Polled}
use xyco.Task.Select.Results.{results, poll-results}
use xyco.Time.Timeout.{Slept, Timed, in_time, timed_out, bad_access, decide, timeout, after_select}

-- What the branches do that end without an exception: the future ends with a value, the sleep ends, one of
-- them is cancelled.
pub data Move (T : Type 0) : Type 0 where
  ends : T → Move T
  sleeps : Move T
  stops : ℕ → Move T

module _ {T : Type 0} where
  abbrev pub op_of : Move T → Op (T ⊎ Slept)
  op_of (ends v) = completes 0 (value (inl v))
  op_of sleeps = completes 1 (value (inr tt))
  op_of (stops i) = cancelled i

  abbrev pub ops_of : List (Move T) → List (Op (T ⊎ Slept))
  ops_of [] = []
  ops_of (m ∷ ms) = op_of m ∷ ops_of ms

  -- The last value of the future, and whether the sleep has ended.
  abbrev pub value_in : Option T → List (Move T) → Option T
  value_in o [] = o
  value_in o (ends v ∷ ms) = value_in (some v) ms
  value_in o (sleeps ∷ ms) = value_in o ms
  value_in o (stops i ∷ ms) = value_in o ms

  abbrev pub slept_in : Bool → List (Move T) → Bool
  slept_in b [] = b
  slept_in b (ends v ∷ ms) = slept_in b ms
  slept_in b (sleeps ∷ ms) = slept_in true ms
  slept_in b (stops i ∷ ms) = slept_in b ms

  abbrev left : Option T → Option (T ⊎ Slept)
  left none = none
  left (some v) = some (inl v)

  abbrev right : Bool → Option (T ⊎ Slept)
  right false = none
  right true = some (inr tt)

  two : Option T → Bool → List (Option (Completed (T ⊎ Slept)))
  two o b = results (left o ∷ right b ∷ [])

  set_first :
      (o : Option T) (b : Bool) (v : T) → set (two o b) 0 (some (value (inl v))) ≡ two (some v) b
  unfolding two
  set_first none b v = refl
  set_first (some w) b v = refl

  set_second : (o : Option T) (b : Bool) → set (two o b) 1 (some (value (inr tt))) ≡ two o true
  unfolding two
  set_second o false = refl
  set_second o true = refl

  finish_branch-branches :
      (i : ℕ) (r : Completed (T ⊎ Slept)) (s : Select (T ⊎ Slept))
      → (finish_branch i r s).0.branches ≡ set s.branches i (some r)
  unfolding finish_branch
  finish_branch-branches i r s = ground arith

  run-branches :
      (ms : List (Move T)) (o : Option T) (b : Bool) (s : Select (T ⊎ Slept))
      → s.branches ≡ two o b
      → (run s (ops_of ms)).0.branches ≡ two (value_in o ms) (slept_in b ms)
  unfolding run
  run-branches [] o b s e = e
  run-branches (ends v ∷ ms) o b s e =
      run-branches ms (some v) b (finish_branch 0 (value (inl v)) s).0 (
        finish_branch-branches 0 (value (inl v)) s
        ∙ ap (λ bs. set bs 0 (some (value (inl v)))) e
        ∙ set_first o b v)
  run-branches (sleeps ∷ ms) o b s e =
      run-branches ms o true (finish_branch 1 (value (inr tt)) s).0 (
        finish_branch-branches 1 (value (inr tt)) s
        ∙ ap (λ bs. set bs 1 (some (value (inr tt)))) e
        ∙ set_second o b)
  run-branches (stops i ∷ ms) o b s e = run-branches ms o b s e

  -- The answer that is due.
  abbrev pub due : Option T → Bool → Timed T
  due o true = timed_out
  due (some v) false = in_time v
  due none false = bad_access

  decide-due : (o : Option T) (b : Bool) → decide (left o ∷ right b ∷ []) ≡ due o b
  decide-due none false = refl
  decide-due none true = refl
  decide-due (some v) false = refl
  decide-due (some v) true = refl

  -- The branches of a timeout end, in any order and with no exception, before it is polled again: it answers
  -- that the time is over if the sleep has ended, even where the future has ended as well, and before it;
  -- else it gives the last value of the future.
  pub timeout-run :
      (ms : List (Move T)) (s : Select (T ⊎ Slept))
      → s.branches ≡ none ∷ none ∷ []
      → timeout (record ((run s (ops_of ms)).0) { ready = true })
        ≡ due (value_in none ms) (slept_in false ms)
  unfolding timeout two
  timeout-run ms s e =
      let s' = (run s (ops_of ms)).0 in
      ap (λ (p : Select (T ⊎ Slept) × Polled (T ⊎ Slept)). after_select p.1)
        (poll-results (record s' { ready = true })
          (left (value_in none ms) ∷ right (slept_in false ms) ∷ []) refl
          (run-branches ms none false s e))
      ∙ decide-due (value_in none ms) (slept_in false ms)
