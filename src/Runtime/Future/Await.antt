-- ===== src/Runtime/Future/Await.antt =====
-- A coroutine awaits another one that ends with a value or an exception.
use xyco.Common.{ap, ◌∙◌, ℕ, ◌≡◌, ◌≢◌, refl, Bool, true, false, none, some, arith, Poll, ◌==◌}
use xyco.Runtime.Future.{
  throws, unhandled_exception, outcome, Resumed, with_future, Future, Frame, Store, set_waited,
  await_suspend, await_resume, return_value, final_suspend, resumes, returns, cancels, put_future,
}

pub same : (p : ℕ) → (p == p) ≡ true
same p = ground arith

pub other : (p q : ℕ) → p ≢ q → (q == p) ≡ false
other p q n = ground arith

pub other' : (p q : ℕ) → p ≢ q → (p == q) ≡ false
other' p q n = ground arith

module _ {ℓ} {V : Type ℓ} where
  -- The frame `h` is there, and its promise points at the future `p`.
  abbrev pub RunsFor : Store V → ℕ → ℕ → Type 0
  RunsFor st h p = (fr : Frame) × (st.frames h ≡ some fr) × (fr.future ≡ some p)

  put-same : (p : ℕ) (x : Future V) (st : Store V) → (put_future p x st).futures p ≡ x
  put-same p x st = rw (same p)

  put-other :
      (p q : ℕ) (x : Future V) (st : Store V) → p ≢ q → (put_future p x st).futures q ≡ st.futures q
  put-other p q x st n = rw (other p q n)

  -- What is set by the promise of a frame that runs for `p` is set in `p`.
  with_future-RunsFor :
      (f : Future V → Future V) (st : Store V) (h p : ℕ)
      → RunsFor st h p
      → with_future f (st.frames h) st ≡ some (put_future p (f (st.futures p)) st)
  with_future-RunsFor f st h p (fr, e, g) = rw (e, g)

  -- The coroutine `c` of the future `q` awaits the future `p` of the coroutine `h`: `h` is resumed, and
  -- `p` has `c` as the one that waits, and `q` has `h` as the one it waits for.
  pub await_suspend-RunsFor :
      (st : Store V) (p q c h : ℕ) (answer : Poll V)
      → RunsFor st c q
      → p ≢ q
      → (st.futures p).self ≡ some h
      → (st' : Store V) × (await_suspend p c answer st ≡ some (st', resumes h))
        × ((st'.futures p).waiting ≡ some c)
        × ((st'.futures q).waited ≡ some h)
  unfolding await_suspend set_waited
  await_suspend-RunsFor st p q c h answer r n s = (
    put_future q (record (st1.futures q) { waited = (st.futures p).self }) st1,
    rw (with_future-RunsFor (λ f. record f { waited = (st.futures p).self }) st1 c q r)
        (rw (other' p q n, same p, s)),
    rw (other' p q n, same p),
    rw (same q, s),
  )
    where
      st1 : Store V
      st1 = put_future p (record (st.futures p) { waiting = some c }) st

  -- What the awaiting coroutine gets where the awaited one ends with `v`.
  abbrev pub given : Bool → V → Resumed V
  given true v = cancels
  given false v = returns v

  final_suspend-RunsFor :
      (st : Store V) (h p : ℕ) → RunsFor st h p → final_suspend h st ≡ (st.futures p).waiting
  unfolding final_suspend
  final_suspend-RunsFor st h p (fr, e, g) = rw (e, g)

  await_resume-RunsFor :
      (st : Store V) (p q c : ℕ)
      → RunsFor st c q
      → p ≢ q
      → (st.futures p).waiting ≡ some c
      → await_resume p st
        ≡ some (put_future q (record (st.futures q) { waited = none }) st, outcome (st.futures p))
  unfolding await_resume set_waited
  await_resume-RunsFor st p q c r n w =
      rw (w, with_future-RunsFor (λ f. record f { waited = none }) st c q r, other' p q n) refl

  outcome-returned :
      (f : Future V) (v : V)
      → f.exception ≡ none
      → outcome (record f { returned = some v }) ≡ given f.cancelled v
  outcome-returned f v x = rw (x) (ground arith)

  -- The coroutine `h` of the future `p`, for which the coroutine `c` of `q` waits, ends with a value:
  -- the value is stored, `c` is what goes on, and it gets the value, or CancelException where `p` was
  -- cancelled; after that `q` waits for no coroutine.
  pub return_value-await_resume :
      (st : Store V) (p q c h : ℕ) (v : V)
      → RunsFor st h p
      → RunsFor st c q
      → p ≢ q
      → (st.futures p).waiting ≡ some c
      → (st.futures p).exception ≡ none
      → (st' : Store V) × (st'' : Store V) × (return_value h v st ≡ some st')
        × (final_suspend h st' ≡ some c)
        × (await_resume p st' ≡ some (st'', given (st.futures p).cancelled v))
        × ((st''.futures q).waited ≡ none)
  unfolding return_value final_suspend await_resume set_waited
  return_value-await_resume st p q c h v r r' n w x = (
    st1,
    put_future q (record (st1.futures q) { waited = none }) st1,
    with_future-RunsFor (λ f. record f { returned = some v }) st h p r,
    final_suspend-RunsFor st1 h p r ∙ rw (same p) w,
    await_resume-RunsFor st1 p q c r' n (rw (same p) w)
        ∙ ap (λ o. some (put_future q (record (st1.futures q) { waited = none }) st1, o))
            (ap outcome (put-same p (record (st.futures p) { returned = some v }) st)
              ∙ outcome-returned (st.futures p) v x),
    rw (same q),
  )
    where
      st1 : Store V
      st1 = put_future p (record (st.futures p) { returned = some v }) st

  -- The coroutine `h` of the future `p`, for which the coroutine `c` of `q` waits, ends with an
  -- exception: `c` is what goes on, and the exception is thrown there, even where `p` was cancelled;
  -- after that `q` waits for no coroutine.
  pub unhandled_exception-await_resume :
      (st : Store V) (p q c h e : ℕ)
      → RunsFor st h p
      → RunsFor st c q
      → p ≢ q
      → (st.futures p).waiting ≡ some c
      → (st' : Store V) × (st'' : Store V) × (unhandled_exception h e st ≡ some st')
        × (final_suspend h st' ≡ some c)
        × (await_resume p st' ≡ some (st'', throws e))
        × ((st''.futures q).waited ≡ none)
  unfolding unhandled_exception
  unhandled_exception-await_resume st p q c h e r r' n w = (
    st1,
    put_future q (record (st1.futures q) { waited = none }) st1,
    with_future-RunsFor (λ f. record f { exception = some e }) st h p r,
    final_suspend-RunsFor st1 h p r ∙ rw (same p) w,
    await_resume-RunsFor st1 p q c r' n (rw (same p) w)
        ∙ ap (λ o. some (put_future q (record (st1.futures q) { waited = none }) st1, o))
            (ap outcome (put-same p (record (st.futures p) { exception = some e }) st)),
    rw (same q),
  )
    where
      st1 : Store V
      st1 = put_future p (record (st.futures p) { exception = some e }) st
