-- ===== src/Runtime/Future.antt =====
-- include/xyco/runtime/future.ccm: futures, their coroutine frames and what awaiting does to both. A
-- store holds the Future objects and the frames by their addresses, which are numbers; a null
-- pointer or handle is `none`. In a result, `none` is a null or dangling pointer that is used.
pub mod Cancel
pub mod Await
pub mod Ownership
pub mod Void
pub mod Examples
use xyco.Common.{
  ℕ, zero, suc, Bool, true, false, Option, none, some, List, ◌==◌, if◌then◌else◌, Poll, ready,
  pending,
}

-- Future<Output>. An exception_ptr is the number of an exception.
pub record Future {ℓ} (V : Type ℓ) : Type ℓ where
  pub returned : Option V
  pub exception : Option ℕ
  pub self : Option ℕ
  pub waiting : Option ℕ
  pub waited : Option ℕ
  pub cancelled : Bool

-- A coroutine frame: whether its promise is Future<void>'s, the promise's `future_`, and whether the
-- coroutine is done.
pub record Frame : Type 0 where
  pub is_void : Bool
  pub future : Option ℕ
  pub is_done : Bool

pub record Store {ℓ} (V : Type ℓ) : Type ℓ where
  pub futures : ℕ → Future V
  pub frames : ℕ → Option Frame

-- What await_suspend does with the caller: it stays suspended and the awaited coroutine is resumed,
-- it stays suspended, or it goes on.
pub data Suspended : Type 0 where
  resumes : ℕ → Suspended
  suspends : Suspended
  continues : Suspended

-- What await_resume does: rethrow an exception, throw CancelException, or give the value; without a
-- value `*return_` is undefined.
pub data Resumed {ℓ} (V : Type ℓ) : Type ℓ where
  throws : ℕ → Resumed V
  cancels : Resumed V
  returns : V → Resumed V
  undefined : Resumed V

-- The promise's `future()`, which is used without a test.
abbrev pub frame_future : Option Frame → Option ℕ
frame_future none = none
frame_future (some fr) = fr.future

abbrev pub frame_done : Option Frame → Bool
frame_done none = false
frame_done (some fr) = fr.is_done

abbrev pub first : Option ℕ → Option ℕ → Option ℕ
first none b = b
first (some a) b = some a

abbrev pub pointed : Option ℕ → Option (Option ℕ)
pointed none = none
pointed (some q) = some (some q)

module _ {ℓ} {V : Type ℓ} where
  abbrev pub put_future : ℕ → Future V → Store V → Store V
  put_future p x st = record st { futures = λ q. if q == p then x else st.futures q }

  abbrev pub put_frame : ℕ → Option Frame → Store V → Store V
  put_frame h x st = record st { frames = λ k. if k == h then x else st.frames k }

  -- A field of the future that a promise points at is set. A promise of Future<void> tests the
  -- pointer first.
  abbrev pub with_pointed : (Future V → Future V) → Bool → Option ℕ → Store V → Option (Store V)
  with_pointed f is_void none st = if is_void then some st else none
  with_pointed f is_void (some p) st = some (put_future p (f (st.futures p)) st)

  abbrev pub with_future : (Future V → Future V) → Option Frame → Store V → Option (Store V)
  with_future f none st = none
  with_future f (some fr) st = with_pointed f fr.is_void fr.future st

  -- `set_waited` of the promise of the frame `c`.
  pub set_waited : ℕ → Option ℕ → Store V → Option (Store V)
  set_waited c w st = with_future (λ f. record f { waited = w }) (st.frames c) st

  abbrev pub await_ready_of : Option ℕ → Store V → Bool
  await_ready_of none st = false
  await_ready_of (some h) st = frame_done (st.frames h)

  pub await_ready : ℕ → Store V → Bool
  await_ready p st = await_ready_of (st.futures p).self st

  -- The end of await_suspend for a Future object, whose `poll` gave an answer.
  abbrev pub polled : ℕ → Poll V → Store V → Store V × Suspended
  polled p pending st = (st, suspends)
  polled p (ready v) st = (put_future p (record (st.futures p) { returned = some v }) st, continues)

  abbrev pub resume_or_poll : ℕ → Poll V → Option ℕ → Store V → Store V × Suspended
  resume_or_poll p answer (some h) st = (st, resumes h)
  resume_or_poll p answer none st = polled p answer st

  abbrev pub then_suspend : ℕ → Poll V → Option (Store V) → Option (Store V × Suspended)
  then_suspend p answer none = none
  then_suspend p answer (some st) = some (resume_or_poll p answer (st.futures p).self st)

  -- The coroutine of the frame `c` awaits the future `p`; `answer` is what `poll` gives where `p` is a
  -- Future object. What a resumed coroutine does comes after.
  pub await_suspend : ℕ → ℕ → Poll V → Store V → Option (Store V × Suspended)
  await_suspend p c answer st = then_suspend p answer (
      set_waited c (st.futures p).self
        (put_future p (record (st.futures p) { waiting = some c }) st))

  abbrev pub value_or : Option V → Resumed V
  value_or none = undefined
  value_or (some v) = returns v

  abbrev pub outcome_of : Option ℕ → Bool → Option V → Resumed V
  outcome_of (some e) c r = throws e
  outcome_of none true r = cancels
  outcome_of none false r = value_or r

  abbrev pub outcome : Future V → Resumed V
  outcome f = outcome_of f.exception f.cancelled f.returned

  abbrev pub clear_waited : Option ℕ → Store V → Option (Store V)
  clear_waited none st = some st
  clear_waited (some c) st = set_waited c none st

  abbrev pub then_outcome : ℕ → Option (Store V) → Option (Store V × Resumed V)
  then_outcome p none = none
  then_outcome p (some st) = some (st, outcome (st.futures p))

  pub await_resume : ℕ → Store V → Option (Store V × Resumed V)
  await_resume p st = then_outcome p (clear_waited (st.futures p).waiting st)

  -- The promise of Future<Output> takes the value or the exception that its coroutine ends with.
  pub return_value : ℕ → V → Store V → Option (Store V)
  return_value h v st = with_future (λ f. record f { returned = some v }) (st.frames h) st

  pub unhandled_exception : ℕ → ℕ → Store V → Option (Store V)
  unhandled_exception h e st = with_future (λ f. record f { exception = some e }) (st.frames h) st

  -- The coroutine that final_suspend hands over to.
  abbrev pub waiting_of : Store V → Option ℕ → Option ℕ
  waiting_of st none = none
  waiting_of st (some p) = (st.futures p).waiting

  pub final_suspend : ℕ → Store V → Option ℕ
  final_suspend h st = waiting_of st (frame_future (st.frames h))

  -- `poll_wrapper`: whether the wait is over. An answer `none` is an exception, `e`, thrown by `poll`.
  pub poll_wrapper : ℕ → ℕ → Option (Poll V) → Store V → Store V × Bool
  poll_wrapper p e none st = (put_future p (record (st.futures p) { exception = some e }) st, true)
  poll_wrapper p e (some pending) st = (st, false)
  poll_wrapper p e (some (ready v)) st =
      (put_future p (record (st.futures p) { returned = some v }) st, true)

  pub get_handle : ℕ → Store V → Option ℕ
  get_handle p st = first (st.futures p).self (st.futures p).waiting

  -- `cancelled_ = true`
  pub mark : ℕ → Store V → Store V
  mark p st = put_future p (record (st.futures p) { cancelled = true }) st

  -- The future that the coroutine of `p` awaits: `some none` where `waited_` is null, and `none` where
  -- the way to it leads through a null pointer or a destroyed frame.
  abbrev pub awaited_of : Store V → Option ℕ → Option (Option ℕ)
  awaited_of st none = some none
  awaited_of st (some h) = pointed (frame_future (st.frames h))

  abbrev pub awaited : ℕ → Store V → Option (Option ℕ)
  awaited p st = awaited_of st (st.futures p).waited

  abbrev pub follow :
      (ℕ → Store V → Option (Store V)) → Option (Option ℕ) → Store V → Option (Store V)
  follow next none st = none
  follow next (some none) st = some st
  follow next (some (some q)) st = next q st

  -- The first argument bounds the depth of the calls.
  pub cancel : ℕ → ℕ → Store V → Option (Store V)
  cancel zero p st = none
  cancel (suc depth) p st = follow (cancel depth) (awaited p (mark p st)) (mark p st)

  -- `self_.promise().future_ = this`
  abbrev pub point_frame : ℕ → Option ℕ → Option Frame → Store V → Option (Store V)
  point_frame h p none st = none
  point_frame h p (some fr) st = some (put_frame h (some (record fr { future = p })) st)

  abbrev pub point_self : ℕ → Option ℕ → Store V → Option (Store V)
  point_self p none st = some st
  point_self p (some h) st = point_frame h (some p) (st.frames h) st

  -- Future(self), at the address `p`.
  pub construct : ℕ → Option ℕ → Store V → Option (Store V)
  construct p self st = point_self p self (
      put_future p
        (record {
          returned = none;
          exception = none;
          self = self;
          waiting = none;
          waited = none;
          cancelled = false;
        })
        st)

  abbrev pub take_fields : Future V → Future V → Future V
  take_fields from to = record to {
    returned = from.returned;
    self = from.self;
    waiting = from.waiting;
    waited = from.waited;
  }

  abbrev pub empty_fields : Future V → Future V
  empty_fields from = record from { self = none; waiting = none; waited = none }

  -- The move assignment from `source` to `target`. A moved-from optional keeps its state.
  abbrev pub moved : ℕ → ℕ → Store V → Store V
  moved target source st =
      let st' = put_future target (take_fields (st.futures source) (st.futures target)) st in
      put_future source (empty_fields (st'.futures source)) st'

  pub move_assign : ℕ → ℕ → Store V → Option (Store V)
  move_assign target source st =
      let st' = moved target source st in point_self target (st'.futures target).self st'

  -- The destructors of Future<Output> and of Future<void>.
  abbrev pub destroy_frame : Option ℕ → Store V → Store V
  destroy_frame none st = st
  destroy_frame (some h) st = put_frame h none st

  pub destroy : ℕ → Store V → Store V
  destroy p st = destroy_frame (st.futures p).self st

  abbrev pub detach_or_destroy : Option ℕ → Option ℕ → Store V → Option (Store V)
  detach_or_destroy none waiting st = some st
  detach_or_destroy (some h) none st = point_frame h none (st.frames h) st
  detach_or_destroy (some h) (some _) st = some (put_frame h none st)

  pub destroy_void : ℕ → Store V → Option (Store V)
  destroy_void p st = detach_or_destroy (st.futures p).self (st.futures p).waiting st
