-- ===== src/Runtime/Future/Void.antt =====
-- src/runtime/future.cc: Future<void>, on the store of the futures. Its promise may outlive its future:
-- a coroutine that is spawned goes on when its future is dropped.
pub mod Detached
use xyco.Common.{
  ℕ, zero, suc, Bool, true, false, Option, none, some, ◌==◌, if◌then◌else◌, Poll, ready, pending,
}
use xyco.Runtime.Future.{
  Future, Frame, Store, frame_future, put_future, put_frame, point_self, awaited, follow, mark,
  empty_fields,
}

abbrev pub Void : Type 0
Void = Unit {0}

-- The coroutine whose frame ends, where its promise points at a future.
abbrev pub waiting_at : Store Void → Option ℕ → Option ℕ
waiting_at st none = none
waiting_at st (some p) = (st.futures p).waiting

-- PromiseType::final_suspend: what FinalAwaitable hands over to.
pub final_suspend : ℕ → Store Void → Option ℕ
final_suspend h st = waiting_at st (frame_future (st.frames h))

-- How unhandled_exception ends: the exception is stored, or thrown out of `resume`.
pub data Unhandled : Type 0 where
  stored : Store Void → Unhandled
  rethrown : ℕ → Unhandled

abbrev pub store_exception : ℕ → Option ℕ → Store Void → Unhandled
store_exception e none st = rethrown e
store_exception e (some p) st =
    stored (put_future p (record (st.futures p) { exception = some e }) st)

pub unhandled_exception : ℕ → ℕ → Store Void → Unhandled
unhandled_exception h e st = store_exception e (frame_future (st.frames h)) st

abbrev pub if_pointed : (Future Void → Future Void) → Option ℕ → Store Void → Store Void
if_pointed f none st = st
if_pointed f (some p) st = put_future p (f (st.futures p)) st

-- `return_` is a bool here.
pub return_void : ℕ → Store Void → Store Void
return_void h st = if_pointed (λ f. record f { returned = some tt }) (frame_future (st.frames h)) st

pub set_waited : ℕ → Option ℕ → Store Void → Store Void
set_waited h w st = if_pointed (λ f. record f { waited = w }) (frame_future (st.frames h)) st

-- Future<void>::poll, where no class overrides it.
abbrev pub poll : ℕ → Poll Void
poll self = pending

-- `answer` is what `poll` gives, where `none` is the exception `e`.
pub poll_wrapper : ℕ → ℕ → Option (Poll Void) → Store Void → Store Void × Bool
poll_wrapper p e none st = (put_future p (record (st.futures p) { exception = some e }) st, true)
poll_wrapper p e (some pending) st = (st, false)
poll_wrapper p e (some (ready v)) st = (st, true)

-- The first argument bounds the depth of the calls.
pub cancel : ℕ → ℕ → Store Void → Option (Store Void)
cancel zero p st = none
cancel (suc depth) p st = follow (cancel depth) (awaited p (mark p st)) (mark p st)

-- Future(self), at the address `p`.
pub construct : ℕ → Option ℕ → Store Void → Option (Store Void)
construct p self st = point_self p self (
    put_future p
      (record {
        returned = none;
        exception = none;
        self = self;
        waiting = none;
        waited = none;
        cancelled = false;
      })
      st)

abbrev pub take_handles : Future Void → Future Void → Future Void
take_handles from to = record to { self = from.self; waiting = from.waiting; waited = from.waited }

-- The move assignment from `source` to `target`, which leaves return_ where it was.
abbrev pub moved : ℕ → ℕ → Store Void → Store Void
moved target source st =
    let st' = put_future target (take_handles (st.futures source) (st.futures target)) st in
    put_future source (empty_fields (st'.futures source)) st'

pub move_assign : ℕ → ℕ → Store Void → Option (Store Void)
move_assign target source st =
    let st' = moved target source st in point_self target (st'.futures target).self st'

-- The move constructor, which assigns to a future with no handles.
pub move_construct : ℕ → ℕ → Store Void → Option (Store Void)
move_construct target source st = elim (construct target none st) [
  | none ↦ none
  | some st' ↦ move_assign target source st'
]
