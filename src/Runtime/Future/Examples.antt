-- ===== src/Runtime/Future/Examples.antt =====
-- The theorems of futures at a concrete store: the coroutine 10 of the future 1 awaits the future 2 of
-- the coroutine 20, and the future 3 is empty.
use xyco.Common.{
  true, ◌==◌, if◌then◌else◌, ℕ, zero, suc, ◌≡◌, refl, false, Option, none, some, [], ◌∷◌, arith,
}
use xyco.Runtime.Future.Void
use xyco.Runtime.Future.Void.{Void, return_void, set_waited, unhandled_exception, rethrown}
use xyco.Runtime.Future.Void.Detached.{destroy_void-detached}
use xyco.Runtime.Future.{
  frame_future, destroy_void, Future, Frame, Store, cancel, await_resume, return_value,
  final_suspend, move_assign,
}
use xyco.Runtime.Future.Cancel.{cancel-Linked, cancelled_if, among}
use xyco.Runtime.Future.Await.{return_value-await_resume, given}
use xyco.Runtime.Future.Ownership.{Owned, move_assign-Owned}

abbrev future_of : Option ℕ → Option ℕ → Option ℕ → Future ℕ
future_of self waiting waited = record {
  returned = none;
  exception = none;
  self = self;
  waiting = waiting;
  waited = waited;
  cancelled = false;
}

abbrev frame_of : ℕ → Frame
frame_of p = record { is_void = false; future = some p; is_done = false }

abbrev futures_at : ℕ → Future ℕ
futures_at (suc zero) = future_of (some 10) none (some 20)
futures_at (suc (suc zero)) = future_of (some 20) (some 10) none
futures_at n = future_of none none none

abbrev frames_at : ℕ → Option Frame
frames_at n = if n == 10 then some (frame_of 1) else if n == 20 then some (frame_of 2) else none

abbrev two : Store ℕ
two = record { futures = futures_at; frames = frames_at }

two-Owned : Owned two
two-Owned zero = tt
two-Owned (suc zero) = refl
two-Owned (suc (suc zero)) = refl
two-Owned (suc (suc (suc n))) = tt

cancel-Linked_example :
    (st' : Store ℕ) × (cancel 2 1 two ≡ some st')
    × (st'.futures 2 ≡ cancelled_if (among 2 (1 ∷ 2 ∷ [])) (two.futures 2))
    × (st'.frames 2 ≡ two.frames 2)
cancel-Linked_example = cancel-Linked 2 1 2 (2 ∷ []) two (refl, refl) (omega arith)

return_value-await_resume_example :
    (st' : Store ℕ) × (st'' : Store ℕ) × (return_value 20 7 two ≡ some st')
    × (final_suspend 20 st' ≡ some 10)
    × (await_resume 2 st' ≡ some (st'', given false 7))
    × ((st''.futures 1).waited ≡ none)
return_value-await_resume_example =
    return_value-await_resume two 2 1 10 20 7 (frame_of 2, refl, refl) (frame_of 1, refl, refl)
      (λ e. omega (arith, e)) refl refl

move_assign-Owned_example :
    (st' : Store ℕ) × (move_assign 3 2 two ≡ some st')
    × Owned st'
    × ((st'.futures 3).self ≡ (two.futures 2).self)
    × ((st'.futures 2).self ≡ none)
move_assign-Owned_example = move_assign-Owned two 3 2 two-Owned (λ e. omega (arith, e)) refl

-- The future 1 of a spawned coroutine, 10.
abbrev spawned : Store Void
spawned = record {
  futures = λ p. record {
    returned = none;
    exception = none;
    self = if p == 1 then some 10 else none;
    waiting = none;
    waited = none;
    cancelled = false;
  };
  frames = λ h.
      if h == 10 then some (record { is_void = true; future = some 1; is_done = false }) else none;
}

destroy_void-detached_example :
    (st' : Store Void) × (destroy_void 1 spawned ≡ some st')
    × (frame_future (st'.frames 10) ≡ none)
    × (st'.futures ≡ spawned.futures)
    × (set_waited 10 (some 20) st' ≡ st')
    × (return_void 10 st' ≡ st')
    × (Void.final_suspend 10 st' ≡ none)
    × (unhandled_exception 10 7 st' ≡ rethrown 7)
destroy_void-detached_example =
    destroy_void-detached spawned 1 10 7 (some 20)
      (record { is_void = true; future = some 1; is_done = false }, refl, refl) refl refl
