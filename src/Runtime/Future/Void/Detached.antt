-- ===== src/Runtime/Future/Void/Detached.antt =====
-- A coroutine that is spawned, moved into the runtime and then dropped.
use xyco.Common.{ℕ, ◌≡◌, refl, Option, none, some}
use xyco.Runtime.Future.{Frame, Store, frame_future, put_frame, destroy_void}
use xyco.Runtime.Future.Await.{same, RunsFor}
use xyco.Runtime.Future.Void.{
  Void, final_suspend, unhandled_exception, return_void, set_waited, rethrown,
}

-- The store after the future at `p` of the frame `h`, for which no coroutine waits, is dropped: the frame
-- is kept, and its promise points nowhere.
abbrev pub detached : ℕ → Frame → Store Void → Store Void
detached h fr st = put_frame h (some (record fr { future = none })) st

-- A future for which no coroutine waits is dropped: its frame goes on. Whatever it does then, nothing is
-- written to where the future stood: setting what it waits for and returning change nothing, nobody is
-- resumed at its end, and an exception that it does not catch is thrown again.
pub destroy_void-detached :
    (st : Store Void) (p h e : ℕ) (w : Option ℕ)
    → RunsFor st h p
    → (st.futures p).self ≡ some h
    → (st.futures p).waiting ≡ none
    → (st' : Store Void) × (destroy_void p st ≡ some st')
      × (frame_future (st'.frames h) ≡ none)
      × (st'.futures ≡ st.futures)
      × (set_waited h w st' ≡ st')
      × (return_void h st' ≡ st')
      × (final_suspend h st' ≡ none)
      × (unhandled_exception h e st' ≡ rethrown e)
unfolding destroy_void set_waited return_void final_suspend unhandled_exception
destroy_void-detached st p h e w (fr, q, g) s n = (
  detached h fr st,
  rw (s, n, q) refl,
  rw (same h) refl,
  refl,
  rw (same h) refl,
  rw (same h) refl,
  rw (same h) refl,
  rw (same h) refl,
)
