-- ===== src/Net/Epoll/Connects.antt =====
-- A connect that has to wait.
use xyco.Io.Events.{erase_first, mem-push}
use xyco.Common.{
  ℕ, ℤ, true, false, ◌||◌, Option, some, ◌≡◌, [], ◌∷◌, ◌++◌, is_minus_one, ready, pending,
  OnPending, OnPending-if, arith, Bool-cases, inl, inr, subst, ap, ◌∙◌, ◌==◌,
}
use Prim.Native.String.{String}
use xyco.Utils.Error.{ok, into_sys_result}
use xyco.Io.Epoll.{
  gives, Registry, select, Ready, to_state, Interest, register, deregister, State, mark_registered,
}
use xyco.Runtime.Core.{Core, entry_of, wake}
use xyco.Runtime.Core.Fifo.{view}
use xyco.Net.Epoll.{Call, Reactor, state_of}
use xyco.Net.Epoll.Reads.{Waits, Waits-wakes}
use xyco.Net.Epoll.Socket.{poll_connect, connected_of}

-- The event that connect waits for keeps its interest, which its constructor set.
abbrev pub interest_of : ℕ → Reactor → Interest
interest_of event r = (r.registry.extras event).interest

poll_connect-Waits :
    (strerror : ℤ → String) (self event : ℕ) (ctl : Call) (so_error : ℤ) (r : Reactor)
    → OnPending
        (Waits self event (interest_of event r))
        (poll_connect strerror self event ctl so_error r)
unfolding poll_connect register deregister into_sys_result
poll_connect-Waits strerror self event ctl so_error r =
    OnPending-if _ (Waits self event (interest_of event r)) (state.error || state.writable) _ _
      (λ u. elim (Bool-cases (is_minus_one ctl.value)) [ inl e ↦ rw e tt | inr e ↦ rw e tt ])
      (λ u. elim (Bool-cases (is_minus_one ctl.value)) [
        | inl e ↦ rw e tt
        | inr e ↦ rw e (record {
          bound = rw (same);
          listed = mem-push event r.registry.events;
          interested = rw (same);
          registered = rw (state_of, same);
        })
      ])
  where
    state : State
    state = state_of event r

    same : (event == event) ≡ true
    same = ground arith

poll_connect-deregisters :
    (strerror : ℤ → String) (self event : ℕ) (ctl : Call) (so_error : ℤ) (r : Reactor)
    → (state_of event r).error || (state_of event r).writable ≡ true
    → is_minus_one ctl.value ≡ false
    → (r' : Reactor) × (poll_connect strerror self event ctl so_error r
        ≡ some (r', ready (connected_of strerror so_error (state_of event r))))
      × ((state_of event r').registered ≡ false)
unfolding poll_connect deregister into_sys_result
poll_connect-deregisters strerror self event ctl so_error r w v = (
  record r {
    registry =
        mark_registered event false
          (record (r.registry) { events = erase_first event r.registry.events });
  },
  rw (w, v),
  rw (state_of, same),
)
  where
    same : (event == event) ≡ true
    same = ground arith

-- A connect that suspends is woken by the first report of its event as writable or as failed:
-- `select` and `wake` then queue it, and no other future, and its next poll, where epoll_ctl takes
-- the event away, returns by what getsockopt has for SO_ERROR the new stream or that error, and
-- leaves the event deregistered.
pub poll_connect-wakes :
    (strerror : ℤ → String) (get_handle : ℕ → Option ℕ) (eintr : ℤ) (self event : ℕ) (bits : Ready)
    → (ctl ctl' : Call) (so_error so_error' : ℤ) (r r' : Reactor)
    → poll_connect strerror self event ctl so_error r ≡ some (r', pending)
    → (to_state bits).error || (to_state bits).writable ≡ true
    → is_minus_one ctl'.value ≡ false
    → (registry : Registry) × (core : Core) × (r'' : Reactor) × (select eintr
          (gives ((event, bits) ∷ []))
          r'.registry
          []
        ≡ some (registry, event ∷ [], ok tt))
      × (wake get_handle (event ∷ []) r'.core ≡ some core)
      × (view core.handles ≡ view r'.core.handles ++ (entry_of get_handle self ∷ []))
      × (poll_connect strerror self event ctl' so_error'
            (record { registry = registry; core = core })
          ≡ some (r'', ready (connected_of strerror so_error' (to_state bits))))
      × ((state_of event r'').registered ≡ false)
poll_connect-wakes strerror get_handle eintr self event bits ctl ctl' so_error so_error' r r' e h
      v =
    let w =
      subst (OnPending (Waits self event (interest_of event r))) e
        (poll_connect-Waits strerror self event ctl so_error r) in
    let (registry, core, s, k, q, n, t) =
      Waits-wakes get_handle eintr self event (interest_of event r) bits r' w in
    let woken : Reactor = record { registry = registry; core = core } in
    let (r'', p, d) =
      poll_connect-deregisters strerror self event ctl' so_error' woken
        (ap (λ u. u.error || u.writable) t ∙ h) v in
    (
      registry,
      core,
      r'',
      s,
      k,
      q,
      p ∙ ap (λ u. some (r'', ready (connected_of strerror so_error' u))) t,
      d,
    )
