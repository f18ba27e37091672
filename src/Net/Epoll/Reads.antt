-- ===== src/Net/Epoll/Reads.antt =====
-- A read that has to wait.
use xyco.Io.Events.{erase_first, mem, mem-push}
use xyco.Common.{
  ◌∙◌, ap, subst, ◌++◌, [], ◌∷◌, ℤ, ℕ, ◌≡◌, refl, Bool, true, false, ◌||◌, not, ◌&&◌, Option, none,
  some, ◌==◌, Bool-cases, inl, inr, arith, is_minus_one, ready, pending, OnPending, OnPending-if,
}
use xyco.Utils.Error.{ok, into_sys_result}
use xyco.Io.Epoll.{
  set_state, gives, Registry, take_ready, select, Ready, to_state, State, Interest, reads, register,
  reregister,
}
use xyco.Runtime.Core.{Core, entry_of, wake}
use xyco.Runtime.Core.Fifo.{view}
use xyco.Runtime.Core.Wake.{is_among, wake-Bound}
use xyco.Net.Epoll.{
  clear_readable, would_block, Call, Errno, Reactor, state_of, wait_first, wait_again, poll_read,
}

-- The future waits for the event, and the event is registered.
pub record Waits (self event : ℕ) (interest : Interest) (r : Reactor) : Type 0 where
  pub bound : r.core.bound event ≡ some self
  pub listed : mem event r.registry.events ≡ true
  pub interested : (r.registry.extras event).interest ≡ interest
  pub registered : (state_of event r).registered ≡ true

same : (p : ℕ) → (p == p) ≡ true
same p = ground arith

pub wait_first-Waits {ℓ} :
    (A : Type ℓ) (ctl : Call) (event self : ℕ) (interest : Interest) (r : Reactor)
    → OnPending {A = A} (Waits self event interest) (wait_first ctl event self interest r)
unfolding register into_sys_result
wait_first-Waits A ctl event self interest r = elim (Bool-cases (is_minus_one ctl.value)) [
  | inl e ↦ rw e tt
  | inr e ↦ rw e (record {
    bound = rw (same event);
    listed = mem-push event r.registry.events;
    interested = rw (same event);
    registered = rw (state_of, same event);
  })
]

pub wait_again-Waits {ℓ} :
    (A : Type ℓ) (ctl : Call) (event self : ℕ) (interest : Interest) (r : Reactor)
    → (state_of event r).registered ≡ true
    → OnPending {A = A} (Waits self event interest) (wait_again ctl event self interest r)
unfolding reregister into_sys_result
wait_again-Waits A ctl event self interest r g = elim (Bool-cases (is_minus_one ctl.value)) [
  | inl e ↦ rw e tt
  | inr e ↦ rw e (record {
    bound = rw (same event);
    listed = mem-push event r.registry.events;
    interested = rw (same event);
    registered = rw (state_of, same event) g;
  })
]

-- When epoll reports the event that a future waits for, `select` and `wake` queue that future behind
-- what is queued, unbind the event and set its state.
pub Waits-wakes :
    (get_handle : ℕ → Option ℕ) (eintr : ℤ) (self event : ℕ) (interest : Interest) (bits : Ready)
    → (r : Reactor) → Waits self event interest r
    → (registry : Registry) × (core : Core) × (select eintr
          (gives ((event, bits) ∷ []))
          r.registry
          []
        ≡ some (registry, event ∷ [], ok tt))
      × (wake get_handle (event ∷ []) r.core ≡ some core)
      × (view core.handles ≡ view r.core.handles ++ (entry_of get_handle self ∷ []))
      × (core.bound event ≡ none)
      × ((registry.extras event).state ≡ to_state bits)
unfolding select take_ready is_among
Waits-wakes get_handle eintr self event interest bits r w =
    let (core, wakes, v, n) =
      wake-Bound get_handle r.core (event ∷ []) (self ∷ []) event (w.bound, refl, tt) in
    (
      set_state event (to_state bits)
          (record (r.registry) { events = erase_first event r.registry.events }),
      core,
      rw (w.listed),
      wakes,
      v,
      rw (same event) at n,
      rw (same event),
    )

-- The event is in a state in which a read is tried.
abbrev pub has_input : Ready → Bool
has_input b = b.err || b.hup || b.rdhup || b.pri || b.input

to_state-has_input :
    (b : Ready)
    → has_input b ≡ true
    → ((to_state b).error || (to_state b).readable ≡ true) × ((to_state b).registered ≡ true)
unfolding to_state
to_state-has_input b h = ground arith

module _ (codes : Errno) where
  poll_read-Waits :
      (self event : ℕ) (ctl call : Call) (r : Reactor)
      → OnPending (Waits self event reads) (poll_read codes self event ctl call r)
  unfolding poll_read
  poll_read-Waits self event ctl call r =
      OnPending-if _ W (not state.registered) _ _ (λ u. wait_first-Waits _ ctl event self reads r)
        (λ g.
          OnPending-if _ W ((state.error || state.readable) && not (is_minus_one call.value)) _ _
            (λ u. tt)
            (λ u.
              OnPending-if _ W
                ((state.error || state.readable) && not (would_block codes call.errno)) _ _
                (λ v. tt) (λ v. wait_again-Waits _ ctl event self reads r (ground arith))))
    where
      state : State
      state = state_of event r

      W : Reactor → Type 0
      W = Waits self event reads

  poll_read-reads :
      (self event : ℕ) (ctl call : Call) (r : Reactor)
      → (state_of event r).registered ≡ true
      → (state_of event r).error || (state_of event r).readable ≡ true
      → is_minus_one call.value ≡ false
      → poll_read codes self event ctl call r ≡ some (clear_readable event r, ready (ok call.value))
  unfolding poll_read
  poll_read-reads self event ctl call r g h v = rw (g, h, v)

  -- A read that suspends is woken by the first report of its event that lets it read, hang-ups and
  -- errors included: `select` and `wake` then queue it, and no other future, and leave the event
  -- unbound, and its next poll returns what read(2) answers, where that is not -1.
  pub poll_read-wakes :
      (get_handle : ℕ → Option ℕ) (eintr : ℤ) (self event : ℕ) (bits : Ready)
      → (ctl call ctl' call' : Call) (r r' : Reactor)
      → poll_read codes self event ctl call r ≡ some (r', pending)
      → has_input bits ≡ true
      → is_minus_one call'.value ≡ false
      → (registry : Registry) × (core : Core) × (select eintr
            (gives ((event, bits) ∷ []))
            r'.registry
            []
          ≡ some (registry, event ∷ [], ok tt))
        × (wake get_handle (event ∷ []) r'.core ≡ some core)
        × (view core.handles ≡ view r'.core.handles ++ (entry_of get_handle self ∷ []))
        × (core.bound event ≡ none)
        × (let woken : Reactor = record { registry = registry; core = core } in
            poll_read codes self event ctl' call' woken
            ≡ some (clear_readable event woken, ready (ok call'.value)))
  poll_read-wakes get_handle eintr self event bits ctl call ctl' call' r r' e h v =
      let w =
        subst (OnPending (Waits self event reads)) e (poll_read-Waits self event ctl call r) in
      let (registry, core, s, k, q, n, t) =
        Waits-wakes get_handle eintr self event reads bits r' w in
      let woken : Reactor = record { registry = registry; core = core } in
      let (x, y) = to_state-has_input bits h in
      (
        registry,
        core,
        s,
        k,
        q,
        n,
        poll_read-reads self event ctl' call' woken (ap (λ u. u.registered) t ∙ y)
            (ap (λ u. u.error || u.readable) t ∙ x) v,
      )
