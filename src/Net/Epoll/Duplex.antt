-- ===== src/Net/Epoll/Duplex.antt =====
-- A read and a write of one stream, which share its event.
use xyco.Common.{
  subst, ◌++◌, [], ◌∷◌, ℤ, ℕ, ◌≡◌, ◌||◌, not, Option, none, some, arith, pending, OnPending,
  OnPending-if,
}
use xyco.Utils.Error.{ok}
use xyco.Io.Epoll.{gives, Registry, select, Ready, State, writes}
use xyco.Runtime.Core.{Core, entry_of, wake}
use xyco.Runtime.Core.Fifo.{view}
use xyco.Net.Epoll.{Call, Reactor, state_of, poll_write}
use xyco.Net.Epoll.Reads.{Waits, wait_first-Waits, wait_again-Waits, Waits-wakes}

pub poll_write-Waits :
    (self event : ℕ) (ctl call : Call) (r : Reactor)
    → OnPending (Waits self event writes) (poll_write self event ctl call r)
unfolding poll_write
poll_write-Waits self event ctl call r =
    OnPending-if _ W (not state.registered) _ _ (λ u. wait_first-Waits _ ctl event self writes r)
      (λ g.
        OnPending-if _ W (state.error || state.writable) _ _ (λ u. tt)
          (λ v. wait_again-Waits _ ctl event self writes r (ground arith)))
  where
    state : State
    state = state_of event r

    W : Reactor → Type 0
    W = Waits self event writes

-- A write that suspends takes the event of its stream over: whichever future waited for the event
-- before, a read of the same stream among them, the event is now asked for writing, and the next
-- report of it, also one that it is readable, queues the write and nothing else and leaves no future
-- bound to the event.
pub poll_write-takes_over :
    (get_handle : ℕ → Option ℕ) (eintr : ℤ) (reader self event : ℕ) (bits : Ready)
    → (ctl call : Call) (r r' : Reactor) → r.core.bound event ≡ some reader
    → poll_write self event ctl call r ≡ some (r', pending)
    → ((r'.registry.extras event).interest ≡ writes)
      × (r'.core.bound event ≡ some self)
      × (registry : Registry) × (core : Core) × (select eintr
            (gives ((event, bits) ∷ []))
            r'.registry
            []
          ≡ some (registry, event ∷ [], ok tt))
      × (wake get_handle (event ∷ []) r'.core ≡ some core)
      × (view core.handles ≡ view r'.core.handles ++ (entry_of get_handle self ∷ []))
      × (core.bound event ≡ none)
poll_write-takes_over get_handle eintr reader self event bits ctl call r r' b e =
    let w =
      subst (OnPending (Waits self event writes)) e (poll_write-Waits self event ctl call r) in
    let (registry, core, s, k, q, n, t) =
      Waits-wakes get_handle eintr self event writes bits r' w in
    (w.interested, w.bound, registry, core, s, k, q, n)
