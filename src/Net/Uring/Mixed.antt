-- ===== src/Net/Uring/Mixed.antt =====
-- A read and a write of one stream, which share its event.
use xyco.Common.{ℕ, ℤ, ◌≡◌, refl, false, some, [], ◌∷◌, subst, ready, pending, OnPending}
use xyco.Utils.Error.{ok}
use xyco.Io.Uring.{Registry, IoExtra, select, gives, of_event, read, write}
use xyco.Io.Uring.Listed.{IsListed}
use xyco.Io.Uring.Trip.{select-Submitted}
use xyco.Net.Uring.{Reactor, Slots, set_extra, poll_read, poll_write}
use xyco.Net.Uring.Trip.{same, Waits, submit_or_finish-Waits, submit_or_finish-finishes, outcome}

-- A read that suspends, where the registered events are those whose flag is set, and a write of the
-- same stream that is polled after the read has completed and before the read is polled again: the
-- write submits nothing, returns the result of the read as its own, and leaves the event as if
-- nothing had completed.
pub poll_write-poll_read :
    (buf len buf' len' : ℕ) (etime ebusy res : ℤ) (reader writer event : ℕ) (slots slots' : Slots)
    → (r r' : Reactor) → IsListed r.registry
    → poll_read buf len reader event slots r ≡ some (r', pending)
    → (registry : Registry) × (select etime ebusy (gives (of_event event res ∷ [])) r'.registry []
        ≡ some (registry, event ∷ [], ok tt))
      × (let completed : Reactor = record r' { registry = registry } in
          let after : Reactor = set_extra event (λ x. record x { completed = false }) completed in
          (poll_write buf' len' writer event slots' completed
            ≡ some (after, ready (outcome (λ n. n) res)))
          × (after.registry.ring ≡ r'.registry.ring)
          × ((after.registry.extras event).completed ≡ false))
unfolding poll_read poll_write
poll_write-poll_read buf len buf' len' etime ebusy res reader writer event slots slots' r r' l e =
    let reads : IoExtra → IoExtra = λ x. record x { args = read buf len 0 } in
    let writes : IoExtra → IoExtra = λ x. record x { args = write buf' len' 0 } in
    let extra : IoExtra = reads (r.registry.extras event) in
    let w =
      subst (OnPending (Waits reader event extra)) e
        (submit_or_finish-Waits ℤ reads (λ n. n) reader event slots r (λ x. refl) l) in
    let (registry, s, x, u) =
      select-Submitted etime ebusy event res extra r'.registry w.submitted in
    let completed : Reactor = record r' { registry = registry } in
    let after : Reactor = set_extra event (λ x. record x { completed = false }) completed in
    (
      registry,
      s,
      (
        submit_or_finish-finishes ℤ writes (λ n. n) writer event slots' res extra completed x,
        u,
        rw (same event) refl,
      ),
    )
