-- ===== src/Net/Epoll/Accepts.antt =====
-- What accept waits for, and the connection that it gives.
use xyco.Common.{
  refl, ◌++◌, ℤ, [], ◌∷◌, ℕ, ◌≡◌, true, false, Option, none, some, is_minus_one, ready, pending,
}
use xyco.Utils.Error.{ok}
use xyco.Net.Socket.{Libc, SocketAddr, SockaddrIn, new_v4, get_port}
use xyco.Net.Epoll.{Call, Errno, Reactor, state_of}
use xyco.Io.Epoll.{gives, Registry, Ready, select, reads}
use xyco.Runtime.Core.{Core, entry_of, wake}
use xyco.Runtime.Core.Fifo.{view}
use xyco.Net.Epoll.Reads.{Waits, Waits-wakes}
use xyco.Net.Epoll.Socket.{poll_accept}

module _ (codes : Errno) (libc : Libc) where
  -- While another accept of the same listener waits, and nothing was reported: an accept that is
  -- polled suspends and changes nothing, so the next report of the event queues the other one and
  -- nothing else, and leaves no future bound to the event.
  pub poll_accept-forgotten :
      (get_handle : ℕ → Option ℕ) (eintr : ℤ) (other self event : ℕ) (bits : Ready)
      → (ctl call : Call) (peer : SockaddrIn) (r : Reactor) → Waits other event reads r
      → (state_of event r).error ≡ false
      → (state_of event r).readable ≡ false
      → (poll_accept codes libc self event ctl call peer r ≡ some (r, pending))
        × (registry : Registry) × (core : Core) × (select eintr
              (gives ((event, bits) ∷ []))
              r.registry
              []
            ≡ some (registry, event ∷ [], ok tt))
        × (wake get_handle (event ∷ []) r.core ≡ some core)
        × (view core.handles ≡ view r.core.handles ++ (entry_of get_handle other ∷ []))
        × (core.bound event ≡ none)
  unfolding poll_accept
  poll_accept-forgotten get_handle eintr other self event bits ctl call peer r w e d =
      let (registry, core, s, k, q, n, t) =
        Waits-wakes get_handle eintr other event reads bits r w in
      (rw (w.registered, e, d) refl, registry, core, s, k, q, n)

  -- Where a registered listener without an error is readable, accept4 gives a connection and ntohs
  -- undoes htons: accept returns the connection with an address whose port, as get_port reports it,
  -- is sin_port of the peer as the system wrote it, in network byte order.
  pub poll_accept-get_port :
      (self event : ℕ) (ctl call : Call) (peer : SockaddrIn) (r : Reactor)
      → libc.ntohs (libc.htons peer.sin_port) ≡ peer.sin_port
      → (state_of event r).registered ≡ true
      → (state_of event r).error ≡ false
      → (state_of event r).readable ≡ true
      → is_minus_one call.value ≡ false
      → (addr : SocketAddr) × (poll_accept codes libc self event ctl call peer r
          ≡ some (r, ready (ok (call.value, addr))))
        × (get_port libc addr ≡ peer.sin_port)
  unfolding poll_accept new_v4 get_port
  poll_accept-get_port self event ctl call peer r h g e d v =
      (new_v4 libc peer.sin_addr peer.sin_port, rw (g, e, d, v), h)
