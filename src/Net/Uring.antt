-- ===== src/Net/Uring.antt =====
-- include/xyco/net/io_uring/listener.ccm, src/net/io_uring/listener.cc: TCP over the registry of
-- io_uring. Events, futures, buffers and descriptors are named by numbers. In a result, `none` is the
-- use of a failed Result.
pub mod Socket
pub mod Trip
pub mod Mixed
pub mod Examples
use xyco.Common.{
  ℕ, ℤ, pos, negsuc, suc, Bool, true, false, not, Option, none, some, ◌==◌, if◌then◌else◌, Poll,
  ready, pending,
}
use xyco.Utils.Error.{Error, Result, ok, err, transform}
use xyco.Io.Uring.{
  Args, Registry, IoExtra, Answer, register, update, read, write, connect, accept, shutdown,
}
use xyco.Runtime.Core.{Core}
use xyco.Net.Socket.{Libc, SocketAddr, SockaddrIn, new_v4}

-- The registry of io_uring and the runtime of one program.
pub record Reactor : Type 0 where
  pub registry : Registry
  pub core : Core

-- `event_->future_ = this`
abbrev pub bind_future : ℕ → ℕ → Reactor → Reactor
bind_future event future r = record r {
  core = record (r.core) { bound = λ e. if e == event then some future else r.core.bound e };
}

-- The futures of a stream and of a listener unbind their event when they are destroyed.
unfoldable pub destroy_future : ℕ → Reactor → Reactor
destroy_future event r = record r {
  core = record (r.core) { bound = λ e. if e == event then none else r.core.bound e };
}

abbrev pub set_extra : ℕ → (IoExtra → IoExtra) → Reactor → Reactor
set_extra event f r = record r { registry = update event f r.registry }

-- Driver::Register, then Pending.
abbrev pub pend {ℓ} : {A : Type ℓ} → Reactor → Registry × Answer → Option (Reactor × Poll A)
pend r (registry, ok _) = some (record r { registry = registry }, pending)
pend r (registry, err e) = none

-- The slots that io_uring_get_sqe gives for the event of a future.
pub record Slots : Type 0 where
  pub first : Option ℕ
  pub second : Option ℕ

-- A result that is negative is an errno.
abbrev pub result_of : ℤ → Result ℤ
result_of (pos n) = ok (pos n)
result_of (negsuc n) = err (record { errno = pos (suc n); info = "" })

-- The body of `poll` of each future: it prepares the extra of its event and submits it, or takes the
-- completion and finishes with its result.
abbrev pub submit_or_finish {ℓ} :
    {A : Type ℓ}
    → (IoExtra → IoExtra)
    → (ℤ → A)
    → ℕ
    → ℕ
    → Slots
    → Reactor
    → Option (Reactor × Poll (Result A))
submit_or_finish prepare finish self event slots r =
    let extra = r.registry.extras event in
    if not extra.completed
    then (let submitted = set_extra event prepare (bind_future event self r) in
        pend submitted (register slots.first slots.second event submitted.registry))
    else some (
      set_extra event (λ x. record x { completed = false }) r,
      ready (transform finish (result_of extra.return_value)),
    )

-- TcpStream::read and TcpStream::write, whose extra has the descriptor from the constructor.
unfoldable pub poll_read : ℕ → ℕ → ℕ → ℕ → Slots → Reactor → Option (Reactor × Poll (Result ℤ))
poll_read buf len self event slots r =
    submit_or_finish (λ x. record x { args = read buf len 0 }) (λ n. n) self event slots r

unfoldable pub poll_write : ℕ → ℕ → ℕ → ℕ → Slots → Reactor → Option (Reactor × Poll (Result ℤ))
poll_write buf len self event slots r =
    submit_or_finish (λ x. record x { args = write buf len 0 }) (λ n. n) self event slots r

-- The future of TcpSocket::connect: `addrlen` is the size of sockaddr.
unfoldable pub poll_connect :
    ℕ → ℕ → ℕ → ℕ → ℕ → Slots → Reactor → Option (Reactor × Poll (Result (Unit {0})))
poll_connect addr addrlen fd self event slots r =
    submit_or_finish (λ x. record x { args = connect addr addrlen; fd = fd }) (λ n. tt) self event
      slots r

unfoldable pub poll_shutdown :
    ℕ → ℕ → ℕ → ℕ → Slots → Reactor → Option (Reactor × Poll (Result (Unit {0})))
poll_shutdown how fd self event slots r =
    submit_or_finish (λ x. record x { args = shutdown how; fd = fd }) (λ n. tt) self event slots r

-- The future of TcpListener::accept. `peer` is what the kernel wrote at `addr`, whose address
-- inet_ntop and inet_pton, which undo each other, give back.
module _ (libc : Libc) where
  abbrev pub accepted_of : SockaddrIn → ℤ → ℤ × SocketAddr
  accepted_of peer fd = (fd, new_v4 libc peer.sin_addr peer.sin_port)

  unfoldable pub poll_accept :
      ℕ
      → ℕ
      → SockaddrIn
      → ℕ
      → ℕ
      → ℕ
      → Slots
      → Reactor
      → Option (Reactor × Poll (Result (ℤ × SocketAddr)))
  poll_accept addr addrlen peer fd self event slots r =
      submit_or_finish (λ x. record x { args = accept addr addrlen; fd = fd }) (accepted_of peer)
        self event slots r

-- The event that a constructor makes, with its descriptor: none but that of a stream is given one.
abbrev pub new_event : ℕ → ℕ → Option ℕ → Reactor → Reactor
new_event event fd future r = record r {
  registry =
      update event
        (λ x. record {
          args = read 0 0 0;
          fd = fd;
          return_value = pos 0;
          registered = false;
          completed = false;
        })
        r.registry;
  core = record (r.core) { bound = λ e. if e == event then future else r.core.bound e };
}

unfoldable pub new_stream : ℕ → ℕ → Reactor → Reactor
new_stream event fd r = new_event event fd none r

unfoldable pub new_listener : ℕ → Reactor → Reactor
new_listener event r = new_event event 0 none r

unfoldable pub new_connecting : ℕ → Reactor → Reactor
new_connecting event r = new_event event 0 none r
