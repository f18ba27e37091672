-- ===== src/Net/Epoll.antt =====
-- include/xyco/net/epoll/listener.ccm, src/net/epoll/listener.cc: TCP over the epoll registry. Events,
-- futures and descriptors are named by numbers; what the system calls answer, with errno, is an
-- argument. In a result, `none` is the use of a failed Result, which Driver makes of what a registry
-- answers to it.
pub mod Socket
pub mod Reads
pub mod Duplex
pub mod Accepts
pub mod Connects
pub mod Examples
use xyco.Common.{
  ℕ, ℤ, Bool, true, false, not, ◌&&◌, ◌||◌, Option, none, some, List, [], ◌∷◌, ◌==◌, if◌then◌else◌,
  is_minus_one, eqb, Poll, ready, pending,
}
use xyco.Utils.Error.{Error, Result, ok, err, transform, from_sys_error, into_sys_result}
use xyco.Io.Epoll.{
  Registry, IoExtra, State, Interest, reads, writes, all, register, reregister, deregister,
  set_state, Answer,
}
use xyco.Runtime.Core.{Core}

-- What a system call returned, and the errno that it left.
pub record Call : Type 0 where
  pub errno : ℤ
  pub value : ℤ

-- The codes of <cerrno> that the code names.
pub record Errno : Type 0 where
  pub eagain : ℤ
  pub ewouldblock : ℤ
  pub einprogress : ℤ

-- The registry of epoll and the runtime of one program.
pub record Reactor : Type 0 where
  pub registry : Registry
  pub core : Core

abbrev pub result_of : Call → Result ℤ
result_of c = into_sys_result c.errno c.value

abbrev pub state_of : ℕ → Reactor → State
state_of event r = (r.registry.extras event).state

-- `event_->future_ = this`
abbrev pub bind_future : ℕ → ℕ → Reactor → Reactor
bind_future event future r = record r {
  core = record (r.core) { bound = λ e. if e == event then some future else r.core.bound e };
}

-- The futures of a stream and of a listener unbind their event when they are destroyed.
unfoldable pub destroy_future : ℕ → Reactor → Reactor
destroy_future event r = record r {
  core = record (r.core) { bound = λ e. if e == event then none else r.core.bound e };
}

abbrev pub set_interest : ℕ → Interest → Reactor → Reactor
set_interest event interest r = record r {
  registry = record (r.registry) {
    extras = λ e.
        if e == event
        then record (r.registry.extras e) { interest = interest }
        else r.registry.extras e;
  };
}

-- Driver::Register, Driver::reregister and Driver::deregister.
abbrev pub driven : Reactor → Registry × Answer → Option Reactor
driven r (registry, ok _) = some (record r { registry = registry })
driven r (registry, err e) = none

abbrev pub driver_register : Call → ℕ → Reactor → Option Reactor
driver_register ctl event r = driven r (register ctl.errno ctl.value event r.registry)

abbrev pub driver_reregister : Call → ℕ → Reactor → Option Reactor
driver_reregister ctl event r = driven r (reregister ctl.errno ctl.value event r.registry)

abbrev pub driver_deregister : Call → ℕ → Reactor → Option Reactor
driver_deregister ctl event r = driven r (deregister ctl.errno ctl.value event r.registry)

abbrev pub suspend {ℓ} : {A : Type ℓ} → Option Reactor → Option (Reactor × Poll A)
suspend none = none
suspend (some r) = some (r, pending)

-- A future binds the event and registers it, for the first time or again, with an interest.
abbrev pub wait_first {ℓ} :
    {A : Type ℓ} → Call → ℕ → ℕ → Interest → Reactor → Option (Reactor × Poll A)
wait_first ctl event self interest r =
    suspend (driver_register ctl event (set_interest event interest (bind_future event self r)))

abbrev pub wait_again {ℓ} :
    {A : Type ℓ} → Call → ℕ → ℕ → Interest → Reactor → Option (Reactor × Poll A)
wait_again ctl event self interest r =
    suspend (driver_reregister ctl event (set_interest event interest (bind_future event self r)))

-- `set_field<Readable, false>`
abbrev pub clear_readable : ℕ → Reactor → Reactor
clear_readable event r = record r {
  registry = set_state event (record (state_of event r) { readable = false }) r.registry;
}

module _ (codes : Errno) where
  abbrev pub would_block : ℤ → Bool
  would_block errno = eqb errno codes.eagain || eqb errno codes.ewouldblock

  -- `poll` of the future `self` of TcpStream::read: `ctl` is what epoll_ctl answers, `call` what
  -- read(2) does.
  unfoldable pub poll_read : ℕ → ℕ → Call → Call → Reactor → Option (Reactor × Poll (Result ℤ))
  unfolding from_sys_error
  poll_read self event ctl call r =
      let state = state_of event r in
      if not state.registered
      then wait_first ctl event self reads r
      else if (state.error || state.readable) && not (is_minus_one call.value)
      then some (clear_readable event r, ready (ok call.value))
      else if (state.error || state.readable) && not (would_block call.errno)
      then some (r, ready (err (from_sys_error call.errno)))
      else wait_again ctl event self reads r

-- `poll` of the future `self` of TcpStream::write: `call` is what write(2) answers.
unfoldable pub poll_write : ℕ → ℕ → Call → Call → Reactor → Option (Reactor × Poll (Result ℤ))
unfolding into_sys_result
poll_write self event ctl call r =
    let state = state_of event r in
    if not state.registered
    then wait_first ctl event self writes r
    else if state.error || state.writable
    then some (r, ready (result_of call))
    else wait_again ctl event self writes r

-- TcpStream's constructor, with the event that it makes.
unfoldable pub new_stream : ℕ → ℕ → Bool → Bool → Reactor → Reactor
new_stream event fd writable readable r = record r {
  registry = record (r.registry) {
    extras = λ e.
        if e == event
        then record {
          state = record {
            registered = false;
            pending = false;
            readable = readable;
            writable = writable;
            error = false;
          };
          interest = all;
          fd = fd;
        }
        else r.registry.extras e;
  };
  core = record (r.core) { bound = λ e. if e == event then none else r.core.bound e };
}

-- TcpListener's constructor.
unfoldable pub new_listener : ℕ → ℕ → Reactor → Reactor
unfolding new_stream
new_listener event fd r = set_interest event reads (new_stream event fd false false r)

-- The destructors of TcpStream and TcpListener, before that of the socket: `has_fd` says whether the
-- socket has a descriptor, which a moved-from one has not.
unfoldable pub destroy : Call → ℕ → Bool → Reactor → Option Reactor
destroy ctl event has_fd r =
    if has_fd && (state_of event r).registered then driver_deregister ctl event r else some r
