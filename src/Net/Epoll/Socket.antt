-- ===== src/Net/Epoll/Socket.antt =====
-- src/net/epoll/listener.cc: TcpSocket, and the ways that lead to a stream or a listener.
use Prim.Native.String.{String}
use xyco.Common.{
  ℕ, ℤ, pos, Bool, false, not, ◌&&◌, ◌||◌, Option, none, some, if◌then◌else◌, eqb, is_minus_one,
  Poll, ready, pending,
}
use xyco.Utils.Error.{Error, Result, ok, err, ◌>>=◌, transform, from_sys_error}
use xyco.Io.Epoll.{State, writes}
use xyco.Net.Socket.{Libc, SocketAddr, SockaddrIn, new_v4, is_v4}
use xyco.Net.Epoll.{
  set_interest, Call, Errno, Reactor, result_of, state_of, suspend, driver_register,
  driver_deregister, driver_reregister, bind_future, new_stream, would_block,
}

-- TcpSocket::bind, set_reuseaddr, set_reuseport and TcpStream::shutdown: one system call, whose number
-- is dropped.
abbrev pub done : Call → Result (Unit {0})
done call = transform (λ n. tt) (result_of call)

unfoldable pub bind : Call → Result (Unit {0})
bind call = done call

pub set_reuseaddr : Call → Result (Unit {0})
set_reuseaddr call = done call

pub set_reuseport : Call → Result (Unit {0})
set_reuseport call = done call

unfoldable pub shutdown : Call → Result (Unit {0})
shutdown call = done call

-- TcpSocket::new_v4 and new_v6: the descriptor of the new socket.
unfoldable pub new_socket : Call → Result ℤ
new_socket call = result_of call

-- TcpSocket::listen: the descriptor goes on to the listener.
unfoldable pub listen : ℤ → Call → Result ℤ
listen fd call = transform (λ n. fd) (result_of call)

-- TcpListener::bind, which makes an IPv4 socket for every address.
unfoldable pub bind_listener : Call → Call → Call → Result ℤ
bind_listener socket_call bind_call listen_call =
    new_socket socket_call >>= λ fd. bind bind_call >>= λ u. listen fd listen_call

-- The first half of TcpSocket::connect: a stream at once, a failure, or the future is awaited.
pub data Connecting : Type 0 where
  connected : Connecting
  fails : Error → Connecting
  awaits : Connecting

module _ (codes : Errno) where
  abbrev pub connecting_of : Result ℤ → Connecting
  connecting_of (ok n) = connected
  connecting_of (err e) =
      if not (eqb e.errno codes.einprogress) && not (eqb e.errno codes.eagain)
      then fails (record { errno = e.errno; info = "" })
      else awaits

  unfoldable pub connect : Call → Connecting
  connect call = connecting_of (result_of call)

-- TcpStream::connect: by the kind of the address, `socket_v4` or `socket_v6` is what socket(2) answers.
unfoldable pub stream_connect : SocketAddr → Call → Call → Result ℤ
stream_connect addr socket_v4 socket_v6 =
    if is_v4 addr then new_socket socket_v4 else new_socket socket_v6

abbrev pub deregistered {ℓ} : {A : Type ℓ} → A → Option Reactor → Option (Reactor × Poll A)
deregistered a none = none
deregistered a (some r) = some (r, ready a)

-- The event of the future `self` of connect, when that is made.
unfoldable pub new_connecting : ℕ → ℕ → ℕ → Reactor → Reactor
unfolding new_stream
new_connecting self event fd r =
    bind_future event self (set_interest event writes (new_stream event fd false false r))

-- The future of connect, by the error of the socket: getsockopt's SO_ERROR, whose text is what
-- strerror_l has for it, or whether the new stream starts as writable and as readable.
abbrev pub connected_of : (ℤ → String) → ℤ → State → Result (Bool × Bool)
connected_of strerror so_error state =
    if eqb so_error (pos 0)
    then ok (state.writable, state.readable)
    else err (record { errno = so_error; info = strerror so_error })

unfoldable pub poll_connect :
    (ℤ → String) → ℕ → ℕ → Call → ℤ → Reactor → Option (Reactor × Poll (Result (Bool × Bool)))
poll_connect strerror self event ctl so_error r =
    let state = state_of event r in
    if state.error || state.writable
    then deregistered (connected_of strerror so_error state) (driver_deregister ctl event r)
    else suspend (driver_register ctl event (bind_future event self r))

-- The future of accept. `peer` is the address that accept4(2) writes, and inet_ntop and inet_pton,
-- which undo each other, give its address back.
module _ (codes : Errno) (libc : Libc) where
  abbrev pub accepted_of : SockaddrIn → ℤ → ℤ × SocketAddr
  accepted_of peer fd = (fd, new_v4 libc peer.sin_addr peer.sin_port)

  unfoldable pub poll_accept :
      ℕ → ℕ → Call → Call → SockaddrIn → Reactor → Option (Reactor × Poll (Result (ℤ × SocketAddr)))
  unfolding from_sys_error
  poll_accept self event ctl call peer r =
      let state = state_of event r in
      if not state.registered
      then suspend (driver_register ctl event (bind_future event self r))
      else if state.error
      then some (r, ready (err (record { errno = pos 1; info = "epoll state error" })))
      else if not state.readable
      then some (r, pending)
      else if not (is_minus_one call.value)
      then some (r, ready (ok (accepted_of peer call.value)))
      else if would_block codes call.errno
      then suspend (driver_reregister ctl event (bind_future event self r))
      else some (r, ready (err (from_sys_error call.errno)))
