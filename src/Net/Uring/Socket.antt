-- ===== src/Net/Uring/Socket.antt =====
-- src/net/io_uring/listener.cc: TcpSocket, up to the futures.
use xyco.Common.{ℤ, if◌then◌else◌}
use xyco.Utils.Error.{Result, ◌>>=◌, transform}
use xyco.Net.Socket.{SocketAddr, is_v4}
use xyco.Net.Epoll.{Call, result_of}

-- TcpSocket::bind, set_reuseaddr and set_reuseport: one system call, whose number is dropped.
abbrev pub done : Call → Result (Unit {0})
done call = transform (λ n. tt) (result_of call)

pub bind : Call → Result (Unit {0})
bind call = done call

pub set_reuseaddr : Call → Result (Unit {0})
set_reuseaddr call = done call

pub set_reuseport : Call → Result (Unit {0})
set_reuseport call = done call

-- TcpSocket::new_v4 and new_v6: the descriptor of the new socket.
pub new_v4 : Call → Result ℤ
new_v4 call = result_of call

pub new_v6 : Call → Result ℤ
new_v6 call = result_of call

-- TcpStream::connect, up to the socket that is connected.
pub stream_connect : SocketAddr → Call → Call → Result ℤ
stream_connect addr v4_call v6_call = if is_v4 addr then new_v4 v4_call else new_v6 v6_call

-- TcpSocket::listen: the descriptor goes on to the listener.
pub listen : ℤ → Call → Result ℤ
listen fd call = transform (λ n. fd) (result_of call)

-- TcpListener::bind, which makes an IPv4 socket for every address.
unfoldable pub bind_listener : Call → Call → Call → Result ℤ
unfolding new_v4 bind listen
bind_listener socket_call bind_call listen_call =
    new_v4 socket_call >>= λ fd. bind bind_call >>= λ u. listen fd listen_call
