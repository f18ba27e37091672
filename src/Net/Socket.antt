-- ===== src/Net/Socket.antt =====
-- include/xyco/net/socket.ccm, src/net/socket.cc: socket addresses, and the ownership of descriptors.
-- Sockets are named by numbers. What comes from the C library is an argument.
pub mod Ports
pub mod Ownership
pub mod Examples
use xyco.Common.{
  ℕ, ℤ, Bool, true, false, Option, none, some, List, [], ◌∷◌, ◌++◌, ◌==◌, if◌then◌else◌,
}
use xyco.Utils.Error.{Result, ok, err, into_sys_result}

-- Byte order and constants of <arpa/inet.h> and <sys/socket.h>.
pub record Libc : Type 0 where
  pub htons : ℕ → ℕ
  pub ntohs : ℕ → ℕ
  pub htonl : ℕ → ℕ
  pub af_inet : ℕ
  pub af_inet6 : ℕ
  pub inaddr_any : ℕ

pub record SockaddrIn : Type 0 where
  pub sin_family : ℕ
  pub sin_port : ℕ
  pub sin_addr : ℕ

pub record SockaddrIn6 : Type 0 where
  pub sin6_family : ℕ
  pub sin6_port : ℕ
  pub sin6_addr : ℕ
  pub sin6_flowinfo : ℕ
  pub sin6_scope_id : ℕ

-- The variant of SocketAddrV4 and SocketAddrV6, which is also what into_c_addr points at.
pub data SocketAddr : Type 0 where
  v4 : SockaddrIn → SocketAddr
  v6 : SockaddrIn6 → SocketAddr

unfoldable pub is_v4 : SocketAddr → Bool
is_v4 (v4 a) = true
is_v4 (v6 a) = false

-- What inet_pton writes; it leaves the zeros that stand there where the text is not an address.
abbrev pub parsed : Option ℕ → ℕ
parsed none = 0
parsed (some a) = a

module _ (libc : Libc) where
  -- Ipv4Addr(addr): a null pointer, or a text with what inet_pton makes of it.
  unfoldable pub ipv4_addr : Option (Option ℕ) → ℕ
  ipv4_addr none = libc.htonl libc.inaddr_any
  ipv4_addr (some a) = parsed a

  unfoldable pub new_v4 : ℕ → ℕ → SocketAddr
  new_v4 ip port =
      v4 (record { sin_family = libc.af_inet; sin_port = libc.htons port; sin_addr = ip })

  unfoldable pub new_v6 : ℕ → ℕ → SocketAddr
  new_v6 ip port = v6 (record {
    sin6_family = libc.af_inet6;
    sin6_port = port;
    sin6_addr = ip;
    sin6_flowinfo = 0;
    sin6_scope_id = 0;
  })

  -- SocketAddrV4::get_port and SocketAddrV6::get_port
  unfoldable pub get_port : SocketAddr → ℕ
  get_port (v4 a) = libc.ntohs a.sin_port
  get_port (v6 a) = a.sin6_port

  -- The port that the system reads in an address, which has it in network byte order.
  abbrev pub wire_port : SocketAddr → ℕ
  wire_port (v4 a) = libc.ntohs a.sin_port
  wire_port (v6 a) = libc.ntohs a.sin6_port

-- `fd_` of the sockets, `none` for -1, and the descriptors closed so far.
pub record Sockets : Type 0 where
  pub fd : ℕ → Option ℕ
  pub closed : List ℕ

abbrev pub put : ℕ → Option ℕ → Sockets → Sockets
put p x s = record s { fd = λ q. if q == p then x else s.fd q }

-- Socket(file_descriptor)
unfoldable pub construct : ℕ → Option ℕ → Sockets → Sockets
construct p fd s = put p fd s

-- The move constructor and the move assignment of `p` from `q`.
unfoldable pub move : ℕ → ℕ → Sockets → Sockets
move p q s = put q none (put p (s.fd q) s)

-- What close(2) answers is used as a success.
abbrev pub close_fd : ℕ → Result ℤ → Sockets → Option Sockets
close_fd f (err e) s = none
close_fd f (ok n) s = some (record s { closed = s.closed ++ (f ∷ []) })

abbrev pub close_held : ℤ → ℤ → Option ℕ → Sockets → Option Sockets
close_held errno answer none s = some s
close_held errno answer (some f) s = close_fd f (into_sys_result errno answer) s

-- The destructor; the socket is gone after it.
unfoldable pub destroy : ℤ → ℤ → ℕ → Sockets → Option Sockets
destroy errno answer p s = close_held errno answer (s.fd p) (put p none s)
