-- ===== src/Net/Socket/Ports.antt =====
-- The port of an address.
use xyco.Common.{ℕ, ◌≡◌, refl}
use xyco.Net.Socket.{Libc, new_v4, new_v6, get_port, wire_port}

module _ (libc : Libc) where
  -- The port given to an address is read back, of both families; in an IPv4 address the system reads
  -- it too, where ntohs undoes htons, and in an IPv6 address the system reads ntohs of it.
  pub get_port-new :
      (ip port : ℕ)
      → libc.ntohs (libc.htons port) ≡ port
      → (get_port libc (new_v4 libc ip port) ≡ port)
        × (wire_port libc (new_v4 libc ip port) ≡ port)
        × (get_port libc (new_v6 libc ip port) ≡ port)
        × (wire_port libc (new_v6 libc ip port) ≡ libc.ntohs port)
  unfolding get_port new_v4 new_v6
  get_port-new ip port h = (h, h, refl, refl)
