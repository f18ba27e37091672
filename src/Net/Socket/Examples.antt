-- ===== src/Net/Socket/Examples.antt =====
-- The theorems of sockets at concrete inputs, on a little-endian machine.
use xyco.Common.{ℕ, ◌+◌, ◌*◌, ◌/◌, ◌%◌, ◌≡◌, refl, some, List, [], ◌∷◌, arith}
use xyco.Net.Socket.{Libc, construct, move}
use xyco.Net.Socket.Ownership.{AllLegal, Op, constructs, moves, run, no_sockets, run-one_owner}

abbrev swap16 : ℕ → ℕ
swap16 n = n % 256 * 256 + n / 256 % 256

abbrev pub linux : Libc
linux = record {
  htons = swap16;
  ntohs = swap16;
  htonl = λ n. swap16 (n % 65536) * 65536 + swap16 (n / 65536);
  af_inet = 2;
  af_inet6 = 10;
  inaddr_any = 0;
}

abbrev history : List Op
history = constructs 1 5 ∷ moves 2 1 ∷ []

history-AllLegal : AllLegal no_sockets history
unfolding construct move
history-AllLegal = (λ q e. ground arith, (λ e. omega (arith, e), tt))

history-run : (run no_sockets history).fd 2 ≡ some 5
unfolding run construct move
history-run = refl

run-one_owner_example : ◌≡◌ {A = ℕ} 2 2
run-one_owner_example = run-one_owner history 2 2 5 history-AllLegal history-run history-run
