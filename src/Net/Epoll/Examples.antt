-- ===== src/Net/Epoll/Examples.antt =====
-- The theorems of TCP over epoll at concrete inputs.
use Prim.Native.String.{String}
use xyco.Common.{
  if◌then◌else◌, ◌==◌, ℕ, ℤ, pos, ◌≡◌, refl, true, false, none, some, [], ◌∷◌, ◌++◌, ready, pending,
}
use xyco.Utils.Error.{ok}
use xyco.Io.Epoll.{
  Registry, Ready, no_ready, select, gives, register, to_state, only_registered, reregister, reads,
  writes,
}
use xyco.Runtime.Core.{Core, entry_of, wake}
use xyco.Runtime.Core.Fifo.{view}
use xyco.Net.Socket.{SockaddrIn}
use xyco.Net.Epoll.{
  Call, Errno, Reactor, new_stream, bind_future, clear_readable, set_interest, poll_read,
  poll_write,
}
use xyco.Net.Epoll.Socket.{poll_connect, new_connecting}
use xyco.Io.Events.{mem}
use xyco.Net.Epoll.Reads.{poll_read-wakes, Waits}

abbrev codes : Errno
codes = record { eagain = pos 11; ewouldblock = pos 11; einprogress = pos 115 }

abbrev call : ℕ → Call
call n = record { errno = pos 0; value = pos n }

abbrev empty : Reactor
empty = record {
  registry = record {
    events = [];
    extras = λ e. record { state = to_state no_ready; interest = reads; fd = e };
  };
  core = record { handles = []; local_handles = λ t. none; bound = λ e. none };
}

-- Event 5 of a stream with descriptor 3, and the read of it by future 8.
abbrev stream : Reactor
unfolding new_stream
stream = new_stream 5 3 false false empty

abbrev reading : Reactor
unfolding register
reading =
    let r = set_interest 5 reads (bind_future 5 8 stream) in
    record r { registry = (register (pos 0) (pos 0) 5 r.registry).0 }

reading_lem : poll_read codes 8 5 (call 0) (call 0) stream ≡ some (reading, pending)
unfolding poll_read register new_stream
reading_lem = refl

abbrev input : Ready
input = record no_ready { input = true }

poll_read-wakes_example :
    (registry : Registry) × (core : Core) × (select
        (pos 4)
        (gives ((5, input) ∷ []))
        reading.registry
        []
      ≡ some (registry, 5 ∷ [], ok tt))
    × (wake some (5 ∷ []) reading.core ≡ some core)
    × (view core.handles ≡ view reading.core.handles ++ (entry_of some 8 ∷ []))
    × (core.bound 5 ≡ none)
    × (let woken : Reactor = record { registry = registry; core = core } in
        poll_read codes 8 5 (call 0) (call 16) woken
        ≡ some (clear_readable 5 woken, ready (ok (pos 16))))
poll_read-wakes_example =
    poll_read-wakes codes some (pos 4) 8 5 input (call 0) (call 0) (call 0) (call 16) stream reading
      reading_lem refl refl

-- Future 9 writes while future 8 waits.
abbrev writing : Reactor
unfolding reregister
writing =
    let r = set_interest 5 writes (bind_future 5 9 reading) in
    record r { registry = (reregister (pos 0) (pos 0) 5 r.registry).0 }

writing_lem : poll_write 9 5 (call 0) (call 0) reading ≡ some (writing, pending)
unfolding poll_write reregister register new_stream
writing_lem = refl

-- The connect of future 8, which ECONNREFUSED ends.
abbrev connecting : Reactor
unfolding new_connecting new_stream
connecting = new_connecting 8 5 3 empty

abbrev waiting : Reactor
unfolding register
waiting =
    let r = bind_future 5 8 connecting in
    record r { registry = (register (pos 0) (pos 0) 5 r.registry).0 }

abbrev message : ℤ → String
message e = "Connection refused"

waiting_lem : poll_connect message 8 5 (call 0) (pos 0) connecting ≡ some (waiting, pending)
unfolding poll_connect register new_connecting new_stream
waiting_lem = refl

abbrev hung_up : Ready
hung_up = record no_ready { output = true; err = true; hup = true }

-- A listener for which the accept of future 7 waits.
abbrev listening : Reactor
listening = record empty {
  registry = record {
    events = 5 ∷ [];
    extras = λ e. record { state = only_registered; interest = reads; fd = e };
  };
  core = record (empty.core) { bound = λ e. if e == 5 then some 7 else none };
}

abbrev peer : SockaddrIn
peer = record { sin_family = 2; sin_port = 20480; sin_addr = 16777343 }

listening-Waits : Waits 7 5 reads listening
unfolding mem
listening-Waits = record { bound = refl; listed = refl; interested = refl; registered = refl }
