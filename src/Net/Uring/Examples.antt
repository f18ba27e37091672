-- ===== src/Net/Uring/Examples.antt =====
-- The theorems of TCP over io_uring at concrete inputs.
use xyco.Common.{ℤ, pos, negsuc, ◌≡◌, refl, false, none, some, [], ◌∷◌, ◌++◌, ready, pending}
use xyco.Utils.Error.{ok}
use xyco.Io.Uring.{Registry, IoExtra, read, request, select, gives, of_event, register}
use xyco.Io.Uring.Examples.{idle, idle-IsListed}
use xyco.Io.Uring.Trip.{Ends}
use xyco.Runtime.Core.{Core, entry_of, wake}
use xyco.Runtime.Core.Fifo.{view}
use xyco.Net.Uring.{Reactor, Slots, submit_or_finish, poll_read, poll_write, set_extra, bind_future}
use xyco.Net.Uring.Trip.{submit_or_finish-wakes, outcome}
use xyco.Net.Uring.Mixed.{poll_write-poll_read}

abbrev reactor : Reactor
reactor = record {
  registry = idle;
  core = record { handles = []; local_handles = λ t. none; bound = λ e. none };
}

abbrev reads : IoExtra → IoExtra
reads x = record x { args = read 100 16 0 }

abbrev slots : Slots
slots = record { first = none; second = some 0 }

-- What is there after the read of future 8 on event 5 has suspended.
abbrev waiting : Reactor
unfolding register
waiting =
    let r = set_extra 5 reads (bind_future 5 8 reactor) in
    record r { registry = (register none (some 0) 5 r.registry).0 }

waiting_lem : submit_or_finish reads (λ n. n) 8 5 slots reactor ≡ some (waiting, pending)
unfolding register
waiting_lem = refl

submit_or_finish-wakes_example :
    Ends (request (read 100 16 0) 8 5) waiting.registry.ring
    × (registry : Registry) × (core : Core) × (select
          (pos 62)
          (pos 16)
          (gives (of_event 5 (negsuc 103) ∷ []))
          waiting.registry
          []
        ≡ some (registry, 5 ∷ [], ok tt))
    × (wake some (5 ∷ []) waiting.core ≡ some core)
    × (view core.handles ≡ view waiting.core.handles ++ (entry_of some 8 ∷ []))
    × (core.bound 5 ≡ none)
    × (let woken : Reactor = record { registry = registry; core = core } in
        submit_or_finish reads (λ n. n) 8 5 slots woken
        ≡ some (
          set_extra 5 (λ x. record x { completed = false }) woken,
          ready (outcome (λ n. n) (negsuc 103)),
        ))
submit_or_finish-wakes_example =
    submit_or_finish-wakes ℤ reads (λ n. n) some (pos 62) (pos 16) (negsuc 103) 8 5 slots slots
      reactor waiting (λ x. refl) idle-IsListed waiting_lem

poll_read_lem : poll_read 100 16 8 5 slots reactor ≡ some (waiting, pending)
unfolding poll_read
poll_read_lem = waiting_lem

poll_write-poll_read_example :
    (registry : Registry) × (select
        (pos 62)
        (pos 16)
        (gives (of_event 5 (pos 16) ∷ []))
        waiting.registry
        []
      ≡ some (registry, 5 ∷ [], ok tt))
    × (let completed : Reactor = record waiting { registry = registry } in
        let after : Reactor = set_extra 5 (λ x. record x { completed = false }) completed in
        (poll_write 200 4 9 5 slots completed ≡ some (after, ready (outcome (λ n. n) (pos 16))))
        × (after.registry.ring ≡ waiting.registry.ring)
        × ((after.registry.extras 5).completed ≡ false))
poll_write-poll_read_example =
    poll_write-poll_read 100 16 200 4 (pos 62) (pos 16) (pos 16) 8 9 5 slots slots reactor waiting
      idle-IsListed poll_read_lem
