-- ===== src/Io/Uring/Examples.antt =====
-- The theorems of the io_uring registry at concrete inputs.
use xyco.Common.{pos, ◌+◌, ◌≡◌, refl, true, false, none, some, [], ◌∷◌}
use xyco.Utils.Error.{ok}
use xyco.Io.Events.{weight, mem, erase_first}
use xyco.Io.Uring.{
  Registry, zeroed, cancel, read, register, deregister, select, take_completed, send, get_sqe,
  update, complete, gives, of_event, without_data,
}
use xyco.Io.Uring.Listed.{IsListed, single, registers, selects, Reach, here, next, Reach-IsListed}

abbrev pub idle : Registry
idle = record {
  ring = record { slots = λ s. zeroed; queue = []; sent = [] };
  events = [];
  extras = λ e. record {
    args = read 100 16 0;
    fd = e + 3;
    return_value = pos 0;
    registered = false;
    completed = false;
  };
}

pub idle-IsListed : IsListed idle
unfolding weight
idle-IsListed e = refl

-- Event 5 is registered twice and completes once, so it is listed no more.
abbrev once : Registry
unfolding register
once = (register (some 0) none 5 idle).0

abbrev twice : Registry
unfolding register
twice = (register none (some 1) 5 once).0

abbrev done : Registry
done = update 5 (complete (pos 7)) (record twice { events = [] })

twice-Reach : Reach idle twice
unfolding register
twice-Reach =
    next (next here (registers (some 0) none 5 idle once (ok tt) refl))
      (registers none (some 1) 5 once twice (ok tt) refl)

done-Reach : Reach idle done
unfolding register take_completed select mem erase_first
done-Reach = next twice-Reach (
    selects (pos 62) (pos 16) (gives (without_data (pos 0) ∷ of_event 5 (pos 7) ∷ [])) twice done []
      (5 ∷ []) (ok tt) refl)

Reach-IsListed_example : weight (single 5) done.events ≡ 0
Reach-IsListed_example = Reach-IsListed idle-IsListed done-Reach 5

twice-queue : twice.ring.queue ≡ []
unfolding register
twice-queue = refl

twice-mem : mem 5 twice.events ≡ true
unfolding register mem
twice-mem = refl

abbrev removed : Registry
removed =
    update 5 (λ x. record x { registered = false })
      (record twice { ring = send 2 (cancel 5) (get_sqe (some 2) twice.ring); events = [] })

removed_lem : deregister none (some 2) 5 twice ≡ some (removed, ok tt)
unfolding deregister register mem erase_first
removed_lem = refl
