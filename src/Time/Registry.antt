-- ===== src/Time/Registry.antt =====
-- include/xyco/time/registry.ccm and src/time/registry.cc, with include/xyco/time/sleep.ccm: the registry
-- over the timer wheel, and the future of sleep. `clock` is what Clock::now() returns, and `ticks` the
-- ticks of a millisecond. `none` is std::out_of_range, thrown by the wheel.
pub mod History
pub mod Due
pub mod Examples
use xyco.Common.{
  ℕ, ◌+◌, ◌*◌, Bool, true, false, Option, none, some, List, [], Poll, ready, pending, if◌then◌else◌,
}
use xyco.Utils.Error.{Result, ok}
use xyco.Time.Wheel.{Event, Wheel, insert_event, expire}

-- utils::Result<void>
abbrev pub Answer : Type 0
Answer = Result Unit

abbrev pub answered {ℓ} : {A : Type ℓ} → Option A → Option (A × Answer)
answered none = none
answered (some a) = some (a, ok tt)

unfoldable pub register : ℕ → Event → Wheel → Option (Wheel × Answer)
register ticks e w = answered (insert_event ticks e w)

pub reregister : Event → Wheel → Wheel × Answer
reregister e w = (w, ok tt)

pub deregister : Event → Wheel → Wheel × Answer
deregister e w = (w, ok tt)

-- The events that are due are appended to those that are there.
unfoldable pub select : ℕ → ℕ → Wheel → List Event → Option ((Wheel × List Event) × Answer)
select ticks clock w events = answered (expire ticks clock w events)

-- The future of sleep, whose event is made anew for each.
pub record Sleep : Type 0 where
  pub is_ready : Bool
  pub duration : ℕ

abbrev pub sleep_event : ℕ → ℕ → ℕ → ℕ → Event
sleep_event ticks clock self duration = record {
  future = self;
  expire_time = clock + duration * ticks;
}

-- Pending, where the registration does not throw.
abbrev pub asleep : Sleep → Option (Wheel × Answer) → Option (Sleep × Wheel × Poll (Unit {0}))
asleep s none = none
asleep s (some (w, a)) = some (s, w, pending)

unfoldable pub poll_sleep : ℕ → ℕ → ℕ → Sleep → Wheel → Option (Sleep × Wheel × Poll (Unit {0}))
unfolding register
poll_sleep ticks clock self s w =
    if s.is_ready
    then some (s, w, ready tt)
    else asleep (record s { is_ready = true })
        (register ticks (sleep_event ticks clock self s.duration) w)
