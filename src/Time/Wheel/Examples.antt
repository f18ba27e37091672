-- ===== src/Time/Wheel/Examples.antt =====
-- The theorems of the timer wheel at concrete inputs: a clock of 1000 ticks in a millisecond.
use xyco.Common.{
  ◌*◌, ◌/◌, ◌≤◌, ◌<◌, List, replicate, ◌≡◌, ◌+◌, ◌^◌, refl, some, [], ◌∷◌, arith, ltb,
}
use xyco.Time.Wheel.{
  Event, Wheel, new, new_level, insert_event, expire, total_steps, slot_num, level_num, locate,
  push_level, push_slot, level_steps, turn, sweep, redistribute, reinsert, take_slot, insert_all,
  walk,
}
use xyco.Time.Wheel.Slots.{IsWheel, new-IsWheel}
use xyco.Time.Wheel.Weights.{weight, levels_weight}
use xyco.Time.Wheel.Conserved.{insert_event-conserves, expire-conserves}
use xyco.Time.Wheel.Counter.{insert_event-fits, position, is_some}
use xyco.Time.Wheel.Spread.{All}
use xyco.Time.Wheel.Exact.{Every}
use xyco.Time.Wheel.Served.{Served, made, inserted, expire-fits, expire-exact}
use xyco.Time.Wheel.Stall.{polls, polls_stall, last_of}

abbrev pub timer : Event
timer = record { future = 7; expire_time = 5000 }

abbrev pub armed : Wheel
armed = record { levels = push_level 0 5 timer (new 0).levels; now = 0 }

pub armed_lem : insert_event 1000 timer (new 0) ≡ some armed
unfolding insert_event locate new new_level push_level
armed_lem = refl

armed-conserves :
    IsWheel armed
    × (levels_weight (λ _. 1) armed.levels ≡ levels_weight (λ _. 1) (new 0).levels + 1)
armed-conserves = insert_event-conserves (λ _. 1) 1000 timer (new 0) armed (new-IsWheel 0) armed_lem

insert_event-fits_example :
    is_some (insert_event 1000 timer (new 0))
    ≡ ltb (total_steps 1000 timer (new 0).now + position (new 0).levels) (slot_num ^ level_num)
insert_event-fits_example = insert_event-fits 1000 timer (new 0) (new-IsWheel 0)

armed-IsWheel : IsWheel armed
armed-IsWheel = armed-conserves.0

-- The hand of the first level has gone six slots on, and the timer fell due.
abbrev pub moved : Wheel
moved = record {
  levels = record { slots = replicate 60 []; current = 6 } ∷ replicate 4 new_level;
  now = 6000;
}

pub expire_lem : expire 1000 6000 armed [] ≡ some (moved, timer ∷ [])
unfolding expire walk level_steps turn sweep redistribute reinsert take_slot insert_all new
    new_level push_level push_slot insert_event locate
expire_lem = refl

expire-conserves_example :
    IsWheel moved
    × (levels_weight (λ _. 1) moved.levels + weight (λ _. 1) (timer ∷ [])
        ≡ levels_weight (λ _. 1) armed.levels + weight (λ _. 1) [])
expire-conserves_example =
    expire-conserves (λ _. 1) 1000 6000 armed moved [] (timer ∷ []) armed-IsWheel expire_lem

-- Two polls within a millisecond each.
abbrev still : Wheel
still = record { levels = armed.levels; now = 1800 }

polls_lem : polls 1000 (900 ∷ 1800 ∷ []) armed [] ≡ some (still, [])
unfolding polls expire walk level_steps turn sweep redistribute reinsert take_slot insert_all new
    new_level push_level push_slot insert_event locate
polls_lem = refl

polls_stall_example :
    (position still.levels ≡ position armed.levels)
    × (still.now ≡ last_of armed.now (900 ∷ 1800 ∷ []))
polls_stall_example =
    polls_stall 1000 (900 ∷ 1800 ∷ []) armed still [] [] armed-IsWheel (ground arith) polls_lem

armed-Served : Served 1000 0 0 armed
armed-Served = inserted 0 timer (new 0) armed made armed_lem

expire-fits_example :
    is_some (expire 1000 (1000 * (0 + 0 + 777600000)) armed [])
    ≡ ltb (0 + 777600000) (slot_num ^ level_num)
expire-fits_example =
    expire-fits 1000 0 0 777600000 armed (omega arith) (omega arith) (omega arith) armed-Served

expire-exact_example :
    (w' : Wheel) × (events : List Event) × (expire 1000 (1000 * (0 + 0 + 6)) armed []
      ≡ some (w', events))
    × All (λ e. e.expire_time / 1000 ≤ 0 + 0 + 6) events
    × Every (λ e. 0 + 0 + 6 < e.expire_time / 1000) w'.levels
    × (levels_weight (λ _. 1) w'.levels + weight (λ _. 1) events
        ≡ levels_weight (λ _. 1) armed.levels)
expire-exact_example =
    expire-exact (λ _. 1) 1000 0 0 6 armed (omega arith) (omega arith) (omega arith) armed-Served
