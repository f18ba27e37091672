-- ===== src/Time/Wheel.antt =====
-- include/xyco/time/wheel.ccm and src/time/wheel.cc: the hierarchical timer wheel. An instant is the
-- number of clock ticks since the epoch, and `ticks` is how many make a millisecond; both come from
-- std::chrono. A slot iterator is the slot's index. `none` is std::out_of_range, thrown by `at`.
pub mod Slots
pub mod Weights
pub mod Conserved
pub mod Counter
pub mod Hands
pub mod Stall
pub mod Spread
pub mod Swept
pub mod Placed
pub mod Turned
pub mod Timely
pub mod Exact
pub mod Total
pub mod Served
pub mod Examples
use xyco.Common.{
  ℕ, zero, suc, ◌+◌, ◌-◌, ◌*◌, ◌/◌, ◌%◌, ◌^◌, Bool, true, false, Option, none, some, List, [], ◌∷◌,
  ◌++◌, length, get_or, get_elem?, set, replicate, leb, ltb, ◌==◌, if◌then◌else◌,
}

-- Level::slot_num_, Wheel::level_num_ and Wheel::interval_ms_
abbrev pub slot_num : ℕ
slot_num = 60

abbrev pub level_num : ℕ
level_num = 5

abbrev pub interval_ms : ℕ
interval_ms = 1

-- An event with its TimeExtra; `future` names the coroutine that waits for it.
pub record Event : Type 0 where
  pub future : ℕ
  pub expire_time : ℕ

pub record Level : Type 0 where
  pub slots : List (List Event)
  pub current : ℕ

pub record Wheel : Type 0 where
  pub levels : List Level
  pub now : ℕ

pub new_level : Level
new_level = record { slots = replicate slot_num []; current = 0 }

pub new : ℕ → Wheel
unfolding new_level
new now = record { levels = replicate level_num new_level; now = now }

-- `steps >= std::distance(current_it_, end)`: whether `steps` slots on from `current` is past the end.
abbrev pub another_cycle : Level → ℕ → Bool
another_cycle l steps = leb (slot_num - l.current) steps

abbrev pub carry : Bool → ℕ
carry true = 1
carry false = 0

-- The loop of `insert_event` over the levels from `level` on. It ends when `total_steps` is 0.
pub locate : List Level → ℕ → ℕ → ℕ → Option (ℕ × ℕ)
locate [] total_steps level steps = if total_steps == 0 then some (level, steps) else none
locate (l ∷ ls) total_steps level steps =
    if total_steps == 0
    then some (level, steps)
    else locate ls (total_steps / slot_num + carry (another_cycle l (total_steps % slot_num)))
        (suc level) (total_steps % slot_num)

-- std::advance by `steps`, from which a whole round is taken first where they lead past the end.
abbrev pub advance : Level → ℕ → ℕ
advance l steps = if another_cycle l steps then l.current + steps - slot_num else l.current + steps

-- `push_back` on the slot at an index.
pub push_slot : ℕ → Event → List (List Event) → List (List Event)
push_slot i e [] = []
push_slot zero e (s ∷ ss) = (s ++ (e ∷ [])) ∷ ss
push_slot (suc i) e (s ∷ ss) = s ∷ push_slot i e ss

abbrev pub push_event : ℕ → Event → Level → Level
push_event steps e l = record l { slots = push_slot (advance l steps) e l.slots }

-- The levels after the event is put `steps` slots on from the hand of one of them.
pub push_level : ℕ → ℕ → Event → List Level → List Level
push_level level steps e [] = []
push_level zero steps e (l ∷ ls) = push_event steps e l ∷ ls
push_level (suc level) steps e (l ∷ ls) = l ∷ push_level level steps e ls

-- A count of steps that is negative is treated as 0 by the code, and stops at 0 here.
abbrev pub total_steps : ℕ → Event → ℕ → ℕ
total_steps ticks e now = (e.expire_time - now) / ticks

abbrev pub insert_located : Event → Wheel → Option (ℕ × ℕ) → Option Wheel
insert_located e w none = none
insert_located e w (some (level, steps)) =
    some (record w { levels = push_level (level - 1) steps e w.levels })

pub insert_event : ℕ → Event → Wheel → Option Wheel
insert_event ticks e w = insert_located e w (locate w.levels (total_steps ticks e w.now) 0 0)

-- The next slot, going round at the end.
abbrev pub next : ℕ → ℕ
next i = if i + 1 == slot_num then 0 else i + 1

-- `count` rounds of: take the events of the slot, clear it, go on to the next.
pub sweep : ℕ → ℕ → List (List Event) → List Event → ℕ × List (List Event) × List Event
sweep zero i slots events = (i, slots, events)
sweep (suc count) i slots events =
    sweep count (next i) (set slots i []) (events ++ get_or slots i [])

abbrev pub plan_cons : ℕ → Option (List ℕ) → Option (List ℕ)
plan_cons d none = none
plan_cons d (some ds) = some (d ∷ ds)

-- The first loop of `walk`: `level_steps`, as far as it is filled.
pub level_steps : List Level → ℕ → Option (List ℕ)
level_steps [] steps = if steps == 0 then some [] else none
level_steps (l ∷ ls) steps =
    if steps == 0
    then some []
    else plan_cons (steps % slot_num)
        (level_steps ls (steps / slot_num + carry (another_cycle l (steps % slot_num))))

-- A level below the last that moves: all its slots are swept, then its hand is advanced.
abbrev pub sweep_all : ℕ → Level → List Event → Level × List Event
sweep_all steps l events =
    let (i, slots, events') = sweep slot_num l.current l.slots events in
    (record l { slots = slots; current = advance l steps }, events')

-- The last level that moves: its slots are swept as far as its hand goes.
abbrev pub sweep_some : ℕ → Level → List Event → Level × List Event
sweep_some steps l events =
    let (i, slots, events') = sweep steps l.current l.slots events in
    (record l { slots = slots; current = i }, events')

-- Both sweeping loops of `walk`, over the levels that move. Where no step is made, the last level
-- that moves is the first, by 0 slots.
pub turn : List ℕ → List Level → List Event → List Level × List Event
turn ds [] events = ([], events)
turn [] (l ∷ ls) events = let (l', events') = sweep_some 0 l events in (l' ∷ ls, events')
turn (d ∷ []) (l ∷ ls) events = let (l', events') = sweep_some d l events in (l' ∷ ls, events')
turn (d ∷ d' ∷ ds) (l ∷ ls) events =
    let (l', events') = sweep_all d l events in
    let (ls', events'') = turn (d' ∷ ds) ls events' in (l' ∷ ls', events'')

-- The slot of a level is taken and cleared.
pub take_slot : ℕ → ℕ → List Level → List Event × List Level
take_slot level i [] = ([], [])
take_slot zero i (l ∷ ls) = (get_or l.slots i [], record l { slots = set l.slots i [] } ∷ ls)
take_slot (suc level) i (l ∷ ls) = let (events, ls') = take_slot level i ls in (events, l ∷ ls')

abbrev pub hand : ℕ → List Level → ℕ
hand level [] = 0
hand zero (l ∷ ls) = l.current
hand (suc level) (l ∷ ls) = hand level ls

pub insert_all : ℕ → List Event → Wheel → Option Wheel
insert_all ticks [] w = some w
insert_all ticks (e ∷ es) w = elim (insert_event ticks e w) [
  | none ↦ none
  | some w' ↦ insert_all ticks es w'
]

-- The events of one slot are taken and inserted anew.
pub reinsert : ℕ → ℕ → ℕ → Wheel → Option Wheel
reinsert ticks level i w =
    let (events, levels) = take_slot level i w.levels in
    insert_all ticks events (record w { levels = levels })

-- The end of `walk`, behind the loops: `level` is the last level that moved.
abbrev pub collect : Wheel → List Event → Wheel × List Event
collect w events =
    let (due, levels) = take_slot 0 (hand 0 w.levels) w.levels in
    (record w { levels = levels }, events ++ due)

abbrev pub then_reinsert : ℕ → ℕ → ℕ → Option Wheel → Option Wheel
then_reinsert ticks level i none = none
then_reinsert ticks level i (some w) = reinsert ticks level i w

abbrev pub then_collect : List Event → Option Wheel → Option (Wheel × List Event)
then_collect events none = none
then_collect events (some w) = some (collect w events)

-- The slot of the hand and the next one are emptied and their events inserted anew.
pub redistribute : ℕ → ℕ → Wheel → List Event → Option (Wheel × List Event)
redistribute ticks level w events =
    let i = hand level w.levels in
    then_collect events (then_reinsert ticks level (next i) (reinsert ticks level i w))

abbrev pub walk_planned : ℕ → Wheel → List Event → Option (List ℕ) → Option (Wheel × List Event)
walk_planned ticks w events none = none
walk_planned ticks w events (some ds) =
    let (levels, events') = turn ds w.levels events in
    redistribute ticks (length ds - 1) (record w { levels = levels }) events'

pub walk : ℕ → ℕ → Wheel → List Event → Option (Wheel × List Event)
walk ticks steps w events = walk_planned ticks w events (level_steps w.levels steps)

-- static_cast<int>; `walk` treats a negative number of steps as 0.
abbrev pub as_int : ℕ → ℕ
as_int n = if ltb (n % 2 ^ 32) (2 ^ 31) then n % 2 ^ 32 else 0

-- `clock` is what Clock::now() returns.
pub expire : ℕ → ℕ → Wheel → List Event → Option (Wheel × List Event)
expire ticks clock w events =
    if ltb w.now clock
    then walk ticks (as_int ((clock - w.now) / ticks / interval_ms)) (record w { now = clock })
        events
    else some (w, events)
