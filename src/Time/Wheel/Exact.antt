-- ===== src/Time/Wheel/Exact.antt =====
-- When the events of the wheel fall due, with a clock that reads whole milliseconds.
use native.Mathlib.Nat.{mul-div_cancel_left, mul-lt-mul_of_pos_left}
use xyco.Common.{
  lt→ltb, ◌∙◌, refl, ap, ℕ, ◌+◌, ◌-◌, ◌*◌, ◌/◌, ◌^◌, ◌<◌, ◌≤◌, ◌≡◌, true, Option, none, some, List,
  [], ◌∷◌, length, get_or, set, ltb, arith, length-set,
}
use xyco.Time.Wheel.{
  interval_ms, Event, Level, Wheel, next, turn, take_slot, hand, reinsert, then_reinsert,
  then_collect, redistribute, walk_planned, walk, as_int, expire,
}
use xyco.Time.Wheel.Spread.{All, All-append, All-map, AllSlots, AllSlots-map, AllSlots-get_or}
use xyco.Time.Wheel.Counter.{position, level_steps-PlanAdds, PlanAdds}
use xyco.Time.Wheel.Hands.{position-take_slot}
use xyco.Time.Wheel.Slots.{
  IsWheel, AreLevels, take_slot-AreLevels, length-take_slot, turn-AreLevels, length-turn, IsPlan,
  level_steps-IsPlan,
}
use xyco.Time.Wheel.Placed.{Ahead, Near, upper, Strict, Placed, Strict-Placed}
use xyco.Time.Wheel.Turned.{
  PlansAll, Turned, level_steps-Plans, turn-Turned, take-Strict, take_hand-Strict, turn-All,
}
use xyco.Time.Wheel.Timely.{due, Timely, TimelyIf, take_slot-Timely, insert_all-TimelyIf, left_div}

-- Every event that the levels hold.
abbrev pub Every : (Event → Type 0) → List Level → Type 0
Every R [] = Unit
Every R (l ∷ ls) = AllSlots (λ s e. R e) l.slots × Every R ls

pub Every-map :
    (P Q : Event → Type 0) (ls : List Level)
    → AreLevels ls
    → ((e : Event) → P e → Q e)
    → Every P ls
    → Every Q ls
Every-map P Q [] a f h = tt
Every-map P Q (l ∷ ls) a f h = (
  AllSlots-map (λ s e. P e) (λ s e. Q e) l.slots a.0.0 (λ s e b q. f e q) h.0,
  Every-map P Q ls a.1 f h.1,
)

Strict-Every :
    (d : Event → ℕ) (R : Event → Type 0) (ls : List Level)
    → AreLevels ls
    → ((e : Event) → position ls < d e → R e)
    → Strict d ls
    → Every R ls
Strict-Every d R [] a f h = tt
Strict-Every d R (l ∷ ls) a f h = (
  AllSlots-map (Ahead d l (position ls)) (λ s e. R e) l.slots a.0.0
      (λ s e b q. f e (omega (arith, q.0, q.1))) h.0,
  Strict-Every (upper d) R ls a.1 (λ e q. f e (omega (arith, q, a.0.1))) h.1,
)

-- The events handed out are those that are due, and the wheel holds the others.
abbrev pub Sorted : ℕ → ℕ → ℕ → Option (Wheel × List Event) → Type 0
Sorted ticks base n none = Unit
Sorted ticks base n (some (w, events)) =
    Timely ticks base n w
    × All (λ e. due ticks base e ≤ n) events
    × Every (λ e. n < due ticks base e) w.levels

-- The slot of the lowest hand holds what is due, and the others nothing that is.
take_due :
    (d : Event → ℕ) (n : ℕ) (ls : List Level)
    → AreLevels ls
    → position ls ≡ n
    → Placed d ls
    → All (λ e. d e ≤ n) (take_slot 0 (hand 0 ls) ls).0
unfolding take_slot
take_due d n [] a p h = tt
take_due d n (l ∷ ls) a p h =
    All-map (Near d l (position ls) l.current) (λ e. d e ≤ n) (get_or l.slots l.current [])
      (λ e q. omega (arith, q.0, p))
      (AllSlots-get_or (Near d l (position ls)) l.current l.slots h.0)

take_rest :
    (d : Event → ℕ) (n : ℕ) (ls : List Level)
    → AreLevels ls
    → position ls ≡ n
    → Placed d ls
    → Every (λ e. n < d e) (take_slot 0 (hand 0 ls) ls).1
unfolding take_slot
take_rest d n [] a p h = tt
take_rest d n (l ∷ ls) a p h =
    Strict-Every d (λ e. n < d e) (record l { slots = set l.slots l.current [] } ∷ ls)
      ((length-set l.slots l.current [] ∙ a.0.0, a.0.1), a.1) (λ e q. omega (arith, q, p))
      (take_hand-Strict d l ls a h, h.1)

then_collect-Sorted :
    (ticks base n : ℕ) (events : List Event) (o : Option Wheel)
    → All (λ e. due ticks base e ≤ n) events
    → TimelyIf ticks base n o
    → Sorted ticks base n (then_collect events o)
then_collect-Sorted ticks base n events none r h = tt
then_collect-Sorted ticks base n events (some w) r h = (
  take_slot-Timely ticks base n 0 (hand 0 w.levels) w h,
  All-append (λ e. due ticks base e ≤ n) events _ r
      (take_due (due ticks base) n w.levels h.0.1 h.2 h.1),
  take_rest (due ticks base) n w.levels h.0.1 h.2 h.1,
)

then_reinsert-TimelyIf :
    (ticks base n level i : ℕ) (o : Option Wheel)
    → 0 < ticks
    → TimelyIf ticks base n o
    → TimelyIf ticks base n (then_reinsert ticks level i o)
unfolding reinsert
then_reinsert-TimelyIf ticks base n level i none t h = tt
then_reinsert-TimelyIf ticks base n level i (some w) t h =
    insert_all-TimelyIf ticks base n _ _ t (take_slot-Timely ticks base n level i w h)

-- The levels are those after the turning by the plan `ds`.
pub take_hand-Timely :
    (ticks base n : ℕ) (ds : List ℕ) (w : Wheel)
    → IsWheel w
    → position w.levels ≡ n
    → w.now ≡ ticks * (base + n)
    → Turned (due ticks base) ds w.levels
    → Timely ticks base n (record w {
      levels = (take_slot (length ds - 1) (hand (length ds - 1) w.levels) w.levels).1;
    })
take_hand-Timely ticks base n ds w a p m h = (
  (length-take_slot level i w.levels ∙ a.0, take_slot-AreLevels level i w.levels a.1),
  Strict-Placed (due ticks base) (take_slot level i w.levels).1
      (take_slot-AreLevels level i w.levels a.1) (take-Strict (due ticks base) ds w.levels a.1 h),
  position-take_slot level i w.levels ∙ p,
  m,
)
  where
    level : ℕ
    level = length ds - 1

    i : ℕ
    i = hand level w.levels

redistribute-Sorted :
    (ticks base n : ℕ) (ds : List ℕ) (w : Wheel) (events : List Event)
    → 0 < ticks
    → IsWheel w
    → position w.levels ≡ n
    → w.now ≡ ticks * (base + n)
    → Turned (due ticks base) ds w.levels
    → All (λ e. due ticks base e ≤ n) events
    → Sorted ticks base n (redistribute ticks (length ds - 1) w events)
unfolding redistribute reinsert
redistribute-Sorted ticks base n ds w events t a p m h r =
    then_collect-Sorted ticks base n events _ r (
      then_reinsert-TimelyIf ticks base n (length ds - 1) (next (hand (length ds - 1) w.levels)) _ t
        (insert_all-TimelyIf ticks base n _ _ t (take_hand-Timely ticks base n ds w a p m h)))

walk_planned-Sorted :
    (ticks base n steps : ℕ) (w : Wheel) (events : List Event) (o : Option (List ℕ))
    → 0 < ticks
    → IsWheel w
    → Placed (due ticks base) w.levels
    → position w.levels + steps ≡ n
    → w.now ≡ ticks * (base + n)
    → All (λ e. due ticks base e ≤ n) events
    → IsPlan o
    → PlansAll w.levels steps o
    → PlanAdds w.levels steps o
    → Sorted ticks base n (walk_planned ticks w events o)
walk_planned-Sorted ticks base n steps w events none t a h p m r i q s = tt
walk_planned-Sorted ticks base n steps w events (some ds) t a h p m r i q s =
    redistribute-Sorted ticks base n ds (record w { levels = (turn ds w.levels events).0 })
      (turn ds w.levels events).1 t
      (length-turn ds w.levels events ∙ a.0, turn-AreLevels ds w.levels events i a.1) (s events ∙ p)
      m (turn-Turned (due ticks base) ds w.levels steps events a.1 q h)
      (turn-All (due ticks base) (λ e. due ticks base e ≤ n) ds w.levels steps events a.1 q h
        (λ e b. omega (arith, b, p)) r)

as_int_small : (k : ℕ) → k < 2 ^ 31 → as_int (k / interval_ms) ≡ k
as_int_small k b = ground arith

between : (ticks a k : ℕ) → 0 < ticks → (ticks * (a + k) - ticks * a) / ticks ≡ k
between ticks a k t =
    left_div ticks (ticks * (a + k)) a t ∙ omega (arith, mul-div_cancel_left (a + k) t)

later : (ticks a k : ℕ) → 0 < ticks → 0 < k → ticks * a < ticks * (a + k)
later ticks a k t p = mul-lt-mul_of_pos_left (omega (arith, p)) t

expire_walks :
    (ticks clock k : ℕ) (w : Wheel) (events : List Event)
    → ltb w.now clock ≡ true
    → as_int ((clock - w.now) / ticks / interval_ms) ≡ k
    → expire ticks clock w events ≡ walk ticks k (record w { now = clock }) events
unfolding expire
expire_walks ticks clock k w events l q = rw (l, q) refl

-- The wheel's time and the clock are whole milliseconds.
pub expire_whole :
    (ticks base n k : ℕ) (w : Wheel) (events : List Event)
    → 0 < ticks
    → 0 < k
    → k < 2 ^ 31
    → w.now ≡ ticks * (base + n)
    → expire ticks (ticks * (base + n + k)) w events
      ≡ walk ticks k (record w { now = ticks * (base + n + k) }) events
expire_whole ticks base n k w events t p b m =
    expire_walks ticks (ticks * (base + n + k)) k w events
      (lt→ltb w.now _ (omega (arith, m, later ticks (base + n) k t p)))
      (ap (λ j. as_int ((ticks * (base + n + k) - j) / ticks / interval_ms)) m
        ∙ ap (λ j. as_int (j / interval_ms)) (between ticks (base + n) k t)
        ∙ as_int_small k b)

pub expire-Sorted :
    (ticks base n k : ℕ) (w : Wheel)
    → 0 < ticks
    → 0 < k
    → k < 2 ^ 31
    → Timely ticks base n w
    → Sorted ticks base (n + k) (expire ticks (ticks * (base + n + k)) w [])
unfolding walk
expire-Sorted ticks base n k w t p b h =
    let m : ticks * (base + n + k) ≡ ticks * (base + (n + k)) = ap (λ j. ticks * j) (omega arith) in
    rw (expire_whole ticks base n k w [] t p b h.3) (
      walk_planned-Sorted ticks base (n + k) k (record w { now = ticks * (base + n + k) }) [] _ t
        h.0 h.1 (omega (arith, h.2)) m tt (level_steps-IsPlan w.levels k)
        (level_steps-Plans w.levels k h.0.1) (level_steps-PlanAdds w.levels k h.0.1))
