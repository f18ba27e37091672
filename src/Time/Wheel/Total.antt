-- ===== src/Time/Wheel/Total.antt =====
-- When `expire` succeeds, with a clock that reads whole milliseconds.
use xyco.Common.{
  lt→ltb, ◌∙◌, subst, refl, ap, ℕ, zero, suc, ◌+◌, ◌-◌, ◌*◌, ◌^◌, ◌<◌, ◌≡◌, true, Option, none,
  some, List, [], ◌∷◌, length, ltb, Option-cases, inl, inr, arith,
}
use xyco.Time.Wheel.{
  slot_num, level_num, Event, Level, Wheel, insert_event, next, sweep, turn, take_slot, hand,
  insert_all, reinsert, then_reinsert, then_collect, redistribute, walk_planned, walk, expire,
}
use xyco.Time.Wheel.Spread.{All, AllSlots-map, AllSlots-get_or}
use xyco.Time.Wheel.Swept.{sweep-AllSlots}
use xyco.Time.Wheel.Counter.{
  position, position-lt, capacity, capacity-IsWheel, is_some, level_steps-fits, insert_event-fits,
  level_steps-PlanAdds, PlanAdds,
}
use xyco.Time.Wheel.Slots.{
  IsWheel, AreLevels, turn-AreLevels, length-turn, IsPlan, level_steps-IsPlan,
}
use xyco.Time.Wheel.Placed.{Ahead, Near, upper, Strict, Placed}
use xyco.Time.Wheel.Turned.{PlansAll, Turned, level_steps-Plans, turn-Turned}
use xyco.Time.Wheel.Timely.{
  due, Timely, TimelyIf, take_slot-Timely, insert_all-TimelyIf, insert_event-Timely,
  total_steps-due,
}
use xyco.Time.Wheel.Exact.{take_hand-Timely, Every, expire_whole}

Strict-capacity :
    (d : Event → ℕ) (R : Event → Type 0) (ls : List Level)
    → AreLevels ls
    → ((e : Event) → d e < capacity ls → R e)
    → Strict d ls
    → Every R ls
Strict-capacity d R [] a f h = tt
Strict-capacity d R (l ∷ ls) a f h =
    let b = position-lt ls a.1 in
    (
      AllSlots-map (Ahead d l (position ls)) (λ s e. R e) l.slots a.0.0
          (λ s e t q. f e (omega (arith, q.0, t, b))) h.0,
      Strict-capacity (upper d) R ls a.1 (λ e q. f e (omega (arith, q))) h.1,
    )

-- No event is later than the hands can show.
Placed-capacity :
    (d : Event → ℕ) (ls : List Level)
    → AreLevels ls
    → Placed d ls
    → Every (λ e. d e < capacity ls) ls
Placed-capacity d [] a h = tt
Placed-capacity d (l ∷ ls) a h =
    let b = position-lt ls a.1 in
    (
      AllSlots-map (Near d l (position ls)) (λ s e. d e < capacity (l ∷ ls)) l.slots a.0.0
          (λ s e t q. omega (arith, q.0, q.1, t, b)) h.0,
      Strict-capacity (upper d) (λ e. d e < capacity (l ∷ ls)) ls a.1 (λ e q. omega (arith, q)) h.1,
    )

turn-Every :
    (R : Event → Type 0) (ds : List ℕ) (ls : List Level) (events : List Event)
    → AreLevels ls
    → Every R ls
    → Every R (turn ds ls events).0
unfolding turn
turn-Every R [] [] events a h = tt
turn-Every R (d ∷ ds) [] events a h = tt
turn-Every R [] (l ∷ ls) events a h =
    (sweep-AllSlots (λ s e. R e) 0 l.current l.slots events a.0.0 h.0, h.1)
turn-Every R (d ∷ []) (l ∷ ls) events a h =
    (sweep-AllSlots (λ s e. R e) d l.current l.slots events a.0.0 h.0, h.1)
turn-Every R (d ∷ d' ∷ ds) (l ∷ ls) events a h = (
  sweep-AllSlots (λ s e. R e) slot_num l.current l.slots events a.0.0 h.0,
  turn-Every R (d' ∷ ds) ls (sweep slot_num l.current l.slots events).2 a.1 h.1,
)

take_slot-All :
    (R : Event → Type 0) (level i : ℕ) (ls : List Level)
    → Every R ls
    → All R (take_slot level i ls).0
unfolding take_slot
take_slot-All R level i [] h = tt
take_slot-All R zero i (l ∷ ls) h = AllSlots-get_or (λ s e. R e) i l.slots h.0
take_slot-All R (suc level) i (l ∷ ls) h = take_slot-All R level i ls h.1

insert_event-is_some :
    (ticks base n : ℕ) (e : Event) (w : Wheel)
    → 0 < ticks
    → Timely ticks base n w
    → due ticks base e < slot_num ^ level_num
    → is_some (insert_event ticks e w) ≡ true
insert_event-is_some ticks base n e w t h b =
    insert_event-fits ticks e w h.0
    ∙ lt→ltb _ _ (
        omega (
          arith,
          b,
          total_steps-due ticks base n e w t h,
          position-lt w.levels h.0.1,
          capacity-IsWheel w h.0,
        ))

pub not_some : {A : Type 0} (o : Option A) → o ≡ none → is_some o ≡ true → ⊥
not_some none z q = cc
not_some (some a) z q = cc

insert_all-is_some :
    (ticks base n : ℕ) (es : List Event) (w : Wheel)
    → 0 < ticks
    → Timely ticks base n w
    → All (λ e. due ticks base e < slot_num ^ level_num) es
    → is_some (insert_all ticks es w) ≡ true
unfolding insert_all
insert_all-is_some ticks base n [] w t h r = refl
insert_all-is_some ticks base n (x ∷ xs) w t h r =
    let q = insert_event-is_some ticks base n x w t h r.0 in
    elim (Option-cases (insert_event ticks x w)) [
      | inl z ↦ absurd (not_some (insert_event ticks x w) z q)
      | inr (w', s) ↦
          rw (s, insert_all)
            (insert_all-is_some ticks base n xs w' t (insert_event-Timely ticks base n x w w' t h s)
              r.1)
    ]

Timely-Every :
    (ticks base n : ℕ) (w : Wheel)
    → Timely ticks base n w
    → Every (λ e. due ticks base e < slot_num ^ level_num) w.levels
Timely-Every ticks base n w h =
    subst (λ c. Every (λ e. due ticks base e < c) w.levels) (capacity-IsWheel w h.0)
      (Placed-capacity (due ticks base) w.levels h.0.1 h.1)

then_reinsert-is_some :
    (ticks base n level i : ℕ) (o : Option Wheel)
    → 0 < ticks
    → TimelyIf ticks base n o
    → is_some o ≡ true
    → is_some (then_reinsert ticks level i o) ≡ true
unfolding reinsert
then_reinsert-is_some ticks base n level i none t h q = q
then_reinsert-is_some ticks base n level i (some w) t h q =
    insert_all-is_some ticks base n _ _ t (take_slot-Timely ticks base n level i w h)
      (take_slot-All _ level i w.levels (Timely-Every ticks base n w h))

then_collect-is_some :
    (events : List Event) (o : Option Wheel) → is_some (then_collect events o) ≡ is_some o
then_collect-is_some events none = refl
then_collect-is_some events (some w) = refl

redistribute-is_some :
    (ticks base n : ℕ) (ds : List ℕ) (w : Wheel) (events : List Event)
    → 0 < ticks
    → IsWheel w
    → position w.levels ≡ n
    → w.now ≡ ticks * (base + n)
    → Turned (due ticks base) ds w.levels
    → Every (λ e. due ticks base e < slot_num ^ level_num) w.levels
    → is_some (redistribute ticks (length ds - 1) w events) ≡ true
unfolding redistribute reinsert
redistribute-is_some ticks base n ds w events t a p m h r =
    let taken = take_hand-Timely ticks base n ds w a p m h in
    let events' = take_slot-All _ (length ds - 1) (hand (length ds - 1) w.levels) w.levels r in
    then_collect-is_some events _
    ∙ then_reinsert-is_some ticks base n (length ds - 1) (next (hand (length ds - 1) w.levels)) _ t
        (insert_all-TimelyIf ticks base n _ _ t taken)
        (insert_all-is_some ticks base n _ _ t taken events')

walk_planned-is_some :
    (ticks base n steps : ℕ) (w : Wheel) (events : List Event) (o : Option (List ℕ))
    → 0 < ticks
    → IsWheel w
    → Placed (due ticks base) w.levels
    → Every (λ e. due ticks base e < slot_num ^ level_num) w.levels
    → position w.levels + steps ≡ n
    → w.now ≡ ticks * (base + n)
    → IsPlan o
    → PlansAll w.levels steps o
    → PlanAdds w.levels steps o
    → is_some (walk_planned ticks w events o) ≡ is_some o
walk_planned-is_some ticks base n steps w events none t a h r p m i q s = refl
walk_planned-is_some ticks base n steps w events (some ds) t a h r p m i q s =
    redistribute-is_some ticks base n ds (record w { levels = (turn ds w.levels events).0 })
      (turn ds w.levels events).1 t
      (length-turn ds w.levels events ∙ a.0, turn-AreLevels ds w.levels events i a.1) (s events ∙ p)
      m (turn-Turned (due ticks base) ds w.levels steps events a.1 q h)
      (turn-Every _ ds w.levels events a.1 r)

pub expire-is_some :
    (ticks base n k : ℕ) (w : Wheel)
    → 0 < ticks
    → 0 < k
    → k < 2 ^ 31
    → Timely ticks base n w
    → is_some (expire ticks (ticks * (base + n + k)) w []) ≡ ltb (n + k) (slot_num ^ level_num)
unfolding walk
expire-is_some ticks base n k w t p b h =
    let m : ticks * (base + n + k) ≡ ticks * (base + (n + k)) = ap (λ j. ticks * j) (omega arith) in
    let c : k + position w.levels ≡ n + k = omega (arith, h.2) in
    ap is_some (expire_whole ticks base n k w [] t p b h.3)
    ∙ walk_planned-is_some ticks base (n + k) k (record w { now = ticks * (base + n + k) }) [] _ t
        h.0 h.1 (Timely-Every ticks base n w h) (omega (arith, h.2)) m
        (level_steps-IsPlan w.levels k) (level_steps-Plans w.levels k h.0.1)
        (level_steps-PlanAdds w.levels k h.0.1)
    ∙ level_steps-fits w.levels k h.0.1
    ∙ ap (λ j. ltb j (capacity w.levels)) c
    ∙ ap (ltb (n + k)) (capacity-IsWheel w h.0)
