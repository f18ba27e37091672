-- ===== src/Time/Wheel/Timely.antt =====
-- A wheel whose time is whole milliseconds and whose events stand in the slots of their times.
use native.Mathlib.Nat.{add-mul-div_left, zero-div, div-le_of_le-mul}
use xyco.Common.{
  ◌∙◌, sym, subst, ap, ℕ, zero, suc, ◌+◌, ◌-◌, ◌*◌, ◌/◌, ◌<◌, ◌≤◌, ◌≡◌, true, false, Option, none,
  some, List, [], ◌∷◌, set, leb, Bool-cases, Option-cases, inl, inr, arith, length-set,
}
use xyco.Time.Wheel.{
  Event, Level, Wheel, total_steps, insert_located, insert_event, take_slot, insert_all,
}
use xyco.Time.Wheel.Spread.{AllSlots, AllSlots-map, AllSlots-set}
use xyco.Time.Wheel.Counter.{position}
use xyco.Time.Wheel.Hands.{position-push_level, position-take_slot}
use xyco.Time.Wheel.Slots.{
  IsWheel, AreLevels, push_level-AreLevels, length-push_level, take_slot-AreLevels,
  length-take_slot,
}
use xyco.Time.Wheel.Placed.{Ahead, Near, upper, Strict, Placed, Placing, locate-Placing}

part : (x m : ℕ) → leb m x ≡ true → x ≡ (x - m) + m
part x m z = ground (arith, z)

none_left : (x m : ℕ) → leb m x ≡ false → x - m ≡ 0
none_left x m z = ground (arith, z)

below : (x m : ℕ) → leb m x ≡ false → x ≤ m
below x m z = ground (arith, z)

-- What is left of a number of ticks that starts `n` whole milliseconds before.
pub left_div : (ticks x n : ℕ) → 0 < ticks → (x - ticks * n) / ticks ≡ x / ticks - n
left_div ticks x n p = elim (Bool-cases (leb (ticks * n) x)) [
  | inl z ↦
      let q : x ≡ (x - ticks * n) + ticks * n = part x (ticks * n) z in
      omega (arith, ap (λ y. y / ticks) q ∙ add-mul-div_left (x - ticks * n) n p)
  | inr z ↦
      let q : x - ticks * n ≡ 0 = none_left x (ticks * n) z in
      let b : x / ticks ≤ n = div-le_of_le-mul ticks (below x (ticks * n) z) in
      ap (λ y. y / ticks) q ∙ zero-div ticks ∙ omega (arith, b)
]

-- The time of an event in the number that the hands show, where the wheel showed 0 at `base`
-- milliseconds.
abbrev pub due : ℕ → ℕ → Event → ℕ
due ticks base e = e.expire_time / ticks - base

-- The hands show `n`, which is the wheel's time, and the events stand where they belong.
abbrev pub Timely : ℕ → ℕ → ℕ → Wheel → Type 0
Timely ticks base n w =
    IsWheel w
    × Placed (due ticks base) w.levels
    × (position w.levels ≡ n)
    × (w.now ≡ ticks * (base + n))

Strict-take_slot :
    (d : Event → ℕ) (level i : ℕ) (ls : List Level)
    → AreLevels ls
    → Strict d ls
    → Strict d (take_slot level i ls).1
unfolding take_slot
Strict-take_slot d level i [] a h = tt
Strict-take_slot d zero i (l ∷ ls) a h = (
  AllSlots-map (λ s e. Ahead d l (position ls) s e × ((s ≡ i) → ⊥)) (Ahead d l (position ls))
      (set l.slots i []) (length-set l.slots i [] ∙ a.0.0) (λ s e b q. q.0)
      (AllSlots-set (Ahead d l (position ls)) i l.slots h.0),
  h.1,
)
Strict-take_slot d (suc level) i (l ∷ ls) a h = (
  subst (λ n. AllSlots (Ahead d l n) l.slots) (sym (position-take_slot level i ls)) h.0,
  Strict-take_slot (upper d) level i ls a.1 h.1,
)

Placed-take_slot :
    (d : Event → ℕ) (level i : ℕ) (ls : List Level)
    → AreLevels ls
    → Placed d ls
    → Placed d (take_slot level i ls).1
unfolding take_slot
Placed-take_slot d level i [] a h = tt
Placed-take_slot d zero i (l ∷ ls) a h = (
  AllSlots-map (λ s e. Near d l (position ls) s e × ((s ≡ i) → ⊥)) (Near d l (position ls))
      (set l.slots i []) (length-set l.slots i [] ∙ a.0.0) (λ s e b q. q.0)
      (AllSlots-set (Near d l (position ls)) i l.slots h.0),
  h.1,
)
Placed-take_slot d (suc level) i (l ∷ ls) a h = (
  subst (λ n. AllSlots (Near d l n) l.slots) (sym (position-take_slot level i ls)) h.0,
  Strict-take_slot (upper d) level i ls a.1 h.1,
)

pub take_slot-Timely :
    (ticks base n level i : ℕ) (w : Wheel)
    → Timely ticks base n w
    → Timely ticks base n (record w { levels = (take_slot level i w.levels).1 })
take_slot-Timely ticks base n level i w h = (
  (length-take_slot level i w.levels ∙ h.0.0, take_slot-AreLevels level i w.levels h.0.1),
  Placed-take_slot (due ticks base) level i w.levels h.0.1 h.1,
  position-take_slot level i w.levels ∙ h.2,
  h.3,
)

-- The wheel that results, if one does, is timely.
abbrev pub TimelyIf : ℕ → ℕ → ℕ → Option Wheel → Type 0
TimelyIf ticks base n none = Unit
TimelyIf ticks base n (some w) = Timely ticks base n w

insert_located-TimelyIf :
    (ticks base n : ℕ) (e : Event) (w : Wheel) (o : Option (ℕ × ℕ))
    → Timely ticks base n w
    → Placing (due ticks base) e w.levels o
    → TimelyIf ticks base n (insert_located e w o)
insert_located-TimelyIf ticks base n e w none h p = tt
insert_located-TimelyIf ticks base n e w (some (found, steps)) h p = (
  (
    length-push_level (found - 1) steps e w.levels ∙ h.0.0,
    push_level-AreLevels (found - 1) steps e w.levels h.0.1,
  ),
  p,
  position-push_level (found - 1) steps e w.levels ∙ h.2,
  h.3,
)

pub total_steps-due :
    (ticks base n : ℕ) (e : Event) (w : Wheel)
    → 0 < ticks
    → Timely ticks base n w
    → due ticks base e - position w.levels ≡ total_steps ticks e w.now
total_steps-due ticks base n e w t h =
    omega (arith, left_div ticks e.expire_time (base + n) t, h.2)
    ∙ ap (λ m. (e.expire_time - m) / ticks) (sym h.3)

insert_event-TimelyIf :
    (ticks base n : ℕ) (e : Event) (w : Wheel)
    → 0 < ticks
    → Timely ticks base n w
    → TimelyIf ticks base n (insert_event ticks e w)
unfolding insert_event
insert_event-TimelyIf ticks base n e w t h = insert_located-TimelyIf ticks base n e w _ h (
    locate-Placing (due ticks base) e w.levels (total_steps ticks e w.now) h.0.1
      (total_steps-due ticks base n e w t h) h.1)

pub insert_event-Timely :
    (ticks base n : ℕ) (e : Event) (w w' : Wheel)
    → 0 < ticks
    → Timely ticks base n w
    → insert_event ticks e w ≡ some w'
    → Timely ticks base n w'
insert_event-Timely ticks base n e w w' t h s =
    subst (TimelyIf ticks base n) s (insert_event-TimelyIf ticks base n e w t h)

pub insert_all-TimelyIf :
    (ticks base n : ℕ) (es : List Event) (w : Wheel)
    → 0 < ticks
    → Timely ticks base n w
    → TimelyIf ticks base n (insert_all ticks es w)
unfolding insert_all
insert_all-TimelyIf ticks base n [] w t h = h
insert_all-TimelyIf ticks base n (x ∷ xs) w t h = elim (Option-cases (insert_event ticks x w)) [
  | inl z ↦ rw (z, insert_all) tt
  | inr (w', s) ↦
      rw (s, insert_all)
        (insert_all-TimelyIf ticks base n xs w' t (insert_event-Timely ticks base n x w w' t h s))
]
