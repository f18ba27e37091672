-- ===== src/Time/Wheel/Turned.antt =====
-- What the turning of the hands takes out of the levels, and what it leaves in them.
use xyco.Common.{
  ◌∙◌, sym, subst, refl, ℕ, suc, ◌+◌, ◌-◌, ◌/◌, ◌%◌, ◌<◌, ◌≤◌, ◌≡◌, Option, none, some, List, [],
  ◌∷◌, length, set, ◌==◌, Bool-cases, inl, inr, arith, length-set,
}
use xyco.Time.Wheel.{
  slot_num, Event, Level, sweep, level_steps, plan_cons, sweep_some, turn, take_slot, hand,
}
use xyco.Time.Wheel.Spread.{All, AllSlots, AllSlots-map, AllSlots-set}
use xyco.Time.Wheel.Swept.{sweep-All, sweep_left, sweep_taken, sweep_round, NoEvent}
use xyco.Time.Wheel.Counter.{level_steps-nil, position, carried, sweep-advance}
use xyco.Time.Wheel.Slots.{sweep-slots, AreLevels}
use xyco.Time.Wheel.Placed.{Ahead, Near, upper, Strict, Placed, Strict-Placed}

-- A plan moves the number that the hands show by `steps`: the last level moved gets by without a
-- carry, and each below it hands one on.
abbrev pub Plans : List Level → ℕ → List ℕ → Type 0
Plans ls steps [] = steps ≡ 0
Plans [] steps (d ∷ ds) = ⊥
Plans (l ∷ ls) steps (d ∷ []) = (0 < steps) × (steps ≡ d) × (l.current + d < slot_num)
Plans (l ∷ ls) steps (d ∷ d' ∷ ds) =
    (0 < steps) × (d ≡ steps % slot_num) × Plans ls ((steps + l.current) / slot_num) (d' ∷ ds)

abbrev pub PlansAll : List Level → ℕ → Option (List ℕ) → Type 0
PlansAll ls steps none = Unit
PlansAll ls steps (some ds) = Plans ls steps ds

plan_cons-PlansAll :
    (l : Level) (ls : List Level) (steps : ℕ) (o : Option (List ℕ))
    → l.current < slot_num
    → 0 < steps
    → PlansAll ls ((steps + l.current) / slot_num) o
    → (o ≡ some [] → (steps + l.current) / slot_num ≡ 0)
    → PlansAll (l ∷ ls) steps (plan_cons (steps % slot_num) o)
plan_cons-PlansAll l ls steps none c t p n = tt
plan_cons-PlansAll l ls steps (some []) c t p n = (t, omega (arith, n refl), omega (arith, n refl))
plan_cons-PlansAll l ls steps (some (d ∷ ds)) c t p n = (t, refl, p)

pub level_steps-Plans :
    (ls : List Level) (steps : ℕ) → AreLevels ls → PlansAll ls steps (level_steps ls steps)
unfolding level_steps
level_steps-Plans [] steps h = elim (Bool-cases (steps == 0)) [
  | inl z ↦ rw (z, level_steps) (ground arith)
  | inr z ↦ rw (z, level_steps) tt
]
level_steps-Plans (l ∷ ls) steps h = elim (Bool-cases (steps == 0)) [
  | inl z ↦ rw (z, level_steps) (ground arith)
  | inr z ↦
      rw (z, level_steps, carried l steps h.0.1)
        (plan_cons-PlansAll l ls steps _ h.0.1 (ground (arith, z)) (level_steps-Plans ls _ h.1)
          (level_steps-nil ls _))
]

Plans-pos : (ls : List Level) (steps d : ℕ) (ds : List ℕ) → Plans ls steps (d ∷ ds) → 0 < steps
Plans-pos [] steps d ds p = absurd p
Plans-pos (l ∷ ls) steps d [] p = p.0
Plans-pos (l ∷ ls) steps d (d' ∷ ds) p = p.0

-- The levels after `turn`: those below the last that moves are empty.
abbrev pub Turned : (Event → ℕ) → List ℕ → List Level → Type 0
Turned due ds [] = Unit
Turned due [] (l ∷ ls) = Placed due (l ∷ ls)
Turned due (d ∷ []) (l ∷ ls) = Placed due (l ∷ ls)
Turned due (d ∷ d' ∷ ds) (l ∷ ls) = AllSlots NoEvent l.slots × Turned (upper due) (d' ∷ ds) ls

from_hand :
    (due : Event → ℕ) (l : Level) (above : ℕ)
    → length l.slots ≡ slot_num
    → AllSlots (Near due l above) l.slots
    → AllSlots (λ s e. Near due l above s e × (l.current ≤ s)) l.slots
from_hand due l above n h =
    AllSlots-map (Near due l above) (λ s e. Near due l above s e × (l.current ≤ s)) l.slots n
      (λ s e b q. (q, q.1)) h

some-Placed :
    (due : Event → ℕ) (d : ℕ) (l : Level) (ls : List Level) (events : List Event)
    → AreLevels (l ∷ ls)
    → l.current + d < slot_num
    → Placed due (l ∷ ls)
    → Placed due ((sweep_some d l events).0 ∷ ls)
some-Placed due d l ls events a b h =
    let q : (sweep d l.current l.slots events).0 ≡ l.current + d =
      sweep-advance d l.current l.slots events b in
    (
      AllSlots-map (λ s e. Near due l (position ls) s e × (l.current + d ≤ s))
          (Near due (sweep_some d l events).0 (position ls)) (sweep d l.current l.slots events).1
          (sweep-slots d l.current l.slots events ∙ a.0.0)
          (λ s e t x. (omega (arith, q, x.0.0, x.0.1, x.1), omega (arith, q, x.1)))
          (sweep_left (Near due l (position ls)) d l.current l.slots events a.0.0 b
            (from_hand due l (position ls) a.0.0 h.0)),
      h.1,
    )

pub turn-Turned :
    (due : Event → ℕ) (ds : List ℕ) (ls : List Level) (steps : ℕ) (events : List Event)
    → AreLevels ls
    → Plans ls steps ds
    → Placed due ls
    → Turned due ds (turn ds ls events).0
unfolding turn
turn-Turned due [] [] steps events a p h = tt
turn-Turned due (d ∷ ds) [] steps events a p h = tt
turn-Turned due [] (l ∷ ls) steps events a p h =
    some-Placed due 0 l ls events a (omega (arith, a.0.1)) h
turn-Turned due (d ∷ []) (l ∷ ls) steps events a p h = some-Placed due d l ls events a p.2 h
turn-Turned due (d ∷ d' ∷ ds) (l ∷ ls) steps events a p h = (
  sweep_round (Near due l (position ls)) slot_num l.current l.slots events a.0.0 (omega arith)
      (from_hand due l (position ls) a.0.0 h.0),
  turn-Turned (upper due) (d' ∷ ds) ls _ (sweep slot_num l.current l.slots events).2 a.1 p.2
      (Strict-Placed (upper due) ls a.1 h.1),
)

pub take_hand-Strict :
    (due : Event → ℕ) (l : Level) (ls : List Level)
    → AreLevels (l ∷ ls)
    → Placed due (l ∷ ls)
    → AllSlots (Ahead due l (position ls)) (set l.slots l.current [])
take_hand-Strict due l ls a h =
    AllSlots-map (λ s e. Near due l (position ls) s e × ((s ≡ l.current) → ⊥))
      (Ahead due l (position ls)) (set l.slots l.current [])
      (length-set l.slots l.current [] ∙ a.0.0) (λ s e b q. grind (arith, q.0.0, q.0.1, q.1))
      (AllSlots-set (Near due l (position ls)) l.current l.slots h.0)

take_up-Strict :
    (due : Event → ℕ) (n m : ℕ) (l : Level) (ls : List Level)
    → n ≡ suc m
    → AreLevels (l ∷ ls)
    → AllSlots NoEvent l.slots
    → Strict (upper due) (take_slot m (hand m ls) ls).1
    → Strict due (take_slot n (hand n (l ∷ ls)) (l ∷ ls)).1
unfolding take_slot
take_up-Strict due n m l ls z a h k =
    subst (λ j. Strict due (take_slot j (hand j (l ∷ ls)) (l ∷ ls)).1) (sym z)
      (
        AllSlots-map NoEvent (Ahead due l (position (take_slot m (hand m ls) ls).1)) l.slots a.0.0
            (λ s e b x. absurd x) h,
        k,
      )

length_tail : (d : ℕ) (ds : List ℕ) → length (d ∷ ds) - 1 ≡ length ds
length_tail d ds = omega arith

-- The slot of the hand of the last level moved is taken.
pub take-Strict :
    (due : Event → ℕ) (ds : List ℕ) (ls : List Level)
    → AreLevels ls
    → Turned due ds ls
    → Strict due (take_slot (length ds - 1) (hand (length ds - 1) ls) ls).1
unfolding take_slot
take-Strict due ds [] a h = tt
take-Strict due [] (l ∷ ls) a h = (take_hand-Strict due l ls a h, h.1)
take-Strict due (d ∷ []) (l ∷ ls) a h = (take_hand-Strict due l ls a h, h.1)
take-Strict due (d ∷ d' ∷ ds) (l ∷ ls) a h =
    take_up-Strict due _ (length ds) l ls (omega arith) a h.0 (
      subst (λ j. Strict (upper due) (take_slot j (hand j ls) ls).1) (length_tail d' ds)
        (take-Strict (upper due) (d' ∷ ds) ls a.1 h.1))

-- Every event that the turning takes out is due.
pub turn-All :
    (due : Event → ℕ) (R : Event → Type 0) (ds : List ℕ) (ls : List Level) (steps : ℕ)
    (events : List Event)
    → AreLevels ls
    → Plans ls steps ds
    → Placed due ls
    → ((e : Event) → due e < position ls + steps → R e)
    → All R events
    → All R (turn ds ls events).1
unfolding turn sweep
turn-All due R [] [] steps events a p h f r = r
turn-All due R (d ∷ ds) [] steps events a p h f r = r
turn-All due R [] (l ∷ ls) steps events a p h f r = r
turn-All due R (d ∷ []) (l ∷ ls) steps events a p h f r =
    sweep_taken (Near due l (position ls)) R d l.current l.slots events a.0.0 p.2
      (λ s e q b. f e (omega (arith, q.0, q.1, b, p.0, p.1)))
      (from_hand due l (position ls) a.0.0 h.0) r
turn-All due R (d ∷ d' ∷ ds) (l ∷ ls) steps events a p h f r =
    turn-All (upper due) R (d' ∷ ds) ls ((steps + l.current) / slot_num)
      (sweep slot_num l.current l.slots events).2 a.1 p.2 (Strict-Placed (upper due) ls a.1 h.1)
      (λ e q. f e (omega (arith, q)))
      (sweep-All (λ s e. Near due l (position ls) s e × (s < slot_num)) R slot_num l.current l.slots
        events (λ s e q. f e (omega (arith, q.0.0, q.0.1, q.1, Plans-pos ls _ d' ds p.2)))
        (AllSlots-map (Near due l (position ls))
          (λ s e. Near due l (position ls) s e × (s < slot_num)) l.slots a.0.0 (λ s e b q. (q, b))
          h.0)
        r)
