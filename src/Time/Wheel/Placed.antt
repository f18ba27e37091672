-- ===== src/Time/Wheel/Placed.antt =====
-- Where the events stand that the wheel holds. `due` is when an event expires, in the number that the
-- hands show; on a level it is the part of that number which the level's hand and those above show.
use xyco.Common.{
  sym, subst, refl, ℕ, suc, ◌+◌, ◌-◌, ◌*◌, ◌/◌, ◌%◌, ◌<◌, ◌≤◌, ◌≡◌, Option, none, some, List, [],
  ◌∷◌, ◌==◌, Bool-cases, inl, inr, arith,
}
use xyco.Time.Wheel.{slot_num, Event, Level, locate, advance, push_slot, push_level}
use xyco.Time.Wheel.Spread.{AllSlots, AllSlots-map, AllFrom-push_slot}
use xyco.Time.Wheel.Counter.{position, carried}
use xyco.Time.Wheel.Hands.{position-push_level}
use xyco.Time.Wheel.Slots.{AreLevels}

-- Ahead of the hand, in the slot of its time; the hands above show `above`.
abbrev pub Ahead : (Event → ℕ) → Level → ℕ → ℕ → Event → Type 0
Ahead due l above s e = (due e ≡ s + slot_num * above) × (l.current < s)

-- Ahead of the hand, or in its slot and then due.
abbrev pub Near : (Event → ℕ) → Level → ℕ → ℕ → Event → Type 0
Near due l above s e = (due e - (l.current + slot_num * above) ≡ s - l.current) × (l.current ≤ s)

abbrev pub upper : (Event → ℕ) → Event → ℕ
upper due e = due e / slot_num

abbrev pub Strict : (Event → ℕ) → List Level → Type 0
Strict due [] = Unit
Strict due (l ∷ ls) = AllSlots (Ahead due l (position ls)) l.slots × Strict (upper due) ls

abbrev pub Placed : (Event → ℕ) → List Level → Type 0
Placed due [] = Unit
Placed due (l ∷ ls) = AllSlots (Near due l (position ls)) l.slots × Strict (upper due) ls

pub Strict-Placed :
    (due : Event → ℕ) (ls : List Level) → AreLevels ls → Strict due ls → Placed due ls
Strict-Placed due [] a h = tt
Strict-Placed due (l ∷ ls) a h = (
  AllSlots-map (Ahead due l (position ls)) (Near due l (position ls)) l.slots a.0.0
      (λ s e b p. (omega (arith, p.0, p.1), omega (arith, p.1))) h.0,
  h.1,
)

-- What `locate` found, from a level on, is a place ahead of a hand.
abbrev Lands : (Event → ℕ) → ℕ → Event → List Level → Option (ℕ × ℕ) → Type 0
Lands due level e ls none = Unit
Lands due level e ls (some (found, steps)) =
    (suc level ≤ found) × Strict due (push_level (found - suc level) steps e ls)

push-Ahead :
    (due : Event → ℕ) (e : Event) (l : Level) (above total : ℕ)
    → l.current < slot_num
    → due e ≡ total + (l.current + slot_num * above)
    → 0 < total
    → (total + l.current) / slot_num ≡ 0
    → AllSlots (Ahead due l above) l.slots
    → AllSlots (Ahead due l above) (push_slot (advance l (total % slot_num)) e l.slots)
push-Ahead due e l above total c d t z h =
    AllFrom-push_slot (Ahead due l above) 0 (advance l (total % slot_num)) e l.slots
      (ground arith, ground arith) h

push-Near :
    (due : Event → ℕ) (e : Event) (l : Level) (above total : ℕ)
    → l.current < slot_num
    → due e - (l.current + slot_num * above) ≡ total
    → (total + l.current) / slot_num ≡ 0
    → AllSlots (Near due l above) l.slots
    → AllSlots (Near due l above) (push_slot (advance l (total % slot_num)) e l.slots)
push-Near due e l above total c d z h =
    AllFrom-push_slot (Near due l above) 0 (advance l (total % slot_num)) e l.slots
      (ground arith, ground arith) h

Lands-up :
    (due : Event → ℕ) (level : ℕ) (e : Event) (l : Level) (ls : List Level) (o : Option (ℕ × ℕ))
    → AllSlots (Ahead due l (position ls)) l.slots
    → Lands (upper due) (suc level) e ls o
    → Lands due level e (l ∷ ls) o
unfolding push_level
Lands-up due level e l ls none h p = tt
Lands-up due level e l ls (some (found, steps)) h p =
    let q : suc (found - suc (suc level)) ≡ found - suc level = omega (arith, p.0) in
    (
      omega (arith, p.0),
      subst (λ n. Strict due (push_level n steps e (l ∷ ls))) q
          (
            subst (λ n. AllSlots (Ahead due l n) l.slots)
                (sym (position-push_level (found - suc (suc level)) steps e ls)) h,
            p.1,
          ),
    )

-- The event goes to the lowest of the levels.
Strict-here :
    (due : Event → ℕ) (n steps : ℕ) (e : Event) (l : Level) (ls : List Level)
    → n ≡ 0
    → AllSlots (Ahead due l (position ls)) (push_slot (advance l steps) e l.slots)
    → Strict (upper due) ls
    → Strict due (push_level n steps e (l ∷ ls))
unfolding push_level
Strict-here due n steps e l ls z h k =
    subst (λ m. Strict due (push_level m steps e (l ∷ ls))) (sym z) (h, k)

locate_zero :
    (ls : List Level) (total level steps : ℕ)
    → total ≡ 0
    → locate ls total level steps ≡ some (level, steps)
unfolding locate
locate_zero [] total level steps z = rw z refl
locate_zero (l ∷ ls) total level steps z = rw z refl

locate-Lands :
    (due : Event → ℕ) (e : Event) (ls : List Level) (total level steps : ℕ)
    → AreLevels ls
    → due e ≡ total + position ls
    → 0 < total
    → Strict due ls
    → Lands due level e ls (locate ls total level steps)
unfolding locate
locate-Lands due e [] total level steps a d t h = elim (Bool-cases (total == 0)) [
  | inl z ↦ absurd (ground (arith, z, t))
  | inr z ↦ rw (z, locate) tt
]
locate-Lands due e (l ∷ ls) total level steps a d t h = elim (Bool-cases (total == 0)) [
  | inl z ↦ absurd (ground (arith, z, t))
  | inr z ↦
      rw (z, locate, carried l total a.0.1)
        (elim (Bool-cases ((total + l.current) / slot_num == 0)) [
          | inl y ↦
              rw
                (locate_zero ls ((total + l.current) / slot_num) (suc level) (total % slot_num)
                  (ground (arith, y)))
                (
                  omega arith,
                  Strict-here due (suc level - suc level) (total % slot_num) e l ls (omega arith)
                      (push-Ahead due e l (position ls) total a.0.1 d t (ground (arith, y)) h.0)
                      h.1,
                )
          | inr y ↦ Lands-up due level e l ls _ h.0 (
              locate-Lands (upper due) e ls ((total + l.current) / slot_num) (suc level)
                (total % slot_num) a.1 (omega (arith, d)) (ground (arith, y)) h.1)
        ])
]

-- The wheel's levels after `insert_event`, where it does not throw.
abbrev pub Placing : (Event → ℕ) → Event → List Level → Option (ℕ × ℕ) → Type 0
Placing due e ls none = Unit
Placing due e ls (some (found, steps)) = Placed due (push_level (found - 1) steps e ls)

Lands-Placing :
    (due : Event → ℕ) (e : Event) (l : Level) (ls : List Level) (o : Option (ℕ × ℕ))
    → AllSlots (Near due l (position ls)) l.slots
    → Lands (upper due) 1 e ls o
    → Placing due e (l ∷ ls) o
unfolding push_level
Lands-Placing due e l ls none h p = tt
Lands-Placing due e l ls (some (found, steps)) h p =
    let q : suc (found - 2) ≡ found - 1 = omega (arith, p.0) in
    subst (λ n. Placed due (push_level n steps e (l ∷ ls))) q
      (
        subst (λ n. AllSlots (Near due l n) l.slots)
            (sym (position-push_level (found - 2) steps e ls)) h,
        p.1,
      )

pub locate-Placing :
    (due : Event → ℕ) (e : Event) (ls : List Level) (total : ℕ)
    → AreLevels ls
    → due e - position ls ≡ total
    → Placed due ls
    → Placing due e ls (locate ls total 0 0)
unfolding locate push_level
locate-Placing due e [] total a d h = elim (Bool-cases (total == 0)) [
  | inl z ↦ rw (z, locate) tt
  | inr z ↦ rw (z, locate) tt
]
locate-Placing due e (l ∷ ls) total a d h = elim (Bool-cases (total == 0)) [
  | inl z ↦
      rw (z, locate)
        (
          push-Near due e l (position ls) 0 a.0.1 (ground (arith, d, z)) (ground (arith, a.0.1))
              h.0,
          h.1,
        )
  | inr z ↦
      rw (z, locate, carried l total a.0.1)
        (elim (Bool-cases ((total + l.current) / slot_num == 0)) [
          | inl y ↦
              rw
                (locate_zero ls ((total + l.current) / slot_num) 1 (total % slot_num)
                  (ground (arith, y)))
                (push-Near due e l (position ls) total a.0.1 d (ground (arith, y)) h.0, h.1)
          | inr y ↦ Lands-Placing due e l ls _ h.0 (
              locate-Lands (upper due) e ls ((total + l.current) / slot_num) 1 (total % slot_num)
                a.1 (ground (arith, d, z)) (ground (arith, y)) h.1)
        ])
]
