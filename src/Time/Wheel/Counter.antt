-- ===== src/Time/Wheel/Counter.antt =====
-- The hands are the digits of one number in base 60, the lowest level first.
use xyco.Common.{
  zero, suc, ap, length, ◌^◌, List, set, get_or, ◌++◌, ℕ, suc, ◌+◌, ◌*◌, ◌/◌, ◌%◌, ◌<◌, ◌≡◌, refl,
  ◌∙◌, sym, Bool, true, false, Option, none, some, List, [], ◌∷◌, arith, ◌==◌, ltb, Bool-cases, inl,
  inr, dec_lt, lt→ltb, le→ltb,
}
use native.Mathlib.Nat.{pow-suc}
use xyco.Time.Wheel.{
  next, level_num, turn, sweep, Event, Level, Wheel, slot_num, another_cycle, carry, plan_cons,
  locate, insert_event, insert_located, level_steps, total_steps,
}
use xyco.Time.Wheel.Slots.{AreLevels, IsWheel}

abbrev pub position : List Level → ℕ
position [] = 0
position (l ∷ ls) = l.current + slot_num * position ls

-- One more than the largest number that the hands can show.
abbrev pub capacity : List Level → ℕ
capacity [] = 1
capacity (l ∷ ls) = slot_num * capacity ls

abbrev pub is_some {ℓ} : {A : Type ℓ} → Option A → Bool
is_some none = false
is_some (some a) = true

pub position-lt : (ls : List Level) → AreLevels ls → position ls < capacity ls
position-lt [] h = omega arith
position-lt (l ∷ ls) h = omega (arith, position-lt ls h.1, h.0.1)

-- A step that passes the end of a level is a carry.
pub carried :
    (l : Level) (t : ℕ)
    → l.current < slot_num
    → t / slot_num + carry (another_cycle l (t % slot_num)) ≡ (t + l.current) / slot_num
carried l t h = ground arith

ltb-eq : (a b c d : ℕ) → (a < b → c < d) → (c < d → a < b) → ltb a b ≡ ltb c d
ltb-eq a b c d f g = elim (dec_lt a b) [
  | yes h ↦ lt→ltb a b h ∙ sym (lt→ltb c d (f h))
  | no h ↦ le→ltb a b (omega arith) ∙ sym (le→ltb c d (ground (arith, g)))
]

fits : (t p k c : ℕ) → ltb ((t + c) / slot_num + p) k ≡ ltb (t + (c + slot_num * p)) (slot_num * k)
fits t p k c = ltb-eq _ _ _ _ (λ h. omega arith) (λ h. omega arith)

locate-fits :
    (ls : List Level) (t level steps : ℕ)
    → AreLevels ls
    → is_some (locate ls t level steps) ≡ ltb (t + position ls) (capacity ls)
unfolding locate
locate-fits [] t level steps h = ground arith
locate-fits (l ∷ ls) t level steps h = elim (Bool-cases (t == 0)) [
  | inl z ↦
      rw (z, locate)
        (sym (lt→ltb (t + position (l ∷ ls)) _ (ground (arith, position-lt (l ∷ ls) h))))
  | inr z ↦
      rw (z, locate)
        (locate-fits ls _ (suc level) (t % slot_num) h.1
          ∙ rw (carried l t h.0.1) (fits t (position ls) (capacity ls) l.current))
]

plan_cons-is_some : (d : ℕ) (o : Option (List ℕ)) → is_some (plan_cons d o) ≡ is_some o
plan_cons-is_some d none = refl
plan_cons-is_some d (some ds) = refl

pub level_steps-fits :
    (ls : List Level) (steps : ℕ)
    → AreLevels ls
    → is_some (level_steps ls steps) ≡ ltb (steps + position ls) (capacity ls)
unfolding level_steps
level_steps-fits [] steps h = ground arith
level_steps-fits (l ∷ ls) steps h = elim (Bool-cases (steps == 0)) [
  | inl z ↦
      rw (z, level_steps)
        (sym (lt→ltb (steps + position (l ∷ ls)) _ (ground (arith, position-lt (l ∷ ls) h))))
  | inr z ↦
      rw (z, level_steps)
        (plan_cons-is_some (steps % slot_num) _
          ∙ level_steps-fits ls _ h.1
          ∙ rw (carried l steps h.0.1) (fits steps (position ls) (capacity ls) l.current))
]

insert_located-is_some :
    (e : Event) (w : Wheel) (o : Option (ℕ × ℕ)) → is_some (insert_located e w o) ≡ is_some o
insert_located-is_some e w none = refl
insert_located-is_some e w (some (level, steps)) = refl

capacity-pow : (ls : List Level) → capacity ls ≡ slot_num ^ length ls
capacity-pow [] = refl
capacity-pow (l ∷ ls) =
    ap (λ k. slot_num * k) (capacity-pow ls) ∙ omega (arith, pow-suc slot_num (length ls))

pub capacity-IsWheel : (w : Wheel) → IsWheel w → capacity w.levels ≡ slot_num ^ level_num
capacity-IsWheel w h = capacity-pow w.levels ∙ ap (λ k. slot_num ^ k) h.0

-- `insert_event` succeeds exactly when the milliseconds left until the event expires, added to the
-- number that the hands show, stay below 60 to the power 5; otherwise it throws.
pub insert_event-fits :
    (ticks : ℕ) (e : Event) (w : Wheel)
    → IsWheel w
    → is_some (insert_event ticks e w)
      ≡ ltb (total_steps ticks e w.now + position w.levels) (slot_num ^ level_num)
unfolding insert_event
insert_event-fits ticks e w h =
    insert_located-is_some e w _
    ∙ locate-fits w.levels (total_steps ticks e w.now) 0 0 h.1
    ∙ ap (ltb (total_steps ticks e w.now + position w.levels)) (capacity-IsWheel w h)

-- The number shown moves by the steps of a walk.
pub sweep-advance :
    (n i : ℕ) (ss : List (List Event)) (events : List Event)
    → i + n < slot_num
    → (sweep n i ss events).0 ≡ i + n
unfolding sweep
sweep-advance zero i ss events h = omega arith
sweep-advance (suc n) i ss events h =
    let e : next i ≡ i + 1 = ground arith in
    omega (arith, sweep-advance n (next i) (set ss i []) (events ++ get_or ss i []) (omega arith))

plan_cons-ne-nil : (d : ℕ) (o : Option (List ℕ)) → plan_cons d o ≡ some [] → ⊥
plan_cons-ne-nil d none e = cc
plan_cons-ne-nil d (some ds) e = cc

pub level_steps-nil : (ls : List Level) (steps : ℕ) → level_steps ls steps ≡ some [] → steps ≡ 0
unfolding level_steps
level_steps-nil [] steps e = ground arith
level_steps-nil (l ∷ ls) steps e = ground (
  arith,
  plan_cons-ne-nil (steps % slot_num)
      (level_steps ls (steps / slot_num + carry (another_cycle l (steps % slot_num)))),
)

-- Turning the hands by a plan adds the steps to the number that they show.
abbrev pub PlanAdds : List Level → ℕ → Option (List ℕ) → Type 0
PlanAdds ls steps none = Unit
PlanAdds ls steps (some ds) =
    (events : List Event) → position (turn ds ls events).0 ≡ position ls + steps

plan_cons-PlanAdds :
    (l : Level) (ls : List Level) (steps rest : ℕ) (o : Option (List ℕ))
    → l.current < slot_num
    → rest ≡ (steps + l.current) / slot_num
    → (o ≡ some [] → rest ≡ 0)
    → PlanAdds ls rest o
    → PlanAdds (l ∷ ls) steps (plan_cons (steps % slot_num) o)
unfolding turn
plan_cons-PlanAdds l ls steps rest none h e n p = tt
plan_cons-PlanAdds l ls steps rest (some []) h e n p = λ events. omega (
  arith,
  n refl,
  sweep-advance (steps % slot_num) l.current l.slots events (omega (arith, n refl)),
)
plan_cons-PlanAdds l ls steps rest (some (d ∷ ds)) h e n p =
    λ events. ground (arith, p (sweep slot_num l.current l.slots events).2)

turn-nil : (ls : List Level) (events : List Event) → position (turn [] ls events).0 ≡ position ls
unfolding turn sweep
turn-nil [] events = refl
turn-nil (l ∷ ls) events = refl

pub level_steps-PlanAdds :
    (ls : List Level) (steps : ℕ) → AreLevels ls → PlanAdds ls steps (level_steps ls steps)
unfolding level_steps
level_steps-PlanAdds [] steps h = elim (Bool-cases (steps == 0)) [
  | inl z ↦ rw (z, level_steps) (λ events. ground (arith, turn-nil [] events))
  | inr z ↦ rw (z, level_steps) tt
]
level_steps-PlanAdds (l ∷ ls) steps h = elim (Bool-cases (steps == 0)) [
  | inl z ↦ rw (z, level_steps) (λ events. ground (arith, turn-nil (l ∷ ls) events))
  | inr z ↦
      rw (z, level_steps)
        (plan_cons-PlanAdds l ls steps _ _ h.0.1 (carried l steps h.0.1) (level_steps-nil ls _)
          (level_steps-PlanAdds ls _ h.1))
]
