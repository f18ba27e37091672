-- ===== src/Time/Wheel/Slots.antt =====
-- Every level keeps its 60 slots and a hand among them.
use xyco.Common.{
  Bool-cases, ◌∙◌, inl, inr, ℕ, zero, suc, ◌%◌, ◌<◌, ◌≡◌, refl, ap, Option, none, some, List, [],
  ◌∷◌, ◌++◌, length, set, get_or, arith, length-set, ◌==◌,
}
use xyco.Time.Wheel.{
  plan_cons, Event, Level, Wheel, slot_num, level_num, new, advance, push_slot, push_level, next,
  sweep, level_steps, turn, take_slot,
}

abbrev pub IsLevel : Level → Type 0
IsLevel l = (length l.slots ≡ slot_num) × (l.current < slot_num)

abbrev pub AreLevels : List Level → Type 0
AreLevels [] = Unit
AreLevels (l ∷ ls) = IsLevel l × AreLevels ls

abbrev pub IsWheel : Wheel → Type 0
IsWheel w = (length w.levels ≡ level_num) × AreLevels w.levels

pub new-IsWheel : (now : ℕ) → IsWheel (new now)
unfolding new
new-IsWheel now = omega arith

pub length-push_slot :
    (i : ℕ) (e : Event) (ss : List (List Event)) → length (push_slot i e ss) ≡ length ss
unfolding push_slot
length-push_slot i e [] = refl
length-push_slot zero e (s ∷ ss) = refl
length-push_slot (suc i) e (s ∷ ss) = ap suc (length-push_slot i e ss)

pub sweep-slots :
    (n i : ℕ) (ss : List (List Event)) (events : List Event)
    → length (sweep n i ss events).1 ≡ length ss
unfolding sweep
sweep-slots zero i ss events = refl
sweep-slots (suc n) i ss events =
    omega
      (arith, sweep-slots n (next i) (set ss i []) (events ++ get_or ss i []), length-set ss i [])

pub sweep-hand :
    (n i : ℕ) (ss : List (List Event)) (events : List Event)
    → i < slot_num
    → (sweep n i ss events).0 < slot_num
unfolding sweep
sweep-hand zero i ss events h = h
sweep-hand (suc n) i ss events h =
    sweep-hand n (next i) (set ss i []) (events ++ get_or ss i []) (ground arith)

pub advance-lt : (l : Level) (steps : ℕ) → IsLevel l → steps < slot_num → advance l steps < slot_num
advance-lt l steps h s = ground arith

pub push_level-AreLevels :
    (level steps : ℕ) (e : Event) (ls : List Level)
    → AreLevels ls
    → AreLevels (push_level level steps e ls)
unfolding push_level
push_level-AreLevels level steps e [] h = tt
push_level-AreLevels zero steps e (l ∷ ls) h =
    ground (arith, length-push_slot (advance l steps) e l.slots)
push_level-AreLevels (suc level) steps e (l ∷ ls) h =
    (h.0, push_level-AreLevels level steps e ls h.1)

pub length-push_level :
    (level steps : ℕ) (e : Event) (ls : List Level)
    → length (push_level level steps e ls) ≡ length ls
unfolding push_level
length-push_level level steps e [] = refl
length-push_level zero steps e (l ∷ ls) = refl
length-push_level (suc level) steps e (l ∷ ls) = ap suc (length-push_level level steps e ls)

-- The digits of a plan.
abbrev pub AreSteps : List ℕ → Type 0
AreSteps [] = Unit
AreSteps (d ∷ ds) = (d < slot_num) × AreSteps ds

abbrev pub IsPlan : Option (List ℕ) → Type 0
IsPlan none = Unit
IsPlan (some ds) = AreSteps ds

plan_cons-IsPlan : (d : ℕ) (o : Option (List ℕ)) → d < slot_num → IsPlan o → IsPlan (plan_cons d o)
plan_cons-IsPlan d none h p = tt
plan_cons-IsPlan d (some ds) h p = (h, p)

pub level_steps-IsPlan : (ls : List Level) (steps : ℕ) → IsPlan (level_steps ls steps)
unfolding level_steps
level_steps-IsPlan [] steps = elim (Bool-cases (steps == 0)) [
  | inl e ↦ rw (e, level_steps) tt
  | inr e ↦ rw (e, level_steps) tt
]
level_steps-IsPlan (l ∷ ls) steps = elim (Bool-cases (steps == 0)) [
  | inl e ↦ rw (e, level_steps) tt
  | inr e ↦
      rw (e, level_steps)
        (plan_cons-IsPlan (steps % slot_num) _ (omega arith) (level_steps-IsPlan ls _))
]

pub turn-AreLevels :
    (ds : List ℕ) (ls : List Level) (events : List Event)
    → AreSteps ds
    → AreLevels ls
    → AreLevels (turn ds ls events).0
unfolding turn
turn-AreLevels [] [] events d h = tt
turn-AreLevels (x ∷ xs) [] events d h = tt
turn-AreLevels [] (l ∷ ls) events d h = (
  (sweep-slots 0 l.current l.slots events ∙ h.0.0, sweep-hand 0 l.current l.slots events h.0.1),
  h.1,
)
turn-AreLevels (d ∷ []) (l ∷ ls) events ad h = (
  (sweep-slots d l.current l.slots events ∙ h.0.0, sweep-hand d l.current l.slots events h.0.1),
  h.1,
)
turn-AreLevels (d ∷ d' ∷ ds) (l ∷ ls) events ad h = (
  (sweep-slots slot_num l.current l.slots events ∙ h.0.0, advance-lt l d h.0 ad.0),
  turn-AreLevels (d' ∷ ds) ls (sweep slot_num l.current l.slots events).2 ad.1 h.1,
)

pub length-turn :
    (ds : List ℕ) (ls : List Level) (events : List Event) → length (turn ds ls events).0 ≡ length ls
unfolding turn
length-turn [] [] events = refl
length-turn (x ∷ xs) [] events = refl
length-turn [] (l ∷ ls) events = refl
length-turn (d ∷ []) (l ∷ ls) events = refl
length-turn (d ∷ d' ∷ ds) (l ∷ ls) events =
    ap suc (length-turn (d' ∷ ds) ls (sweep slot_num l.current l.slots events).2)

pub take_slot-AreLevels :
    (level i : ℕ) (ls : List Level) → AreLevels ls → AreLevels (take_slot level i ls).1
unfolding take_slot
take_slot-AreLevels level i [] h = tt
take_slot-AreLevels zero i (l ∷ ls) h = ((length-set l.slots i [] ∙ h.0.0, h.0.1), h.1)
take_slot-AreLevels (suc level) i (l ∷ ls) h = (h.0, take_slot-AreLevels level i ls h.1)

pub length-take_slot : (level i : ℕ) (ls : List Level) → length (take_slot level i ls).1 ≡ length ls
unfolding take_slot
length-take_slot level i [] = refl
length-take_slot zero i (l ∷ ls) = refl
length-take_slot (suc level) i (l ∷ ls) = ap suc (length-take_slot level i ls)
