-- ===== src/Time/Wheel/Weights.antt =====
-- No event is lost, duplicated or made up. `f` weighs events: the weight that is 1 at some events and
-- 0 at all others counts them, and equal totals for every weight are equal multisets.
use xyco.Common.{
  ℕ, zero, suc, ◌+◌, ◌-◌, ◌%◌, ◌≤◌, ◌<◌, ◌≡◌, refl, ◌∙◌, Option, none, some, List, [], ◌∷◌, ◌++◌,
  length, set, get_or, arith, ◌==◌, Bool-cases, inl, inr,
}
use xyco.Time.Wheel.{
  Event, Level, Wheel, slot_num, level_num, locate, advance, push_slot, push_level, insert_event,
  insert_located, next, sweep, turn, take_slot, total_steps,
}
use xyco.Time.Wheel.Slots.{AreLevels, IsWheel, advance-lt, push_level-AreLevels, length-push_level}

-- Where `locate` may put an event: at most one level past those given, and within a round.
abbrev pub IsSpot : ℕ → Option (ℕ × ℕ) → Type 0
IsSpot n none = Unit
IsSpot n (some (level, steps)) = (level ≤ n) × (steps < slot_num)

locate-IsSpot :
    (ls : List Level) (total level steps n : ℕ)
    → steps < slot_num
    → level + length ls ≡ n
    → IsSpot n (locate ls total level steps)
unfolding locate
locate-IsSpot [] total level steps n h e = ground arith
locate-IsSpot (l ∷ ls) total level steps n h e = elim (Bool-cases (total == 0)) [
  | inl z ↦ rw (z, locate) (omega arith, h)
  | inr z ↦
      rw (z, locate)
        (locate-IsSpot ls _ (suc level) (total % slot_num) n (omega arith) (omega arith))
]

module _ (f : Event → ℕ) where
  abbrev pub weight : List Event → ℕ
  weight [] = 0
  weight (e ∷ es) = f e + weight es

  abbrev pub slots_weight : List (List Event) → ℕ
  slots_weight [] = 0
  slots_weight (s ∷ ss) = weight s + slots_weight ss

  -- All events of the wheel.
  abbrev pub levels_weight : List Level → ℕ
  levels_weight [] = 0
  levels_weight (l ∷ ls) = slots_weight l.slots + levels_weight ls

  pub weight-append : (xs ys : List Event) → weight (xs ++ ys) ≡ weight xs + weight ys
  weight-append [] ys = omega arith
  weight-append (x ∷ xs) ys = omega (arith, weight-append xs ys)

  slots_weight-push :
      (i : ℕ) (e : Event) (ss : List (List Event))
      → i < length ss
      → slots_weight (push_slot i e ss) ≡ slots_weight ss + f e
  unfolding push_slot
  slots_weight-push i e [] h = absurd (omega arith)
  slots_weight-push zero e (s ∷ ss) h = omega (arith, weight-append s (e ∷ []))
  slots_weight-push (suc i) e (s ∷ ss) h = omega (arith, slots_weight-push i e ss (omega arith))

  slots_weight-set :
      (i : ℕ) (ss : List (List Event))
      → slots_weight (set ss i []) + weight (get_or ss i []) ≡ slots_weight ss
  slots_weight-set i [] = omega arith
  slots_weight-set zero (s ∷ ss) = omega arith
  slots_weight-set (suc i) (s ∷ ss) = omega (arith, slots_weight-set i ss)

  sweep-weight :
      (n i : ℕ) (ss : List (List Event)) (events : List Event)
      → slots_weight (sweep n i ss events).1 + weight (sweep n i ss events).2
        ≡ slots_weight ss + weight events
  unfolding sweep
  sweep-weight zero i ss events = refl
  sweep-weight (suc n) i ss events = omega (
    arith,
    sweep-weight n (next i) (set ss i []) (events ++ get_or ss i []),
    weight-append events (get_or ss i []),
    slots_weight-set i ss,
  )

  push_level-weight :
      (level steps : ℕ) (e : Event) (ls : List Level)
      → AreLevels ls
      → level < length ls
      → steps < slot_num
      → levels_weight (push_level level steps e ls) ≡ levels_weight ls + f e
  unfolding push_level
  push_level-weight level steps e [] h a s = absurd (omega arith)
  push_level-weight zero steps e (l ∷ ls) h a s =
      let bound : advance l steps < length l.slots =
        omega (arith, advance-lt l steps h.0 s, h.0.0) in
      omega (arith, slots_weight-push (advance l steps) e l.slots bound)
  push_level-weight (suc level) steps e (l ∷ ls) h a s =
      omega (arith, push_level-weight level steps e ls h.1 (omega arith) s)

  pub turn-weight :
      (ds : List ℕ) (ls : List Level) (events : List Event)
      → levels_weight (turn ds ls events).0 + weight (turn ds ls events).1
        ≡ levels_weight ls + weight events
  unfolding turn
  turn-weight [] [] events = refl
  turn-weight (x ∷ xs) [] events = refl
  turn-weight [] (l ∷ ls) events = omega (arith, sweep-weight 0 l.current l.slots events)
  turn-weight (d ∷ []) (l ∷ ls) events = omega (arith, sweep-weight d l.current l.slots events)
  turn-weight (d ∷ d' ∷ ds) (l ∷ ls) events = omega (
    arith,
    sweep-weight slot_num l.current l.slots events,
    turn-weight (d' ∷ ds) ls (sweep slot_num l.current l.slots events).2,
  )

  pub take_slot-weight :
      (level i : ℕ) (ls : List Level)
      → levels_weight (take_slot level i ls).1 + weight (take_slot level i ls).0 ≡ levels_weight ls
  unfolding take_slot
  take_slot-weight level i [] = refl
  take_slot-weight zero i (l ∷ ls) = omega (arith, slots_weight-set i l.slots)
  take_slot-weight (suc level) i (l ∷ ls) = omega (arith, take_slot-weight level i ls)

  -- The wheel that results, if one does, is well formed and weighs `total`.
  abbrev pub Yields : ℕ → Option Wheel → Type 0
  Yields total none = Unit
  Yields total (some w) = IsWheel w × (levels_weight w.levels ≡ total)

  insert_located-Yields :
      (e : Event) (w : Wheel) (o : Option (ℕ × ℕ))
      → IsWheel w
      → IsSpot level_num o
      → Yields (levels_weight w.levels + f e) (insert_located e w o)
  insert_located-Yields e w none h s = tt
  insert_located-Yields e w (some (level, steps)) h s = (
    (
      length-push_level (level - 1) steps e w.levels ∙ h.0,
      push_level-AreLevels (level - 1) steps e w.levels h.1,
    ),
    push_level-weight (level - 1) steps e w.levels h.1 (omega (arith, s.0, h.0)) s.1,
  )

  pub insert_event-Yields :
      (ticks : ℕ) (e : Event) (w : Wheel)
      → IsWheel w
      → Yields (levels_weight w.levels + f e) (insert_event ticks e w)
  unfolding insert_event
  insert_event-Yields ticks e w h = insert_located-Yields e w _ h (
      locate-IsSpot w.levels (total_steps ticks e w.now) 0 0 level_num (omega arith)
        (omega (arith, h.0)))
