-- ===== src/Time/Wheel/Swept.antt =====
-- What a sweep takes out of the slots, and what it leaves in them.
use xyco.Common.{
  ◌∙◌, ℕ, zero, suc, ◌+◌, ◌<◌, ◌≤◌, ◌≡◌, List, [], ◌++◌, length, get_or, set, ◌==◌, Bool-cases, inl,
  inr, arith, length-set,
}
use xyco.Time.Wheel.Slots.{sweep-slots}
use xyco.Time.Wheel.{slot_num, Event, next, sweep}
use xyco.Time.Wheel.Spread.{
  All, All-append, All-map, AllSlots, AllSlots-map, AllSlots-set, AllSlots-get_or,
}

-- The events taken by a sweep, and those left.
pub sweep-All :
    (P : ℕ → Event → Type 0) (R : Event → Type 0) (n i : ℕ) (ss : List (List Event))
    (events : List Event)
    → ((s : ℕ) (e : Event) → P s e → R e)
    → AllSlots P ss
    → All R events
    → All R (sweep n i ss events).2
unfolding sweep
sweep-All P R zero i ss events f h r = r
sweep-All P R (suc n) i ss events f h r =
    sweep-All (λ s e. P s e × ((s ≡ i) → ⊥)) R n (next i) (set ss i []) (events ++ get_or ss i [])
      (λ s e p. f s e p.0) (AllSlots-set P i ss h)
      (All-append R events (get_or ss i []) r
        (All-map (P i) R (get_or ss i []) (f i) (AllSlots-get_or P i ss h)))

pub sweep-AllSlots :
    (P : ℕ → Event → Type 0) (n i : ℕ) (ss : List (List Event)) (events : List Event)
    → length ss ≡ slot_num
    → AllSlots P ss
    → AllSlots P (sweep n i ss events).1
unfolding sweep
sweep-AllSlots P zero i ss events l h = h
sweep-AllSlots P (suc n) i ss events l h =
    sweep-AllSlots P n (next i) (set ss i []) (events ++ get_or ss i []) (length-set ss i [] ∙ l) (
      AllSlots-map (λ s e. P s e × ((s ≡ i) → ⊥)) P (set ss i []) (length-set ss i [] ∙ l)
        (λ s e a p. p.0) (AllSlots-set P i ss h))

-- Where all events are from the slot `i` on, `n` slots are swept that reach the end at most.
pub sweep_left :
    (P : ℕ → Event → Type 0) (n i : ℕ) (ss : List (List Event)) (events : List Event)
    → length ss ≡ slot_num
    → i + n < slot_num
    → AllSlots (λ s e. P s e × (i ≤ s)) ss
    → AllSlots (λ s e. P s e × (i + n ≤ s)) (sweep n i ss events).1
unfolding sweep
sweep_left P zero i ss events l b h =
    AllSlots-map (λ s e. P s e × (i ≤ s)) (λ s e. P s e × (i + 0 ≤ s)) ss l
      (λ s e a p. (p.0, omega (arith, p.1))) h
sweep_left P (suc n) i ss events l b h =
    let q : next i ≡ suc i = ground arith in
    AllSlots-map (λ s e. P s e × (next i + n ≤ s)) (λ s e. P s e × (i + suc n ≤ s))
      (sweep n (next i) (set ss i []) (events ++ get_or ss i [])).1
      (sweep-slots n (next i) (set ss i []) (events ++ get_or ss i []) ∙ length-set ss i [] ∙ l)
      (λ s e a p. (p.0, omega (arith, p.1, q)))
      (sweep_left P n (next i) (set ss i []) (events ++ get_or ss i []) (length-set ss i [] ∙ l)
        (omega (arith, q))
        (AllSlots-map (λ s e. (P s e × (i ≤ s)) × ((s ≡ i) → ⊥)) (λ s e. P s e × (next i ≤ s))
          (set ss i []) (length-set ss i [] ∙ l) (λ s e a p. (p.0.0, grind (arith, p.0.1, p.1, q)))
          (AllSlots-set (λ s e. P s e × (i ≤ s)) i ss h)))

pub sweep_taken :
    (P : ℕ → Event → Type 0) (R : Event → Type 0) (n i : ℕ) (ss : List (List Event))
    (events : List Event)
    → length ss ≡ slot_num
    → i + n < slot_num
    → ((s : ℕ) (e : Event) → P s e → s < i + n → R e)
    → AllSlots (λ s e. P s e × (i ≤ s)) ss
    → All R events
    → All R (sweep n i ss events).2
unfolding sweep
sweep_taken P R zero i ss events l b f h r = r
sweep_taken P R (suc n) i ss events l b f h r =
    let q : next i ≡ suc i = ground arith in
    sweep_taken P R n (next i) (set ss i []) (events ++ get_or ss i []) (length-set ss i [] ∙ l)
      (omega (arith, q)) (λ s e p c. f s e p (omega (arith, c, q)))
      (AllSlots-map (λ s e. (P s e × (i ≤ s)) × ((s ≡ i) → ⊥)) (λ s e. P s e × (next i ≤ s))
        (set ss i []) (length-set ss i [] ∙ l) (λ s e a p. (p.0.0, grind (arith, p.0.1, p.1, q)))
        (AllSlots-set (λ s e. P s e × (i ≤ s)) i ss h))
      (All-append R events (get_or ss i []) r (
        All-map (λ e. P i e × (i ≤ i)) R (get_or ss i []) (λ e p. f i e p.0 (omega arith))
          (AllSlots-get_or (λ s e. P s e × (i ≤ s)) i ss h)))

-- A sweep that reaches the end leaves no event in a slot.
abbrev pub NoEvent : ℕ → Event → Type 0
NoEvent s e = ⊥

pub sweep_round :
    (P : ℕ → Event → Type 0) (n i : ℕ) (ss : List (List Event)) (events : List Event)
    → length ss ≡ slot_num
    → slot_num ≤ i + n
    → AllSlots (λ s e. P s e × (i ≤ s)) ss
    → AllSlots NoEvent (sweep n i ss events).1
unfolding sweep
sweep_round P zero i ss events l b h =
    AllSlots-map (λ s e. P s e × (i ≤ s)) NoEvent ss l
      (λ s e a p. absurd (omega (arith, a, b, p.1))) h
sweep_round P (suc n) i ss events l b h = elim (Bool-cases (i + 1 == slot_num)) [
  | inl z ↦
      sweep-AllSlots NoEvent n (next i) (set ss i []) (events ++ get_or ss i [])
        (length-set ss i [] ∙ l)
        (AllSlots-map (λ s e. (P s e × (i ≤ s)) × ((s ≡ i) → ⊥)) NoEvent (set ss i [])
          (length-set ss i [] ∙ l) (λ s e a p. absurd (p.1 (ground (arith, p.0.1, z))))
          (AllSlots-set (λ s e. P s e × (i ≤ s)) i ss h))
  | inr z ↦
      let q : next i ≡ suc i = rw z (omega arith) in
      sweep_round P n (next i) (set ss i []) (events ++ get_or ss i []) (length-set ss i [] ∙ l)
        (omega (arith, q))
        (AllSlots-map (λ s e. (P s e × (i ≤ s)) × ((s ≡ i) → ⊥)) (λ s e. P s e × (next i ≤ s))
          (set ss i []) (length-set ss i [] ∙ l) (λ s e a p. (p.0.0, grind (arith, p.0.1, p.1, q)))
          (AllSlots-set (λ s e. P s e × (i ≤ s)) i ss h))
]
