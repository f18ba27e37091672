-- ===== src/Time/Wheel/Spread.antt =====
-- What holds of every event by the slot it is in.
use xyco.Common.{
  replicate, subst, ℕ, zero, suc, ◌+◌, ◌<◌, ◌≤◌, ◌≡◌, List, [], ◌∷◌, ◌++◌, set, get_or, length,
  arith,
}
use xyco.Time.Wheel.{Event, slot_num, push_slot}

abbrev pub All {ℓ} : (Event → Type ℓ) → List Event → Type ℓ
All P [] = Unit
All P (e ∷ es) = P e × All P es

pub All-append : (P : Event → Type 0) (xs ys : List Event) → All P xs → All P ys → All P (xs ++ ys)
All-append P [] ys h k = k
All-append P (x ∷ xs) ys h k = (h.0, All-append P xs ys h.1 k)

pub All-map :
    (P Q : Event → Type 0) (es : List Event) → ((e : Event) → P e → Q e) → All P es → All Q es
All-map P Q [] f h = tt
All-map P Q (e ∷ es) f h = (f e h.0, All-map P Q es f h.1)

-- The slots are those from the index `i` on.
abbrev pub AllFrom : (ℕ → Event → Type 0) → ℕ → List (List Event) → Type 0
AllFrom P i [] = Unit
AllFrom P i (s ∷ ss) = All (P i) s × AllFrom P (suc i) ss

abbrev pub AllSlots : (ℕ → Event → Type 0) → List (List Event) → Type 0
AllSlots P ss = AllFrom P 0 ss

pub AllFrom-replicate : (P : ℕ → Event → Type 0) (i n : ℕ) → AllFrom P i (replicate n [])
AllFrom-replicate P i zero = tt
AllFrom-replicate P i (suc n) = (tt, AllFrom-replicate P (suc i) n)

AllFrom-map :
    (P Q : ℕ → Event → Type 0) (i : ℕ) (ss : List (List Event))
    → ((s : ℕ) (e : Event) → i ≤ s → s < i + length ss → P s e → Q s e)
    → AllFrom P i ss
    → AllFrom Q i ss
AllFrom-map P Q i [] f h = tt
AllFrom-map P Q i (s ∷ ss) f h = (
  All-map (P i) (Q i) s (λ e. f i e (omega arith) (omega arith)) h.0,
  AllFrom-map P Q (suc i) ss (λ t e a b. f t e (omega (arith, a)) (omega (arith, b))) h.1,
)

pub AllSlots-map :
    (P Q : ℕ → Event → Type 0) (ss : List (List Event))
    → length ss ≡ slot_num
    → ((s : ℕ) (e : Event) → s < slot_num → P s e → Q s e)
    → AllSlots P ss
    → AllSlots Q ss
AllSlots-map P Q ss n f h = AllFrom-map P Q 0 ss (λ s e a b. f s e (omega (arith, b, n))) h

indexed : (P : ℕ → Event → Type 0) (i j : ℕ) (e : Event) → i ≡ j → P i e → P j e
indexed P i j e q p = subst (λ k. P k e) q p

All-indexed :
    (P : ℕ → Event → Type 0) (i j : ℕ) (es : List Event) → i ≡ j → All (P i) es → All (P j) es
All-indexed P i j es q h = subst (λ k. All (P k) es) q h

pub AllFrom-push_slot :
    (P : ℕ → Event → Type 0) (i k : ℕ) (e : Event) (ss : List (List Event))
    → P (i + k) e
    → AllFrom P i ss
    → AllFrom P i (push_slot k e ss)
unfolding push_slot
AllFrom-push_slot P i k e [] p h = tt
AllFrom-push_slot P i zero e (s ∷ ss) p h =
    let q : P i e = indexed P (i + 0) i e (omega arith) p in
    (All-append (P i) s (e ∷ []) h.0 (q, tt), h.1)
AllFrom-push_slot P i (suc k) e (s ∷ ss) p h =
    let q : P (suc i + k) e = indexed P (i + suc k) (suc i + k) e (omega arith) p in
    (h.0, AllFrom-push_slot P (suc i) k e ss q h.1)

AllFrom-set :
    (P : ℕ → Event → Type 0) (i k : ℕ) (ss : List (List Event))
    → AllFrom P i ss
    → AllFrom (λ s e. P s e × ((s ≡ i + k) → ⊥)) i (set ss k [])
AllFrom-set P i k [] h = tt
AllFrom-set P i zero (s ∷ ss) h = (
  tt,
  AllFrom-map P (λ t e. P t e × ((t ≡ i + 0) → ⊥)) (suc i) ss
      (λ t e a b p. (p, λ q. omega (arith, a, q))) h.1,
)
AllFrom-set P i (suc k) (s ∷ ss) h = (
  All-map (P i) (λ e. P i e × ((i ≡ i + suc k) → ⊥)) s (λ e p. (p, λ q. omega (arith, q))) h.0,
  AllFrom-map (λ t e. P t e × ((t ≡ suc i + k) → ⊥)) (λ t e. P t e × ((t ≡ i + suc k) → ⊥)) (suc i)
      (set ss k []) (λ t e a b p. (p.0, λ q. p.1 (omega (arith, q))))
      (AllFrom-set P (suc i) k ss h.1),
)

-- The slot emptied holds nothing more.
pub AllSlots-set :
    (P : ℕ → Event → Type 0) (k : ℕ) (ss : List (List Event))
    → AllSlots P ss
    → AllSlots (λ s e. P s e × ((s ≡ k) → ⊥)) (set ss k [])
AllSlots-set P k ss h =
    AllFrom-map (λ s e. P s e × ((s ≡ 0 + k) → ⊥)) (λ s e. P s e × ((s ≡ k) → ⊥)) 0 (set ss k [])
      (λ s e a b p. (p.0, λ q. p.1 (omega (arith, q)))) (AllFrom-set P 0 k ss h)

AllFrom-get_or :
    (P : ℕ → Event → Type 0) (i k : ℕ) (ss : List (List Event))
    → AllFrom P i ss
    → All (P (i + k)) (get_or ss k [])
AllFrom-get_or P i k [] h = tt
AllFrom-get_or P i zero (s ∷ ss) h = All-indexed P i (i + 0) s (omega arith) h.0
AllFrom-get_or P i (suc k) (s ∷ ss) h =
    All-indexed P (suc i + k) (i + suc k) (get_or ss k []) (omega arith)
      (AllFrom-get_or P (suc i) k ss h.1)

pub AllSlots-get_or :
    (P : ℕ → Event → Type 0) (k : ℕ) (ss : List (List Event))
    → AllSlots P ss
    → All (P k) (get_or ss k [])
AllSlots-get_or P k ss h =
    All-indexed P (0 + k) k (get_or ss k []) (omega arith) (AllFrom-get_or P 0 k ss h)
