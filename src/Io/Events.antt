-- ===== src/Io/Events.antt =====
-- The registered events of a registry, `registered_events_`: a vector that is searched and erased from.
use xyco.Common.{
  ap, ℕ, ◌+◌, ◌≡◌, Bool, true, false, List, [], ◌∷◌, ◌++◌, ◌==◌, ◌||◌, arith, if◌then◌else◌,
  Bool-cases, inl, inr,
}

-- `erase` of what `find` finds.
unfoldable pub erase_first : ℕ → List ℕ → List ℕ
erase_first e [] = []
erase_first e (x ∷ xs) = let rest = erase_first e xs in if x == e then xs else x ∷ rest

unfoldable pub mem : ℕ → List ℕ → Bool
mem e [] = false
mem e (x ∷ xs) = x == e || mem e xs

-- The sum of a weight of events: with the weight that is 1 for one event and 0 for the others, how
-- often it is there.
unfoldable pub weight : (ℕ → ℕ) → List ℕ → ℕ
weight f [] = 0
weight f (e ∷ es) = f e + weight f es

pub weight-append : (f : ℕ → ℕ) (xs ys : List ℕ) → weight f (xs ++ ys) ≡ weight f xs + weight f ys
unfolding weight
weight-append f [] ys = omega arith
weight-append f (x ∷ xs) ys = omega (arith, weight-append f xs ys)

same_weight : (f : ℕ → ℕ) (x e : ℕ) → (x == e) ≡ true → f x ≡ f e
same_weight f x e h = ap f (ground arith)

pub weight-erase_first :
    (f : ℕ → ℕ) (e : ℕ) (es : List ℕ)
    → mem e es ≡ true
    → weight f (erase_first e es) + f e ≡ weight f es
unfolding weight erase_first mem
weight-erase_first f e [] h = absurd (ground arith)
weight-erase_first f e (x ∷ xs) h = elim (Bool-cases (x == e)) [
  | inl g ↦ rw g (omega (arith, same_weight f x e g))
  | inr g ↦ rw g (omega (arith, weight-erase_first f e xs (rw g at h)))
]

pub mem-push : (e : ℕ) (es : List ℕ) → mem e (es ++ (e ∷ [])) ≡ true
unfolding mem
mem-push e [] = ground arith
mem-push e (x ∷ xs) = ground (arith, mem-push e xs)

pub weight-push : (f : ℕ → ℕ) (e : ℕ) (es : List ℕ) → weight f (es ++ (e ∷ [])) ≡ weight f es + f e
unfolding weight
weight-push f e es = omega (arith, weight-append f es (e ∷ []))
