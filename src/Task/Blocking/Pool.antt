-- ===== src/Task/Blocking/Pool.antt =====
-- Which worker a task goes to.
use xyco.Common.{
  ℕ, sym, subst, suc, ◌+◌, ◌≤◌, ◌<◌, ◌≡◌, refl, some, List, [], ◌∷◌, length, arith, ltb, Bool-cases,
  inl, inr, get_or, ◌⊎◌,
}
use xyco.Task.Blocking.{min_from, push_task, spawn}

-- Every worker has at least `n` tasks.
abbrev pub AllAtLeast : ℕ → List (List ℕ) → Type 0
AllAtLeast n [] = Unit
AllAtLeast n (w ∷ ws) = (n ≤ length w) × AllAtLeast n ws

-- The queue `w` is found at the index `k`: it is the best so far, at `at`, or one of `ws`, whose first
-- has the index `i`.
abbrev FoundAt : List ℕ → ℕ → ℕ → List (List ℕ) → ℕ → List ℕ → Type 0
FoundAt best at i ws k w =
    ((k ≡ at) × (w ≡ best)) ⊎ ((j : ℕ) × (k ≡ i + j) × (j < length ws) × (get_or ws j [] ≡ w))

later :
    (v best : List ℕ) (at i k : ℕ) (ws : List (List ℕ)) (w : List ℕ)
    → FoundAt v i (suc i) ws k w
    → FoundAt best at i (v ∷ ws) k w
later v best at i k ws w (inl (e, f)) = inr (0, omega (arith, e), omega arith, sym f)
later v best at i k ws w (inr (j, e, l, g)) = inr (suc j, omega (arith, e), omega (arith, l), g)

kept :
    (v best : List ℕ) (at i k : ℕ) (ws : List (List ℕ)) (w : List ℕ)
    → FoundAt best at (suc i) ws k w
    → FoundAt best at i (v ∷ ws) k w
kept v best at i k ws w (inl x) = inl x
kept v best at i k ws w (inr (j, e, l, g)) = inr (suc j, omega (arith, e), omega (arith, l), g)

min_from-least :
    (best : List ℕ) (at i : ℕ) (ws : List (List ℕ))
    → (w : List ℕ) × (length w ≤ length best)
      × AllAtLeast (length w) ws
      × FoundAt best at i ws (min_from best at i ws) w
unfolding min_from
min_from-least best at i [] = (best, omega arith, tt, inl (refl, refl))
min_from-least best at i (v ∷ ws) = elim (Bool-cases (ltb (length v) (length best))) [
  | inl h ↦
      let (w, l, a, f) = min_from-least v i (suc i) ws in
      rw h (w, ground arith, (l, a), later v best at i (min_from v i (suc i) ws) ws w f)
  | inr h ↦
      let (w, l, a, f) = min_from-least best at (suc i) ws in
      rw h (w, l, (ground arith, a), kept v best at i (min_from best at (suc i) ws) ws w f)
]

-- A pool with a worker puts a task at the end of the queue of one worker of it, and no other has
-- fewer tasks than that one had.
pub spawn-least :
    (t : ℕ) (w : List ℕ) (ws : List (List ℕ))
    → (i : ℕ) × (spawn t (w ∷ ws) ≡ some (push_task i t (w ∷ ws)))
      × (i < length (w ∷ ws))
      × AllAtLeast (length (get_or (w ∷ ws) i [])) (w ∷ ws)
unfolding spawn
spawn-least t w ws =
    let (v, l, a, f) = min_from-least w 0 1 ws in
    let (less, found) = at f in
    (min_from w 0 1 ws, refl, less, subst (λ x. AllAtLeast (length x) (w ∷ ws)) (sym found) (l, a))
  where
    at :
        {k : ℕ} {v : List ℕ}
        → FoundAt w 0 1 ws k v
        → (k < length (w ∷ ws)) × (get_or (w ∷ ws) k [] ≡ v)
    at (inl (e, f)) = (omega (arith, e), rw e (sym f))
    at {v = v} (inr (j, e, l, g)) = (
      omega (arith, e, l),
      subst (λ n. get_or (w ∷ ws) n [] ≡ v) {x = suc j} (omega (arith, e)) g,
    )
