-- ===== src/Task/Join/Results.antt =====
-- What `join` answers when all branches have a result.
use xyco.Common.{ℕ, ◌≡◌, refl, true, Option, some, List, [], ◌∷◌, ◌++◌, map}
use xyco.Task.Join.{Join, Completed, value, threw, gives, throws, extract, poll}

module _ {ℓ} {V : Type ℓ} where
  abbrev pub values : List V → List (Option (Completed V))
  values vs = map (λ v. some (value v)) vs

  extract-values : (vs : List V) → extract (values vs) ≡ gives vs
  unfolding extract
  extract-values [] = refl
  extract-values (v ∷ vs) = rw (extract-values vs)

  extract-threw :
      (vs : List V) (e : ℕ) (bs : List (Option (Completed V)))
      → extract (values vs ++ (some (threw e) ∷ bs)) ≡ throws e
  unfolding extract
  extract-threw [] e bs = refl
  extract-threw (v ∷ vs) e bs = rw (extract-threw vs e bs)

  -- The second poll of a join whose branches all have a value gives the values in order.
  pub poll-values :
      (j : Join V) (vs : List V) → j.ready ≡ true → j.branches ≡ values vs → poll j ≡ (j, gives vs)
  unfolding poll
  poll-values j vs r e = rw (r, e, extract-values vs)

  -- The second poll of a join throws the exception of the first branch that ended with one, where the
  -- branches before it have a value, whatever the later ones have.
  pub poll-threw :
      (j : Join V) (vs : List V) (e : ℕ) (bs : List (Option (Completed V)))
      → j.ready ≡ true
      → j.branches ≡ values vs ++ (some (threw e) ∷ bs)
      → poll j ≡ (j, throws e)
  unfolding poll
  poll-threw j vs e bs r b = rw (r, b, extract-threw vs e bs)
