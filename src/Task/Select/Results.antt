-- ===== src/Task/Select/Results.antt =====
-- What `select` answers.
use xyco.Common.{ℕ, ◌≡◌, refl, true, Option, some, none, List, [], ◌∷◌, ◌++◌, map}
use xyco.Task.Join.{Completed, value, threw}
use xyco.Task.Select.{Select, gives, throws, collect, poll}

module _ {ℓ} {V : Type ℓ} where
  -- Branches that have a value or no result yet.
  abbrev pub result_of : Option V → Option (Completed V)
  result_of none = none
  result_of (some v) = some (value v)

  abbrev pub results : List (Option V) → List (Option (Completed V))
  results os = map result_of os

  collect-results : (os : List (Option V)) → collect (results os) ≡ gives os
  unfolding collect
  collect-results [] = refl
  collect-results (none ∷ os) = rw (collect-results os)
  collect-results (some v ∷ os) = rw (collect-results os)

  collect-threw :
      (os : List (Option V)) (e : ℕ) (bs : List (Option (Completed V)))
      → collect (results os ++ (some (threw e) ∷ bs)) ≡ throws e
  unfolding collect
  collect-threw [] e bs = refl
  collect-threw (none ∷ os) e bs = rw (collect-threw os e bs)
  collect-threw (some v ∷ os) e bs = rw (collect-threw os e bs)

  -- The second poll of a select none of whose branches threw gives the value of each branch that has
  -- one, at its place.
  pub poll-results :
      (s : Select V) (os : List (Option V))
      → s.ready ≡ true
      → s.branches ≡ results os
      → poll s ≡ (s, gives os)
  unfolding poll
  poll-results s os r e = rw (r, e, collect-results os)

  -- The second poll of a select throws the exception of the first branch that ended with one, whatever
  -- the later ones have.
  pub poll-first_threw :
      (s : Select V) (os : List (Option V)) (e : ℕ) (bs : List (Option (Completed V)))
      → s.ready ≡ true
      → s.branches ≡ results os ++ (some (threw e) ∷ bs)
      → poll s ≡ (s, throws e)
  unfolding poll
  poll-first_threw s os e bs r b = rw (r, b, collect-threw os e bs)
