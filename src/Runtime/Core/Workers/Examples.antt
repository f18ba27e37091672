-- ===== src/Runtime/Core/Workers/Examples.antt =====
-- The theorems of the workers at a concrete run: worker 5 takes an entry, another is pushed meanwhile, and
-- worker 6 locks the queue.
use xyco.Common.{ℕ, false, none, some, List, [], ◌∷◌, ◌++◌, ◌≡◌, inl, refl, arith}
use xyco.Runtime.Core.{Entry, pop_back}
use xyco.Runtime.Core.Fifo.{view}
use xyco.Runtime.Core.Workers.{
  outside, holding, Workers, lock, take_last, push, Run, begins, locks, pops, pushes,
}
use xyco.Runtime.Core.Workers.Order.{entries, Guarded, LetsGo, Alone, Run-view, Run-unlocks}

abbrev entry : ℕ → Entry
entry n = record { handle = some n; future = some n }

abbrev start : Workers
start = record {
  handles = entry 1 ∷ [];
  owner = none;
  phase = λ t. outside;
  suspended = λ t. false;
}

abbrev locked : Workers
locked = lock 5 start

abbrev popped : Workers
popped = take_last 5 (entry 1) [] locked

abbrev pushed_to : Workers
pushed_to = push (entry 2) popped

abbrev final : Workers
final = lock 6 pushed_to

abbrev taken : List (ℕ × Entry)
taken = [] ++ ((5, (pop_back (entry 1) []).1) ∷ [])

final-Run : Run start taken ([] ++ (entry 2 ∷ [])) final
final-Run =
    locks 6 taken ([] ++ (entry 2 ∷ [])) pushed_to
      (pushes (entry 2) taken [] popped
        (pops 5 (entry 1) [] [] [] locked (locks 5 [] [] start begins (inl refl) refl) refl refl
          refl)
        refl)
      (inl refl) refl

start-Guarded : Guarded start
start-Guarded t = ((λ x. absurd (ground (arith, x))), (λ x. absurd (ground (arith, x))))

Run-view_example :
    entries taken ++ view final.handles ≡ view start.handles ++ ([] ++ (entry 2 ∷ []))
Run-view_example = Run-view start taken ([] ++ (entry 2 ∷ [])) final final-Run

Run-unlocks_example :
    ((u : ℕ) → final.phase u ≡ holding → u ≡ 6)
    × ((taken' : List (ℕ × Entry)) × (v : Workers) × Run final taken' [] v
        × (v.owner ≡ none)
        × LetsGo 6 final v taken'
        × Alone 6 final v)
Run-unlocks_example =
    Run-unlocks start taken ([] ++ (entry 2 ∷ [])) final 6 start-Guarded final-Run refl
