-- ===== src/Runtime/Core/Wake.antt =====
-- What a wake-up puts on the queue.
use xyco.Common.{
  sym, append-nil, append_assoc, ◌∙◌, ℕ, ◌≡◌, refl, Bool, true, false, Option, none, some, List, [],
  ◌∷◌, ◌++◌, map, arith, ◌||◌, ◌==◌, if◌then◌else◌,
}
use xyco.Runtime.Core.{Core, entry_of, wake, unbind, push_entry}
use xyco.Runtime.Core.Fifo.{view}

unfoldable pub is_among : ℕ → List ℕ → Bool
is_among e [] = false
is_among e (x ∷ xs) = e == x || is_among e xs

-- Each of the events has the future of `futures` at its place, and none is there twice.
abbrev pub Bound : (ℕ → Option ℕ) → List ℕ → List ℕ → Type 0
Bound bound [] [] = Unit
Bound bound (e ∷ es) (f ∷ fs) = (bound e ≡ some f) × (is_among e es ≡ false) × Bound bound es fs
Bound bound _ _ = ⊥

Bound-unbind :
    (c : Core) (e : ℕ) (es fs : List ℕ)
    → is_among e es ≡ false
    → Bound c.bound es fs
    → Bound (unbind e c).bound es fs
unfolding is_among
Bound-unbind c e [] [] n b = tt
Bound-unbind c e (x ∷ xs) (f ∷ fs) n (b, m, bs) =
    (ground arith, m, Bound-unbind c e xs fs (ground arith) bs)
Bound-unbind c e [] (f ∷ fs) n b = b
Bound-unbind c e (x ∷ xs) [] n b = b

unbound :
    (a b : Bool) (o : Option ℕ)
    → (if a then none else (if b then none else o)) ≡ (if b || a then none else o)
unbound true true o = refl
unbound true false o = refl
unbound false true o = refl
unbound false false o = refl

module _ (get_handle : ℕ → Option ℕ) where
  -- Waking events that each have a future, and none of which is there twice, queues these futures in
  -- the order of the events, behind what is queued, and afterwards none of the events has a future,
  -- while the other events keep theirs.
  pub wake-Bound :
      (c : Core) (es fs : List ℕ) (e : ℕ)
      → Bound c.bound es fs
      → (c' : Core) × (wake get_handle es c ≡ some c')
        × (view c'.handles ≡ view c.handles ++ map (entry_of get_handle) fs)
        × (c'.bound e ≡ (if is_among e es then none else c.bound e))
  unfolding wake view is_among
  wake-Bound c [] [] e b = (c, refl, sym (append-nil (view c.handles)), refl)
  wake-Bound c (x ∷ es) (f ∷ fs') e (b, m, bs) =
      let c1 = push_entry (entry_of get_handle f) (unbind x c) in
      let (c', w, v, n) = wake-Bound c1 es fs' e (Bound-unbind c x es fs' m bs) in
      (
        c',
        rw (b, wake) w,
        v ∙ append_assoc (view c.handles) (entry_of get_handle f ∷ []) _,
        n ∙ unbound (is_among e es) (e == x) (c.bound e),
      )
  wake-Bound c [] (f ∷ fs) e b = absurd b
  wake-Bound c (x ∷ xs) [] e b = absurd b

  -- A wake-up that comes to an event whose future is gone, after events that each have one, uses a
  -- null pointer.
  pub wake-unbound :
      (c : Core) (es fs rest : List ℕ) (e : ℕ)
      → Bound c.bound es fs
      → c.bound e ≡ none
      → is_among e es ≡ false
      → wake get_handle (es ++ (e ∷ rest)) c ≡ none
  unfolding wake is_among
  wake-unbound c [] [] rest e b n m = rw (n, wake)
  wake-unbound c (x ∷ es) (f ∷ fs') rest e (b, k, bs) n m =
      rw (b, wake)
        (wake-unbound (push_entry (entry_of get_handle f) (unbind x c)) es fs' rest e
          (Bound-unbind c x es fs' k bs) (ground arith) (ground arith))
  wake-unbound c [] (f ∷ fs) rest e b n m = absurd b
  wake-unbound c (x ∷ xs) [] rest e b n m = absurd b
