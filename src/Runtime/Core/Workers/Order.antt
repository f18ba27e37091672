-- ===== src/Runtime/Core/Workers/Order.antt =====
-- What holds whichever way the workers interleave.
use xyco.Common.{
  ℕ, true, false, none, some, List, [], ◌∷◌, ◌++◌, ◌≡◌, ◌⊎◌, inl, inr, ◌==◌, map, refl, sym, ap,
  ◌∙◌, append_assoc, append-nil, Bool-cases, arith,
}
use xyco.Runtime.Core.{Entry, pop_back}
use xyco.Runtime.Core.Fifo.{view, view-pop_back}
use xyco.Runtime.Core.Workers.{
  Phase, outside, holding, running, returning, Workers, put_phase, lock, unlock, take_last, Run,
  begins, locks, pops, ends, leaves, pushes, suspends,
}

-- The entries that were taken, by whichever worker.
abbrev pub entries : List (ℕ × Entry) → List Entry
entries taken = map (λ (x : ℕ × Entry). x.1) taken

entries-snoc :
    (taken : List (ℕ × Entry)) (t : ℕ) (e : Entry)
    → entries (taken ++ ((t, e) ∷ [])) ≡ entries taken ++ (e ∷ [])
entries-snoc [] t e = refl
entries-snoc (x ∷ xs) t e = ap (◌∷◌ x.1) (entries-snoc xs t e)

-- The entries that all workers take, in the order in which they take them, followed by those that are left,
-- oldest first, are those that were there followed by those that were pushed: no entry is lost, none is
-- taken twice, by one worker or by two, and none overtakes another.
pub Run-view :
    (w : Workers) (taken : List (ℕ × Entry)) (pushed : List Entry) (w' : Workers)
    → Run w taken pushed w'
    → entries taken ++ view w'.handles ≡ view w.handles ++ pushed
unfolding view
Run-view w taken pushed w' begins = sym (append-nil (view w.handles))
Run-view w taken pushed w' (locks t ta pu v r o f) = Run-view w taken pushed v r
Run-view w taken pushed w' (pops t e es ta pu v r h s q) =
    ap (λ xs. xs ++ view (pop_back e es).0) (entries-snoc ta t (pop_back e es).1)
    ∙ append_assoc (entries ta) ((pop_back e es).1 ∷ []) (view (pop_back e es).0)
    ∙ ap (λ xs. entries ta ++ xs) (sym (view-pop_back e es) ∙ ap view (sym q))
    ∙ Run-view w ta pu v r
Run-view w taken pushed w' (ends t e ta pu v r h) = Run-view w taken pushed v r
Run-view w taken pushed w' (leaves t ta pu v r h o) = Run-view w taken pushed v r
Run-view w taken pushed w' (pushes e ta pu v r f) =
    sym (append_assoc (entries ta) (view v.handles) (e ∷ []))
    ∙ ap (λ xs. xs ++ (e ∷ [])) (Run-view w ta pu v r)
    ∙ append_assoc (view w.handles) pu (e ∷ [])
Run-view w taken pushed w' (suspends t ta pu v r) = Run-view w taken pushed v r

-- The worker that holds the mutex is the one that looks at the queue.
abbrev pub Guarded : Workers → Type 0
Guarded w =
    (t : ℕ) → (w.phase t ≡ holding → w.owner ≡ some t) × (w.owner ≡ some t → w.phase t ≡ holding)

lock-Guarded : (t : ℕ) (w : Workers) → w.owner ≡ none → Guarded w → Guarded (lock t w)
lock-Guarded t w f g u = elim (Bool-cases (u == t)) [
  | inl e ↦ rw e ((λ _. ground (arith, e)), (λ _. refl))
  | inr e ↦
      rw e ((λ h. absurd (ground (arith, f, (g u).0 h))), (λ h. absurd (ground (arith, e, h))))
]

unlock-Guarded :
    (t : ℕ) (p : Phase) (w : Workers)
    → (p ≡ holding → ⊥)
    → w.phase t ≡ holding
    → Guarded w
    → Guarded (unlock t p w)
unlock-Guarded t p w n h g u = elim (Bool-cases (u == t)) [
  | inl e ↦ rw e ((λ x. absurd (n x)), (λ x. absurd (ground (arith, x))))
  | inr e ↦
      rw e
        ((λ x. absurd (ground (arith, e, (g u).0 x, (g t).0 h))), (λ x. absurd (ground (arith, x))))
]

end-Guarded :
    (t : ℕ) (e : Entry) (w : Workers)
    → w.phase t ≡ running e
    → Guarded w
    → Guarded (put_phase t returning w)
end-Guarded t e w h g u = elim (Bool-cases (u == t)) [
  | inl z ↦
      rw z ((λ x. absurd (ground (arith, x))), (λ x. absurd (ground (arith, z, h, (g u).1 x))))
  | inr z ↦ rw z (g u)
]

-- However the workers interleave, the worker that holds the mutex is the one that looks at the queue.
pub Run-Guarded :
    (w : Workers) (taken : List (ℕ × Entry)) (pushed : List Entry) (w' : Workers)
    → Guarded w
    → Run w taken pushed w'
    → Guarded w'
Run-Guarded w taken pushed w' g begins = g
Run-Guarded w taken pushed w' g (locks t ta pu v r o f) =
    lock-Guarded t v f (Run-Guarded w taken pushed v g r)
Run-Guarded w taken pushed w' g (pops t e es ta pu v r h s q) =
    unlock-Guarded t (running (pop_back e es).1) v (λ x. ground (arith, x)) h
      (Run-Guarded w ta pu v g r)
Run-Guarded w taken pushed w' g (ends t e ta pu v r h) =
    end-Guarded t e v h (Run-Guarded w taken pushed v g r)
Run-Guarded w taken pushed w' g (leaves t ta pu v r h o) =
    unlock-Guarded t outside v (λ x. ground (arith, x)) h (Run-Guarded w taken pushed v g r)
Run-Guarded w taken pushed w' g (pushes e ta pu v r f) = Run-Guarded w ta pu v g r
Run-Guarded w taken pushed w' g (suspends t ta pu v r) = Run-Guarded w taken pushed v g r

-- How worker `t`, which holds the mutex in `w`, lets go of it: it leaves the loop, suspended or with an
-- empty queue, or it runs one entry, which is the last of the queue.
pub data LetsGo (t : ℕ) (w v : Workers) : List (ℕ × Entry) → Type 0 where
  left :
      (w.suspended t ≡ true) ⊎ (w.handles ≡ [])
      → v.phase t ≡ outside
      → v.handles ≡ w.handles
      → LetsGo t w v []
  took :
      (e : Entry)
      → w.suspended t ≡ false
      → v.phase t ≡ running e
      → view w.handles ≡ e ∷ view v.handles
      → LetsGo t w v ((t, e) ∷ [])

-- Nothing but worker `t` has moved, and no worker was suspended.
abbrev pub Alone : ℕ → Workers → Workers → Type 0
Alone t w v = ((u : ℕ) → (u == t) ≡ false → v.phase u ≡ w.phase u) × (v.suspended ≡ w.suspended)

put_phase_same : (t : ℕ) (p : Phase) (w : Workers) → (put_phase t p w).phase t ≡ p
put_phase_same t p w = ground arith

unlock-Alone : (t : ℕ) (p : Phase) (w : Workers) → Alone t w (unlock t p w)
unlock-Alone t p w = ((λ u z. rw z refl), refl)

next :
    (w : Workers) (t : ℕ) (q : List Entry)
    → w.phase t ≡ holding
    → w.handles ≡ q
    → (taken : List (ℕ × Entry)) × (v : Workers) × Run w taken [] v
      × (v.owner ≡ none)
      × LetsGo t w v taken
      × Alone t w v
next w t [] h e = (
  [],
  unlock t outside w,
  leaves t [] [] w begins h (inr e),
  refl,
  left (inr e) (put_phase_same t outside w) refl,
  unlock-Alone t outside w,
)
next w t (x ∷ xs) h e = elim (Bool-cases (w.suspended t)) [
  | inl s ↦ (
    [],
    unlock t outside w,
    leaves t [] [] w begins h (inl s),
    refl,
    left (inl s) (put_phase_same t outside w) refl,
    unlock-Alone t outside w,
  )
  | inr s ↦ (
    (t, (pop_back x xs).1) ∷ [],
    take_last t x xs w,
    pops t x xs [] [] w begins h s e,
    refl,
    took (pop_back x xs).1 s (put_phase_same t (running (pop_back x xs).1) w)
        (ap view e ∙ view-pop_back x xs),
    unlock-Alone t (running (pop_back x xs).1) w,
  )
]

-- However the workers interleave, the worker `t` that holds the mutex is the only one that looks at the
-- queue, and from there it frees the mutex by itself: with no push, no suspension and no move of another
-- worker, it leaves the loop, if it is suspended or the queue is empty, or it takes the oldest entry and
-- runs it, and in either case nobody holds the mutex then.
pub Run-unlocks :
    (w : Workers) (taken : List (ℕ × Entry)) (pushed : List Entry) (w' : Workers) (t : ℕ)
    → Guarded w
    → Run w taken pushed w'
    → w'.owner ≡ some t
    → ((u : ℕ) → w'.phase u ≡ holding → u ≡ t)
      × ((taken' : List (ℕ × Entry)) × (v : Workers) × Run w' taken' [] v
          × (v.owner ≡ none)
          × LetsGo t w' v taken'
          × Alone t w' v)
Run-unlocks w taken pushed w' t g r o =
    let g' = Run-Guarded w taken pushed w' g r in
    ((λ u x. ground (arith, o, (g' u).0 x)), next w' t (w'.handles) ((g' t).1 o) refl)
