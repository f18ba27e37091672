-- ===== src/Runtime/Future/Cancel.antt =====
-- What `cancel` reaches.
use xyco.Common.{
  ℕ, zero, suc, ◌≤◌, ◌≡◌, refl, ap, ◌∙◌, Bool, true, false, ◌||◌, none, some, List, [], ◌∷◌, length,
  arith, ◌==◌, Bool-cases, inl, inr,
}
use xyco.Runtime.Future.{Future, Store, mark, awaited, awaited_of, cancel}

abbrev pub among : ℕ → List ℕ → Bool
among r [] = false
among r (p ∷ ps) = r == p || among r ps

module _ {ℓ} {V : Type ℓ} where
  -- From `p` on, each future's coroutine awaits the next one's, and the last awaits no coroutine.
  abbrev pub Linked : Store V → ℕ → List ℕ → Type 0
  Linked st p [] = awaited p st ≡ some none
  Linked st p (q ∷ qs) = (awaited p st ≡ some (some q)) × Linked st q qs

  abbrev mark_all : List ℕ → Store V → Store V
  mark_all [] st = st
  mark_all (p ∷ ps) st = mark_all ps (mark p st)

  mark-waited : (p q : ℕ) (st : Store V) → ((mark p st).futures q).waited ≡ (st.futures q).waited
  unfolding mark
  mark-waited p q st = elim (Bool-cases (q == p)) [ inl e ↦ rw e (ground arith) | inr e ↦ rw e ]

  mark-awaited : (p q : ℕ) (st : Store V) → awaited q (mark p st) ≡ awaited q st
  unfolding mark
  mark-awaited p q st = ap (awaited_of st) (mark-waited p q st)

  mark-Linked : (p q : ℕ) (qs : List ℕ) (st : Store V) → Linked st q qs → Linked (mark p st) q qs
  mark-Linked p q [] st l = mark-awaited p q st ∙ l
  mark-Linked p q (r ∷ rs) st (a, l) = (mark-awaited p q st ∙ a, mark-Linked p r rs st l)

  cancel-mark_all :
      (depth p : ℕ) (qs : List ℕ) (st : Store V)
      → Linked st p qs
      → length (p ∷ qs) ≤ depth
      → cancel depth p st ≡ some (mark_all (p ∷ qs) st)
  unfolding cancel
  cancel-mark_all zero p qs st l h = absurd (omega arith)
  cancel-mark_all (suc depth) p [] st l h = rw (mark-awaited p p st, l)
  cancel-mark_all (suc depth) p (q ∷ qs) st (a, l) h =
      rw (mark-awaited p p st, a)
        (cancel-mark_all depth q qs (mark p st) (mark-Linked p q qs st l) (omega arith))

  -- The future `f`, cancelled where `b` holds.
  abbrev pub cancelled_if : Bool → Future V → Future V
  cancelled_if true f = record f { cancelled = true }
  cancelled_if false f = f

  mark-futures :
      (p r : ℕ) (st : Store V) → (mark p st).futures r ≡ cancelled_if (r == p) (st.futures r)
  unfolding mark
  mark-futures p r st = elim (Bool-cases (r == p)) [ inl e ↦ rw e (ground arith) | inr e ↦ rw e ]

  cancelled_if-or :
      (a b : Bool) (f : Future V) → cancelled_if a (cancelled_if b f) ≡ cancelled_if (b || a) f
  cancelled_if-or true true f = refl
  cancelled_if-or true false f = refl
  cancelled_if-or false true f = refl
  cancelled_if-or false false f = refl

  mark_all-futures :
      (ps : List ℕ) (r : ℕ) (st : Store V)
      → (mark_all ps st).futures r ≡ cancelled_if (among r ps) (st.futures r)
  mark_all-futures [] r st = refl
  mark_all-futures (p ∷ ps) r st =
      mark_all-futures ps r (mark p st)
      ∙ ap (cancelled_if (among r ps)) (mark-futures p r st)
      ∙ cancelled_if-or (among r ps) (r == p) (st.futures r)

  mark_all-frames : (ps : List ℕ) (r : ℕ) (st : Store V) → (mark_all ps st).frames r ≡ st.frames r
  unfolding mark
  mark_all-frames [] r st = refl
  mark_all-frames (p ∷ ps) r st = mark_all-frames ps r (mark p st)

  -- Where the coroutine of `p` awaits that of the next of `qs`, and so on to one that awaits no
  -- coroutine, `cancel` of `p` ends, whatever the depth allowed from their number on, having marked
  -- exactly these futures as cancelled and changed nothing else.
  pub cancel-Linked :
      (depth p r : ℕ) (qs : List ℕ) (st : Store V)
      → Linked st p qs
      → length (p ∷ qs) ≤ depth
      → (st' : Store V) × (cancel depth p st ≡ some st')
        × (st'.futures r ≡ cancelled_if (among r (p ∷ qs)) (st.futures r))
        × (st'.frames r ≡ st.frames r)
  cancel-Linked depth p r qs st l h = (
    mark_all (p ∷ qs) st,
    cancel-mark_all depth p qs st l h,
    mark_all-futures (p ∷ qs) r st,
    mark_all-frames (p ∷ qs) r st,
  )
