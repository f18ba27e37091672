-- ===== src/Runtime/Future/Ownership.antt =====
-- Which future a coroutine frame belongs to.
use xyco.Common.{
  ◌∙◌, Option-cases, sym, subst, ◌⊎◌, sym, ◌⊎◌, subst, ℕ, ◌≡◌, ◌≢◌, refl, Option, none, some, arith,
  ◌==◌, Bool-cases, inl, inr,
}
use xyco.Runtime.Future.Await.{same, other, other'}
use xyco.Runtime.Future.{Frame, Store, frame_future, move_assign, moved, put_frame}

-- A number is the first of two others, the second, or neither.
which : (a b r : ℕ) → (r ≡ a) ⊎ (r ≡ b) ⊎ ((a ≢ r) × (b ≢ r))
which a b r = elim (Bool-cases (r == a)) [
  | inl e ↦ inl (ground arith)
  | inr e ↦ elim (Bool-cases (r == b)) [
    | inl f ↦ inr (inl (ground arith))
    | inr f ↦ inr (inr ((λ x. ground arith), (λ x. ground arith)))
  ]
]

frame_there : (p : ℕ) (o : Option Frame) → frame_future o ≡ some p → (fr : Frame) × (o ≡ some fr)
frame_there p none e = absurd (ground arith)
frame_there p (some fr) e = (fr, refl)

module _ {ℓ} {V : Type ℓ} where
  -- The frame that a future at `p` holds as its own is there and its promise points back at `p`.
  abbrev pub PointsBack : Store V → ℕ → Option ℕ → Type 0
  PointsBack st p none = Unit
  PointsBack st p (some h) = frame_future (st.frames h) ≡ some p

  abbrev pub Owned : Store V → Type 0
  Owned st = (p : ℕ) → PointsBack st p (st.futures p).self

  -- In such a store no frame belongs to two futures.
  pub Owned-unique :
      (st : Store V) (p q h : ℕ)
      → Owned st
      → (st.futures p).self ≡ some h
      → (st.futures q).self ≡ some h
      → p ≡ q
  Owned-unique st p q h o e f = ground (arith, o p, o q)

  moved-source :
      (target source : ℕ) (st : Store V) → ((moved target source st).futures source).self ≡ none
  moved-source target source st = rw (same source)

  moved-target :
      (target source : ℕ) (st : Store V)
      → target ≢ source
      → ((moved target source st).futures target).self ≡ (st.futures source).self
  moved-target target source st n = rw (other' target source n, same target)

  moved-other :
      (target source r : ℕ) (st : Store V)
      → target ≢ r
      → source ≢ r
      → ((moved target source st).futures r).self ≡ (st.futures r).self
  moved-other target source r st n m = rw (other source r m, other target r n)

  -- The moved store with the frame `h` of the source, `fr`, pointing at the target.
  abbrev repointed : ℕ → ℕ → ℕ → Frame → Store V → Store V
  repointed target source h fr st =
      put_frame h (some (record fr { future = some target })) (moved target source st)

  PointsBack-put_frame :
      (st : Store V) (h r : ℕ) (x : Option Frame) (k : Option ℕ)
      → PointsBack st r k
      → frame_future (st.frames h) ≢ some r
      → PointsBack (put_frame h x st) r k
  PointsBack-put_frame st h r x none b n = tt
  PointsBack-put_frame st h r x (some k) b n = elim (Bool-cases (k == h)) [
    | inl e ↦ absurd (n (ground arith))
    | inr e ↦ rw e b
  ]

  repointed-Owned :
      (st : Store V) (target source h : ℕ) (fr : Frame)
      → Owned st
      → target ≢ source
      → (st.futures source).self ≡ some h
      → Owned (repointed target source h fr st)
  repointed-Owned st target source h fr o n e r = elim (which source target r) [
    | inl a ↦
        subst (λ k. PointsBack st' k (st'.futures k).self) (sym a)
          (subst (PointsBack st' source) (sym (moved-source target source st)) tt)
    | inr (inl a) ↦
        subst (λ k. PointsBack st' k (st'.futures k).self) (sym a)
          (subst (PointsBack st' target) (sym (moved-target target source st n ∙ e)) (rw (same h)))
    | inr (inr (b', b)) ↦ subst (PointsBack st' r) (sym (moved-other target source r st b b')) (
        PointsBack-put_frame (moved target source st) h r _ (st.futures r).self (o r)
          (λ x. b' (ground (arith, subst (PointsBack st source) e (o source), x))))
  ]
    where
      st' : Store V
      st' = repointed target source h fr st

  PointsBack-moved :
      (target source r : ℕ) (st : Store V) (k : Option ℕ)
      → PointsBack st r k
      → PointsBack (moved target source st) r k
  PointsBack-moved target source r st none b = tt
  PointsBack-moved target source r st (some k) b = b

  moved-Owned :
      (st : Store V) (target source : ℕ)
      → Owned st
      → target ≢ source
      → (st.futures source).self ≡ none
      → Owned (moved target source st)
  moved-Owned st target source o n e r = elim (which source target r) [
    | inl a ↦
        subst (λ k. PointsBack st' k (st'.futures k).self) (sym a)
          (subst (PointsBack st' source) (sym (moved-source target source st)) tt)
    | inr (inl a) ↦
        subst (λ k. PointsBack st' k (st'.futures k).self) (sym a)
          (subst (PointsBack st' target) (sym (moved-target target source st n ∙ e)) tt)
    | inr (inr (b', b)) ↦
        subst (PointsBack st' r) (sym (moved-other target source r st b b'))
          (PointsBack-moved target source r st (st.futures r).self (o r))
  ]
    where
      st' : Store V
      st' = moved target source st

  -- Moving a future into one that holds no frame is defined, and keeps it that every frame held
  -- points back at the future that holds it; the frame has gone over from the one to the other.
  pub move_assign-Owned :
      (st : Store V) (target source : ℕ)
      → Owned st
      → target ≢ source
      → (st.futures target).self ≡ none
      → (st' : Store V) × (move_assign target source st ≡ some st')
        × Owned st'
        × ((st'.futures target).self ≡ (st.futures source).self)
        × ((st'.futures source).self ≡ none)
  unfolding move_assign
  move_assign-Owned st target source o n e = elim (Option-cases (st.futures source).self) [
    | inl f ↦ (
      moved target source st,
      rw (moved-target target source st n, f),
      moved-Owned st target source o n f,
      moved-target target source st n,
      moved-source target source st,
    )
    | inr (h, f) ↦
        let (fr, g) =
          frame_there source (st.frames h) (subst (PointsBack st source) f (o source)) in
        (
          repointed target source h fr st,
          rw (moved-target target source st n, f, g),
          repointed-Owned st target source h fr o n f,
          moved-target target source st n,
          moved-source target source st,
        )
  ]
