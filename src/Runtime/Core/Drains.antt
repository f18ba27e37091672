-- ===== src/Runtime/Core/Drains.antt =====
-- When the loop over a queue comes to its end.
use xyco.Common.{
  ◌≡◌, refl, ap, ◌∙◌, false, List, [], ◌∷◌, length, ◌+◌, ◌≤◌, suc, arith, length-append,
}
use xyco.Runtime.Core.{Entry, Turn, pop_back, push_all, resume, pushed}

length-pop_back : (e : Entry) (es : List Entry) → length (pop_back e es).0 ≡ length es
unfolding pop_back
length-pop_back e [] = refl
length-pop_back e (x ∷ xs) = ap suc (length-pop_back x xs)

length-push_all : (es q : List Entry) → length (push_all es q) ≡ length es + length q
length-push_all [] q = omega arith
length-push_all (e ∷ es) q = omega (arith, length-push_all es (e ∷ q))

-- No turn suspends the worker.
abbrev pub NoneSuspends : List Turn → Type 0
NoneSuspends [] = Unit
NoneSuspends (t ∷ ts) = (t.suspends ≡ false) × NoneSuspends ts

-- The loop over a queue leaves it empty where no turn suspends the worker and there are at least as
-- many turns as entries at the beginning and entries pushed in all.
pub resume-drains :
    (ts : List Turn) (q : List Entry)
    → NoneSuspends ts
    → length q + length (pushed ts) ≤ length ts
    → (resume ts false q).0 ≡ []
unfolding resume
resume-drains [] [] n h = refl
resume-drains [] (e ∷ es) n h = absurd (omega arith)
resume-drains (t ∷ ts) [] n h = refl
resume-drains (t ∷ ts) (e ∷ es) (s, n) h =
    ap (λ b. (resume ts b (push_all t.pushes (pop_back e es).0)).0) s
    ∙ resume-drains ts (push_all t.pushes (pop_back e es).0) n (
        omega (
          arith,
          length-push_all t.pushes (pop_back e es).0,
          length-pop_back e es,
          length-append t.pushes (pushed ts),
        ))
