-- ===== src/Runtime/Core/Fifo.antt =====
-- The queue of a worker is first in, first out, though it is kept the other way round.
use xyco.Common.{
  subst, ◌≡◌, refl, ap, ◌∙◌, sym, Bool, true, false, List, [], ◌∷◌, ◌++◌, map, append_assoc,
  append-nil, length, take,
}
use xyco.Runtime.Core.{Entry, Turn, Ran, pop_back, ran_of, push_all, resume, pushed}

-- The entries in the order in which they were pushed.
unfoldable pub view : List Entry → List Entry
view [] = []
view (e ∷ es) = view es ++ (e ∷ [])

-- The same loop over a queue with a front and an end.
pub run_fifo : List Turn → Bool → List Entry → List Entry × List Ran × Bool
run_fifo [] suspended q = (q, [], suspended)
run_fifo (t ∷ ts) true q = (q, [], true)
run_fifo (t ∷ ts) false [] = ([], [], false)
run_fifo (t ∷ ts) false (e ∷ es) =
    let (q, ran, suspended) = run_fifo ts t.suspends (es ++ t.pushes) in
    (q, ran_of e t ∷ ran, suspended)

view-nil : view [] ≡ []
unfolding view
view-nil = refl

pub view-pop_back :
    (e : Entry) (es : List Entry) → view (e ∷ es) ≡ (pop_back e es).1 ∷ view (pop_back e es).0
unfolding view pop_back
view-pop_back e [] = refl
view-pop_back e (x ∷ xs) = rw (view-pop_back x xs)

pub view-push_all : (es q : List Entry) → view (push_all es q) ≡ view q ++ es
unfolding view
view-push_all [] q = sym (append-nil (view q))
view-push_all (e ∷ es) q = view-push_all es (e ∷ q) ∙ append_assoc (view q) (e ∷ []) es

-- The loop over the queue as it is kept does what the loop over a first-in-first-out queue does: it
-- runs the same entries with the same outcome, leaves the same entries, and stops as early.
pub resume-view :
    (ts : List Turn) (suspended : Bool) (q : List Entry)
    → let (q', ran, suspended') = resume ts suspended q in
      run_fifo ts suspended (view q) ≡ (view q', ran, suspended')
unfolding resume run_fifo
resume-view [] suspended q = refl
resume-view (t ∷ ts) true q = refl
resume-view (t ∷ ts) false [] =
    ap (run_fifo (t ∷ ts) false) view-nil ∙ ap (λ v. (v, [], false)) (sym view-nil)
resume-view (t ∷ ts) false (e ∷ es) =
    let (rest, last) = pop_back e es in
    let ih = resume-view ts t.suspends (push_all t.pushes rest) in
    rw (view-pop_back e es) (
      ap (λ (x : List Entry × List Ran × Bool). (x.0, ran_of last t ∷ x.1, x.2))
        (ap (run_fifo ts t.suspends) (sym (view-push_all t.pushes rest)) ∙ ih))

run_fifo-order :
    (ts : List Turn) (suspended : Bool) (q : List Entry)
    → let (q', ran, suspended') = run_fifo ts suspended q in
      map (λ r. r.entry) ran ++ q' ≡ q ++ pushed (take (length ran) ts)
unfolding run_fifo
run_fifo-order [] suspended q = sym (append-nil q)
run_fifo-order (t ∷ ts) true q = sym (append-nil q)
run_fifo-order (t ∷ ts) false [] = refl
run_fifo-order (t ∷ ts) false (e ∷ es) =
    ap (◌∷◌ e) (run_fifo-order ts t.suspends (es ++ t.pushes) ∙ append_assoc es t.pushes _)

-- What a worker has run, in order, followed by what is left in the order in which it was pushed, is
-- what the queue held followed by what was pushed meanwhile: nothing is lost, nothing runs twice, and
-- nothing overtakes.
pub resume-order :
    (ts : List Turn) (suspended : Bool) (q : List Entry)
    → let (q', ran, suspended') = resume ts suspended q in
      map (λ r. r.entry) ran ++ view q' ≡ view q ++ pushed (take (length ran) ts)
resume-order ts suspended q =
    subst
      (λ (x : List Entry × List Ran × Bool).
        map (λ r. r.entry) x.1 ++ x.0 ≡ view q ++ pushed (take (length x.1) ts))
      (resume-view ts suspended q) (run_fifo-order ts suspended (view q))
