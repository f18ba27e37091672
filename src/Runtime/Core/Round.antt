-- ===== src/Runtime/Core/Round.antt =====
-- One round of a worker.
use xyco.Common.{
  ◌≡◌, refl, ap, ◌∙◌, sym, ℕ, Bool, true, false, List, [], ◌∷◌, ◌++◌, map, append_assoc, append-nil,
  length, take, zero, Option, none, some, suc, arith,
}
use xyco.Utils.Error.{Result, ok}
use xyco.Runtime.Core.{
  wake_bound, Entry, Core, Turn, Ran, push_all, resume, pushed, silent, wake, poll_driver,
  run_loop_once, after_global, after_local, entry_of,
}
use xyco.Runtime.Core.Fifo.{view, view-push_all, resume-order}
use xyco.Runtime.Core.Wake.{Bound, wake-Bound}

abbrev pub joined : List (List ℕ) → List ℕ
joined [] = []
joined (es ∷ ess) = es ++ joined ess

regroup :
    (m v h a p g f w : List Entry)
    → m ++ v ≡ h ++ g
    → h ≡ a ++ p
    → w ≡ v ++ f
    → m ++ w ≡ a ++ (p ++ (g ++ f))
regroup m v h a p g f w x y z =
    ap (λ l. m ++ l) z
    ∙ sym (append_assoc m v f)
    ∙ ap (λ l. l ++ f) (x ∙ ap (λ l. l ++ g) y)
    ∙ append_assoc (a ++ p) g f
    ∙ append_assoc a p (g ++ f)

module _ (get_handle : ℕ → Option ℕ) where
  wake_rest : Option Core → List ℕ → Option Core
  wake_rest none es = none
  wake_rest (some c) es = wake get_handle es c

  wake-append :
      (xs ys : List ℕ) (c : Core)
      → wake get_handle (xs ++ ys) c ≡ wake_rest (wake get_handle xs c) ys
  unfolding wake wake_rest
  wake-append [] ys c = refl
  wake-append (x ∷ xs) ys c =
      elim (c.bound x)
        as (λ o.
          elim (wake_bound get_handle x o c) as (λ _. Option Core) [
            | none ↦ none
            | some c' ↦ wake get_handle (xs ++ ys) c'
          ]
          ≡ wake_rest
              (elim (wake_bound get_handle x o c) as (λ _. Option Core) [
                | none ↦ none
                | some c' ↦ wake get_handle xs c'
              ])
              ys) [ none ↦ refl | some f ↦ wake-append xs ys _ ]

  poll_driver-wake :
      (ess : List (List ℕ)) (c : Core)
      → poll_driver get_handle (map ok ess) c ≡ wake get_handle (joined ess) c
  unfolding poll_driver wake_rest wake
  poll_driver-wake [] c = refl
  poll_driver-wake (es ∷ ess) c =
      rest (λ c'. poll_driver-wake ess c') (wake get_handle es c)
      ∙ sym (wake-append es (joined ess) c)
    where
      rest :
          ((c' : Core) → poll_driver get_handle (map ok ess) c' ≡ wake get_handle (joined ess) c')
          → (o : Option Core)
          → (elim o as (λ _. Option Core) [
            | none ↦ none
            | some c' ↦ poll_driver get_handle (map ok ess) c'
          ])
            ≡ wake_rest o (joined ess)
      rest h none = refl
      rest h (some c') = h c'

  pushed-silent : (n : ℕ) (ts : List Turn) → pushed (take n (map silent ts)) ≡ []
  pushed-silent zero ts = refl
  pushed-silent (suc n) [] = refl
  pushed-silent (suc n) (t ∷ ts) = pushed-silent n ts

  after_global-polls :
      (selected : List (Result (List ℕ))) (local handles : List Entry) (ran ran' : List Ran)
      (c c' : Core)
      → (suspended : Bool) → suspended ≡ false
      → poll_driver get_handle selected (record c { handles = handles }) ≡ some c'
      → after_global get_handle selected local ran c (handles, ran', suspended)
        ≡ some (local, c', ran ++ ran', false)
  after_global-polls selected local handles ran ran' c c' false s w = rw w refl
  after_global-polls selected local handles ran ran' c c' true s w = absurd (ground arith)

  after_local-goes_on :
      (selected : List (Result (List ℕ))) (locals globals : List Turn) (local : List Entry)
      → (ran : List Ran) (c : Core) (suspended : Bool) → suspended ≡ false
      → after_local get_handle selected locals globals c (local, ran, suspended)
        ≡ after_global get_handle selected local ran c
            (resume globals false (push_all (pushed (take (length ran) locals)) c.handles))
  after_local-goes_on selected locals globals local ran c false s = refl
  after_local-goes_on selected locals globals local ran c true s = absurd (ground arith)

  -- In a round in which the worker is not suspended, and after which the registries report events that
  -- each have a future and none of which is there twice: what ran from the local queue, and then what
  -- is left of it, is what that queue held; and what ran from the queue of the runtime, and then what
  -- it holds after the round, is what it held before, what the entries that ran locally and then those
  -- that ran from it pushed, and the futures of the events, all in order.
  pub run_loop_once-order :
      (locals globals : List Turn) (ess : List (List ℕ)) (fs : List ℕ) (local : List Entry)
      (c : Core)
      → Bound c.bound (joined ess) fs
      → (let (local', ran, stops) = resume (map silent locals) false local in stops ≡ false)
      → (let (local', ran, stops) = resume (map silent locals) false local in
          let (handles', ran', stops') =
            resume globals false (push_all (pushed (take (length ran) locals)) c.handles) in
          stops' ≡ false)
      → (local' : List Entry) × (c' : Core) × (ran : List Ran) × (ran' : List Ran) × (run_loop_once
            get_handle
            (map ok ess)
            locals
            globals
            false
            local
            c
          ≡ some (local', c', ran ++ ran', false))
        × (map (λ r. r.entry) ran ++ view local' ≡ view local)
        × (map (λ r. r.entry) ran' ++ view c'.handles
            ≡ view c.handles
              ++ (pushed (take (length ran) locals)
                  ++ (pushed (take (length ran') globals) ++ map (entry_of get_handle) fs)))
  unfolding run_loop_once
  run_loop_once-order locals globals ess fs local c b s s' =
      let (local', ran, stops) = resume (map silent locals) false local in
      let pushes = pushed (take (length ran) locals) in
      let (handles', ran', stops') = resume globals false (push_all pushes c.handles) in
      let mid : Core = record c { handles = handles' } in
      let (c', w, v, n) = wake-Bound get_handle mid (joined ess) fs 0 b in
      (
        local',
        c',
        ran,
        ran',
        after_local-goes_on (map ok ess) locals globals local' ran c stops s
            ∙ after_global-polls (map ok ess) local' handles' ran ran' c c' stops' s'
                (poll_driver-wake ess mid ∙ w),
        resume-order (map silent locals) false local
            ∙ ap (λ l. view local ++ l) (pushed-silent (length ran) locals)
            ∙ append-nil (view local),
        regroup (map (λ r. r.entry) ran') (view handles') (view (push_all pushes c.handles))
            (view c.handles) pushes (pushed (take (length ran') globals))
            (map (entry_of get_handle) fs) (view c'.handles)
            (resume-order globals false (push_all pushes c.handles))
            (view-push_all pushes c.handles) v,
      )
