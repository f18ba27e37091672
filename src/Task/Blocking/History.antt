-- ===== src/Task/Blocking/History.antt =====
-- What becomes of the calls that are registered.
use xyco.Common.{
  ℕ, zero, suc, ◌+◌, ◌≤◌, ◌≡◌, refl, true, false, Option, none, some, List, [], ◌∷◌, ◌++◌, arith,
  ◌==◌, if◌then◌else◌, replicate, subst, sym,
}
use xyco.Task.Blocking.Pool.{spawn-least}
use xyco.Task.Blocking.{
  Event, Registry, returned_events, select, register, run_task, spawn, pop_task, finish, new,
}
use xyco.Task.Blocking.Counts.{
  queued, count, queued-push_task, count-append, count-select, count-finish_event, queued-pop_task,
  single,
}

-- A call that is registered `asked` times, once at most: where its event is, it has not returned just
-- where it is in a queue, and what was handed out has returned.
abbrev pub Kept : ℕ → ℕ → Registry → List Event → Type 0
Kept t asked r due =
    (queued t r.workers ≡ count false t r.events)
    × (count false t r.events + count true t r.events + count true t due ≡ asked)
    × (count false t due ≡ 0)

-- A call is registered, a worker runs the front task of its queue, or the registry is asked.
pub data Op : Type 0 where
  registers : (id : ℕ) → Op
  runs : (worker result : ℕ) → Op
  selects : Op

abbrev pub fresh : ℕ → Event
fresh id = record { id = id; after_extra = none }

abbrev and_due : List Event → Option Registry → Option (Registry × List Event)
and_due due none = none
and_due due (some r) = some (r, due)

abbrev pub step : Op → Registry → List Event → Option (Registry × List Event)
step (registers id) r due = and_due due (register (fresh id) r)
step (runs i result) r due = some (run_task i result r, due)
step selects r due = some (select due r)

unfoldable pub run : List Op → Registry → List Event → Option (Registry × List Event)
run [] r due = some (r, due)
run (op ∷ ops) r due = elim (step op r due) [ none ↦ none | some (r', due') ↦ run ops r' due' ]

abbrev pub asked : ℕ → List Op → ℕ
asked t [] = 0
asked t (registers id ∷ ops) = (if id == t then 1 else 0) + asked t ops
asked t (runs i result ∷ ops) = asked t ops
asked t (selects ∷ ops) = asked t ops

-- What results, if anything does.
abbrev Keeps : ℕ → ℕ → Option (Registry × List Event) → Type 0
Keeps t n none = Unit
Keeps t n (some (r, due)) = Kept t n r due

count-fresh :
    (t id : ℕ) (es : List Event)
    → (count false t (es ++ (fresh id ∷ [])) ≡ count false t es + (if id == t then 1 else 0))
      × (count true t (es ++ (fresh id ∷ [])) ≡ count true t es)
count-fresh t id [] = (omega arith, ground arith)
count-fresh t id (e ∷ es) = let (a, b) = count-fresh t id es in (omega (arith, a), omega (arith, b))

no_workers : (id : ℕ) (r : Registry) → r.workers ≡ [] → register (fresh id) r ≡ none
unfolding register spawn
no_workers id r e = rw e refl

register-Keeps :
    (t n id : ℕ) (events : List Event) (workers : List (List ℕ)) (due : List Event)
    → Kept t n (record { events = events; workers = workers }) due
    → Keeps t
        (n + (if id == t then 1 else 0))
        (and_due due (register (fresh id) (record { events = events; workers = workers })))
unfolding register
register-Keeps t n id events [] due k =
    subst (λ o. Keeps t (n + (if id == t then 1 else 0)) (and_due due o))
      (sym (no_workers id (record { events = events; workers = [] }) refl)) tt
register-Keeps t n id events (w ∷ ws) due (q, c, d) =
    let (i, s, l, u) = spawn-least id w ws in
    let (a, b) = count-fresh t id events in
    rw s (omega (arith, q, a, queued-push_task t i id (w ∷ ws) l), omega (arith, c, a, b), d)

finish-Kept :
    (t n result : ℕ) (o : Option ℕ) (ws : List (List ℕ)) (r : Registry) (due : List Event)
    → n ≤ 1
    → single t o + queued t ws ≡ queued t r.workers
    → Kept t n r due
    → Kept t n (record { events = finish o result r.events; workers = ws }) due
finish-Kept t n result none ws r due l p (q, c, d) = (omega (arith, p, q), c, d)
finish-Kept t n result (some x) ws r due l p (q, c, d) =
    let (a, b) = count-finish_event t x result r.events in
    (ground (arith, a, p, q, c), ground (arith, a, b, c), d)

select-Kept :
    (t n : ℕ) (r : Registry) (due : List Event)
    → Kept t n r due
    → Kept t n (select due r).0 (select due r).1
unfolding select
select-Kept t n r due (q, c, d) =
    let (a, b, e, f) = count-select t r.events in
    (
      omega (arith, q, a),
      omega (arith, c, a, b, e, count-append true t due (returned_events r.events)),
      omega (arith, d, f, count-append false t due (returned_events r.events)),
    )

step-Keeps :
    (t n : ℕ) (op : Op) (r : Registry) (due : List Event)
    → n + asked t (op ∷ []) ≤ 1
    → Kept t n r due
    → Keeps t (n + asked t (op ∷ [])) (step op r due)
unfolding run_task
step-Keeps t n (registers id) r due l k =
    subst (λ m. Keeps t (n + m) (step (registers id) r due)) (omega arith)
      (register-Keeps t n id r.events r.workers due k)
step-Keeps t n (runs i result) r due l k =
    subst (λ m. Kept t m (run_task i result r) due) (omega arith)
      (finish-Kept t n result (pop_task i r.workers).0 (pop_task i r.workers).1 r due
        (omega (arith, l)) (queued-pop_task t i r.workers) k)
step-Keeps t n selects r due l k =
    subst (λ m. Kept t m (select due r).0 (select due r).1) (omega arith) (select-Kept t n r due k)

asked-cons :
    (t : ℕ) (op : Op) (ops : List Op) → asked t (op ∷ ops) ≡ asked t (op ∷ []) + asked t ops
asked-cons t (registers id) ops = omega arith
asked-cons t (runs i result) ops = omega arith
asked-cons t selects ops = omega arith

run-Keeps :
    (t n : ℕ) (ops : List Op) (r : Registry) (due : List Event)
    → n + asked t ops ≤ 1
    → Kept t n r due
    → Keeps t (n + asked t ops) (run ops r due)
unfolding run
run-Keeps t n [] r due l k = subst (λ m. Kept t m r due) (omega arith) k
run-Keeps t n (op ∷ ops) r due l k =
    rest (step op r due) (step-Keeps t n op r due (omega (arith, l, asked-cons t op ops)) k)
      (λ r' due' k'.
        run-Keeps t (n + asked t (op ∷ [])) ops r' due' (omega (arith, l, asked-cons t op ops)) k')
  where
    rest :
        (o : Option (Registry × List Event))
        → Keeps t (n + asked t (op ∷ [])) o
        → ((r' : Registry) (due' : List Event)
            → Kept t (n + asked t (op ∷ [])) r' due'
            → Keeps t (n + asked t (op ∷ []) + asked t ops) (run ops r' due'))
        → Keeps t (n + asked t (op ∷ ops)) (elim o as (λ _. Option (Registry × List Event)) [
          | none ↦ none
          | some (r', due') ↦ run ops r' due'
        ])
    rest none k h = tt
    rest (some (r', due')) k h =
        subst (λ m. Keeps t m (run ops r' due')) (omega (arith, asked-cons t op ops)) (h r' due' k)

queued-replicate : (t n : ℕ) → queued t (replicate n []) ≡ 0
queued-replicate t zero = refl
queued-replicate t (suc n) = omega (arith, queued-replicate t n)

-- In every history of a new registry in which a call is registered at most once, whatever else is
-- registered and whichever workers run in which order: its event has not returned just where the call
-- is in one queue, once; it is kept or was handed out, and not both, where it was registered; and it
-- is not handed out before it has returned.
pub run-Kept :
    (worker_num t : ℕ) (ops : List Op) (r : Registry) (due : List Event)
    → asked t ops ≤ 1
    → run ops (new worker_num) [] ≡ some (r, due)
    → Kept t (asked t ops) r due
unfolding new
run-Kept worker_num t ops r due l e =
    subst (λ m. Kept t m r due) (omega arith)
      (subst (Keeps t (0 + asked t ops)) e (
        run-Keeps t 0 ops (new worker_num) [] (omega (arith, l))
          (queued-replicate t worker_num, refl, refl)))
