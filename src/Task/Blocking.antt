-- ===== src/Task/Blocking.antt =====
-- include/xyco/task/registry.ccm, src/task/registry.cc, include/xyco/task/blocking_task.ccm: calls that block run on a pool of threads, and
-- the registry hands out their events when they have returned. A task is named by its event's
-- number; a worker is the queue of its tasks, and running one is one step.
pub mod Pool
pub mod Select
pub mod Counts
pub mod History
pub mod Examples
use xyco.Utils.Error.{Result, ok}
use xyco.Common.{
  Poll, ready, pending, ℕ, zero, suc, Bool, true, false, Option, none, some, List, [], ◌∷◌, ◌++◌,
  length, map, ltb, ◌==◌, if◌then◌else◌, replicate,
}

-- An event with its BlockingExtra: `after_extra` is the result of the call, once it has returned.
pub record Event : Type 0 where
  pub id : ℕ
  pub after_extra : Option ℕ

pub record Registry : Type 0 where
  pub events : List Event
  pub workers : List (List ℕ)

pub new : ℕ → Registry
new worker_num = record { events = []; workers = replicate worker_num [] }

-- std::min_element by the number of tasks: `best` at the index `at` is the least so far, and `i` is the
-- index of the next worker.
pub min_from : List ℕ → ℕ → ℕ → List (List ℕ) → ℕ
min_from best at i [] = at
min_from best at i (w ∷ ws) =
    if ltb (length w) (length best) then min_from w i (suc i) ws else min_from best at (suc i) ws

abbrev pub push_task : ℕ → ℕ → List (List ℕ) → List (List ℕ)
push_task i t [] = []
push_task zero t (w ∷ ws) = (w ++ (t ∷ [])) ∷ ws
push_task (suc i) t (w ∷ ws) = w ∷ push_task i t ws

-- Without a worker min_element gives the end, which is used: `none`.
pub spawn : ℕ → List (List ℕ) → Option (List (List ℕ))
spawn t [] = none
spawn t (w ∷ ws) = some (push_task (min_from w 0 1 ws) t (w ∷ ws))

abbrev pub with_workers : List Event → Option (List (List ℕ)) → Option Registry
with_workers events none = none
with_workers events (some ws) = some (record { events = events; workers = ws })

-- The event is kept, and then its task is spawned: no select comes between the two here.
pub register : Event → Registry → Option Registry
register e r = with_workers (r.events ++ (e ∷ [])) (spawn e.id r.workers)

-- The front task of the worker `i` is taken off its queue.
abbrev pub pop_task : ℕ → List (List ℕ) → Option ℕ × List (List ℕ)
pop_task i [] = (none, [])
pop_task zero ([] ∷ ws) = (none, [] ∷ ws)
pop_task zero ((t ∷ ts) ∷ ws) = (some t, ts ∷ ws)
pop_task (suc i) (w ∷ ws) = let (t, ws') = pop_task i ws in (t, w ∷ ws')

abbrev pub finish_event : ℕ → ℕ → Event → Event
finish_event t result e = if e.id == t then record e { after_extra = some result } else e

abbrev pub finish : Option ℕ → ℕ → List Event → List Event
finish none result events = events
finish (some t) result events = map (finish_event t result) events

-- One round of the inner loop of BlockingWorker::run: the call returns `result`.
pub run_task : ℕ → ℕ → Registry → Registry
run_task i result r =
    let (t, ws) = pop_task i r.workers in record { events = finish t result r.events; workers = ws }

abbrev pub has_returned : Option ℕ → Bool
has_returned none = false
has_returned (some _) = true

pub pending_events : List Event → List Event
pending_events [] = []
pending_events (e ∷ es) =
    let rest = pending_events es in if has_returned e.after_extra then rest else e ∷ rest

pub returned_events : List Event → List Event
returned_events [] = []
returned_events (e ∷ es) =
    let rest = returned_events es in if has_returned e.after_extra then e ∷ rest else rest

-- The events that fall due are appended to `events`.
pub select : List Event → Registry → Registry × List Event
select events r =
    (record r { events = pending_events r.events }, events ++ returned_events r.events)

-- utils::Result<void>
abbrev pub Answer : Type 0
Answer = Result Unit

pub reregister : Event → Registry → Registry × Answer
reregister e r = (r, ok tt)

pub deregister : Event → Registry → Registry × Answer
deregister e r = (r, ok tt)

-- BlockingTask, with its event as it is now.
pub record BlockingTask : Type 0 where
  pub is_ready : Bool
  pub event : Event

abbrev pub submitted : BlockingTask → Option Registry → Option (BlockingTask × Registry × Poll ℕ)
submitted task none = none
submitted task (some r) = some (record task { is_ready = true }, r, pending)

-- The result is used without a test.
abbrev pub taken : BlockingTask → Registry → Option ℕ → Option (BlockingTask × Registry × Poll ℕ)
taken task r none = none
taken task r (some result) = some (task, r, ready result)

pub poll : BlockingTask → Registry → Option (BlockingTask × Registry × Poll ℕ)
poll task r =
    if task.is_ready
    then taken task r task.event.after_extra
    else submitted task (register task.event r)
