-- ===== src/Runtime/Core.antt =====
-- src/runtime/core.cc and src/runtime/driver.cc: the queues of futures to poll, the loop of a worker
-- and the wake-ups. Futures, coroutine handles, events and threads are named by numbers.
-- In a result, `none` is a null pointer or the end of a container that is used.
pub mod Fifo
pub mod Wake
pub mod Launch
pub mod Workers
pub mod Round
pub mod Drains
pub mod Examples
use xyco.Common.{
  length, take, map, ℕ, Bool, true, false, ◌||◌, Option, none, some, List, [], ◌∷◌, ◌++◌, ◌==◌,
  if◌then◌else◌,
}
use xyco.Utils.Error.{Result, ok, err}

-- A pair of `handles_`: without a future it is a spawned coroutine that has not begun.
pub record Entry : Type 0 where
  pub handle : Option ℕ
  pub future : Option ℕ

-- RuntimeCore::handles_, Worker::handles_ of the threads that have a worker in workers_, and
-- `future_` of the events.
pub record Core : Type 0 where
  pub handles : List Entry
  pub local_handles : ℕ → Option (List Entry)
  pub bound : ℕ → Option ℕ

-- `handles_.emplace(handles_.begin(), …)`
abbrev pub push_entry : Entry → Core → Core
push_entry e c = record c { handles = e ∷ c.handles }

-- spawn_impl, with the handle of the wrapped future.
pub spawn : Option ℕ → Core → Core
spawn none c = c
spawn (some h) c = push_entry (record { handle = some h; future = none }) c

abbrev pub unbind : ℕ → Core → Core
unbind event c = record c { bound = λ e. if e == event then none else c.bound e }

abbrev pub with_local : ℕ → List Entry → Core → Core
with_local thread es c = record c {
  local_handles = λ t. if t == thread then some es else c.local_handles t;
}

module _ (get_handle : ℕ → Option ℕ) where
  abbrev pub entry_of : ℕ → Entry
  entry_of future = record { handle = get_handle future; future = some future }

  pub register_future : ℕ → Core → Core
  register_future future c = push_entry (entry_of future) c

  abbrev pub wake_bound : ℕ → Option ℕ → Core → Option Core
  wake_bound event none c = none
  wake_bound event (some future) c = some (push_entry (entry_of future) (unbind event c))

  unfoldable pub wake : List ℕ → Core → Option Core
  wake [] c = some c
  wake (event ∷ events) c = elim (wake_bound event (c.bound event) c) [
    | none ↦ none
    | some c' ↦ wake events c'
  ]

  -- The loop of `wake_local` over the events, with the local queue of the thread.
  abbrev pub wake_local_bound : ℕ → ℕ → Option ℕ → Option (List Entry) → Core → Option Core
  wake_local_bound thread event none es c = none
  wake_local_bound thread event (some future) none c = none
  wake_local_bound thread event (some future) (some es) c =
      some (with_local thread (entry_of future ∷ es) (unbind event c))

  pub wake_local : ℕ → List ℕ → Core → Option Core
  wake_local thread [] c = some c
  wake_local thread (event ∷ events) c =
      elim (wake_local_bound thread event (c.bound event) (c.local_handles thread) c) [
        | none ↦ none
        | some c' ↦ wake_local thread events c'
      ]

  -- Driver::poll: what each registry of the thread answers to `select`.
  abbrev pub wake_selected : Result (List ℕ) → Core → Option Core
  wake_selected (err e) c = none
  wake_selected (ok events) c = wake events c

  pub poll_driver : List (Result (List ℕ)) → Core → Option Core
  poll_driver [] c = some c
  poll_driver (selected ∷ rest) c = elim (wake_selected selected c) [
    | none ↦ none
    | some c' ↦ poll_driver rest c'
  ]

-- `back` and `pop_back`
unfoldable pub pop_back : Entry → List Entry → List Entry × Entry
pop_back x [] = ([], x)
pop_back x (y ∷ ys) = let (rest, last) = pop_back y ys in (x ∷ rest, last)

-- What happens while one entry is run: what poll_wrapper answers, the entries that are pushed to the
-- queue meanwhile, in order, and whether the worker is suspended.
pub record Turn : Type 0 where
  pub is_done : Bool
  pub pushes : List Entry
  pub suspends : Bool

-- An entry that was run, and whether its coroutine was resumed.
pub record Ran : Type 0 where
  pub entry : Entry
  pub resumed : Bool

abbrev pub is_none : Option ℕ → Bool
is_none none = true
is_none (some _) = false

-- `future == nullptr || future->poll_wrapper()`
abbrev pub ran_of : Entry → Turn → Ran
ran_of e t = record { entry = e; resumed = is_none e.future || t.is_done }

abbrev pub push_all : List Entry → List Entry → List Entry
push_all [] q = q
push_all (e ∷ es) q = push_all es (e ∷ q)

-- `resume` of run_loop_once over one queue whose mutex is free, as far as `turns` goes: what is left
-- of the queue, what ran, and suspend_flag_.
unfoldable pub resume : List Turn → Bool → List Entry → List Entry × List Ran × Bool
resume [] suspended q = (q, [], suspended)
resume (t ∷ ts) true q = (q, [], true)
resume (t ∷ ts) false [] = ([], [], false)
resume (t ∷ ts) false (e ∷ es) =
    let (rest, last) = pop_back e es in
    let (q, ran, suspended) = resume ts t.suspends (push_all t.pushes rest) in
    (q, ran_of last t ∷ ran, suspended)

-- The same turn, as seen by the local queue, to which nothing is pushed meanwhile.
abbrev pub silent : Turn → Turn
silent t = record t { pushes = [] }

-- What the turns that were made pushed, in order.
abbrev pub pushed : List Turn → List Entry
pushed [] = []
pushed (t ∷ ts) = t.pushes ++ pushed ts

-- What a round ends in: the local queue, the runtime, what ran and suspend_flag_.
abbrev pub Round : Type 0
Round = Option (List Entry × Core × List Ran × Bool)

module _ (get_handle : ℕ → Option ℕ) (selected : List (Result (List ℕ))) where
  -- The end of a round, after the loop over the queue of the runtime.
  abbrev pub after_global : List Entry → List Ran → Core → List Entry × List Ran × Bool → Round
  after_global local ran c (handles, ran', suspended) =
      let c' = record c { handles = handles } in
      if suspended
      then some (local, c', ran ++ ran', suspended)
      else elim (poll_driver get_handle selected c') [
        | none ↦ none
        | some c'' ↦ some (local, c'', ran ++ ran', suspended)
      ]

  -- The rest of a round after the loop over the local queue; what was pushed meanwhile went to the
  -- queue of the runtime.
  abbrev pub after_local : List Turn → List Turn → Core → List Entry × List Ran × Bool → Round
  after_local locals globals c (local, ran, suspended) =
      let handles = push_all (pushed (take (length ran) locals)) c.handles in
      if suspended
      then some (local, record c { handles = handles }, ran, suspended)
      else after_global local ran c (resume globals suspended handles)

  -- run_loop_once of a worker with the local queue `local`. There are no turns for a queue whose mutex
  -- is taken, and enough for one whose mutex is free. The futures that the reported events are bound to are
  -- those of `c`: nothing binds or unbinds one of them in between.
  unfoldable pub run_loop_once : List Turn → List Turn → Bool → List Entry → Core → Round
  run_loop_once locals globals suspended local c =
      after_local locals globals c (resume (map silent locals) suspended local)
