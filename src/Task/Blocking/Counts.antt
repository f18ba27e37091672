-- ===== src/Task/Blocking/Counts.antt =====
-- How often a call is in the queues of the workers and among events.
use xyco.Common.{
  ℕ, zero, suc, ◌+◌, ◌<◌, length, ◌≡◌, refl, Bool, true, false, Option, none, some, List, [], ◌∷◌,
  ◌++◌, arith, ◌==◌, if◌then◌else◌, map,
}
use xyco.Task.Blocking.{
  Event, has_returned, pending_events, returned_events, push_task, pop_task, finish_event,
}

-- How often a call is in a queue, and in all queues.
abbrev queued_in : ℕ → List ℕ → ℕ
queued_in t [] = 0
queued_in t (x ∷ xs) = (if x == t then 1 else 0) + queued_in t xs

abbrev pub queued : ℕ → List (List ℕ) → ℕ
queued t [] = 0
queued t (w ∷ ws) = queued_in t w + queued t ws

-- How often it is among events, as one that has returned or not.
abbrev pub count : Bool → ℕ → List Event → ℕ
count b t [] = 0
count b t (e ∷ es) =
    (if e.id == t
      then (if has_returned e.after_extra then (if b then 1 else 0) else (if b then 0 else 1))
      else 0)
    + count b t es

queued_in-append :
    (t x : ℕ) (w : List ℕ) → queued_in t (w ++ (x ∷ [])) ≡ queued_in t w + (if x == t then 1 else 0)
queued_in-append t x [] = omega arith
queued_in-append t x (y ∷ w) = omega (arith, queued_in-append t x w)

pub queued-push_task :
    (t i x : ℕ) (ws : List (List ℕ))
    → i < length ws
    → queued t (push_task i x ws) ≡ queued t ws + (if x == t then 1 else 0)
queued-push_task t i x [] h = absurd (omega (arith, h))
queued-push_task t zero x (w ∷ ws) h = omega (arith, queued_in-append t x w)
queued-push_task t (suc i) x (w ∷ ws) h =
    omega (arith, queued-push_task t i x ws (omega (arith, h)))

pub count-append :
    (b : Bool) (t : ℕ) (es fs : List Event) → count b t (es ++ fs) ≡ count b t es + count b t fs
count-append b t [] fs = omega arith
count-append b t (e ∷ es) fs = omega (arith, count-append b t es fs)

pub count-select :
    (t : ℕ) (es : List Event)
    → (count false t (pending_events es) ≡ count false t es)
      × (count true t (pending_events es) ≡ 0)
      × (count true t (returned_events es) ≡ count true t es)
      × (count false t (returned_events es) ≡ 0)
unfolding pending_events returned_events
count-select t [] = (refl, refl, refl, refl)
count-select t (e ∷ es) =
    let (a, b, c, d) = count-select t es in
    (ground (arith, a), ground (arith, b), ground (arith, c), ground (arith, d))

-- The call `x` returns: its events have returned then, and the others are as they were.
pub count-finish_event :
    (t x result : ℕ) (es : List Event)
    → (count false t (map (finish_event x result) es) ≡ (if x == t then 0 else count false t es))
      × (count true t (map (finish_event x result) es)
          ≡ (if x == t then count true t es + count false t es else count true t es))
count-finish_event t x result [] = (ground arith, ground arith)
count-finish_event t x result (e ∷ es) =
    let (a, b) = count-finish_event t x result es in (ground (arith, a), ground (arith, a, b))

-- A task is taken off the front of a queue.
abbrev pub single : ℕ → Option ℕ → ℕ
single t none = 0
single t (some x) = if x == t then 1 else 0

pub queued-pop_task :
    (t i : ℕ) (ws : List (List ℕ))
    → single t (pop_task i ws).0 + queued t (pop_task i ws).1 ≡ queued t ws
queued-pop_task t i [] = refl
queued-pop_task t zero ([] ∷ ws) = omega arith
queued-pop_task t zero ((x ∷ xs) ∷ ws) = omega arith
queued-pop_task t (suc i) (w ∷ ws) = omega (arith, queued-pop_task t i ws)
