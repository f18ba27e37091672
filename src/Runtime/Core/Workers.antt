-- ===== src/Runtime/Core/Workers.antt =====
-- src/runtime/core.cc: several workers over the queue of the runtime, in any order of their steps. A step
-- is what a thread does under handle_mutex_, or between two holds of it. A worker whose try_to_lock
-- fails makes no step here.
pub mod Order
pub mod Examples
use xyco.Common.{
  ℕ, Bool, true, false, Option, none, some, List, [], ◌∷◌, ◌++◌, ◌≡◌, ◌⊎◌, ◌==◌, if◌then◌else◌,
}
use xyco.Runtime.Core.{Entry, pop_back}

-- Where a worker is in the loop over the queue: not in it, in it with the mutex, running an entry without
-- the mutex, or about to lock it again.
pub data Phase : Type 0 where
  outside : Phase
  holding : Phase
  running : Entry → Phase
  returning : Phase

-- handles_, the thread that holds handle_mutex_, and each worker with its suspend_flag_.
pub record Workers : Type 0 where
  pub handles : List Entry
  pub owner : Option ℕ
  pub phase : ℕ → Phase
  pub suspended : ℕ → Bool

abbrev pub put_phase : ℕ → Phase → Workers → Workers
put_phase t p w = record w { phase = λ u. if u == t then p else w.phase u }

abbrev pub lock : ℕ → Workers → Workers
lock t w = record (put_phase t holding w) { owner = some t }

abbrev pub unlock : ℕ → Phase → Workers → Workers
unlock t p w = record (put_phase t p w) { owner = none }

-- `back`, `pop_back` and `unlock` on the queue `e ∷ es`.
abbrev pub take_last : ℕ → Entry → List Entry → Workers → Workers
take_last t e es w =
    let (rest, last) = pop_back e es in record (unlock t (running last) w) { handles = rest }

-- `register_future` and `wake`, which hold the mutex for the push only.
abbrev pub push : Entry → Workers → Workers
push e w = record w { handles = e ∷ w.handles }

-- `Worker::suspend`
abbrev pub suspend : ℕ → Workers → Workers
suspend t w = record w { suspended = λ u. if u == t then true else w.suspended u }

-- From `w`, with the entries that were taken, each with its worker, and those that were pushed, in order.
pub data Run (w : Workers) : List (ℕ × Entry) → List Entry → Workers → Type 0 where
  begins : Run w [] [] w
  locks :
      (t : ℕ) (taken : List (ℕ × Entry)) (pushed : List Entry) (v : Workers)
      → Run w taken pushed v
      → (v.phase t ≡ outside) ⊎ (v.phase t ≡ returning)
      → v.owner ≡ none
      → Run w taken pushed (lock t v)
  pops :
      (t : ℕ) (e : Entry) (es : List Entry) (taken : List (ℕ × Entry)) (pushed : List Entry)
      (v : Workers)
      → Run w taken pushed v
      → v.phase t ≡ holding
      → v.suspended t ≡ false
      → v.handles ≡ e ∷ es
      → Run w (taken ++ ((t, (pop_back e es).1) ∷ [])) pushed (take_last t e es v)
  ends :
      (t : ℕ) (e : Entry) (taken : List (ℕ × Entry)) (pushed : List Entry) (v : Workers)
      → Run w taken pushed v
      → v.phase t ≡ running e
      → Run w taken pushed (put_phase t returning v)
  leaves :
      (t : ℕ) (taken : List (ℕ × Entry)) (pushed : List Entry) (v : Workers)
      → Run w taken pushed v
      → v.phase t ≡ holding
      → (v.suspended t ≡ true) ⊎ (v.handles ≡ [])
      → Run w taken pushed (unlock t outside v)
  pushes :
      (e : Entry) (taken : List (ℕ × Entry)) (pushed : List Entry) (v : Workers)
      → Run w taken pushed v
      → v.owner ≡ none
      → Run w taken (pushed ++ (e ∷ [])) (push e v)
  suspends :
      (t : ℕ) (taken : List (ℕ × Entry)) (pushed : List Entry) (v : Workers)
      → Run w taken pushed v
      → Run w taken pushed (suspend t v)
