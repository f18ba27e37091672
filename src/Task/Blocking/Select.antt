-- ===== src/Task/Blocking/Select.antt =====
-- What `select` hands out.
use xyco.Common.{ℕ, ◌+◌, ◌≡◌, refl, Bool, true, false, List, [], ◌∷◌, arith, Bool-cases, inl, inr}
use xyco.Task.Blocking.{Event, Registry, has_returned, pending_events, returned_events, select}

-- The sum of a weight of events: with the weight that is 1 for one event and 0 for the others, how
-- often it is there.
pub weight : (Event → ℕ) → List Event → ℕ
weight f [] = 0
weight f (e ∷ es) = f e + weight f es

abbrev pub AllReturned : Bool → List Event → Type 0
AllReturned b [] = Unit
AllReturned b (e ∷ es) = (has_returned e.after_extra ≡ b) × AllReturned b es

pending-AllReturned : (es : List Event) → AllReturned false (pending_events es)
unfolding pending_events
pending-AllReturned [] = tt
pending-AllReturned (e ∷ es) = elim (Bool-cases (has_returned e.after_extra)) [
  | inl h ↦ rw h (pending-AllReturned es)
  | inr h ↦ rw h (h, pending-AllReturned es)
]

returned-AllReturned : (es : List Event) → AllReturned true (returned_events es)
unfolding returned_events
returned-AllReturned [] = tt
returned-AllReturned (e ∷ es) = elim (Bool-cases (has_returned e.after_extra)) [
  | inl h ↦ rw h (h, returned-AllReturned es)
  | inr h ↦ rw h (returned-AllReturned es)
]

weight-parts :
    (f : Event → ℕ) (es : List Event)
    → weight f (pending_events es) + weight f (returned_events es) ≡ weight f es
unfolding weight pending_events returned_events
weight-parts f [] = refl
weight-parts f (e ∷ es) = ground (arith, weight-parts f es)

-- `select` hands out exactly the registered events whose call has returned, each once, and keeps the
-- others, each once, for every weight of events.
pub select-parts :
    (f : Event → ℕ) (r : Registry)
    → let (r', due) = select [] r in
      AllReturned true due
      × AllReturned false r'.events
      × (weight f due + weight f r'.events ≡ weight f r.events)
unfolding select
select-parts f r = (
  returned-AllReturned r.events,
  pending-AllReturned r.events,
  omega (arith, weight-parts f r.events),
)
