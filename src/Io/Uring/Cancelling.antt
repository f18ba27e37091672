-- ===== src/Io/Uring/Cancelling.antt =====
-- What a deregistration submits, and what its completion meets.
use xyco.Common.{
  ℕ, ℤ, ◌≡◌, ◌≢◌, refl, true, false, Option, none, some, List, [], ◌∷◌, ◌++◌, ◌==◌, arith,
  Bool-cases, inl, inr, subst,
}
use xyco.Utils.Error.{ok}
use xyco.Io.Events.{mem, erase_first, weight, weight-erase_first}
use xyco.Io.Uring.{
  Registry, Answer, send, get_sqe, update, deregister, take_completed, cancel, of_event, gives,
  select,
}
use xyco.Io.Uring.Listed.{IsListed, single, single_same, Returns}

-- A deregistration of a registered event, where no slot that was got waits for its submission and
-- io_uring_get_sqe gives two different slots, succeeds and submits two entries: what stood in the
-- first slot before, and then the cancellation of the event in the second.
pub deregister-resubmits :
    (first second e : ℕ) (r : Registry)
    → r.ring.queue ≡ []
    → first ≢ second
    → mem e r.events ≡ true
    → (r' : Registry) × (deregister (some first) (some second) e r ≡ some (r', ok tt))
      × (r'.ring.sent ≡ r.ring.sent ++ (r.ring.slots first ∷ cancel e ∷ []))
unfolding deregister
deregister-resubmits first second e r q n m = (
  update e (λ x. record x { registered = false })
      (record r {
        ring = send second (cancel e) (get_sqe (some second) (get_sqe (some first) r.ring));
        events = erase_first e r.events;
      }),
  rw m refl,
  rw (q, other, same) refl,
)
  where
    other : (first == second) ≡ false
    other = ground (arith, n)

    same : (second == second) ≡ true
    same = ground arith

mem-none : (e : ℕ) (es : List ℕ) → weight (single e) es ≡ 0 → mem e es ≡ false
unfolding mem weight
mem-none e [] h = refl
mem-none e (x ∷ xs) h = elim (Bool-cases (x == e)) [
  | inl g ↦ absurd (omega (arith, (rw g at h)))
  | inr g ↦ rw g (mem-none e xs (omega (arith, (rw g at h))))
]

erased :
    (e : ℕ) (r : Registry)
    → IsListed r
    → mem e r.events ≡ true
    → weight (single e) (erase_first e r.events) ≡ 0
erased e r l m =
    ground (arith, weight-erase_first (single e) e r.events m, l e, single_same e e (ground arith))

deregister-weight :
    (first : Option ℕ) (second e : ℕ) (r : Registry)
    → IsListed r
    → Returns (λ p. weight (single e) p.0.events ≡ 0) (deregister first (some second) e r)
unfolding deregister
deregister-weight first second e r l = elim (Bool-cases (mem e r.events)) [
  | inl m ↦ rw m (erased e r l m)
  | inr m ↦ rw m tt
]

-- Where the registered events are those whose flag is set: after a deregistration of an event that
-- got an entry of the submission queue for its cancellation and returned, a completion of a request
-- with that event uses the end of the vector in `select`.
pub deregister-select :
    (etime ebusy res : ℤ) (first : Option ℕ) (second e : ℕ) (r r' : Registry) (a : Answer)
    → IsListed r
    → deregister first (some second) e r ≡ some (r', a)
    → select etime ebusy (gives (of_event e res ∷ [])) r' [] ≡ none
unfolding select take_completed
deregister-select etime ebusy res first second e r r' a l q = rw (
    mem-none e r'.events (
      subst (Returns (λ p. weight (single e) p.0.events ≡ 0)) q
        (deregister-weight first second e r l)))
