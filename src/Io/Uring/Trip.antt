-- ===== src/Io/Uring/Trip.antt =====
-- A request that is submitted, and its completion.
use xyco.Common.{
  ℕ, ℤ, ◌≡◌, refl, true, some, List, [], ◌∷◌, ◌++◌, ◌==◌, map, arith, if◌then◌else◌, Bool-cases,
  inl, inr, ap, sym, ◌∙◌, subst, append_assoc,
}
use xyco.Utils.Error.{ok}
use xyco.Io.Events.{mem, erase_first, weight, mem-push}
use xyco.Io.Uring.{
  Registry, IoExtra, Sqe, request, request_of, Ring, take_completed, list_event, send, get_sqe,
  update, complete, of_event, gives, select, register_in,
}
use xyco.Io.Uring.Listed.{IsListed, single}

mem-weight : (e : ℕ) (es : List ℕ) → weight (single e) es ≡ 1 → mem e es ≡ true
unfolding mem weight
mem-weight e [] h = absurd (omega (arith, h))
mem-weight e (x ∷ xs) h = elim (Bool-cases (x == e)) [
  | inl g ↦ rw g refl
  | inr g ↦ rw g (mem-weight e xs (omega (arith, (rw g at h))))
]

flagged :
    (e : ℕ) (r : Registry)
    → IsListed r
    → (r.extras e).registered ≡ true
    → weight (single e) r.events ≡ 1
flagged e r l h = ground (arith, l e)

list_event-mem : (e : ℕ) (r : Registry) → IsListed r → mem e (list_event e r).events ≡ true
list_event-mem e r l = elim (Bool-cases (r.extras e).registered) [
  | inl h ↦ rw h (mem-weight e r.events (flagged e r l h))
  | inr h ↦ rw h (mem-push e r.events)
]

-- What the kernel has got at last.
pub Ends : Sqe → Ring → Type 0
Ends sqe ring = (before : List Sqe) × (ring.sent ≡ before ++ (sqe ∷ []))

map-push : (f : ℕ → Sqe) (xs : List ℕ) (s : ℕ) → map f (xs ++ (s ∷ [])) ≡ map f xs ++ (f s ∷ [])
map-push f [] s = refl
map-push f (x ∷ xs) s = ap (λ ys. f x ∷ ys) (map-push f xs s)

send-Ends : (s : ℕ) (sqe : Sqe) (ring : Ring) → Ends sqe (send s sqe (get_sqe (some s) ring))
unfolding Ends
send-Ends s sqe ring = (
  ring.sent ++ map slots ring.queue,
  ap (λ ys. ring.sent ++ ys)
        (map-push slots ring.queue s ∙ ap (λ x. map slots ring.queue ++ (x ∷ [])) (ground arith))
      ∙ sym (append_assoc ring.sent (map slots ring.queue) (sqe ∷ [])),
)
  where
    slots : ℕ → Sqe
    slots t = if t == s then sqe else ring.slots t

list_event-ring : (e : ℕ) (r : Registry) → (list_event e r).ring ≡ r.ring
list_event-ring e r = elim (Bool-cases (r.extras e).registered) [
  | inl h ↦ rw h refl
  | inr h ↦ rw h refl
]

same : (e : ℕ) → (e == e) ≡ true
same e = ground arith

list_event-extra :
    (e : ℕ) (r : Registry) → (list_event e r).extras e ≡ record (r.extras e) { registered = true }
list_event-extra e r = elim (Bool-cases (r.extras e).registered) [
  | inl h ↦ rw h (ap (λ b. record (r.extras e) { registered = b }) h)
  | inr h ↦ rw (h, same e) refl
]

-- What a registration that succeeds leaves: its request is the last that was submitted, and the
-- event is listed.
pub record Submitted (e : ℕ) (extra : IoExtra) (r : Registry) : Type 0 where
  pub sends : Ends (request extra.args extra.fd e) r.ring
  pub lists : mem e r.events ≡ true
  pub keeps : r.extras e ≡ record extra { registered = true }

pub register-Submitted :
    (s : ℕ) (e : ℕ) (r : Registry)
    → IsListed r
    → Submitted e (r.extras e) (register_in (some s) e r).0
register-Submitted s e r l = record {
  sends = subst (Ends (request_of e r)) (sym (list_event-ring e sent)) (send-Ends s _ r.ring);
  lists = list_event-mem e sent l;
  keeps = list_event-extra e sent;
}
  where
    sent : Registry
    sent = record r { ring = send s (request_of e r) (get_sqe (some s) r.ring) }

-- The completion of what was submitted.
pub select-Submitted :
    (etime ebusy : ℤ) (e : ℕ) (res : ℤ) (extra : IoExtra) (r : Registry)
    → Submitted e extra r
    → (r' : Registry) × (select etime ebusy (gives (of_event e res ∷ [])) r []
        ≡ some (r', e ∷ [], ok tt))
      × (r'.extras e ≡ complete res extra)
      × (r'.ring ≡ r.ring)
unfolding select take_completed
select-Submitted etime ebusy e res extra r s = (
  update e (complete res) (record r { events = erase_first e r.events }),
  rw (s.lists),
  rw (same e) (ap (complete res) s.keeps),
  refl,
)
