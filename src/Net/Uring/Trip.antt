-- ===== src/Net/Uring/Trip.antt =====
-- From the poll that submits a request to the poll that returns its result.
use xyco.Common.{
  ◌+◌, negsuc, pos, ℕ, ℤ, ◌≡◌, refl, true, false, not, Option, none, some, [], ◌∷◌, ◌++◌, ◌==◌,
  arith, Bool-cases, inl, inr, ap, subst, Poll, ready, pending, OnPending, OnPending-if,
}
use xyco.Utils.Error.{Result, ok, transform}
use xyco.Io.Uring.{
  submit, Registry, IoExtra, request, select, gives, of_event, register, update, complete,
}
use xyco.Io.Uring.Listed.{IsListed}
use xyco.Io.Uring.Trip.{Submitted, Ends, register-Submitted, select-Submitted}
use xyco.Runtime.Core.{Core, entry_of, wake}
use xyco.Runtime.Core.Fifo.{view}
use xyco.Runtime.Core.Wake.{wake-Bound, is_among}
use xyco.Net.Uring.{err, Reactor, Slots, submit_or_finish, result_of, set_extra, bind_future, pend}

-- The future waits for the completion of a request, which was submitted at last.
pub record Waits (self event : ℕ) (extra : IoExtra) (r : Reactor) : Type 0 where
  pub bound : r.core.bound event ≡ some self
  pub submitted : Submitted event extra r.registry

pub same : (p : ℕ) → (p == p) ≡ true
same p = ground arith

-- Preparing an extra does not register it.
set_extra-IsListed :
    (prepare : IoExtra → IoExtra) (event : ℕ) (r : Registry)
    → ((x : IoExtra) → (prepare x).registered ≡ x.registered)
    → IsListed r
    → IsListed (update event prepare r)
set_extra-IsListed prepare event r k l e = elim (Bool-cases (e == event)) [
  | inl g ↦ rw (g, k) (l e)
  | inr g ↦ rw g (l e)
]

pend-Waits :
    (A : Type 0) (self event : ℕ) (first second : Option ℕ) (r : Reactor)
    → r.core.bound event ≡ some self
    → IsListed r.registry
    → OnPending {A = A}
        (Waits self event (r.registry.extras event))
        (pend r (register first second event r.registry))
unfolding register
pend-Waits A self event none none r b l = tt
pend-Waits A self event none (some s) r b l = record {
  bound = b;
  submitted = register-Submitted s event (record (r.registry) { ring = submit r.registry.ring }) l;
}
pend-Waits A self event (some s) second r b l = record {
  bound = b;
  submitted = register-Submitted s event r.registry l;
}

pub submit_or_finish-Waits :
    (A : Type 0) (prepare : IoExtra → IoExtra) (finish : ℤ → A) (self event : ℕ) (slots : Slots)
    → (r : Reactor) → ((x : IoExtra) → (prepare x).registered ≡ x.registered)
    → IsListed r.registry
    → OnPending
        (Waits self event (prepare (r.registry.extras event)))
        (submit_or_finish prepare finish self event slots r)
submit_or_finish-Waits A prepare finish self event slots r k l =
    OnPending-if _ W (not (r.registry.extras event).completed) _ _
      (λ u.
        subst (λ x. OnPending (Waits self event x) polled) (rw (same event) refl)
          (pend-Waits _ self event slots.first slots.second submitted (rw (same event) refl)
            (set_extra-IsListed prepare event r.registry k l)))
      (λ u. tt)
  where
    W : Reactor → Type 0
    W = Waits self event (prepare (r.registry.extras event))

    submitted : Reactor
    submitted = set_extra event prepare (bind_future event self r)

    polled : Option (Reactor × Poll (Result A))
    polled = pend submitted (register slots.first slots.second event submitted.registry)

-- What a future returns for the result of its request, as io_uring reports it: a number that is
-- not negative, or the negative of an errno.
abbrev pub outcome : {A : Type 0} → (ℤ → A) → ℤ → Result A
outcome finish (pos n) = ok (finish (pos n))
outcome finish (negsuc n) = err (record { errno = pos (n + 1); info = "" })

outcome-result_of :
    (A : Type 0) (finish : ℤ → A) (res : ℤ) → transform finish (result_of res) ≡ outcome finish res
outcome-result_of A finish (pos n) = refl
outcome-result_of A finish (negsuc n) =
    ap (λ m. err (record { errno = pos m; info = "" })) (omega arith)

pub submit_or_finish-finishes :
    (A : Type 0) (prepare : IoExtra → IoExtra) (finish : ℤ → A) (self event : ℕ) (slots : Slots)
    → (res : ℤ) (extra : IoExtra) (r : Reactor) → r.registry.extras event ≡ complete res extra
    → submit_or_finish prepare finish self event slots r
      ≡ some (set_extra event (λ x. record x { completed = false }) r, ready (outcome finish res))
submit_or_finish-finishes A prepare finish self event slots res extra r e =
    rw (ap (λ x. x.completed) e, ap (λ x. x.return_value) e)
      (ap (λ y. some (set_extra event (λ x. record x { completed = false }) r, ready y))
        (outcome-result_of A finish res))

-- A future whose poll suspends, where the registered events are those whose flag is set, has
-- submitted its own request last, with its event. When that completes with a result, `select` and
-- `wake` queue the future, and no other, and leave its event unbound; its next poll returns that
-- result, a negative one as the errno that it stands for, and clears the flag.
pub submit_or_finish-wakes :
    (A : Type 0) (prepare : IoExtra → IoExtra) (finish : ℤ → A) (get_handle : ℕ → Option ℕ)
    → (etime ebusy res : ℤ) (self event : ℕ) (slots slots' : Slots) (r r' : Reactor)
    → ((x : IoExtra) → (prepare x).registered ≡ x.registered)
    → IsListed r.registry
    → submit_or_finish prepare finish self event slots r ≡ some (r', pending)
    → let extra = prepare (r.registry.extras event) in
      Ends (request extra.args extra.fd event) r'.registry.ring
      × (registry : Registry) × (core : Core) × (select etime ebusy
            (gives (of_event event res ∷ []))
            r'.registry
            []
          ≡ some (registry, event ∷ [], ok tt))
      × (wake get_handle (event ∷ []) r'.core ≡ some core)
      × (view core.handles ≡ view r'.core.handles ++ (entry_of get_handle self ∷ []))
      × (core.bound event ≡ none)
      × (let woken : Reactor = record { registry = registry; core = core } in
          submit_or_finish prepare finish self event slots' woken
          ≡ some (
            set_extra event (λ x. record x { completed = false }) woken,
            ready (outcome finish res),
          ))
unfolding is_among
submit_or_finish-wakes A prepare finish get_handle etime ebusy res self event slots slots' r r' k l
      e =
    let extra : IoExtra = prepare (r.registry.extras event) in
    let w =
      subst (OnPending (Waits self event extra)) e
        (submit_or_finish-Waits A prepare finish self event slots r k l) in
    let (registry, s, x, u) =
      select-Submitted etime ebusy event res extra r'.registry w.submitted in
    let (core, wakes, v, n) =
      wake-Bound get_handle r'.core (event ∷ []) (self ∷ []) event (w.bound, refl, tt) in
    let woken : Reactor = record { registry = registry; core = core } in
    (
      w.submitted.sends,
      registry,
      core,
      s,
      wakes,
      v,
      rw (same event) at n,
      submit_or_finish-finishes A prepare finish self event slots' res extra woken x,
    )
