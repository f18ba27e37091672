-- ===== src/Time/Registry/Due.antt =====
-- When the futures that sleep are handed out: the registry of timers over its whole life, with a clock that
-- selects read at whole milliseconds.
use xyco.Common.{
  ℕ, zero, suc, ◌+◌, ◌*◌, ◌/◌, ◌^◌, ◌<◌, ◌≤◌, ◌≡◌, refl, ap, ◌∙◌, sym, subst, Option, none, some,
  List, [], ◌∷◌, ◌++◌, Option-cases, inl, inr, arith, append-nil,
}
use xyco.Utils.Error.{ok}
use xyco.Time.Wheel.{slot_num, level_num, Event, Wheel, new, insert_event}
use xyco.Time.Wheel.Slots.{new-IsWheel}
use xyco.Time.Wheel.Spread.{All, All-append, All-map}
use xyco.Time.Wheel.Weights.{weight, levels_weight, weight-append}
use xyco.Time.Wheel.Exact.{Every}
use xyco.Time.Wheel.Served.{Served, expire_again, new_weight, made, inserted, expired, expire-exact}
use xyco.Time.Registry.{register, select, poll_sleep, sleep_event}
use xyco.Time.Registry.History.{Op, sleeps, selects, step, run, requested, run-conserves}

-- The clock is at `n` milliseconds after `start` at first, and at `m` at the last select. The first poll of
-- a sleep is at any time.
abbrev pub Paced : ℕ → ℕ → ℕ → ℕ → List Op → Type 0
Paced ticks start n m [] = n ≡ m
Paced ticks start n m (sleeps clock self duration ∷ ops) = Paced ticks start n m ops
Paced ticks start n m (selects clock ∷ ops) =
    (k : ℕ) × (clock ≡ ticks * (start + n + k))
    × (n + k < slot_num ^ level_num)
    × Paced ticks start (n + k) m ops

-- The events that were handed out are due.
abbrev Over : ℕ → ℕ → ℕ → List Event → Type 0
Over ticks start n events = All (λ e. e.expire_time / ticks ≤ start + n) events

abbrev After : ℕ → ℕ → ℕ → Option (Wheel × List Event) → Type 0
After ticks start n none = Unit
After ticks start n (some (w, due)) = Served ticks start n w × Over ticks start n due

sleeps-After :
    (ticks start n clock self duration : ℕ) (w : Wheel) (due : List Event)
    → Served ticks start n w
    → Over ticks start n due
    → After ticks start n (step ticks (sleeps clock self duration) w due)
unfolding poll_sleep register
sleeps-After ticks start n clock self duration w due s o =
    elim (Option-cases (insert_event ticks (sleep_event ticks clock self duration) w)) [
      | inl z ↦ rw z tt
      | inr (w', e) ↦ rw e (inserted n _ w w' s e, o)
    ]

Over-later :
    (ticks start n k : ℕ) (due : List Event) → Over ticks start n due → Over ticks start (n + k) due
Over-later ticks start n k due o =
    All-map (λ e. e.expire_time / ticks ≤ start + n) (λ e. e.expire_time / ticks ≤ start + (n + k))
      due (λ e x. omega (arith, x)) o

selects-After :
    (ticks start n k : ℕ) (w : Wheel) (due : List Event)
    → 0 < ticks
    → n + k < slot_num ^ level_num
    → Served ticks start n w
    → Over ticks start n due
    → After ticks start (n + k) (step ticks (selects (ticks * (start + n + k))) w due)
unfolding select
selects-After ticks start n zero w due t b s o = rw (expire_again ticks start n w t s) (
  subst (λ m. Served ticks start m w) (omega arith) s,
  rw (append-nil due) (Over-later ticks start n zero due o),
)
selects-After ticks start n (suc k) w due t b s o =
    let (w', events, e, x, y, z) =
      expire-exact (λ _. 0) ticks start n (suc k) w t (omega arith) b s in
    rw e (
      expired n (suc k) w w' events (omega arith) (omega (arith, b)) s e,
      All-append _ due events (Over-later ticks start n (suc k) due o) (
          All-map (λ e. e.expire_time / ticks ≤ start + n + suc k)
            (λ e. e.expire_time / ticks ≤ start + (n + suc k)) events (λ e z. omega (arith, z)) x),
    )

-- Along a history that starts at `n` milliseconds.
run-After :
    (ticks start n m : ℕ) (ops : List Op) (w : Wheel) (due : List Event)
    → 0 < ticks
    → Paced ticks start n m ops
    → Served ticks start n w
    → Over ticks start n due
    → After ticks start m (run ticks ops w due)
unfolding run
run-After ticks start n m [] w due t p s o = rw (← p) (s, o)
run-After ticks start n m (sleeps clock self duration ∷ ops) w due t p s o =
    elim (Option-cases (step ticks (sleeps clock self duration) w due)) [
      | inl z ↦ rw (z, run) tt
      | inr ((w', due'), e) ↦
          let (s', o') =
            subst (After ticks start n) e
              (sleeps-After ticks start n clock self duration w due s o) in
          rw (e, run) (run-After ticks start n m ops w' due' t p s' o')
    ]
run-After ticks start n m (selects clock ∷ ops) w due t (k, c, b, p) s o =
    elim (Option-cases (step ticks (selects clock) w due)) [
      | inl z ↦ rw (z, run) tt
      | inr ((w', due'), e) ↦
          let (s', o') =
            subst (After ticks start (n + k)) (ap (λ x. step ticks (selects x) w due) (sym c) ∙ e)
              (selects-After ticks start n k w due t b s o) in
          rw (e, run) (run-After ticks start (n + k) m ops w' due' t p s' o')
    ]

-- From a registry made at a whole millisecond, after any first polls of sleeps, at any times, and any
-- selects at whole milliseconds, none of which throws: a select at a later millisecond, fewer than 60 to
-- the power 5 after the start, answers with success. The sleeps handed out until then, by it or before,
-- are those whose time, that of the poll and the duration, is over, in whole milliseconds, and the
-- wheel holds those whose time is not: each sleep is one or the other, once, for every weight of events.
pub run-select :
    (f : Event → ℕ) (ticks start n k : ℕ) (ops : List Op) (w : Wheel) (due : List Event)
    → 0 < ticks
    → 0 < k
    → n + k < slot_num ^ level_num
    → Paced ticks start 0 n ops
    → run ticks ops (new (ticks * start)) [] ≡ some (w, due)
    → (w' : Wheel) × (events : List Event) × (select ticks (ticks * (start + n + k)) w []
        ≡ some ((w', events), ok tt))
      × All (λ e. e.expire_time / ticks ≤ start + n + k) (due ++ events)
      × Every (λ e. start + n + k < e.expire_time / ticks) w'.levels
      × (levels_weight f w'.levels + weight f (due ++ events) ≡ weight f (requested ticks ops))
unfolding select
run-select f ticks start n k ops w due t p b c r =
    let (s, o) =
      subst (After ticks start n) r
        (run-After ticks start 0 n ops (new (ticks * start)) [] t c made tt) in
    let (w', events, e, x, y, z) = expire-exact f ticks start n k w t p b s in
    let (h, q) =
      run-conserves f ticks ops (new (ticks * start)) w [] due (new-IsWheel (ticks * start)) r in
    (
      w',
      events,
      rw e refl,
      All-append _ due events
          (All-map (λ e. e.expire_time / ticks ≤ start + n)
            (λ e. e.expire_time / ticks ≤ start + n + k) due (λ e v. omega (arith, v)) o)
          x,
      y,
      omega (arith, z, q, weight-append f due events, new_weight f (ticks * start)),
    )
