-- ===== src/Time/Registry/History.antt =====
-- What becomes of the futures that sleep.
use xyco.Common.{
  ℕ, ◌+◌, ◌*◌, ◌++◌, ◌≡◌, Option, none, some, List, [], ◌∷◌, arith, false, Option-cases, inl, inr,
  Poll, subst,
}
use xyco.Time.Wheel.{Event, Wheel, insert_event, expire}
use xyco.Time.Wheel.Slots.{IsWheel}
use xyco.Time.Wheel.Weights.{weight, levels_weight, weight-append}
use xyco.Time.Wheel.Conserved.{insert_event-conserves, expire-conserves}
use xyco.Time.Registry.{Answer, Sleep, register, select, poll_sleep, sleep_event}

-- The first poll of a sleep, and a select, each at a time of the clock.
pub data Op : Type 0 where
  sleeps : (clock self duration : ℕ) → Op
  selects : (clock : ℕ) → Op

-- The wheel and the events that were handed out, each select with a list of its own.
abbrev slept : List Event → Option (Sleep × Wheel × Poll (Unit {0})) → Option (Wheel × List Event)
slept due none = none
slept due (some (s, w, p)) = some (w, due)

abbrev selected : List Event → Option ((Wheel × List Event) × Answer) → Option (Wheel × List Event)
selected due none = none
selected due (some ((w, events), a)) = some (w, due ++ events)

module _ (ticks : ℕ) where
  abbrev pub step : Op → Wheel → List Event → Option (Wheel × List Event)
  step (sleeps clock self duration) w due =
      slept due (poll_sleep ticks clock self (record { is_ready = false; duration = duration }) w)
  step (selects clock) w due = selected due (select ticks clock w [])

  unfoldable pub run : List Op → Wheel → List Event → Option (Wheel × List Event)
  run [] w due = some (w, due)
  run (op ∷ ops) w due = elim (step op w due) [ none ↦ none | some (w', due') ↦ run ops w' due' ]

  -- What the sleeps ask for: each its future, at the time of its poll and its duration, in ticks.
  abbrev pub requested : List Op → List Event
  requested [] = []
  requested (sleeps clock self duration ∷ ops) =
      record { future = self; expire_time = clock + duration * ticks } ∷ requested ops
  requested (selects clock ∷ ops) = requested ops

module _ (f : Event → ℕ) (ticks : ℕ) where
  -- The wheel and the events that result, if they do, weigh `total` together.
  abbrev Weighs : ℕ → Option (Wheel × List Event) → Type 0
  Weighs total none = Unit
  Weighs total (some (w, due)) = IsWheel w × (levels_weight f w.levels + weight f due ≡ total)

  step-Weighs :
      (op : Op) (w : Wheel) (due : List Event)
      → IsWheel w
      → Weighs
          (levels_weight f w.levels + weight f due + weight f (requested ticks (op ∷ [])))
          (step ticks op w due)
  unfolding poll_sleep register select
  step-Weighs (sleeps clock self duration) w due h =
      elim (Option-cases (insert_event ticks (sleep_event ticks clock self duration) w)) [
        | inl n ↦ rw n tt
        | inr (w', s) ↦
            let (h', e) =
              insert_event-conserves f ticks (sleep_event ticks clock self duration) w w' h s in
            rw s (h', omega (arith, e))
      ]
  step-Weighs (selects clock) w due h = elim (Option-cases (expire ticks clock w [])) [
    | inl n ↦ rw n tt
    | inr ((w', events), s) ↦
        let (h', e) = expire-conserves f ticks clock w w' [] events h s in
        rw s (h', omega (arith, e, weight-append f due events))
  ]

  step-conserves :
      (op : Op) (w w' : Wheel) (due due' : List Event)
      → IsWheel w
      → step ticks op w due ≡ some (w', due')
      → IsWheel w'
        × (levels_weight f w'.levels + weight f due'
            ≡ levels_weight f w.levels + weight f due + weight f (requested ticks (op ∷ [])))
  step-conserves op w w' due due' h s = subst (Weighs _) s (step-Weighs op w due h)

  weight-requested :
      (op : Op) (ops : List Op)
      → weight f (requested ticks (op ∷ ops))
        ≡ weight f (requested ticks (op ∷ [])) + weight f (requested ticks ops)
  weight-requested (sleeps clock self duration) ops = omega arith
  weight-requested (selects clock) ops = omega arith

  -- Where nothing is thrown, the wheel stays well-formed, and what it holds and what was handed out is
  -- what there was and what the sleeps asked for, for every weight of events.
  pub run-conserves :
      (ops : List Op) (w w' : Wheel) (due due' : List Event)
      → IsWheel w
      → run ticks ops w due ≡ some (w', due')
      → IsWheel w'
        × (levels_weight f w'.levels + weight f due'
            ≡ levels_weight f w.levels + weight f due + weight f (requested ticks ops))
  unfolding run
  run-conserves [] w w' due due' h s = subst (Weighs _) s (h, omega arith)
  run-conserves (op ∷ ops) w w' due due' h s = elim (Option-cases (step ticks op w due)) [
    | inl n ↦ absurd (ground (arith, (rw (run, n) at s)))
    | inr ((v, mid), e) ↦
        let (h', x) = step-conserves op w v due mid h e in
        let (h'', y) = run-conserves ops v w' mid due' h' (rw (run, e) at s) in
        (h'', omega (arith, x, y, weight-requested op ops))
  ]
