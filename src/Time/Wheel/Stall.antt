-- ===== src/Time/Wheel/Stall.antt =====
-- A wheel that is polled more often than every millisecond.
use native.Mathlib.Nat.{div-eq_of_lt}
use xyco.Common.{
  sym, subst, ℕ, ◌+◌, ◌-◌, ◌/◌, ◌<◌, ◌≡◌, ap, ◌∙◌, Option, none, some, List, [], ◌∷◌, arith, ltb,
  Option-cases, inl, inr, Bool-cases, max,
}
use xyco.Time.Wheel.{Event, Wheel, expire, as_int, interval_ms}
use xyco.Time.Wheel.Slots.{IsWheel}
use xyco.Time.Wheel.Counter.{position}
use xyco.Time.Wheel.Hands.{steps_of, steps_of_later, steps_of_earlier, expire-position}
use xyco.Time.Wheel.Conserved.{expire-conserves}

abbrev then_poll :
    (Wheel → List Event → Option (Wheel × List Event))
    → Option (Wheel × List Event)
    → Option (Wheel × List Event)
then_poll f none = none
then_poll f (some (w, events)) = f w events

-- One call of `expire` for each reading of the clock.
unfoldable pub polls : ℕ → List ℕ → Wheel → List Event → Option (Wheel × List Event)
polls ticks [] w events = some (w, events)
polls ticks (clock ∷ clocks) w events = then_poll (polls ticks clocks) (expire ticks clock w events)

-- Each reading is later than the one before, by less than a millisecond.
abbrev pub AreClose : ℕ → ℕ → List ℕ → Type 0
AreClose ticks now [] = Unit
AreClose ticks now (clock ∷ clocks) =
    (now < clock) × (clock < now + ticks) × AreClose ticks clock clocks

abbrev pub last_of : ℕ → List ℕ → ℕ
last_of now [] = now
last_of now (clock ∷ clocks) = last_of clock clocks

max-of_lt : (m n : ℕ) → m < n → max m n ≡ n
max-of_lt m n l = omega arith

no_steps : (n ticks : ℕ) → n < ticks → as_int (n / ticks / interval_ms) ≡ 0
no_steps n ticks l = ap (λ k. as_int (k / interval_ms)) (div-eq_of_lt l)

steps_of_close :
    (ticks clock : ℕ) (w : Wheel)
    → w.now < clock
    → clock < w.now + ticks
    → steps_of ticks clock w ≡ 0
steps_of_close ticks clock w a b = elim (Bool-cases (ltb w.now clock)) [
  | inl l ↦ steps_of_later ticks clock w l ∙ no_steps (clock - w.now) ticks (omega arith)
  | inr l ↦ steps_of_earlier ticks clock w l
]

thrown : {p : Wheel × List Event} → none ≡ some p → ⊥
thrown e = ground arith

-- `polls` from the result of the first call on.
polls_stall_from :
    (ticks clock : ℕ) (clocks : List ℕ) (w v w' : Wheel)
    → ((position v.levels ≡ position w.levels + steps_of ticks clock w) × (v.now ≡ max w.now clock))
    → w.now < clock
    → clock < w.now + ticks
    → (v.now ≡ clock → (position w'.levels ≡ position v.levels) × (w'.now ≡ last_of v.now clocks))
    → (position w'.levels ≡ position w.levels) × (w'.now ≡ last_of clock clocks)
polls_stall_from ticks clock clocks w v w' (p, q) a b r =
    let now : v.now ≡ clock = q ∙ max-of_lt w.now clock a in
    let (x, y) = r now in
    (omega (arith, x, p, steps_of_close ticks clock w a b), y ∙ ap (λ n. last_of n clocks) now)

-- However far the clock goes in steps below a millisecond, the hands do not move, while the wheel's
-- time goes with the clock.
pub polls_stall :
    (ticks : ℕ) (clocks : List ℕ) (w w' : Wheel) (events events' : List Event)
    → IsWheel w
    → AreClose ticks w.now clocks
    → polls ticks clocks w events ≡ some (w', events')
    → (position w'.levels ≡ position w.levels) × (w'.now ≡ last_of w.now clocks)
unfolding polls
polls_stall ticks [] w w' events events' h c e = ground arith
polls_stall ticks (clock ∷ clocks) w w' events events' h c e =
    elim (Option-cases (expire ticks clock w events)) [
      | inl n ↦
          absurd (thrown (subst (λ o. then_poll (polls ticks clocks) o ≡ some (w', events')) n e))
      | inr (p, s) ↦
          let (v, after) = p in
          let x = expire-position ticks clock w v events after h s in
          polls_stall_from ticks clock clocks w v w' x c.0 c.1 (λ now.
            polls_stall ticks clocks v w' after events'
              (expire-conserves (λ _. 0) ticks clock w v events after h s).0
              (subst (λ t. AreClose ticks t clocks) (sym now) c.2)
              (subst (λ o. then_poll (polls ticks clocks) o ≡ some (w', events')) s e))
    ]
