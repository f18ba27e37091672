-- ===== src/Time/Wheel/Served.antt =====
-- The wheels that arise where the clock reads whole milliseconds: src/time/wheel.cc from the making of a
-- wheel on, through its calls of `insert_event` and `expire`.
use xyco.Common.{
  lt→ltb, ◌∙◌, subst, refl, ap, ℕ, zero, suc, ◌+◌, ◌*◌, ◌/◌, ◌^◌, ◌<◌, ◌≤◌, ◌≡◌, some, List, [],
  replicate, ltb, Option-cases, inl, inr, arith,
}
use xyco.Time.Wheel.{slot_num, level_num, Event, Wheel, new_level, new, insert_event, expire}
use xyco.Time.Wheel.Spread.{All, All-map, AllFrom-replicate}
use xyco.Time.Wheel.Weights.{weight, levels_weight}
use xyco.Time.Wheel.Conserved.{expire-conserves}
use xyco.Time.Wheel.Counter.{position, is_some}
use xyco.Time.Wheel.Slots.{new-IsWheel}
use xyco.Time.Wheel.Placed.{Near, Ahead, Strict, upper}
use xyco.Time.Wheel.Timely.{due, Timely, insert_event-Timely}
use xyco.Time.Wheel.Exact.{Every-map, Every, Sorted, expire-Sorted}
use xyco.Time.Wheel.Total.{expire-is_some, not_some}

-- A wheel made at `start` milliseconds, whose time is `n` milliseconds later.
pub data Served (ticks start : ℕ) : ℕ → Wheel → Type 0 where
  made : Served ticks start 0 (new (ticks * start))
  inserted :
      (n : ℕ) (e : Event) (w w' : Wheel)
      → Served ticks start n w
      → insert_event ticks e w ≡ some w'
      → Served ticks start n w'
  expired :
      (n k : ℕ) (w w' : Wheel) (events : List Event)
      → 0 < k
      → k < 2 ^ 31
      → Served ticks start n w
      → expire ticks (ticks * (start + n + k)) w [] ≡ some (w', events)
      → Served ticks start (n + k) w'

Strict-new_level : (d : Event → ℕ) (n : ℕ) → Strict d (replicate n new_level)
unfolding new_level
Strict-new_level d zero = tt
Strict-new_level d (suc n) = (
  AllFrom-replicate (Ahead d new_level (position (replicate n new_level))) 0 slot_num,
  Strict-new_level (upper d) n,
)

new-Timely : (ticks start : ℕ) → Timely ticks start 0 (new (ticks * start))
unfolding new new_level
new-Timely ticks start = (
  new-IsWheel (ticks * start),
  (
    AllFrom-replicate (Near (due ticks start) new_level 0) 0 slot_num,
    Strict-new_level (upper (due ticks start)) 4,
  ),
  refl,
  ap (λ m. ticks * m) (omega arith),
)

pub Served-Timely :
    (ticks start n : ℕ) (w : Wheel) → 0 < ticks → Served ticks start n w → Timely ticks start n w
Served-Timely ticks start n w t made = new-Timely ticks start
Served-Timely ticks start n w t (inserted m e v v' s q) =
    insert_event-Timely ticks start n e v w t (Served-Timely ticks start n v t s) q
Served-Timely ticks start n w t (expired m k v v' events p b s q) =
    (subst (Sorted ticks start (m + k)) q
      (expire-Sorted ticks start m k v t p b (Served-Timely ticks start m v t s))).0

pub new_weight : (f : Event → ℕ) (now : ℕ) → levels_weight f (new now).levels ≡ 0
unfolding new new_level
new_weight f now = refl

-- The clock has not gone on.
pub expire_again :
    (ticks start n : ℕ) (w : Wheel)
    → 0 < ticks
    → Served ticks start n w
    → expire ticks (ticks * (start + n + 0)) w [] ≡ some (w, [])
unfolding expire
expire_again ticks start n w t s =
    let (_, _, _, now) = Served-Timely ticks start n w t s in
    let e : w.now ≡ ticks * (start + n + 0) = now ∙ ap (λ x. ticks * x) (omega arith) in
    rw e (ground arith)

-- A wheel made at a whole millisecond and asked at whole milliseconds only, where any number of events
-- was inserted: `expire`, called fewer than 2 to the power 31 milliseconds after the last call, and
-- later than that, succeeds exactly when fewer than 60 to the power 5 milliseconds have passed since the
-- wheel was made, whatever it holds, and throws otherwise.
pub expire-fits :
    (ticks start n k : ℕ) (w : Wheel)
    → 0 < ticks
    → 0 < k
    → k < 2 ^ 31
    → Served ticks start n w
    → is_some (expire ticks (ticks * (start + n + k)) w []) ≡ ltb (n + k) (slot_num ^ level_num)
expire-fits ticks start n k w t p b s =
    expire-is_some ticks start n k w t p b (Served-Timely ticks start n w t s)

-- A wheel made at a whole millisecond and asked at whole milliseconds only, while fewer than 60 to the
-- power 5 have passed since: `expire`, called at a later millisecond, succeeds. The events that it
-- hands out are those of the wheel that expire, in whole milliseconds, by then, and the wheel keeps
-- those that expire later. None is lost or handed out twice, for every weight of events.
pub expire-exact :
    (f : Event → ℕ) (ticks start n k : ℕ) (w : Wheel)
    → 0 < ticks
    → 0 < k
    → n + k < slot_num ^ level_num
    → Served ticks start n w
    → (w' : Wheel) × (events : List Event) × (expire ticks (ticks * (start + n + k)) w []
        ≡ some (w', events))
      × All (λ e. e.expire_time / ticks ≤ start + n + k) events
      × Every (λ e. start + n + k < e.expire_time / ticks) w'.levels
      × (levels_weight f w'.levels + weight f events ≡ levels_weight f w.levels)
expire-exact f ticks start n k w t p b s =
    let small : k < 2 ^ 31 = omega (arith, b) in
    let timely = Served-Timely ticks start n w t s in
    let fits = expire-fits ticks start n k w t p small s ∙ lt→ltb _ _ b in
    elim (Option-cases (expire ticks (ticks * (start + n + k)) w [])) [
      | inl z ↦ absurd (not_some _ z fits)
      | inr ((w', events), q) ↦
          let r =
            subst (Sorted ticks start (n + k)) q
              (expire-Sorted ticks start n k w t p small timely) in
          (
            w',
            events,
            q,
            All-map (λ e. due ticks start e ≤ n + k) (λ e. e.expire_time / ticks ≤ start + n + k)
                events (λ e x. omega (arith, x)) r.1,
            Every-map (λ e. n + k < due ticks start e) (λ e. start + n + k < e.expire_time / ticks)
                w'.levels r.0.0.1 (λ e x. omega (arith, x)) r.2,
            omega (
              arith,
              (expire-conserves f ticks (ticks * (start + n + k)) w w' [] events timely.0 q).1,
            ),
          )
    ]
