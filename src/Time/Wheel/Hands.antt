-- ===== src/Time/Wheel/Hands.antt =====
-- How far `expire` moves the hands, and when it cannot.
use xyco.Common.{
  if◌then◌else◌, max, max, ℕ, zero, suc, ◌+◌, ◌-◌, ◌/◌, ◌^◌, ◌≤◌, ◌≡◌, refl, ◌∙◌, subst, true,
  false, Option, none, some, List, [], ◌∷◌, length, arith, ltb, Bool-cases, Option-cases, inl, inr,
  le→ltb,
}
use xyco.Time.Wheel.{
  Event, Level, Wheel, slot_num, level_num, push_level, insert_event, insert_located, next, turn,
  take_slot, insert_all, reinsert, redistribute, walk, walk_planned, expire, hand, as_int,
  interval_ms, then_reinsert, then_collect,
}
use xyco.Time.Wheel.Slots.{IsWheel}
use xyco.Time.Wheel.Counter.{
  position-lt, position, PlanAdds, level_steps-PlanAdds, level_steps-fits, capacity-IsWheel,
}

-- Inserting moves no hand.
pub position-push_level :
    (level steps : ℕ) (e : Event) (ls : List Level)
    → position (push_level level steps e ls) ≡ position ls
unfolding push_level
position-push_level level steps e [] = refl
position-push_level zero steps e (l ∷ ls) = refl
position-push_level (suc level) steps e (l ∷ ls) =
    omega (arith, position-push_level level steps e ls)

pub position-take_slot :
    (level i : ℕ) (ls : List Level) → position (take_slot level i ls).1 ≡ position ls
unfolding take_slot
position-take_slot level i [] = refl
position-take_slot zero i (l ∷ ls) = refl
position-take_slot (suc level) i (l ∷ ls) = omega (arith, position-take_slot level i ls)

-- The wheel that results, if one does, shows `n` and has the time `t`.
abbrev Shows : ℕ → ℕ → Option Wheel → Type 0
Shows n t none = Unit
Shows n t (some w) = (position w.levels ≡ n) × (w.now ≡ t)

insert_located-Shows :
    (e : Event) (w : Wheel) (o : Option (ℕ × ℕ))
    → Shows (position w.levels) w.now (insert_located e w o)
insert_located-Shows e w none = tt
insert_located-Shows e w (some (level, steps)) =
    (position-push_level (level - 1) steps e w.levels, refl)

insert_all-Shows :
    (ticks n t : ℕ) (es : List Event) (w : Wheel)
    → position w.levels ≡ n
    → w.now ≡ t
    → Shows n t (insert_all ticks es w)
unfolding insert_all insert_event
insert_all-Shows ticks n t [] w e f = (e, f)
insert_all-Shows ticks n t (x ∷ xs) w e f = elim (Option-cases (insert_event ticks x w)) [
  | inl z ↦ rw (z, insert_all) tt
  | inr (w', s) ↦
      let y : Shows (position w.levels) w.now (some w') =
        subst (Shows (position w.levels) w.now) s (insert_located-Shows x w _) in
      rw (s, insert_all) (insert_all-Shows ticks n t xs w' (y.0 ∙ e) (y.1 ∙ f))
]

reinsert-Shows :
    (ticks level i : ℕ) (w : Wheel) → Shows (position w.levels) w.now (reinsert ticks level i w)
unfolding reinsert
reinsert-Shows ticks level i w =
    insert_all-Shows ticks _ _ _ _ (position-take_slot level i w.levels) refl

then_reinsert-Shows :
    (ticks level i n t : ℕ) (o : Option Wheel)
    → Shows n t o
    → Shows n t (then_reinsert ticks level i o)
then_reinsert-Shows ticks level i n t none s = tt
then_reinsert-Shows ticks level i n t (some w) s =
    subst (λ m. Shows m t (reinsert ticks level i w)) s.0
      (subst (λ u. Shows (position w.levels) u (reinsert ticks level i w)) s.1
        (reinsert-Shows ticks level i w))

abbrev WalkShows : ℕ → ℕ → Option (Wheel × List Event) → Type 0
WalkShows n t none = Unit
WalkShows n t (some (w, events)) = (position w.levels ≡ n) × (w.now ≡ t)

then_collect-WalkShows :
    (n t : ℕ) (events : List Event) (o : Option Wheel)
    → Shows n t o
    → WalkShows n t (then_collect events o)
then_collect-WalkShows n t events none s = tt
then_collect-WalkShows n t events (some w) s =
    (position-take_slot 0 (hand 0 w.levels) w.levels ∙ s.0, s.1)

redistribute-WalkShows :
    (ticks level n : ℕ) (w : Wheel) (events : List Event)
    → position w.levels ≡ n
    → WalkShows n w.now (redistribute ticks level w events)
unfolding redistribute
redistribute-WalkShows ticks level n w events e = then_collect-WalkShows n w.now events _ (
    then_reinsert-Shows ticks level (next i) n w.now (reinsert ticks level i w)
      (subst (λ m. Shows m w.now (reinsert ticks level i w)) e (reinsert-Shows ticks level i w)))
  where
    i : ℕ
    i = hand level w.levels

walk_planned-WalkShows :
    (ticks steps : ℕ) (w : Wheel) (events : List Event) (o : Option (List ℕ))
    → PlanAdds w.levels steps o
    → WalkShows (position w.levels + steps) w.now (walk_planned ticks w events o)
walk_planned-WalkShows ticks steps w events none p = tt
walk_planned-WalkShows ticks steps w events (some ds) p =
    redistribute-WalkShows ticks (length ds - 1) (position w.levels + steps)
      (record w { levels = (turn ds w.levels events).0 }) (turn ds w.levels events).1 (p events)

-- The steps that `expire` makes with the clock at `clock`.
abbrev pub steps_of : ℕ → ℕ → Wheel → ℕ
steps_of ticks clock w =
    if ltb w.now clock then as_int ((clock - w.now) / ticks / interval_ms) else 0

pub steps_of_later :
    (ticks clock : ℕ) (w : Wheel)
    → ltb w.now clock ≡ true
    → steps_of ticks clock w ≡ as_int ((clock - w.now) / ticks / interval_ms)
steps_of_later ticks clock w l = rw l

pub steps_of_earlier :
    (ticks clock : ℕ) (w : Wheel) → ltb w.now clock ≡ false → steps_of ticks clock w ≡ 0
steps_of_earlier ticks clock w l = rw l

max-later : (a b : ℕ) → ltb a b ≡ true → max a b ≡ b
max-later a b l = ground arith

max-earlier : (a b : ℕ) → ltb a b ≡ false → max a b ≡ a
max-earlier a b l = ground arith

expire-WalkShows :
    (ticks clock : ℕ) (w : Wheel) (events : List Event)
    → IsWheel w
    → WalkShows
        (position w.levels + steps_of ticks clock w)
        (max w.now clock)
        (expire ticks clock w events)
unfolding expire walk
expire-WalkShows ticks clock w events h = elim (Bool-cases (ltb w.now clock)) [
  | inl l ↦
      rw (steps_of_later ticks clock w l, max-later w.now clock l, l, expire)
        (walk_planned-WalkShows ticks _ (record w { now = clock }) events _
          (level_steps-PlanAdds w.levels _ h.1))
  | inr l ↦
      rw (steps_of_earlier ticks clock w l, max-earlier w.now clock l, l, expire)
        (omega arith, refl)
]

walk_overflow :
    (ticks steps : ℕ) (w : Wheel) (events : List Event)
    → IsWheel w
    → slot_num ^ level_num ≤ steps + position w.levels
    → walk ticks steps w events ≡ none
unfolding walk
walk_overflow ticks steps w events h o = ground (
  arith,
  level_steps-fits w.levels steps h.1,
  le→ltb (steps + position w.levels) (slot_num ^ level_num) o,
  capacity-IsWheel w h,
)

-- Where `expire` does not throw, the number that the hands show has grown by the whole milliseconds
-- since the last call, as an int, and the wheel has the clock's
-- time, unless it had a later one.
pub expire-position :
    (ticks clock : ℕ) (w w' : Wheel) (events events' : List Event)
    → IsWheel w
    → expire ticks clock w events ≡ some (w', events')
    → (position w'.levels ≡ position w.levels + steps_of ticks clock w) × (w'.now ≡ max w.now clock)
expire-position ticks clock w w' events events' h s =
    subst (WalkShows (position w.levels + steps_of ticks clock w) (max w.now clock)) s
      (expire-WalkShows ticks clock w events h)

-- Where the number that the hands show and the steps of this call reach 60 to the power 5 together,
-- `expire` throws, whatever the wheel holds.
pub expire_overflow :
    (ticks clock : ℕ) (w : Wheel) (events : List Event)
    → IsWheel w
    → slot_num ^ level_num ≤ position w.levels + steps_of ticks clock w
    → expire ticks clock w events ≡ none
unfolding expire
expire_overflow ticks clock w events h o = elim (Bool-cases (ltb w.now clock)) [
  | inl l ↦
      rw (l, expire)
        (walk_overflow ticks _ (record w { now = clock }) events h
          (omega (arith, o, steps_of_later ticks clock w l)))
  | inr l ↦ absurd (
      omega (
        arith,
        o,
        steps_of_earlier ticks clock w l,
        position-lt w.levels h.1,
        capacity-IsWheel w h,
      ))
]
