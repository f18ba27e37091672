-- ===== src/Time/Wheel/Conserved.antt =====
-- Insertion and expiry keep every event: what was in the wheel is still there or is handed out.
use xyco.Common.{
  ℕ, ◌+◌, ◌-◌, ◌≡◌, refl, ◌∙◌, subst, Option, none, some, List, [], ◌∷◌, length, arith, ltb,
  Bool-cases, Option-cases, inl, inr,
}
use xyco.Time.Wheel.{
  then_reinsert, then_collect, Event, Wheel, insert_event, next, take_slot, insert_all, reinsert,
  redistribute, walk, walk_planned, expire, hand, collect,
}
use xyco.Time.Wheel.Slots.{
  IsWheel, IsPlan, level_steps-IsPlan, turn-AreLevels, length-turn, take_slot-AreLevels,
  length-take_slot,
}
use xyco.Time.Wheel.Weights.{
  weight, levels_weight, weight-append, turn-weight, take_slot-weight, Yields, insert_event-Yields,
}

module _ (f : Event → ℕ) where
  -- The events of the list are added to the wheel.
  insert_all-Yields :
      (ticks total : ℕ) (es : List Event) (w : Wheel)
      → IsWheel w
      → levels_weight f w.levels + weight f es ≡ total
      → Yields f total (insert_all ticks es w)
  unfolding insert_all
  insert_all-Yields ticks total [] w h e = (h, omega arith)
  insert_all-Yields ticks total (x ∷ xs) w h e = elim (Option-cases (insert_event ticks x w)) [
    | inl n ↦ rw (n, insert_all) tt
    | inr (w', s) ↦
        let y : Yields f (levels_weight f w.levels + f x) (some w') =
          subst (Yields f (levels_weight f w.levels + f x)) s (insert_event-Yields f ticks x w h) in
        rw (s, insert_all) (insert_all-Yields ticks total xs w' y.0 (omega (arith, y.1)))
  ]

  reinsert-Yields :
      (ticks total level i : ℕ) (w : Wheel)
      → IsWheel w
      → levels_weight f w.levels ≡ total
      → Yields f total (reinsert ticks level i w)
  unfolding reinsert
  reinsert-Yields ticks total level i w h e =
      insert_all-Yields ticks total _ _
        (length-take_slot level i w.levels ∙ h.0, take_slot-AreLevels level i w.levels h.1)
        (omega (arith, take_slot-weight f level i w.levels))

  -- The wheel and the events that result, if they do, weigh `total` together.
  abbrev pub WalkYields : ℕ → Option (Wheel × List Event) → Type 0
  WalkYields total none = Unit
  WalkYields total (some (w, events)) =
      IsWheel w × (levels_weight f w.levels + weight f events ≡ total)

  collect-WalkYields :
      (total : ℕ) (w : Wheel) (events : List Event)
      → IsWheel w
      → levels_weight f w.levels + weight f events ≡ total
      → WalkYields total (some (collect w events))
  collect-WalkYields total w events h e = (
    (
      length-take_slot 0 (hand 0 w.levels) w.levels ∙ h.0,
      take_slot-AreLevels 0 (hand 0 w.levels) w.levels h.1,
    ),
    omega (
      arith,
      take_slot-weight f 0 (hand 0 w.levels) w.levels,
      weight-append f events (take_slot 0 (hand 0 w.levels) w.levels).0,
    ),
  )

  then_reinsert-Yields :
      (ticks total level i : ℕ) (o : Option Wheel)
      → Yields f total o
      → Yields f total (then_reinsert ticks level i o)
  then_reinsert-Yields ticks total level i none y = tt
  then_reinsert-Yields ticks total level i (some w) y =
      reinsert-Yields ticks total level i w y.0 y.1

  then_collect-WalkYields :
      (total : ℕ) (events : List Event) (o : Option Wheel)
      → Yields f total o
      → WalkYields (total + weight f events) (then_collect events o)
  then_collect-WalkYields total events none y = tt
  then_collect-WalkYields total events (some w) y =
      collect-WalkYields (total + weight f events) w events y.0 (omega (arith, y.1))

  redistribute-WalkYields :
      (ticks level : ℕ) (w : Wheel) (events : List Event)
      → IsWheel w
      → WalkYields (levels_weight f w.levels + weight f events) (redistribute ticks level w events)
  unfolding redistribute
  redistribute-WalkYields ticks level w events h =
      then_collect-WalkYields (levels_weight f w.levels) events _ (
        then_reinsert-Yields ticks _ level (next (hand level w.levels)) _
          (reinsert-Yields ticks _ level (hand level w.levels) w h refl))

  walk_planned-WalkYields :
      (ticks : ℕ) (w : Wheel) (events : List Event) (o : Option (List ℕ))
      → IsWheel w
      → IsPlan o
      → WalkYields (levels_weight f w.levels + weight f events) (walk_planned ticks w events o)
  walk_planned-WalkYields ticks w events none h p = tt
  walk_planned-WalkYields ticks w events (some ds) h p =
      subst (λ n. WalkYields n (walk_planned ticks w events (some ds)))
        (turn-weight f ds w.levels events)
        (redistribute-WalkYields ticks (length ds - 1) _ _
          (length-turn ds w.levels events ∙ h.0, turn-AreLevels ds w.levels events p h.1))

  expire-WalkYields :
      (ticks clock : ℕ) (w : Wheel) (events : List Event)
      → IsWheel w
      → WalkYields (levels_weight f w.levels + weight f events) (expire ticks clock w events)
  unfolding expire walk
  expire-WalkYields ticks clock w events h = elim (Bool-cases (ltb w.now clock)) [
    | inl l ↦
        rw (l, expire)
          (walk_planned-WalkYields ticks (record w { now = clock }) events _ h
            (level_steps-IsPlan w.levels _))
    | inr l ↦ rw (l, expire) (h, refl)
  ]

  -- Inserting an event into a well-formed wheel, where it does not throw, leaves a well-formed wheel
  -- with exactly that event more, for every weight of events.
  pub insert_event-conserves :
      (ticks : ℕ) (e : Event) (w w' : Wheel)
      → IsWheel w
      → insert_event ticks e w ≡ some w'
      → IsWheel w' × (levels_weight f w'.levels ≡ levels_weight f w.levels + f e)
  insert_event-conserves ticks e w w' h s =
      subst (Yields f (levels_weight f w.levels + f e)) s (insert_event-Yields f ticks e w h)

  -- `expire`, where it does not throw, leaves a well-formed wheel, and every event that was in it is
  -- there still or has been appended to the list of due events, once, for every weight of events.
  pub expire-conserves :
      (ticks clock : ℕ) (w w' : Wheel) (events events' : List Event)
      → IsWheel w
      → expire ticks clock w events ≡ some (w', events')
      → IsWheel w'
        × (levels_weight f w'.levels + weight f events'
            ≡ levels_weight f w.levels + weight f events)
  expire-conserves ticks clock w w' events events' h s =
      subst (WalkYields (levels_weight f w.levels + weight f events)) s
        (expire-WalkYields ticks clock w events h)
