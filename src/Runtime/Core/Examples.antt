-- ===== src/Runtime/Core/Examples.antt =====
-- The theorems of the runtime core at concrete inputs.
use xyco.Common.{
  arith, ◌==◌, ℕ, ◌+◌, ◌≡◌, refl, true, false, none, some, List, [], ◌∷◌, ◌++◌, map, length, take,
  if◌then◌else◌,
}
use xyco.Utils.Error.{ok}
use xyco.Runtime.Core.Round.{run_loop_once-order}
use xyco.Runtime.Core.Drains.{resume-drains}
use xyco.Runtime.Core.{
  Ran, run_loop_once, silent, push_all, pushed, pop_back, pushed, Entry, Core, Turn, resume,
  entry_of,
}
use xyco.Runtime.Core.Fifo.{view, run_fifo, resume-view}
use xyco.Runtime.Core.Wake.{is_among}

abbrev entry : ℕ → Entry
entry n = record { handle = some n; future = some n }

abbrev queue : List Entry
queue = entry 2 ∷ entry 1 ∷ []

abbrev turns : List Turn
turns =
    record { is_done = true; pushes = entry 3 ∷ []; suspends = false }
    ∷ record { is_done = false; pushes = []; suspends = true }
    ∷ record { is_done = true; pushes = []; suspends = false }
    ∷ []

resume-view_example :
    let (q', ran, suspended') = resume turns false queue in
    run_fifo turns false (view queue) ≡ (view q', ran, suspended')
resume-view_example = resume-view turns false queue

abbrev core : Core
core = record {
  handles = queue;
  local_handles = λ t. none;
  bound = λ e. if e == 9 then none else some (e + 10);
}

-- Two turns are enough for two entries, as nothing is pushed.
abbrev quiet : List Turn
quiet =
    record { is_done = true; pushes = []; suspends = false }
    ∷ record { is_done = false; pushes = []; suspends = false }
    ∷ []

resume-drains_example : (resume quiet false queue).0 ≡ []
resume-drains_example = resume-drains quiet queue (refl, (refl, tt)) (omega arith)

abbrev local_turns : List Turn
local_turns = record { is_done = true; pushes = entry 3 ∷ []; suspends = false } ∷ []

abbrev turns_3 : List Turn
turns_3 = quiet ++ (record { is_done = true; pushes = []; suspends = false } ∷ [])

abbrev local_queue : List Entry
local_queue = entry 7 ∷ []

local_goes_on : (resume (map silent local_turns) false local_queue).2 ≡ false
unfolding resume pop_back
local_goes_on = refl

global_goes_on :
    (resume turns_3 false (
      push_all
        (pushed (take (length (resume (map silent local_turns) false local_queue).1) local_turns))
        core.handles)).2
    ≡ false
unfolding resume pop_back
global_goes_on = refl

run_loop_once-order_example :
    (local' : List Entry) × (c' : Core) × (ran : List Ran) × (ran' : List Ran) × (run_loop_once some
        (map ok ((4 ∷ []) ∷ (5 ∷ []) ∷ []))
        local_turns
        turns_3
        false
        local_queue
        core
      ≡ some (local', c', ran ++ ran', false))
    × (map (λ r. r.entry) ran ++ view local' ≡ view local_queue)
    × (map (λ r. r.entry) ran' ++ view c'.handles
        ≡ view core.handles
          ++ (pushed (take (length ran) local_turns)
              ++ (pushed (take (length ran') turns_3) ++ map (entry_of some) (14 ∷ 15 ∷ []))))
unfolding is_among
run_loop_once-order_example =
    run_loop_once-order some local_turns turns_3 ((4 ∷ []) ∷ (5 ∷ []) ∷ []) (14 ∷ 15 ∷ [])
      local_queue core (refl, refl, (refl, refl, tt)) local_goes_on global_goes_on
