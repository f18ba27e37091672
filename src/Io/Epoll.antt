-- ===== src/Io/Epoll.antt =====
-- include/xyco/io/epoll/registry.ccm, src/io/epoll/registry.cc: the registry that waits for files with
-- epoll. An event is named by its address, a number; what the system calls answer is an argument.
pub mod Register
pub mod Wait
use xyco.Io.Events.{erase_first, mem}
use xyco.Common.{
  ℕ, ℤ, zero, suc, Bool, true, false, not, ◌&&◌, ◌||◌, Option, none, some, List, [], ◌∷◌, ◌++◌,
  ◌==◌, if◌then◌else◌, is_minus_one, eqb,
}
use xyco.Utils.Error.{Error, Result, ok, err, transform, from_sys_error, into_sys_result}

-- IoExtra::State, the bits of `field_`.
pub record State : Type 0 where
  pub registered : Bool
  pub pending : Bool
  pub readable : Bool
  pub writable : Bool
  pub error : Bool

pub data Interest : Type 0 where
  reads : Interest
  writes : Interest
  all : Interest

pub record IoExtra : Type 0 where
  pub state : State
  pub interest : Interest
  pub fd : ℕ

-- The bits of epoll_event::events.
pub record Ready : Type 0 where
  pub err : Bool
  pub hup : Bool
  pub rdhup : Bool
  pub pri : Bool
  pub input : Bool
  pub output : Bool
  pub oneshot : Bool

abbrev pub no_ready : Ready
no_ready = record {
  err = false;
  hup = false;
  rdhup = false;
  pri = false;
  input = false;
  output = false;
  oneshot = false;
}

pub to_sys : Interest → Ready
to_sys reads = record no_ready { input = true; rdhup = true; oneshot = true }
to_sys writes = record no_ready { output = true; rdhup = true; oneshot = true }
to_sys all = record no_ready { input = true; output = true; rdhup = true; oneshot = true }

abbrev pub only_registered : State
only_registered = record {
  registered = true;
  pending = false;
  readable = false;
  writable = false;
  error = false;
}

unfoldable pub to_state : Ready → State
to_state r =
    if r.err || r.hup || r.rdhup || r.pri
    then record only_registered { error = true }
    else record only_registered {
      readable = r.input;
      writable = r.output;
      pending = not r.input && not r.output;
    }

-- The registry with the extras of all events that exist.
pub record Registry : Type 0 where
  pub events : List ℕ
  pub extras : ℕ → IoExtra

abbrev pub set_state : ℕ → State → Registry → Registry
set_state e state r = record r {
  extras = λ x. if x == e then record (r.extras x) { state = state } else r.extras x;
}

-- utils::Result<void>
abbrev pub Answer : Type 0
Answer = Result Unit

abbrev pub erase_on_error : ℕ → Result ℤ → Registry → Registry × Answer
erase_on_error e (ok n) r = (r, ok tt)
erase_on_error e (err x) r = (record r { events = erase_first e r.events }, err x)

abbrev pub push_event : ℕ → Registry → Registry
push_event e r = record r { events = r.events ++ (e ∷ []) }

abbrev pub mark_registered : ℕ → Bool → Registry → Registry
mark_registered e b r = set_state e (record ((r.extras e).state) { registered = b }) r

-- `answer` is what epoll_ctl returned, with `errno`.
unfoldable pub register : ℤ → ℤ → ℕ → Registry → Registry × Answer
unfolding into_sys_result
register errno answer e r =
    erase_on_error e (into_sys_result errno answer) (mark_registered e true (push_event e r))

unfoldable pub reregister : ℤ → ℤ → ℕ → Registry → Registry × Answer
reregister errno answer e r = erase_on_error e (into_sys_result errno answer) (push_event e r)

unfoldable pub deregister : ℤ → ℤ → ℕ → Registry → Registry × Answer
deregister errno answer e r = (
  mark_registered e false (record r { events = erase_first e r.events }),
  transform (λ n. tt) (into_sys_result errno answer),
)

-- The loop of `select` over what epoll_wait gave: the events due are appended to `due`. `none` is the
-- use of the end of the list, where an event is not registered.
unfoldable pub take_ready : List (ℕ × Ready) → Registry → List ℕ → Option (Registry × List ℕ)
take_ready [] r due = some (r, due)
take_ready ((e, ready) ∷ rest) r due =
    let next =
      take_ready rest (set_state e (to_state ready) (record r { events = erase_first e r.events }))
        (due ++ (e ∷ [])) in
    if mem e r.events then next else none

-- What epoll_wait answers: an errno, or the events that are ready.
pub data Waited : Type 0 where
  fails : ℤ → Waited
  gives : List (ℕ × Ready) → Waited

abbrev pub succeed : Option (Registry × List ℕ) → Option (Registry × List ℕ × Answer)
succeed none = none
succeed (some (r, due)) = some (r, due, ok tt)

unfoldable pub select : ℤ → Waited → Registry → List ℕ → Option (Registry × List ℕ × Answer)
select eintr (fails errno) r due =
    some (r, due, if not (eqb errno eintr) then err (from_sys_error errno) else ok tt)
select eintr (gives ready) r due = succeed (take_ready ready r due)
