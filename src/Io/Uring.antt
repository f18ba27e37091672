-- ===== src/Io/Uring.antt =====
-- include/xyco/io/io_uring/registry.ccm, src/io/io_uring/registry.cc. Events, buffers and addresses are
-- named by numbers, and so are the slots of the submission queue, which liburing chooses: `none` for
-- a queue that is full. What it answers is an argument.
pub mod Listed
pub mod Trip
pub mod Cancelling
pub mod Examples
use Prim.Native.String.{String}
use xyco.Common.{
  ℕ, ℤ, pos, negsuc, Bool, true, false, Option, none, some, List, [], ◌∷◌, ◌++◌, map, ◌==◌, ◌||◌,
  suc, if◌then◌else◌, eqb,
}
use xyco.Utils.Error.{Error, Result, ok, err}
use xyco.Io.Events.{mem, erase_first}

-- The variant IoExtra::args_.
pub data Args : Type 0 where
  read : (buf len offset : ℕ) → Args
  write : (buf len offset : ℕ) → Args
  close : Args
  accept : (addr addrlen : ℕ) → Args
  connect : (addr addrlen : ℕ) → Args
  shutdown : (how : ℕ) → Args

pub record IoExtra : Type 0 where
  pub args : Args
  pub fd : ℕ
  pub return_value : ℤ
  pub registered : Bool
  pub completed : Bool

-- An entry of the submission queue, as io_uring_prep_* and io_uring_sqe_set_data leave it.
pub data Sqe : Type 0 where
  zeroed : Sqe
  request : (args : Args) → (fd event : ℕ) → Sqe
  cancel : (event : ℕ) → Sqe

-- What was done to the ring: the entries in memory, which stay as they are until they are prepared
-- anew; the slots that were got since the last call of io_uring_submit; and a log of the entries that
-- stood, at each such call, in the slots that had been got.
pub record Ring : Type 0 where
  pub slots : ℕ → Sqe
  pub queue : List ℕ
  pub sent : List Sqe

-- The registry with the extras of all events that exist.
pub record Registry : Type 0 where
  pub ring : Ring
  pub events : List ℕ
  pub extras : ℕ → IoExtra

-- A call of io_uring_submit, which by its manual passes on the entries of all slots that were got.
abbrev pub submit : Ring → Ring
submit ring = record ring { queue = []; sent = ring.sent ++ map ring.slots ring.queue }

-- A call of io_uring_get_sqe that answers with that slot.
abbrev pub get_sqe : Option ℕ → Ring → Ring
get_sqe none ring = ring
get_sqe (some s) ring = record ring { queue = ring.queue ++ (s ∷ []) }

-- The entry is prepared, and all are submitted.
abbrev pub send : ℕ → Sqe → Ring → Ring
send s sqe ring = submit (record ring { slots = λ t. if t == s then sqe else ring.slots t })

abbrev pub update : ℕ → (IoExtra → IoExtra) → Registry → Registry
update e f r = record r { extras = λ x. if x == e then f (r.extras x) else r.extras x }

abbrev pub list_event : ℕ → Registry → Registry
list_event e r =
    if (r.extras e).registered
    then r
    else update e (λ x. record x { registered = true }) (record r { events = r.events ++ (e ∷ []) })

abbrev pub request_of : ℕ → Registry → Sqe
request_of e r = request (r.extras e).args (r.extras e).fd e

-- utils::Result<void>
abbrev pub Answer : Type 0
Answer = Result Unit

abbrev pub full : Answer
full = err (record { errno = pos 1; info = "" })

abbrev pub register_in : Option ℕ → ℕ → Registry → Registry × Answer
register_in none e r = (r, full)
register_in (some s) e r =
    (list_event e (record r { ring = send s (request_of e r) (get_sqe (some s) r.ring) }), ok tt)

-- `first` and `second` are the slots that the calls of io_uring_get_sqe give.
unfoldable pub register : Option ℕ → Option ℕ → ℕ → Registry → Registry × Answer
register none second e r = register_in second e (record r { ring = submit r.ring })
register (some s) second e r = register_in (some s) e r

pub reregister : ℕ → Registry → Registry × Answer
reregister e r = (r, ok tt)

-- `none` is the use of the end of the vector, where the event is not in it.
abbrev pub deregister_in : Option ℕ → ℕ → Registry → Option (Registry × Answer)
deregister_in none e r = some (r, full)
deregister_in (some s) e r =
    if mem e r.events
    then some (
      update e (λ x. record x { registered = false })
          (record r {
            ring = send s (cancel e) (get_sqe (some s) r.ring);
            events = erase_first e r.events;
          }),
      ok tt,
    )
    else none

abbrev pub first_get : Option ℕ → Ring → Ring
first_get none ring = submit ring
first_get (some s) ring = get_sqe (some s) ring

unfoldable pub deregister : Option ℕ → Option ℕ → ℕ → Registry → Option (Registry × Answer)
deregister first second e r = deregister_in second e (record r { ring = first_get first r.ring })

-- An entry of the completion queue, with its result: its user data is null, as for a cancellation,
-- or an event.
pub data Cqe : Type 0 where
  without_data : (res : ℤ) → Cqe
  of_event : (event : ℕ) → (res : ℤ) → Cqe

abbrev pub complete : ℤ → IoExtra → IoExtra
complete res x = record x { return_value = res; completed = true; registered = false }

-- The loop of `select`: the events that are ready are appended to `due`. `none` is the use of the end
-- of the vector.
unfoldable pub take_completed : List Cqe → Registry → List ℕ → Option (Registry × List ℕ)
take_completed [] r due = some (r, due)
take_completed (without_data res ∷ rest) r due = take_completed rest r due
take_completed (of_event e res ∷ rest) r due =
    let next =
      take_completed rest (update e (complete res) (record r { events = erase_first e r.events }))
        (due ++ (e ∷ [])) in
    if mem e r.events then next else none

-- What io_uring_wait_cqe_timeout answers: an errno, or the completions that are there.
pub data Waited : Type 0 where
  fails : (errno : ℤ) → Waited
  gives : List Cqe → Waited

abbrev pub succeed : Option (Registry × List ℕ) → Option (Registry × List ℕ × Answer)
succeed none = none
succeed (some (r, due)) = some (r, due, ok tt)

-- `none` is also utils::panic, on an errno other than ETIME and EBUSY.
unfoldable pub select : ℤ → ℤ → Waited → Registry → List ℕ → Option (Registry × List ℕ × Answer)
select etime ebusy (fails errno) r due =
    if eqb errno etime || eqb errno ebusy then some (r, due, ok tt) else none
select etime ebusy (gives cqes) r due = succeed (take_completed cqes r due)
