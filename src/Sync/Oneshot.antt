-- ===== src/Sync/Oneshot.antt =====
-- include/xyco/sync/oneshot.ccm: the channel for one value. A future is named by a number; an
-- operation that calls `register_future` says which future it registers. Moving a value out of
-- `value_` leaves the optional engaged, and the model leaves its content too.
pub mod Inv
pub mod Delivery
pub mod Wakeups
pub mod Examples
use xyco.Common.{
  ℕ, Bool, true, false, not, ◌||◌, Option, none, some, List, [], ◌∷◌, ◌++◌, if◌then◌else◌, Poll,
  ready, pending,
}

-- The values of `state_`.
pub data State : Type 0 where
  opened sender_closed receiver_closed : State

abbrev pub is_sender_closed : State → Bool
is_sender_closed sender_closed = true
is_sender_closed _ = false

abbrev pub is_receiver_closed : State → Bool
is_receiver_closed receiver_closed = true
is_receiver_closed _ = false

pub record Shared {ℓ} (V : Type ℓ) : Type ℓ where
  pub state : State
  pub value : Option V
  pub receiver : Option ℕ

-- The shared object, and whether `shared_` of the sender and of the receiver is not null.
pub record Channel {ℓ} (V : Type ℓ) : Type ℓ where
  pub shared : Shared V
  pub has_sender : Bool
  pub has_receiver : Bool

module _ {ℓ} {V : Type ℓ} where
  pub channel : Channel V
  channel = record {
    shared = record { state = opened; value = none; receiver = none };
    has_sender = true;
    has_receiver = true;
  }

  -- Sender::close, which the destructor calls too.
  pub close_sender : Channel V → Channel V
  close_sender c =
      if c.has_sender
      then record c { shared = record (c.shared) { state = sender_closed }; has_sender = false }
      else c

  -- Receiver::close, which the destructor calls too.
  pub close_receiver : Channel V → Channel V
  close_receiver c =
      if c.has_receiver
      then record c { shared = record (c.shared) { state = receiver_closed }; has_receiver = false }
      else c

-- std::expected<void, Value>
pub data Sent {ℓ} (V : Type ℓ) : Type ℓ where
  accepted : Sent V
  rejected : V → Sent V

module _ {ℓ} {V : Type ℓ} where
  -- The channel after it, the result, and the future that it registers.
  pub send : V → Channel V → Channel V × Sent V × Option ℕ
  unfolding close_sender
  send v c =
      if not c.has_sender || is_receiver_closed c.shared.state then (c, rejected v, none) else (
        close_sender (record c { shared = record (c.shared) { value = some v } }),
        accepted,
        c.shared.receiver,
      )

  -- `poll` of the receiver's future `self`; `none` stands for std::unexpected(std::nullopt).
  pub poll_receive : ℕ → Channel V → Channel V × Poll (Option V)
  poll_receive self c = if not c.has_receiver then (c, ready none) else elim (c.shared.value) [
    | some v ↦ (c, ready (some v))
    | none ↦
        if is_sender_closed c.shared.state
        then (c, ready none)
        else (record c { shared = record (c.shared) { receiver = some self } }, pending)
  ]

  -- What `receive` does with the answer: on a result it closes the receiver.
  pub after_poll : Channel V × Poll (Option V) → Channel V × Poll (Option V)
  unfolding close_receiver
  after_poll (c, ready r) = (close_receiver c, ready r)
  after_poll (c, pending) = (c, pending)

  -- The coroutine `receive`, from its start or from a wake-up to its next suspension or its end.
  pub receive : ℕ → Channel V → Channel V × Poll (Option V)
  unfolding poll_receive after_poll
  receive self c = after_poll (poll_receive self c)

-- What the two ends can do, in any order. A dropped end is closed by its destructor.
pub data Op {ℓ} (V : Type ℓ) : Type ℓ where
  sends : V → Op V
  receives : ℕ → Op V
  drops_sender drops_receiver : Op V

-- What is seen from outside: a result, and the future that is registered.
pub data Output {ℓ} (V : Type ℓ) : Type ℓ where
  sent : Sent V → Option ℕ → Output V
  received : Poll (Option V) → Output V
  dropped : Output V

module _ {ℓ} {V : Type ℓ} where
  pub step : Channel V → Op V → Channel V × Output V
  unfolding send receive close_sender close_receiver
  step c (sends v) = let (c', r, w) = send v c in (c', sent r w)
  step c (receives self) = let (c', r) = receive self c in (c', received r)
  step c drops_sender = (close_sender c, dropped)
  step c drops_receiver = (close_receiver c, dropped)

  pub run : Channel V → List (Op V) → Channel V × List (Output V)
  unfolding step
  run c [] = (c, [])
  run c (o ∷ os) = let (c', out) = step c o in let (c'', outs) = run c' os in (c'', out ∷ outs)
