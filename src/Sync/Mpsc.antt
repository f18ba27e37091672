-- ===== src/Sync/Mpsc.antt =====
-- include/xyco/sync/mpsc.ccm: the bounded channel. A future is named by a number. The critical
-- sections of one poll run without a break here; the locks of the source order them. The number of
-- senders and receivers that share the object is kept beside it, since `use_count` is read.
pub mod Fifo
pub mod Wakeups
pub mod Closing
pub mod Examples
use xyco.Common.{
  ℕ, suc, ◌+◌, ◌-◌, Bool, true, false, Option, none, some, List, [], ◌∷◌, ◌++◌, length, ltb, ◌==◌,
  if◌then◌else◌, Poll, ready, pending,
}

-- The values of `state_`.
pub data State : Type 0 where
  opened sender_closed receiver_closed : State

abbrev pub is_sender_closed : State → Bool
is_sender_closed sender_closed = true
is_sender_closed _ = false

abbrev pub is_receiver_closed : State → Bool
is_receiver_closed receiver_closed = true
is_receiver_closed _ = false

pub record Shared {ℓ} (V : Type ℓ) : Type ℓ where
  pub state : State
  pub receiver : Option ℕ
  pub senders : List ℕ
  pub queue : List V
  -- the shares of senders and of receivers in the object
  pub sender_num : ℕ
  pub receiver_num : ℕ
  -- the senders in their destructors, with what `close` found: that the state is to be set, or not
  pub closing : ℕ
  pub leaving : ℕ

-- std::expected<void, Value>
pub data Sent {ℓ} (V : Type ℓ) : Type ℓ where
  accepted : Sent V
  rejected : V → Sent V

abbrev pub use_count {ℓ} : {V : Type ℓ} → Shared V → ℕ
use_count s = s.sender_num + s.receiver_num

module _ {ℓ} {V : Type ℓ} where
  pub channel : Shared V
  channel = record {
    state = opened;
    receiver = none;
    senders = [];
    queue = [];
    sender_num = 1;
    receiver_num = 1;
    closing = 0;
    leaving = 0;
  }

  -- `poll` of the future `self` of `send(value)`, on a channel of `size` places: the channel after
  -- it, the answer, and the future that it registers.
  pub poll_send : ℕ → ℕ → V → Shared V → Shared V × Poll (Sent V) × Option ℕ
  poll_send size self value s =
      if is_receiver_closed s.state
      then (s, ready (rejected value), none)
      else if ltb (length s.queue) size
      then (record s { queue = s.queue ++ (value ∷ []) }, ready accepted, s.receiver)
      else (record s { senders = s.senders ++ (self ∷ []) }, pending, none)

  -- The front of `senders_` is popped and registered, if there is one.
  pub wake_sender : List ℕ → Shared V → Shared V × Option ℕ
  wake_sender [] s = (s, none)
  wake_sender (f ∷ rest) s = (record s { senders = rest }, some f)

  -- `poll` of the receiver's future `self`.
  pub poll_receive : ℕ → Shared V → Shared V × Poll (Option V) × Option ℕ
  unfolding wake_sender
  poll_receive self s = elim (s.queue) [
    | top ∷ rest ↦
        let (s', woken) = wake_sender s.senders (record s { queue = rest }) in
        (s', ready (some top), woken)
    | [] ↦
        if is_sender_closed s.state
        then (s, ready none, none)
        else (record s { receiver = some self }, pending, none)
  ]

  -- The test of Sender::close: the sender is the last owner but for the receiver.
  pub is_last : Shared V → Bool
  is_last s =
      let owner_num = if is_receiver_closed s.state then use_count s else use_count s - 1 in
      owner_num == 1

  -- The destructor of a sender that holds a share, up to what `close` finds. It takes no lock, so what
  -- others do may come between this and the rest.
  pub count_sender : Shared V → Shared V
  unfolding is_last
  count_sender s =
      if is_last s
      then record s { closing = s.closing + 1 }
      else record s { leaving = s.leaving + 1 }

  -- The rest of it, where `close` found the last owner: the write, and the share goes.
  pub close_sender : Shared V → Shared V
  close_sender s = record s {
    state = sender_closed;
    closing = s.closing - 1;
    sender_num = s.sender_num - 1;
  }

  -- The rest of it, where it did not.
  pub leave_sender : Shared V → Shared V
  leave_sender s = record s { leaving = s.leaving - 1; sender_num = s.sender_num - 1 }

  -- The destructor of a receiver: Receiver::close, then the share goes.
  pub drop_receiver : Shared V → Shared V
  drop_receiver s = record s { state = receiver_closed; receiver_num = s.receiver_num - 1 }

  pub copy_sender : Shared V → Shared V
  copy_sender s = record s { sender_num = s.sender_num + 1 }

  pub copy_receiver : Shared V → Shared V
  copy_receiver s = record s { receiver_num = s.receiver_num + 1 }

  -- The defaulted assignments, to an end of this channel of one that holds no share of it: the share goes,
  -- and `close` is not called.
  pub assign_sender : Shared V → Shared V
  assign_sender s = record s { sender_num = s.sender_num - 1 }

  pub assign_receiver : Shared V → Shared V
  assign_receiver s = record s { receiver_num = s.receiver_num - 1 }

-- What the ends can do, in any order; a suspended future polls again when it is woken.
pub data Op {ℓ} (V : Type ℓ) : Type ℓ where
  sends : ℕ → V → Op V
  receives : ℕ → Op V
  copies_sender copies_receiver : Op V
  assigns_sender assigns_receiver : Op V
  counts_sender closes_sender leaves_sender drops_receiver : Op V

pub data Output {ℓ} (V : Type ℓ) : Type ℓ where
  sent : V → Poll (Sent V) → Option ℕ → Output V
  received : Poll (Option V) → Option ℕ → Output V
  quiet : Output V

module _ {ℓ} {V : Type ℓ} (size : ℕ) where
  pub step : Shared V → Op V → Shared V × Output V
  unfolding poll_send poll_receive count_sender close_sender leave_sender drop_receiver copy_sender
      copy_receiver assign_sender assign_receiver
  step s (sends self v) = let (s', r, w) = poll_send size self v s in (s', sent v r w)
  step s (receives self) = let (s', r, w) = poll_receive self s in (s', received r w)
  step s copies_sender = (copy_sender s, quiet)
  step s copies_receiver = (copy_receiver s, quiet)
  step s assigns_sender = (assign_sender s, quiet)
  step s assigns_receiver = (assign_receiver s, quiet)
  step s counts_sender = (count_sender s, quiet)
  step s closes_sender = (close_sender s, quiet)
  step s leaves_sender = (leave_sender s, quiet)
  step s drops_receiver = (drop_receiver s, quiet)

  pub run : Shared V → List (Op V) → Shared V × List (Output V)
  unfolding step
  run s [] = (s, [])
  run s (o ∷ os) = let (s', out) = step s o in let (s'', outs) = run s' os in (s'', out ∷ outs)
