-- ===== src/Sync/Mpsc/Closing.antt =====
-- What `state_` says of the senders and the receiver that are left, and how a closed channel drains.
use xyco.Common.{
  refl, ℕ, ◌⊎◌, Option, none, some, List, [], ◌∷◌, ◌++◌, ◌≡◌, ◌≢◌, ◌+◌, arith, ℕ, ◌≤◌, ◌<◌, Poll,
  ready, pending, map,
}
use xyco.Sync.Mpsc.{
  sent, drop_receiver, rejected, opened, Shared, channel, Op, sends, receives, copies_sender,
  copies_receiver, assigns_sender, assigns_receiver, counts_sender, closes_sender, leaves_sender,
  drops_receiver, Output, received, rejected, receiver_closed, sender_closed, poll_send, step, run,
}

module _ {ℓ} {V : Type ℓ} where
  -- A sender that is not in its destructor.
  abbrev pub HasSender : Shared V → Type 0
  HasSender s = s.closing + s.leaving < s.sender_num

  -- An operation of an end that is still there. The one receiver is never copied, and no end is
  -- assigned to.
  abbrev pub Legal : Shared V → Op V → Type 0
  Legal s (sends self v) = HasSender s
  Legal s (receives self) = 0 < s.receiver_num
  Legal s copies_sender = HasSender s
  Legal s copies_receiver = ⊥
  Legal s assigns_sender = ⊥
  Legal s assigns_receiver = ⊥
  Legal s counts_sender = HasSender s
  Legal s closes_sender = 0 < s.closing
  Legal s leaves_sender = 0 < s.leaving
  Legal s drops_receiver = 0 < s.receiver_num

  -- A state that is set names an end that is gone; the receiver is there where none is set.
  abbrev pub Agrees : Shared V → Type 0
  Agrees s =
      ((s.state ≡ opened) × (s.receiver_num ≡ 1))
      ⊎ ((s.state ≡ sender_closed) × (s.sender_num ≡ 0) × (s.receiver_num ≤ 1))
      ⊎ ((s.state ≡ receiver_closed) × (s.receiver_num ≡ 0))

  -- A sender that will set the state is the only one left.
  abbrev Counted : Shared V → Type 0
  Counted s =
      (s.closing + s.leaving ≤ s.sender_num)
      × ((s.closing ≡ 0) ⊎ ((s.closing ≡ 1) × (s.sender_num ≡ 1)))

  -- The senders' destructors run one after the other.
  abbrev pub IsAlone : Shared V → Op V → Type 0
  IsAlone s counts_sender = s.closing + s.leaving ≡ 0
  IsAlone s o = Unit

  abbrev Staffed : Shared V → Type 0
  Staffed s =
      (s.closing + s.leaving ≤ 1)
      × ((s.state ≢ opened) ⊎ ((0 < s.sender_num) × (s.leaving < s.sender_num)))

module _ {ℓ} {V : Type ℓ} (size : ℕ) where
  abbrev pub LegalRun : Shared V → List (Op V) → Type 0
  LegalRun s [] = Unit
  LegalRun s (o ∷ os) = Legal s o × LegalRun (step size s o).0 os

  abbrev pub OneByOne : Shared V → List (Op V) → Type 0
  OneByOne s [] = Unit
  OneByOne s (o ∷ os) = IsAlone s o × OneByOne (step size s o).0 os

  step-Agrees :
      (s : Shared V) (o : Op V)
      → Legal s o
      → Agrees s × Counted s
      → Agrees (step size s o).0 × Counted (step size s o).0
  unfolding step
  step-Agrees s (sends self v) l h = ground arith
  step-Agrees s (receives self) l h = ground arith
  step-Agrees s copies_sender l h = ground arith
  step-Agrees s copies_receiver l h = absurd l
  step-Agrees s assigns_sender l h = absurd l
  step-Agrees s assigns_receiver l h = absurd l
  step-Agrees s counts_sender l h = ground arith
  step-Agrees s closes_sender l h = ground arith
  step-Agrees s leaves_sender l h = ground arith
  step-Agrees s drops_receiver l h = ground arith

  step-Staffed :
      (s : Shared V) (o : Op V)
      → Legal s o
      → IsAlone s o
      → Agrees s × Counted s
      → Staffed s
      → Staffed (step size s o).0
  unfolding step
  step-Staffed s (sends self v) l i h k = ground arith
  step-Staffed s (receives self) l i h k = ground arith
  step-Staffed s copies_sender l i h k = ground arith
  step-Staffed s copies_receiver l i h k = absurd l
  step-Staffed s assigns_sender l i h k = absurd l
  step-Staffed s assigns_receiver l i h k = absurd l
  step-Staffed s counts_sender l i h k = ground arith
  step-Staffed s closes_sender l i h k = ground arith
  step-Staffed s leaves_sender l i h k = ground arith
  step-Staffed s drops_receiver l i h k = ground arith

  run-Agrees :
      (s : Shared V) (os : List (Op V))
      → LegalRun s os
      → Agrees s × Counted s
      → Agrees (run size s os).0 × Counted (run size s os).0
  unfolding run
  run-Agrees s [] l h = h
  run-Agrees s (o ∷ os) l h = run-Agrees (step size s o).0 os l.1 (step-Agrees s o l.0 h)

  run-Staffed :
      (s : Shared V) (os : List (Op V))
      → LegalRun s os
      → OneByOne s os
      → Agrees s × Counted s
      → Staffed s
      → Staffed (run size s os).0
  unfolding run
  run-Staffed s [] l i h k = k
  run-Staffed s (o ∷ os) l i h k =
      run-Staffed (step size s o).0 os l.1 i.1 (step-Agrees s o l.0 h)
        (step-Staffed s o l.0 i.0 h k)

  -- In every history of a new channel whose receiver is not copied, and whose ends are not assigned to
  -- and are used only while they are there, however the destructors of senders overlap: the state is
  -- sender_closed only without a sender, receiver_closed only without the receiver, and opened only
  -- with the receiver.
  pub run-channel-Agrees : (os : List (Op V)) → LegalRun channel os → Agrees (run size channel os).0
  unfolding channel
  run-channel-Agrees os l = (run-Agrees channel os l (ground arith)).0

  -- If, further, no destructor of a sender begins while that of another runs, then the channel is opened
  -- only while a sender is there: when the last one has gone, the state says that an end is closed.
  pub run-channel-closed :
      (os : List (Op V))
      → LegalRun channel os
      → OneByOne channel os
      → (run size channel os).0.sender_num ≡ 0
      → (run size channel os).0.state ≢ opened
  unfolding channel
  run-channel-closed os l i z =
      ground (arith, run-Staffed channel os l i (ground arith) (ground arith))

  -- The results of the receives of a history.
  abbrev pub results : List (Output V) → List (Poll (Option V))
  results [] = []
  results (received r w ∷ outs) = r ∷ results outs
  results (out ∷ outs) = results outs

  -- A receive for each of `xs`, and one more.
  abbrev pub receive_each : ℕ → List V → List (Op V)
  receive_each self [] = receives self ∷ []
  receive_each self (x ∷ xs) = receives self ∷ receive_each self xs

  -- Once the senders have closed the channel, receives return the values still queued, in order,
  -- and then that there is none, without suspending.
  pub run_drains :
      (s : Shared V) (self : ℕ) (xs : List V)
      → s.state ≡ sender_closed
      → s.queue ≡ xs
      → results (run size s (receive_each self xs)).1
        ≡ map (λ v. ready (some v)) xs ++ (ready none ∷ [])
  unfolding run step
  run_drains s self [] c q = ground arith
  run_drains s self (x ∷ xs) c q =
      ground (arith, run_drains (step size s (receives self)).0 self xs)

  -- The futures that a history registers.
  abbrev pub registered : List (Output V) → List ℕ
  registered [] = []
  registered (sent v r (some f) ∷ outs) = f ∷ registered outs
  registered (received r (some f) ∷ outs) = f ∷ registered outs
  registered (out ∷ outs) = registered outs

  abbrev pub NoReceive : List (Op V) → Type 0
  NoReceive [] = Unit
  NoReceive (receives self ∷ os) = ⊥
  NoReceive (o ∷ os) = NoReceive os

  run-registered :
      (s : Shared V) (os : List (Op V))
      → s.receiver ≡ none
      → NoReceive os
      → registered (run size s os).1 ≡ []
  unfolding run step
  run-registered s [] e n = refl
  run-registered s (sends self v ∷ os) e n =
      ground (arith, run-registered (step size s (sends self v)).0 os)
  run-registered s (copies_sender ∷ os) e n = run-registered (step size s copies_sender).0 os e n
  run-registered s (copies_receiver ∷ os) e n =
      run-registered (step size s copies_receiver).0 os e n
  run-registered s (assigns_sender ∷ os) e n = run-registered (step size s assigns_sender).0 os e n
  run-registered s (assigns_receiver ∷ os) e n =
      run-registered (step size s assigns_receiver).0 os e n
  run-registered s (counts_sender ∷ os) e n =
      ground (arith, run-registered (step size s counts_sender).0 os)
  run-registered s (closes_sender ∷ os) e n =
      ground (arith, run-registered (step size s closes_sender).0 os)
  run-registered s (leaves_sender ∷ os) e n =
      ground (arith, run-registered (step size s leaves_sender).0 os)
  run-registered s (drops_receiver ∷ os) e n = run-registered (step size s drops_receiver).0 os e n
  run-registered s (receives self ∷ os) e n = absurd n

  -- A sender that waits in a full channel when the receiver goes, while no receive waits: neither
  -- the receiver's destructor nor anything that follows without a receive registers any future,
  -- though a poll of that sender would hand its value back at once.
  pub drop_receiver_wakes_none :
      (s : Shared V) (self : ℕ) (v : V) (os : List (Op V))
      → (poll_send size self v s).1 ≡ pending
      → s.receiver ≡ none
      → NoReceive os
      → let s' = (poll_send size self v s).0 in
        (registered (run size s' (drops_receiver ∷ os)).1 ≡ [])
        × ((poll_send size self v (drop_receiver s')).1 ≡ ready (rejected v))
  unfolding run step poll_send
  drop_receiver_wakes_none s self v os p e n =
      ground (arith, run-registered (drop_receiver (poll_send size self v s).0) os)
