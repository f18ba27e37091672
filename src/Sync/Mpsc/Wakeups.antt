-- ===== src/Sync/Mpsc/Wakeups.antt =====
-- Which futures the bounded channel registers for a wake-up.
use xyco.Common.{
  Option, some, List, [], ◌∷◌, ◌++◌, ◌≡◌, ◌≢◌, arith, ℕ, ◌≤◌, ◌<◌, length, ready, pending,
}
use xyco.Sync.Mpsc.{
  sends, receives, copies_sender, copies_receiver, assigns_sender, assigns_receiver, counts_sender,
  closes_sender, leaves_sender, drops_receiver, Op, run, step, Shared, Output, sent, received,
  accepted, receiver_closed, poll_send, poll_receive,
}

module _ {ℓ} {V : Type ℓ} where
  poll_receive-receiver :
      (s : Shared V) (f : ℕ) (r : Option V)
      → s.receiver ≡ some f
      → (poll_receive f s).1 ≡ ready r
      → (poll_receive f s).0.receiver ≡ some f
  unfolding poll_receive
  poll_receive-receiver s f r e p = ground arith

module _ {ℓ} {V : Type ℓ} (size : ℕ) where
  -- A receive from a channel that is full while senders wait returns the oldest value and registers
  -- the sender that has waited longest; when that one polls again its value is accepted at the end
  -- of the queue, and the others still wait in their order.
  pub poll_receive-poll_send :
      (s : Shared V) (self f : ℕ) (rest : List ℕ) (v w : V) (vs : List V)
      → s.state ≢ receiver_closed
      → s.queue ≡ v ∷ vs
      → s.senders ≡ f ∷ rest
      → length s.queue ≤ size
      → let (s', r, woken) = poll_receive self s in
        let (s'', r', _) = poll_send size f w s' in
        (r ≡ ready (some v))
        × (woken ≡ some f)
        × (r' ≡ ready accepted)
        × (s''.queue ≡ vs ++ (w ∷ []))
        × (s''.senders ≡ rest)
  unfolding poll_receive poll_send
  poll_receive-poll_send s self f rest v w vs o q e h = ground arith

  -- A receive that suspends is registered by the next send, which is accepted.
  pub poll_receive-wakes :
      (s : Shared V) (self sender : ℕ) (v : V)
      → s.state ≢ receiver_closed
      → 0 < size
      → (poll_receive self s).1 ≡ pending
      → let (s', r, woken) = poll_send size sender v (poll_receive self s).0 in
        (r ≡ ready accepted) × (woken ≡ some self) × (s'.queue ≡ v ∷ [])
  unfolding poll_receive poll_send
  poll_receive-wakes s self sender v o h p = ground arith

  -- No receive of the history suspends.
  abbrev pub NoneSuspends : List (Output V) → Type 0
  NoneSuspends [] = Unit
  NoneSuspends (received pending w ∷ outs) = ⊥
  NoneSuspends (out ∷ outs) = NoneSuspends outs

  -- Every send that is accepted registers the future `f`.
  abbrev pub AllRegister : ℕ → List (Output V) → Type 0
  AllRegister f [] = Unit
  AllRegister f (sent v (ready accepted) w ∷ outs) = (w ≡ some f) × AllRegister f outs
  AllRegister f (out ∷ outs) = AllRegister f outs

  run-AllRegister :
      (s : Shared V) (f : ℕ) (os : List (Op V))
      → s.receiver ≡ some f
      → NoneSuspends (run size s os).1
      → AllRegister f (run size s os).1
  unfolding run
  run-AllRegister s f [] e h = tt
  run-AllRegister s f (sends g v ∷ os) e h =
      ground (arith, run-AllRegister (step size s (sends g v)).0 f os)
  run-AllRegister s f (receives g ∷ os) e h =
      ground (arith, run-AllRegister (step size s (receives g)).0 f os)
  run-AllRegister s f (copies_sender ∷ os) e h =
      run-AllRegister (step size s copies_sender).0 f os e h
  run-AllRegister s f (copies_receiver ∷ os) e h =
      run-AllRegister (step size s copies_receiver).0 f os e h
  run-AllRegister s f (assigns_sender ∷ os) e h =
      run-AllRegister (step size s assigns_sender).0 f os e h
  run-AllRegister s f (assigns_receiver ∷ os) e h =
      run-AllRegister (step size s assigns_receiver).0 f os e h
  run-AllRegister s f (counts_sender ∷ os) e h =
      ground (arith, run-AllRegister (step size s counts_sender).0 f os)
  run-AllRegister s f (closes_sender ∷ os) e h =
      ground (arith, run-AllRegister (step size s closes_sender).0 f os)
  run-AllRegister s f (leaves_sender ∷ os) e h =
      ground (arith, run-AllRegister (step size s leaves_sender).0 f os)
  run-AllRegister s f (drops_receiver ∷ os) e h =
      run-AllRegister (step size s drops_receiver).0 f os e h

  -- When the future that waits in `receiver_` has got its value, the channel still keeps it: until
  -- another receive suspends, every accepted send registers that finished future again.
  pub finished_receiver_registered :
      (s : Shared V) (f : ℕ) (r : Option V) (os : List (Op V))
      → s.receiver ≡ some f
      → (poll_receive f s).1 ≡ ready r
      → NoneSuspends (run size (poll_receive f s).0 os).1
      → AllRegister f (run size (poll_receive f s).0 os).1
  finished_receiver_registered s f r os e p h =
      run-AllRegister (poll_receive f s).0 f os (poll_receive-receiver s f r e p) h
