-- ===== src/Sync/Mpsc/Fifo.antt =====
-- The channel is a bounded queue.
use xyco.Common.{
  some, List, [], ◌∷◌, ◌++◌, ◌≡◌, arith, ℕ, ◌≤◌, length, ready, append_assoc, append-nil,
  length-append,
}
use xyco.Sync.Mpsc.{
  Shared, channel, Op, sends, receives, copies_sender, copies_receiver, assigns_sender,
  assigns_receiver, counts_sender, closes_sender, leaves_sender, drops_receiver, Output, sent,
  received, accepted, step, run,
}

module _ {ℓ} {V : Type ℓ} where
  -- What one output adds to the values taken in, and to those handed out.
  abbrev taken : Output V → List V
  taken (sent v (ready accepted) w) = v ∷ []
  taken _ = []

  abbrev given : Output V → List V
  given (received (ready (some v)) w) = v ∷ []
  given _ = []

  -- The values whose `send` succeeded, in order.
  abbrev pub accepted_values : List (Output V) → List V
  accepted_values [] = []
  accepted_values (out ∷ outs) = taken out ++ accepted_values outs

  -- The values that `receive` returned, in order.
  abbrev pub delivered_values : List (Output V) → List V
  delivered_values [] = []
  delivered_values (out ∷ outs) = given out ++ delivered_values outs

module _ {ℓ} {V : Type ℓ} (size : ℕ) where
  -- One step keeps the books: what was queued and what comes in is what goes out and what stays.
  step_fifo :
      (s : Shared V) (o : Op V)
      → s.queue ++ taken (step size s o).1 ≡ given (step size s o).1 ++ (step size s o).0.queue
  unfolding step
  step_fifo s (sends self v) = ground (arith, append-nil s.queue)
  step_fifo s (receives self) = ground (arith, append-nil s.queue)
  step_fifo s copies_sender = append-nil s.queue
  step_fifo s copies_receiver = append-nil s.queue
  step_fifo s assigns_sender = append-nil s.queue
  step_fifo s assigns_receiver = append-nil s.queue
  step_fifo s counts_sender = ground (arith, append-nil s.queue)
  step_fifo s closes_sender = ground (arith, append-nil s.queue)
  step_fifo s leaves_sender = ground (arith, append-nil s.queue)
  step_fifo s drops_receiver = append-nil s.queue

  step_bounded :
      (s : Shared V) (o : Op V) → length s.queue ≤ size → length (step size s o).0.queue ≤ size
  unfolding step
  step_bounded s (sends self v) h = ground (arith, length-append s.queue (v ∷ []))
  step_bounded s (receives self) h = ground arith
  step_bounded s copies_sender h = h
  step_bounded s copies_receiver h = h
  step_bounded s assigns_sender h = h
  step_bounded s assigns_receiver h = h
  step_bounded s counts_sender h = ground arith
  step_bounded s closes_sender h = ground arith
  step_bounded s leaves_sender h = ground arith
  step_bounded s drops_receiver h = h

  run_fifo :
      (s : Shared V) (os : List (Op V))
      → s.queue ++ accepted_values (run size s os).1
        ≡ delivered_values (run size s os).1 ++ (run size s os).0.queue
  unfolding run
  run_fifo s [] = append-nil s.queue
  run_fifo s (o ∷ os) =
      simp (← append_assoc, step_fifo s o) (simp (append_assoc, run_fifo (step size s o).0 os))

  run_bounded :
      (s : Shared V) (os : List (Op V))
      → length s.queue ≤ size
      → length (run size s os).0.queue ≤ size
  unfolding run
  run_bounded s [] h = h
  run_bounded s (o ∷ os) h = run_bounded (step size s o).0 os (step_bounded s o h)

  -- In every history of a new channel, with any number of senders and whatever is closed,
  -- assigned to or dropped: the values accepted are, in order, those delivered followed by those still queued, and
  -- at most `size` are queued.
  pub bounded_fifo :
      (os : List (Op V))
      → let (s, outs) = run size channel os in
        (accepted_values outs ≡ delivered_values outs ++ s.queue) × (length s.queue ≤ size)
  unfolding channel
  bounded_fifo os = (run_fifo channel os, run_bounded channel os (omega arith))
