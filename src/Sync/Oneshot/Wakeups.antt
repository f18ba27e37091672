-- ===== src/Sync/Oneshot/Wakeups.antt =====
-- Which futures the channel registers for a wake-up.
use xyco.Common.{true, false, none, some, List, [], ◌∷◌, ◌≡◌, refl, arith, ℕ, ready, pending}
use xyco.Sync.Oneshot.Inv.{Inv}
use xyco.Sync.Oneshot.{
  accepted, Channel, Op, sends, receives, drops_sender, drops_receiver, Output, sent, close_sender,
  send, receive, step, run,
}

module _ {ℓ} {V : Type ℓ} where
  -- The futures that a history registers.
  abbrev pub registered : List (Output V) → List ℕ
  registered [] = []
  registered (sent r (some f) ∷ outs) = f ∷ registered outs
  registered (out ∷ outs) = registered outs

  run-registered :
      (c : Channel V) (os : List (Op V)) → c.has_sender ≡ false → registered (run c os).1 ≡ []
  unfolding run step
  run-registered c [] h = refl
  run-registered c (sends v ∷ os) h = ground (arith, run-registered (step c (sends v)).0 os)
  run-registered c (receives f ∷ os) h = ground (arith, run-registered (step c (receives f)).0 os)
  run-registered c (drops_sender ∷ os) h = ground (arith, run-registered (step c drops_sender).0 os)
  run-registered c (drops_receiver ∷ os) h =
      ground (arith, run-registered (step c drops_receiver).0 os)

  -- A `receive` that suspends while the sender is there is the one that the next `send` registers,
  -- and that send succeeds.
  pub receive-send_wakes :
      (c : Channel V) (self : ℕ) (v : V)
      → Inv c
      → (receive self c).1 ≡ pending
      → c.has_sender ≡ true
      → let (c', r, woken) = send v (receive self c).0 in (r ≡ accepted) × (woken ≡ some self)
  unfolding receive send
  receive-send_wakes c self v i p h = ground arith

  -- A future that waits when the sender is dropped is not registered then, nor by anything that
  -- happens later, though a poll would answer at once that no value comes.
  pub drop_sender_wakes_none :
      (c : Channel V) (self : ℕ) (os : List (Op V))
      → (receive self c).1 ≡ pending
      → c.has_sender ≡ true
      → let c' = (receive self c).0 in
        (registered (run c' (drops_sender ∷ os)).1 ≡ [])
        × ((receive self (close_sender c')).1 ≡ ready none)
  unfolding receive run step
  drop_sender_wakes_none c self os p h =
      ground (arith, run-registered (close_sender (receive self c).0) os)
