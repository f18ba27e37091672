-- ===== src/Sync/Oneshot/Delivery.antt =====
-- Which values go through the channel.
use xyco.Common.{
  ℕ, ap, true, false, Option, none, some, List, [], ◌∷◌, ◌++◌, ◌≡◌, ◌⊎◌, inl, refl, arith, ℕ, ◌≤◌,
  length, ready, ap,
}
use xyco.Sync.Oneshot.{
  channel, send, receive, rejected, Channel, channel, Op, sends, receives, drops_sender,
  drops_receiver, Output, sent, received, accepted, rejected, send, receive, step, run,
}
use xyco.Sync.Oneshot.Inv.{Inv, step-Inv, channel-Inv}

module _ {ℓ} {V : Type ℓ} where
  -- The values whose `send` succeeded.
  abbrev pub accepted_values : List (Op V) → List (Output V) → List V
  accepted_values (sends v ∷ os) (sent accepted w ∷ outs) = v ∷ accepted_values os outs
  accepted_values (o ∷ os) (out ∷ outs) = accepted_values os outs
  accepted_values _ _ = []

  -- The values that `receive` returned.
  abbrev pub delivered_values : List (Output V) → List V
  delivered_values [] = []
  delivered_values (received (ready (some v)) ∷ outs) = v ∷ delivered_values outs
  delivered_values (out ∷ outs) = delivered_values outs

  -- The value that waits in the channel.
  abbrev stored : Option V → List V
  stored none = []
  stored (some v) = v ∷ []

  no_sender :
      (c : Channel V) (os : List (Op V))
      → c.has_sender ≡ false
      → accepted_values os (run c os).1 ≡ []
  unfolding run step
  no_sender c [] h = refl
  no_sender c (sends v ∷ os) h = ground (arith, no_sender (step c (sends v)).0 os)
  no_sender c (receives f ∷ os) h = ground (arith, no_sender (step c (receives f)).0 os)
  no_sender c (drops_sender ∷ os) h = ground (arith, no_sender (step c drops_sender).0 os)
  no_sender c (drops_receiver ∷ os) h = ground (arith, no_sender (step c drops_receiver).0 os)

  no_receiver :
      (c : Channel V) (os : List (Op V))
      → c.has_receiver ≡ false
      → delivered_values (run c os).1 ≡ []
  unfolding run step
  no_receiver c [] h = refl
  no_receiver c (sends v ∷ os) h = ground (arith, no_receiver (step c (sends v)).0 os)
  no_receiver c (receives f ∷ os) h = ground (arith, no_receiver (step c (receives f)).0 os)
  no_receiver c (drops_sender ∷ os) h = ground (arith, no_receiver (step c drops_sender).0 os)
  no_receiver c (drops_receiver ∷ os) h = ground (arith, no_receiver (step c drops_receiver).0 os)

  abbrev OneDelivery : Channel V → List (Op V) → Type ℓ
  OneDelivery c os =
      (delivered_values (run c os).1 ≡ [])
      ⊎ (delivered_values (run c os).1 ≡ stored c.shared.value ++ accepted_values os (run c os).1)

  run-OneDelivery : (c : Channel V) (os : List (Op V)) → Inv c → OneDelivery c os
  unfolding run step
  run-OneDelivery c [] h = inl refl
  run-OneDelivery c (sends v ∷ os) h = ground (
    arith,
    run-OneDelivery (step c (sends v)).0 os (step-Inv c (sends v) h),
    no_sender (step c (sends v)).0 os,
  )
  run-OneDelivery c (receives f ∷ os) h = ground (
    arith,
    run-OneDelivery (step c (receives f)).0 os (step-Inv c (receives f) h),
    no_sender (step c (receives f)).0 os,
    no_receiver (step c (receives f)).0 os,
  )
  run-OneDelivery c (drops_sender ∷ os) h =
      ground (arith, run-OneDelivery (step c drops_sender).0 os (step-Inv c drops_sender h))
  run-OneDelivery c (drops_receiver ∷ os) h =
      ground (arith, run-OneDelivery (step c drops_receiver).0 os (step-Inv c drops_receiver h))

  length-no_sender :
      (c : Channel V) (os : List (Op V))
      → c.has_sender ≡ false
      → length (accepted_values os (run c os).1) ≡ 0
  length-no_sender c os h = ap length (no_sender c os h)

  accepted_le_one :
      (c : Channel V) (os : List (Op V)) → length (accepted_values os (run c os).1) ≤ 1
  unfolding run step
  accepted_le_one c [] = omega arith
  accepted_le_one c (sends v ∷ os) =
      ground
        (arith, accepted_le_one (step c (sends v)).0 os, length-no_sender (step c (sends v)).0 os)
  accepted_le_one c (receives f ∷ os) = ground (arith, accepted_le_one (step c (receives f)).0 os)
  accepted_le_one c (drops_sender ∷ os) = ground (arith, accepted_le_one (step c drops_sender).0 os)
  accepted_le_one c (drops_receiver ∷ os) =
      ground (arith, accepted_le_one (step c drops_receiver).0 os)

  -- In every history of a channel at most one `send` succeeds, and what `receive` returned is
  -- nothing or exactly the value of that `send`, once.
  pub one_delivery :
      (os : List (Op V))
      → let outs = (run channel os).1 in
        (length (accepted_values os outs) ≤ 1)
        × ((delivered_values outs ≡ []) ⊎ (delivered_values outs ≡ accepted_values os outs))
  unfolding channel
  one_delivery os = (accepted_le_one channel os, first)
    where
      first : OneDelivery channel os
      first = run-OneDelivery channel os channel-Inv

  -- While both ends are there, `send` succeeds and registers the future that waits, if one does,
  -- and the next `receive`, by any future, returns the value sent.
  pub send-receive :
      (c : Channel V) (v : V) (self : ℕ)
      → Inv c
      → c.has_sender ≡ true
      → c.has_receiver ≡ true
      → let (c', r, woken) = send v c in
        (r ≡ accepted) × (woken ≡ c.shared.receiver) × ((receive self c').1 ≡ ready (some v))
  unfolding send receive
  send-receive c v self h hs hr = ground arith

  -- Where the receiver or the sender's own share is gone, `send` hands the value back, registers
  -- nothing and leaves the channel as it was.
  pub send_refused :
      (c : Channel V) (v : V)
      → Inv c
      → (c.has_sender ≡ false) ⊎ (c.has_receiver ≡ false)
      → send v c ≡ (c, rejected v, none)
  unfolding send
  send_refused c v h e = ground arith
