-- ===== src/Sync/Oneshot/Inv.antt =====
-- What `state_` says of the two ends, at every moment of a channel's life.
use xyco.Common.{true, false, none, List, [], ◌∷◌, ◌≡◌, ◌≢◌, arith}
use xyco.Sync.Oneshot.{
  sender_closed, receiver_closed, Channel, channel, Op, sends, receives, drops_sender,
  drops_receiver, step, run,
}

pub record Inv {ℓ} {V : Type ℓ} (c : Channel V) : Type ℓ where
  pub unsent : c.has_sender ≡ true → c.shared.value ≡ none
  pub sender_live : c.has_sender ≡ true → c.shared.state ≢ sender_closed
  pub receiver_live : c.has_receiver ≡ true → c.shared.state ≢ receiver_closed
  pub sender_gone : c.has_sender ≡ false → c.has_receiver ≡ true → c.shared.state ≡ sender_closed
  pub receiver_gone :
      c.has_receiver ≡ false → c.has_sender ≡ true → c.shared.state ≡ receiver_closed

module _ {ℓ} {V : Type ℓ} where
  pub channel-Inv : Inv (channel {V = V})
  unfolding channel
  channel-Inv = ground arith

  pub step-Inv : (c : Channel V) (o : Op V) → Inv c → Inv (step c o).0
  unfolding step
  step-Inv c (sends v) h = ground arith
  step-Inv c (receives self) h = ground arith
  step-Inv c drops_sender h = ground arith
  step-Inv c drops_receiver h = ground arith

  run-Inv : (c : Channel V) (os : List (Op V)) → Inv c → Inv (run c os).0
  unfolding run
  run-Inv c [] h = h
  run-Inv c (o ∷ os) h = run-Inv (step c o).0 os (step-Inv c o h)

  -- After every history of sends, receives and destructor calls: while the sender is there, no
  -- value is stored and the state is not sender_closed; while the receiver is there, the state is
  -- not receiver_closed; and where only one end is left, the state says which end closed.
  pub run-channel-Inv : (os : List (Op V)) → Inv (run channel os).0
  run-channel-Inv os = run-Inv channel os channel-Inv
