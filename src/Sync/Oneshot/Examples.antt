-- ===== src/Sync/Oneshot/Examples.antt =====
-- The theorems of the one-value channel at concrete inputs.
use xyco.Common.{ℕ, ◌≡◌, ◌≤◌, ◌⊎◌, refl, some, [], ◌∷◌, ready, length}
use xyco.Sync.Oneshot.{channel, accepted, sends, receives, send, receive, run}
use xyco.Sync.Oneshot.Inv.{channel-Inv}
use xyco.Sync.Oneshot.Delivery.{accepted_values, delivered_values, one_delivery, send-receive}

one_delivery_example :
    let outs = (run {V = ℕ} channel (sends 3 ∷ sends 4 ∷ receives 7 ∷ [])).1 in
    (length (accepted_values (sends 3 ∷ sends 4 ∷ receives 7 ∷ []) outs) ≤ 1)
    × ((delivered_values outs ≡ [])
        ⊎ (delivered_values outs ≡ accepted_values (sends 3 ∷ sends 4 ∷ receives 7 ∷ []) outs))
one_delivery_example = one_delivery (sends 3 ∷ sends 4 ∷ receives 7 ∷ [])

send-receive_example :
    let (c', r, woken) = send {V = ℕ} 3 channel in
    (r ≡ accepted)
    × (woken ≡ (channel {V = ℕ}).shared.receiver)
    × ((receive 7 c').1 ≡ ready (some 3))
unfolding channel
send-receive_example = send-receive channel 3 7 channel-Inv refl refl
