-- ===== src/Sync/Mpsc/Examples.antt =====
-- The theorems of the bounded channel at concrete inputs.
use xyco.Common.{ℕ, ◌≡◌, ◌≢◌, ◌≤◌, ◌++◌, refl, some, none, [], ◌∷◌, ready, arith, length, List}
use xyco.Sync.Mpsc.{
  Shared, channel, opened, accepted, sends, receives, copies_sender, counts_sender, closes_sender,
  leaves_sender, poll_send, poll_receive, run, Op,
}
use xyco.Sync.Mpsc.Fifo.{accepted_values, delivered_values, bounded_fifo}
use xyco.Sync.Mpsc.Wakeups.{poll_receive-poll_send}
use xyco.Sync.Mpsc.Closing.{Agrees, run-channel-Agrees, run-channel-closed}

abbrev history : List (Op ℕ)
history =
    sends 1 10
    ∷ copies_sender
    ∷ sends 2 20
    ∷ sends 3 30
    ∷ receives 9
    ∷ sends 3 30
    ∷ counts_sender
    ∷ leaves_sender
    ∷ receives 9
    ∷ []

bounded_fifo_example :
    let (s, outs) = run 2 channel history in
    (accepted_values outs ≡ delivered_values outs ++ s.queue) × (length s.queue ≤ 2)
bounded_fifo_example = bounded_fifo 2 history

-- Two values of one place each are queued, and the futures 5 and 6 wait.
abbrev full : Shared ℕ
full = record {
  state = opened;
  receiver = none;
  senders = 5 ∷ 6 ∷ [];
  queue = 10 ∷ 20 ∷ [];
  sender_num = 1;
  receiver_num = 1;
  closing = 0;
  leaving = 0;
}

poll_receive-poll_send_example :
    let (s', r, woken) = poll_receive 9 full in
    let (s'', r', _) = poll_send 2 5 30 s' in
    (r ≡ ready (some 10))
    × (woken ≡ some 5)
    × (r' ≡ ready accepted)
    × (s''.queue ≡ 20 ∷ 30 ∷ [])
    × (s''.senders ≡ 6 ∷ [])
poll_receive-poll_send_example =
    poll_receive-poll_send 2 full 9 5 (6 ∷ []) 10 30 (20 ∷ []) (ground arith) refl refl
      (omega arith)

run-channel-Agrees_example : Agrees (run 2 channel history).0
unfolding run channel
run-channel-Agrees_example = run-channel-Agrees 2 history (omega arith)

-- Both senders go, one after the other.
abbrev closing_history : List (Op ℕ)
closing_history =
    sends 1 10 ∷ copies_sender ∷ counts_sender ∷ leaves_sender ∷ counts_sender ∷ closes_sender ∷ []

run-channel-closed_example : (run 2 channel closing_history).0.state ≢ opened
unfolding run channel
run-channel-closed_example = run-channel-closed 2 closing_history (omega arith) (omega arith) refl

-- Both senders go at once: each counts the other, and the channel stays opened.
raced_lem :
    let s =
      (run 2
        (channel {V = ℕ})
        (copies_sender ∷ counts_sender ∷ counts_sender ∷ leaves_sender ∷ leaves_sender ∷ [])).0 in
    (s.state ≡ opened) × (s.sender_num ≡ 0)
unfolding run channel
raced_lem = (refl, refl)
