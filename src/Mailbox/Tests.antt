-- ===== src/Mailbox/Tests.antt =====
-- Runs and instances for shard_mailbox.rs.
use sitas.Common.{
  ℕ, ok, get_elem?, ◌+◌, ◌≤◌, ◌≡◌, ◌≢◌, ◌⊎◌, inl, refl, true, false, none, some, List, [], ◌∷◌,
  ◌++◌, err, ready, pending, arith, replicate, if◌then◌else◌,
}
use sitas.Mailbox.{
  Mailbox, full, RecvError, is_disconnected, new, try_send, poll_send, try_recv, poll_recv,
  add_sender, drop_sender, close_sender_factory,
}
use sitas.Mailbox.History.{
  Op, trying_send, polling_send, trying_recv, polling_recv, adding_sender, dropping_sender,
  closing_factory, dropping_send, step, run,
}
use sitas.Mailbox.Invariant.{IsValid, run-IsValid}
use sitas.Mailbox.Shards.{
  ShardMailboxSet, asking_sender, asking_receiver, with_shard_count, drop_set, receivers_granted,
}
use sitas.Mailbox.Shards.Ownership.{receivers_granted-le, taken}
use sitas.Mailbox.Shards.Ends.{drop_set_wakes_receiver}
use sitas.Mailbox.Fifo.{run-fifo}
use sitas.Mailbox.Wakeups.{
  Woken, step_wakes_receiver, poll_send-try_send, drain_then_report, strands_sender,
}

abbrev fresh : Mailbox ℕ
fresh = record {
  shard_id = 0;
  queue = [];
  capacity = 1;
  sender_count = 0;
  sender_factory_open = true;
  receiver_taken = false;
  receiver_closed = false;
  recv_waker = none;
  send_wakers = [];
  sent = 0;
  received = 0;
  full_rejections = 0;
  closed_rejections = 0;
}

new_is_fresh : new 0 1 ≡ fresh
unfolding new
new_is_fresh = refl

-- The receiver of an open mailbox waits with waker 5.
abbrev waiting : Mailbox ℕ
waiting = record fresh { sender_count = 1; recv_waker = some 5 }

abbrev filled : Mailbox ℕ
filled = record fresh { queue = 7 ∷ []; sent = 1 }

abbrev script : List (Op ℕ)
script =
    adding_sender
    ∷ trying_send 10
    ∷ polling_send 11 3
    ∷ trying_recv
    ∷ polling_send 11 3
    ∷ closing_factory
    ∷ dropping_sender
    ∷ polling_recv 4
    ∷ polling_recv 4
    ∷ []

run-script :
    ((run script fresh).accepted ≡ 10 ∷ 11 ∷ [])
    × ((run script fresh).delivered ≡ 10 ∷ 11 ∷ [])
    × ((run script fresh).wakes ≡ 3 ∷ [])
unfolding run step try_send add_sender poll_send try_recv poll_recv drop_sender close_sender_factory
run-script = (refl, refl, refl)

fresh-IsValid : IsValid fresh
unfolding is_disconnected
fresh-IsValid = ground arith

filled-IsValid : IsValid filled
unfolding is_disconnected
filled-IsValid = ground arith

waiting-IsValid : IsValid waiting
unfolding is_disconnected
waiting-IsValid = ground arith

run-IsValid_example : IsValid (run script fresh).after
run-IsValid_example = run-IsValid script fresh (omega arith) fresh-IsValid

run-fifo_example :
    (run script fresh).delivered ++ (run script fresh).after.queue
    ≡ [] ++ (run script fresh).accepted
run-fifo_example = run-fifo script fresh

step_wakes_receiver_example : Woken 5 (step (trying_send 9) waiting).wakes
unfolding step try_send
step_wakes_receiver_example =
    step_wakes_receiver (trying_send 9) waiting 5 waiting-IsValid (omega arith) refl tt (inl refl)

poll_send-try_send_example :
    ((try_send 8 filled).value ≡ err (full 8))
      × ((poll_send 8 2 filled).value ≡ pending)
      × ((poll_send 8 2 filled).after ≡ record filled { send_wakers = 2 ∷ [] })
      × ((poll_send 8 2 filled).wakes ≡ [])
    ⊎ ((try_send 8 filled).value ≢ err (full 8))
      × ((poll_send 8 2 filled).value ≡ ready (try_send 8 filled).value)
      × ((poll_send 8 2 filled).after ≡ (try_send 8 filled).after)
      × ((poll_send 8 2 filled).wakes ≡ (try_send 8 filled).wakes)
poll_send-try_send_example = poll_send-try_send 8 2 filled filled-IsValid

drain_then_report_example :
    let t = run (replicate 1 trying_recv) filled in
    (t.delivered ≡ 7 ∷ [])
    × ((try_recv t.after).value
        ≡ (if is_disconnected filled then err RecvError.closed else err RecvError.empty))
drain_then_report_example = drain_then_report filled

strands_sender_example :
    let parked =
      (run
        (polling_send 8 2 ∷ polling_send 9 1 ∷ dropping_send (some 9) ∷ polling_send 8 2 ∷ [])
        filled).after in
    let t = step trying_recv parked in
    (t.wakes ≡ 1 ∷ []) × (t.after.queue ≡ []) × (t.after.send_wakers ≡ 2 ∷ [])
strands_sender_example = strands_sender filled 7 8 9 1 2 refl refl refl refl

abbrev pair_set : ShardMailboxSet ℕ
pair_set = record { mailboxes = fresh ∷ record waiting { sender_count = 0 } ∷ [] }

receivers_granted-le_example :
    receivers_granted 1 (asking_receiver 1 ∷ asking_sender 1 ∷ asking_receiver 1 ∷ []) pair_set
      + taken 1 pair_set
    ≤ 1
receivers_granted-le_example =
    receivers_granted-le 1 (asking_receiver 1 ∷ asking_sender 1 ∷ asking_receiver 1 ∷ []) pair_set

two_shards :
    with_shard_count 2 1 ≡ ok (record { mailboxes = fresh ∷ record fresh { shard_id = 1 } ∷ [] })
unfolding with_shard_count new
two_shards = refl

parked_end : IsValid (record fresh { recv_waker = some 5 })
unfolding is_disconnected
parked_end = ground arith

drop_set_wakes_receiver_example :
    let (wakes, s') =
      drop_set (record { mailboxes = fresh ∷ record fresh { recv_waker = some 5 } ∷ [] }) in
    Woken 5 wakes
    × ((b' : Mailbox ℕ) × (get_elem? s'.mailboxes 1 ≡ some b')
        × ((poll_recv 6 b').value ≡ ready (err RecvError.closed)))
drop_set_wakes_receiver_example =
    drop_set_wakes_receiver
      (record { mailboxes = fresh ∷ record fresh { recv_waker = some 5 } ∷ [] }) 1
      (record fresh { recv_waker = some 5 }) 5 6 refl parked_end refl refl
