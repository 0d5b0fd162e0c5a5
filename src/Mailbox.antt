-- ===== src/Mailbox.antt =====
-- crates/sitas-core/src/shard_mailbox.rs: the bounded mailbox that the shard's receiver and the
-- senders share. The state behind the mutex and the atomic counters are one record; a function
-- returns its result, the new state and the wakers that it invokes after it releases the lock.
-- `poll_*` are the bodies of the futures `ShardRecv` and `ShardSend`.
pub mod History
pub mod Invariant
pub mod Fifo
pub mod Wakeups
pub mod Shards
pub mod WorkUnits
mod Tests
use sitas.Common.{
  ℕ, ◌-◌, Bool, true, false, ◌&&◌, ◌||◌, not, Option, none, some, List, [], ◌∷◌, ◌++◌, Result, ok,
  err, Poll, ready, pending, Waker, Wakes, option_to_list, length, is_empty, ltb, ◌==◌,
  if◌then◌else◌, add_word,
}

pub data SendError {ℓ} (M : Type ℓ) : Type ℓ where
  full : M → SendError M
  closed : M → SendError M

pub data RecvError : Type 0 where
  empty closed : RecvError

-- `ShardSendError::into_message`
pub into_message {ℓ} : {M : Type ℓ} → SendError M → M
into_message (full m) = m
into_message (SendError.closed m) = m

pub record Mailbox {ℓ} (M : Type ℓ) : Type ℓ where
  pub shard_id : ℕ
  pub queue : List M
  pub capacity : ℕ
  pub sender_count : ℕ
  pub sender_factory_open : Bool
  pub receiver_taken : Bool
  pub receiver_closed : Bool
  pub recv_waker : Option Waker
  pub send_wakers : List Waker
  pub sent : ℕ
  pub received : ℕ
  pub full_rejections : ℕ
  pub closed_rejections : ℕ

pub record Snapshot : Type 0 where
  pub shard_id : ℕ
  pub capacity : ℕ
  pub len : ℕ
  pub sender_count : ℕ
  pub receiver_taken : Bool
  pub receiver_closed : Bool
  pub sent : ℕ
  pub received : ℕ
  pub full_rejections : ℕ
  pub closed_rejections : ℕ
  pub send_waiter_count : ℕ

-- What a call gives back: its value, the state it leaves, and whom it wakes.
pub record Call {ℓ} (M A : Type ℓ) : Type ℓ where
  pub value : A
  pub after : Mailbox M
  pub wakes : Wakes

-- `VecDeque::pop_front` on the waiting senders.
front : Wakes → Wakes
front [] = []
front (w ∷ ws) = w ∷ []

behind : Wakes → Wakes
behind [] = []
behind (w ∷ ws) = ws

module _ {ℓ} {M : Type ℓ} where
  pub new : ℕ → ℕ → Mailbox M
  new shard_id capacity = record {
    shard_id = shard_id;
    queue = [];
    capacity = capacity;
    sender_count = 0;
    sender_factory_open = true;
    receiver_taken = false;
    receiver_closed = false;
    recv_waker = none;
    send_wakers = [];
    sent = 0;
    received = 0;
    full_rejections = 0;
    closed_rejections = 0;
  }

  -- The branch that accepts a message, common to `try_send` and `poll_send`.
  push_message : M → Mailbox M → Mailbox M
  push_message m b = record b {
    queue = b.queue ++ m ∷ [];
    sent = add_word b.sent 1;
    recv_waker = none;
  }

  reject_closed : Mailbox M → Mailbox M
  reject_closed b = record b { closed_rejections = add_word b.closed_rejections 1 }

  pub try_send : M → Mailbox M → Call M (Result (Unit {ℓ}) (SendError M))
  unfolding push_message reject_closed
  try_send m b =
      if b.receiver_closed
      then record { value = err (SendError.closed m); after = reject_closed b; wakes = [] }
      else if length b.queue == b.capacity
      then record {
        value = err (full m);
        after = record b { full_rejections = add_word b.full_rejections 1 };
        wakes = [];
      }
      else record { value = ok tt; after = push_message m b; wakes = option_to_list b.recv_waker }

  -- No message can come any more.
  pub is_disconnected : Mailbox M → Bool
  is_disconnected b = b.receiver_closed || (not b.sender_factory_open && b.sender_count == 0)

  -- The branch that takes a message, common to `try_recv` and `poll_recv`.
  pop_message : List M → Mailbox M → Mailbox M
  unfolding behind
  pop_message rest b = record b {
    queue = rest;
    received = add_word b.received 1;
    send_wakers = behind b.send_wakers;
  }

  recv_from : List M → Mailbox M → Call M (Result M RecvError)
  recv_from [] b = record {
    value = if is_disconnected b then err RecvError.closed else err empty;
    after = b;
    wakes = [];
  }
  recv_from (m ∷ rest) b = record {
    value = ok m;
    after = pop_message rest b;
    wakes = front b.send_wakers;
  }

  pub try_recv : Mailbox M → Call M (Result M RecvError)
  unfolding recv_from pop_message front behind is_disconnected
  try_recv b = recv_from b.queue b

  -- A waker that would wake the same task stays, so the stored identity is the context's.
  park_receiver : Waker → Mailbox M → Mailbox M
  park_receiver w b = record b { recv_waker = some w }

  poll_recv_from : List M → Waker → Mailbox M → Call M (Poll (Result M RecvError))
  poll_recv_from [] w b =
      if is_disconnected b
      then record { value = ready (err RecvError.closed); after = b; wakes = [] }
      else record { value = pending; after = park_receiver w b; wakes = [] }
  poll_recv_from (m ∷ rest) w b = record {
    value = ready (ok m);
    after = pop_message rest b;
    wakes = front b.send_wakers;
  }

  pub poll_recv : Waker → Mailbox M → Call M (Poll (Result M RecvError))
  unfolding poll_recv_from pop_message front behind is_disconnected park_receiver
  poll_recv w b = poll_recv_from b.queue w b

  pub close_receiver : Mailbox M → Call M (Unit {ℓ})
  close_receiver b =
      if b.receiver_closed then record { value = tt; after = b; wakes = [] } else record {
        value = tt;
        after = record b { receiver_closed = true; recv_waker = none; send_wakers = [] };
        wakes = option_to_list b.recv_waker ++ b.send_wakers;
      }

  -- `recv_waker.take()` when the last message source has gone and nothing is queued.
  release_receiver : Bool → Mailbox M → Call M (Unit {ℓ})
  release_receiver last b =
      if last
      then record {
        value = tt;
        after = record b { recv_waker = none };
        wakes = option_to_list b.recv_waker;
      }
      else record { value = tt; after = b; wakes = [] }

  -- `saturating_sub` on `sender_count`
  pub drop_sender : Mailbox M → Call M (Unit {ℓ})
  unfolding release_receiver
  drop_sender b =
      let count = b.sender_count - 1 in
      release_receiver (not b.sender_factory_open && count == 0 && is_empty b.queue)
        (record b { sender_count = count })

  pub close_sender_factory : Mailbox M → Call M (Unit {ℓ})
  unfolding release_receiver
  close_sender_factory b =
      if not b.sender_factory_open
      then record { value = tt; after = b; wakes = [] }
      else release_receiver (b.sender_count == 0 && is_empty b.queue)
          (record b { sender_factory_open = false })

  -- The message that the future holds is passed in; it is handed back with `pending`.
  pub poll_send : M → Waker → Mailbox M → Call M (Poll (Result (Unit {ℓ}) (SendError M)))
  unfolding push_message reject_closed
  poll_send m w b =
      if b.receiver_closed
      then record { value = ready (err (SendError.closed m)); after = reject_closed b; wakes = [] }
      else if ltb (length b.queue) b.capacity
      then record {
        value = ready (ok tt);
        after = push_message m b;
        wakes = option_to_list b.recv_waker;
      }
      else record {
        value = pending;
        after = record b { send_wakers = b.send_wakers ++ w ∷ [] };
        wakes = [];
      }

  pub wake_one_sender : Mailbox M → Call M (Unit {ℓ})
  unfolding front behind
  wake_one_sender b = record {
    value = tt;
    after = record b { send_wakers = behind b.send_wakers };
    wakes = front b.send_wakers;
  }

  -- Dropping a `ShardSend`: only one that still holds its message passes the wake on.
  pub drop_send : Option M → Mailbox M → Call M (Unit {ℓ})
  unfolding wake_one_sender
  drop_send none b = record { value = tt; after = b; wakes = [] }
  drop_send (some m) b = wake_one_sender b

  -- A sender is handed out by the set, or cloned.
  pub add_sender : Mailbox M → Mailbox M
  add_sender b = record b { sender_count = add_word b.sender_count 1 }

  pub snapshot : Mailbox M → Snapshot
  snapshot b = record {
    shard_id = b.shard_id;
    capacity = b.capacity;
    len = length b.queue;
    sender_count = b.sender_count;
    receiver_taken = b.receiver_taken;
    receiver_closed = b.receiver_closed;
    sent = b.sent;
    received = b.received;
    full_rejections = b.full_rejections;
    closed_rejections = b.closed_rejections;
    send_waiter_count = length b.send_wakers;
  }
