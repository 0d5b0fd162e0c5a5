-- ===== src/Channel.antt =====
-- crates/sitas-core/src/shard_runtime.rs: the channel between shards on platforms without a
-- standard library. Its ring, its closed flag and the waker of its receiver are read and written
-- one at a time, so each access is an event, and the events of the receiver, of the senders and of
-- those who close come in any order. A push holds `push_lock`, so pushes do not overlap.
pub mod Wakes
pub mod Accesses
pub mod Protocol
pub mod Race
mod Tests
use sitas.Common.{
  ℕ, suc, ◌-◌, Bool, true, false, Option, none, some, List, [], ◌∷◌, ◌++◌, Result, ok, err, Waker,
  ltb, ◌==◌, if◌then◌else◌,
}
use sitas.Ring.{Ring, Fault, bounded, try_push, pop}

-- How far a poll of `Recv` has come: `idle` before it starts and after it returned a message or
-- the end, `parked` after it returned `Pending`, and between these the access that is next.
pub data Phase : Type 0 where
  idle checking_closed registering popping_again checking_closed_again parked : Phase

-- The shared state; the senders that found the channel open and have not pushed yet (`cleared`);
-- the pushes and closes whose `wake_receiver` has not run yet (`owed`); whether the waker was
-- invoked since it was registered; whether a poll has reported the end; and all messages accepted
-- and received so far.
pub record Channel {ℓ} (M : Type ℓ) : Type ℓ where
  pub queue : Ring M
  pub closed : Bool
  pub recv_waker : Option Waker
  pub cleared : ℕ
  pub owed : ℕ
  pub woken : Bool
  pub phase : Phase
  pub ended : Bool
  pub accepted : List M
  pub received : List M

-- `ShardChannelError::InvalidCapacity`
pub data ShardChannelError : Type 0 where
  invalid_capacity : ShardChannelError

pub data Event {ℓ} (M : Type ℓ) : Type ℓ where
  checks : Event M
  pushes : M → Event M
  wakes : Event M
  closes : Event M
  polls : Waker → Event M
  tries : Event M

module _ {ℓ} {M : Type ℓ} where
  new : ℕ → Channel M
  new capacity = record {
    queue = bounded capacity;
    closed = false;
    recv_waker = none;
    cleared = 0;
    owed = 0;
    woken = false;
    phase = idle;
    ended = false;
    accepted = [];
    received = [];
  }

  pub channel : ℕ → Result (Channel M) ShardChannelError
  unfolding new
  channel capacity = if ltb capacity 2 then err invalid_capacity else ok (new capacity)

  -- The check at the start of `try_send`.
  check : Channel M → Channel M
  check s = if s.closed then s else record s { cleared = suc s.cleared }

  -- The push of a sender, and what it still has to do.
  pushed : M → Channel M → Result (Result (Unit {0}) M × Ring M) Fault → Result (Channel M) Fault
  pushed m s (err f) = err f
  pushed m s (ok (err e, r)) = ok (record s { queue = r; cleared = s.cleared - 1 })
  pushed m s (ok (ok u, r)) = ok (record s {
    queue = r;
    cleared = s.cleared - 1;
    owed = suc s.owed;
    accepted = s.accepted ++ m ∷ [];
  })

  push : M → Channel M → Result (Channel M) Fault
  unfolding pushed
  push m s = if s.cleared == 0 then ok s else pushed m s (try_push m s.queue)

  -- `wake_receiver` takes the waker and invokes it.
  invoke : Option Waker → Channel M → Channel M
  invoke none s = s
  invoke (some w) s = record s { recv_waker = none; woken = true }

  wake_receiver : Channel M → Channel M
  unfolding invoke
  wake_receiver s = if s.owed == 0 then s else invoke s.recv_waker (record s { owed = s.owed - 1 })

  -- The store of `close`.
  close : Channel M → Channel M
  close s = record s { closed = true; owed = suc s.owed }

  -- A pop: a message ends the poll, and without one it goes on at `next`.
  popped : Phase → Channel M → Result (Option M × Ring M) Fault → Result (Channel M) Fault
  popped next s (err f) = err f
  popped next s (ok (none, r)) = ok (record s { queue = r; phase = next })
  popped next s (ok (some m, r)) =
      ok (record s { queue = r; phase = idle; received = s.received ++ m ∷ [] })

  -- A look at the closed flag: the end of the channel ends the poll.
  look : Phase → Channel M → Channel M
  look next s =
      if s.closed then record s { phase = idle; ended = true } else record s { phase = next }

  -- The next access of a poll with this waker.
  poll_from : Phase → Waker → Channel M → Result (Channel M) Fault
  unfolding popped look
  poll_from idle w s = popped checking_closed s (pop s.queue)
  poll_from parked w s = popped checking_closed s (pop s.queue)
  poll_from checking_closed w s = ok (look registering s)
  poll_from registering w s =
      ok (record s { recv_waker = some w; woken = false; phase = popping_again })
  poll_from popping_again w s = popped checking_closed_again s (pop s.queue)
  poll_from checking_closed_again w s = ok (look parked s)

  -- `try_recv`, which the receiver can call where no poll is under way.
  try_recv_from : Phase → Channel M → Result (Channel M) Fault
  unfolding popped
  try_recv_from idle s = popped idle s (pop s.queue)
  try_recv_from parked s = popped idle s (pop s.queue)
  try_recv_from p s = ok s

  pub step : Event M → Channel M → Result (Channel M) Fault
  unfolding check push wake_receiver close poll_from try_recv_from
  step checks s = ok (check s)
  step (pushes m) s = push m s
  step wakes s = ok (wake_receiver s)
  step closes s = ok (close s)
  step (polls w) s = poll_from s.phase w s
  step tries s = try_recv_from s.phase s

  abbrev and_then :
      Result (Channel M) Fault → (Channel M → Result (Channel M) Fault) → Result (Channel M) Fault
  and_then (ok s) f = f s
  and_then (err e) f = err e

  pub run : List (Event M) → Channel M → Result (Channel M) Fault
  run [] s = ok s
  run (e ∷ es) s = and_then (step e s) (run es)
