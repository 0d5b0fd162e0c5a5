-- ===== src/Runtime/Reply.antt =====
-- crates/sitas-core/src/runtime.rs: the reply to one request. The sender fills a slot once; the
-- receiver blocks, blocks up to a deadline, looks, or is polled. `Reply` and `ReplySender` share
-- `ReplyState` behind a mutex, so each turn with the lock held is one step.
pub mod Delivery
use sitas.Common.{
  ℕ, Bool, true, false, ◌&&◌, not, Option, none, some, List, [], ◌++◌, Result, ok, err, Poll, ready,
  pending, Waker, Wakes, option_to_list, leb, if◌then◌else◌,
}
use sitas.Runtime.Config.{ShardError, reply_failed, reply_timeout}

pub record ReplyState {ℓ} (V : Type ℓ) : Type ℓ where
  pub value : Option V
  pub sender_alive : Bool
  pub waker : Option Waker

-- What a call of the sender returns: its result, the state it leaves and the wakers it invokes.
pub record Sent {ℓ κ} (R : Type κ) (V : Type ℓ) : Type (ℓ ⊔ κ) where
  pub result : R
  pub after : ReplyState V
  pub wakes : Wakes

module _ {ℓ} {V : Type ℓ} where
  unfoldable pub reply_channel : ReplyState V
  reply_channel = record { value = none; sender_alive = true; waker = none }

  abbrev pub is_none : Option V → Bool
  is_none none = true
  is_none (some v) = false

  -- `impl Drop for ReplySender`
  unfoldable pub drop_sender : ReplyState V → Sent {ℓ, 0} Unit V
  drop_sender r =
      if r.sender_alive
      then record {
        result = tt;
        after = record r { sender_alive = false; waker = none };
        wakes = option_to_list r.waker;
      }
      else record { result = tt; after = r; wakes = [] }

  -- The body of `send`, before the sender is dropped.
  unfoldable pub fill : V → ReplyState V → Sent {ℓ, ℓ} (Result {0, ℓ} Unit V) V
  fill v r = elim r.value [
    | none ↦ record {
      result = ok tt;
      after = record { value = some v; sender_alive = false; waker = none };
      wakes = option_to_list r.waker;
    }
    | some u ↦ record { result = err v; after = r; wakes = [] }
  ]

  -- `send` takes the sender by value, so the drop runs at its end.
  unfoldable pub send : V → ReplyState V → Sent {ℓ, ℓ} (Result {0, ℓ} Unit V) V
  unfolding fill drop_sender
  send v r =
      let filled = fill v r in
      let dropped = drop_sender filled.after in
      record {
        result = filled.result;
        after = dropped.after;
        wakes = filled.wakes ++ dropped.wakes;
      }

  -- One look of the loop of `wait`; `pending` is the wait on the condition variable.
  unfoldable pub wait : ReplyState V → Poll (Result V ShardError) × ReplyState V
  wait r = elim r.value [
    | some v ↦ (ready (ok v), record r { value = none })
    | none ↦ if r.sender_alive then (pending, r) else (ready (err reply_failed), r)
  ]

  -- One look of the loop of `wait_timeout` at time `now`.
  pub wait_timeout : ℕ → ℕ → ReplyState V → Poll (Result V ShardError) × ReplyState V
  wait_timeout now deadline r = elim r.value [
    | some v ↦ (ready (ok v), record r { value = none })
    | none ↦
        if r.sender_alive
        then if leb deadline now then (ready (err reply_timeout), r) else (pending, r)
        else (ready (err reply_failed), r)
  ]

  -- What follows in that loop when the condition variable returns.
  pub after_wait_timeout : Bool → ReplyState V → Poll (Result V ShardError)
  after_wait_timeout timed_out r =
      if timed_out && is_none r.value then ready (err reply_timeout) else pending

  pub try_wait : ReplyState V → Result (Option V) ShardError × ReplyState V
  try_wait r = elim r.value [
    | some v ↦ (ok (some v), record r { value = none })
    | none ↦ if r.sender_alive then (ok none, r) else (err reply_failed, r)
  ]

  -- `impl Future for ReplyFuture`
  pub poll_reply : Waker → ReplyState V → Poll (Result V ShardError) × ReplyState V
  poll_reply w r = elim r.value [
    | some v ↦ (ready (ok v), record r { value = none })
    | none ↦
        if r.sender_alive
        then (pending, record r { waker = some w })
        else (ready (err reply_failed), r)
  ]
