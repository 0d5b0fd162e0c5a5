-- ===== src/Runtime/Shards.antt =====
-- crates/sitas-core/src/runtime.rs, ShardMailbox and ShardSet, with the threads that serve them:
-- in every service a shard's thread receives a command, handles it on the state that it owns, and
-- sends the reply, until a command stops it. The channels of the standard library are bounded
-- queues. Replies are known by their index in the order of their creation.
pub mod History
pub mod Order
pub mod Drain
pub mod Owed
pub mod Totality
use sitas.Common.{
  ℕ, zero, suc, ◌+◌, Bool, true, false, Option, none, some, List, [], ◌∷◌, ◌++◌, Result, ok, err,
  Poll, ready, pending, length, get_elem?, set, ltb, if◌then◌else◌,
}
use sitas.Runtime.Config.{
  ShardError, RuntimeSnapshot, invalid_shard_id, send_failed, shard_stopped, mailbox_full,
  thread_join_failed,
}
use sitas.Runtime.Reply.{ReplyState, Sent, reply_channel, send, drop_sender, wait}

-- A handle of a shard, its mailbox and the state of its thread. `running` is false once the loop
-- has ended, which drops the receiver and what is queued.
pub record Shard {ℓ κ} (S : Type ℓ) (C : Type κ) : Type (ℓ ⊔ κ) where
  pub id : ℕ
  pub state : S
  pub queue : List (C × ℕ)
  pub running : Bool

pub record ShardSet {ℓ κ υ} (S : Type ℓ) (C : Type κ) (V : Type υ) : Type (ℓ ⊔ κ ⊔ υ) where
  pub handles : List (Shard S C)
  pub mailbox_capacity : ℕ
  pub replies : List (ReplyState V)

module _ {ℓ κ} {S : Type ℓ} {C : Type κ} where
  -- The loop of `start`, from the shard `shard_idx` on, with `count` shards left.
  unfoldable pub start_shards : S → ℕ → ℕ → List (Shard S C)
  start_shards initial shard_idx zero = []
  start_shards initial shard_idx (suc count) =
      record { id = shard_idx; state = initial; queue = []; running = true }
      ∷ start_shards initial (shard_idx + 1) count

module _ {υ} {V : Type υ} where
  -- `let _ = reply.send(value);`
  unfoldable pub send_reply : ℕ → V → List (ReplyState V) → List (ReplyState V)
  send_reply id value replies = elim (get_elem? replies id) [
    | none ↦ replies
    | some r ↦ set replies id (send value r).after
  ]

  -- The senders of replies that a thread drops with its receiver.
  unfoldable pub drop_senders {κ} :
      {C : Type κ} → List (C × ℕ) → List (ReplyState V) → List (ReplyState V)
  drop_senders [] replies = replies
  drop_senders (p ∷ ps) replies = drop_senders ps (elim (get_elem? replies p.1) [
    | none ↦ replies
    | some r ↦ set replies p.1 (drop_sender r).after
  ])

module _ {ℓ κ υ} {S : Type ℓ} {C : Type κ} {V : Type υ} where
  unfoldable pub start : S → ℕ → ℕ → ShardSet S C V
  unfolding start_shards
  start initial shard_count mailbox_capacity = record {
    handles = start_shards initial 0 shard_count;
    mailbox_capacity = mailbox_capacity;
    replies = [];
  }

  pub snapshot : Bool → ShardSet S C V → RuntimeSnapshot
  snapshot stopped s = record {
    shard_count = length s.handles;
    mailbox_capacity = s.mailbox_capacity;
    stopped = stopped;
  }

  unfoldable pub get_by_id : ℕ → ShardSet S C V → Result {ℓ ⊔ κ, 0} (Shard S C) ShardError
  get_by_id i s = elim (get_elem? s.handles i) [
    | none ↦ err (invalid_shard_id i)
    | some handle ↦ ok handle
  ]

  -- A new reply channel, and the command with its sender at the end of the mailbox.
  unfoldable pub accept : ℕ → Shard S C → C → ShardSet S C V → ShardSet S C V
  accept i handle command s = record s {
    handles =
        set s.handles i
          (record handle { queue = handle.queue ++ (command, length s.replies) ∷ [] });
    replies = s.replies ++ reply_channel ∷ [];
  }

  -- `request` on the mailbox of a handle. A command is accepted with the index of its reply; on a
  -- full mailbox the caller is blocked, and on an error the reply channel goes with the command.
  unfoldable pub request :
      ℕ → Shard S C → C → ShardSet S C V → Poll (Result ℕ ShardError) × ShardSet S C V
  request i handle command s =
      if handle.running
      then if ltb (length handle.queue) s.mailbox_capacity
        then (ready (ok (length s.replies)), accept i handle command s)
        else (pending, s)
      else (ready (err send_failed), s)

  -- `try_request`, with `map_try_send_error`.
  unfoldable pub try_request :
      ℕ → Shard S C → C → ShardSet S C V → Result ℕ ShardError × ShardSet S C V
  try_request i handle command s =
      if handle.running
      then if ltb (length handle.queue) s.mailbox_capacity
        then (ok (length s.replies), accept i handle command s)
        else (err mailbox_full, s)
      else (err send_failed, s)

  -- Up to the wait for the reply, `request_stopped`: only the error differs.
  unfoldable pub send_stopped :
      ℕ → Shard S C → C → ShardSet S C V → Poll (Result ℕ ShardError) × ShardSet S C V
  send_stopped i handle command s =
      if handle.running
      then if ltb (length handle.queue) s.mailbox_capacity
        then (ready (ok (length s.replies)), accept i handle command s)
        else (pending, s)
      else (ready (err shard_stopped), s)

  -- One look of a caller that blocks on the reply.
  unfoldable pub wait_reply :
      ℕ → ShardSet S C V → Option (Poll (Result V ShardError)) × ShardSet S C V
  wait_reply id s = elim (get_elem? s.replies id) [
    | none ↦ (none, s)
    | some r ↦ (some (wait r).0, record s { replies = set s.replies id (wait r).1 })
  ]

-- `handle` is the effect of a command on the state of the shard, and `ends` says which commands
-- leave the loop.
module _ {ℓ κ υ} {S : Type ℓ} {C : Type κ} {V : Type υ} (handle : C → S → V × S)
    (ends : C → Bool) where
  -- One turn of the loop of the thread of a shard on the command received.
  unfoldable pub serve : ℕ → Shard S C → C × ℕ → List (C × ℕ) → ShardSet S C V → ShardSet S C V
  serve i shard received queue s =
      let done = handle received.0 shard.state in
      let replies = send_reply received.1 done.0 s.replies in
      if ends received.0
      then record s {
        handles = set s.handles i (record shard { state = done.1; queue = []; running = false });
        replies = drop_senders queue replies;
      }
      else record s {
        handles = set s.handles i (record shard { state = done.1; queue = queue });
        replies = replies;
      }

  -- The thread of the shard `i` runs; without a command it stays blocked in `recv`.
  unfoldable pub turn : ℕ → ShardSet S C V → ShardSet S C V
  unfolding serve
  turn i s = elim (get_elem? s.handles i) [
    | none ↦ s
    | some shard ↦ elim shard.queue [ [] ↦ s | received ∷ queue ↦ serve i shard received queue s ]
  ]

-- The end of `stop_and_join`: the last error of the stops, else whether a thread panicked.
pub stop_result : List (Result {0, 0} Unit ShardError) → List Bool → Result {0, 0} Unit ShardError
stop_result stops panicked = last_stop (ok tt) stops
  where
    join_all : Result {0, 0} Unit ShardError → List Bool → Result {0, 0} Unit ShardError
    join_all r [] = r
    join_all r (true ∷ ps) = join_all (err thread_join_failed) ps
    join_all r (false ∷ ps) = join_all r ps

    last_stop :
        Result {0, 0} Unit ShardError
        → List (Result {0, 0} Unit ShardError)
        → Result {0, 0} Unit ShardError
    last_stop (ok u) [] = join_all (ok tt) panicked
    last_stop (err e) [] = err e
    last_stop r (ok u ∷ rs) = last_stop r rs
    last_stop r (err e ∷ rs) = last_stop (err e) rs
