-- ===== src/Charlotte/Terminal.antt =====
-- crates/sitas-core/src/charlotte_abi.rs: how an operation ends.
use sitas.Common.{
  ℕ, ◌≡◌, ◌<◌, refl, ap, ◌∙◌, true, false, none, some, [], ◌∷◌, ◌++◌, ok, err, length, leb, arith,
  if◌then◌else◌,
}
use sitas.Kv.Keys.{nat_key}
use sitas.Kv.Map.{lookup, insert}
use sitas.Kv.Map.Lookup.{lookup-insert_self}
use sitas.Charlotte.{
  OpResult, cancelled, cancel_requested, posted, backpressured, already_complete, not_complete,
  close, Completion, OpState, Shard, KernelState, post, complete, cancel, drain,
  kernel_holds_buffer, overflow_pending,
}

-- What a posted completion of an operation looks like.
abbrev pub terminal : ℕ → OpState → OpResult → Completion
terminal cap op r = record {
  cap = cap;
  result = if op.cancelling then cancelled else r;
  returned = op.buffer;
}

abbrev result_of : OpState → OpResult → OpResult
result_of op r = if op.cancelling then cancelled else r

complete_of :
    (cap : ℕ) (r : OpResult) (op : OpState) (shard : Shard) (s : KernelState)
    → lookup cap s.ops ≡ some op
    → lookup op.queue s.shards ≡ some shard
    → complete cap r s ≡ ok (post cap op shard (result_of op r) s)
unfolding complete
complete_of cap r op shard s e f = rw (e, f, complete) refl

abbrev full_queue : ℕ → OpState → Shard → KernelState → KernelState
full_queue cap op shard s = record s {
  shards = insert op.queue (record shard { overflow_pending = true }) s.shards;
  ops = insert cap op s.ops;
}

abbrev finished_op : ℕ → OpState → Shard → OpResult → KernelState → KernelState
finished_op cap op shard r s = record s {
  ops = insert cap (record op { buffer = none; completed = true }) s.ops;
  shards = insert op.queue (record shard { cq = shard.cq ++ terminal cap op r ∷ [] }) s.shards;
}

post_full :
    (cap : ℕ) (r : OpResult) (op : OpState) (shard : Shard) (s : KernelState)
    → leb shard.cq_capacity (length shard.cq) ≡ true
    → post cap op shard (result_of op r) s ≡ (backpressured, full_queue cap op shard s)
unfolding post
post_full cap r op shard s h = rw (h, post) refl

post_room :
    (cap : ℕ) (r : OpResult) (op : OpState) (shard : Shard) (s : KernelState)
    → leb shard.cq_capacity (length shard.cq) ≡ false
    → post cap op shard (result_of op r) s ≡ (posted, finished_op cap op shard r s)
unfolding post
post_room cap r op shard s h = rw (h, post) refl

drain_of :
    (q : ℕ) (shard : Shard) (s : KernelState)
    → lookup q s.shards ≡ some shard
    → drain q s ≡ (
      shard.cq,
      record s { shards = insert q (record shard { overflow_pending = false; cq = [] }) s.shards },
    )
unfolding drain
drain_of q shard s e = rw (e, drain) refl

holds_none :
    (cap : ℕ) (op : OpState) (s : KernelState)
    → lookup cap s.ops ≡ some op
    → op.buffer ≡ none
    → kernel_holds_buffer cap s ≡ false
unfolding kernel_holds_buffer
holds_none cap op s e b = rw (e, b, kernel_holds_buffer) refl

-- A completion for a full queue with room for at least one entry is not lost: the queue is marked,
-- the kernel keeps the operation with its buffer, and once the queue was drained, the same
-- completion is posted, with the buffer.
pub backpressure_not_lossy :
    (cap : ℕ) (r : OpResult) (op : OpState) (shard : Shard) (s : KernelState)
    → lookup cap s.ops ≡ some op
    → lookup op.queue s.shards ≡ some shard
    → 0 < shard.cq_capacity
    → leb shard.cq_capacity (length shard.cq) ≡ true
    → (s1 : KernelState) × (complete cap r s ≡ ok (backpressured, s1))
      × (overflow_pending op.queue s1 ≡ true)
      × ((drain op.queue s1).0 ≡ shard.cq)
      × (s2 : KernelState) × (complete cap r (drain op.queue s1).1 ≡ ok (posted, s2))
      × ((drain op.queue s2).0 ≡ terminal cap op r ∷ [])
      × (kernel_holds_buffer cap s2 ≡ false)
unfolding overflow_pending
backpressure_not_lossy cap r op shard s e f c full =
    let marked : Shard = record shard { overflow_pending = true } in
    let empty : Shard = record shard { overflow_pending = false; cq = [] } in
    let s1 = full_queue cap op shard s in
    let drained = drain_of op.queue marked s1 (lookup-insert_self op.queue marked s.shards) in
    let s1' : KernelState = record s1 { shards = insert op.queue empty s1.shards } in
    let s2 = finished_op cap op empty r s1' in
    let last : Shard = record empty { cq = terminal cap op r ∷ [] } in
    (
      s1,
      complete_of cap r op shard s e f ∙ ap ok (post_full cap r op shard s full),
      rw (lookup-insert_self op.queue marked s.shards, overflow_pending) refl,
      ap (λ o. o.0) drained,
      s2,
      ap (λ o. complete cap r o.1) drained
          ∙ complete_of cap r op empty s1' (lookup-insert_self cap op s.ops)
              (lookup-insert_self op.queue empty s1.shards)
          ∙ ap ok (post_room cap r op empty s1' (ground arith)),
      ap (λ o. o.0) (drain_of op.queue last s2 (lookup-insert_self op.queue last s1'.shards)),
      holds_none cap (record op { buffer = none; completed = true }) s2
          (lookup-insert_self cap (record op { buffer = none; completed = true }) s1'.ops) refl,
    )

-- Cancelling an operation that has not completed only marks it: the kernel keeps its buffer, and
-- whatever result the completion brings, what it posts to a queue with room is `Cancelled`, with
-- the buffer. Only then can the capability be closed, and a second cancel finds the operation
-- complete.
pub cancel_defers :
    (cap : ℕ) (r : OpResult) (op : OpState) (shard : Shard) (s : KernelState)
    → lookup cap s.ops ≡ some op
    → lookup op.queue s.shards ≡ some shard
    → op.completed ≡ false
    → leb shard.cq_capacity (length shard.cq) ≡ false
    → let s1 = (cancel cap s).1 in
      ((cancel cap s).0 ≡ ok cancel_requested)
      × (kernel_holds_buffer cap s1 ≡ kernel_holds_buffer cap s)
      × (close cap s1 ≡ (err not_complete, s1))
      × (s2 : KernelState) × (complete cap r s1 ≡ ok (posted, s2))
      × ((drain op.queue s2).0
          ≡ shard.cq ++ record { cap = cap; result = cancelled; returned = op.buffer } ∷ [])
      × ((cancel cap s2).0 ≡ ok already_complete)
      × ((close cap s2).0 ≡ ok tt)
unfolding cancel close kernel_holds_buffer
cancel_defers cap r op shard s e f c room =
    let marked : OpState = record op { cancelling = true; completed = false } in
    let s1 : KernelState = record s { ops = insert cap marked s.ops } in
    let found = lookup-insert_self cap marked s.ops in
    let s2 = finished_op cap marked shard r s1 in
    let done : OpState = record marked { buffer = none; completed = true } in
    let ended = lookup-insert_self cap done s1.ops in
    let last : Shard = record shard { cq = shard.cq ++ terminal cap marked r ∷ [] } in
    let asked : cancel cap s ≡ (ok cancel_requested, s1) = rw (e, c, cancel) refl in
    rw asked (
      refl,
      rw (found, e, kernel_holds_buffer) refl,
      rw (found, close) refl,
      s2,
      complete_of cap r marked shard s1 found f ∙ ap ok (post_room cap r marked shard s1 room),
      ap (λ o. o.0) (drain_of op.queue last s2 (lookup-insert_self op.queue last s.shards)),
      rw (ended, cancel) refl,
      rw (ended, close) refl,
    )
