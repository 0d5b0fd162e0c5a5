-- ===== src/Charlotte/Soundness.antt =====
-- crates/sitas-core/src/charlotte_abi.rs: what every call on a kernel keeps.
use sitas.Common.{ℕ, suc, ◌<◌, ◌≤◌, ◌≡◌, true, false, none, some, List, All, length, leb, arith}
use sitas.Kv.Keys.{nat_key}
use sitas.Kv.Map.{lookup, insert}
use sitas.Charlotte.{Completion, OpState, Shard, KernelState}
use sitas.Charlotte.Tally.{All-insert, All-map, All-lookup, key-lt, Known, Known-insert}

abbrev pub Fits : Shard → Type 0
Fits x = length x.cq ≤ x.cq_capacity

pub room_left : (c : ℕ) (xs : List Completion) → leb c (length xs) ≡ false → length xs < c
room_left c xs h = ground arith

-- At most `n` capabilities and `n` queues were given out; each operation has a queue, and none
-- that has completed keeps a buffer; no queue is longer than its capacity.
pub record Sound (n : ℕ) (s : KernelState) : Type 0 where
  pub caps : s.next_cap ≤ n
  pub queues : s.next_queue ≤ n
  pub caps_below : All (λ e. e.0 < s.next_cap) s.ops
  pub queues_below : All (λ e. e.0 < s.next_queue) s.shards
  pub finished : All (λ e. e.1.completed ≡ true → e.1.buffer ≡ none) s.ops
  pub placed : All (λ e. Known s.shards e.1.queue) s.ops
  pub bounded : All (λ e. length e.1.cq ≤ e.1.cq_capacity) s.shards

pub Sound-weaken : (n : ℕ) (s : KernelState) → Sound n s → Sound (suc n) s
Sound-weaken n s h = record {
  caps = omega (arith, h.caps);
  queues = omega (arith, h.queues);
  caps_below = h.caps_below;
  queues_below = h.queues_below;
  finished = h.finished;
  placed = h.placed;
  bounded = h.bounded;
}

-- A known queue is changed.
pub Sound-set_shard :
    (n q : ℕ) (old shard : Shard) (s : KernelState)
    → lookup q s.shards ≡ some old
    → length shard.cq ≤ shard.cq_capacity
    → Sound n s
    → Sound n (record s { shards = insert q shard s.shards })
Sound-set_shard n q old shard s e b h = record {
  caps = h.caps;
  queues = h.queues;
  caps_below = h.caps_below;
  queues_below =
      All-insert _ q shard s.shards h.queues_below
        (key-lt q s.next_queue old s.shards h.queues_below e);
  finished = h.finished;
  placed = All-map _ _ s.ops (λ o k. Known-insert q o.1.queue shard s.shards k) h.placed;
  bounded = All-insert _ q shard s.shards h.bounded b;
}

-- A known operation is changed and keeps its queue.
pub Sound-set_op :
    (n cap : ℕ) (old op : OpState) (s : KernelState)
    → lookup cap s.ops ≡ some old
    → op.queue ≡ old.queue
    → (op.completed ≡ true → op.buffer ≡ none)
    → Sound n s
    → Sound n (record s { ops = insert cap op s.ops })
Sound-set_op n cap old op s e q c h = record {
  caps = h.caps;
  queues = h.queues;
  caps_below =
      All-insert _ cap op s.ops h.caps_below (key-lt cap s.next_cap old s.ops h.caps_below e);
  queues_below = h.queues_below;
  finished = All-insert _ cap op s.ops h.finished c;
  placed =
      All-insert _ cap op s.ops h.placed
        (rw q (All-lookup (λ o. Known s.shards o.queue) cap old s.ops h.placed e));
  bounded = h.bounded;
}
