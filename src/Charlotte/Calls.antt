-- ===== src/Charlotte/Calls.antt =====
-- crates/sitas-core/src/charlotte_abi.rs: each call on a sound kernel leaves a sound one.
use sitas.Common.{
  ℕ, suc, ◌+◌, ◌%◌, ◌<◌, ◌≤◌, ◌≡◌, refl, inl, inr, true, Option, none, some, [], ◌∷◌, ok, err,
  length, length-append, leb, if◌then◌else◌, ◌⊎◌, Bool-cases, Option-cases, arith,
}
use sitas.Kv.Keys.{nat_key}
use sitas.Kv.Map.{lookup}
use sitas.Charlotte.{
  no_capability, cancelled, OpCode, OpResult, Buffer, OpState, Shard, KernelState, u32_mod,
  new_shard, new_op, register_shard, submit, post, complete, wake, cancel, close, drain, take_woke,
  new,
}
use sitas.Charlotte.Tally.{All-insert, All-remove, All-map, All-lookup, Known, Known-insert}
use sitas.Charlotte.Soundness.{Fits, room_left, Sound, Sound-weaken, Sound-set_shard, Sound-set_op}

pub register_shard-Sound :
    (n m : ℕ) (s : KernelState) → suc n < u32_mod → Sound n s → Sound (suc n) (register_shard m s).1
unfolding register_shard
register_shard-Sound n m s r h =
    let e : (s.next_queue + 1) % u32_mod ≡ suc s.next_queue = omega (arith, h.queues) in
    record {
      caps = omega (arith, h.caps);
      queues = omega (arith, h.queues, e);
      caps_below = h.caps_below;
      queues_below =
          All-insert _ s.next_queue (new_shard m) s.shards
            (All-map _ _ s.shards (λ o k. omega (arith, k, e)) h.queues_below) (omega (arith, e));
      finished = h.finished;
      placed =
          All-map _ _ s.ops (λ o k. Known-insert s.next_queue o.1.queue (new_shard m) s.shards k)
            h.placed;
      bounded = All-insert _ s.next_queue (new_shard m) s.shards h.bounded (omega arith);
    }

pub submit-Sound :
    (n cq : ℕ) (op : OpCode) (buffer : Option Buffer) (s : KernelState)
    → suc n < u32_mod
    → Sound n s
    → Sound (suc n) (submit cq op buffer s).1
unfolding submit
submit-Sound n cq op buffer s r h = elim (Option-cases (lookup cq s.shards)) [
  | inl e ↦ rw (e, submit) (Sound-weaken n s h)
  | inr (shard, e) ↦ elim (Bool-cases (leb s.cap_table_capacity (length s.ops))) [
    | inl full ↦ rw (e, full, submit) (Sound-weaken n s h)
    | inr room ↦
        let p : (s.next_cap + 1) % u32_mod ≡ suc s.next_cap = omega (arith, h.caps) in
        rw (e, room, submit)
          (record {
            caps = omega (arith, h.caps, p);
            queues = omega (arith, h.queues);
            caps_below =
                All-insert _ s.next_cap (new_op cq op buffer) s.ops
                  (All-map _ _ s.ops (λ o k. omega (arith, k, p)) h.caps_below) (omega (arith, p));
            queues_below = h.queues_below;
            finished = All-insert _ s.next_cap (new_op cq op buffer) s.ops h.finished (λ q. cc);
            placed = All-insert _ s.next_cap (new_op cq op buffer) s.ops h.placed (shard, e);
            bounded = h.bounded;
          })
  ]
]

pub post-Sound :
    (n cap : ℕ) (op : OpState) (shard : Shard) (r : OpResult) (s : KernelState)
    → lookup cap s.ops ≡ some op
    → lookup op.queue s.shards ≡ some shard
    → Sound n s
    → Sound n (post cap op shard r s).1
unfolding post
post-Sound n cap op shard r s e f h =
    let b =
      All-lookup (λ (x : Shard). length x.cq ≤ x.cq_capacity) op.queue shard s.shards h.bounded f in
    let c =
      All-lookup (λ (o : OpState). o.completed ≡ true → o.buffer ≡ none) cap op s.ops h.finished
        e in
    elim (Bool-cases (leb shard.cq_capacity (length shard.cq))) [
      | inl full ↦
          rw (full, post)
            (Sound-set_shard n op.queue shard _ _ f b (Sound-set_op n cap op op s e refl c h))
      | inr room ↦
          rw (room, post)
            (Sound-set_shard n op.queue shard _ _ f
              (omega
                (arith, room_left shard.cq_capacity shard.cq room, length-append shard.cq (_ ∷ [])))
              (Sound-set_op n cap op _ s e refl (λ q. refl) h))
    ]

-- A completion of a known operation is posted and does not panic.
pub complete-cases :
    (n cap : ℕ) (r : OpResult) (s : KernelState)
    → Sound n s
    → ((lookup cap s.ops ≡ none) × (complete cap r s ≡ err no_capability))
      ⊎ ((op : OpState) × (shard : Shard) × (lookup cap s.ops ≡ some op)
          × (lookup op.queue s.shards ≡ some shard)
          × (complete cap r s ≡ ok (post cap op shard (if op.cancelling then cancelled else r) s)))
unfolding complete
complete-cases n cap r s h = elim (Option-cases (lookup cap s.ops)) [
  | inl e ↦ inl (e, rw (e, complete) refl)
  | inr (op, e) ↦
      let (shard, f) = All-lookup (λ o. Known s.shards o.queue) cap op s.ops h.placed e in
      inr (op, shard, e, f, rw (e, f, complete) refl)
]

pub wake-Sound : (n cq : ℕ) (s : KernelState) → Sound n s → Sound n (wake cq s).1
unfolding wake
wake-Sound n cq s h = elim (Option-cases (lookup cq s.shards)) [
  | inl e ↦ rw (e, wake) h
  | inr (shard, e) ↦
      rw (e, wake)
        (Sound-set_shard n cq shard _ s e (All-lookup Fits cq shard s.shards h.bounded e) h)
]

pub take_woke-Sound : (n cq : ℕ) (s : KernelState) → Sound n s → Sound n (take_woke cq s).1
unfolding take_woke
take_woke-Sound n cq s h = elim (Option-cases (lookup cq s.shards)) [
  | inl e ↦ rw (e, take_woke) h
  | inr (shard, e) ↦
      rw (e, take_woke)
        (Sound-set_shard n cq shard _ s e (All-lookup Fits cq shard s.shards h.bounded e) h)
]

pub drain-Sound : (n cq : ℕ) (s : KernelState) → Sound n s → Sound n (drain cq s).1
unfolding drain
drain-Sound n cq s h = elim (Option-cases (lookup cq s.shards)) [
  | inl e ↦ rw (e, drain) h
  | inr (shard, e) ↦ rw (e, drain) (Sound-set_shard n cq shard _ s e (omega arith) h)
]

pub cancel-Sound : (n cap : ℕ) (s : KernelState) → Sound n s → Sound n (cancel cap s).1
unfolding cancel
cancel-Sound n cap s h = elim (Option-cases (lookup cap s.ops)) [
  | inl e ↦ rw (e, cancel) h
  | inr (op, e) ↦ elim (Bool-cases op.completed) [
    | inl c ↦ rw (e, c, cancel) h
    | inr c ↦ rw (e, c, cancel) (Sound-set_op n cap op _ s e refl (λ q. cc) h)
  ]
]

pub close-Sound : (n cap : ℕ) (s : KernelState) → Sound n s → Sound n (close cap s).1
unfolding close
close-Sound n cap s h = elim (Option-cases (lookup cap s.ops)) [
  | inl e ↦ rw (e, close) h
  | inr (op, e) ↦ elim (Bool-cases op.completed) [
    | inl c ↦
        rw (e, c, close)
          (record {
            caps = h.caps;
            queues = h.queues;
            caps_below = All-remove _ cap s.ops h.caps_below;
            queues_below = h.queues_below;
            finished = All-remove _ cap s.ops h.finished;
            placed = All-remove _ cap s.ops h.placed;
            bounded = h.bounded;
          })
    | inr c ↦ rw (e, c, close) h
  ]
]

pub new-Sound : (capacity : ℕ) → Sound 0 (new capacity)
unfolding new
new-Sound capacity = record {
  caps = omega arith;
  queues = omega arith;
  caps_below = tt;
  queues_below = tt;
  finished = tt;
  placed = tt;
  bounded = tt;
}
