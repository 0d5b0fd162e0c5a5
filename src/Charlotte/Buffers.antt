-- ===== src/Charlotte/Buffers.antt =====
-- crates/sitas-core/src/charlotte_abi.rs: the buffers that the kernel owns, call by call.
use sitas.Common.{
  ℕ, ◌+◌, ◌≡◌, refl, ap, inl, inr, Bool, true, false, none, some, List, [], ◌∷◌, ◌++◌, length, leb,
  Bool-cases, Option-cases, arith, option_to_list,
}
use sitas.Kv.Keys.{nat_key}
use sitas.Kv.Map.{lookup}
use sitas.Charlotte.{
  OpResult, Buffer, Completion, OpState, Shard, KernelState, new_shard, register_shard, post, wake,
  cancel, close, drain, take_woke,
}
use sitas.Charlotte.History.{returned_buffers}
use sitas.Charlotte.Tally.{
  tally, tally-append, total, total-insert_new, total-insert_known, total-remove, lookup-fresh,
  All-lookup,
}
use sitas.Charlotte.Soundness.{Sound}

module _ (p : Buffer → Bool) where
  -- The buffers that meet the test, in the hands of an operation and in a completion queue.
  abbrev pub held : OpState → ℕ
  held op = tally p (option_to_list op.buffer)

  abbrev pub queued : Shard → ℕ
  queued shard = tally p (returned_buffers shard.cq)

  abbrev pub owned : KernelState → ℕ
  owned s = total held s.ops + total queued s.shards

  returned_buffers-append :
      (xs : List Completion) (c : Completion)
      → tally p (returned_buffers (xs ++ c ∷ []))
        ≡ tally p (returned_buffers xs) + tally p (option_to_list c.returned)
  unfolding returned_buffers
  returned_buffers-append [] c = omega (arith, tally-append p (option_to_list c.returned) [])
  returned_buffers-append (x ∷ xs) c = omega (
    arith,
    tally-append p (option_to_list x.returned) (returned_buffers (xs ++ c ∷ [])),
    tally-append p (option_to_list x.returned) (returned_buffers xs),
    returned_buffers-append xs c,
  )

  pub register_shard-owned :
      (n m : ℕ) (s : KernelState) → Sound n s → owned (register_shard m s).1 ≡ owned s
  unfolding register_shard returned_buffers
  register_shard-owned n m s h = omega (
    arith,
    total-insert_new queued s.next_queue (new_shard m) s.shards
        (lookup-fresh s.next_queue s.shards h.queues_below),
  )

  pub post-owned :
      (cap : ℕ) (op : OpState) (shard : Shard) (r : OpResult) (s : KernelState)
      → lookup cap s.ops ≡ some op
      → lookup op.queue s.shards ≡ some shard
      → owned (post cap op shard r s).1 ≡ owned s
  unfolding post
  post-owned cap op shard r s e f = elim (Bool-cases (leb shard.cq_capacity (length shard.cq))) [
    | inl full ↦
        rw (full, post)
          (omega (
            arith,
            total-insert_known held cap op op s.ops e,
            total-insert_known queued op.queue shard (record shard { overflow_pending = true })
                s.shards f,
          ))
    | inr room ↦
        let c : Completion = record { cap = cap; result = r; returned = op.buffer } in
        rw (room, post)
          (omega (
            arith,
            total-insert_known held cap op (record op { buffer = none; completed = true }) s.ops e,
            total-insert_known queued op.queue shard (record shard { cq = shard.cq ++ c ∷ [] })
                s.shards f,
            returned_buffers-append shard.cq c,
          ))
  ]

  pub wake-owned : (cq : ℕ) (s : KernelState) → owned (wake cq s).1 ≡ owned s
  unfolding wake
  wake-owned cq s = elim (Option-cases (lookup cq s.shards)) [
    | inl e ↦ rw (e, wake) refl
    | inr (shard, e) ↦
        rw (e, wake)
          (omega
            (arith, total-insert_known queued cq shard (record shard { woke = true }) s.shards e))
  ]

  pub take_woke-owned : (cq : ℕ) (s : KernelState) → owned (take_woke cq s).1 ≡ owned s
  unfolding take_woke
  take_woke-owned cq s = elim (Option-cases (lookup cq s.shards)) [
    | inl e ↦ rw (e, take_woke) refl
    | inr (shard, e) ↦
        rw (e, take_woke)
          (omega
            (arith, total-insert_known queued cq shard (record shard { woke = false }) s.shards e))
  ]

  pub drain-owned :
      (cq : ℕ) (s : KernelState)
      → tally p (returned_buffers (drain cq s).0) + owned (drain cq s).1 ≡ owned s
  unfolding drain returned_buffers
  drain-owned cq s = elim (Option-cases (lookup cq s.shards)) [
    | inl e ↦ rw (e, drain) (omega arith)
    | inr (shard, e) ↦
        rw (e, drain)
          (omega (
            arith,
            total-insert_known queued cq shard (record shard { overflow_pending = false; cq = [] })
                s.shards e,
          ))
  ]

  pub cancel-owned : (cap : ℕ) (s : KernelState) → owned (cancel cap s).1 ≡ owned s
  unfolding cancel
  cancel-owned cap s = elim (Option-cases (lookup cap s.ops)) [
    | inl e ↦ rw (e, cancel) refl
    | inr (op, e) ↦ elim (Bool-cases op.completed) [
      | inl c ↦ rw (e, c, cancel) refl
      | inr c ↦
          rw (e, c, cancel)
            (omega (
              arith,
              total-insert_known held cap op (record op { cancelling = true; completed = false })
                  s.ops e,
            ))
    ]
  ]

  pub close-owned : (n cap : ℕ) (s : KernelState) → Sound n s → owned (close cap s).1 ≡ owned s
  unfolding close
  close-owned n cap s h = elim (Option-cases (lookup cap s.ops)) [
    | inl e ↦ rw (e, close) refl
    | inr (op, e) ↦ elim (Bool-cases op.completed) [
      | inl c ↦
          let empty =
            All-lookup (λ (o : OpState). o.completed ≡ true → o.buffer ≡ none) cap op s.ops
              h.finished e c in
          rw (e, c, close)
            (omega
              (arith, total-remove held cap op s.ops e, ap (λ o. tally p (option_to_list o)) empty))
      | inr c ↦ rw (e, c, close) refl
    ]
  ]
