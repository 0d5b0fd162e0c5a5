-- ===== src/Runtime/Shards/History/Cases.antt =====
-- crates/sitas-core/src/runtime.rs: what an event on the shards can do: nothing, add a command to
-- the mailbox of a running shard, serve one, or take a reply.
use sitas.Common.{
  ℕ, Bool, true, ◌≡◌, refl, ap, ◌∙◌, ◌⊎◌, inl, inr, none, some, List, [], ◌∷◌, length, get_elem?,
  set, ltb, Option-cases, List-cases, Bool-cases, arith,
}
use sitas.Runtime.Reply.{ReplyState, send, wait}
use sitas.Runtime.Shards.{
  Shard, ShardSet, accept, request, try_request, send_stopped, get_by_id, serve, turn, wait_reply,
  send_reply,
}
use sitas.Runtime.Shards.History.{
  request_on, try_request_on, stop_on, accepted_now, tried_now, log_if,
}

module _ {υ} {V : Type υ} where
  pub send_reply-cases :
      (replies : List (ReplyState V)) (id : ℕ) (v : V)
      → (get_elem? replies id ≡ none) × (send_reply id v replies ≡ replies)
        ⊎ ((q : ReplyState V) × (get_elem? replies id ≡ some q)
            × (send_reply id v replies ≡ set replies id (send v q).after))
  unfolding send_reply
  send_reply-cases replies id v = elim (Option-cases (get_elem? replies id)) [
    | inl e ↦ inl (e, rw (e, send_reply) refl)
    | inr p ↦ inr (p.0, p.1, ground arith)
  ]

module _ {ℓ κ υ} {S : Type ℓ} {C : Type κ} {V : Type υ} where
  -- A call left the state `s'` and the log `l`.
  abbrev pub Accepts : ℕ → C → ShardSet S C V → ShardSet S C V → List (ℕ × C) → Type (ℓ ⊔ κ ⊔ υ)
  Accepts i c s s' l =
      ((s' ≡ s) × (l ≡ []))
      ⊎ ((shard : Shard S C) × (get_elem? s.handles i ≡ some shard)
          × (shard.running ≡ true)
          × (s' ≡ accept i shard c s)
          × (l ≡ (i, c) ∷ []))

  pub request_on-Accepts :
      (i : ℕ) (c : C) (s : ShardSet S C V)
      → Accepts i c s (request_on i c s).1 (log_if (accepted_now (request_on i c s).0) i c)
  unfolding request_on get_by_id request
  request_on-Accepts i c s = elim (Option-cases (get_elem? s.handles i)) [
    | inl e ↦ inl (ground arith)
    | inr (shard, e) ↦ elim (Bool-cases shard.running) [
      | inl r ↦ elim (Bool-cases (ltb (length shard.queue) s.mailbox_capacity)) [
        | inl room ↦ inr (shard, e, r, ground arith, ground arith)
        | inr full ↦ inl (ground arith)
      ]
      | inr r ↦ inl (ground arith)
    ]
  ]

  pub try_request_on-Accepts :
      (i : ℕ) (c : C) (s : ShardSet S C V)
      → Accepts i c s (try_request_on i c s).1 (log_if (tried_now (try_request_on i c s).0) i c)
  unfolding try_request_on get_by_id try_request
  try_request_on-Accepts i c s = elim (Option-cases (get_elem? s.handles i)) [
    | inl e ↦ inl (ground arith)
    | inr (shard, e) ↦ elim (Bool-cases shard.running) [
      | inl r ↦ elim (Bool-cases (ltb (length shard.queue) s.mailbox_capacity)) [
        | inl room ↦ inr (shard, e, r, ground arith, ground arith)
        | inr full ↦ inl (ground arith)
      ]
      | inr r ↦ inl (ground arith)
    ]
  ]

  pub stop_on-Accepts :
      (i : ℕ) (c : C) (s : ShardSet S C V)
      → Accepts i c s (stop_on i c s).1 (log_if (accepted_now (stop_on i c s).0) i c)
  unfolding stop_on get_by_id send_stopped
  stop_on-Accepts i c s = elim (Option-cases (get_elem? s.handles i)) [
    | inl e ↦ inl (ground arith)
    | inr (shard, e) ↦ elim (Bool-cases shard.running) [
      | inl r ↦ elim (Bool-cases (ltb (length shard.queue) s.mailbox_capacity)) [
        | inl room ↦ inr (shard, e, r, ground arith, ground arith)
        | inr full ↦ inl (ground arith)
      ]
      | inr r ↦ inl (ground arith)
    ]
  ]

  pub wait_reply-cases :
      (id : ℕ) (s : ShardSet S C V)
      → ((wait_reply id s).0 ≡ none) × ((wait_reply id s).1 ≡ s)
        ⊎ ((r : ReplyState V) × (get_elem? s.replies id ≡ some r)
            × ((wait_reply id s).0 ≡ some (wait r).0)
            × ((wait_reply id s).1 ≡ record s { replies = set s.replies id (wait r).1 }))
  unfolding wait_reply
  wait_reply-cases id s = elim (Option-cases (get_elem? s.replies id)) [
    | inl e ↦ inl (ground arith)
    | inr (r, e) ↦ inr (r, e, ground arith, ground arith)
  ]

  pub wait_reply-some :
      (id : ℕ) (s : ShardSet S C V) (r : ReplyState V)
      → get_elem? s.replies id ≡ some r
      → (wait_reply id s).0 ≡ some (wait r).0
  unfolding wait_reply
  wait_reply-some id s r e = ground arith

module _ {ℓ κ υ} {S : Type ℓ} {C : Type κ} {V : Type υ} (handle : C → S → V × S)
    (ends : C → Bool) where
  pub turn-cases :
      (i : ℕ) (s : ShardSet S C V)
      → ((turn handle ends i s ≡ s)
          × ((shard : Shard S C) → get_elem? s.handles i ≡ some shard → shard.queue ≡ []))
        ⊎ ((shard : Shard S C) × (received : C × ℕ) × (queue : List (C × ℕ)) × (get_elem? s.handles
                i
              ≡ some shard)
            × (shard.queue ≡ received ∷ queue)
            × (turn handle ends i s ≡ serve handle ends i shard received queue s))
  unfolding turn
  turn-cases i s = elim (Option-cases (get_elem? s.handles i)) [
    | inl e ↦ inl (rw (e, turn) refl, λ shard at. absurd (cc))
    | inr (shard, e) ↦ elim (List-cases shard.queue) [
      | inl f ↦ inl (ground arith, λ other at. ap (λ x. x.queue) (same at e) ∙ f)
      | inr (received, queue, f) ↦ inr (shard, received, queue, e, f, ground arith)
    ]
  ]
    where
      same :
          {x y : Shard S C}
          → get_elem? s.handles i ≡ some x
          → get_elem? s.handles i ≡ some y
          → x ≡ y
      same p q = cc
