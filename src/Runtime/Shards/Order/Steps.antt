-- ===== src/Runtime/Shards/Order/Steps.antt =====
-- crates/sitas-core/src/runtime.rs: every event on the shards keeps the answers in order.
use mathlib.Core.Path.{subst}
use sitas.Common.{
  ℕ, ◌≡◌, sym, ap, ◌∙◌, inl, inr, Bool, true, false, none, some, List, [], ◌∷◌, ◌++◌, length,
  get_elem?, set, length-append, length-set, get_elem?-lt, get_elem?-append, get_elem?-snoc_cases,
  get_elem?-set_cases, get_elem?-set_self, get_elem?-set_ne, arith,
}
use sitas.Runtime.Reply.{ReplyState, reply_channel, wait}
use sitas.Runtime.Reply.Delivery.{value-send, value-wait}
use sitas.Runtime.Shards.{Shard, ShardSet, accept, serve, turn, send_reply, wait_reply}
use sitas.Runtime.Shards.History.Cases.{send_reply-cases, turn-cases, wait_reply-cases}
use sitas.Runtime.Shards.Order.{
  Foreseen, Foreseen-at, Ordered, drained, Foretold, drained-append, Foretold-append, Foretold-more,
}

module _ {ℓ κ υ} {S : Type ℓ} {C : Type κ} {V : Type υ} (handle : C → S → V × S)
    (ends : C → Bool) where
  pub accept-Ordered :
      (ss : List S) (vs : List V) (s : ShardSet S C V) (i : ℕ) (shard : Shard S C) (c : C)
      → Ordered handle ends ss vs s
      → get_elem? s.handles i ≡ some shard
      → ends c ≡ false
      → let done = handle c (drained handle ends shard.queue shard.state) in
        Ordered handle ends (set ss i done.1) (vs ++ done.0 ∷ []) (accept i shard c s)
  unfolding accept reply_channel
  accept-Ordered ss vs s i shard c h e n = record {
    counted =
        omega
          (arith, h.counted, length-append vs (done.0 ∷ []), length-append s.replies (fresh ∷ []));
    states = λ j other at. elim (get_elem?-set_cases s.handles _ i j other at) [
      | inl q ↦ Foreseen-at handle ends (set ss i done.1) (vs ++ done.0 ∷ []) q.0 q.1 at_shard
      | inr q ↦
          let o = h.states j other q.1 in
          (
            o.0,
            get_elem?-set_ne ss _ q.0 ∙ o.1,
            Foretold-more handle ends other.queue other.state vs done.0 o.2,
          )
    ];
    answers = λ id r v at filled. elim (get_elem?-snoc_cases s.replies fresh id r at) [
      | inl old ↦ get_elem?-append vs _ id v (h.answers id r v old filled)
      | inr new ↦ let p = ap (λ x. x.value) new.1 ∙ filled in absurd (cc)
    ];
  }
    where
      done : V × S
      done = handle c (drained handle ends shard.queue shard.state)

      known : Foreseen handle ends ss vs i shard
      known = h.states i shard e

      at_shard :
          Foreseen handle ends
            (set ss i done.1)
            (vs ++ done.0 ∷ [])
            i
            (record shard { queue = shard.queue ++ (c, length s.replies) ∷ [] })
      at_shard = (
        known.0,
        get_elem?-set_self ss i done.1 (get_elem?-lt ss i _ known.1)
            ∙ ap some
                (sym (drained-append handle ends shard.queue (c, length s.replies) shard.state)),
        subst
            (λ m. Foretold handle ends (shard.queue ++ (c, m) ∷ []) shard.state (vs ++ done.0 ∷ []))
            h.counted (Foretold-append handle ends shard.queue c shard.state vs n known.2),
      )

      fresh : ReplyState V
      fresh = record { value = none; sender_alive = true; waker = none }

  send_reply-answers :
      (replies : List (ReplyState V)) (vs : List V) (id : ℕ) (v : V)
      → get_elem? vs id ≡ some v
      → ((k : ℕ) (r : ReplyState V) (u : V)
          → get_elem? replies k ≡ some r
          → r.value ≡ some u
          → get_elem? vs k ≡ some u)
      → (k : ℕ) (r : ReplyState V) (u : V) → get_elem? (send_reply id v replies) k ≡ some r
      → r.value ≡ some u
      → get_elem? vs k ≡ some u
  send_reply-answers replies vs id v given old k r u = elim (send_reply-cases replies id v) [
    | inl (_, e) ↦ λ at filled. old k r u (ap (λ rs. get_elem? rs k) (sym e) ∙ at) filled
    | inr (q, e, f) ↦ λ at filled.
        elim (get_elem?-set_cases replies _ id k r (ap (λ rs. get_elem? rs k) (sym f) ∙ at)) [
          | inl p ↦ elim (value-send v u q (ap (λ x. x.value) p.1 ∙ filled)) [
            | inl same ↦ subst (λ m. get_elem? vs m ≡ some u) p.0 (given ∙ ap some same)
            | inr kept ↦ subst (λ m. get_elem? vs m ≡ some u) p.0 (old id q u e kept)
          ]
          | inr p ↦ old k r u p.1 filled
        ]
  ]

  length-send_reply :
      (replies : List (ReplyState V)) (id : ℕ) (v : V)
      → length (send_reply id v replies) ≡ length replies
  length-send_reply replies id v = elim (send_reply-cases replies id v) [
    | inl e ↦ ap length e.1
    | inr (q, e, f) ↦ ap length f ∙ length-set replies id _
  ]

  -- A thread serves a command that does not end its loop.
  serve-Ordered :
      (ss : List S) (vs : List V) (s : ShardSet S C V) (i : ℕ) (shard : Shard S C)
      (received : C × ℕ) (queue : List (C × ℕ))
      → Ordered handle ends ss vs s
      → get_elem? s.handles i ≡ some shard
      → shard.queue ≡ received ∷ queue
      → Ordered handle ends ss vs (serve handle ends i shard received queue s)
  unfolding serve drained Foretold
  serve-Ordered ss vs s i shard received queue h at q = rw known.2.0 record {
    counted = h.counted ∙ sym (length-send_reply s.replies received.1 _);
    states = λ j other here. elim (get_elem?-set_cases s.handles _ i j other here) [
      | inl p ↦ Foreseen-at handle ends ss vs p.0 p.1 (known.0, known.1, known.2.2)
      | inr p ↦ h.states j other p.1
    ];
    answers = send_reply-answers s.replies vs received.1 _ known.2.1 h.answers;
  }
    where
      known : Foreseen handle ends ss vs i (record shard { queue = received ∷ queue })
      known =
          subst (λ ps. Foreseen handle ends ss vs i (record shard { queue = ps })) q
            (h.states i shard at)

  pub turn-Ordered :
      (ss : List S) (vs : List V) (s : ShardSet S C V) (i : ℕ)
      → Ordered handle ends ss vs s
      → Ordered handle ends ss vs (turn handle ends i s)
  turn-Ordered ss vs s i h = elim (turn-cases handle ends i s) [
    | inl e ↦ subst (Ordered handle ends ss vs) (sym e.0) h
    | inr (shard, received, queue, at, q, e) ↦
        subst (Ordered handle ends ss vs) (sym e)
          (serve-Ordered ss vs s i shard received queue h at q)
  ]

  pub wait_reply-Ordered :
      (ss : List S) (vs : List V) (s : ShardSet S C V) (id : ℕ)
      → Ordered handle ends ss vs s
      → Ordered handle ends ss vs (wait_reply id s).1
  wait_reply-Ordered ss vs s id h = elim (wait_reply-cases id s) [
    | inl e ↦ subst (Ordered handle ends ss vs) (sym e.1) h
    | inr (r, at, out, e) ↦ subst (Ordered handle ends ss vs) (sym e) record {
      counted = omega (arith, h.counted, length-set s.replies id (wait r).1);
      states = h.states;
      answers = λ k q v here filled. elim (get_elem?-set_cases s.replies _ id k q here) [
        | inl p ↦
            subst (λ m. get_elem? vs m ≡ some v) p.0
              (h.answers id r v at (value-wait v r (ap (λ x. x.value) p.1 ∙ filled)))
        | inr p ↦ h.answers k q v p.1 filled
      ];
    }
  ]
