-- ===== src/Runtime/Shards/Order.antt =====
-- crates/sitas-core/src/runtime.rs: what the shards answer, against the same commands executed one
-- after the other on the states of the shards, in the order in which they were accepted.
pub mod Steps
pub mod Answers
use mathlib.Core.Path.{subst}
use sitas.Common.{
  ℕ, zero, suc, ◌+◌, ◌<◌, ◌≡◌, refl, sym, ap, ◌∙◌, ◌≢◌, inl, inr, Bool, true, false, Option, none,
  some, List, [], ◌∷◌, ◌++◌, ok, err, ready, pending, length, get_elem?, set, All, length-append,
  length-set, get_elem?-lt, get_elem?-append, get_elem?-append_last, get_elem?-snoc_cases,
  get_elem?-set_cases, ◌⊎◌, get_elem?-set_self, get_elem?-set_ne, Option-cases, Bool-cases, ◌==◌,
  ltb, arith, append_assoc,
}
use sitas.Runtime.Reply.{ReplyState, reply_channel, send, wait}
use sitas.Runtime.Shards
use sitas.Runtime.Shards.{Shard, ShardSet}
use sitas.Runtime.Shards.History
use sitas.Runtime.Shards.History.{Event}

module _ {ℓ κ υ} {S : Type ℓ} {C : Type κ} {V : Type υ} (handle : C → S → V × S)
    (ends : C → Bool) where
  -- The answers to commands that are executed one after the other, each on the state of its shard.
  unfoldable pub in_order : List (ℕ × C) → List S → List V
  in_order [] ss = []
  in_order (p ∷ ps) ss = elim (get_elem? ss p.0) [
    | none ↦ in_order ps ss
    | some state ↦ (handle p.1 state).0 ∷ in_order ps (set ss p.0 (handle p.1 state).1)
  ]

  -- The states that this leaves.
  unfoldable pub states_after : List (ℕ × C) → List S → List S
  states_after [] ss = ss
  states_after (p ∷ ps) ss = elim (get_elem? ss p.0) [
    | none ↦ states_after ps ss
    | some state ↦ states_after ps (set ss p.0 (handle p.1 state).1)
  ]

  pub in_order-append :
      (ps qs : List (ℕ × C)) (ss : List S)
      → in_order (ps ++ qs) ss ≡ in_order ps ss ++ in_order qs (states_after ps ss)
  unfolding in_order states_after
  in_order-append [] qs ss = refl
  in_order-append (p ∷ ps) qs ss = elim (Option-cases (get_elem? ss p.0)) [
    | inl e ↦ rw (e, in_order, states_after) (in_order-append ps qs ss)
    | inr (state, e) ↦
        rw (e, in_order, states_after)
          (ap (◌∷◌ (handle p.1 state).0) (in_order-append ps qs (set ss p.0 (handle p.1 state).1)))
  ]

  pub states_after-append :
      (ps qs : List (ℕ × C)) (ss : List S)
      → states_after (ps ++ qs) ss ≡ states_after qs (states_after ps ss)
  unfolding states_after
  states_after-append [] qs ss = refl
  states_after-append (p ∷ ps) qs ss = elim (Option-cases (get_elem? ss p.0)) [
    | inl e ↦ rw (e, states_after) (states_after-append ps qs ss)
    | inr (state, e) ↦
        rw (e, states_after) (states_after-append ps qs (set ss p.0 (handle p.1 state).1))
  ]

  -- The first command, on a shard that exists.
  pub in_order_cons :
      (i : ℕ) (c : C) (ps : List (ℕ × C)) (ss : List S) (state : S)
      → get_elem? ss i ≡ some state
      → (in_order ((i, c) ∷ ps) ss ≡ (handle c state).0 ∷ in_order ps (set ss i (handle c state).1))
        × (states_after ((i, c) ∷ ps) ss ≡ states_after ps (set ss i (handle c state).1))
  unfolding in_order states_after
  in_order_cons i c ps ss state e = (rw (e, in_order) refl, rw (e, states_after) refl)

  -- One command, on a shard that exists.
  pub in_order_single :
      (i : ℕ) (c : C) (ss : List S) (state : S)
      → get_elem? ss i ≡ some state
      → (in_order ((i, c) ∷ []) ss ≡ (handle c state).0 ∷ [])
        × (states_after ((i, c) ∷ []) ss ≡ set ss i (handle c state).1)
  unfolding in_order states_after
  in_order_single i c ss state e = (ground arith, ground arith)

  -- The state of a shard once its queue is served.
  unfoldable pub drained : List (C × ℕ) → S → S
  drained [] state = state
  drained (p ∷ ps) state = drained ps (handle p.0 state).1

  -- The queue holds no command that ends the loop, and will give the answers `vs`.
  unfoldable pub Foretold : List (C × ℕ) → S → List V → Type υ
  Foretold [] state vs = Unit
  Foretold (p ∷ ps) state vs =
      (ends p.0 ≡ false)
      × (get_elem? vs p.1 ≡ some (handle p.0 state).0)
      × Foretold ps (handle p.0 state).1 vs

  -- What is known of a shard: its queue leads to its state in `ss` and gives the answers in `vs`.
  abbrev pub Foreseen : List S → List V → ℕ → Shard S C → Type (ℓ ⊔ υ)
  Foreseen ss vs i shard =
      (shard.running ≡ true)
      × (get_elem? ss i ≡ some (drained shard.queue shard.state))
      × Foretold shard.queue shard.state vs

  pub Foreseen-at :
      (ss : List S) (vs : List V) {i j : ℕ} {shard other : Shard S C}
      → i ≡ j
      → shard ≡ other
      → Foreseen ss vs i shard
      → Foreseen ss vs j other
  Foreseen-at ss vs {i} {other} p q h =
      subst (λ k. Foreseen ss vs k other) p (subst (λ sh. Foreseen ss vs i sh) q h)

  -- `ss` are the states and `vs` the answers of the accepted commands, executed at once.
  pub record Ordered (ss : List S) (vs : List V) (s : ShardSet S C V) : Type (ℓ ⊔ κ ⊔ υ) where
    pub counted : length vs ≡ length s.replies
    pub states :
        (i : ℕ) (shard : Shard S C) → get_elem? s.handles i ≡ some shard → Foreseen ss vs i shard
    pub answers :
        (id : ℕ) (r : ReplyState V) (v : V)
        → get_elem? s.replies id ≡ some r
        → r.value ≡ some v
        → get_elem? vs id ≡ some v

  pub drained-append :
      (ps : List (C × ℕ)) (p : C × ℕ) (state : S)
      → drained (ps ++ p ∷ []) state ≡ (handle p.0 (drained ps state)).1
  unfolding drained
  drained-append [] p state = refl
  drained-append (q ∷ ps) p state = drained-append ps p (handle q.0 state).1

  pub Foretold-append :
      (ps : List (C × ℕ)) (c : C) (state : S) (vs : List V)
      → ends c ≡ false
      → Foretold ps state vs
      → Foretold (ps ++ (c, length vs) ∷ []) state (vs ++ (handle c (drained ps state)).0 ∷ [])
  unfolding Foretold drained
  Foretold-append [] c state vs e h = (e, get_elem?-append_last vs _, tt)
  Foretold-append (q ∷ ps) c state vs e h =
      (h.0, get_elem?-append vs _ q.1 _ h.1, Foretold-append ps c _ vs e h.2)

  pub Foretold-more :
      (ps : List (C × ℕ)) (state : S) (vs : List V) (v : V)
      → Foretold ps state vs
      → Foretold ps state (vs ++ v ∷ [])
  unfolding Foretold
  Foretold-more [] state vs v h = tt
  Foretold-more (q ∷ ps) state vs v h =
      (h.0, get_elem?-append vs _ q.1 _ h.1, Foretold-more ps _ vs v h.2)
