-- ===== src/Runtime/Shards/Totality.antt =====
-- crates/sitas-core/src/runtime.rs: each accepted command gets the answer that it has in the order
-- of acceptance, and no caller waits for it for ever.
use sitas.Common.{
  ℕ, ◌≡◌, sym, ap, ◌∙◌, inl, inr, Bool, contains, some, List, [], ◌∷◌, ok, ready, get_elem?,
  replicate, All, arith, get_elem?-lt, get_elem?_of_lt,
}
use sitas.Runtime.Reply.Delivery.{wait_filled}
use sitas.Runtime.Shards.{Shard, ShardSet, start, wait_reply}
use sitas.Runtime.Shards.History.{Event, step, run, log}
use sitas.Runtime.Shards.History.Cases.{wait_reply-some}
use sitas.Runtime.Shards.Order.{Ordered, in_order, states_after}
use sitas.Runtime.Shards.Order.Steps.{turn-Ordered}
use sitas.Runtime.Shards.Order.Answers.{
  Serving, Executed, step-Executed, run-Executed, start-Ordered,
}
use sitas.Runtime.Shards.Drain.{turns_from, turns_from_empty, turns_from_keep}
use sitas.Runtime.Shards.Owed.{ids, Owed, Queued, Untaken, step-Owed, turn-Owed}

module _ {ℓ κ υ} {S : Type ℓ} {C : Type κ} {V : Type υ} (handle : C → S → V × S)
    (ends : C → Bool) where
  run-Owed :
      (es : List (Event C)) (ss : List S) (vs : List V) (id : ℕ) (s : ShardSet S C V)
      → Ordered handle ends ss vs s
      → All (Serving handle ends) es
      → All (Untaken handle ends id) es
      → Owed id s
      → Owed id (run handle ends es s)
  unfolding run Executed
  run-Owed [] ss vs id s o n t h = h
  run-Owed (e ∷ es) ss vs id s o n t h =
      run-Owed es _ _ id (step handle ends e s) (step-Executed handle ends ss vs s e o n.0) n.1 t.1
        (step-Owed handle ends ss vs id s e o t.0 h)

  -- What an owed reply is once no command is queued.
  Owed-reply :
      (ss : List S) (vs : List V) (id : ℕ) (v : V) (s : ShardSet S C V)
      → Ordered handle ends ss vs s
      → Owed id s
      → ((j : ℕ) (shard : Shard S C) → get_elem? s.handles j ≡ some shard → shard.queue ≡ [])
      → get_elem? vs id ≡ some v
      → (wait_reply id s).0 ≡ some (ready (ok v))
  unfolding Owed Queued
  Owed-reply ss vs id v s o h empty given =
      let (r, at) =
        get_elem?_of_lt s.replies id (omega (arith, o.counted, get_elem?-lt vs id v given)) in
      elim (h r at) [
        | inl (u, filled) ↦
            let same : some u ≡ some v = sym (o.answers id r u at filled) ∙ given in
            wait_reply-some id s r at ∙ ap some (wait_filled v r (filled ∙ same))
        | inr (j, shard, there, q) ↦
            let none_left = ap (λ ps. contains id (ids ps)) (sym (empty j shard there)) ∙ q in
            absurd (cc)
      ]

  -- Take a service with new shards, and any sequence of calls that send no stop command, of turns
  -- of the threads, and of looks at replies other than `id`. Let then each thread take as many
  -- turns as its shard has commands queued. If the command with the reply `id` was accepted, a
  -- caller that waits for it does not block and gets its answer: the one that it has when the
  -- accepted commands are executed one after the other, in the order in which they were accepted,
  -- each on the state of its shard.
  pub request_answered :
      (initial : S) (n capacity : ℕ) (es : List (Event C)) (id : ℕ) (v : V)
      → All (Serving handle ends) es
      → All (Untaken handle ends id) es
      → let s = run handle ends es (start initial n capacity) in
        get_elem?
            (in_order handle ends
              (log handle ends es (start initial n capacity))
              (replicate n initial))
            id
          ≡ some v
        → (wait_reply id (run handle ends (turns_from 0 s.handles) s)).0 ≡ some (ready (ok v))
  unfolding Executed Owed start
  request_answered initial n capacity es id v serving untaken given =
      let s0 = start initial n capacity in
      let s = run handle ends es s0 in
      let o =
        run-Executed handle ends es (replicate n initial) [] s0
          (start-Ordered handle ends initial n capacity) serving in
      let l = log handle ends es s0 in
      let ss = states_after handle ends l (replicate n initial) in
      let vs = in_order handle ends l (replicate n initial) in
      let owed =
        run-Owed es (replicate n initial) [] id s0 (start-Ordered handle ends initial n capacity)
          serving untaken (λ r at. absurd (cc)) in
      let drained =
        turns_from_keep handle ends (λ x. Ordered handle ends ss vs x × Owed id x)
          (λ i x p.
            (turn-Ordered handle ends ss vs x i p.0, turn-Owed handle ends ss vs id i x p.0 p.1))
          s.handles 0 s (o, owed) in
      Owed-reply ss vs id v _ drained.0 drained.1 (turns_from_empty handle ends s) given
