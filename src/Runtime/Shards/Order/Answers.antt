-- ===== src/Runtime/Shards/Order/Answers.antt =====
-- crates/sitas-core/src/runtime.rs: what a caller reads as the reply to its command.
use mathlib.Core.Path.{subst}
use sitas.Common.{
  ℕ, zero, suc, ◌≡◌, refl, sym, inl, inr, Bool, true, false, some, List, [], ◌∷◌, ◌++◌, ok, ready,
  get_elem?, replicate, All, append_assoc, append-nil, arith,
}
use sitas.Runtime.Reply.Delivery.{ready-wait}
use sitas.Runtime.Shards.{Shard, ShardSet, start, start_shards, wait_reply}
use sitas.Runtime.Shards.History.{
  Event, request, try_request, stop, turn, look, step, accepted, run, log,
}
use sitas.Runtime.Shards.History.Cases.{
  Accepts, request_on-Accepts, try_request_on-Accepts, stop_on-Accepts, wait_reply-cases,
}
use sitas.Runtime.Shards.Order.{
  Ordered, drained, Foretold, in_order-append, states_after-append, in_order_single, in_order,
  states_after,
}
use sitas.Runtime.Shards.Order.Steps.{accept-Ordered, turn-Ordered, wait_reply-Ordered}

module _ {ℓ κ υ} {S : Type ℓ} {C : Type κ} {V : Type υ} (handle : C → S → V × S)
    (ends : C → Bool) where
  -- The event sends no command that ends the loop of a shard.
  abbrev pub Serving : Event C → Type 0
  Serving (request i c) = ends c ≡ false
  Serving (try_request i c) = ends c ≡ false
  Serving (stop i c) = ends c ≡ false
  Serving (turn i) = Unit
  Serving (look id) = Unit

  -- The answers and the states after the commands of a log.
  unfoldable pub Executed : List (ℕ × C) → List S → List V → ShardSet S C V → Type (ℓ ⊔ κ ⊔ υ)
  Executed l ss vs s =
      Ordered handle ends (states_after handle ends l ss) (vs ++ in_order handle ends l ss) s

  nothing-Executed :
      (ss : List S) (vs : List V) (s : ShardSet S C V)
      → Ordered handle ends ss vs s
      → Executed [] ss vs s
  unfolding Executed states_after in_order
  nothing-Executed ss vs s h = subst (λ ws. Ordered handle ends ss ws s) (sym (append-nil vs)) h

  call-Executed :
      (ss : List S) (vs : List V) (s s' : ShardSet S C V) (i : ℕ) (c : C) (l : List (ℕ × C))
      → Ordered handle ends ss vs s
      → ends c ≡ false
      → Accepts i c s s' l
      → Executed l ss vs s'
  unfolding Executed states_after in_order
  call-Executed ss vs s s' i c l h n (inl e) =
      subst (λ m. Executed m ss vs s') (sym e.1)
        (subst (Executed [] ss vs) (sym e.0) (nothing-Executed ss vs s h))
  call-Executed ss vs s s' i c l h n (inr (shard, at, r, e, f)) =
      let known = (h.states i shard at).1 in
      let one = in_order_single handle ends i c ss _ known in
      subst (λ m. Executed m ss vs s') (sym f)
        (subst (Executed ((i, c) ∷ []) ss vs) (sym e)
          (rw (one.0, one.1) (accept-Ordered handle ends ss vs s i shard c h at n)))

  pub step-Executed :
      (ss : List S) (vs : List V) (s : ShardSet S C V) (e : Event C)
      → Ordered handle ends ss vs s
      → Serving e
      → Executed (accepted handle ends e s) ss vs (step handle ends e s)
  unfolding step accepted
  step-Executed ss vs s (request i c) h n =
      call-Executed ss vs s _ i c _ h n (request_on-Accepts i c s)
  step-Executed ss vs s (try_request i c) h n =
      call-Executed ss vs s _ i c _ h n (try_request_on-Accepts i c s)
  step-Executed ss vs s (stop i c) h n = call-Executed ss vs s _ i c _ h n (stop_on-Accepts i c s)
  step-Executed ss vs s (turn i) h n =
      nothing-Executed ss vs _ (turn-Ordered handle ends ss vs s i h)
  step-Executed ss vs s (look id) h n =
      nothing-Executed ss vs _ (wait_reply-Ordered handle ends ss vs s id h)

  pub run-Executed :
      (es : List (Event C)) (ss : List S) (vs : List V) (s : ShardSet S C V)
      → Ordered handle ends ss vs s
      → All Serving es
      → Executed (log handle ends es s) ss vs (run handle ends es s)
  unfolding run log Executed
  run-Executed [] ss vs s h n = nothing-Executed ss vs s h
  run-Executed (e ∷ es) ss vs s h n =
      let l = accepted handle ends e s in
      let later = log handle ends es (step handle ends e s) in
      let middle = states_after handle ends l ss in
      rw (states_after-append handle ends l later ss, in_order-append handle ends l later ss)
        (subst
          (λ ws.
            Ordered handle ends (states_after handle ends later middle) ws
              (run handle ends es (step handle ends e s)))
          (append_assoc vs (in_order handle ends l ss) (in_order handle ends later middle))
          (run-Executed es _ _ _ (step-Executed ss vs s e h n.0) n.1))

  start_shards-lem :
      (initial : S) (n k i : ℕ) (shard : Shard S C)
      → get_elem? (start_shards initial k n) i ≡ some shard
      → (shard.running ≡ true)
        × (shard.queue ≡ [])
        × (get_elem? (replicate n initial) i ≡ some shard.state)
  unfolding start_shards
  start_shards-lem initial zero k i shard h = absurd (ground arith)
  start_shards-lem initial (suc n) k zero shard h = (cc, cc, cc)
  start_shards-lem initial (suc n) k (suc i) shard h = start_shards-lem initial n _ i shard h

  pub start-Ordered :
      (initial : S) (n capacity : ℕ)
      → Ordered handle ends (replicate n initial) [] (start initial n capacity)
  unfolding start drained Foretold
  start-Ordered initial n capacity = record {
    counted = refl;
    states = λ i shard at.
        let new = start_shards-lem initial n 0 i shard at in rw (new.1) (new.0, new.2, tt);
    answers = λ id r v at. absurd (ground arith);
  }

  -- Take a service with new shards, and any sequence of calls that send no stop command, of turns
  -- of the threads, and of looks at replies. A value that is then read as a reply is the answer
  -- that its command gets when the accepted commands are executed one after the other, in the
  -- order in which they were accepted, each on the state of its shard.
  pub replies_in_order :
      (initial : S) (n capacity : ℕ) (es : List (Event C)) (id : ℕ) (v : V)
      → All Serving es
      → let s = start initial n capacity in
        (wait_reply id (run handle ends es s)).0 ≡ some (ready (ok v))
        → get_elem? (in_order handle ends (log handle ends es s) (replicate n initial)) id ≡ some v
  unfolding Executed
  replies_in_order initial n capacity es id v h e =
      let s = start initial n capacity in
      let done = run-Executed es (replicate n initial) [] s (start-Ordered initial n capacity) h in
      elim (wait_reply-cases id (run handle ends es s)) [
        | inl q ↦ absurd (cc)
        | inr (r, at, out, q) ↦ done.answers id r v at (ready-wait v r (cc))
      ]
