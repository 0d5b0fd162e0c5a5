-- ===== src/Runtime/Shards/Drain.antt =====
-- crates/sitas-core/src/runtime.rs: every accepted command is answered once the threads have
-- served what is queued: no reply is forgotten, and the loops of the threads come to an empty
-- mailbox.
use mathlib.Core.Path.{subst}
use sitas.Common.{
  ℕ, zero, suc, ◌+◌, ◌-◌, ◌≤◌, ◌<◌, ◌≡◌, refl, sym, ap, ◌∙◌, inl, inr, Bool, false, some, List, [],
  ◌∷◌, ◌++◌, length, get_elem?, set, replicate, arith, Bool-cases, get_elem?-set_cases,
  get_elem?-lt, ==_iff, ◌==◌, ltb, List-cases,
}
use sitas.Runtime.Shards
use sitas.Runtime.Shards.{Shard, ShardSet, serve, turn}
use sitas.Runtime.Shards.History.{Event, step, run}
use sitas.Runtime.Shards.History.Cases.{turn-cases}

module _ {ℓ κ υ} {S : Type ℓ} {C : Type κ} {V : Type υ} where
  -- The shard `i`, if there is one, has at most `n` commands queued.
  AtMost : ℕ → ℕ → ShardSet S C V → Type (ℓ ⊔ κ)
  AtMost n i s = (shard : Shard S C) → get_elem? s.handles i ≡ some shard → length shard.queue ≤ n

module _ {ℓ κ} {S : Type ℓ} {C : Type κ} where
  -- As many turns of each shard as it has commands queued, from the shard `i` on.
  unfoldable pub turns_from : ℕ → List (Shard S C) → List (Event C)
  turns_from i [] = []
  turns_from i (shard ∷ shards) =
      replicate (length shard.queue) (Event.turn i) ++ turns_from (suc i) shards

module _ {ℓ κ υ} {S : Type ℓ} {C : Type κ} {V : Type υ} (handle : C → S → V × S)
    (ends : C → Bool) where
  serve-handles :
      (i : ℕ) (shard : Shard S C) (received : C × ℕ) (queue : List (C × ℕ)) (s : ShardSet S C V)
      → (after : Shard S C) × ((serve handle ends i shard received queue s).handles
          ≡ set s.handles i after)
        × (length after.queue ≤ length queue)
  unfolding serve
  serve-handles i shard received queue s = elim (Bool-cases (ends received.0)) [
    | inl e ↦ (
      record shard { state = (handle received.0 shard.state).1; queue = []; running = false },
      rw e refl,
      omega arith,
    )
    | inr e ↦ (
      record shard { state = (handle received.0 shard.state).1; queue = queue },
      rw e refl,
      omega arith,
    )
  ]

  -- After a turn of the shard `i`, each shard comes from one with no shorter queue, and the shard
  -- `i` itself, if it had commands queued, from one with a longer queue.
  turn-handles :
      (i j : ℕ) (s : ShardSet S C V) (after : Shard S C)
      → get_elem? (turn handle ends i s).handles j ≡ some after
      → (before : Shard S C) × (get_elem? s.handles j ≡ some before)
        × (length after.queue ≤ length before.queue)
        × (i ≡ j → length after.queue ≤ length before.queue - 1)
  turn-handles i j s after h = elim (turn-cases handle ends i s) [
    | inl (e, idle) ↦
        let at = ap (λ x. get_elem? x.handles j) (sym e) ∙ h in
        (
          after,
          at,
          omega arith,
          λ p. rw (idle after (ap (get_elem? s.handles) p ∙ at)) (omega arith),
        )
    | inr (shard, received, queue, at, q, e) ↦
        let (served, f, short) = serve-handles i shard received queue s in
        elim (get_elem?-set_cases s.handles served i j after
          (ap (λ x. get_elem? x j) (sym f) ∙ ap (λ x. get_elem? x.handles j) (sym e) ∙ h)) [
            | inl p ↦ (
              shard,
              ap (get_elem? s.handles) (sym p.0) ∙ at,
              rw (q, sym p.1) (omega (arith, short)),
              λ _. rw (q, sym p.1) (omega (arith, short)),
            )
            | inr p ↦ (after, p.1, omega arith, λ i≡j. absurd (p.0 i≡j))
          ]
  ]

  turn-AtMost : (n i j : ℕ) (s : ShardSet S C V) → AtMost n j s → AtMost n j (turn handle ends i s)
  unfolding AtMost
  turn-AtMost n i j s h after at =
      let (before, here, short, _) = turn-handles i j s after at in
      omega (arith, short, h before here)

  turn-AtMost_less :
      (n i : ℕ) (s : ShardSet S C V) → AtMost (suc n) i s → AtMost n i (turn handle ends i s)
  unfolding AtMost
  turn-AtMost_less n i s h after at =
      let (before, here, _, less) = turn-handles i i s after at in
      omega (arith, less refl, h before here)

  turns : ℕ → ℕ → ShardSet S C V → ShardSet S C V
  turns n i s = run handle ends (replicate n (Event.turn i)) s

  turns-AtMost : (n m i j : ℕ) (s : ShardSet S C V) → AtMost m j s → AtMost m j (turns n i s)
  unfolding turns run step
  turns-AtMost zero m i j s h = h
  turns-AtMost (suc n) m i j s h =
      turns-AtMost n m i j (Shards.turn handle ends i s) (turn-AtMost m i j s h)

  turns-AtMost_zero : (n i : ℕ) (s : ShardSet S C V) → AtMost n i s → AtMost 0 i (turns n i s)
  unfolding turns run step
  turns-AtMost_zero zero i s h = h
  turns-AtMost_zero (suc n) i s h =
      turns-AtMost_zero n i (Shards.turn handle ends i s) (turn-AtMost_less n i s h)

  run-append :
      (es fs : List (Event C)) (s : ShardSet S C V)
      → run handle ends (es ++ fs) s ≡ run handle ends fs (run handle ends es s)
  unfolding run
  run-append [] fs s = refl
  run-append (e ∷ es) fs s = run-append es fs (step handle ends e s)

  turns_from-AtMost :
      (shards : List (Shard S C)) (i : ℕ) (s : ShardSet S C V)
      → ((j : ℕ) → j < i → AtMost 0 j s)
      → ((j : ℕ) (shard : Shard S C)
          → get_elem? shards j ≡ some shard
          → AtMost (length shard.queue) (i + j) s)
      → ((j : ℕ) → i + length shards ≤ j → AtMost 0 j s)
      → (j : ℕ) → AtMost 0 j (run handle ends (turns_from i shards) s)
  unfolding turns_from run turns
  turns_from-AtMost [] i s done left rest j = elim (Bool-cases (ltb j i)) [
    | inl p ↦ done j (ground arith)
    | inr p ↦ rest j (ground arith)
  ]
  turns_from-AtMost (shard ∷ shards) i s done left rest j =
      let n = length shard.queue in
      let mid = turns n i s in
      subst (AtMost 0 j)
        (sym (run-append (replicate n (Event.turn i)) (turns_from (suc i) shards) s))
        (turns_from-AtMost shards (suc i) mid
          (λ k p. elim (Bool-cases (k == i)) [
            | inl e ↦
                subst (λ m. AtMost 0 m mid) (sym ((==_iff k i).0 e))
                  (turns-AtMost_zero n i s
                    (subst (λ m. AtMost n m s) (omega arith) (left 0 shard refl)))
            | inr e ↦ turns-AtMost n 0 i k s (done k (ground arith))
          ])
          (λ k other at.
            turns-AtMost n (length other.queue) i (suc i + k) s
              (subst (λ m. AtMost (length other.queue) m s) (omega arith) (left (suc k) other at)))
          (λ k p. turns-AtMost n 0 i k s (rest k (omega (arith, p)))) j)

  -- Let each thread of a set of shards take as many turns as its shard has commands queued. Then no
  -- command is queued at any shard.
  pub turns_from_empty :
      (s : ShardSet S C V) (j : ℕ) (shard : Shard S C)
      → get_elem? (run handle ends (turns_from 0 s.handles) s).handles j ≡ some shard
      → shard.queue ≡ []
  unfolding AtMost
  turns_from_empty s j shard at = elim (List-cases shard.queue) [
    | inl e ↦ e
    | inr (p, ps, e) ↦
        let few =
          turns_from-AtMost s.handles 0 s (λ k p. absurd (omega arith))
            (λ k before here other there. omega (arith, same k here there))
            (λ k p other there. omega (arith, get_elem?-lt s.handles k other there)) j shard at in
        absurd (omega (arith, few, ap length e))
  ]
    where
      k_eq : (k : ℕ) → 0 + k ≡ k
      k_eq k = omega arith

      same :
          (k : ℕ) {x y : Shard S C}
          → get_elem? s.handles k ≡ some x
          → get_elem? s.handles (0 + k) ≡ some y
          → length y.queue ≡ length x.queue
      same k {x} {y} p q =
          let q' : get_elem? s.handles k ≡ some y = rw (← k_eq k) q in
          let e : y ≡ x = cc in ap (λ z. length z.queue) e

module _ {ℓ κ υ ρ} {S : Type ℓ} {C : Type κ} {V : Type υ} (handle : C → S → V × S) (ends : C → Bool)
    (P : ShardSet S C V → Type ρ)
    (keep : (i : ℕ) (s : ShardSet S C V) → P s → P (turn handle ends i s)) where
  turns_keep :
      (n i : ℕ) (es : List (Event C)) (s : ShardSet S C V)
      → ((s : ShardSet S C V) → P s → P (run handle ends es s))
      → P s
      → P (run handle ends (replicate n (Event.turn i) ++ es) s)
  unfolding run step
  turns_keep zero i es s later h = later s h
  turns_keep (suc n) i es s later h = turns_keep n i es (turn handle ends i s) later (keep i s h)

  -- What every turn keeps, the turns that empty the mailboxes keep.
  pub turns_from_keep :
      (shards : List (Shard S C)) (i : ℕ) (s : ShardSet S C V)
      → P s
      → P (run handle ends (turns_from i shards) s)
  unfolding run turns_from
  turns_from_keep [] i s h = h
  turns_from_keep (shard ∷ shards) i s h =
      turns_keep (length shard.queue) i (turns_from (suc i) shards) s
        (λ s' h'. turns_from_keep shards (suc i) s' h') h
