-- ===== src/Charlotte/Wakeups.antt =====
-- crates/sitas-core/src/charlotte_abi.rs: a wake of a queue stays until it is taken.
use mathlib.Core.Path.{subst}
use sitas.Common.{
  ℕ, suc, ◌+◌, ◌<◌, ◌≡◌, ◌≢◌, refl, ap, sym, ◌∙◌, inl, inr, true, none, some, List, [], ◌∷◌, Result,
  ok, err, All, length, leb, ◌==◌, Bool-cases, Option-cases, arith, ==_of_ne,
}
use sitas.Kv.Keys.{nat_key}
use sitas.Kv.Map.{lookup, insert}
use sitas.Kv.Map.Lookup.{lookup-insert_self, lookup-insert_ne}
use sitas.Charlotte.{
  OpResult, Panic, OpState, Shard, KernelState, u32_mod, register_shard, submit, post, wake, cancel,
  close, drain, take_woke,
}
use sitas.Charlotte.History.{Call, World, step, run, accept, after_post}
use sitas.Charlotte.Tally.{lookup-fresh}
use sitas.Charlotte.Calls.{complete-cases}
use sitas.Charlotte.Soundness.{Sound}
use sitas.Charlotte.Conservation.{Kept, Named, AllNamed, step-Kept}

-- The queue was woken and no wait has taken the wake.
abbrev pub Woken : ℕ → List (ℕ × Shard) → Type 0
Woken cq m = (shard : Shard) × (lookup cq m ≡ some shard) × (shard.woke ≡ true)

Woken-insert :
    (cq q : ℕ) (old shard : Shard) (m : List (ℕ × Shard))
    → lookup q m ≡ some old
    → (old.woke ≡ true → shard.woke ≡ true)
    → Woken cq m
    → Woken cq (insert q shard m)
Woken-insert cq q old shard m e k h = elim (Bool-cases (q == cq)) [
  | inl t ↦
      let same : q ≡ cq = ground arith in
      let found : old ≡ h.0 = ground (arith, e, h.1, ap (λ j. lookup j m) same) in
      (
        shard,
        ap (λ j. lookup j (insert q shard m)) (sym same) ∙ lookup-insert_self q shard m,
        k (ap (λ x. x.woke) found ∙ h.2),
      )
  | inr t ↦ (h.0, lookup-insert_ne q cq shard m t ∙ h.1, h.2)
]

Woken-insert_new :
    (cq q : ℕ) (shard : Shard) (m : List (ℕ × Shard))
    → lookup q m ≡ none
    → Woken cq m
    → Woken cq (insert q shard m)
Woken-insert_new cq q shard m e h = elim (Bool-cases (q == cq)) [
  | inl t ↦ let same : q ≡ cq = ground arith in absurd (cc (e, h.1, ap (λ j. lookup j m) same))
  | inr t ↦ (h.0, lookup-insert_ne q cq shard m t ∙ h.1, h.2)
]

-- The call does not take the wake of the queue.
abbrev pub Leaves : ℕ → Call → Type 0
Leaves cq (Call.taking_woke q) = q ≢ cq
Leaves cq c = Unit

submit-shards :
    (cq : ℕ) (op : _) (buffer : _) (s : KernelState) → (submit cq op buffer s).1.shards ≡ s.shards
unfolding submit
submit-shards cq op buffer s = ground arith

accept-shards :
    (buffer : _) (out : _) (w : World) → (accept buffer out w).kernel.shards ≡ out.1.shards
unfolding accept
accept-shards buffer (ok c, s) w = refl
accept-shards buffer (err e, s) w = refl

cancel-shards : (cap : ℕ) (s : KernelState) → (cancel cap s).1.shards ≡ s.shards
unfolding cancel
cancel-shards cap s = ground arith

close-shards : (cap : ℕ) (s : KernelState) → (close cap s).1.shards ≡ s.shards
unfolding close
close-shards cap s = ground arith

post-Woken :
    (cq cap : ℕ) (op : OpState) (shard : Shard) (r : OpResult) (s : KernelState)
    → lookup op.queue s.shards ≡ some shard
    → Woken cq s.shards
    → Woken cq (post cap op shard r s).1.shards
unfolding post
post-Woken cq cap op shard r s f h = elim (Bool-cases (leb shard.cq_capacity (length shard.cq))) [
  | inl full ↦ rw (full, post) (Woken-insert cq op.queue shard _ s.shards f (λ k. k) h)
  | inr room ↦ rw (room, post) (Woken-insert cq op.queue shard _ s.shards f (λ k. k) h)
]

step-Woken :
    (n cq : ℕ) (c : Call) (w w' : World)
    → Sound n w.kernel
    → Named c w.kernel
    → Leaves cq c
    → step c w ≡ ok w'
    → Woken cq w.kernel.shards
    → Woken cq w'.kernel.shards
unfolding step after_post register_shard wake cancel close drain take_woke post
step-Woken n cq c w w' s v l e h = subst (λ r. Holds r) e (stepped c v l)
  where
    Holds : Result World Panic → Type 0
    Holds (ok x) = Woken cq x.kernel.shards
    Holds (err p) = Unit

    stepped : (c : Call) → Named c w.kernel → Leaves cq c → Holds (step c w)
    stepped (Call.registering m) v l =
        Woken-insert_new cq w.kernel.next_queue _ w.kernel.shards
          (lookup-fresh w.kernel.next_queue w.kernel.shards s.queues_below) h
    stepped (Call.submitting q op buffer) v l =
        subst (Woken cq)
          (sym (
            accept-shards buffer (submit q op buffer w.kernel) w
            ∙ submit-shards q op buffer w.kernel))
          h
    stepped (Call.completing cap result) v l = elim (complete-cases n cap result w.kernel s) [
      | inl (u, p) ↦ subst (λ o. Holds (after_post w o)) (sym p) tt
      | inr (op, shard, u, f, p) ↦
          subst (λ o. Holds (after_post w o)) (sym p) (post-Woken cq cap op shard _ w.kernel f h)
    ]
    stepped (Call.waking q) v l = elim (Option-cases (lookup q w.kernel.shards)) [
      | inl u ↦ rw (u, wake) h
      | inr (shard, u) ↦ rw (u, wake) (Woken-insert cq q shard _ w.kernel.shards u (λ k. refl) h)
    ]
    stepped (Call.cancelling cap) v l = subst (Woken cq) (sym (cancel-shards cap w.kernel)) h
    stepped (Call.closing cap) v l = subst (Woken cq) (sym (close-shards cap w.kernel)) h
    stepped (Call.draining q) v l = elim (Option-cases (lookup q w.kernel.shards)) [
      | inl u ↦ rw (u, drain) h
      | inr (shard, u) ↦ rw (u, drain) (Woken-insert cq q shard _ w.kernel.shards u (λ k. k) h)
    ]
    stepped (Call.taking_woke q) v l = elim (Option-cases (lookup q w.kernel.shards)) [
      | inl u ↦ rw (u, take_woke) h
      | inr (shard, u) ↦
          rw (u, take_woke)
            (h.0, lookup-insert_ne q cq _ w.kernel.shards (==_of_ne q cq l) ∙ h.1, h.2)
    ]

pub run-Woken :
    (n cq : ℕ) (cs : List Call) (w : World)
    → n + length cs < u32_mod
    → AllNamed cs w
    → All (Leaves cq) cs
    → Kept n w
    → Woken cq w.kernel.shards
    → (w' : World) × (run cs w ≡ ok w') × Woken cq w'.kernel.shards × Kept (n + length cs) w'
unfolding run AllNamed
run-Woken n cq [] w r v l k h = (w, refl, h, subst (λ m. Kept m w) (omega arith) k)
run-Woken n cq (c ∷ cs) w r v l k h =
    let (w', e, k') = step-Kept n c w (omega arith) v.0 k in
    let (w'', e', h', k'') =
      run-Woken (suc n) cq cs w' (omega arith)
        (subst (λ o. elim o [ ok x ↦ AllNamed cs x | err q ↦ Unit ]) e v.1) l.1 k'
        (step-Woken n cq c w w' k.sound v.0 l.0 e h) in
    (w'', rw (e, run) e', h', subst (λ m. Kept m w'') (omega arith) k'')
