-- ===== src/Charlotte/Reactor.antt =====
-- crates/sitas-core/src/charlotte_abi.rs: a wake of a queue is seen by the next wait on it,
-- exactly once.
use mathlib.Core.Path.{subst}
use sitas.Common.{
  ℕ, suc, ◌+◌, ◌<◌, ◌≡◌, refl, ap, sym, ◌∙◌, Bool, true, false, Option, some, List, [], ◌∷◌, ◌++◌,
  ◌%◌, ok, err, ready, All, length, arith, Result, length-append,
}
use sitas.Kv.Keys.{nat_key}
use sitas.Kv.Map.{lookup, insert}
use sitas.Kv.Map.Lookup.{lookup-insert_self}
use sitas.Charlotte.{
  Panic, Shard, KernelState, u32_mod, wake, take_woke, wait, reactor_wait, ready_caps, looking,
  taking, reading, returned, looked,
}
use sitas.Charlotte.History.{Call, World, step, run, start}
use sitas.Charlotte.Tally.{Known}
use sitas.Charlotte.Conservation.{Kept, AllNamed, step-Kept, run-Kept, start-Kept}
use sitas.Charlotte.Wakeups.{Woken, Leaves, run-Woken}

-- The state after the wake was taken.
abbrev untaken : ℕ → Shard → KernelState → KernelState
untaken cq shard s = record s { shards = insert cq (record shard { woke = false }) s.shards }

take_woke_of :
    (cq : ℕ) (shard : Shard) (s : KernelState)
    → lookup cq s.shards ≡ some shard
    → take_woke cq s ≡ (shard.woke, untaken cq shard s)
unfolding take_woke
take_woke_of cq shard s e = rw (e, take_woke) refl

wait_woken :
    (cq min_complete : ℕ) (deadline : Option ℕ) (now : ℕ) (shard : Shard) (s : KernelState)
    → lookup cq s.shards ≡ some shard
    → shard.woke ≡ true
    → wait cq min_complete deadline now s ≡ ready (ok (length shard.cq % u32_mod))
unfolding wait
wait_woken cq min_complete deadline now shard s e k = rw (e, wait) (ground arith)

-- The look of the reactor at a queue that was woken.
look-Woken :
    (cq : ℕ) (deadline : Option ℕ) (now : ℕ) (s : KernelState)
    → Woken cq s.shards
    → reactor_wait cq deadline now looking s ≡ (taking, s)
unfolding reactor_wait
look-Woken cq deadline now s (shard, e, k) =
    ap (λ r. (looked r, s)) (wait_woken cq 0 deadline now shard s e k)

-- The call that takes the wake, of which nothing is left.
take-Woken :
    (cq : ℕ) (deadline : Option ℕ) (now : ℕ) (s : KernelState)
    → Woken cq s.shards
    → (reactor_wait cq deadline now taking s ≡ (reading true, (take_woke cq s).1))
      × ((take_woke cq (take_woke cq s).1).0 ≡ false)
unfolding reactor_wait
take-Woken cq deadline now s (shard, e, k) =
    let taken : Shard = record shard { woke = false } in
    rw (take_woke_of cq shard s e) (
      ap (λ b. (reading b, untaken cq shard s)) k,
      ap (λ (o : Bool × KernelState). o.0)
          (take_woke_of cq taken (untaken cq shard s) (lookup-insert_self cq taken s.shards)),
    )

wake_of :
    (cq : ℕ) (shard : Shard) (s : KernelState)
    → lookup cq s.shards ≡ some shard
    → wake cq s ≡ (ok tt, record s { shards = insert cq (record shard { woke = true }) s.shards })
unfolding wake
wake_of cq shard s e = rw (e, wake) refl

waking-Woken :
    (cq : ℕ) (w w' : World)
    → step (Call.waking cq) w ≡ ok w'
    → Known w.kernel.shards cq
    → Woken cq w'.kernel.shards
unfolding step wake
waking-Woken cq w w' p (shard, e) =
    let woken : Shard = record shard { woke = true } in
    let after : record w { kernel = (wake cq w.kernel).1 } ≡ w' = (cc p) in
    let same : record w.kernel { shards = insert cq woken w.kernel.shards } ≡ w'.kernel =
      sym (ap (λ o. o.1) (wake_of cq shard w.kernel e)) ∙ ap (λ (x : World). x.kernel) after in
    subst (λ s. Woken cq s.shards) same (woken, lookup-insert_self cq woken w.kernel.shards, refl)

abbrev After : (World → Type 0) → Result World Panic → Type 0
After P r = elim r [ ok t ↦ P t | err e ↦ Unit ]

After-weaken :
    (P Q : World → Type 0) (r : Result World Panic)
    → ((t : World) → P t → Q t)
    → After P r
    → After Q r
After-weaken P Q (ok t) f h = f t h
After-weaken P Q (err e) f h = tt

-- A result that is followed by a run which succeeds.
after_ok {ℓ} :
    {B : Type ℓ} (P : World → Type 0) (f : World → Result World Panic) (w : World)
    (r : Result World Panic)
    → ((t : World) → P t → f t ≡ ok w → B)
    → After P r
    → (elim r [ ok t ↦ f t | err p ↦ err p ]) ≡ ok w
    → B
after_ok P f w (ok t) g h e = g t h e
after_ok P f w (err p) g h e = absurd (cc e)

AllNamed-front : (xs ys : List Call) (w : World) → AllNamed (xs ++ ys) w → AllNamed xs w
unfolding AllNamed
AllNamed-front [] ys w v = tt
AllNamed-front (x ∷ xs) ys w v = (
  v.0,
  After-weaken (AllNamed (xs ++ ys)) (AllNamed xs) (step x w) (λ t. AllNamed-front xs ys t) v.1,
)

-- The calls after some that ran.
AllNamed-rest :
    (xs ys : List Call) (w w' : World) → AllNamed (xs ++ ys) w → run xs w ≡ ok w' → AllNamed ys w'
unfolding AllNamed run
AllNamed-rest [] ys w w' v e = subst (AllNamed ys) (cc e) v
AllNamed-rest (x ∷ xs) ys w w' v e =
    after_ok (AllNamed (xs ++ ys)) (run xs) w' (step x w) (λ t h q. AllNamed-rest xs ys t w' h q)
      v.1 e

-- The calls after the wake was taken.
later_runs :
    (n cq : ℕ) (later : List Call) (w : World)
    → suc (n + length later) < u32_mod
    → AllNamed (Call.taking_woke cq ∷ later) w
    → Kept n w
    → (t : World) × (run later (record w { kernel = (take_woke cq w.kernel).1 }) ≡ ok t)
unfolding AllNamed step
later_runs n cq later w r v k =
    let (z, e, k') = step-Kept n (Call.taking_woke cq) w (omega arith) tt k in
    let same : z ≡ record w { kernel = (take_woke cq w.kernel).1 } = (cc e) in
    let (t, q, _) =
      run-Kept (suc n) later (record w { kernel = (take_woke cq w.kernel).1 }) (omega arith) v.1
        (subst (Kept (suc n)) same k') in
    (t, q)

read_wake :
    (cq : ℕ) (deadline : Option ℕ) (now : ℕ) (s : KernelState)
    → reactor_wait cq deadline now (reading true) s
      ≡ (returned (ok (record { woke = true; readable = ready_caps cq s; writable = [] })), s)
unfolding reactor_wait
read_wake cq deadline now s = refl

-- Take any history of fewer than 2 ^ 32 calls on a new kernel in which the kernel completes only
-- operations that it has. In it a registered queue is woken, and the reactor of the queue then
-- waits: it looks at the queue after some more calls, takes the wake after yet others, and reads
-- the ready capabilities after the last calls; no other call takes the wake before the reactor
-- does. No call panics; the look does not wait, whatever the deadline; the wake that is taken is
-- there, and is then gone; and the reactor returns that it was woken, with every capability that
-- then has a completion in the queue.
pub wake_seen :
    (capacity cq now : ℕ) (deadline : Option ℕ) (before after between later : List Call)
    → length before + suc (length (after ++ (between ++ Call.taking_woke cq ∷ later))) < u32_mod
    → AllNamed before (start capacity)
    → (w : World) → run before (start capacity) ≡ ok w
    → Known w.kernel.shards cq
    → AllNamed (Call.waking cq ∷ after ++ (between ++ Call.taking_woke cq ∷ later)) w
    → All (Leaves cq) after
    → All (Leaves cq) between
    → (w1 : World) × (run (Call.waking cq ∷ after) w ≡ ok w1)
      × (reactor_wait cq deadline now looking w1.kernel ≡ (taking, w1.kernel))
      × (w2 : World) × (run between w1 ≡ ok w2)
      × (k : KernelState) × (reactor_wait cq deadline now taking w2.kernel ≡ (reading true, k))
      × ((take_woke cq k).0 ≡ false)
      × (w3 : World) × (run later (record w2 { kernel = k }) ≡ ok w3)
      × (reactor_wait cq deadline now (reading true) w3.kernel ≡ (
        returned (ok (record { woke = true; readable = ready_caps cq w3.kernel; writable = [] })),
        w3.kernel,
      ))
unfolding run AllNamed
wake_seen capacity cq now deadline before after between later r v w e known v' l l' =
    let tail = Call.taking_woke cq ∷ later in
    let n = length before in
    let (x, q, kept) = run-Kept 0 before (start capacity) (omega arith) v (start-Kept capacity) in
    let same : x ≡ w = (cc (q, e)) in
    let k = subst (Kept n) same (subst (λ m. Kept m x) (omega arith) kept) in
    let (y, p, k') = step-Kept n (Call.waking cq) w (omega arith) tt k in
    let named = subst (After (AllNamed (after ++ (between ++ tail)))) p v'.1 in
    let size : length (after ++ (between ++ tail))
        ≡ length after + (length between + suc (length later)) =
      omega (arith, length-append after (between ++ tail), length-append between tail) in
    let (w1, e1, h1, k1) =
      run-Woken (suc n) cq after y (omega (arith, r, size))
        (AllNamed-front after (between ++ tail) y named) l k' (waking-Woken cq w y p known) in
    let named1 = AllNamed-rest after (between ++ tail) y w1 named e1 in
    let m = suc n + length after in
    let (w2, e2, h2, k2) =
      run-Woken m cq between w1 (omega (arith, r, size)) (AllNamed-front between tail w1 named1) l'
        k1 h1 in
    let named2 = AllNamed-rest between tail w1 w2 named1 e2 in
    let (w3, e3) = later_runs (m + length between) cq later w2 (omega (arith, r, size)) named2 k2 in
    let (t, gone) = take-Woken cq deadline now w2.kernel h2 in
    (
      w1,
      rw (p, run) e1,
      look-Woken cq deadline now w1.kernel h1,
      w2,
      e2,
      (take_woke cq w2.kernel).1,
      t,
      gone,
      w3,
      e3,
      read_wake cq deadline now w3.kernel,
    )
