-- ===== src/Charlotte/Conservation.antt =====
-- crates/sitas-core/src/charlotte_abi.rs: every buffer of an accepted submission is in one place.
use mathlib.Core.Path.{subst}
use sitas.Common.{
  ℕ, suc, ◌+◌, ◌<◌, ◌≤◌, ◌≡◌, refl, ap, inl, inr, ◌⊎◌, Bool, true, Option, none, List, [], ◌∷◌,
  ◌++◌, Result, ok, err, All, length, leb, Bool-cases, Option-cases, arith, option_to_list,
  if◌then◌else◌,
}
use sitas.Kv.Keys.{nat_key}
use sitas.Kv.Map.{lookup}
use sitas.Charlotte.{
  OpResult, SubmitError, bad_args, would_block, cancelled, OpCode, Buffer, KernelState, u32_mod,
  new_op, submit, drain, new,
}
use sitas.Charlotte.History.{Call, World, returned_buffers, accept, after_post, step, run, start}
use sitas.Charlotte.Tally.{tally, tally-append, total, total-insert_new, lookup-fresh, Known}
use sitas.Charlotte.Calls.{
  complete-cases, register_shard-Sound, submit-Sound, post-Sound, wake-Sound, take_woke-Sound,
  drain-Sound, cancel-Sound, close-Sound, new-Sound,
}
use sitas.Charlotte.Soundness.{Sound, Sound-weaken}
use sitas.Charlotte.Buffers.{
  held, queued, owned, register_shard-owned, post-owned, wake-owned, take_woke-owned, drain-owned,
  cancel-owned, close-owned,
}

submit-cases :
    (n cq : ℕ) (op : OpCode) (buffer : Option Buffer) (s : KernelState)
    → Sound n s
    → ((e : SubmitError) × (submit cq op buffer s ≡ (err e, s)))
      ⊎ ((cap : ℕ) × ((submit cq op buffer s).0 ≡ ok cap)
          × ((p : Buffer → Bool)
              → owned p (submit cq op buffer s).1 ≡ owned p s + tally p (option_to_list buffer)))
unfolding submit
submit-cases n cq op buffer s h = elim (Option-cases (lookup cq s.shards)) [
  | inl e ↦ inl (bad_args, rw (e, submit) refl)
  | inr (shard, e) ↦ elim (Bool-cases (leb s.cap_table_capacity (length s.ops))) [
    | inl full ↦ inl (would_block, rw (e, full, submit) refl)
    | inr room ↦ inr (
      s.next_cap,
      rw (e, room, submit) refl,
      λ p.
          rw (e, room, submit)
            (omega (
              arith,
              total-insert_new (held p) s.next_cap (new_op cq op buffer) s.ops
                  (lookup-fresh s.next_cap s.ops h.caps_below),
            )),
    )
  ]
]

-- What a submission does to the buffers accepted.
accept_ok :
    (buffer : Option Buffer) (out : Result {0, 0} ℕ SubmitError × KernelState) (w : World) (cap : ℕ)
    → out.0 ≡ ok cap
    → accept buffer out w
      ≡ record w { kernel = out.1; accepted = w.accepted ++ option_to_list buffer }
unfolding accept
accept_ok buffer out w cap e = rw (e, accept) refl

-- A completion names an operation that the kernel has.
abbrev pub Named : Call → KernelState → Type 0
Named (Call.completing cap result) s = Known s.ops cap
Named c s = Unit

unfoldable pub AllNamed : List Call → World → Type 0
AllNamed [] w = Unit
AllNamed (c ∷ cs) w = Named c w.kernel × (elim (step c w) [ ok w' ↦ AllNamed cs w' | err e ↦ Unit ])

-- Each accepted buffer is in one place.
pub record Kept (n : ℕ) (w : World) : Type 0 where
  pub sound : Sound n w.kernel
  balanced : (p : Buffer → Bool) → tally p w.accepted ≡ tally p w.handed_back + owned p w.kernel

-- A call that moves no buffer.
moves_none :
    (n m : ℕ) (s : KernelState) (w : World)
    → Sound m s
    → ((p : Buffer → Bool) → owned p s ≡ owned p w.kernel)
    → Kept n w
    → Kept m (record w { kernel = s })
moves_none n m s w h e k = record { sound = h; balanced = λ p. omega (arith, k.balanced p, e p) }

submit-Kept :
    (n cq : ℕ) (op : OpCode) (buffer : Option Buffer) (w : World)
    → suc n < u32_mod
    → Kept n w
    → (w' : World) × (step (Call.submitting cq op buffer) w ≡ ok w') × Kept (suc n) w'
unfolding step accept
submit-Kept n cq op buffer w r k = elim (submit-cases n cq op buffer w.kernel k.sound) [
  | inl (e, q) ↦ (
    w,
    ap (λ out. ok (accept buffer out w)) q,
    record { sound = Sound-weaken n w.kernel k.sound; balanced = k.balanced },
  )
  | inr (cap, q, o) ↦ (
    _,
    ap ok (accept_ok buffer (submit cq op buffer w.kernel) w cap q),
    record {
      sound = submit-Sound n cq op buffer w.kernel r k.sound;
      balanced =
          λ p. omega (arith, k.balanced p, o p, tally-append p w.accepted (option_to_list buffer));
    },
  )
]

complete-Kept :
    (n cap : ℕ) (result : OpResult) (w : World)
    → Named (Call.completing cap result) w.kernel
    → Kept n w
    → (w' : World) × (step (Call.completing cap result) w ≡ ok w') × Kept (suc n) w'
unfolding step after_post
complete-Kept n cap result w v k = elim (complete-cases n cap result w.kernel k.sound) [
  | inl e ↦ absurd (cc (v.1, e.0))
  | inr (op, shard, e, f, q) ↦
      let res = if op.cancelling then cancelled else result in
      (
        _,
        ap (after_post w) q,
        moves_none n (suc n) _ w
            (Sound-weaken n _ (post-Sound n cap op shard res w.kernel e f k.sound))
            (λ p. post-owned p cap op shard res w.kernel e f) k,
      )
]

drain-Kept :
    (n cq : ℕ) (w : World)
    → Kept n w
    → (w' : World) × (step (Call.draining cq) w ≡ ok w') × Kept (suc n) w'
unfolding step returned_buffers
drain-Kept n cq w k = (
  _,
  refl,
  record {
    sound = Sound-weaken n _ (drain-Sound n cq w.kernel k.sound);
    balanced = λ p. omega (
      arith,
      k.balanced p,
      drain-owned p cq w.kernel,
      tally-append p w.handed_back (returned_buffers (drain cq w.kernel).0),
    );
  },
)

pub step-Kept :
    (n : ℕ) (c : Call) (w : World)
    → suc n < u32_mod
    → Named c w.kernel
    → Kept n w
    → (w' : World) × (step c w ≡ ok w') × Kept (suc n) w'
unfolding step accept after_post returned_buffers
step-Kept n (Call.registering m) w r v k = (
  _,
  refl,
  moves_none n (suc n) _ w (register_shard-Sound n m w.kernel r k.sound)
      (λ p. register_shard-owned p n m w.kernel k.sound) k,
)
step-Kept n (Call.submitting cq op buffer) w r v k = submit-Kept n cq op buffer w r k
step-Kept n (Call.completing cap result) w r v k = complete-Kept n cap result w v k
step-Kept n (Call.waking cq) w r v k = (
  _,
  refl,
  moves_none n (suc n) _ w (Sound-weaken n _ (wake-Sound n cq w.kernel k.sound))
      (λ p. wake-owned p cq w.kernel) k,
)
step-Kept n (Call.cancelling cap) w r v k = (
  _,
  refl,
  moves_none n (suc n) _ w (Sound-weaken n _ (cancel-Sound n cap w.kernel k.sound))
      (λ p. cancel-owned p cap w.kernel) k,
)
step-Kept n (Call.closing cap) w r v k = (
  _,
  refl,
  moves_none n (suc n) _ w (Sound-weaken n _ (close-Sound n cap w.kernel k.sound))
      (λ p. close-owned p n cap w.kernel k.sound) k,
)
step-Kept n (Call.draining cq) w r v k = drain-Kept n cq w k
step-Kept n (Call.taking_woke cq) w r v k = (
  _,
  refl,
  moves_none n (suc n) _ w (Sound-weaken n _ (take_woke-Sound n cq w.kernel k.sound))
      (λ p. take_woke-owned p cq w.kernel) k,
)

pub run-Kept :
    (n : ℕ) (cs : List Call) (w : World)
    → n + length cs < u32_mod
    → AllNamed cs w
    → Kept n w
    → (w' : World) × (run cs w ≡ ok w') × Kept (n + length cs) w'
unfolding run AllNamed
run-Kept n [] w r v k = (w, refl, subst (λ m. Kept m w) (omega arith) k)
run-Kept n (c ∷ cs) w r v k =
    let (w', e, k') = step-Kept n c w (omega arith) v.0 k in
    let (w'', e', k'') =
      run-Kept (suc n) cs w' (omega arith)
        (subst (λ o. elim o [ ok x ↦ AllNamed cs x | err q ↦ Unit ]) e v.1) k' in
    (w'', rw (e, run) e', subst (λ m. Kept m w'') (omega arith) k'')

pub start-Kept : (capacity : ℕ) → Kept 0 (start capacity)
unfolding start new total
start-Kept capacity = record { sound = new-Sound capacity; balanced = λ p. refl }

-- Take any history of fewer than 2 ^ 32 calls on a new kernel, in which the kernel completes only
-- operations that it has. No call panics, and at the end every buffer of an accepted submission is
-- in exactly one place: with its operation, in a completion queue, or handed back by a drain. (Of
-- the buffers that meet any test, as many were accepted as are in these places.) No queue is
-- longer than its capacity, and no operation that has completed holds a buffer.
pub buffers_conserved :
    (capacity : ℕ) (cs : List Call)
    → length cs < u32_mod
    → AllNamed cs (start capacity)
    → (w : World) × (run cs (start capacity) ≡ ok w)
      × ((p : Buffer → Bool)
          → tally p w.accepted
            ≡ tally p w.handed_back
              + (total (held p) w.kernel.ops + total (queued p) w.kernel.shards))
      × All (λ e. length e.1.cq ≤ e.1.cq_capacity) w.kernel.shards
      × All (λ e. e.1.completed ≡ true → e.1.buffer ≡ none) w.kernel.ops
buffers_conserved capacity cs r v =
    let (w, e, k) = run-Kept 0 cs (start capacity) (omega arith) v (start-Kept capacity) in
    (w, e, k.balanced, k.sound.bounded, k.sound.finished)
