-- ===== src/Charlotte/Tests.antt =====
-- Runs of the kernel of crates/sitas-core/src/charlotte_abi.rs, and their theorems at fixed inputs.
use sitas.Common.{
  ℕ, pos, ◌+◌, ◌≤◌, ◌≡◌, refl, Bool, true, false, some, none, [], ◌∷◌, ◌++◌, List, All, length, ok,
  err, arith,
}
use sitas.Kv.Keys.{nat_key}
use sitas.Kv.Map.{lookup, insert, remove}
use sitas.Charlotte.{
  OpCode, OpResult, OpState, Shard, KernelState, Buffer, cancelled, new, register_shard, submit,
  post, complete, wake, cancel, close, drain, take_woke, wait_timed_out, reactor_wait, looking,
  taking, reading, returned, ready_caps, kernel_holds_buffer, overflow_pending, would_block, posted,
  backpressured, cancel_requested, already_complete, not_complete,
}
use sitas.Charlotte.History.{Call, World, step, run, start, accept, after_post}
use sitas.Charlotte.Tally.{tally, total, Known}
use sitas.Charlotte.Buffers.{held, queued}
use sitas.Charlotte.Conservation.{AllNamed, buffers_conserved}
use sitas.Charlotte.Terminal.{terminal, backpressure_not_lossy, cancel_defers}
use sitas.Charlotte.Reactor.{wake_seen}

-- Two operations, of which the second meets a full queue, and the first is drained and closed.
abbrev busy : List Call
busy =
    Call.registering 1
    ∷ Call.submitting 0 OpCode.write (some (7 ∷ []))
    ∷ Call.submitting 0 OpCode.read (some (8 ∷ 9 ∷ []))
    ∷ Call.completing 0 (OpResult.success (pos 1))
    ∷ Call.completing 1 (OpResult.success (pos 2))
    ∷ Call.draining 0
    ∷ Call.closing 0
    ∷ []

busy-AllNamed : AllNamed busy (start 4)
unfolding AllNamed start new step run register_shard submit accept complete post after_post drain
    close lookup insert remove
busy-AllNamed = (tt, (tt, (tt, ((_, refl), ((_, refl), (tt, (tt, tt)))))))

buffers_conserved_example :
    (w : World) × (run busy (start 4) ≡ ok w)
    × ((p : Buffer → Bool)
        → tally p w.accepted
          ≡ tally p w.handed_back
            + (total (held p) w.kernel.ops + total (queued p) w.kernel.shards))
    × All (λ e. length e.1.cq ≤ e.1.cq_capacity) w.kernel.shards
    × All (λ e. e.1.completed ≡ true → e.1.buffer ≡ none) w.kernel.ops
buffers_conserved_example = buffers_conserved 4 busy (omega arith) busy-AllNamed

abbrev busy_op : OpState
busy_op = record {
  queue = 0;
  kind = OpCode.read;
  buffer = some (8 ∷ []);
  cancelling = false;
  completed = false;
}

abbrev busy_shard : ℕ → Shard
busy_shard n = record {
  cq = record { cap = 3; result = cancelled; returned = none } ∷ [];
  cq_capacity = n;
  woke = false;
  overflow_pending = false;
}

abbrev busy_kernel : ℕ → KernelState
busy_kernel n = record {
  ops = (4, busy_op) ∷ [];
  shards = (0, busy_shard n) ∷ [];
  next_cap = 5;
  next_queue = 1;
  cap_table_capacity = 8;
}

op_found : (n : ℕ) → lookup 4 (busy_kernel n).ops ≡ some busy_op
unfolding lookup
op_found n = refl

shard_found : (n : ℕ) → lookup 0 (busy_kernel n).shards ≡ some (busy_shard n)
unfolding lookup
shard_found n = refl

backpressure_not_lossy_example :
    (s1 : KernelState) × (complete 4 cancelled (busy_kernel 1) ≡ ok (backpressured, s1))
    × (overflow_pending 0 s1 ≡ true)
    × ((drain 0 s1).0 ≡ (busy_shard 1).cq)
    × (s2 : KernelState) × (complete 4 cancelled (drain 0 s1).1 ≡ ok (posted, s2))
    × ((drain 0 s2).0 ≡ terminal 4 busy_op cancelled ∷ [])
    × (kernel_holds_buffer 4 s2 ≡ false)
backpressure_not_lossy_example =
    backpressure_not_lossy 4 cancelled busy_op (busy_shard 1) (busy_kernel 1) (op_found 1)
      (shard_found 1) (omega arith) refl

cancel_defers_example :
    let s = busy_kernel 2 in
    let s1 = (cancel 4 s).1 in
    ((cancel 4 s).0 ≡ ok cancel_requested)
    × (kernel_holds_buffer 4 s1 ≡ kernel_holds_buffer 4 s)
    × (close 4 s1 ≡ (err not_complete, s1))
    × (s2 : KernelState) × (complete 4 (OpResult.success (pos 1)) s1 ≡ ok (posted, s2))
    × ((drain 0 s2).0
        ≡ (busy_shard 2).cq
          ++ record { cap = 4; result = cancelled; returned = some (8 ∷ []) } ∷ [])
    × ((cancel 4 s2).0 ≡ ok already_complete)
    × ((close 4 s2).0 ≡ ok tt)
cancel_defers_example =
    cancel_defers 4 (OpResult.success (pos 1)) busy_op (busy_shard 2) (busy_kernel 2) (op_found 2)
      (shard_found 2) refl refl

-- The kernel after a queue was registered.
abbrev registered : World
registered = record {
  kernel = record {
    ops = [];
    shards = (0, record { cq = []; cq_capacity = 3; woke = false; overflow_pending = false }) ∷ [];
    next_cap = 0;
    next_queue = 1;
    cap_table_capacity = 4;
  };
  accepted = [];
  handed_back = [];
}

registers : run (Call.registering 3 ∷ []) (start 4) ≡ ok registered
unfolding run step start new register_shard insert
registers = refl

abbrev meanwhile : List Call
meanwhile = Call.submitting 0 OpCode.nop none ∷ Call.draining 0 ∷ Call.taking_woke 1 ∷ []

abbrev between : List Call
between = Call.cancelling 0 ∷ []

abbrev later : List Call
later = Call.completing 0 OpResult.cancelled ∷ []

registering-AllNamed : AllNamed (Call.registering 3 ∷ []) (start 4)
unfolding AllNamed start new step register_shard insert
registering-AllNamed = (tt, tt)

abbrev around : List Call
around = Call.waking 0 ∷ meanwhile ++ (between ++ Call.taking_woke 0 ∷ later)

around-AllNamed : AllNamed around registered
unfolding AllNamed step wake submit accept drain take_woke cancel complete post after_post lookup
    insert
around-AllNamed = (tt, (tt, (tt, (tt, (tt, (tt, ((_, refl), tt)))))))

queue-Known : Known registered.kernel.shards 0
unfolding lookup
queue-Known = (_, refl)

wake_seen_example :
    (w1 : World) × (run (Call.waking 0 ∷ meanwhile) registered ≡ ok w1)
    × (reactor_wait 0 none 9 looking w1.kernel ≡ (taking, w1.kernel))
    × (w2 : World) × (run between w1 ≡ ok w2)
    × (k : KernelState) × (reactor_wait 0 none 9 taking w2.kernel ≡ (reading true, k))
    × ((take_woke 0 k).0 ≡ false)
    × (w3 : World) × (run later (record w2 { kernel = k }) ≡ ok w3)
    × (reactor_wait 0 none 9 (reading true) w3.kernel ≡ (
      returned (ok (record { woke = true; readable = ready_caps 0 w3.kernel; writable = [] })),
      w3.kernel,
    ))
wake_seen_example =
    wake_seen 4 0 9 none (Call.registering 3 ∷ []) meanwhile between later (omega arith)
      registering-AllNamed registered registers queue-Known around-AllNamed
      (tt, (tt, (omega arith, tt))) (tt, tt)

refused_when_full :
    (submit 0 OpCode.nop none (record registered.kernel { cap_table_capacity = 0 })).0
    ≡ err would_block
unfolding submit lookup
refused_when_full = refl

counted_at_timeout : wait_timed_out 0 (busy_kernel 2) ≡ 1
unfolding wait_timed_out lookup
counted_at_timeout = refl
