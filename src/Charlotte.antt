-- ===== src/Charlotte.antt =====
-- crates/sitas-core/src/charlotte_abi.rs: the completion queues of a kernel, in memory. A mutex
-- guards the state, so each call is one step. The capabilities and the queues are numbers, and the
-- hash maps are those of Kv.Map. A `Panic` is a failed `expect`, which poisons the mutex.
pub mod Tally
pub mod Soundness
pub mod Calls
pub mod Buffers
pub mod Conservation
pub mod Wakeups
pub mod Terminal
pub mod Reactor
mod Tests
pub mod History
use sitas.Common.{
  ℕ, ℤ, ◌+◌, ◌-◌, ◌*◌, ◌%◌, ◌^◌, Bool, true, false, ◌&&◌, ◌||◌, Option, none, some, List, [], ◌∷◌,
  ◌++◌, map, Result, ok, err, Poll, ready, pending, length, ltb, leb, ◌==◌, if◌then◌else◌,
}
use sitas.Kv.Keys.{nat_key}
use sitas.Kv.Map.{lookup, insert, remove}

pub data OpCode : Type 0 where
  nop read write : OpCode

pub data OpResult : Type 0 where
  success failure : ℤ → OpResult
  cancelled : OpResult

-- The bytes of a `Vec<u8>`.
abbrev pub Buffer : Type 0
Buffer = List ℕ

pub record Completion : Type 0 where
  pub cap : ℕ
  pub result : OpResult
  pub returned : Option Buffer

pub data SubmitError : Type 0 where
  would_block bad_args : SubmitError

-- `WaitError` and `WakeError`
pub data QueueError : Type 0 where
  unknown_queue : QueueError

-- `CancelError` and `CapError`
pub data CapError : Type 0 where
  unknown_cap not_complete : CapError

pub data CancelState : Type 0 where
  already_complete cancel_requested : CancelState

pub data PostOutcome : Type 0 where
  posted backpressured : PostOutcome

pub data Panic : Type 0 where
  no_capability no_queue : Panic

pub record OpState : Type 0 where
  pub queue : ℕ
  pub kind : OpCode
  pub buffer : Option Buffer
  pub cancelling : Bool
  pub completed : Bool

pub record Shard : Type 0 where
  pub cq : List Completion
  pub cq_capacity : ℕ
  pub woke : Bool
  pub overflow_pending : Bool

pub record KernelState : Type 0 where
  pub ops : List (ℕ × OpState)
  pub shards : List (ℕ × Shard)
  pub next_cap : ℕ
  pub next_queue : ℕ
  pub cap_table_capacity : ℕ

abbrev pub u32_mod : ℕ
u32_mod = 2 ^ 32

unfoldable pub new : ℕ → KernelState
new cap_table_capacity = record {
  ops = [];
  shards = [];
  next_cap = 0;
  next_queue = 0;
  cap_table_capacity = cap_table_capacity;
}

abbrev new_shard : ℕ → Shard
new_shard cq_capacity = record {
  cq = [];
  cq_capacity = cq_capacity;
  woke = false;
  overflow_pending = false;
}

unfoldable pub register_shard : ℕ → KernelState → ℕ × KernelState
register_shard cq_capacity s = (
  s.next_queue,
  record s {
    next_queue = (s.next_queue + 1) % u32_mod;
    shards = insert s.next_queue (new_shard cq_capacity) s.shards;
  },
)

abbrev new_op : ℕ → OpCode → Option Buffer → OpState
new_op cq op buffer = record {
  queue = cq;
  kind = op;
  buffer = buffer;
  cancelling = false;
  completed = false;
}

-- A refused submission drops the buffer.
unfoldable pub submit :
    ℕ → OpCode → Option Buffer → KernelState → Result {0, 0} ℕ SubmitError × KernelState
submit cq op buffer s = elim (lookup cq s.shards) [
  | none ↦ (err bad_args, s)
  | some shard ↦ if leb s.cap_table_capacity (length s.ops) then (err would_block, s) else (
    ok s.next_cap,
    record s {
      next_cap = (s.next_cap + 1) % u32_mod;
      ops = insert s.next_cap (new_op cq op buffer) s.ops;
    },
  )
]

-- The completion goes to the queue of its operation; a full queue is marked, and the operation
-- keeps its buffer.
unfoldable pub post : ℕ → OpState → Shard → OpResult → KernelState → PostOutcome × KernelState
post cap op shard result s =
    let returned : Completion = record { cap = cap; result = result; returned = op.buffer } in
    if leb shard.cq_capacity (length shard.cq)
    then (
      backpressured,
      record s {
        shards = insert op.queue (record shard { overflow_pending = true }) s.shards;
        ops = insert cap op s.ops;
      },
    )
    else (
      posted,
      record s {
        ops = insert cap (record op { buffer = none; completed = true }) s.ops;
        shards = insert op.queue (record shard { cq = shard.cq ++ returned ∷ [] }) s.shards;
      },
    )

unfoldable pub complete :
    ℕ → OpResult → KernelState → Result {0, 0} (PostOutcome × KernelState) Panic
complete cap result s = elim (lookup cap s.ops) [
  | none ↦ err no_capability
  | some op ↦ elim (lookup op.queue s.shards) [
    | none ↦ err no_queue
    | some shard ↦ ok (post cap op shard (if op.cancelling then cancelled else result) s)
  ]
]

-- One look of the loop of `wait` at the time `now`; `pending` is the wait on the condition
-- variable.
unfoldable pub wait : ℕ → ℕ → Option ℕ → ℕ → KernelState → Poll (Result {0, 0} ℕ QueueError)
wait cq min_complete deadline now s = elim (lookup cq s.shards) [
  | none ↦ ready (err unknown_queue)
  | some shard ↦
      let count = length shard.cq % u32_mod in
      if shard.woke
        || ((min_complete == 0) && ltb 0 count)
        || (ltb 0 min_complete && leb min_complete count)
      then ready (ok count)
      else elim deadline [
        | none ↦ pending
        | some dl ↦ if leb dl now then ready (ok count) else pending
      ]
]

-- The end of `wait` where the wait on the condition variable timed out.
unfoldable pub wait_timed_out : ℕ → KernelState → ℕ
wait_timed_out cq s = elim (lookup cq s.shards) [
  | none ↦ 0
  | some shard ↦ length shard.cq % u32_mod
]

unfoldable pub wake : ℕ → KernelState → Result {0, 0} Unit QueueError × KernelState
wake cq s = elim (lookup cq s.shards) [
  | none ↦ (err unknown_queue, s)
  | some shard ↦ (ok tt, record s { shards = insert cq (record shard { woke = true }) s.shards })
]

unfoldable pub cancel : ℕ → KernelState → Result {0, 0} CancelState CapError × KernelState
cancel cap s = elim (lookup cap s.ops) [
  | none ↦ (err unknown_cap, s)
  | some op ↦ if op.completed then (ok already_complete, s) else (
    ok cancel_requested,
    record s { ops = insert cap (record op { cancelling = true }) s.ops },
  )
]

unfoldable pub close : ℕ → KernelState → Result {0, 0} Unit CapError × KernelState
close cap s = elim (lookup cap s.ops) [
  | none ↦ (err unknown_cap, s)
  | some op ↦
      if op.completed then (ok tt, record s { ops = remove cap s.ops }) else (err not_complete, s)
]

unfoldable pub ready_caps : ℕ → KernelState → List ℕ
ready_caps cq s = elim (lookup cq s.shards) [ none ↦ [] | some shard ↦ map (λ c. c.cap) shard.cq ]

unfoldable pub drain : ℕ → KernelState → List Completion × KernelState
drain cq s = elim (lookup cq s.shards) [
  | none ↦ ([], s)
  | some shard ↦ (
    shard.cq,
    record s { shards = insert cq (record shard { overflow_pending = false; cq = [] }) s.shards },
  )
]

unfoldable pub take_woke : ℕ → KernelState → Bool × KernelState
take_woke cq s = elim (lookup cq s.shards) [
  | none ↦ (false, s)
  | some shard ↦
      (shard.woke, record s { shards = insert cq (record shard { woke = false }) s.shards })
]

unfoldable pub overflow_pending : ℕ → KernelState → Bool
overflow_pending cq s = elim (lookup cq s.shards) [
  | none ↦ false
  | some shard ↦ shard.overflow_pending
]

unfoldable pub kernel_holds_buffer : ℕ → KernelState → Bool
kernel_holds_buffer cap s = elim (lookup cap s.ops) [
  | none ↦ false
  | some op ↦ elim op.buffer [ none ↦ false | some b ↦ true ]
]

pub record CharlotteEvent : Type 0 where
  pub woke : Bool
  pub readable : List ℕ
  pub writable : List ℕ

-- Where `CharlotteReactor::wait` stands: before a look at the queue, before it takes the wake, and
-- before it reads the capabilities that are ready. `QueueError` stands for `ErrorKind::NotFound`.
pub data ReactorPhase : Type 0 where
  looking taking : ReactorPhase
  reading : Bool → ReactorPhase
  returned : Result {0, 0} CharlotteEvent QueueError → ReactorPhase

abbrev pub looked : Poll (Result {0, 0} ℕ QueueError) → ReactorPhase
looked pending = looking
looked (ready (err e)) = returned (err e)
looked (ready (ok count)) = taking

-- `CharlotteReactor::wait`, the next of its calls on the kernel. Each takes the lock anew, so other
-- calls come in between.
unfoldable pub reactor_wait :
    ℕ → Option ℕ → ℕ → ReactorPhase → KernelState → ReactorPhase × KernelState
reactor_wait cq deadline now looking s = (looked (wait cq 0 deadline now s), s)
reactor_wait cq deadline now taking s = let taken = take_woke cq s in (reading taken.0, taken.1)
reactor_wait cq deadline now (reading woke) s =
    (returned (ok (record { woke = woke; readable = ready_caps cq s; writable = [] })), s)
reactor_wait cq deadline now (returned r) s = (returned r, s)
