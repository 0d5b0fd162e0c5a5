-- ===== src/Lib.antt =====
-- A model of sitas, a library for Rust programs that run one executor on each core (a shard), own
-- their data by shard, and pass owned messages between the shards. All paths are below
-- crates/sitas-core/src.
--
-- The parts and how they interact. A task is a future with a state that a mutex guards
-- (executor/task_state.rs, executor/task.rs). The executor of a shard keeps ready tasks in
-- scheduling groups and takes the next one from the group with the least weighted runtime
-- (executor/task_set.rs). Tasks wait for deadlines (executor/timer.rs), for descriptors
-- (executor/io_interest.rs), for permits (executor/backpressure.rs) and for signals
-- (executor/sync.rs). Shards exchange messages through bounded mailboxes (shard_mailbox.rs), to
-- which keys are routed by a hash (placement.rs), and on platforms without a standard library
-- through channels (shard_runtime.rs) over a ring of cells (ringbuf.rs). The key-value service
-- (kv_service.rs) spreads its keys over shards, each a thread with a bounded channel of commands
-- and a reply for each command (runtime.rs).
--
-- Which file models what. Common and its children hold the lists, tests, results and lemmas that
-- the others share. Mailbox is shard_mailbox.rs: one record for the state behind the mutex with
-- the counters, one function per method of `SharedMailbox`, which returns the value, the state
-- and the wakers invoked; Mailbox.History has the histories of calls in the order in which they
-- take the lock. Mailbox.Shards is the set of mailboxes by shard and Mailbox.WorkUnits the set by
-- name. Placement is placement.rs with the key routers of shard_mailbox.rs. Ring is ringbuf.rs,
-- and Channel the channel of shard_runtime.rs over it, with one event for each access of the
-- shared state. Executor.Task is task_state.rs with the calls of task.rs as events, a poll as
-- two, so that wakes and cancellations come in between. Executor.Groups is task_set.rs, with a
-- round of the loop `poll_ready_tasks` of executor.rs in Executor.Groups.Turn, Executor.Timer
-- timer.rs, Executor.Interest io_interest.rs, Executor.Backpressure backpressure.rs, and
-- Executor.Sync sync.rs. Runtime is runtime.rs: Runtime.Config its configuration and the errors
-- of error.rs, Runtime.Reply the slot that a sender fills and a receiver waits for,
-- Runtime.Shards the mailboxes and the loop of the threads, for any service, with histories of
-- calls and turns. Kv is kv_service.rs: Kv.Map the map of one shard, Kv.Service the commands and
-- the calls, Kv.Service.Collect the replies of kv_service/reply.rs, and Kv.History the histories
-- of calls. Keys are an ordered type (Kv.Keys), and the placement of keys is a parameter. Stream
-- is stream_reply.rs, a stream of values with a count of senders beside its mutex, and one event
-- for each access of them. Charlotte is charlotte_abi.rs: the operations and the completion
-- queues of a kernel in memory, with one step for each call under its lock (the wait of the
-- reactor is three such calls), and Charlotte.History the calls in any order with the buffers
-- that go in and come out. Index is mailbox_index.rs: Index.Scanner sends the entries of its
-- records in batches, Index.Assembler sorts what it receives, Index.Coordinator merges and checks
-- the runs, and Index.Build composes them for any arrival order of the messages of different
-- producers (a schedule). ShardExecutor is shard_executor.rs: the ready queue, the tasks and the
-- interests of the executor of one shard, and its loop, with one event for each access of the
-- shared state (ShardExecutor.History), so that wakes from other threads come in between. The
-- children of a module hold its properties, and the modules named Tests runs at fixed inputs.
--
-- Bounds. Machine integers are natural numbers with the wrap-around written out, `usize` and
-- `u64` at 64 bits and `u128` at 128; instants and durations are natural numbers of nanoseconds,
-- and their sums do not overflow. Loops are structural recursions over lists. The merge of the
-- coordinator has one unit of fuel more than there are entries, and is proved never to use it up.
-- Histories of the kernel are shorter than 2 ^ 32 calls, so that no number of a capability or a
-- queue comes twice. A heap is a sorted list, which pops its least item.
--
-- A waker is known by the task that it wakes, so `will_wake` is equality. A call on a mailbox is
-- one step, as its lock makes it. A call on a ring, and a poll for a permit, are one step too,
-- although they read and write more than once: the memory order of atomics is not modelled. The
-- bounded channels of the standard library are queues, and a call that blocks returns `pending`
-- and is made again; a thread takes one command at a turn. Hash maps are association lists. A
-- wake of the reactor of shard_executor.rs is pending until a wait returns, and its errors are
-- ignored as the code ignores them.
--
-- Not modelled: the system interfaces (os, uring), the network front ends (tcp, udp), the joins
-- and scopes of spawned tasks, the counter service and the asynchronous front ends (counter.rs,
-- async_service.rs), the statistics in floating point, and all formatting. Of the build of the
-- index, the threads and the parking are not modelled, and a mailbox of it keeps the order of
-- each producer and loses nothing.
pub mod Channel
pub mod Charlotte
pub mod Common
pub mod Executor
pub mod Index
pub mod Kv
pub mod Mailbox
pub mod Placement
pub mod Ring
pub mod Runtime
pub mod ShardExecutor
pub mod Stream
