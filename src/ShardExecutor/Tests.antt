-- ===== src/ShardExecutor/Tests.antt =====
-- Runs of the executor of crates/sitas-core/src/shard_executor.rs, and its theorems at fixed
-- inputs.
use sitas.Common.{
  ℕ, ◌+◌, ◌<◌, ◌≡◌, refl, ◌⊎◌, true, false, none, some, List, [], ◌∷◌, ◌++◌, ok, arith, length,
  contains, Distinct,
}
use sitas.ShardExecutor.{
  waiting, Executor, mark, new, spawn, mark_ready, proceed, take_ready, poll_task, finish_poll,
  register_readable, swap_remove, read_handles,
}
use sitas.ShardExecutor.History.{
  Event, spawning, running, proceeding, polled, waited, waking_here, marking, releasing,
  registering, step, run,
}
use sitas.ShardExecutor.Slots.{occupied}
use sitas.ShardExecutor.Validity.{held}
use sitas.ShardExecutor.Loop.{taken, no_panic, wait_sees_ready, no_wake_lost}

-- One task is polled and waits; the first wait returns for the wake of the spawn, and the second
-- goes on.
abbrev to_wait : List (Event ℕ)
to_wait =
    spawning 5
    ∷ running
    ∷ proceeding
    ∷ proceeding
    ∷ registering 9 0
    ∷ polled (some 5)
    ∷ proceeding
    ∷ proceeding
    ∷ waited (some [])
    ∷ proceeding
    ∷ proceeding
    ∷ proceeding
    ∷ proceeding
    ∷ []

abbrev asleep : Executor ℕ
asleep = record {
  ready = record { queue = []; queued = false ∷ [] };
  tasks = some 5 ∷ [];
  interests = (9, 0) ∷ [];
  live = 1;
  poll_budget = 64;
  phase = waiting;
  woken = false;
  waking = 0;
}

falls_asleep : run to_wait (new 64) ≡ ok asleep
unfolding run step new spawn mark_ready mark proceed take_ready poll_task finish_poll
    register_readable
falls_asleep = refl

-- A thread has marked the task and is about to wake the reactor.
abbrev marked : Executor ℕ
marked = record asleep { ready = record { queue = 0 ∷ []; queued = true ∷ [] }; waking = 1 }

marked_asleep : run (to_wait ++ marking 0 ∷ []) (new 64) ≡ ok marked
unfolding run step new spawn mark_ready mark proceed take_ready poll_task finish_poll
    register_readable
marked_asleep = refl

wait_sees_ready_example : (marked.woken ≡ true) ⊎ (0 < marked.waking)
wait_sees_ready_example =
    wait_sees_ready 64 (to_wait ++ marking 0 ∷ []) marked marked_asleep refl refl

no_panic_example :
    (s : Executor ℕ) × (run to_wait (new 64) ≡ ok s)
    × Distinct s.ready.queue
    × ((t : ℕ) → contains t s.ready.queue ≡ true → t < length s.tasks)
    × (s.live ≡ occupied s.tasks + held s.phase)
no_panic_example = no_panic 64 to_wait

abbrev later : List (Event ℕ)
later =
    releasing
    ∷ waited (some (9 ∷ []))
    ∷ proceeding
    ∷ proceeding
    ∷ proceeding
    ∷ proceeding
    ∷ waking_here 0
    ∷ polled none
    ∷ []

no_wake_lost_example :
    let woken = record asleep { ready = mark 0 asleep.ready; waking = asleep.waking + 1 } in
    (t : Executor ℕ) × (run (marking 0 ∷ later) asleep ≡ ok t)
    × (contains 0 (taken later woken ++ t.ready.queue) ≡ true)
    × ((added : List ℕ) × ((mark 0 asleep.ready).queue ++ added
          ≡ taken later woken ++ t.ready.queue))
no_wake_lost_example = no_wake_lost 64 0 to_wait later asleep falls_asleep (omega arith)

last_in_place : swap_remove 1 ((1, 4) ∷ (2, 5) ∷ (3, 6) ∷ []) ≡ some (4, (3, 6) ∷ (2, 5) ∷ [])
unfolding swap_remove
last_in_place = refl

handles_in_order : read_handles ((1, 4) ∷ (2, 5) ∷ []) ≡ 1 ∷ 2 ∷ []
unfolding read_handles
handles_in_order = refl
