-- ===== src/Executor/Groups/Turn.antt =====
-- crates/sitas-core/src/executor.rs, `poll_ready_tasks`: one round of its loop, on the task set.
-- While a task is polled, others are spawned and woken; the poll itself is a parameter, which says
-- which ones, and how long it took, if the task still had its future.
use sitas.Common.{ℕ, Bool, Option, none, some, List, [], ◌∷◌}
use sitas.Executor.Groups.{
  Task, TaskSet, next_task, record_task_poll, schedule_new, schedule_existing, Scheduled,
}

pub data Scheduling : Type 0 where
  spawning waking : Task → Scheduling

schedule : (Task → Bool) → Scheduling → TaskSet → Scheduled
schedule alive (spawning t) s = schedule_new alive t s
schedule alive (waking t) s = schedule_existing t s

unfoldable pub schedule_all : (Task → Bool) → List Scheduling → TaskSet → TaskSet
unfolding schedule
schedule_all alive [] s = s
schedule_all alive (o ∷ os) s = schedule_all alive os (schedule alive o s).after

-- `record_task_poll` where the poll reported a duration.
pub record_poll : ℕ → Option ℕ → TaskSet → TaskSet
record_poll group_id none s = s
record_poll group_id (some d) s = record_task_poll group_id d s

-- The body of the loop, from what `next_task` returned and left.
pub poll_next : (Task → Bool) → List Scheduling → Option ℕ → Option Task × TaskSet → TaskSet
unfolding schedule_all record_poll
poll_next alive os polled (none, s) = s
poll_next alive os polled (some t, s) =
    record_poll t.scheduling_group_id polled (schedule_all alive os s)

unfoldable pub turn : (Task → Bool) → List Scheduling → Option ℕ → TaskSet → TaskSet
unfolding poll_next
turn alive os polled s = poll_next alive os polled (next_task s)
