-- ===== src/Executor/Groups/Tests.antt =====
-- Runs and instances for executor/task_set.rs.
use sitas.Common.{
  ℕ, arith, zero, suc, get_elem?, ◌≡◌, ◌⊎◌, refl, Bool, true, none, some, List, [], ◌∷◌, err,
}
use sitas.Executor.Groups.{
  Task, Group, charge, TaskSet, Choice, closed, new, create_scheduling_group, schedule_new,
  next_task, record_task_poll, close, ready_queue_len,
}
use sitas.Executor.Groups.Selection.{HandsOut, next_task_lem}
use sitas.Executor.Groups.History.{
  Op, creating_group, taking, scheduling_new, recording_poll, run, step,
}
use sitas.Executor.Groups.Turn.{waking, turn}
use sitas.Executor.Groups.Fairness.{Spread, Charges, turn_keeps_Spread}
use sitas.Executor.Groups.Drain.{close_is_final}

abbrev task : ℕ → ℕ → Task
task id group = record { id = id; scheduling_group_id = group }

abbrev always : Task → Bool
always t = true

-- Group 1 has a tenth of the shares of group 2.
abbrev script : List Op
script =
    creating_group "low" 10
    ∷ creating_group "high" 100
    ∷ scheduling_new (task 1 1)
    ∷ scheduling_new (task 2 2)
    ∷ scheduling_new (task 3 1)
    ∷ taking
    ∷ recording_poll 1 1000
    ∷ []

abbrev busy : TaskSet
unfolding run step new create_scheduling_group schedule_new next_task record_task_poll
busy = run always script new

-- The group with more shares is served next, before the task that came earlier.
high_comes_next : (next_task busy).0 ≡ some (task 2 2)
unfolding busy next_task
high_comes_next = refl

next_task_lem_example :
    (ready_queue_len busy ≡ 0) × (next_task busy ≡ (none, busy)) ⊎ ((c : Choice) × HandsOut c busy)
next_task_lem_example = next_task_lem busy

close_is_final_example :
    let s' = run always script (close always busy).1 in
    (next_task s' ≡ (none, s')) × ((schedule_new always (task 9 0) s').value ≡ err closed)
close_is_final_example = close_is_final always busy script (task 9 0)

-- The group "high", in which a task waits.
abbrev high : Group
high = record {
  id = 2;
  name = "high";
  shares = 100;
  virtual_runtime = 0;
  total_polls = 0;
  total_poll_time = 0;
  queue = task 2 2 ∷ [];
}

high_waits : get_elem? (run always script new).groups 2 ≡ some high
unfolding run step new create_scheduling_group schedule_new next_task record_task_poll
high_waits = refl

busy-Spread : Spread 2 10000 (run always script new).groups
unfolding run step new create_scheduling_group schedule_new next_task record_task_poll
busy-Spread zero = omega arith
busy-Spread (suc zero) = omega arith
busy-Spread (suc (suc zero)) = omega arith
busy-Spread (suc (suc (suc i))) = omega arith

busy-Charges : Charges (some 50) 10000 (run always script new).groups
unfolding run step new create_scheduling_group schedule_new next_task record_task_poll charge
busy-Charges zero = omega arith
busy-Charges (suc zero) = omega arith
busy-Charges (suc (suc zero)) = omega arith
busy-Charges (suc (suc (suc i))) = tt

turn_keeps_Spread_example :
    Spread 2 10000 (turn always (waking (task 1 1) ∷ []) (some 50) (run always script new)).groups
turn_keeps_Spread_example =
    turn_keeps_Spread always script (waking (task 1 1) ∷ []) (some 50) 2 10000 high high_waits
      (λ e. cc) busy-Spread busy-Charges
