-- ===== src/Executor/Task/Tests.antt =====
-- Runs and instances for executor/task_state.rs. Futures and panic handlers are numbers.
use sitas.Common.{ℕ, ◌+◌, ◌≤◌, ◌≡◌, refl, true, false, none, some, List, [], ◌∷◌, arith}
use sitas.Executor.Task.{
  TaskState, TaskStatus, Event, starts_poll, ends_ready, ends_pending, wakes, cancels, status, new,
  step, run, finish_count, take_future_for_poll, cancel, AllAllowed, mark_queued, finish_ready,
  finish_pending,
}
use sitas.Executor.Task.Lifecycle.{
  IsValid, lifecycle_kept, finish_count-le, ended_once, cancel_is_final, wake_during_poll,
}

abbrev fresh : TaskState ℕ ℕ
fresh = record {
  future = some 1;
  panic_handler = none;
  queued = false;
  polling = false;
  cancel_requested = false;
  completed = false;
  poll_count = 0;
  total_poll_time = 0;
  waiting_for = none;
  last_scheduled_at = none;
  last_poll_started_at = none;
  last_poll_finished_at = none;
}

abbrev polled : TaskState ℕ ℕ
polled = record fresh { future = none; polling = true; poll_count = 1 }

new_is_fresh : new 1 none ≡ fresh
unfolding new
new_is_fresh = refl

abbrev life : List (Event ℕ)
life =
    wakes 1
    ∷ starts_poll 2
    ∷ wakes 3
    ∷ ends_pending 1 4 5
    ∷ starts_poll 6
    ∷ cancels
    ∷ ends_pending 1 7 8
    ∷ []

life_cancelled : (status (run life fresh) ≡ TaskStatus.cancelled) × (finish_count life fresh ≡ 1)
unfolding run step status finish_count take_future_for_poll mark_queued finish_pending cancel
life_cancelled = (refl, refl)

-- A poll that completes after a cancellation counts as cancelled.
ready_after_cancel :
    status (run (starts_poll 1 ∷ cancels ∷ ends_ready 1 2 ∷ []) fresh) ≡ TaskStatus.cancelled
unfolding run step status take_future_for_poll finish_ready cancel
ready_after_cancel = refl

fresh-IsValid : IsValid fresh
fresh-IsValid = ground arith

polled-IsValid : IsValid polled
polled-IsValid = ground arith

life-AllAllowed : AllAllowed life fresh
unfolding step take_future_for_poll mark_queued finish_pending cancel
life-AllAllowed = (tt, (tt, (tt, (refl, (tt, (tt, (refl, tt)))))))

lifecycle_kept_example : IsValid (run life fresh)
lifecycle_kept_example = lifecycle_kept life fresh life-AllAllowed fresh-IsValid

finish_count-le_example : finish_count life fresh + 0 ≤ ended_once (run life fresh)
finish_count-le_example = finish_count-le life fresh life-AllAllowed fresh-IsValid

after_cancel-AllAllowed :
    AllAllowed (ends_pending 1 2 3 ∷ wakes 4 ∷ starts_poll 5 ∷ []) (cancel polled).1
unfolding step cancel finish_pending
after_cancel-AllAllowed = (refl, (tt, (tt, tt)))

cancel_is_final_example :
    (run (ends_pending 1 2 3 ∷ wakes 4 ∷ starts_poll 5 ∷ []) (cancel polled).1).poll_count ≡ 1
cancel_is_final_example =
    cancel_is_final polled (ends_pending 1 2 3 ∷ wakes 4 ∷ starts_poll 5 ∷ []) polled-IsValid
      after_cancel-AllAllowed

wake_during_poll_example :
    let s' = run (wakes 3 ∷ ends_pending 1 4 5 ∷ []) polled in
    (s'.queued ≡ true) × ((take_future_for_poll 6 s').0 ≡ some 1)
wake_during_poll_example = wake_during_poll polled 1 3 4 5 6 polled-IsValid refl refl
