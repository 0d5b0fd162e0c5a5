-- ===== src/Executor/Task.antt =====
-- executor/task_state.rs, the lifecycle of a task, and the calls of executor/task.rs that drive
-- it. `F` is the boxed future and `P` the panic handler. An `Instant` and a `Duration` are
-- numbers. A poll releases the task's lock while the future runs, so it is two events: one before,
-- one after.
pub mod Lifecycle
mod Tests
use sitas.Common.{
  ℕ, ◌+◌, ◌≡◌, Bool, true, false, ◌&&◌, ◌||◌, not, Option, none, some, List, [], ◌∷◌, if◌then◌else◌,
  add_word,
}

pub data TaskStatus : Type 0 where
  queued polling waiting completed cancelled : TaskStatus

pub data TaskWait : Type 0 where
  unknown : TaskWait
  timer readable writable : ℕ → TaskWait

abbrev pub is_some {ℓ} : {A : Type ℓ} → Option A → Bool
is_some none = false
is_some (some a) = true

pub record TaskState (F P : Type 0) : Type 0 where
  pub future : Option F
  pub panic_handler : Option P
  pub queued : Bool
  pub polling : Bool
  pub cancel_requested : Bool
  pub completed : Bool
  pub poll_count : ℕ
  pub total_poll_time : ℕ
  pub waiting_for : Option TaskWait
  pub last_scheduled_at : Option ℕ
  pub last_poll_started_at : Option ℕ
  pub last_poll_finished_at : Option ℕ

-- `waiting_for` when the future returned `Pending`.
or_unknown : Option TaskWait → Option TaskWait
or_unknown none = some unknown
or_unknown (some w) = some w

module _ {F P : Type 0} where
  pub new : F → Option P → TaskState F P
  new future panic_handler = record {
    future = some future;
    panic_handler = panic_handler;
    queued = false;
    polling = false;
    cancel_requested = false;
    completed = false;
    poll_count = 0;
    total_poll_time = 0;
    waiting_for = none;
    last_scheduled_at = none;
    last_poll_started_at = none;
    last_poll_finished_at = none;
  }

  start_poll : ℕ → TaskState F P → TaskState F P
  start_poll poll_started_at s = record s {
    future = none;
    polling = true;
    waiting_for = none;
    last_poll_started_at = some poll_started_at;
    poll_count = add_word s.poll_count 1;
  }

  pub take_future_for_poll : ℕ → TaskState F P → Option F × TaskState F P
  unfolding start_poll
  take_future_for_poll poll_started_at s =
      let s' = record s { queued = false } in
      elim s.future [ none ↦ (none, s') | some f ↦ (some f, start_poll poll_started_at s') ]

  pub finish_ready : ℕ → ℕ → TaskState F P → TaskState F P
  finish_ready poll_duration poll_finished_at s = record s {
    polling = false;
    completed = true;
    waiting_for = none;
    total_poll_time = s.total_poll_time + poll_duration;
    last_poll_finished_at = some poll_finished_at;
  }

  pub finish_pending : F → ℕ → ℕ → TaskState F P → Bool × TaskState F P
  unfolding or_unknown
  finish_pending future poll_duration poll_finished_at s =
      let s' = record s {
        polling = false;
        total_poll_time = s.total_poll_time + poll_duration;
        last_poll_finished_at = some poll_finished_at;
        waiting_for = or_unknown s.waiting_for;
      } in
      if s.cancel_requested
      then (true, record s' { completed = true; waiting_for = none })
      else (false, record s' { future = some future })

  pub finish_panicked : ℕ → ℕ → TaskState F P → Option P × TaskState F P
  finish_panicked poll_duration poll_finished_at s = (
    s.panic_handler,
    record s {
      polling = false;
      future = none;
      completed = true;
      waiting_for = none;
      total_poll_time = s.total_poll_time + poll_duration;
      last_poll_finished_at = some poll_finished_at;
      panic_handler = none;
    },
  )

  pub mark_queued : ℕ → TaskState F P → Bool × TaskState F P
  mark_queued now s =
      if s.queued || (not (is_some s.future) && not s.polling)
      then (false, s)
      else (true, record s { queued = true; waiting_for = none; last_scheduled_at = some now })

  drop_now : TaskState F P → TaskState F P
  drop_now s = record s { future = none; queued = false; completed = true; waiting_for = none }

  -- `none` if there is nothing to cancel; `some true` if the task ends at once.
  pub cancel : TaskState F P → Option Bool × TaskState F P
  unfolding drop_now
  cancel s =
      if not (is_some s.future) && not s.polling
      then (none, s)
      else (let s' = record s { cancel_requested = true } in
          if s.polling then (some false, s') else (some true, drop_now s'))

  pub drop_future : TaskState F P → TaskState F P
  unfolding drop_now
  drop_future s =
      let s' = record s { cancel_requested = true } in if not s.polling then drop_now s' else s'

  pub clear_queued : TaskState F P → TaskState F P
  clear_queued s = record s { queued = false }

  pub set_waiting_for : TaskWait → TaskState F P → TaskState F P
  set_waiting_for w s =
      if s.polling && not s.completed then record s { waiting_for = some w } else s

  -- The `status` field of `snapshot`.
  pub status : TaskState F P → TaskStatus
  status s =
      if s.completed && s.cancel_requested
      then cancelled
      else if s.completed
      then TaskStatus.completed
      else if s.polling
      then TaskStatus.polling
      else if s.queued
      then TaskStatus.queued
      else waiting

-- What happens to one task, in the order in which its lock is taken. The future is polled between
-- `starts_poll` and the matching `ends_*`; anything else may come in between.
pub data Event (F : Type 0) : Type 0 where
  starts_poll : ℕ → Event F
  ends_ready : ℕ → ℕ → Event F
  ends_pending : F → ℕ → ℕ → Event F
  ends_panicked : ℕ → ℕ → Event F
  wakes : ℕ → Event F
  cancels drops_future clears_queued : Event F
  waits_for : TaskWait → Event F

-- The state after an event, and whether `Task` then calls `Scheduler::finish_task`.
pub record Outcome (F P : Type 0) : Type 0 where
  pub after : TaskState F P
  pub finishes : Bool

abbrev is_true : Option Bool → Bool
is_true (some b) = b
is_true none = false

module _ {F P : Type 0} where
  pub step : Event F → TaskState F P → Outcome F P
  step (starts_poll now) s = record { after = (take_future_for_poll now s).1; finishes = false }
  step (ends_ready d now) s = record { after = finish_ready d now s; finishes = true }
  step (ends_pending f d now) s =
      let (b, s') = finish_pending f d now s in record { after = s'; finishes = b }
  step (ends_panicked d now) s = record { after = (finish_panicked d now s).1; finishes = true }
  step (wakes now) s = record { after = (mark_queued now s).1; finishes = false }
  step cancels s = let (o, s') = cancel s in record { after = s'; finishes = is_true o }
  step drops_future s = record { after = drop_future s; finishes = false }
  step clears_queued s = record { after = clear_queued s; finishes = false }
  step (waits_for w) s = record { after = set_waiting_for w s; finishes = false }

  -- Whether an event can occur: a poll ends only after it started.
  abbrev pub Allowed : Event F → TaskState F P → Type 0
  Allowed (ends_ready d now) s = s.polling ≡ true
  Allowed (ends_pending f d now) s = s.polling ≡ true
  Allowed (ends_panicked d now) s = s.polling ≡ true
  Allowed e s = Unit

  abbrev pub AllAllowed : List (Event F) → TaskState F P → Type 0
  AllAllowed [] s = Unit
  AllAllowed (e ∷ es) s = Allowed e s × AllAllowed es (step e s).after

  pub run : List (Event F) → TaskState F P → TaskState F P
  run [] s = s
  run (e ∷ es) s = run es (step e s).after

  -- How often `finish_task` is called for the task.
  pub finish_count : List (Event F) → TaskState F P → ℕ
  finish_count [] s = 0
  finish_count (e ∷ es) s =
      (if (step e s).finishes then 1 else 0) + finish_count es (step e s).after
