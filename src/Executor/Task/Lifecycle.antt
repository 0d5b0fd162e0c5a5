-- ===== src/Executor/Task/Lifecycle.antt =====
-- The lifecycle of a task of executor/task_state.rs: it holds its future, or is being polled, or
-- has ended, and never two of these.
use sitas.Common.{
  ℕ, ◌+◌, ◌≤◌, ◌≡◌, ◌⊎◌, refl, ◌∙◌, true, false, Option, some, List, [], ◌∷◌, arith, if◌then◌else◌,
}
use sitas.Executor.Task.{
  TaskState, Event, starts_poll, ends_ready, ends_pending, ends_panicked, wakes, cancels,
  drops_future, clears_queued, waits_for, is_some, new, step, take_future_for_poll, finish_ready,
  finish_pending, finish_panicked, mark_queued, cancel, drop_future, clear_queued, set_waiting_for,
  Allowed, AllAllowed, run, finish_count,
}

pub record IsValid {F P : Type 0} (s : TaskState F P) : Type 0 where
  pub polled : s.polling ≡ true → (is_some s.future ≡ false) × (s.completed ≡ false)
  pub held : is_some s.future ≡ true → (s.polling ≡ false) × (s.completed ≡ false)
  pub ended : is_some s.future ≡ false → s.polling ≡ false → s.completed ≡ true
  pub cancelled : s.cancel_requested ≡ true → is_some s.future ≡ false
  pub idle : s.completed ≡ true → is_some s.waiting_for ≡ false

module _ {F P : Type 0} where
  pub new-IsValid : (f : F) (p : Option P) → IsValid (new f p)
  unfolding new
  new-IsValid f p = ground arith

  pub step-IsValid :
      (e : Event F) (s : TaskState F P) → Allowed e s → IsValid s → IsValid (step e s).after
  unfolding step take_future_for_poll finish_ready finish_pending finish_panicked mark_queued cancel
      drop_future clear_queued set_waiting_for
  step-IsValid (starts_poll now) s a v = ground arith
  step-IsValid (ends_ready d now) s a v = ground arith
  step-IsValid (ends_pending f d now) s a v = ground arith
  step-IsValid (ends_panicked d now) s a v = ground arith
  step-IsValid (wakes now) s a v = ground arith
  step-IsValid cancels s a v = ground arith
  step-IsValid drops_future s a v = ground arith
  step-IsValid clears_queued s a v = ground arith
  step-IsValid (waits_for w) s a v = ground arith

  -- Every event that can occur keeps the lifecycle: a task holds its future, is being polled, or
  -- has ended, never two of these; a cancelled task holds no future; an ended one waits for
  -- nothing.
  pub lifecycle_kept :
      (es : List (Event F)) (s : TaskState F P) → AllAllowed es s → IsValid s → IsValid (run es s)
  unfolding run
  lifecycle_kept [] s a v = v
  lifecycle_kept (e ∷ es) s a v = lifecycle_kept es (step e s).after a.1 (step-IsValid e s a.0 v)

  abbrev pub ended_once : TaskState F P → ℕ
  ended_once s = if s.completed then 1 else 0

  step_finishes :
      (e : Event F) (s : TaskState F P)
      → Allowed e s
      → IsValid s
      → (if (step e s).finishes then 1 else 0) + ended_once s ≤ ended_once (step e s).after
  unfolding step take_future_for_poll finish_ready finish_pending finish_panicked mark_queued cancel
      drop_future clear_queued set_waiting_for
  step_finishes (starts_poll now) s a v = ground arith
  step_finishes (ends_ready d now) s a v = ground arith
  step_finishes (ends_pending f d now) s a v = ground arith
  step_finishes e s a v = ground arith

  -- However polls, wakes, cancellations and the executor's close are ordered, a valid task that has
  -- not ended calls `finish_task` at most once, and only if it ends; one that has ended never does.
  pub finish_count-le :
      (es : List (Event F)) (s : TaskState F P)
      → AllAllowed es s
      → IsValid s
      → finish_count es s + ended_once s ≤ ended_once (run es s)
  unfolding run finish_count
  finish_count-le [] s a v = omega arith
  finish_count-le (e ∷ es) s a v = omega (
    arith,
    step_finishes e s a.0 v,
    finish_count-le es (step e s).after a.1 (step-IsValid e s a.0 v),
  )

  abbrev IsOver : TaskState F P → Type 0
  IsOver s = (s.cancel_requested ≡ true) ⊎ (s.completed ≡ true)

  step-IsOver :
      (e : Event F) (s : TaskState F P)
      → Allowed e s
      → IsValid s
      → IsOver s
      → IsOver (step e s).after × ((step e s).after.poll_count ≡ s.poll_count)
  unfolding step take_future_for_poll finish_ready finish_pending finish_panicked mark_queued cancel
      drop_future clear_queued set_waiting_for
  step-IsOver (starts_poll now) s a v o = ground arith
  step-IsOver (ends_ready d now) s a v o = ground arith
  step-IsOver e s a v o = ground arith

  run-IsOver :
      (es : List (Event F)) (s : TaskState F P)
      → AllAllowed es s
      → IsValid s
      → IsOver s
      → (run es s).poll_count ≡ s.poll_count
  unfolding run
  run-IsOver [] s a v o = refl
  run-IsOver (e ∷ es) s a v o =
      let over = step-IsOver e s a.0 v o in
      run-IsOver es (step e s).after a.1 (step-IsValid e s a.0 v) over.0 ∙ over.1

  cancel-IsValid : (s : TaskState F P) → IsValid s → IsValid (cancel s).1
  unfolding step
  cancel-IsValid s v = step-IsValid cancels s tt v

  cancel-IsOver : (s : TaskState F P) → IsValid s → IsOver (cancel s).1
  unfolding cancel
  cancel-IsOver s v = ground arith

  cancel-poll_count : (s : TaskState F P) → (cancel s).1.poll_count ≡ s.poll_count
  unfolding cancel
  cancel-poll_count s = ground arith

  -- After `cancel` no poll of a valid task starts any more, whatever else happens to it: the
  -- number of polls stays what it was, through every sequence of events in which a poll ends only
  -- if it started.
  pub cancel_is_final :
      (s : TaskState F P) (es : List (Event F))
      → IsValid s
      → AllAllowed es (cancel s).1
      → (run es (cancel s).1).poll_count ≡ s.poll_count
  cancel_is_final s es v a =
      run-IsOver es (cancel s).1 a (cancel-IsValid s v) (cancel-IsOver s v) ∙ cancel-poll_count s

  -- A wake that arrives while a task is polled is not lost. If the poll of a valid task that nobody
  -- cancelled then returns `Pending`, the task is queued and its next poll gets the future back.
  pub wake_during_poll :
      (s : TaskState F P) (f : F) (now d done next : ℕ)
      → IsValid s
      → s.polling ≡ true
      → s.cancel_requested ≡ false
      → let s' = run (wakes now ∷ ends_pending f d done ∷ []) s in
        (s'.queued ≡ true) × ((take_future_for_poll next s').0 ≡ some f)
  unfolding run step mark_queued finish_pending take_future_for_poll
  wake_during_poll s f now d done next v p c = ground arith
