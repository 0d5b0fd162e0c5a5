-- ===== src/Executor/Groups/Drain.antt =====
-- Closing the task set of executor/task_set.rs, and the counts behind `is_drained`.
use sitas.Common.{
  ℕ, zero, suc, ◌+◌, ◌≡◌, ◌⊎◌, inl, inr, refl, ap, ◌∙◌, Bool, true, false, none, List, [], ◌∷◌,
  ◌++◌, ok, err, arith, get_elem?, length, length-append,
}
use sitas.Executor.Groups.{
  Task, Group, TaskSet, closed, create_scheduling_group, add_spawner, remove_spawner, schedule_new,
  schedule_existing, next_task, record_task_poll, close, finish_task, group_index, has_id,
  Scheduled, ready_queue_len, queued_in, push_task, update_group, empty_queues, charge_group,
}
use sitas.Executor.Groups.Selection.{next_task_lem}
use sitas.Executor.Groups.History.{
  Op, creating_group, adding_spawner, removing_spawner, taking, closing, finishing, scheduling_new,
  scheduling_existing, recording_poll, step, run, Accepts, refused, enqueued, schedule_new-Accepts,
  schedule_existing-Accepts,
}

-- Nothing is accepted and nothing is queued.
pub record IsClosed (s : TaskSet) : Type 0 where
  pub shut : s.accepting ≡ false
  pub idle : ready_queue_len s ≡ 0

queued_in-append : (gs hs : List Group) → queued_in (gs ++ hs) ≡ queued_in gs + queued_in hs
unfolding ready_queue_len
queued_in-append [] hs = omega arith
queued_in-append (g ∷ gs) hs = omega (arith, queued_in-append gs hs)

queued_in-empty_queues : (gs : List Group) → queued_in (empty_queues gs) ≡ 0
unfolding ready_queue_len close
queued_in-empty_queues [] = refl
queued_in-empty_queues (g ∷ gs) = omega (arith, queued_in-empty_queues gs)

queued_in-update_group :
    (i d : ℕ) (gs : List Group) → queued_in (update_group i (charge_group d) gs) ≡ queued_in gs
unfolding ready_queue_len record_task_poll
queued_in-update_group i d [] = refl
queued_in-update_group zero d (g ∷ gs) = refl
queued_in-update_group (suc i) d (g ∷ gs) =
    ap (◌+◌ (length g.queue)) (queued_in-update_group i d gs)

queued_in-push_task :
    (i k : ℕ) (t : Task) (gs : List Group)
    → has_id k (get_elem? gs i) ≡ true
    → queued_in (push_task i t gs) ≡ suc (queued_in gs)
unfolding ready_queue_len schedule_existing
queued_in-push_task i k t [] h = ground arith
queued_in-push_task zero k t (g ∷ gs) h = omega (arith, length-append g.queue (t ∷ []))
queued_in-push_task (suc i) k t (g ∷ gs) h = omega (arith, queued_in-push_task i k t gs h)

Accepts-IsClosed :
    (c : Scheduled) (t : Task) (s : TaskSet) → Accepts c t s → IsClosed s → IsClosed c.after
Accepts-IsClosed c t s (refused w e a k) v = rw a v
Accepts-IsClosed c t s (enqueued p g e a b k) v = absurd (ground (arith, v.shut))

next_task-IsClosed : (s : TaskSet) → IsClosed s → next_task s ≡ (none, s)
next_task-IsClosed s v = elim (next_task_lem s) [
  | inl h ↦ h.1
  | inr (c, h) ↦ absurd (omega (arith, h.one_less, v.idle))
]

record_task_poll-idle :
    (id d : ℕ) (s : TaskSet) → ready_queue_len (record_task_poll id d s) ≡ ready_queue_len s
unfolding record_task_poll ready_queue_len
record_task_poll-idle id d s = ground (arith, queued_in-update_group id d s.groups)

record_task_poll-accepting :
    (id d : ℕ) (s : TaskSet) → (record_task_poll id d s).accepting ≡ s.accepting
unfolding record_task_poll
record_task_poll-accepting id d s = ground arith

step-IsClosed :
    (alive : Task → Bool) (o : Op) (s : TaskSet) → IsClosed s → IsClosed (step alive o s)
unfolding step create_scheduling_group add_spawner remove_spawner finish_task close ready_queue_len
step-IsClosed alive (creating_group name shares) s v = record {
  shut = v.shut;
  idle = omega (arith, v.idle, queued_in-append s.groups _);
}
step-IsClosed alive adding_spawner s v = record { shut = v.shut; idle = v.idle }
step-IsClosed alive removing_spawner s v = record { shut = v.shut; idle = v.idle }
step-IsClosed alive taking s v = rw (step, next_task-IsClosed s v) v
step-IsClosed alive closing s v = record { shut = refl; idle = queued_in-empty_queues s.groups }
step-IsClosed alive finishing s v = record { shut = v.shut; idle = v.idle }
step-IsClosed alive (scheduling_new t) s v =
    Accepts-IsClosed _ t s (schedule_new-Accepts alive t s) v
step-IsClosed alive (scheduling_existing t) s v =
    Accepts-IsClosed _ t s (schedule_existing-Accepts t s) v
step-IsClosed alive (recording_poll id d) s v = record {
  shut = record_task_poll-accepting id d s ∙ v.shut;
  idle = record_task_poll-idle id d s ∙ v.idle;
}

run-IsClosed :
    (alive : Task → Bool) (os : List Op) (s : TaskSet) → IsClosed s → IsClosed (run alive os s)
unfolding run
run-IsClosed alive [] s v = v
run-IsClosed alive (o ∷ os) s v = run-IsClosed alive os (step alive o s) (step-IsClosed alive o s v)

close-IsClosed : (alive : Task → Bool) (s : TaskSet) → IsClosed (close alive s).1
unfolding close ready_queue_len
close-IsClosed alive s = record { shut = refl; idle = queued_in-empty_queues s.groups }

Accepts-shut :
    (c : Scheduled) (t : Task) (s : TaskSet)
    → Accepts c t s
    → s.accepting ≡ false
    → c.value ≡ err closed
Accepts-shut c t s (refused w e a k) v = e
Accepts-shut c t s (enqueued p g e a b k) v = absurd (ground (arith, v))

-- Once the task set is closed no task is handed out and no new task is accepted any more, after
-- every further history of calls, new groups and new spawners included.
pub close_is_final :
    (alive : Task → Bool) (s : TaskSet) (os : List Op) (t : Task)
    → let s' = run alive os (close alive s).1 in
      (next_task s' ≡ (none, s')) × ((schedule_new alive t s').value ≡ err closed)
close_is_final alive s os t =
    let v = run-IsClosed alive os (close alive s).1 (close-IsClosed alive s) in
    (
      next_task-IsClosed (run alive os (close alive s).1) v,
      Accepts-shut _ t (run alive os (close alive s).1) (schedule_new-Accepts alive t _) v.shut,
    )

Accepts-count :
    (c : Scheduled) (t : Task) (s : TaskSet)
    → Accepts c t s
    → (c.value ≡ err closed) × (c.after ≡ s) × (c.clears_queued ≡ true)
      ⊎ (c.value ≡ ok tt)
        × (s.accepting ≡ true)
        × (ready_queue_len c.after ≡ suc (ready_queue_len s))
        × (c.clears_queued ≡ false)
unfolding ready_queue_len group_index
Accepts-count c t s (refused w e a k) = inl (e, a, k)
Accepts-count c t s (enqueued p g e a b k) = inr (
  e,
  p,
  ap queued_in a
      ∙ queued_in-push_task t.scheduling_group_id t.scheduling_group_id t s.groups (ground arith),
  k,
)

-- A new task is either refused with `Closed`, its queued flag cleared and the set unchanged, or
-- the set was accepting, exactly one more task is queued, and the flag stays.
schedule_lem :
    (alive : Task → Bool) (t : Task) (s : TaskSet)
    → ((schedule_new alive t s).value ≡ err closed)
        × ((schedule_new alive t s).after ≡ s)
        × ((schedule_new alive t s).clears_queued ≡ true)
      ⊎ ((schedule_new alive t s).value ≡ ok tt)
        × (s.accepting ≡ true)
        × (ready_queue_len (schedule_new alive t s).after ≡ suc (ready_queue_len s))
        × ((schedule_new alive t s).clears_queued ≡ false)
schedule_lem alive t s = Accepts-count _ t s (schedule_new-Accepts alive t s)
