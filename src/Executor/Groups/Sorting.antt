-- ===== src/Executor/Groups/Sorting.antt =====
-- Each queued task of executor/task_set.rs stands in the queue of its own scheduling group.
use mathlib.Core.Path.{subst}
use sitas.Common.{
  ℕ, zero, suc, ◌+◌, ◌≡◌, ◌∙◌, inl, inr, refl, sym, ap, Bool, some, List, [], ◌∷◌, ◌++◌, arith, All,
  All-append, get_elem?, set,
}
use sitas.Executor.Groups.{
  Task, Group, TaskSet, next_task, record_task_poll, charge_group, update_group, push_task,
  schedule_new, schedule_existing, create_scheduling_group, close, empty_queues, Scheduled,
  add_spawner, remove_spawner, finish_task,
}
use sitas.Executor.Groups.Selection.{next_task_lem}
use sitas.Executor.Groups.History.{
  Op, creating_group, adding_spawner, removing_spawner, taking, closing, finishing, scheduling_new,
  scheduling_existing, recording_poll, step, run, Accepts, refused, enqueued, schedule_new-Accepts,
  schedule_existing-Accepts,
}

-- Each queued task stands in the queue of its own group, the groups counted from `n`.
abbrev pub Sorted : ℕ → List Group → Type 0
Sorted n [] = Unit
Sorted n (g ∷ gs) = All (λ t. t.scheduling_group_id ≡ n) g.queue × Sorted (suc n) gs

Sorted-append :
    (n : ℕ) (gs : List Group) (g : Group) → g.queue ≡ [] → Sorted n gs → Sorted n (gs ++ g ∷ [])
Sorted-append n [] g e v = (subst (All (λ t. t.scheduling_group_id ≡ n)) (sym e) tt, tt)
Sorted-append n (h ∷ gs) g e v = (v.0, Sorted-append (suc n) gs g e v.1)

All-tail :
    (n : ℕ) (q : List Task) (t : Task) (r : List Task)
    → q ≡ t ∷ r
    → All (λ t. t.scheduling_group_id ≡ n) q
    → (t.scheduling_group_id ≡ n) × All (λ t. t.scheduling_group_id ≡ n) r
All-tail n q t r e a = subst (All (λ t. t.scheduling_group_id ≡ n)) e a

-- The task at the front of the queue at index `i` belongs to that group, and the queue without it
-- is sorted.
pub Sorted-front :
    (n i : ℕ) (gs : List Group) (g h : Group) (t : Task)
    → get_elem? gs i ≡ some g
    → g.queue ≡ t ∷ h.queue
    → Sorted n gs
    → (t.scheduling_group_id ≡ n + i) × Sorted n (set gs i h)
Sorted-front n i [] g h t e q v = cc
Sorted-front n zero (f ∷ gs) g h t e q v =
    let p : f ≡ g = cc in
    let r = All-tail n f.queue t h.queue (ap (λ x. x.queue) p ∙ q) v.0 in
    (omega (arith, r.0), (r.1, v.1))
Sorted-front n (suc i) (f ∷ gs) g h t e q v =
    let r = Sorted-front (suc n) i gs g h t e q v.1 in (omega (arith, r.0), (v.0, r.1))

pub Sorted-push_task :
    (n i : ℕ) (t : Task) (gs : List Group)
    → t.scheduling_group_id ≡ n + i
    → Sorted n gs
    → Sorted n (push_task i t gs)
unfolding schedule_existing
Sorted-push_task n i t [] e v = tt
Sorted-push_task n zero t (g ∷ gs) e v =
    (All-append (λ t. t.scheduling_group_id ≡ n) g.queue (t ∷ []) v.0 (omega arith, tt), v.1)
Sorted-push_task n (suc i) t (g ∷ gs) e v = (v.0, Sorted-push_task (suc n) i t gs (omega arith) v.1)

Sorted-update_group :
    (n i d : ℕ) (gs : List Group) → Sorted n gs → Sorted n (update_group i (charge_group d) gs)
unfolding record_task_poll
Sorted-update_group n i d [] v = tt
Sorted-update_group n zero d (g ∷ gs) v = v
Sorted-update_group n (suc i) d (g ∷ gs) v = (v.0, Sorted-update_group (suc n) i d gs v.1)

Sorted-empty_queues : (n : ℕ) (gs : List Group) → Sorted n (empty_queues gs)
unfolding close
Sorted-empty_queues n [] = tt
Sorted-empty_queues n (g ∷ gs) = (tt, Sorted-empty_queues (suc n) gs)

Accepts-Sorted :
    (c : Scheduled) (t : Task) (s : TaskSet)
    → Accepts c t s
    → Sorted 0 s.groups
    → Sorted 0 c.after.groups
Accepts-Sorted c t s (refused w e a k) v = rw a v
Accepts-Sorted c t s (enqueued p g e a b k) v =
    rw a (Sorted-push_task 0 t.scheduling_group_id t s.groups (omega arith) v)

next_task-Sorted : (s : TaskSet) → Sorted 0 s.groups → Sorted 0 (next_task s).1.groups
next_task-Sorted s v = elim (next_task_lem s) [
  | inl (e, p) ↦ rw p v
  | inr (c, h) ↦
      rw h.result
        (Sorted-front 0 c.index s.groups c.key c.rest c.task h.chosen.at_index h.chosen.front v).1
]

record_task_poll-Sorted :
    (id d : ℕ) (s : TaskSet) → Sorted 0 s.groups → Sorted 0 (record_task_poll id d s).groups
unfolding record_task_poll
record_task_poll-Sorted id d s v = ground (arith, Sorted-update_group 0 id d s.groups)

step-Sorted :
    (alive : Task → Bool) (o : Op) (s : TaskSet)
    → Sorted 0 s.groups
    → Sorted 0 (step alive o s).groups
unfolding step schedule_new schedule_existing create_scheduling_group add_spawner remove_spawner
    finish_task close record_task_poll
step-Sorted alive (creating_group name shares) s v = Sorted-append 0 s.groups _ refl v
step-Sorted alive adding_spawner s v = v
step-Sorted alive removing_spawner s v = v
step-Sorted alive taking s v = next_task-Sorted s v
step-Sorted alive closing s v = Sorted-empty_queues 0 s.groups
step-Sorted alive finishing s v = v
step-Sorted alive (scheduling_new t) s v = Accepts-Sorted _ t s (schedule_new-Accepts alive t s) v
step-Sorted alive (scheduling_existing t) s v =
    Accepts-Sorted _ t s (schedule_existing-Accepts t s) v
step-Sorted alive (recording_poll id d) s v = record_task_poll-Sorted id d s v

pub run-Sorted :
    (alive : Task → Bool) (os : List Op) (s : TaskSet)
    → Sorted 0 s.groups
    → Sorted 0 (run alive os s).groups
unfolding run
run-Sorted alive [] s v = v
run-Sorted alive (o ∷ os) s v = run-Sorted alive os (step alive o s) (step-Sorted alive o s v)
