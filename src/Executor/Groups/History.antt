-- ===== src/Executor/Groups/History.antt =====
-- Histories of calls on the task set of executor/task_set.rs, and what scheduling a task does.
use Prim.Native.String.{String}
use sitas.Common.{
  ℕ, zero, suc, ◌+◌, ◌≡◌, ◌⊎◌, ◌∙◌, inl, inr, refl, ap, Bool, true, false, none, some, List, [],
  ◌∷◌, ◌++◌, ok, err, arith, get_elem?, set, length, Bool-cases, ltb, if◌then◌else◌,
}
use sitas.Executor.Groups.{
  Task, Group, TaskSet, closed, new, create_scheduling_group, add_spawner, remove_spawner,
  schedule_new, schedule_existing, next_task, record_task_poll, close, finish_task, group_index,
  has_id, push_task, update_group, empty_queues, charge_group, remember, Scheduled,
}
use sitas.Executor.Groups.Selection.{next_task_lem}

pub data Op : Type 0 where
  creating_group : String → ℕ → Op
  adding_spawner removing_spawner taking closing finishing : Op
  scheduling_new scheduling_existing : Task → Op
  recording_poll : ℕ → ℕ → Op

unfoldable pub step : (Task → Bool) → Op → TaskSet → TaskSet
step alive (creating_group name shares) s = (create_scheduling_group name shares s).1
step alive adding_spawner s = add_spawner s
step alive removing_spawner s = (remove_spawner s).1
step alive taking s = (next_task s).1
step alive closing s = (close alive s).1
step alive finishing s = (finish_task s).1
step alive (scheduling_new t) s = (schedule_new alive t s).after
step alive (scheduling_existing t) s = (schedule_existing t s).after
step alive (recording_poll id d) s = record_task_poll id d s

unfoldable pub run : (Task → Bool) → List Op → TaskSet → TaskSet
run alive [] s = s
run alive (o ∷ os) s = run alive os (step alive o s)

-- The identifiers count up from `n`.
abbrev pub Indexed : ℕ → List Group → Type 0
Indexed n [] = Unit
Indexed n (g ∷ gs) = (g.id ≡ n) × Indexed (suc n) gs

Indexed-append :
    (n : ℕ) (gs : List Group) (g : Group)
    → g.id ≡ n + length gs
    → Indexed n gs
    → Indexed n (gs ++ g ∷ [])
Indexed-append n [] g e v = (omega arith, tt)
Indexed-append n (h ∷ gs) g e v = (v.0, Indexed-append (suc n) gs g (omega arith) v.1)

Indexed-set :
    (n : ℕ) (gs : List Group) (i : ℕ) (g h : Group)
    → get_elem? gs i ≡ some g
    → h.id ≡ g.id
    → Indexed n gs
    → Indexed n (set gs i h)
Indexed-set n [] i g h e p v = tt
Indexed-set n (f ∷ gs) zero g h e p v = ground arith
Indexed-set n (f ∷ gs) (suc i) g h e p v = (v.0, Indexed-set (suc n) gs i g h e p v.1)

Indexed-push_task :
    (n : ℕ) (gs : List Group) (i : ℕ) (t : Task) → Indexed n gs → Indexed n (push_task i t gs)
unfolding schedule_existing
Indexed-push_task n [] i t v = tt
Indexed-push_task n (f ∷ gs) zero t v = v
Indexed-push_task n (f ∷ gs) (suc i) t v = (v.0, Indexed-push_task (suc n) gs i t v.1)

Indexed-update_group :
    (n : ℕ) (gs : List Group) (i d : ℕ)
    → Indexed n gs
    → Indexed n (update_group i (charge_group d) gs)
unfolding record_task_poll
Indexed-update_group n [] i d v = tt
Indexed-update_group n (f ∷ gs) zero d v = v
Indexed-update_group n (f ∷ gs) (suc i) d v = (v.0, Indexed-update_group (suc n) gs i d v.1)

Indexed-empty_queues : (n : ℕ) (gs : List Group) → Indexed n gs → Indexed n (empty_queues gs)
unfolding close
Indexed-empty_queues n [] v = tt
Indexed-empty_queues n (f ∷ gs) v = (v.0, Indexed-empty_queues (suc n) gs v.1)

remember-groups :
    (alive : Task → Bool) (t : Task) (s : TaskSet) → (remember alive t s).groups ≡ s.groups
unfolding schedule_new
remember-groups alive t s = ground arith

next_task-Indexed : (s : TaskSet) → Indexed 0 s.groups → Indexed 0 (next_task s).1.groups
next_task-Indexed s v = elim (next_task_lem s) [
  | inl (e, p) ↦ rw p v
  | inr (c, h) ↦ rw h.result (
      Indexed-set 0 s.groups c.index c.key c.rest h.chosen.at_index (ap (λ g. g.id) h.chosen.kept)
        v)
]

-- The three things that become of a task that is scheduled.
pub data Accepts (c : Scheduled) (t : Task) (s : TaskSet) : Type 0 where
  refused :
      (s.accepting ≡ false) ⊎ (group_index t.scheduling_group_id s ≡ none)
      → c.value ≡ err closed
      → c.after ≡ s
      → c.clears_queued ≡ true
      → Accepts c t s
  enqueued :
      s.accepting ≡ true
      → group_index t.scheduling_group_id s ≡ some t.scheduling_group_id
      → c.value ≡ ok tt
      → c.after.groups ≡ push_task t.scheduling_group_id t s.groups
      → c.after.accepting ≡ true
      → c.clears_queued ≡ false
      → Accepts c t s

pub schedule_new-Accepts :
    (alive : Task → Bool) (t : Task) (s : TaskSet) → Accepts (schedule_new alive t s) t s
unfolding schedule_new
schedule_new-Accepts alive t s = elim (Bool-cases (s.accepting)) [
  | inl a ↦
      elim (Bool-cases (has_id t.scheduling_group_id (get_elem? s.groups t.scheduling_group_id))) [
        | inl h ↦
            enqueued a (ground arith) (ground arith) (ground arith) (ground arith) (ground arith)
        | inr h ↦ refused (inr (ground arith)) (ground arith) (ground arith) (ground arith)
      ]
  | inr a ↦ refused (inl a) (ground arith) (ground arith) (ground arith)
]

pub schedule_existing-Accepts : (t : Task) (s : TaskSet) → Accepts (schedule_existing t s) t s
unfolding schedule_existing
schedule_existing-Accepts t s = elim (Bool-cases (s.accepting)) [
  | inl a ↦
      elim (Bool-cases (has_id t.scheduling_group_id (get_elem? s.groups t.scheduling_group_id))) [
        | inl h ↦
            enqueued a (ground arith) (ground arith) (ground arith) (ground arith) (ground arith)
        | inr h ↦ refused (inr (ground arith)) (ground arith) (ground arith) (ground arith)
      ]
  | inr a ↦ refused (inl a) (ground arith) (ground arith) (ground arith)
]

Accepts-Indexed :
    (c : Scheduled) (t : Task) (s : TaskSet)
    → Accepts c t s
    → Indexed 0 s.groups
    → Indexed 0 c.after.groups
Accepts-Indexed c t s (refused w e a k) v = rw a v
Accepts-Indexed c t s (enqueued p g e a b k) v =
    rw a (Indexed-push_task 0 s.groups t.scheduling_group_id t v)

record_task_poll-Indexed :
    (id d : ℕ) (s : TaskSet) → Indexed 0 s.groups → Indexed 0 (record_task_poll id d s).groups
unfolding record_task_poll
record_task_poll-Indexed id d s v = ground (arith, Indexed-update_group 0 s.groups id d v)

step-Indexed :
    (alive : Task → Bool) (o : Op) (s : TaskSet)
    → Indexed 0 s.groups
    → Indexed 0 (step alive o s).groups
unfolding step schedule_new schedule_existing create_scheduling_group add_spawner remove_spawner
    finish_task close record_task_poll
step-Indexed alive (creating_group name shares) s v = Indexed-append 0 s.groups _ (omega arith) v
step-Indexed alive adding_spawner s v = v
step-Indexed alive removing_spawner s v = v
step-Indexed alive taking s v = next_task-Indexed s v
step-Indexed alive closing s v = Indexed-empty_queues 0 s.groups v
step-Indexed alive finishing s v = v
step-Indexed alive (scheduling_new t) s v = Accepts-Indexed _ t s (schedule_new-Accepts alive t s) v
step-Indexed alive (scheduling_existing t) s v =
    Accepts-Indexed _ t s (schedule_existing-Accepts t s) v
step-Indexed alive (recording_poll id d) s v = record_task_poll-Indexed id d s v

pub run-Indexed :
    (alive : Task → Bool) (os : List Op) (s : TaskSet)
    → Indexed 0 s.groups
    → Indexed 0 (run alive os s).groups
unfolding run
run-Indexed alive [] s v = v
run-Indexed alive (o ∷ os) s v = run-Indexed alive os (step alive o s) (step-Indexed alive o s v)

abbrev Found : ℕ → ℕ → List Group → Type 0
Found n i gs = has_id (n + i) (get_elem? gs i) ≡ ltb i (length gs)

has_id-Indexed : (n i : ℕ) (gs : List Group) → Indexed n gs → Found n i gs
has_id-Indexed n i [] v = ground arith
has_id-Indexed n zero (g ∷ gs) v = ground arith
has_id-Indexed n (suc i) (g ∷ gs) v =
    rw (shift n i) (has_id-Indexed (suc n) i gs v.1 ∙ ltb-suc i (length gs))
  where
    shift : (n i : ℕ) → n + suc i ≡ suc n + i
    shift n i = omega arith

    ltb-suc : (a b : ℕ) → ltb a b ≡ ltb (suc a) (suc b)
    ltb-suc a b = ground arith

-- After every history of calls on a new task set, the identifiers below the number of groups name a
-- group, at that index, and no other identifier does.
group_index_of_run :
    (alive : Task → Bool) (os : List Op) (id : ℕ)
    → let s = run alive os new in
      group_index id s ≡ (if ltb id (length s.groups) then some id else none)
unfolding group_index new
group_index_of_run alive os id =
    let s = run alive os new in
    ap (λ b. if b then some id else none)
      (rw (zero_plus id) at (has_id-Indexed 0 id s.groups (run-Indexed alive os new (refl, tt))))
  where
    zero_plus : (n : ℕ) → 0 + n ≡ n
    zero_plus n = omega arith
