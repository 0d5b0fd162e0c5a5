-- ===== src/Executor/Groups.antt =====
-- executor/task_set.rs: the ready queues of the scheduling groups, chosen by weighted virtual
-- runtime, and the counts by which the executor knows that it has drained. A task is known by its
-- identifier and its group; whether a weak reference can still be upgraded is asked of `alive`.
pub mod Selection
pub mod History
pub mod Drain
pub mod Sorting
pub mod Turn
pub mod Fairness
mod Tests
use sitas.Common.{
  ℕ, zero, suc, ◌+◌, ◌-◌, ◌*◌, ◌/◌, ◌%◌, ◌^◌, max, Bool, true, false, ◌&&◌, ◌||◌, not, Option, none,
  some, List, [], ◌∷◌, ◌++◌, Result, ok, err, length, is_empty, get_elem?, set, retain, ltb, leb,
  ◌==◌, if◌then◌else◌, add_word,
}
use Prim.Native.String.{String}

pub record Task : Type 0 where
  pub id : ℕ
  pub scheduling_group_id : ℕ

pub record Group : Type 0 where
  pub id : ℕ
  pub name : String
  pub shares : ℕ
  pub virtual_runtime : ℕ
  pub total_polls : ℕ
  pub total_poll_time : ℕ
  pub queue : List Task

pub record TaskSet : Type 0 where
  pub groups : List Group
  pub tasks : List Task
  pub accepting : Bool
  pub spawner_count : ℕ
  pub task_count : ℕ
  pub next_task_id : ℕ

-- `SpawnError::Closed`
pub data SpawnError : Type 0 where
  closed : SpawnError

abbrev pub default_scheduling_group_id : ℕ
default_scheduling_group_id = 0

abbrev pub default_scheduling_group_shares : ℕ
default_scheduling_group_shares = 100

abbrev task_set_compaction_min : ℕ
task_set_compaction_min = 64

-- `u128` addition, which wraps.
abbrev pub add_u128 : ℕ → ℕ → ℕ
add_u128 a b = (a + b) % 2 ^ 128

new_group : ℕ → String → ℕ → ℕ → Group
new_group id name shares virtual_runtime = record {
  id = id;
  name = name;
  shares = shares;
  virtual_runtime = virtual_runtime;
  total_polls = 0;
  total_poll_time = 0;
  queue = [];
}

pub new : TaskSet
unfolding new_group
new = record {
  groups = new_group default_scheduling_group_id "default" default_scheduling_group_shares 0 ∷ [];
  tasks = [];
  accepting = true;
  spawner_count = 1;
  task_count = 0;
  next_task_id = 0;
}

pub allocate_task_id : TaskSet → ℕ × TaskSet
allocate_task_id s = (s.next_task_id, record s { next_task_id = add_word s.next_task_id 1 })

-- `Iterator::min`, and 0 where there is no group.
least_runtime : List Group → Option ℕ
least_runtime [] = none
least_runtime (g ∷ gs) = elim (least_runtime gs) [
  | none ↦ some g.virtual_runtime
  | some v ↦ some (if leb g.virtual_runtime v then g.virtual_runtime else v)
]

pub minimum_virtual_runtime : TaskSet → ℕ
unfolding least_runtime
minimum_virtual_runtime s = elim (least_runtime s.groups) [ none ↦ 0 | some v ↦ v ]

pub create_scheduling_group : String → ℕ → TaskSet → ℕ × TaskSet
unfolding new_group minimum_virtual_runtime
create_scheduling_group name shares s = (
  length s.groups,
  record s {
    groups = s.groups ++ new_group (length s.groups) name shares (minimum_virtual_runtime s) ∷ [];
  },
)

pub add_spawner : TaskSet → TaskSet
add_spawner s = record s { spawner_count = add_word s.spawner_count 1 }

-- `saturating_sub`
pub remove_spawner : TaskSet → Bool × TaskSet
remove_spawner s =
    let count = s.spawner_count - 1 in (count == 0, record s { spawner_count = count })

-- The group of this identifier, which stands at the index of its identifier.
abbrev has_id : ℕ → Option Group → Bool
has_id id none = false
has_id id (some g) = g.id == id

pub group_index : ℕ → TaskSet → Option ℕ
group_index id s = if has_id id (get_elem? s.groups id) then some id else none

-- `groups[i].queue.push_back(task)`
pub push_task : ℕ → Task → List Group → List Group
push_task i t [] = []
push_task zero t (g ∷ gs) = record g { queue = g.queue ++ t ∷ [] } ∷ gs
push_task (suc i) t (g ∷ gs) = g ∷ push_task i t gs

-- `alive` is `strong_count() > 0`; the list is compacted before the new task is put on it.
maybe_compact_tasks : (Task → Bool) → TaskSet → TaskSet
maybe_compact_tasks alive s =
    if leb task_set_compaction_min (length s.tasks) && ltb (s.task_count * 2) (length s.tasks)
    then record s { tasks = retain alive s.tasks }
    else s

-- What a call returns, the set it leaves, and whether it clears the task's `queued` flag.
pub record Scheduled : Type 0 where
  pub value : Result (Unit {0}) SpawnError
  pub after : TaskSet
  pub clears_queued : Bool

refuse : TaskSet → Scheduled
refuse s = record { value = err closed; after = s; clears_queued = true }

enqueue : ℕ → Task → TaskSet → Scheduled
unfolding push_task
enqueue i t s = record {
  value = ok tt;
  after = record s { groups = push_task i t s.groups };
  clears_queued = false;
}

remember : (Task → Bool) → Task → TaskSet → TaskSet
unfolding maybe_compact_tasks
remember alive t s =
    let s' = maybe_compact_tasks alive (record s { task_count = add_word s.task_count 1 }) in
    record s' { tasks = s'.tasks ++ t ∷ [] }

pub schedule_new : (Task → Bool) → Task → TaskSet → Scheduled
unfolding group_index refuse enqueue remember
schedule_new alive t s =
    if not s.accepting then refuse s else elim (group_index t.scheduling_group_id s) [
      | none ↦ refuse s
      | some i ↦ enqueue i t (remember alive t s)
    ]

pub schedule_existing : Task → TaskSet → Scheduled
unfolding group_index refuse enqueue
schedule_existing t s =
    if not s.accepting
    then refuse s
    else elim (group_index t.scheduling_group_id s) [ none ↦ refuse s | some i ↦ enqueue i t s ]

-- The key of `next_task`, compared as a pair.
abbrev pub key_le : Group → Group → Bool
key_le g h =
    ltb g.virtual_runtime h.virtual_runtime
    || (g.virtual_runtime == h.virtual_runtime && leb g.id h.id)

-- `min_by_key` over the groups with a task, which keeps the first of equal keys: the group's
-- position, the task at the front of its queue, and the group without it.
pub record Choice : Type 0 where
  pub index : ℕ
  pub task : Task
  pub rest : Group
  pub key : Group

offer : Group → List Task → Option Choice → Option Choice
offer g [] none = none
offer g [] (some c) = some (record c { index = suc c.index })
offer g (t ∷ q) none = some (record { index = 0; task = t; rest = record g { queue = q }; key = g })
offer g (t ∷ q) (some c) =
    if key_le g c.key
    then some (record { index = 0; task = t; rest = record g { queue = q }; key = g })
    else some (record c { index = suc c.index })

choose : List Group → Option Choice
unfolding offer
choose [] = none
choose (g ∷ gs) = offer g g.queue (choose gs)

pub next_task : TaskSet → Option Task × TaskSet
unfolding choose
next_task s = elim (choose s.groups) [
  | none ↦ (none, s)
  | some c ↦ (some c.task, record s { groups = set s.groups c.index c.rest })
]

-- What one poll of so many nanoseconds costs a group.
pub charge : ℕ → ℕ → ℕ
charge nanos shares = max nanos 1 * default_scheduling_group_shares / shares

charge_group : ℕ → Group → Group
unfolding charge
charge_group poll_duration g = record g {
  total_poll_time = g.total_poll_time + poll_duration;
  total_polls = add_word g.total_polls 1;
  virtual_runtime = add_u128 g.virtual_runtime (charge poll_duration g.shares);
}

update_group : ℕ → (Group → Group) → List Group → List Group
update_group i f [] = []
update_group zero f (g ∷ gs) = f g ∷ gs
update_group (suc i) f (g ∷ gs) = g ∷ update_group i f gs

-- A group's shares are positive, since `create_scheduling_group` of the spawner refuses zero
-- shares.
pub record_task_poll : ℕ → ℕ → TaskSet → TaskSet
unfolding group_index update_group charge_group
record_task_poll group_id poll_duration s = elim (group_index group_id s) [
  | none ↦ s
  | some i ↦ record s { groups = update_group i (charge_group poll_duration) s.groups }
]

queued_in : List Group → ℕ
queued_in [] = 0
queued_in (g ∷ gs) = length g.queue + queued_in gs

pub ready_queue_len : TaskSet → ℕ
unfolding queued_in
ready_queue_len s = queued_in s.groups

pub is_drained : TaskSet → Bool
unfolding ready_queue_len
is_drained s = ready_queue_len s == 0 && s.spawner_count == 0 && s.task_count == 0

pub has_ready_tasks : TaskSet → Bool
unfolding ready_queue_len
has_ready_tasks s = ltb 0 (ready_queue_len s)

empty_queues : List Group → List Group
empty_queues [] = []
empty_queues (g ∷ gs) = record g { queue = [] } ∷ empty_queues gs

pub close : (Task → Bool) → TaskSet → List Task × TaskSet
unfolding empty_queues
close alive s = (
  retain alive s.tasks,
  record s { accepting = false; task_count = 0; groups = empty_queues s.groups; tasks = [] },
)

-- `saturating_sub`
pub finish_task : TaskSet → Bool × TaskSet
unfolding is_drained
finish_task s = let s' = record s { task_count = s.task_count - 1 } in (is_drained s', s')
