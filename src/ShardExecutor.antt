-- ===== src/ShardExecutor.antt =====
-- crates/sitas-core/src/shard_executor.rs: the executor of one shard. `F` is the future of a task,
-- and a waker is known by its task, so that the vector of wakers is not stored. The reactor is
-- what the loop relies on: a wake is pending from the call of its waker until a wait returns, and
-- a wait with a pending wake returns. A `Panic` is an index out of bounds or a subtraction below
-- 0.

pub mod History
pub mod Coherence
pub mod Slots
pub mod Validity
pub mod Rounds
pub mod Steps
pub mod Loop
mod Tests
use sitas.Common.{
  ℕ, zero, suc, ◌+◌, ◌-◌, Bool, true, false, Option, none, some, List, [], ◌∷◌, ◌++◌, Result, ok,
  err, length, get_elem?, set, ltb, ◌==◌, is_empty, max, if◌then◌else◌, map, Waker,
}

pub data Panic : Type 0 where
  out_of_bounds underflow : Panic

pub record ReadyQueue : Type 0 where
  pub queue : List ℕ
  pub queued : List Bool

-- The access of the lock in `mark_ready`.
unfoldable pub mark : ℕ → ReadyQueue → ReadyQueue
mark task r = elim (get_elem? r.queued task) [
  | none ↦ r
  | some true ↦ r
  | some false ↦ record { queue = r.queue ++ task ∷ []; queued = set r.queued task true }
]

unfoldable pub take_ready : ReadyQueue → Result (Option (ℕ × ReadyQueue)) Panic
take_ready r = elim r.queue [
  | [] ↦ ok none
  | task ∷ rest ↦ elim (get_elem? r.queued task) [
    | none ↦ err out_of_bounds
    | some b ↦ ok (some (task, record { queue = rest; queued = set r.queued task false }))
  ]
]

-- `IoInterests`: handles with wakers.
abbrev pub Interests : Type 0
Interests = List (ℕ × Waker)

unfoldable pub register_readable : ℕ → Waker → Interests → Interests
register_readable handle waker [] = (handle, waker) ∷ []
register_readable handle waker (e ∷ rest) =
    let more = register_readable handle waker rest in
    if e.0 == handle then (handle, waker) ∷ rest else e ∷ more

unfoldable pub read_handles : Interests → List ℕ
read_handles interests = map (λ e. e.0) interests

-- The waker of a handle, and the interests without it, with the last one in its place.
unfoldable pub swap_remove : ℕ → Interests → Option (Waker × Interests)
swap_remove handle [] = none
swap_remove handle (e ∷ rest) =
    let later = swap_remove handle rest in
    if e.0 == handle
    then some (e.1, last_first rest)
    else elim later [ none ↦ none | some out ↦ some (out.0, e ∷ out.1) ]
  where
    last_first : Interests → Interests
    last_first [] = []
    last_first (e ∷ []) = e ∷ []
    last_first (e ∷ e' ∷ rest) = elim (last_first (e' ∷ rest)) [
      | [] ↦ []
      | l ∷ others ↦ l ∷ e ∷ others
    ]

-- Where the loop of `run` stands: not running; at the test of `live`; in the inner loop after so
-- many polls; in the poll of a task; after the inner loop; in the wait of the reactor; and with
-- handles to wake.
pub data Phase (F : Type 0) : Type 0 where
  idle at_start : Phase F
  in_round : ℕ → Phase F
  in_poll : ℕ → ℕ → F → Phase F
  after_round waiting : Phase F
  serving : List ℕ → Phase F

-- The executor, with the pending wake of its reactor, and the number of threads in `mark_ready`
-- between the lock and the wake of the reactor.
pub record Executor (F : Type 0) : Type 0 where
  pub ready : ReadyQueue
  pub tasks : List (Option F)
  pub interests : Interests
  pub live : ℕ
  pub poll_budget : ℕ
  pub phase : Phase F
  pub woken : Bool
  pub waking : ℕ

module _ {F : Type 0} where
  -- `new` with `with_poll_budget`.
  unfoldable pub new : ℕ → Executor F
  new poll_budget = record {
    ready = record { queue = []; queued = [] };
    tasks = [];
    interests = [];
    live = 0;
    poll_budget = max poll_budget 1;
    phase = idle;
    woken = false;
    waking = 0;
  }

  -- `mark_ready` on the thread of the executor.
  unfoldable pub mark_ready : ℕ → Executor F → Executor F
  unfolding mark
  mark_ready task s = record s { ready = mark task s.ready; woken = true }

  unfoldable pub spawn : F → Executor F → Executor F
  unfolding mark_ready
  spawn future s = mark_ready (length s.tasks) (record s {
    tasks = s.tasks ++ some future ∷ [];
    ready = record s.ready { queued = s.ready.queued ++ false ∷ [] };
    live = s.live + 1;
  })

  -- `poll_task` up to the poll, after so many polls before.
  unfoldable pub poll_task : ℕ → ℕ → Executor F → Executor F
  poll_task polled task s = elim (get_elem? s.tasks task) [
    | none ↦ record s { phase = in_round (polled + 1) }
    | some none ↦ record s { phase = in_round (polled + 1) }
    | some (some future) ↦ record s {
      tasks = set s.tasks task none;
      phase = in_poll polled task future;
    }
  ]

  -- The future returned: `none` is `Ready`.
  unfoldable pub finish_poll : ℕ → ℕ → Option F → Executor F → Result (Executor F) Panic
  finish_poll polled task (some future) s =
      ok (record s { tasks = set s.tasks task (some future); phase = in_round (polled + 1) })
  finish_poll polled task none s =
      if s.live == 0
      then err underflow
      else ok (record s { live = s.live - 1; phase = in_round (polled + 1) })

  unfoldable pub wake_readable : ℕ → Executor F → Executor F
  unfolding mark_ready
  wake_readable handle s = elim (swap_remove handle s.interests) [
    | none ↦ s
    | some out ↦ mark_ready out.0 (record s { interests = out.1 })
  ]

  abbrev pub poll_taken :
      ℕ → Executor F → Result (Option (ℕ × ReadyQueue)) Panic → Result (Executor F) Panic
  poll_taken polled s (err e) = err e
  poll_taken polled s (ok none) = ok (record s { phase = after_round })
  poll_taken polled s (ok (some out)) = ok (poll_task polled out.0 (record s { ready = out.1 }))

  -- The next access of the loop of `run`.
  unfoldable pub proceed : Phase F → Executor F → Result (Executor F) Panic
  unfolding take_ready poll_task wake_readable
  proceed idle s = ok s
  proceed at_start s =
      ok (if s.live == 0 then record s { phase = idle } else record s { phase = in_round 0 })
  proceed (in_round polled) s =
      if ltb polled s.poll_budget
      then poll_taken polled s (take_ready s.ready)
      else ok (record s { phase = after_round })
  proceed (in_poll polled task future) s = ok s
  proceed after_round s = ok (
      if s.live == 0
      then record s { phase = idle }
      else if is_empty s.ready.queue
      then record s { phase = waiting }
      else record s { phase = at_start })
  proceed waiting s = ok s
  proceed (serving []) s = ok (record s { phase = at_start })
  proceed (serving (handle ∷ handles)) s =
      ok (record (wake_readable handle s) { phase = serving handles })
