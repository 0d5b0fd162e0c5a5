-- ===== src/Executor/Sync.antt =====
-- executor/sync.rs: the cooperative stop signal and the one-shot notification. The state behind
-- each mutex is a flag and the wakers of the tasks that wait.
pub mod Waiters
use sitas.Common.{
  Bool, true, false, List, [], ◌∷◌, ◌++◌, Poll, ready, pending, Waker, Wakes, any, ◌==◌,
  if◌then◌else◌,
}

pub record StopState : Type 0 where
  pub stopped : Bool
  pub wakers : List Waker

-- The state that `stop_pair` shares between its two ends.
pub stop_pair : StopState
stop_pair = record { stopped = false; wakers = [] }

-- The result, the wakers invoked, and the state left.
pub stop : StopState → Bool × Wakes × StopState
stop s =
    if s.stopped then (false, [], s) else (true, s.wakers, record s { stopped = true; wakers = [] })

-- A waker that would wake the same task is not stored twice.
add_waker : Waker → List Waker → List Waker
add_waker w ws = if any (λ x. x == w) ws then ws else ws ++ w ∷ []

pub poll_stop : Waker → StopState → Poll (Unit {0}) × StopState
unfolding add_waker
poll_stop w s =
    if s.stopped then (ready tt, s) else (pending, record s { wakers = add_waker w s.wakers })

pub record NotifyState : Type 0 where
  pub notified : Bool
  pub wakers : List Waker

pub new_notify : NotifyState
new_notify = record { notified = false; wakers = [] }

pub notify_waiters : NotifyState → Bool × Wakes × NotifyState
notify_waiters s =
    if s.notified
    then (false, [], s)
    else (true, s.wakers, record s { notified = true; wakers = [] })

pub poll_notified : Waker → NotifyState → Poll (Unit {0}) × NotifyState
unfolding add_waker
poll_notified w s =
    if s.notified then (ready tt, s) else (pending, record s { wakers = add_waker w s.wakers })

-- Tasks poll one after the other.
pub poll_stops : List Waker → StopState → StopState
poll_stops [] s = s
poll_stops (w ∷ ws) s = poll_stops ws (poll_stop w s).1

pub poll_notifieds : List Waker → NotifyState → NotifyState
poll_notifieds [] s = s
poll_notifieds (w ∷ ws) s = poll_notifieds ws (poll_notified w s).1
