-- ===== src/ShardExecutor/History.antt =====
-- crates/sitas-core/src/shard_executor.rs: what happens at an executor, in any order: the accesses
-- of its loop, and the wakes and registrations from anywhere. An event that cannot come where the
-- loop stands changes nothing.
use sitas.Common.{
  ℕ, zero, suc, ◌+◌, true, false, Option, none, some, List, [], ◌∷◌, Result, ok, err, Waker,
}
use sitas.ShardExecutor.{
  Panic, Phase, idle, at_start, in_poll, waiting, serving, Executor, mark, mark_ready, spawn,
  register_readable, finish_poll, proceed,
}

pub data Event (F : Type 0) : Type 0 where
  -- The calls of `spawn` and of `run`.
  spawning : F → Event F
  running : Event F
  -- The next access of the loop.
  proceeding : Event F
  -- The poll returned: `none` is `Ready`.
  polled : Option F → Event F
  -- The wait of the reactor returned, with handles or with an error.
  waited : Option (List ℕ) → Event F
  -- A wake on the thread of the executor, as in a poll.
  waking_here : ℕ → Event F
  -- A wake on another thread: the access of the lock, and the wake of the reactor.
  marking : ℕ → Event F
  releasing : Event F
  registering : ℕ → Waker → Event F

module _ {F : Type 0} where
  abbrev pub after_wait : Option (List ℕ) → Phase F
  after_wait none = at_start
  after_wait (some handles) = serving handles

  -- One of so many threads that are about to wake the reactor does so.
  unfoldable pub release : ℕ → Executor F → Executor F
  release zero s = s
  release (suc n) s = record s { woken = true; waking = n }

  unfoldable pub step : Event F → Phase F → Executor F → Result (Executor F) Panic
  unfolding mark spawn mark_ready release finish_poll proceed register_readable
  step (spawning future) idle s = ok (spawn future s)
  step (spawning future) _ s = ok s
  step running idle s = ok (record s { phase = at_start })
  step running _ s = ok s
  step proceeding phase s = proceed phase s
  step (polled outcome) (in_poll count task future) s = finish_poll count task outcome s
  step (polled outcome) _ s = ok s
  step (waited readable) waiting s = ok (record s { phase = after_wait readable; woken = false })
  step (waited readable) _ s = ok s
  step (waking_here task) _ s = ok (mark_ready task s)
  step (marking task) _ s = ok (record s { ready = mark task s.ready; waking = s.waking + 1 })
  step releasing _ s = ok (release s.waking s)
  step (registering handle waker) _ s =
      ok (record s { interests = register_readable handle waker s.interests })

  unfoldable pub run : List (Event F) → Executor F → Result (Executor F) Panic
  unfolding step
  run [] s = ok s
  run (e ∷ es) s = elim (step e s.phase s) [ err p ↦ err p | ok s' ↦ run es s' ]
