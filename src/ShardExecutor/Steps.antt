-- ===== src/ShardExecutor/Steps.antt =====
-- crates/sitas-core/src/shard_executor.rs: no event panics, and no wait of the reactor leaves a
-- task that is ready.
use sitas.Common.{
  ℕ, zero, suc, ◌≡◌, refl, sym, ap, ◌∙◌, false, Option, none, some, List, [], ◌++◌, append-nil,
}
use sitas.ShardExecutor.{
  Phase, idle, at_start, in_round, in_poll, after_round, waiting, serving, Executor, finish_poll,
  new,
}
use sitas.ShardExecutor.History.{
  Event, spawning, running, proceeding, polled, waited, waking_here, marking, releasing,
  registering, after_wait, release, step,
}
use sitas.ShardExecutor.Coherence.{queue-mark}
use sitas.ShardExecutor.Slots.{occupied}
use sitas.ShardExecutor.Validity.{
  announced_woken, IsValid, mark_ready-IsValid, mark-IsValid, spawn-IsValid, moved-IsValid,
  finish_poll-IsValid,
}
use sitas.ShardExecutor.Rounds.{kept, popped, Leads, queue-spawn, proceed-Leads}

module _ {F : Type 0} where
  waited-IsValid :
      (o : Option (List ℕ)) (s : Executor F)
      → IsValid (record s { phase = waiting })
      → IsValid (record s { phase = after_wait o; woken = false })
  waited-IsValid none s v = record {
    coherent = v.coherent;
    sized = v.sized;
    counted = v.counted;
    vacant = tt;
    announced = tt;
  }
  waited-IsValid (some handles) s v = record {
    coherent = v.coherent;
    sized = v.sized;
    counted = v.counted;
    vacant = tt;
    announced = tt;
  }

  started-IsValid :
      (s : Executor F)
      → IsValid (record s { phase = idle })
      → IsValid (record s { phase = at_start })
  started-IsValid s v = moved-IsValid idle at_start s refl tt tt v

  release-IsValid : (n : ℕ) (s : Executor F) → IsValid s → IsValid (release n s)
  unfolding release
  release-IsValid zero s v = v
  release-IsValid (suc n) s v = record {
    coherent = v.coherent;
    sized = v.sized;
    counted = v.counted;
    vacant = v.vacant;
    announced = announced_woken s.phase s.ready.queue n;
  }

  queue-release :
      (n : ℕ) (s : Executor F)
      → (added : List ℕ) × (s.ready.queue ++ added ≡ (release n s).ready.queue)
  unfolding release
  queue-release zero s = kept s.ready.queue
  queue-release (suc n) s = kept s.ready.queue

  finish_poll-Leads :
      (count task : ℕ) (f : F) (o : Option F) (s : Executor F)
      → IsValid (record s { phase = in_poll count task f })
      → Leads s.ready.queue []
          (finish_poll count task o (record s { phase = in_poll count task f }))
  finish_poll-Leads count task f o s v =
      let (s', e, w, q) = finish_poll-IsValid count task f o s v in
      (s', e, w, ([], append-nil s.ready.queue ∙ ap (λ r. r.queue) (sym q)))

  pub step-IsValid :
      (e : Event F) (p : Phase F) (s : Executor F)
      → IsValid (record s { phase = p })
      → Leads s.ready.queue (popped e p s) (step e p (record s { phase = p }))
  unfolding step
  step-IsValid (spawning f) idle s v =
      (_, refl, spawn-IsValid f s v, queue-spawn f (record s { phase = idle }))
  step-IsValid (spawning f) at_start s v = (_, refl, v, kept s.ready.queue)
  step-IsValid (spawning f) (in_round count) s v = (_, refl, v, kept s.ready.queue)
  step-IsValid (spawning f) (in_poll count task g) s v = (_, refl, v, kept s.ready.queue)
  step-IsValid (spawning f) after_round s v = (_, refl, v, kept s.ready.queue)
  step-IsValid (spawning f) waiting s v = (_, refl, v, kept s.ready.queue)
  step-IsValid (spawning f) (serving handles) s v = (_, refl, v, kept s.ready.queue)
  step-IsValid running idle s v = (_, refl, started-IsValid s v, kept s.ready.queue)
  step-IsValid running at_start s v = (_, refl, v, kept s.ready.queue)
  step-IsValid running (in_round count) s v = (_, refl, v, kept s.ready.queue)
  step-IsValid running (in_poll count task g) s v = (_, refl, v, kept s.ready.queue)
  step-IsValid running after_round s v = (_, refl, v, kept s.ready.queue)
  step-IsValid running waiting s v = (_, refl, v, kept s.ready.queue)
  step-IsValid running (serving handles) s v = (_, refl, v, kept s.ready.queue)
  step-IsValid proceeding p s v = proceed-Leads p s v
  step-IsValid (polled o) idle s v = (_, refl, v, kept s.ready.queue)
  step-IsValid (polled o) at_start s v = (_, refl, v, kept s.ready.queue)
  step-IsValid (polled o) (in_round count) s v = (_, refl, v, kept s.ready.queue)
  step-IsValid (polled o) (in_poll count task g) s v = finish_poll-Leads count task g o s v
  step-IsValid (polled o) after_round s v = (_, refl, v, kept s.ready.queue)
  step-IsValid (polled o) waiting s v = (_, refl, v, kept s.ready.queue)
  step-IsValid (polled o) (serving handles) s v = (_, refl, v, kept s.ready.queue)
  step-IsValid (waited o) idle s v = (_, refl, v, kept s.ready.queue)
  step-IsValid (waited o) at_start s v = (_, refl, v, kept s.ready.queue)
  step-IsValid (waited o) (in_round count) s v = (_, refl, v, kept s.ready.queue)
  step-IsValid (waited o) (in_poll count task g) s v = (_, refl, v, kept s.ready.queue)
  step-IsValid (waited o) after_round s v = (_, refl, v, kept s.ready.queue)
  step-IsValid (waited o) waiting s v = (_, refl, waited-IsValid o s v, kept s.ready.queue)
  step-IsValid (waited o) (serving handles) s v = (_, refl, v, kept s.ready.queue)
  step-IsValid (waking_here task) p s v =
      (_, refl, mark_ready-IsValid task (record s { phase = p }) v, queue-mark task s.ready)
  step-IsValid (marking task) p s v =
      (_, refl, mark-IsValid task (record s { phase = p }) v, queue-mark task s.ready)
  step-IsValid releasing p s v = (
    _,
    refl,
    release-IsValid s.waking (record s { phase = p }) v,
    queue-release s.waking (record s { phase = p }),
  )
  step-IsValid (registering handle waker) p s v = (
    _,
    refl,
    record {
      coherent = v.coherent;
      sized = v.sized;
      counted = v.counted;
      vacant = v.vacant;
      announced = v.announced;
    },
    kept s.ready.queue,
  )

  pub new-IsValid : (poll_budget : ℕ) → IsValid (new {F = F} poll_budget)
  unfolding new occupied
  new-IsValid poll_budget = record {
    coherent = record {
      flagged = λ t h. absurd (cc h);
      listed = λ t h. absurd (cc h);
      distinct = tt;
    };
    sized = refl;
    counted = refl;
    vacant = tt;
    announced = tt;
  }
