-- ===== src/Executor/Backpressure/Permits.antt =====
-- The permits of executor/backpressure.rs are counted, and never exceed the capacity.
use sitas.Common.{◌<◌, ◌≤◌, ◌≡◌, List, [], ◌∷◌, arith, word}
use sitas.Executor.Backpressure.{
  Op, trying, polling, dropping_permit, dropping_acquire, World, try_acquire, poll_acquire,
  drop_permit, drop_acquire, step, run,
}

pub record IsValid (s : World) : Type 0 where
  pub counted : s.guard.in_flight ≡ s.held
  pub limited : s.held ≤ s.guard.capacity
  pub small : s.guard.capacity < word

step-IsValid : (o : Op) (s : World) → IsValid s → IsValid (step o s)
unfolding step try_acquire poll_acquire drop_permit drop_acquire
step-IsValid trying s v = ground arith
step-IsValid (polling a w) s v = ground arith
step-IsValid dropping_permit s v = ground arith
step-IsValid (dropping_acquire a) s v = ground arith

-- Take a guard whose `in_flight` is the number of permits held, at most its capacity, below 2^64.
-- The same holds after every sequence of calls.
pub permits_counted : (os : List Op) (s : World) → IsValid s → IsValid (run os s)
unfolding run
permits_counted [] s v = v
permits_counted (o ∷ os) s v = permits_counted os (step o s) (step-IsValid o s v)
