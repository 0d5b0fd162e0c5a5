-- ===== src/Executor/Backpressure/Tests.antt =====
-- Instances for executor/backpressure.rs.
use sitas.Common.{◌≡◌, refl, true, List, [], ◌∷◌, ready, pending, arith}
use sitas.Executor.Backpressure.{
  Guard, AcquirePermit, Op, trying, polling, dropping_permit, dropping_acquire, World, poll_acquire,
  drop_permit, run,
}
use sitas.Executor.Backpressure.Permits.{IsValid, permits_counted}
use sitas.Executor.Backpressure.LostWake.{forgets_waiter}

abbrev first : AcquirePermit
first = record { registered = true; wait_id = 0 }

abbrev second : AcquirePermit
second = record { registered = true; wait_id = 1 }

abbrev busy : Guard
busy = record { capacity = 1; in_flight = 1; waiters = (0, 20) ∷ (1, 21) ∷ []; next_wait_id = 2 }

abbrev world : World
world = record { guard = busy; held = 1 }

abbrev script : List Op
script =
    trying ∷ dropping_permit ∷ polling second 21 ∷ polling first 20 ∷ dropping_acquire first ∷ []

world-IsValid : IsValid world
world-IsValid = omega arith

permits_counted_example : IsValid (run script world)
permits_counted_example = permits_counted script world world-IsValid

forgets_waiter_example :
    let (wakes, g') = drop_permit busy in
    let won = poll_acquire second 21 g' in
    let lost = poll_acquire first 20 won.after in
    (wakes ≡ 20 ∷ 21 ∷ [])
    × (won.value ≡ ready tt)
    × (lost.value ≡ pending)
    × ((drop_permit lost.after).0 ≡ [])
forgets_waiter_example =
    forgets_waiter busy first second 21 20 refl refl (omega arith) refl (omega arith)
