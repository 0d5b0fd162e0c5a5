-- ===== src/Executor/Timer/Tests.antt =====
-- Runs and instances for executor/timer.rs.
use sitas.Common.{◌≡◌, refl, false, some, [], ◌∷◌}
use sitas.Executor.Timer.{TimerSet, register, expired, time_until_next, next_deadline}

abbrev three : TimerSet
three = record {
  timers =
      record { id = 0; deadline = 20; waker = 7 }
      ∷ record { id = 1; deadline = 30; waker = 8 }
      ∷ record { id = 2; deadline = 10; waker = 9 }
      ∷ [];
  next_id = 3;
}

register_moves :
    ((register 2 40 9 three).0 ≡ false) × (next_deadline (register 2 40 9 three).1 ≡ some 20)
unfolding register next_deadline
register_moves = (refl, refl)

expired_at_20 :
    ((expired 20 three).0 ≡ 7 ∷ 9 ∷ []) × (time_until_next 20 (expired 20 three).1 ≡ some 10)
unfolding expired time_until_next
expired_at_20 = (refl, refl)

time_left : time_until_next 20 (expired 20 three).1 ≡ some 10
unfolding expired time_until_next
time_left = refl
