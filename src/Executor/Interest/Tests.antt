-- ===== src/Executor/Interest/Tests.antt =====
-- Runs and instances for executor/io_interest.rs.
use sitas.Common.{◌≡◌, refl, [], ◌∷◌}
use sitas.Executor.Interest.{InterestSet, wake_ready, take_ready}

abbrev two_on_ten : InterestSet
two_on_ten = record {
  interests =
      record { id = 0; fd = 10; waker = 5 }
      ∷ record { id = 1; fd = 11; waker = 6 }
      ∷ record { id = 2; fd = 10; waker = 7 }
      ∷ [];
  ready = 9 ∷ 8 ∷ 9 ∷ [];
  next_id = 3;
}

wakes_both : (wake_ready (10 ∷ []) two_on_ten).0 ≡ 5 ∷ 7 ∷ []
unfolding wake_ready
wakes_both = refl

swaps : (take_ready 9 two_on_ten).1.ready ≡ 9 ∷ 8 ∷ []
unfolding take_ready
swaps = refl
