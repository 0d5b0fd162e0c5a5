-- ===== src/Executor/Backpressure/LostWake.antt =====
-- executor/backpressure.rs: a waiter that was woken and finds no permit is not registered anew, so
-- that the next drop of a permit does not wake it.
use sitas.Common.{◌<◌, ◌≡◌, true, [], ◌∷◌, ready, pending, Waker, arith, word}
use sitas.Executor.Backpressure.{Guard, AcquirePermit, poll_acquire, drop_permit}

-- Let two futures wait on a guard whose permits are all taken. The drop of a permit wakes both and
-- empties the list of waiters. If the second then gets the permit, the first waits again, but
-- since it was registered once it is not registered anew: the next drop of a permit wakes nobody.
pub forgets_waiter :
    (g : Guard) (a b : AcquirePermit) (v w : Waker)
    → a.registered ≡ true
    → g.waiters ≡ (a.wait_id, w) ∷ (b.wait_id, v) ∷ []
    → 0 < g.in_flight
    → g.in_flight ≡ g.capacity
    → g.capacity < word
    → let (wakes, g') = drop_permit g in
      let won = poll_acquire b v g' in
      let lost = poll_acquire a w won.after in
      (wakes ≡ w ∷ v ∷ [])
      × (won.value ≡ ready tt)
      × (lost.value ≡ pending)
      × ((drop_permit lost.after).0 ≡ [])
unfolding poll_acquire drop_permit
forgets_waiter g a b v w r l h f k = ground arith
