-- ===== src/Executor/Sync/Waiters.antt =====
-- Who is woken by the signals of executor/sync.rs.
use sitas.Common.{
  ap, ℕ, contains, Distinct, contains-append, Distinct-append, contains-subst, ◌≡◌, ◌∙◌, refl, true,
  false, ◌||◌, List, [], ◌∷◌, ready, Waker, arith, ◌==◌,
}
use sitas.Executor.Sync.{
  StopState, stop, poll_stop, poll_stops, NotifyState, notify_waiters, poll_notified,
  poll_notifieds, add_waker,
}

add_waker_lem : (w n : ℕ) (ws : List ℕ) → contains n (add_waker w ws) ≡ (contains n ws || (w == n))
unfolding add_waker
add_waker_lem w n ws = ground (arith, contains-append n ws (w ∷ []), contains-subst w n ws)

add_waker-Distinct : (w : ℕ) (ws : List ℕ) → Distinct ws → Distinct (add_waker w ws)
unfolding add_waker
add_waker-Distinct w ws d = ground (arith, Distinct-append w ws)

-- What a list of polls leaves behind before the signal.
record Collected (before : List ℕ) (ws : List ℕ) (after : List ℕ) : Type 0 where
  distinct : Distinct after
  exact : (n : ℕ) → contains n after ≡ (contains n before || contains n ws)

collect-cons :
    (w : ℕ) (ws before after : List ℕ)
    → Collected (add_waker w before) ws after
    → Collected before (w ∷ ws) after
collect-cons w ws before after c = record {
  distinct = c.distinct;
  exact = λ n. ground (arith, c.exact n, add_waker_lem w n before);
}

poll_stops-Collected :
    (ws : List ℕ) (s : StopState)
    → s.stopped ≡ false
    → Distinct s.wakers
    → Collected s.wakers ws (poll_stops ws s).wakers × ((poll_stops ws s).stopped ≡ false)
unfolding poll_stops poll_stop
poll_stops-Collected [] s h d = (record { distinct = d; exact = λ n. ground arith }, h)
poll_stops-Collected (w ∷ ws) s h d = rw h (
    let r =
      poll_stops-Collected ws (record s { stopped = false; wakers = add_waker w s.wakers }) refl
        (add_waker-Distinct w s.wakers d) in
    (collect-cons w ws s.wakers _ r.0, r.1))

-- Let tasks poll a signal that is not stopped. The next `stop` answers true and wakes each of them
-- and each task that already waited, exactly once, and nobody else. A second `stop` answers false,
-- wakes nobody and changes nothing; and every later poll is ready.
stop_wakes_waiters :
    (ws : List Waker) (s : StopState)
    → s.stopped ≡ false
    → Distinct s.wakers
    → let (first, woken, s') = stop (poll_stops ws s) in
      (first ≡ true)
      × Distinct woken
      × ((n : ℕ) → contains n woken ≡ (contains n s.wakers || contains n ws))
      × (stop s' ≡ (false, [], s'))
      × ((n : Waker) → (poll_stop n s').0 ≡ ready tt)
unfolding stop poll_stop
stop_wakes_waiters ws s h d =
    let r = poll_stops-Collected ws s h d in rw r.1 (refl, r.0.distinct, r.0.exact, refl, λ n. refl)

as_stop : NotifyState → StopState
as_stop s = record { stopped = s.notified; wakers = s.wakers }

poll_notified-as_stop :
    (w : Waker) (s : NotifyState) → as_stop (poll_notified w s).1 ≡ (poll_stop w (as_stop s)).1
unfolding as_stop poll_notified poll_stop
poll_notified-as_stop w s = ground arith

poll_notifieds-as_stop :
    (ws : List Waker) (s : NotifyState) → as_stop (poll_notifieds ws s) ≡ poll_stops ws (as_stop s)
unfolding poll_notifieds poll_stops
poll_notifieds-as_stop [] s = refl
poll_notifieds-as_stop (w ∷ ws) s =
    poll_notifieds-as_stop ws (poll_notified w s).1 ∙ ap (poll_stops ws) (poll_notified-as_stop w s)

-- Let tasks poll an event that is not notified. The next `notify_waiters` answers true and
-- wakes each of them and each task that already waited, exactly once, and nobody else. A second one
-- answers false, wakes nobody and changes nothing; and every later poll is ready.
notify_wakes_waiters :
    (ws : List Waker) (s : NotifyState)
    → s.notified ≡ false
    → Distinct s.wakers
    → let (first, woken, s') = notify_waiters (poll_notifieds ws s) in
      (first ≡ true)
      × Distinct woken
      × ((n : ℕ) → contains n woken ≡ (contains n s.wakers || contains n ws))
      × (notify_waiters s' ≡ (false, [], s'))
      × ((n : Waker) → (poll_notified n s').0 ≡ ready tt)
unfolding notify_waiters poll_notified as_stop
notify_wakes_waiters ws s h d =
    let r = poll_stops-Collected ws (as_stop s) h d in
    let e = poll_notifieds-as_stop ws s in
    let o : (poll_notifieds ws s).notified ≡ false = ap (λ t. t.stopped) e ∙ r.1 in
    let q : (poll_notifieds ws s).wakers ≡ (poll_stops ws (as_stop s)).wakers =
      ap (λ t. t.wakers) e in
    rw (o, q) (refl, r.0.distinct, r.0.exact, refl, λ n. refl)
