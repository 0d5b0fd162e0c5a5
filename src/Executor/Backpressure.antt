-- ===== src/Executor/Backpressure.antt =====
-- executor/backpressure.rs: a counting semaphore for spawned tasks. `try_acquire`, and the loop of
-- `AcquirePermit::poll`, retry a compare-exchange until it succeeds or the limit is reached: here
-- the round that ends the loop, which reads and writes `in_flight` at once. A poll that must wait
-- reads `in_flight` and registers its waker in two steps: `poll_acquire` is the two with no call
-- between.
pub mod Permits
pub mod LostWake
mod Tests
use sitas.Common.{
  ℕ, ◌+◌, ◌-◌, ◌%◌, Bool, true, false, not, Option, none, some, List, [], ◌∷◌, ◌++◌, map, Poll,
  ready, pending, Waker, Wakes, retain, ltb, ◌==◌, if◌then◌else◌, add_word, word,
}

pub record Guard : Type 0 where
  pub capacity : ℕ
  pub in_flight : ℕ
  pub waiters : List (ℕ × Waker)
  pub next_wait_id : ℕ

-- `None` stands for the panic on a capacity of zero.
pub new : ℕ → Option Guard
new capacity =
    if ltb 0 capacity
    then some (record { capacity = capacity; in_flight = 0; waiters = []; next_wait_id = 0 })
    else none

-- `saturating_sub`
pub available : Guard → ℕ
available g = g.capacity - g.in_flight

take_permit : Guard → Guard
take_permit g = record g { in_flight = add_word g.in_flight 1 }

-- Whether a permit was handed out.
pub try_acquire : Guard → Bool × Guard
unfolding take_permit
try_acquire g = if ltb g.in_flight g.capacity then (true, take_permit g) else (false, g)

-- The future of `acquire`.
pub record AcquirePermit : Type 0 where
  pub registered : Bool
  pub wait_id : ℕ

pub acquire : Guard → AcquirePermit × Guard
acquire g = (
  record { registered = false; wait_id = g.next_wait_id },
  record g { next_wait_id = add_word g.next_wait_id 1 },
)

pub record Polled : Type 0 where
  pub value : Poll (Unit {0})
  pub future : AcquirePermit
  pub after : Guard

-- A future registers its waker at most once.
register : AcquirePermit → Waker → Guard → Polled
register a w g =
    if a.registered then record { value = pending; future = a; after = g } else record {
      value = pending;
      future = record a { registered = true };
      after = record g { waiters = g.waiters ++ (a.wait_id, w) ∷ [] };
    }

pub poll_acquire : AcquirePermit → Waker → Guard → Polled
unfolding register take_permit
poll_acquire a w g =
    if ltb g.in_flight g.capacity
    then record { value = ready tt; future = a; after = take_permit g }
    else register a w g

-- Dropping a permit: `fetch_sub` wraps, and every waiter is taken off the list and woken.
pub drop_permit : Guard → Wakes × Guard
drop_permit g = (
  map (λ p. p.1) g.waiters,
  record g { in_flight = (g.in_flight + word - 1) % word; waiters = [] },
)

pub drop_acquire : AcquirePermit → Guard → Guard
drop_acquire a g =
    if a.registered
    then record g { waiters = retain (λ p. not (p.0 == a.wait_id)) g.waiters }
    else g

-- The calls on a guard, with what each is called on; `dropping_permit` ends a permit that is held.
pub data Op : Type 0 where
  trying : Op
  polling : AcquirePermit → Waker → Op
  dropping_permit : Op
  dropping_acquire : AcquirePermit → Op

abbrev granted : Bool → ℕ
granted b = if b then 1 else 0

abbrev is_ready : Poll (Unit {0}) → Bool
is_ready (ready u) = true
is_ready pending = false

-- The guard and the number of permits that callers hold.
pub record World : Type 0 where
  pub guard : Guard
  pub held : ℕ

pub step : Op → World → World
step trying s = let (b, g) = try_acquire s.guard in record { guard = g; held = s.held + granted b }
step (polling a w) s =
    let p = poll_acquire a w s.guard in
    record { guard = p.after; held = s.held + granted (is_ready p.value) }
step dropping_permit s =
    if s.held == 0 then s else record { guard = (drop_permit s.guard).1; held = s.held - 1 }
step (dropping_acquire a) s = record s { guard = drop_acquire a s.guard }

pub run : List Op → World → World
run [] s = s
run (o ∷ os) s = run os (step o s)
