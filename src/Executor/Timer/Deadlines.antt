-- ===== src/Executor/Timer/Deadlines.antt =====
-- The deadlines of the timers of executor/timer.rs.
use mathlib.Core.Path.{subst}
use native.Mathlib.Decide.{dec_le, dec_lt}
use sitas.Common.{
  ℕ, ◌+◌, ◌-◌, ◌<◌, ◌≤◌, ◌≡◌, ◌⊎◌, ◌↔◌, inl, inr, refl, true, Option, none, some, List, [], ◌∷◌,
  Waker, Wakes, arith, length, map, retain, not, All, leb, ◌==◌, if◌then◌else◌, min, ltb_of_lt,
  ltb→lt,
}
use sitas.Executor.Timer.{
  Timer, TimerSet, earliest, next_deadline, put, register, remove, split_due, expired,
  time_until_next, none_or_after,
}

-- Some timer has the deadline `d`.
abbrev pub Reached : ℕ → List Timer → Type 0
Reached d [] = ⊥
Reached d (t ∷ ts) = (t.deadline ≡ d) ⊎ Reached d ts

-- `d` is the least deadline.
abbrev pub IsEarliest : Option ℕ → List Timer → Type 0
IsEarliest none ts = ts ≡ []
IsEarliest (some d) ts = All (λ t. d ≤ t.deadline) ts × Reached d ts

abbrev pub wakers : List Timer → Wakes
wakers ts = map (λ t. t.waker) ts

split_due-retain :
    (now : ℕ) (ts : List Timer)
    → ((split_due now ts).0 ≡ wakers (retain (λ t. leb t.deadline now) ts))
      × ((split_due now ts).1 ≡ retain (λ t. not (leb t.deadline now)) ts)
unfolding split_due
split_due-retain now [] = (refl, refl)
split_due-retain now (t ∷ ts) = ground (arith, split_due-retain now ts)

pending_after : (now : ℕ) (ts : List Timer) → All (λ t. now < t.deadline) (split_due now ts).1
unfolding split_due
pending_after now [] = tt
pending_after now (t ∷ ts) = ground (arith, pending_after now ts)

count_split :
    (now : ℕ) (ts : List Timer)
    → length (split_due now ts).0 + length (split_due now ts).1 ≡ length ts
unfolding split_due
count_split now [] = refl
count_split now (t ∷ ts) = ground (arith, count_split now ts)

-- Has the timer with this identifier; the first one counts.
pub lookup : ℕ → List Timer → Option Timer
lookup id [] = none
lookup id (t ∷ ts) = if t.id == id then some t else lookup id ts

lookup-put :
    (id j deadline : ℕ) (w : Waker) (ts : List Timer)
    → lookup j (put id deadline w ts)
      ≡ (if id == j then some (record { id = id; deadline = deadline; waker = w }) else lookup j ts)
unfolding lookup put
lookup-put id j deadline w [] = ground arith
lookup-put id j deadline w (t ∷ ts) = ground (arith, lookup-put id j deadline w ts)

lookup-retain :
    (id j : ℕ) (ts : List Timer)
    → lookup j (retain (λ e. not (e.id == id)) ts) ≡ (if id == j then none else lookup j ts)
unfolding lookup
lookup-retain id j [] = ground arith
lookup-retain id j (t ∷ ts) = ground (arith, lookup-retain id j ts)

All-le-min :
    (d e : ℕ) (ts : List Timer)
    → e ≤ d
    → All (λ t. d ≤ t.deadline) ts
    → All (λ t. e ≤ t.deadline) ts
All-le-min d e [] h a = tt
All-le-min d e (t ∷ ts) h a = (omega arith, All-le-min d e ts h a.1)

Reached-min :
    (t : Timer) (d : ℕ) (ts : List Timer)
    → Reached d ts
    → (t.deadline ≡ min t.deadline d) ⊎ Reached (min t.deadline d) ts
Reached-min t d ts r = elim (dec_le t.deadline d) [
  | yes h ↦ inl (omega arith)
  | no h ↦ inr (subst (λ e. Reached e ts) (omega arith) r)
]

earliest_of :
    (o : Option ℕ) (t : Timer) (ts : List Timer)
    → earliest ts ≡ o
    → IsEarliest o ts
    → IsEarliest (earliest (t ∷ ts)) (t ∷ ts)
unfolding earliest
earliest_of none t ts e h = rw (e, earliest) ((omega arith, rw h tt), inl refl)
earliest_of (some d) t ts e h =
    rw (e, earliest)
      ((omega arith, All-le-min d (min t.deadline d) ts (omega arith) h.0), Reached-min t d ts h.1)

earliest-IsEarliest : (ts : List Timer) → IsEarliest (earliest ts) ts
unfolding earliest
earliest-IsEarliest [] = refl
earliest-IsEarliest (t ∷ ts) = earliest_of (earliest ts) t ts refl (earliest-IsEarliest ts)

All-lt :
    (e d : ℕ) (ts : List Timer)
    → e < d
    → All (λ t. d ≤ t.deadline) ts
    → All (λ t. e < t.deadline) ts
All-lt e d [] h a = tt
All-lt e d (t ∷ ts) h a = (omega arith, All-lt e d ts h a.1)

not-All-lt : (e d : ℕ) (ts : List Timer) → d ≤ e → Reached d ts → ¬ All (λ t. e < t.deadline) ts
not-All-lt e d [] h r a = r
not-All-lt e d (t ∷ ts) h (inl p) a = omega arith
not-All-lt e d (t ∷ ts) h (inr r) a = not-All-lt e d ts h r a.1

none_or_after_iff :
    (deadline : ℕ) (o : Option ℕ) (ts : List Timer)
    → IsEarliest o ts
    → (none_or_after deadline o ≡ true) ↔ All (λ t. deadline < t.deadline) ts
none_or_after_iff deadline none ts h = (λ _. rw h tt, λ _. refl)
none_or_after_iff deadline (some d) ts h = elim (dec_lt deadline d) [
  | yes p ↦ (λ _. All-lt deadline d ts p h.0, λ _. ltb_of_lt deadline d p)
  | no p ↦ (
    λ e. absurd (p (ltb→lt deadline d e)),
    λ a. absurd (not-All-lt deadline d ts (omega arith) h.1 a),
  )
]

-- `register` reports true exactly when the new deadline lies before every deadline that was
-- registered. Afterwards the identifier has the new deadline and waker, and every other identifier
-- what it had.
register_lem :
    (id deadline : ℕ) (w : Waker) (t : TimerSet)
    → ((register id deadline w t).0 ≡ true ↔ All (λ e. deadline < e.deadline) t.timers)
      × ((j : ℕ)
          → lookup j (register id deadline w t).1.timers ≡ (
              if id == j
              then some (record { id = id; deadline = deadline; waker = w })
              else lookup j t.timers))
unfolding register
register_lem id deadline w t = (
  none_or_after_iff deadline (earliest t.timers) t.timers (earliest-IsEarliest t.timers),
  λ j. lookup-put id j deadline w t.timers,
)

-- `remove` takes the first timer of the identifier away with all others of that identifier, and
-- touches no other; and `next_deadline` is the least deadline of what is left.
remove_lem :
    (id : ℕ) (t : TimerSet)
    → ((j : ℕ) → lookup j (remove id t).timers ≡ (if id == j then none else lookup j t.timers))
      × IsEarliest (next_deadline (remove id t)) (remove id t).timers
unfolding remove next_deadline
remove_lem id t = (λ j. lookup-retain id j t.timers, earliest-IsEarliest (remove id t).timers)

Reached-lt : (now d : ℕ) (ts : List Timer) → Reached d ts → All (λ t. now < t.deadline) ts → now < d
Reached-lt now d [] r a = absurd r
Reached-lt now d (t ∷ ts) (inl e) a = omega arith
Reached-lt now d (t ∷ ts) (inr r) a = Reached-lt now d ts r a.1

positive_wait :
    (now : ℕ) (o : Option ℕ) (ts : List Timer)
    → IsEarliest o ts
    → All (λ t. now < t.deadline) ts
    → (n : ℕ) → ◌≡◌ {A = Option ℕ} (elim o [ none ↦ none | some d ↦ some (d - now) ]) (some n)
    → 0 < n
positive_wait now none ts h a n e = cc
positive_wait now (some d) ts h a n e = ground (arith, Reached-lt now d ts h.1 a)

-- At time `now`, `expired` wakes exactly the timers whose deadline is at most `now`, in the order
-- of registration, and keeps exactly the others, in that order.
expired_lem :
    (now : ℕ) (t : TimerSet)
    → ((expired now t).0 ≡ wakers (retain (λ e. leb e.deadline now) t.timers))
      × ((expired now t).1.timers ≡ retain (λ e. not (leb e.deadline now)) t.timers)
unfolding expired
expired_lem now t = split_due-retain now t.timers

-- If `expired` at time `now` leaves a next deadline, the time from `now` until it is positive.
expired-time_until_next :
    (now : ℕ) (t : TimerSet) (n : ℕ) → time_until_next now (expired now t).1 ≡ some n → 0 < n
unfolding expired time_until_next
expired-time_until_next now t n e =
    positive_wait now (earliest (split_due now t.timers).1) (split_due now t.timers).1
      (earliest-IsEarliest (split_due now t.timers).1) (pending_after now t.timers) n e
