-- ===== src/Executor/Timer.antt =====
-- executor/timer.rs: the executor's timers, a flat list in the order of registration. Instants and
-- durations are numbers.
pub mod Deadlines
mod Tests
use sitas.Common.{
  ℕ, ◌-◌, Bool, true, Option, none, some, List, [], ◌∷◌, ◌++◌, map, Waker, Wakes, length, retain,
  not, min, ltb, leb, ◌==◌, if◌then◌else◌, add_word,
}

pub record Timer : Type 0 where
  pub id : ℕ
  pub deadline : ℕ
  pub waker : Waker

pub record TimerSet : Type 0 where
  pub timers : List Timer
  pub next_id : ℕ

pub new : TimerSet
new = record { timers = []; next_id = 0 }

pub clear : TimerSet → TimerSet
clear t = record t { timers = [] }

pub allocate_id : TimerSet → ℕ × TimerSet
allocate_id t = (t.next_id, record t { next_id = add_word t.next_id 1 })

pub len : TimerSet → ℕ
len t = length t.timers

-- `Iterator::min` over the deadlines.
earliest : List Timer → Option ℕ
earliest [] = none
earliest (t ∷ ts) = elim (earliest ts) [ none ↦ some t.deadline | some d ↦ some (min t.deadline d) ]

pub next_deadline : TimerSet → Option ℕ
unfolding earliest
next_deadline t = earliest t.timers

-- Overwrite the first entry with this identifier, or add one at the end.
put : ℕ → ℕ → Waker → List Timer → List Timer
put id deadline waker [] = record { id = id; deadline = deadline; waker = waker } ∷ []
put id deadline waker (t ∷ ts) =
    let rest = put id deadline waker ts in
    if t.id == id then record t { deadline = deadline; waker = waker } ∷ ts else t ∷ rest

abbrev none_or_after : ℕ → Option ℕ → Bool
none_or_after deadline none = true
none_or_after deadline (some previous) = ltb deadline previous

pub register : ℕ → ℕ → Waker → TimerSet → Bool × TimerSet
unfolding put next_deadline
register id deadline waker t =
    (none_or_after deadline (next_deadline t), record t { timers = put id deadline waker t.timers })

pub remove : ℕ → TimerSet → TimerSet
remove id t = record t { timers = retain (λ e. not (e.id == id)) t.timers }

-- The loop of `expired`: the wakers that are due, and the timers that stay, both in order.
split_due : ℕ → List Timer → Wakes × List Timer
split_due now [] = ([], [])
split_due now (t ∷ ts) =
    let (due, pending) = split_due now ts in
    if leb t.deadline now then (t.waker ∷ due, pending) else (due, t ∷ pending)

pub expired : ℕ → TimerSet → Wakes × TimerSet
unfolding split_due
expired now t = let (due, pending) = split_due now t.timers in (due, record t { timers = pending })

-- `saturating_duration_since`
pub time_until_next : ℕ → TimerSet → Option ℕ
unfolding next_deadline
time_until_next now t = elim (next_deadline t) [ none ↦ none | some d ↦ some (d - now) ]
