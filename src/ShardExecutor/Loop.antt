-- ===== src/ShardExecutor/Loop.antt =====
-- crates/sitas-core/src/shard_executor.rs: what the loop promises, through every history of a new
-- executor.
use mathlib.Core.Path.{subst}
use sitas.Common.{
  ℕ, ◌+◌, ◌<◌, ◌≡◌, refl, sym, ap, ◌∙◌, inl, inr, ◌⊎◌, true, false, List, [], ◌∷◌, ◌++◌, Result, ok,
  err, length, arith, is_empty, contains, Distinct, append-nil, append_assoc, contains-append,
  get_elem?-lt,
}
use sitas.ShardExecutor.{Panic, waiting, Executor, mark, new}
use sitas.ShardExecutor.History.{Event, marking, step, run}
use sitas.ShardExecutor.Coherence.{contains-mark}
use sitas.ShardExecutor.Slots.{occupied}
use sitas.ShardExecutor.Validity.{held, IsValid, Announced, mark-IsValid}
use sitas.ShardExecutor.Rounds.{popped, Leads}
use sitas.ShardExecutor.Steps.{step-IsValid, new-IsValid}

joined_order :
    (q added added' p t k u : List ℕ)
    → q ++ added ≡ p ++ t
    → t ++ added' ≡ k ++ u
    → q ++ (added ++ added') ≡ (p ++ k) ++ u
joined_order q added added' p t k u e e' =
    sym (append_assoc q added added')
    ∙ ap (λ l. l ++ added') e
    ∙ append_assoc p t added'
    ∙ ap (λ l. p ++ l) e'
    ∙ sym (append_assoc p k u)

module _ {F : Type 0} where
  -- The tasks that the loop takes from the queue, in order.
  unfoldable pub taken : List (Event F) → Executor F → List ℕ
  unfolding step
  taken [] s = []
  taken (e ∷ es) s =
      popped e s.phase s ++ (elim (step e s.phase s) [ err p ↦ [] | ok t ↦ taken es t ])

  run-Leads :
      (es : List (Event F)) (s : Executor F)
      → IsValid s
      → Leads s.ready.queue (taken es s) (run es s)
  unfolding run taken
  run-Leads [] s v = (s, refl, v, ([], append-nil s.ready.queue))
  run-Leads (e ∷ es) s v =
      let (t, q, w, (added, o)) = step-IsValid e s.phase s v in
      let (u, q', w', (added', o')) = run-Leads es t w in
      rw q (
        u,
        rw (q, run) q',
        w',
        (
          added ++ added',
          joined_order s.ready.queue added added' (popped e s.phase s) t.ready.queue (taken es t)
              u.ready.queue o o',
        ),
      )

  reached : (a b : Executor F) (r : Result (Executor F) Panic) → r ≡ ok a → r ≡ ok b → a ≡ b
  reached a b r p q = cc

  reached-IsValid :
      (poll_budget : ℕ) (es : List (Event F)) (s : Executor F)
      → run es (new poll_budget) ≡ ok s
      → IsValid s
  reached-IsValid poll_budget es s r =
      let (t, q, w, o) = run-Leads es (new poll_budget) (new-IsValid poll_budget) in
      subst IsValid (reached t s (run es (new poll_budget)) q r) w

  -- No history of a new executor panics. At its end each task is in the queue at most once, and is
  -- one that was spawned; and the number of live tasks is that of the tasks whose future is there,
  -- with the one that is being polled.
  pub no_panic :
      (poll_budget : ℕ) (es : List (Event F))
      → (s : Executor F) × (run es (new poll_budget) ≡ ok s)
        × Distinct s.ready.queue
        × ((t : ℕ) → contains t s.ready.queue ≡ true → t < length s.tasks)
        × (s.live ≡ occupied s.tasks + held s.phase)
  no_panic poll_budget es =
      let (s, q, v, o) = run-Leads es (new poll_budget) (new-IsValid poll_budget) in
      (
        s,
        q,
        v.coherent.distinct,
        λ t h. omega (arith, get_elem?-lt s.ready.queued t true (v.coherent.listed t h), v.sized),
        v.counted,
      )

  -- Take any history of a new executor after which the loop is in the wait of the reactor, while a
  -- task is in the queue. Then the wake of the reactor is pending, or some thread that marked a
  -- task is about to wake it.
  pub wait_sees_ready :
      (poll_budget : ℕ) (es : List (Event F)) (s : Executor F)
      → run es (new poll_budget) ≡ ok s
      → s.phase ≡ waiting
      → is_empty s.ready.queue ≡ false
      → (s.woken ≡ true) ⊎ (0 < s.waking)
  wait_sees_ready poll_budget es s r p h =
      let v = reached-IsValid poll_budget es s r in
      elim (subst (λ q. Announced q s.ready.queue s.woken s.waking) p v.announced) [
        | inl e ↦ absurd (cc (e, h))
        | inr (inl e) ↦ inl e
        | inr (inr (n, e)) ↦ inr (omega (arith, e))
      ]

  -- Take any history of a new executor, a wake from another thread for a task that was spawned,
  -- and any history after it. There is no panic, and the task is among those that the loop has
  -- taken to poll since, or is still in the queue; and the loop takes the tasks in the order of
  -- the queue that the wake left, with those marked later behind them.
  pub no_wake_lost :
      (poll_budget task : ℕ) (es later : List (Event F)) (s : Executor F)
      → run es (new poll_budget) ≡ ok s
      → task < length s.tasks
      → let woken = record s { ready = mark task s.ready; waking = s.waking + 1 } in
        (t : Executor F) × (run (marking task ∷ later) s ≡ ok t)
        × (contains task (taken later woken ++ t.ready.queue) ≡ true)
        × ((added : List ℕ) × ((mark task s.ready).queue ++ added
              ≡ taken later woken ++ t.ready.queue))
  unfolding run step
  no_wake_lost poll_budget task es later s r h =
      let v = reached-IsValid poll_budget es s r in
      let woken : Executor F = record s { ready = mark task s.ready; waking = s.waking + 1 } in
      let (t, q', w', (added, o')) = run-Leads later woken (mark-IsValid task s v) in
      let there : contains task ((mark task s.ready).queue ++ added) ≡ true = ground (
        arith,
        contains-append task (mark task s.ready).queue added,
        contains-mark task s.ready v.coherent (omega (arith, h, v.sized)),
      ) in
      (t, q', subst (λ l. contains task l ≡ true) o' there, (added, o'))
