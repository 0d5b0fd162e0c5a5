-- ===== src/ShardExecutor/Rounds.antt =====
-- crates/sitas-core/src/shard_executor.rs: the accesses of the loop of `run`.
use mathlib.Core.Path.{subst}
use sitas.Common.{
  ℕ, ◌≡◌, refl, sym, ap, ◌∙◌, inl, inr, false, none, some, List, [], ◌∷◌, ◌++◌, Result, ok, length,
  get_elem?, ◌==◌, is_empty, Bool-cases, Option-cases, append-nil, take, ltb, if◌then◌else◌,
}
use sitas.ShardExecutor.{
  Panic, Phase, idle, at_start, in_round, in_poll, after_round, waiting, serving, Executor,
  mark_ready, spawn, proceed, poll_task, wake_readable, swap_remove,
}
use sitas.ShardExecutor.History.{Event, proceeding}
use sitas.ShardExecutor.Coherence.{take_ready-Taken, queue-mark}
use sitas.ShardExecutor.Validity.{IsValid, moved-IsValid, wake_readable-IsValid, poll_task-IsValid}

pub kept : (xs : List ℕ) → (added : List ℕ) × (xs ++ added ≡ xs)
kept xs = ([], append-nil xs)

module _ {F : Type 0} where
  -- The task that an event takes from the queue.
  abbrev pub popped : Event F → Phase F → Executor F → List ℕ
  popped proceeding (in_round count) s =
      if ltb count s.poll_budget then take 1 s.ready.queue else []
  popped _ _ s = []

  -- A result without a panic: a valid executor, whose queue is the one before without the tasks
  -- taken, and with others behind.
  abbrev pub Leads : List ℕ → List ℕ → Result (Executor F) Panic → Type 0
  Leads queue taken r =
      (s' : Executor F) × (r ≡ ok s')
      × IsValid s'
      × ((added : List ℕ) × (queue ++ added ≡ taken ++ s'.ready.queue))

  ready-poll_task : (count task : ℕ) (s : Executor F) → (poll_task count task s).ready ≡ s.ready
  unfolding poll_task
  ready-poll_task count task s = elim (Option-cases (get_elem? s.tasks task)) [
    | inl e ↦ rw (e, poll_task) refl
    | inr (none, e) ↦ rw (e, poll_task) refl
    | inr (some f, e) ↦ rw (e, poll_task) refl
  ]

  round-Leads :
      (count : ℕ) (s : Executor F)
      → IsValid (record s { phase = in_round count })
      → Leads s.ready.queue
          (popped proceeding (in_round count) s)
          (proceed (in_round count) (record s { phase = in_round count }))
  unfolding proceed
  round-Leads count s v = elim (Bool-cases (ltb count s.poll_budget)) [
    | inr e ↦ rw e (
      record s { phase = after_round },
      refl,
      moved-IsValid (in_round count) after_round s refl tt tt v,
      kept s.ready.queue,
    )
    | inl e ↦ elim (take_ready-Taken s.ready v.coherent) [
      | inl q ↦ rw e (
        record s { phase = after_round },
        rw q.0 refl,
        moved-IsValid (in_round count) after_round s refl tt tt v,
        ([], subst (λ u. u ++ [] ≡ take 1 u ++ u) (sym q.1) refl),
      )
      | inr (task, r', q, p, l, c) ↦ rw e (
        poll_task count task (record s { ready = r'; phase = in_round count }),
        rw q refl,
        poll_task-IsValid count task (record s { ready = r' })
            (record {
              coherent = c;
              sized = v.sized ∙ sym l;
              counted = v.counted;
              vacant = tt;
              announced = tt;
            }),
        (
          [],
          append-nil s.ready.queue
              ∙ subst (λ u. u ≡ take 1 u ++ r'.queue) (sym p) refl
              ∙ ap (λ r. take 1 s.ready.queue ++ r.queue)
                  (sym
                    (ready-poll_task count task (record s { ready = r'; phase = in_round count }))),
        ),
      )
    ]
  ]

  after_round-Leads :
      (s : Executor F)
      → IsValid (record s { phase = after_round })
      → Leads s.ready.queue [] (proceed after_round (record s { phase = after_round }))
  unfolding proceed
  after_round-Leads s v = elim (Bool-cases (s.live == 0)) [
    | inl e ↦ (
      record s { phase = idle },
      rw (e, proceed) refl,
      moved-IsValid after_round idle s refl tt tt v,
      kept s.ready.queue,
    )
    | inr e ↦ elim (Bool-cases (is_empty s.ready.queue)) [
      | inl h ↦ (
        record s { phase = waiting },
        rw (e, h, proceed) refl,
        moved-IsValid after_round waiting s refl tt (inl h) v,
        kept s.ready.queue,
      )
      | inr h ↦ (
        record s { phase = at_start },
        rw (e, h, proceed) refl,
        moved-IsValid after_round at_start s refl tt tt v,
        kept s.ready.queue,
      )
    ]
  ]

  pub queue-wake_readable :
      (handle : ℕ) (s : Executor F)
      → (added : List ℕ) × (s.ready.queue ++ added ≡ (wake_readable handle s).ready.queue)
  unfolding wake_readable mark_ready
  queue-wake_readable handle s = elim (Option-cases (swap_remove handle s.interests)) [
    | inl e ↦ ([], rw (e, wake_readable) (append-nil s.ready.queue))
    | inr (out, e) ↦ let (added, q) = queue-mark out.0 s.ready in (added, rw (e, wake_readable) q)
  ]

  pub queue-spawn :
      (f : F) (s : Executor F)
      → (added : List ℕ) × (s.ready.queue ++ added ≡ (spawn f s).ready.queue)
  unfolding spawn mark_ready
  queue-spawn f s =
      queue-mark (length s.tasks) (record s.ready { queued = s.ready.queued ++ false ∷ [] })

  pub proceed-Leads :
      (p : Phase F) (s : Executor F)
      → IsValid (record s { phase = p })
      → Leads s.ready.queue (popped proceeding p s) (proceed p (record s { phase = p }))
  unfolding proceed
  proceed-Leads idle s v = (_, refl, v, kept s.ready.queue)
  proceed-Leads at_start s v = elim (Bool-cases (s.live == 0)) [
    | inl e ↦ (
      record s { phase = idle },
      rw (e, proceed) refl,
      moved-IsValid at_start idle s refl tt tt v,
      kept s.ready.queue,
    )
    | inr e ↦ (
      record s { phase = in_round 0 },
      rw (e, proceed) refl,
      moved-IsValid at_start (in_round 0) s refl tt tt v,
      kept s.ready.queue,
    )
  ]
  proceed-Leads (in_round count) s v = round-Leads count s v
  proceed-Leads (in_poll count task f) s v = (_, refl, v, kept s.ready.queue)
  proceed-Leads after_round s v = after_round-Leads s v
  proceed-Leads waiting s v = (_, refl, v, kept s.ready.queue)
  proceed-Leads (serving []) s v =
      (_, refl, moved-IsValid (serving []) at_start s refl tt tt v, kept s.ready.queue)
  proceed-Leads (serving (handle ∷ handles)) s v = (
    _,
    refl,
    wake_readable-IsValid handle (handle ∷ handles) handles s v,
    queue-wake_readable handle (record s { phase = serving (handle ∷ handles) }),
  )
