-- ===== src/ShardExecutor/Validity.antt =====
-- crates/sitas-core/src/shard_executor.rs: the state of an executor is valid through every history.
use sitas.Common.{
  ℕ, suc, ◌+◌, ◌-◌, ◌≡◌, refl, sym, ap, ◌∙◌, inl, inr, ◌⊎◌, Bool, true, false, Option, none, some,
  List, [], ◌∷◌, ◌++◌, ok, length, get_elem?, arith, ◌==◌, is_empty, Option-cases, length-set,
  length-append, get_elem?-set_self, get_elem?-lt,
}
use sitas.ShardExecutor.{
  Phase, idle, at_start, in_round, in_poll, after_round, waiting, serving, Executor, ReadyQueue,
  mark, mark_ready, spawn, finish_poll, poll_task, wake_readable, swap_remove,
}
use sitas.ShardExecutor.Coherence.{Coherent, mark-Coherent, append-Coherent}
use sitas.ShardExecutor.Slots.{occupied, occupied-append, occupied-set-none, occupied-set-some}

length-mark : (task : ℕ) (r : ReadyQueue) → length (mark task r).queued ≡ length r.queued
unfolding mark
length-mark task r = elim (Option-cases (get_elem? r.queued task)) [
  | inl e ↦ rw (e, mark) refl
  | inr (true, e) ↦ rw (e, mark) refl
  | inr (false, e) ↦ rw (e, mark) (length-set r.queued task true)
]

module _ {F : Type 0} where
  -- The futures that the loop holds.
  abbrev pub held : Phase F → ℕ
  held idle = 0
  held at_start = 0
  held (in_round count) = 0
  held (in_poll count task f) = 1
  held after_round = 0
  held waiting = 0
  held (serving handles) = 0

  -- The task of a future that is polled has none in its place.
  abbrev pub Vacant : Phase F → List (Option F) → Type 0
  Vacant idle tasks = Unit
  Vacant at_start tasks = Unit
  Vacant (in_round count) tasks = Unit
  Vacant (in_poll count task f) tasks = get_elem? tasks task ≡ some none
  Vacant after_round tasks = Unit
  Vacant waiting tasks = Unit
  Vacant (serving handles) tasks = Unit

  -- Where a wait can begin or go on, each task in the queue is announced by a wake.
  abbrev pub Announced : Phase F → List ℕ → Bool → ℕ → Type 0
  Announced waiting queue woken waking =
      (is_empty queue ≡ true) ⊎ (woken ≡ true) ⊎ ((n : ℕ) × (waking ≡ suc n))
  Announced _ queue woken waking = Unit

  pub record IsValid (s : Executor F) : Type 0 where
    pub coherent : Coherent s.ready
    pub sized : length s.tasks ≡ length s.ready.queued
    pub counted : s.live ≡ occupied s.tasks + held s.phase
    pub vacant : Vacant s.phase s.tasks
    pub announced : Announced s.phase s.ready.queue s.woken s.waking

  pub announced_woken : (phase : Phase F) (queue : List ℕ) (n : ℕ) → Announced phase queue true n
  announced_woken idle queue n = tt
  announced_woken at_start queue n = tt
  announced_woken (in_round count) queue n = tt
  announced_woken (in_poll count task f) queue n = tt
  announced_woken after_round queue n = tt
  announced_woken waiting queue n = inr (inl refl)
  announced_woken (serving handles) queue n = tt

  announced_waking :
      (phase : Phase F) (queue : List ℕ) (b : Bool) (n : ℕ) → Announced phase queue b (n + 1)
  announced_waking idle queue b n = tt
  announced_waking at_start queue b n = tt
  announced_waking (in_round count) queue b n = tt
  announced_waking (in_poll count task f) queue b n = tt
  announced_waking after_round queue b n = tt
  announced_waking waiting queue b n = inr (inr (n, omega arith))
  announced_waking (serving handles) queue b n = tt

  pub mark_ready-IsValid : (task : ℕ) (s : Executor F) → IsValid s → IsValid (mark_ready task s)
  unfolding mark_ready
  mark_ready-IsValid task s v = record {
    coherent = mark-Coherent task s.ready v.coherent;
    sized = v.sized ∙ sym (length-mark task s.ready);
    counted = v.counted;
    vacant = v.vacant;
    announced = announced_woken s.phase (mark task s.ready).queue s.waking;
  }

  pub mark-IsValid :
      (task : ℕ) (s : Executor F)
      → IsValid s
      → IsValid (record s { ready = mark task s.ready; waking = s.waking + 1 })
  mark-IsValid task s v = record {
    coherent = mark-Coherent task s.ready v.coherent;
    sized = v.sized ∙ sym (length-mark task s.ready);
    counted = v.counted;
    vacant = v.vacant;
    announced = announced_waking s.phase (mark task s.ready).queue s.woken s.waking;
  }

  pub spawn-IsValid :
      (f : F) (s : Executor F)
      → IsValid (record s { phase = idle })
      → IsValid (spawn f (record s { phase = idle }))
  unfolding spawn
  spawn-IsValid f s v =
      mark_ready-IsValid (length s.tasks)
        (record s {
          tasks = s.tasks ++ some f ∷ [];
          ready = record s.ready { queued = s.ready.queued ++ false ∷ [] };
          live = s.live + 1;
          phase = idle;
        })
        (record {
          coherent = append-Coherent s.ready v.coherent;
          sized = omega (
            arith,
            length-append s.tasks (some f ∷ []),
            length-append s.ready.queued (false ∷ []),
            v.sized,
          );
          counted = omega (arith, v.counted, occupied-append s.tasks f);
          vacant = tt;
          announced = tt;
        })

  -- The loop goes on, with the same tasks.
  pub moved-IsValid :
      (p q : Phase F) (s : Executor F)
      → held p ≡ held q
      → Vacant q s.tasks
      → Announced q s.ready.queue s.woken s.waking
      → IsValid (record s { phase = p })
      → IsValid (record s { phase = q })
  moved-IsValid p q s e d n v = record {
    coherent = v.coherent;
    sized = v.sized;
    counted = v.counted ∙ ap (λ k. occupied s.tasks + k) e;
    vacant = d;
    announced = n;
  }

  pub wake_readable-IsValid :
      (handle : ℕ) (before handles : List ℕ) (s : Executor F)
      → IsValid (record s { phase = serving before })
      → IsValid (record (wake_readable handle (record s { phase = serving before })) {
        phase = serving handles;
      })
  unfolding wake_readable mark_ready
  wake_readable-IsValid handle before handles s v =
      elim (Option-cases (swap_remove handle s.interests)) [
        | inl e ↦
            rw (e, wake_readable) (moved-IsValid (serving before) (serving handles) s refl tt tt v)
        | inr (out, e) ↦
            rw (e, wake_readable)
              (mark_ready-IsValid out.0 (record s { interests = out.1; phase = serving handles })
                (record {
                  coherent = v.coherent;
                  sized = v.sized;
                  counted = v.counted;
                  vacant = tt;
                  announced = tt;
                }))
      ]

  pub poll_task-IsValid :
      (count task : ℕ) (s : Executor F)
      → IsValid (record s { phase = in_round count })
      → IsValid (poll_task count task (record s { phase = in_round count }))
  unfolding poll_task
  poll_task-IsValid count task s v = elim (Option-cases (get_elem? s.tasks task)) [
    | inl e ↦
        rw (e, poll_task) (moved-IsValid (in_round count) (in_round (count + 1)) s refl tt tt v)
    | inr (none, e) ↦
        rw (e, poll_task) (moved-IsValid (in_round count) (in_round (count + 1)) s refl tt tt v)
    | inr (some f, e) ↦
        rw (e, poll_task)
          (record {
            coherent = v.coherent;
            sized = length-set s.tasks task none ∙ v.sized;
            counted = omega (arith, v.counted, occupied-set-none s.tasks task f e);
            vacant = get_elem?-set_self s.tasks task none (get_elem?-lt s.tasks task (some f) e);
            announced = tt;
          })
  ]

  pub finish_poll-IsValid :
      (count task : ℕ) (f : F) (o : Option F) (s : Executor F)
      → IsValid (record s { phase = in_poll count task f })
      → (s' : Executor F) × (finish_poll count task o (record s { phase = in_poll count task f })
          ≡ ok s')
        × IsValid s'
        × (s'.ready ≡ s.ready)
  unfolding finish_poll
  finish_poll-IsValid count task f (some g) s v = (
    _,
    refl,
    record {
      coherent = v.coherent;
      sized = length-set s.tasks task (some g) ∙ v.sized;
      counted = omega (arith, v.counted, occupied-set-some s.tasks task g v.vacant);
      vacant = tt;
      announced = tt;
    },
    refl,
  )
  finish_poll-IsValid count task f none s v =
      let nonzero : (s.live == 0) ≡ false = ground (arith, v.counted) in
      (
        record s { live = s.live - 1; phase = in_round (count + 1) },
        rw (nonzero, finish_poll) refl,
        record {
          coherent = v.coherent;
          sized = v.sized;
          counted = omega (arith, v.counted);
          vacant = tt;
          announced = tt;
        },
        refl,
      )
