-- ===== src/ShardExecutor/Coherence.antt =====
-- crates/sitas-core/src/shard_executor.rs, ReadyQueue: the flags say which tasks are in the queue.
use mathlib.Core.Path.{subst}
use sitas.Common.{
  ℕ, ◌≡◌, ◌<◌, refl, ◌∙◌, inl, inr, ◌⊎◌, Bool, true, false, none, some, List, [], ◌∷◌, ◌++◌, ok,
  length, get_elem?, set, arith, ◌==◌, ==_iff, ==_refl, length-set, Option-cases, Bool-cases,
  contains, Distinct, contains-append, Distinct-append, get_elem?-set_cases, get_elem?-set_self,
  get_elem?-set_ne, get_elem?-lt, get_elem?-append, append-nil, get_elem?_of_lt,
  get_elem?-snoc_cases,
}
use sitas.ShardExecutor.{ReadyQueue, mark, take_ready}

pub record Coherent (r : ReadyQueue) : Type 0 where
  pub flagged : (t : ℕ) → get_elem? r.queued t ≡ some true → contains t r.queue ≡ true
  pub listed : (t : ℕ) → contains t r.queue ≡ true → get_elem? r.queued t ≡ some true
  pub distinct : Distinct r.queue

-- A task that is marked.
marked-Coherent :
    (task : ℕ) (r : ReadyQueue)
    → get_elem? r.queued task ≡ some false
    → Coherent r
    → Coherent (record { queue = r.queue ++ task ∷ []; queued = set r.queued task true })
marked-Coherent task r e c =
    let fresh : contains task r.queue ≡ false = elim (Bool-cases (contains task r.queue)) [
      | inl h ↦ absurd (cc (e, c.listed task h))
      | inr h ↦ h
    ] in
    record {
      flagged = λ t h. elim (get_elem?-set_cases r.queued true task t true h) [
        | inl q ↦ ground (arith, q.0, contains-append t r.queue (task ∷ []))
        | inr q ↦ ground (arith, c.flagged t q.1, contains-append t r.queue (task ∷ []))
      ];
      listed = λ t h. elim (Bool-cases (task == t)) [
        | inl q ↦
            subst (λ k. get_elem? (set r.queued task true) k ≡ some true) ((==_iff task t).0 q)
              (get_elem?-set_self r.queued task true (get_elem?-lt r.queued task false e))
        | inr q ↦
            get_elem?-set_ne r.queued true (λ p. ground (arith, q, p))
            ∙ c.listed t (ground (arith, q, h, contains-append t r.queue (task ∷ [])))
      ];
      distinct = Distinct-append task r.queue fresh c.distinct;
    }

pub mark-Coherent : (task : ℕ) (r : ReadyQueue) → Coherent r → Coherent (mark task r)
unfolding mark
mark-Coherent task r c = elim (Option-cases (get_elem? r.queued task)) [
  | inl e ↦ rw (e, mark) c
  | inr (true, e) ↦ rw (e, mark) c
  | inr (false, e) ↦ rw (e, mark) (marked-Coherent task r e c)
]

taken-Coherent :
    (task : ℕ) (rest : List ℕ) (flags : List Bool)
    → Coherent (record { queue = task ∷ rest; queued = flags })
    → Coherent (record { queue = rest; queued = set flags task false })
taken-Coherent task rest flags c = record {
  flagged = λ t h. elim (get_elem?-set_cases flags false task t true h) [
    | inl q ↦ absurd (cc q.1)
    | inr q ↦ ground (arith, q.0, c.flagged t q.1, ==_iff task t)
  ];
  listed = λ t h. elim (Bool-cases (task == t)) [
    | inl q ↦ absurd (cc (c.distinct.0, h, (==_iff task t).0 q))
    | inr q ↦
        get_elem?-set_ne flags false (λ p. ground (arith, q, p)) ∙ c.listed t (ground (arith, q, h))
  ];
  distinct = c.distinct.1;
}

-- What `take_ready` returns: nothing from an empty queue, else its first task. It does not panic.
abbrev pub Taken : ReadyQueue → Type 0
Taken r =
    ((take_ready r ≡ ok none) × (r.queue ≡ []))
    ⊎ ((task : ℕ) × (r' : ReadyQueue) × (take_ready r ≡ ok (some (task, r')))
        × (r.queue ≡ task ∷ r'.queue)
        × (length r'.queued ≡ length r.queued)
        × Coherent r')

take_ready_cases :
    (queue : List ℕ) (flags : List Bool)
    → Coherent (record { queue = queue; queued = flags })
    → Taken (record { queue = queue; queued = flags })
unfolding take_ready
take_ready_cases [] flags c = inl (refl, refl)
take_ready_cases (task ∷ rest) flags c =
    let e : get_elem? flags task ≡ some true = c.listed task (ground (arith, ==_refl task)) in
    inr (
      task,
      record { queue = rest; queued = set flags task false },
      rw (e, take_ready) refl,
      refl,
      length-set flags task false,
      taken-Coherent task rest flags c,
    )

pub take_ready-Taken : (r : ReadyQueue) → Coherent r → Taken r
take_ready-Taken r c = take_ready_cases r.queue r.queued c

pub append-Coherent :
    (r : ReadyQueue) → Coherent r → Coherent (record r { queued = r.queued ++ false ∷ [] })
append-Coherent r c = record {
  flagged = λ t h. elim (get_elem?-snoc_cases r.queued false t true h) [
    | inl q ↦ c.flagged t q
    | inr q ↦ absurd (cc q.1)
  ];
  listed = λ t h. get_elem?-append r.queued (false ∷ []) t true (c.listed t h);
  distinct = c.distinct;
}

-- What `mark` adds at the end of the queue.
pub queue-mark :
    (task : ℕ) (r : ReadyQueue) → (added : List ℕ) × (r.queue ++ added ≡ (mark task r).queue)
unfolding mark
queue-mark task r = elim (Option-cases (get_elem? r.queued task)) [
  | inl e ↦ ([], rw (e, mark) (append-nil r.queue))
  | inr (true, e) ↦ ([], rw (e, mark) (append-nil r.queue))
  | inr (false, e) ↦ (task ∷ [], rw (e, mark) refl)
]

-- A task that the executor has is in the queue once it was marked.
pub contains-mark :
    (task : ℕ) (r : ReadyQueue)
    → Coherent r
    → task < length r.queued
    → contains task (mark task r).queue ≡ true
unfolding mark
contains-mark task r c h = elim (Option-cases (get_elem? r.queued task)) [
  | inl e ↦ let (b, q) = get_elem?_of_lt r.queued task h in absurd (cc (e, q))
  | inr (true, e) ↦ rw (e, mark) (c.flagged task e)
  | inr (false, e) ↦
      rw (e, mark) (ground (arith, contains-append task r.queue (task ∷ []), ==_refl task))
]
