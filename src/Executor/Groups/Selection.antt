-- ===== src/Executor/Groups/Selection.antt =====
-- Which task executor/task_set.rs hands out next.
use sitas.Common.{
  ℕ, zero, suc, ◌+◌, ◌≡◌, ◌⊎◌, inl, inr, refl, ap, true, false, Option, none, some, List, [], ◌∷◌,
  arith, All, get_elem?, set, length, Bool-cases,
}
use sitas.Executor.Groups.{
  Task, Group, TaskSet, Choice, offer, choose, key_le, next_task, queued_in, ready_queue_len,
}

key_le_trans : (f g h : Group) → key_le f g ≡ true → key_le g h ≡ true → key_le f h ≡ true
key_le_trans f g h p q = ground arith

key_le_total : (f g : Group) → key_le f g ≡ false → key_le g f ≡ true
key_le_total f g p = ground arith

key_le_refl : (g : Group) → key_le g g ≡ true
key_le_refl g = ground arith

-- The group `h` has no task, or its key is not below that of `g`.
abbrev pub NotBefore : Group → Group → Type 0
NotBefore g h = (h.queue ≡ []) ⊎ (key_le g h ≡ true)

-- The chosen task stands at the front of the queue of the group at the index, no group with a task
-- has a smaller key, and the rest of that group is unchanged.
pub record IsChoice (c : Choice) (gs : List Group) : Type 0 where
  pub at_index : get_elem? gs c.index ≡ some c.key
  pub front : c.key.queue ≡ c.task ∷ c.rest.queue
  pub kept : c.rest ≡ record c.key { queue = c.rest.queue }
  pub least : All (NotBefore c.key) gs

abbrev Chooses : Option Choice → List Group → Type 0
Chooses none gs = All (λ g. g.queue ≡ []) gs
Chooses (some c) gs = IsChoice c gs

All-NotBefore_of_empty :
    (g : Group) (gs : List Group) → All (λ h. h.queue ≡ []) gs → All (NotBefore g) gs
All-NotBefore_of_empty g [] a = tt
All-NotBefore_of_empty g (h ∷ gs) a = (inl a.0, All-NotBefore_of_empty g gs a.1)

All-NotBefore-trans :
    (f g : Group) (gs : List Group)
    → key_le f g ≡ true
    → All (NotBefore g) gs
    → All (NotBefore f) gs
All-NotBefore-trans f g [] p a = tt
All-NotBefore-trans f g (h ∷ gs) p (inl e, a) = (inl e, All-NotBefore-trans f g gs p a)
All-NotBefore-trans f g (h ∷ gs) p (inr q, a) =
    (inr (key_le_trans f g h p q), All-NotBefore-trans f g gs p a)

-- Keep the old choice: the new group has no task, or does not come first.
IsChoice-later :
    (c : Choice) (g : Group) (gs : List Group)
    → NotBefore c.key g
    → IsChoice c gs
    → IsChoice (record c { index = suc c.index }) (g ∷ gs)
IsChoice-later c g gs n v = record {
  at_index = v.at_index;
  front = v.front;
  kept = v.kept;
  least = (n, v.least);
}

IsChoice-first :
    (g : Group) (t : Task) (q : List Task) (gs : List Group)
    → g.queue ≡ t ∷ q
    → All (NotBefore g) gs
    → IsChoice (record { index = 0; task = t; rest = record g { queue = q }; key = g }) (g ∷ gs)
IsChoice-first g t q gs e a = record {
  at_index = refl;
  front = e;
  kept = refl;
  least = (inr (key_le_refl g), a);
}

offer-Chooses :
    (g : Group) (q : List Task) (o : Option Choice) (gs : List Group)
    → g.queue ≡ q
    → Chooses o gs
    → Chooses (offer g q o) (g ∷ gs)
unfolding choose
offer-Chooses g [] none gs e h = (e, h)
offer-Chooses g [] (some c) gs e h = IsChoice-later c g gs (inl e) h
offer-Chooses g (t ∷ q) none gs e h = IsChoice-first g t q gs e (All-NotBefore_of_empty g gs h)
offer-Chooses g (t ∷ q) (some c) gs e h = elim (Bool-cases (key_le g c.key)) [
  | inl p ↦ rw p (IsChoice-first g t q gs e (All-NotBefore-trans g c.key gs p h.least))
  | inr p ↦ rw p (IsChoice-later c g gs (inr (key_le_total g c.key p)) h)
]

choose-Chooses : (gs : List Group) → Chooses (choose gs) gs
unfolding choose
choose-Chooses [] = tt
choose-Chooses (g ∷ gs) = offer-Chooses g g.queue (choose gs) gs refl (choose-Chooses gs)

queued_in_of_empty : (gs : List Group) → All (λ g. g.queue ≡ []) gs → queued_in gs ≡ 0
unfolding ready_queue_len
queued_in_of_empty [] a = refl
queued_in_of_empty (g ∷ gs) a = omega (arith, ap length a.0, queued_in_of_empty gs a.1)

queued_in-set :
    (gs : List Group) (i : ℕ) (g h : Group)
    → get_elem? gs i ≡ some g
    → queued_in gs + length h.queue ≡ queued_in (set gs i h) + length g.queue
unfolding ready_queue_len
queued_in-set [] i g h e = cc
queued_in-set (f ∷ gs) zero g h e = ground arith
queued_in-set (f ∷ gs) (suc i) g h e = omega (arith, queued_in-set gs i g h e)

-- What `next_task` does with a choice.
pub record HandsOut (c : Choice) (s : TaskSet) : Type 0 where
  pub chosen : IsChoice c s.groups
  pub result : next_task s ≡ (some c.task, record s { groups = set s.groups c.index c.rest })
  pub one_less : ready_queue_len s ≡ suc (ready_queue_len (next_task s).1)

next_task_of :
    (o : Option Choice) (s : TaskSet)
    → choose s.groups ≡ o
    → Chooses o s.groups
    → (ready_queue_len s ≡ 0) × (next_task s ≡ (none, s)) ⊎ ((c : Choice) × HandsOut c s)
unfolding next_task ready_queue_len
next_task_of none s e h = inl (queued_in_of_empty s.groups h, rw (e, next_task))
next_task_of (some c) s e h = inr (
  c,
  record {
    chosen = h;
    result = rw (e, next_task);
    one_less =
        rw (e, next_task)
          (omega
            (arith, queued_in-set s.groups c.index c.key c.rest h.at_index, ap length h.front));
  },
)

-- `next_task` returns nothing, and changes nothing, exactly where every ready queue is empty.
-- Otherwise it hands out the task at the front of the queue of a group whose pair of virtual
-- runtime and identifier is least among the groups with a task, takes that one task off, and
-- leaves all else.
pub next_task_lem :
    (s : TaskSet)
    → (ready_queue_len s ≡ 0) × (next_task s ≡ (none, s)) ⊎ ((c : Choice) × HandsOut c s)
unfolding next_task
next_task_lem s = next_task_of (choose s.groups) s refl (choose-Chooses s.groups)
