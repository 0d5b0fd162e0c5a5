-- ===== src/Executor/Groups/Fairness.antt =====
-- How executor/task_set.rs shares the time between scheduling groups that have tasks waiting.
use mathlib.Core.Path.{subst}
use sitas.Common.{
  ℕ, zero, suc, ◌+◌, ◌^◌, ◌≤◌, ◌<◌, ◌≡◌, ◌≢◌, ◌⊎◌, ◌∙◌, inl, inr, refl, sym, ap, Bool, Option, none,
  some, List, [], ◌∷◌, arith, All, get_elem?, set, Bool-cases,
}
use sitas.Executor.Groups.{
  Task, Group, TaskSet, Choice, new, record_task_poll, group_index, has_id, charge, charge_group,
  update_group, push_task, schedule_new, schedule_existing, Scheduled,
}
use sitas.Executor.Groups.Selection.{next_task_lem, IsChoice, NotBefore}
use sitas.Executor.Groups.History.{
  Op, run, Accepts, refused, enqueued, schedule_new-Accepts, schedule_existing-Accepts,
}
use sitas.Executor.Groups.Sorting.{Sorted, Sorted-front, run-Sorted}
use sitas.Executor.Groups.Turn.{
  Scheduling, spawning, waking, schedule_all, record_poll, poll_next, turn,
}

-- The virtual runtime and the shares of the group at an index.
abbrev account_of : Option Group → Option (ℕ × ℕ)
account_of none = none
account_of (some g) = some (g.virtual_runtime, g.shares)

abbrev pub account_at : ℕ → List Group → Option (ℕ × ℕ)
account_at i gs = account_of (get_elem? gs i)

abbrev runtime_of : Option (ℕ × ℕ) → ℕ
runtime_of none = 0
runtime_of (some (v, shares)) = v

abbrev pub runtime_at : ℕ → List Group → ℕ
runtime_at i gs = runtime_of (account_at i gs)

-- No group has run more than `k` ahead of the group at index `j`.
abbrev pub Spread : ℕ → ℕ → List Group → Type 0
Spread j k gs = (i : ℕ) → runtime_at i gs ≤ runtime_at j gs + k

abbrev Affordable : ℕ → ℕ → Option (ℕ × ℕ) → Type 0
Affordable d k none = Unit
Affordable d k (some (v, shares)) = (charge d shares ≤ k) × (v + k < 2 ^ 128)

-- What a poll of this length costs each group is at most `k`, and no virtual runtime is near 2^128.
abbrev pub Charges : Option ℕ → ℕ → List Group → Type 0
Charges none k gs = Unit
Charges (some d) k gs = (i : ℕ) → Affordable d k (account_at i gs)

account_at-set :
    (i c : ℕ) (gs : List Group) (g h : Group)
    → get_elem? gs c ≡ some g
    → h ≡ record g { queue = h.queue }
    → account_at i (set gs c h) ≡ account_at i gs
account_at-set i c [] g h e q = refl
account_at-set zero zero (f ∷ gs) g h e q = cc
account_at-set (suc i) zero (f ∷ gs) g h e q = refl
account_at-set zero (suc c) (f ∷ gs) g h e q = refl
account_at-set (suc i) (suc c) (f ∷ gs) g h e q = account_at-set i c gs g h e q

account_at-push_task :
    (i c : ℕ) (t : Task) (gs : List Group) → account_at i (push_task c t gs) ≡ account_at i gs
unfolding schedule_existing
account_at-push_task i c t [] = refl
account_at-push_task zero zero t (f ∷ gs) = refl
account_at-push_task (suc i) zero t (f ∷ gs) = refl
account_at-push_task zero (suc c) t (f ∷ gs) = refl
account_at-push_task (suc i) (suc c) t (f ∷ gs) = account_at-push_task i c t gs

-- A charge of at most `k` moves the charged group by at most `k`, and no other.
abbrev Moves : ℕ → ℕ → List Group → List Group → Type 0
Moves c k before after =
    (i : ℕ)
    → (runtime_at i before ≤ runtime_at i after)
      × (runtime_at i after ≤ runtime_at i before + k)
      × ((i ≡ c) ⊎ (runtime_at i after ≡ runtime_at i before))

Moves-refl : (c k : ℕ) (gs : List Group) → Moves c k gs gs
Moves-refl c k gs i = (omega arith, omega arith, inr refl)

update_group-Moves :
    (c d k : ℕ) (gs : List Group)
    → Charges (some d) k gs
    → Moves c k gs (update_group c (charge_group d) gs)
unfolding record_task_poll
update_group-Moves c d k [] a i = (omega arith, omega arith, inr refl)
update_group-Moves zero d k (g ∷ gs) a zero = (omega (arith, a 0), omega (arith, a 0), inl refl)
update_group-Moves zero d k (g ∷ gs) a (suc i) = (omega arith, omega arith, inr refl)
update_group-Moves (suc c) d k (g ∷ gs) a zero = (omega arith, omega arith, inr refl)
update_group-Moves (suc c) d k (g ∷ gs) a (suc i) =
    let r = update_group-Moves c d k gs (λ n. a (suc n)) i in
    (r.0, r.1, elim (r.2) [ inl e ↦ inl (ap suc e) | inr e ↦ inr e ])

record_task_poll-Moves :
    (c d k : ℕ) (s : TaskSet)
    → Charges (some d) k s.groups
    → Moves c k s.groups (record_task_poll c d s).groups
unfolding record_task_poll
record_task_poll-Moves c d k s a i = elim (Bool-cases (has_id c (get_elem? s.groups c))) [
  | inl h ↦ rw (record_task_poll, group_index, h) (update_group-Moves c d k s.groups a i)
  | inr h ↦ rw (record_task_poll, group_index, h) (Moves-refl c k s.groups i)
]

abbrev SameAccounts : TaskSet → TaskSet → Type 0
SameAccounts s s' = (i : ℕ) → account_at i s'.groups ≡ account_at i s.groups

Accepts-SameAccounts :
    (c : Scheduled) (t : Task) (s : TaskSet) → Accepts c t s → SameAccounts s c.after
Accepts-SameAccounts c t s (refused w e a k) i = rw a refl
Accepts-SameAccounts c t s (enqueued p g e a b k) i =
    rw a (account_at-push_task i t.scheduling_group_id t s.groups)

schedule_all-SameAccounts :
    (alive : Task → Bool) (os : List Scheduling) (s : TaskSet)
    → SameAccounts s (schedule_all alive os s)
unfolding schedule_all
schedule_all-SameAccounts alive [] s i = refl
schedule_all-SameAccounts alive (spawning t ∷ os) s i =
    schedule_all-SameAccounts alive os (schedule_new alive t s).after i
    ∙ Accepts-SameAccounts _ t s (schedule_new-Accepts alive t s) i
schedule_all-SameAccounts alive (waking t ∷ os) s i =
    schedule_all-SameAccounts alive os (schedule_existing t s).after i
    ∙ Accepts-SameAccounts _ t s (schedule_existing-Accepts t s) i

-- The group that is served has not run longer than a group with a task.
served_first :
    (gs : List Group) (j : ℕ) (g h : Group)
    → All (NotBefore g) gs
    → get_elem? gs j ≡ some h
    → h.queue ≢ []
    → g.virtual_runtime ≤ h.virtual_runtime
served_first [] j g h a e n = cc
served_first (f ∷ gs) zero g h a e n =
    let p : f ≡ h = cc in
    elim (subst (NotBefore g) p a.0) [ inl q ↦ absurd (n q) | inr q ↦ ground arith ]
served_first (f ∷ gs) (suc j) g h a e n = served_first gs j g h a.1 e n

Spread-after :
    (j k c : ℕ) (before middle after : List Group)
    → ((i : ℕ) → account_at i middle ≡ account_at i before)
    → Moves c k middle after
    → runtime_at c before ≤ runtime_at j before
    → Spread j k before
    → Spread j k after
Spread-after j k c before middle after q m l v i = elim ((m i).2) [
  | inl e ↦ omega (
    arith,
    (m i).1,
    (m j).0,
    ap runtime_of (q j),
    ap runtime_of (q i),
    ap (λ n. runtime_at n before) e,
    l,
  )
  | inr e ↦ omega (arith, e, (m j).0, ap runtime_of (q j), ap runtime_of (q i), v i)
]

Charges-same :
    (polled : Option ℕ) (k : ℕ) (before after : List Group)
    → ((i : ℕ) → account_at i after ≡ account_at i before)
    → Charges polled k before
    → Charges polled k after
Charges-same none k before after q a = tt
Charges-same (some d) k before after q a = λ i. subst (Affordable d k) (sym (q i)) (a i)

record_poll-Moves :
    (c : ℕ) (polled : Option ℕ) (k : ℕ) (s : TaskSet)
    → Charges polled k s.groups
    → Moves c k s.groups (record_poll c polled s).groups
unfolding turn
record_poll-Moves c none k s a = Moves-refl c k s.groups
record_poll-Moves c (some d) k s a = record_task_poll-Moves c d k s a

runtime_at_of :
    (i : ℕ) (gs : List Group) (g : Group)
    → get_elem? gs i ≡ some g
    → runtime_at i gs ≡ g.virtual_runtime
runtime_at_of i gs g e = ap (λ o. runtime_of (account_of o)) e

-- A turn that hands out a task.
served_Spread :
    (alive : Task → Bool) (during : List Scheduling) (polled : Option ℕ) (j k : ℕ) (g : Group)
    (s : TaskSet) (c : Choice)
    → Sorted 0 s.groups
    → IsChoice c s.groups
    → get_elem? s.groups j ≡ some g
    → g.queue ≢ []
    → Spread j k s.groups
    → Charges polled k s.groups
    → Spread j k
        (poll_next alive during polled
          (some c.task, record s { groups = set s.groups c.index c.rest })).groups
unfolding turn
served_Spread alive during polled j k g s c w h e n v a =
    let s1 : TaskSet = record s { groups = set s.groups c.index c.rest } in
    let s2 = schedule_all alive during s1 in
    let same : SameAccounts s s2 = λ i.
      schedule_all-SameAccounts alive during s1 i
      ∙ account_at-set i c.index s.groups c.key c.rest h.at_index h.kept in
    let own = (Sorted-front 0 c.index s.groups c.key c.rest c.task h.at_index h.front w).0 in
    let first = served_first s.groups j c.key g h.least e n in
    Spread-after j k c.task.scheduling_group_id s.groups s2.groups
      (record_poll c.task.scheduling_group_id polled s2).groups same
      (record_poll-Moves c.task.scheduling_group_id polled k s2
        (Charges-same polled k s.groups s2.groups same a))
      (omega (
        arith,
        first,
        ap (λ i. runtime_at i s.groups) (own ∙ zero_plus c.index),
        runtime_at_of c.index s.groups c.key h.at_index,
        runtime_at_of j s.groups g e,
      ))
      v
  where
    zero_plus : (n : ℕ) → 0 + n ≡ n
    zero_plus n = omega arith

-- Take any task set that calls reach from a new one, and a group with a task in its queue, such
-- that no group has run more than `k` ahead of it in virtual runtime. Let one poll cost no group
-- more than `k`, and no virtual runtime be within `k` of 2^128. After a turn of the executor,
-- whichever tasks are spawned and woken during the poll, still no group has run more than `k`
-- ahead of that group.
pub turn_keeps_Spread :
    (alive : Task → Bool) (os : List Op) (during : List Scheduling) (polled : Option ℕ) (j k : ℕ)
    (g : Group)
    → get_elem? (run alive os new).groups j ≡ some g
    → g.queue ≢ []
    → Spread j k (run alive os new).groups
    → Charges polled k (run alive os new).groups
    → Spread j k (turn alive during polled (run alive os new)).groups
unfolding turn new
turn_keeps_Spread alive os during polled j k g e n v a =
    let s = run alive os new in
    elim (next_task_lem s) [
      | inl (idle, p) ↦
          subst (λ x. Spread j k x.groups) (sym (ap (poll_next alive during polled) p)) v
      | inr (c, h) ↦
          subst (λ x. Spread j k x.groups) (sym (ap (poll_next alive during polled) h.result))
            (served_Spread alive during polled j k g s c (run-Sorted alive os new (tt, tt)) h.chosen
              e n v a)
    ]
