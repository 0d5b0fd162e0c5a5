-- ===== src/Index/Heads.antt =====
-- crates/sitas-core/src/mailbox_index.rs, verify_runs: what is left of the runs, and the first
-- entries of it in the heap.
use mathlib.Core.Path.{subst}
use sitas.Common.{
  ℕ, zero, suc, ◌+◌, ◌≡◌, refl, sym, ap, ◌∙◌, inl, inr, true, Option, none, some, List, [], ◌∷◌,
  ◌++◌, get_elem?, set, drop, All, All-append, List-cases, arith,
}
use sitas.Kv.Keys.{insert_sorted, sort}
use sitas.Kv.Keys.Sorting.{insert_sorted_comm, sort_onto, sort-append, sort_onto-insert_sorted}
use sitas.Kv.Keys.Least.{insert_sorted-front, le_refl}
use sitas.Index.Entry.{IndexEntry, HeapItem, entry_le, entry_key, item_key}
use sitas.Index.Assembler.{RunResult}
use sitas.Index.Coordinator.{item, push_next, ascending}

-- What is left of each run.
unfoldable pub tails : List RunResult → List ℕ → List (List IndexEntry)
tails [] cursor = []
tails (run ∷ runs) [] = []
tails (run ∷ runs) (at ∷ cursor) = drop at run.entries ∷ tails runs cursor

unfoldable pub joined : List (List IndexEntry) → List IndexEntry
joined [] = []
joined (t ∷ ts) = t ++ joined ts

abbrev pub head? : List IndexEntry → Option IndexEntry
head? [] = none
head? (x ∷ xs) = some x

-- The first entries of what is left, from the run `n` on, in the order of the heap.
unfoldable pub heads : ℕ → List (List IndexEntry) → List HeapItem
heads n [] = []
heads n (t ∷ ts) = push_next (head? t) n (heads (suc n) ts)

pub push_next_comm :
    (a b : Option IndexEntry) (i j : ℕ) (h : List HeapItem)
    → push_next a i (push_next b j h) ≡ push_next b j (push_next a i h)
push_next_comm none b i j h = refl
push_next_comm (some x) none i j h = refl
push_next_comm (some x) (some y) i j h = insert_sorted_comm (item x i) (item y j) h

-- The item of one run can be added last.
pub heads-set :
    (n i : ℕ) (ts : List (List IndexEntry)) (t : List IndexEntry)
    → get_elem? ts i ≡ some t
    → heads n ts ≡ push_next (head? t) (n + i) (heads n (set ts i []))
unfolding heads
heads-set n i [] t e = absurd (cc)
heads-set n zero (u ∷ ts) t e =
    let same : u ≡ t = cc in
    let at : n ≡ n + 0 = omega arith in
    ap (λ x. push_next (head? x) n (heads (suc n) ts)) same
    ∙ ap (λ m. push_next (head? t) m (heads (suc n) ts)) at
heads-set n (suc i) (u ∷ ts) t e =
    let at : suc n + i ≡ n + suc i = omega arith in
    ap (push_next (head? u) n) (heads-set (suc n) i ts t e)
    ∙ push_next_comm (head? u) (head? t) n (suc n + i) (heads (suc n) (set ts i []))
    ∙ ap (λ m. push_next (head? t) m (push_next (head? u) n (heads (suc n) (set ts i [])))) at

pub set-set {ℓ} : {A : Type ℓ} (xs : List A) (i : ℕ) (a b : A) → set (set xs i a) i b ≡ set xs i b
set-set [] i a b = refl
set-set (x ∷ xs) zero a b = refl
set-set (x ∷ xs) (suc i) a b = ap (◌∷◌ x) (set-set xs i a b)

-- The first item of the heap is the first entry of its run.
pub heads-front :
    (n : ℕ) (ts : List (List IndexEntry)) (top : HeapItem) (heap : List HeapItem)
    → heads n ts ≡ top ∷ heap
    → (i : ℕ) × (rest : List IndexEntry) × (get_elem? ts i ≡ some (top.entry ∷ rest))
      × (top.run_idx ≡ n + i)
unfolding heads insert_sorted
heads-front n [] top heap e = absurd (cc)
heads-front n ([] ∷ ts) top heap e =
    let (i, rest, g, q) = heads-front (suc n) ts top heap e in (suc i, rest, g, omega (arith, q))
heads-front n ((x ∷ xs) ∷ ts) top heap e = elim (List-cases (heads (suc n) ts)) [
  | inl z ↦
      let h : item x n ∷ [] ≡ top ∷ heap = ap (insert_sorted (item x n)) (sym z) ∙ e in first (cc h)
  | inr (b, bs, z) ↦
      elim (insert_sorted-front (item x n) b top bs heap
        (ap (insert_sorted (item x n)) (sym z) ∙ e)) [
          | inl (t, same) ↦ first same
          | inr (t, same) ↦
              let (i, rest, g, q) = heads-front (suc n) ts top bs (z ∙ ap (λ k. k ∷ bs) same) in
              (suc i, rest, g, omega (arith, q))
        ]
]
  where
    first :
        item x n ≡ top
        → (i : ℕ) × (rest : List IndexEntry) × (get_elem? ((x ∷ xs) ∷ ts) i
            ≡ some (top.entry ∷ rest))
          × (top.run_idx ≡ n + i)
    first same = (
      zero,
      xs,
      ap (λ (k : HeapItem). some (k.entry ∷ xs)) same,
      ap (λ (k : HeapItem). k.run_idx) (sym same) ∙ omega arith,
    )

-- The first of what is left of a run can be taken out first.
pub joined-set :
    (i : ℕ) (ts : List (List IndexEntry)) (x : IndexEntry) (rest : List IndexEntry)
    → get_elem? ts i ≡ some (x ∷ rest)
    → sort (joined ts) ≡ insert_sorted x (sort (joined (set ts i rest)))
unfolding joined insert_sorted sort
joined-set i [] x rest e = absurd (cc)
joined-set zero (t ∷ ts) x rest e =
    let same : t ≡ x ∷ rest = cc in ap (λ u. sort (u ++ joined ts)) same
joined-set (suc i) (t ∷ ts) x rest e =
    sort-append t (joined ts)
    ∙ ap (sort_onto t) (joined-set i ts x rest e)
    ∙ sort_onto-insert_sorted x t (sort (joined (set ts i rest)))
    ∙ ap (insert_sorted x) (sym (sort-append t (joined (set ts i rest))))

-- An entry at most the first entries of sorted lists is at most all entries.
pub ascending-All :
    (x y : IndexEntry) (rest : List IndexEntry)
    → entry_le x y ≡ true
    → ascending (y ∷ rest) ≡ true
    → All (λ z. entry_le x z ≡ true) (y ∷ rest)
unfolding ascending
ascending-All x y [] e h = (e, tt)
ascending-All x y (z ∷ rest) e h =
    let below : entry_le y z ≡ true = ground (arith, h) in
    (e, ascending-All x z rest (entry_key.le_trans x y z e below) (ground (arith, h)))

-- Nothing is left, or its first entry is at least `x`.
abbrev pub FirstAbove : IndexEntry → List IndexEntry → Type 0
FirstAbove x [] = Unit
FirstAbove x (y ∷ ys) = entry_le x y ≡ true

entry_le_of_item : (a b : HeapItem) → item_key.le a b ≡ true → entry_le a.entry b.entry ≡ true
entry_le_of_item a b h = ground (arith, entry_key.same_eq a.entry b.entry, le_refl b.entry)

FirstAbove-trans :
    (x y : IndexEntry) (ts : List (List IndexEntry))
    → entry_le x y ≡ true
    → All (FirstAbove y) ts
    → All (FirstAbove x) ts
FirstAbove-trans x y [] e h = tt
FirstAbove-trans x y ([] ∷ ts) e h = (tt, FirstAbove-trans x y ts e h.1)
FirstAbove-trans x y ((z ∷ t) ∷ ts) e h =
    (entry_key.le_trans x y z e h.0, FirstAbove-trans x y ts e h.1)

insert_sorted-ne-nil : (a : HeapItem) (h : List HeapItem) → insert_sorted a h ≡ [] → ⊥
unfolding insert_sorted
insert_sorted-ne-nil a [] e = cc
insert_sorted-ne-nil a (b ∷ h) e = ground arith

pub heads_none : (n : ℕ) (ts : List (List IndexEntry)) → heads n ts ≡ [] → All (λ t. t ≡ []) ts
unfolding heads
heads_none n [] e = tt
heads_none n ([] ∷ ts) e = (refl, heads_none (suc n) ts e)
heads_none n ((x ∷ xs) ∷ ts) e = absurd (insert_sorted-ne-nil (item x n) (heads (suc n) ts) e)

empty-FirstAbove :
    (x : IndexEntry) (ts : List (List IndexEntry)) → All (λ t. t ≡ []) ts → All (FirstAbove x) ts
empty-FirstAbove x [] h = tt
empty-FirstAbove x (t ∷ ts) h = (subst (FirstAbove x) (sym h.0) tt, empty-FirstAbove x ts h.1)

-- The first item of the heap is at most the first entries of all runs.
pub heads-FirstAbove :
    (n : ℕ) (ts : List (List IndexEntry)) (top : HeapItem) (heap : List HeapItem)
    → heads n ts ≡ top ∷ heap
    → All (FirstAbove top.entry) ts
unfolding heads insert_sorted
heads-FirstAbove n [] top heap e = absurd (cc)
heads-FirstAbove n ([] ∷ ts) top heap e = (tt, heads-FirstAbove (suc n) ts top heap e)
heads-FirstAbove n ((x ∷ xs) ∷ ts) top heap e = elim (List-cases (heads (suc n) ts)) [
  | inl z ↦
      let h : item x n ∷ [] ≡ top ∷ heap = ap (insert_sorted (item x n)) (sym z) ∙ e in
      let same : item x n ≡ top = (cc h) in
      subst (λ (k : HeapItem). All (FirstAbove k.entry) ((x ∷ xs) ∷ ts)) same
        (le_refl x, empty-FirstAbove x ts (heads_none (suc n) ts z))
  | inr (b, bs, z) ↦
      let below = heads-FirstAbove (suc n) ts b bs z in
      elim (insert_sorted-front (item x n) b top bs heap
        (ap (insert_sorted (item x n)) (sym z) ∙ e)) [
          | inl (t, same) ↦
              subst (λ (k : HeapItem). All (FirstAbove k.entry) ((x ∷ xs) ∷ ts)) same
                (le_refl x, FirstAbove-trans x b.entry ts (entry_le_of_item (item x n) b t) below)
          | inr (t, same) ↦
              subst (λ (k : HeapItem). All (FirstAbove k.entry) ((x ∷ xs) ∷ ts)) same
                (entry_le_of_item b (item x n) (item_key.le_total (item x n) b t), below)
        ]
]

pub joined-All_le :
    (x : IndexEntry) (ts : List (List IndexEntry))
    → All (FirstAbove x) ts
    → All (λ t. ascending t ≡ true) ts
    → All (λ z. entry_le x z ≡ true) (joined ts)
unfolding joined
joined-All_le x [] h k = tt
joined-All_le x ([] ∷ ts) h k = joined-All_le x ts h.1 k.1
joined-All_le x ((y ∷ t) ∷ ts) h k =
    All-append (λ z. entry_le x z ≡ true) (y ∷ t) (joined ts) (ascending-All x y t h.0 k.0)
      (joined-All_le x ts h.1 k.1)
