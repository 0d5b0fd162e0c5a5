-- ===== src/Index/Merging.antt =====
-- crates/sitas-core/src/mailbox_index.rs, verify_runs: the merge of sorted runs is the sort of all
-- entries.
use mathlib.Core.Path.{subst}
use sitas.Common.{
  ℕ, zero, suc, ◌+◌, ◌<◌, ◌≡◌, refl, sym, ap, ◌∙◌, true, some, List, [], ◌∷◌, ◌++◌, length,
  get_elem?, set, drop, All, All-append, arith, append-nil, append_assoc, length-append,
  get_elem?-set_self, get_elem?-lt,
}
use sitas.Kv.Keys.{insert_sorted, sort}
use sitas.Kv.Keys.Sorting.{insert_sorted_front_inj}
use sitas.Kv.Keys.Least.{sort-All, insert_sorted_least}
use sitas.Index.Entry.{IndexEntry, HeapItem, entry_le, entry_key, item_key}
use sitas.Index.Assembler.{RunResult}
use sitas.Index.Coordinator.{item, push_next, merge, ascending}
use sitas.Index.Heads.{
  tails, joined, head?, heads, heads-set, set-set, heads-front, joined-set, heads_none,
  heads-FirstAbove, joined-All_le,
}

tails-at :
    (i : ℕ) (runs : List RunResult) (cursor : List ℕ) (t : List IndexEntry)
    → get_elem? (tails runs cursor) i ≡ some t
    → (run : RunResult) × (at : ℕ) × (get_elem? runs i ≡ some run)
      × (get_elem? cursor i ≡ some at)
      × (drop at run.entries ≡ t)
unfolding tails
tails-at i [] cursor t e = absurd (cc)
tails-at i (run ∷ runs) [] t e = absurd (cc)
tails-at zero (run ∷ runs) (at ∷ cursor) t e = (run, at, refl, refl, (cc))
tails-at (suc i) (run ∷ runs) (at ∷ cursor) t e = tails-at i runs cursor t e

tails-set :
    (i at : ℕ) (runs : List RunResult) (cursor : List ℕ) (run : RunResult)
    → get_elem? runs i ≡ some run
    → tails runs (set cursor i at) ≡ set (tails runs cursor) i (drop at run.entries)
unfolding tails
tails-set i at [] cursor run e = refl
tails-set i at (r ∷ runs) [] run e = refl
tails-set zero at (r ∷ runs) (c ∷ cursor) run e =
    let same : r ≡ run = cc in ap (λ (u : RunResult). drop at u.entries ∷ tails runs cursor) same
tails-set (suc i) at (r ∷ runs) (c ∷ cursor) run e =
    ap (◌∷◌ (drop c r.entries)) (tails-set i at runs cursor run e)

drop_next :
    (at : ℕ) (xs : List IndexEntry) (x : IndexEntry) (rest : List IndexEntry)
    → drop at xs ≡ x ∷ rest
    → (drop (suc at) xs ≡ rest) × (get_elem? xs (suc at) ≡ head? rest)
drop_next zero [] x rest e = absurd (cc)
drop_next zero (y ∷ []) x rest e = let same : [] ≡ rest = cc in (same, ap head? same)
drop_next zero (y ∷ z ∷ ys) x rest e = let same : z ∷ ys ≡ rest = cc in (same, ap head? same)
drop_next (suc at) [] x rest e = absurd (cc)
drop_next (suc at) (y ∷ ys) x rest e = drop_next at ys x rest e

All-set {ℓ κ} :
    {A : Type ℓ} (P : A → Type κ) (xs : List A) (i : ℕ) (a : A)
    → All P xs
    → P a
    → All P (set xs i a)
All-set P [] i a h p = tt
All-set P (x ∷ xs) zero a h p = (p, h.1)
All-set P (x ∷ xs) (suc i) a h p = (h.0, All-set P xs i a h.1 p)

All-get {ℓ κ} :
    {A : Type ℓ} (P : A → Type κ) (xs : List A) (i : ℕ) (a : A)
    → get_elem? xs i ≡ some a
    → All P xs
    → P a
All-get P [] i a e h = absurd (cc)
All-get P (x ∷ xs) zero a e h = let same : x ≡ a = cc in subst P same h.0
All-get P (x ∷ xs) (suc i) a e h = All-get P xs i a e h.1

ascending_tail :
    (x : IndexEntry) (rest : List IndexEntry) → ascending (x ∷ rest) ≡ true → ascending rest ≡ true
unfolding ascending
ascending_tail x [] h = refl
ascending_tail x (y ∷ rest) h = ground (arith, h)

All-split {ℓ κ} :
    {A : Type ℓ} (P : A → Type κ) (xs ys : List A) → All P (xs ++ ys) → All P xs × All P ys
All-split P [] ys h = (tt, h)
All-split P (x ∷ xs) ys h = let r = All-split P xs ys h.1 in ((h.0, r.0), r.1)

joined-set-All {κ} :
    (P : IndexEntry → Type κ) (i : ℕ) (ts : List (List IndexEntry)) (x : IndexEntry)
    (rest : List IndexEntry)
    → get_elem? ts i ≡ some (x ∷ rest)
    → All P (joined ts)
    → All P (joined (set ts i rest)) × (length (joined ts) ≡ suc (length (joined (set ts i rest))))
unfolding joined
joined-set-All P i [] x rest e h = absurd (cc)
joined-set-All P zero (t ∷ ts) x rest e h =
    let same : t ≡ x ∷ rest = cc in
    ((subst (λ u. All P (u ++ joined ts)) same h).1, ap (λ u. length (u ++ joined ts)) same)
joined-set-All P (suc i) (t ∷ ts) x rest e h =
    let parts = All-split P t (joined ts) h in
    let (later, n) = joined-set-All P i ts x rest e parts.1 in
    (
      All-append P t (joined (set ts i rest)) parts.0 later,
      omega (arith, n, length-append t (joined ts), length-append t (joined (set ts i rest))),
    )

joined-empty : (ts : List (List IndexEntry)) → All (λ t. t ≡ []) ts → joined ts ≡ []
unfolding joined
joined-empty [] h = refl
joined-empty (t ∷ ts) h = ap (λ u. u ++ joined ts) h.0 ∙ joined-empty ts h.1

merge-cons :
    (fuel at : ℕ) (runs : List RunResult) (run : RunResult) (top : HeapItem) (heap : List HeapItem)
    (cursor : List ℕ) (merged : List IndexEntry)
    → get_elem? cursor top.run_idx ≡ some at
    → get_elem? runs top.run_idx ≡ some run
    → merge (suc fuel) runs (top ∷ heap) cursor merged
      ≡ merge fuel runs
          (push_next (get_elem? run.entries (suc at)) top.run_idx heap)
          (set cursor top.run_idx (suc at))
          (merged ++ top.entry ∷ [])
unfolding merge
merge-cons fuel at runs run top heap cursor merged e f = rw (e, f, merge) refl

-- The heap after its first item was replaced by the next entry of the same run.
heap_next :
    (ts : List (List IndexEntry)) (top : HeapItem) (heap : List HeapItem) (rest : List IndexEntry)
    → heads 0 ts ≡ top ∷ heap
    → get_elem? ts top.run_idx ≡ some (top.entry ∷ rest)
    → push_next (head? rest) top.run_idx heap ≡ heads 0 (set ts top.run_idx rest)
heap_next ts top heap rest e g =
    let i = top.run_idx in
    let zero_add : 0 + i ≡ i = omega arith in
    let others = heads 0 (set ts i []) in
    let taken : insert_sorted top others ≡ top ∷ heap =
      ap (λ n. insert_sorted (item top.entry n) others) (sym zero_add)
      ∙ sym (heads-set 0 i ts (top.entry ∷ rest) g)
      ∙ e in
    let same : others ≡ heap = insert_sorted_front_inj top heap others taken in
    ap (push_next (head? rest) i) (sym same)
    ∙ ap (λ n. push_next (head? rest) n others) (sym zero_add)
    ∙ ap (λ u. push_next (head? rest) (0 + i) (heads 0 u)) (sym (set-set ts i rest []))
    ∙ sym (
        heads-set 0 i (set ts i rest) rest
          (get_elem?-set_self ts i rest (get_elem?-lt ts i (top.entry ∷ rest) g)))

-- The least entry comes first, and then the others.
sort_next :
    (ts : List (List IndexEntry)) (top : HeapItem) (heap : List HeapItem) (rest : List IndexEntry)
    → heads 0 ts ≡ top ∷ heap
    → get_elem? ts top.run_idx ≡ some (top.entry ∷ rest)
    → All (λ t. ascending t ≡ true) ts
    → (sort (joined ts) ≡ top.entry ∷ sort (joined (set ts top.run_idx rest)))
      × (length (joined ts) ≡ suc (length (joined (set ts top.run_idx rest))))
sort_next ts top heap rest e g a =
    let P : IndexEntry → Type 0 = λ z. entry_le top.entry z ≡ true in
    let later = joined (set ts top.run_idx rest) in
    let above = joined-All_le top.entry ts (heads-FirstAbove 0 ts top heap e) a in
    let (below, n) = joined-set-All P top.run_idx ts top.entry rest g above in
    (
      joined-set top.run_idx ts top.entry rest g
          ∙ insert_sorted_least top.entry (sort later) (sort-All P later below),
      n,
    )

-- With enough fuel the merge ends, without a panic.
pub merge_lem :
    (fuel : ℕ) (runs : List RunResult) (heap : List HeapItem) (cursor : List ℕ)
    (merged : List IndexEntry)
    → heap ≡ heads 0 (tails runs cursor)
    → All (λ t. ascending t ≡ true) (tails runs cursor)
    → length (joined (tails runs cursor)) < fuel
    → merge fuel runs heap cursor merged ≡ some (merged ++ sort (joined (tails runs cursor)))
unfolding merge sort
merge_lem zero runs heap cursor merged e a l = absurd (omega arith)
merge_lem (suc fuel) runs [] cursor merged e a l =
    rw
      (
        joined-empty (tails runs cursor) (heads_none 0 (tails runs cursor) (sym e)),
        append-nil merged,
      )
      refl
merge_lem (suc fuel) runs (top ∷ heap) cursor merged e a l =
    let ts = tails runs cursor in
    let (i, rest, g', q) = heads-front 0 ts top heap (sym e) in
    let idx : i ≡ top.run_idx = omega (arith, q) in
    let g : get_elem? ts top.run_idx ≡ some (top.entry ∷ rest) =
      subst (λ k. get_elem? ts k ≡ some (top.entry ∷ rest)) idx g' in
    let (run, at, r, c, d) = tails-at top.run_idx runs cursor (top.entry ∷ rest) g in
    let (d', n) = drop_next at run.entries top.entry rest d in
    let t : tails runs (set cursor top.run_idx (suc at)) ≡ set ts top.run_idx rest =
      tails-set top.run_idx (suc at) runs cursor run r ∙ ap (set ts top.run_idx) d' in
    let (least, len) = sort_next ts top heap rest (sym e) g a in
    let sorted = All-get (λ u. ascending u ≡ true) ts top.run_idx (top.entry ∷ rest) g a in
    merge-cons fuel at runs run top heap cursor merged c r
    ∙ merge_lem fuel runs (push_next (get_elem? run.entries (suc at)) top.run_idx heap)
        (set cursor top.run_idx (suc at)) (merged ++ top.entry ∷ [])
        (ap (λ o. push_next o top.run_idx heap) n
          ∙ heap_next ts top heap rest (sym e) g
          ∙ ap (heads 0) (sym t))
        (subst (All (λ u. ascending u ≡ true)) (sym t) (
          All-set (λ u. ascending u ≡ true) ts top.run_idx rest a
            (ascending_tail top.entry rest sorted)))
        (omega (arith, l, len, ap (λ u. length (joined u)) t))
    ∙ ap (λ u. some ((merged ++ top.entry ∷ []) ++ sort (joined u))) t
    ∙ ap some (append_assoc merged (top.entry ∷ []) (sort (joined (set ts top.run_idx rest))))
    ∙ ap (λ u. some (merged ++ u)) (sym least)
