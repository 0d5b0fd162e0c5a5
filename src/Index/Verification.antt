-- ===== src/Index/Verification.antt =====
-- crates/sitas-core/src/mailbox_index.rs, verify_runs: which runs it accepts.
use Prim.Native.Nat.{bit_xor}
use sitas.Common.{
  ℕ, suc, ◌≡◌, refl, sym, ap, ◌∙◌, inl, inr, ◌⊎◌, true, false, Option, none, some, List, [], ◌∷◌,
  ◌++◌, map, ok, err, length, get_elem?, replicate, All, Bool-cases, Option-cases, arith, ◌==◌,
  ==_iff, if◌then◌else◌, bit_xor_right_comm, length-append,
}
use sitas.Kv.Keys.{Key, insert_sorted, sort, nat_key}
use sitas.Kv.Keys.Sorting.{length-insert_sorted}
use sitas.Index.Entry.{IndexEntry, HeapItem, entry_key, item_key}
use sitas.Index.Records.{record_count, assembler_count, record_key}
use sitas.Index.Assembler.{RunResult}
use sitas.Index.Coordinator.{
  push_next, merge, ascending, all_ascending, push_firsts, total_entries, offsets_xor, expected_xor,
  is_range, check_offsets, check_merged, verify_runs,
}
use sitas.Index.Heads.{tails, joined, head?, heads, push_next_comm}
use sitas.Index.Merging.{merge_lem}

unfoldable pub all_entries : List RunResult → List IndexEntry
all_entries [] = []
all_entries (run ∷ runs) = run.entries ++ all_entries runs

push_firsts-push_next :
    (o : Option IndexEntry) (i n : ℕ) (runs : List RunResult) (heap : List HeapItem)
    → push_firsts n runs (push_next o i heap) ≡ push_next o i (push_firsts n runs heap)
unfolding push_firsts
push_firsts-push_next o i n [] heap = refl
push_firsts-push_next o i n (run ∷ runs) heap =
    ap (push_firsts (suc n) runs) (push_next_comm (get_elem? run.entries 0) o n i heap)
    ∙ push_firsts-push_next o i (suc n) runs (push_next (get_elem? run.entries 0) n heap)

get_elem?-head? : (xs : List IndexEntry) → get_elem? xs 0 ≡ head? xs
get_elem?-head? [] = refl
get_elem?-head? (x ∷ xs) = refl

push_firsts-heads :
    (n : ℕ) (runs : List RunResult)
    → push_firsts n runs [] ≡ heads n (tails runs (replicate (length runs) 0))
unfolding push_firsts heads tails
push_firsts-heads n [] = refl
push_firsts-heads n (run ∷ runs) =
    push_firsts-push_next (get_elem? run.entries 0) n (suc n) runs []
    ∙ ap (push_next (get_elem? run.entries 0) n) (push_firsts-heads (suc n) runs)
    ∙ ap (λ o. push_next o n (heads (suc n) (tails runs (replicate (length runs) 0))))
        (get_elem?-head? run.entries)

joined-tails :
    (runs : List RunResult) → joined (tails runs (replicate (length runs) 0)) ≡ all_entries runs
unfolding joined tails all_entries
joined-tails [] = refl
joined-tails (run ∷ runs) = ap (λ u. run.entries ++ u) (joined-tails runs)

tails-ascending :
    (runs : List RunResult)
    → all_ascending runs ≡ true
    → All (λ t. ascending t ≡ true) (tails runs (replicate (length runs) 0))
unfolding all_ascending tails
tails-ascending [] h = tt
tails-ascending (run ∷ runs) h = (ground (arith, h), tails-ascending runs (ground (arith, h)))

length-all_entries : (runs : List RunResult) → length (all_entries runs) ≡ total_entries runs
unfolding all_entries total_entries
length-all_entries [] = refl
length-all_entries (run ∷ runs) =
    omega (arith, length-append run.entries (all_entries runs), length-all_entries runs)

-- The merge of sorted runs is checked as the sort of all entries.
verify_runs-merged :
    (runs : List RunResult)
    → all_ascending runs ≡ true
    → verify_runs runs ≡ some (check_merged runs (sort (all_entries runs)))
unfolding verify_runs
verify_runs-merged runs h =
    let start = replicate (length runs) 0 in
    let merged : merge (suc (total_entries runs)) runs (push_firsts 0 runs []) start []
        ≡ some (sort (all_entries runs)) =
      merge_lem (suc (total_entries runs)) runs (push_firsts 0 runs []) start []
        (push_firsts-heads 0 runs) (tails-ascending runs h)
        (omega (arith, ap length (joined-tails runs), length-all_entries runs))
      ∙ ap (λ u. some (sort u)) (joined-tails runs) in
    rw (h, merged, verify_runs) refl

ascending-insert_sorted :
    (a : IndexEntry) (xs : List IndexEntry)
    → ascending xs ≡ true
    → ascending (insert_sorted a xs) ≡ true
unfolding ascending insert_sorted
ascending-insert_sorted a [] h = refl
ascending-insert_sorted a (x ∷ []) h = ground (arith, entry_key.le_total a x)
ascending-insert_sorted a (x ∷ y ∷ rest) h =
    ground (arith, entry_key.le_total a x, ascending-insert_sorted a (y ∷ rest))

pub ascending-sort : (xs : List IndexEntry) → ascending (sort xs) ≡ true
unfolding ascending sort
ascending-sort [] = refl
ascending-sort (x ∷ xs) = ascending-insert_sorted x (sort xs) (ascending-sort xs)

-- The order of the entries makes no difference to the check of their offsets.
offsets_xor-insert_sorted :
    (acc : ℕ) (a : IndexEntry) (xs : List IndexEntry)
    → offsets_xor acc (insert_sorted a xs) ≡ offsets_xor acc (a ∷ xs)
unfolding offsets_xor insert_sorted
offsets_xor-insert_sorted acc a [] = refl
offsets_xor-insert_sorted acc a (x ∷ xs) = ground (
  arith,
  offsets_xor-insert_sorted (bit_xor acc x.offset) a xs,
  bit_xor_right_comm acc x.offset a.offset,
)

pub offsets_xor-sort :
    (acc : ℕ) (xs : List IndexEntry) → offsets_xor acc (sort xs) ≡ offsets_xor acc xs
unfolding offsets_xor sort
offsets_xor-sort acc [] = refl
offsets_xor-sort acc (x ∷ xs) =
    offsets_xor-insert_sorted acc x (sort xs)
    ∙ ap (λ o. if x.key == record_key x.offset then o else none)
        (offsets_xor-sort (bit_xor acc x.offset) xs)

pub length-sort {ℓ} : {K : Type ℓ} ⦃key : Key K⦄ (xs : List K) → length (sort xs) ≡ length xs
unfolding sort
length-sort [] = refl
length-sort (x ∷ xs) = length-insert_sorted x (sort xs) ∙ ap suc (length-sort xs)

-- What the coordinator verifies. The last condition is that each key is the one of the record at
-- its offset, and that the exclusive or of all offsets is that of all records.
pub record Verified (runs : List RunResult) : Type 0 where
  pub sorted : all_ascending runs ≡ true
  pub complete : length (all_entries runs) ≡ record_count
  pub units : is_range 0 assembler_count (sort (map (λ r. r.work_unit) runs)) ≡ true
  pub offsets : offsets_xor 0 (all_entries runs) ≡ some (expected_xor 0 0 record_count)

check_offsets_lem :
    (xs : List IndexEntry)
    → ((check_offsets (sort xs) ≡ true) × (offsets_xor 0 xs ≡ some (expected_xor 0 0 record_count)))
      ⊎ ((check_offsets (sort xs) ≡ false)
          × (offsets_xor 0 xs ≡ some (expected_xor 0 0 record_count) → ⊥))
unfolding check_offsets
check_offsets_lem xs = elim (Option-cases (offsets_xor 0 xs)) [
  | inl e ↦ inr (rw (offsets_xor-sort 0 xs, e, check_offsets) refl, λ h. cc (e, h))
  | inr (x, e) ↦ elim (Bool-cases (x == expected_xor 0 0 record_count)) [
    | inl t ↦ inl (
      rw (offsets_xor-sort 0 xs, e, check_offsets) t,
      e ∙ ap some ((==_iff x (expected_xor 0 0 record_count)).0 t),
    )
    | inr t ↦ inr (
      rw (offsets_xor-sort 0 xs, e, check_offsets) t,
      λ h. different x (expected_xor 0 0 record_count) t (cc (e, h)),
    )
  ]
]
  where
    different : (a b : ℕ) → (a == b) ≡ false → a ≡ b → ⊥
    different a b t q = ground arith

-- The coordinator always ends, without a panic. It accepts the runs, with the number of records,
-- exactly when each run is sorted, the entries are as many as the records, the runs are those of
-- all assemblers, one of each, each key is the one of the record at its offset, and the exclusive
-- or of the offsets is that of all records.
pub verify_runs_lem :
    (runs : List RunResult)
    → ((verify_runs runs ≡ some (ok record_count)) × Verified runs)
      ⊎ ((verify_runs runs ≡ some (err tt)) × ¬ Verified runs)
unfolding verify_runs check_merged
verify_runs_lem runs = elim (Bool-cases (all_ascending runs)) [
  | inr e ↦ inr (rw (e, verify_runs) refl, λ v. cc (e, v.sorted))
  | inl e ↦
      let xs = all_entries runs in
      elim (Bool-cases (length (sort xs) == record_count)) [
        | inr l ↦ inr (
          verify_runs-merged runs e ∙ rw (l, check_merged) refl,
          λ v. ground (arith, l, v.complete, length-sort xs),
        )
        | inl l ↦
            elim (Bool-cases (is_range 0 assembler_count (sort (map (λ r. r.work_unit) runs)))) [
              | inr u ↦ inr (
                verify_runs-merged runs e ∙ rw (l, ascending-sort xs, u, check_merged) refl,
                λ v. cc (u, v.units),
              )
              | inl u ↦ elim (check_offsets_lem xs) [
                | inr o ↦ inr (
                  verify_runs-merged runs e ∙ rw (l, ascending-sort xs, u, o.0, check_merged) refl,
                  λ v. o.1 v.offsets,
                )
                | inl o ↦
                    let n : length (sort xs) ≡ record_count =
                      (==_iff (length (sort xs)) record_count).0 l in
                    inl (
                      verify_runs-merged runs e
                          ∙ rw (l, ascending-sort xs, u, o.0, check_merged)
                              (ap (λ k. some (ok k)) n),
                      record {
                        sorted = e;
                        complete = sym (length-sort xs) ∙ n;
                        units = u;
                        offsets = o.1;
                      },
                    )
              ]
            ]
      ]
]
