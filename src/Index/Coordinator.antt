-- ===== src/Index/Coordinator.antt =====
-- crates/sitas-core/src/mailbox_index.rs, verify_runs: the runs are merged through a heap, and the
-- index is verified. A heap pops its least item, so it is a sorted list.
use Prim.Native.Nat.{bit_xor}
use sitas.Common.{
  ℕ, zero, suc, ◌+◌, Bool, true, false, ◌&&◌, not, Option, none, some, List, [], ◌∷◌, ◌++◌, map,
  length, get_elem?, set, replicate, ◌==◌, if◌then◌else◌, Result, ok, err,
}
use sitas.Kv.Keys.{insert_sorted, sort, nat_key}
use sitas.Index.Entry.{IndexEntry, HeapItem, entry_le, entry_key, item_key}
use sitas.Index.Records.{record_count, assembler_count, record_key}
use sitas.Index.Assembler.{RunResult}

-- No window of two entries is out of order.
unfoldable pub ascending : List IndexEntry → Bool
ascending [] = true
ascending (x ∷ []) = true
ascending (x ∷ y ∷ rest) = entry_le x y && ascending (y ∷ rest)

unfoldable pub all_ascending : List RunResult → Bool
all_ascending [] = true
all_ascending (run ∷ runs) = ascending run.entries && all_ascending runs

abbrev pub item : IndexEntry → ℕ → HeapItem
item entry run_idx = record { entry = entry; run_idx = run_idx }

-- `heap.push` of the entry at a place of a run, if there is one.
abbrev pub push_next : Option IndexEntry → ℕ → List HeapItem → List HeapItem
push_next none run_idx heap = heap
push_next (some entry) run_idx heap = insert_sorted (item entry run_idx) heap

-- The first entries of the runs, from the run `n` on.
unfoldable pub push_firsts : ℕ → List RunResult → List HeapItem → List HeapItem
push_firsts n [] heap = heap
push_firsts n (run ∷ runs) heap =
    push_firsts (suc n) runs (push_next (get_elem? run.entries 0) n heap)

-- The merge, with fuel; `none` is a panic or the end of the fuel.
unfoldable pub merge :
    ℕ → List RunResult → List HeapItem → List ℕ → List IndexEntry → Option (List IndexEntry)
merge zero runs heap cursor merged = none
merge (suc fuel) runs [] cursor merged = some merged
merge (suc fuel) runs (top ∷ heap) cursor merged = elim (get_elem? cursor top.run_idx) [
  | none ↦ none
  | some at ↦ elim (get_elem? runs top.run_idx) [
    | none ↦ none
    | some run ↦
        merge fuel runs (push_next (get_elem? run.entries (suc at)) top.run_idx heap)
          (set cursor top.run_idx (suc at)) (merged ++ top.entry ∷ [])
  ]
]

unfoldable pub total_entries : List RunResult → ℕ
total_entries [] = 0
total_entries (run ∷ runs) = length run.entries + total_entries runs

-- The loop over the merged entries: `none` is a key that is not the one of the record.
unfoldable pub offsets_xor : ℕ → List IndexEntry → Option ℕ
offsets_xor acc [] = some acc
offsets_xor acc (entry ∷ rest) =
    let later = offsets_xor (bit_xor acc entry.offset) rest in
    if entry.key == record_key entry.offset then later else none

-- The loop over `count` records from `record_idx` on.
unfoldable pub expected_xor : ℕ → ℕ → ℕ → ℕ
expected_xor acc record_idx zero = acc
expected_xor acc record_idx (suc count) =
    expected_xor (bit_xor acc record_idx) (record_idx + 1) count

-- `0..count` from `n` on, compared with a list.
unfoldable pub is_range : ℕ → ℕ → List ℕ → Bool
is_range n zero [] = true
is_range n zero (x ∷ xs) = false
is_range n (suc count) [] = false
is_range n (suc count) (x ∷ xs) = (x == n) && is_range (n + 1) count xs

unfoldable pub check_offsets : List IndexEntry → Bool
check_offsets merged = elim (offsets_xor 0 merged) [
  | none ↦ false
  | some x ↦ x == expected_xor 0 0 record_count
]

-- The checks after the merge.
unfoldable pub check_merged : List RunResult → List IndexEntry → Result {0, 0} ℕ Unit
unfolding ascending is_range check_offsets
check_merged runs merged =
    if not (length merged == record_count)
    then err tt
    else if not (ascending merged)
    then err tt
    else if not (is_range 0 assembler_count (sort (map (λ r. r.work_unit) runs)))
    then err tt
    else if check_offsets merged
    then ok (length merged)
    else err tt

-- The outer option is `none` where the merge panics or runs out of fuel.
unfoldable pub verify_runs : List RunResult → Option (Result {0, 0} ℕ Unit)
unfolding all_ascending push_firsts merge total_entries
verify_runs runs =
    if not (all_ascending runs)
    then some (err tt)
    else elim (merge (suc (total_entries runs)) runs (push_firsts 0 runs [])
        (replicate (length runs) 0) []) [
          | none ↦ none
          | some merged ↦ some (check_merged runs merged)
        ]
