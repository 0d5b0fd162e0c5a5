-- ===== src/Index/Tests.antt =====
-- Runs of the index of crates/sitas-core/src/mailbox_index.rs, and its theorems at fixed inputs.
use mathlib.Core.Option
use sitas.Common.{
  ℕ, ◌+◌, ◌%◌, ◌≡◌, refl, ◌⊎◌, true, false, some, List, [], ◌∷◌, ok, err, ◌∙◌, append-nil, ap,
  length, ==_refl,
}
use sitas.Kv.Keys.{sort, insert_sorted, nat_key}
use sitas.Index.Entry.{IndexEntry, entry_key}
use sitas.Index.Records.{record_count, record_key, work_unit_shard}
use sitas.Index.Scanner.{record_entry}
use sitas.Index.Assembler.{RunResult}
use sitas.Index.Coordinator.{
  verify_runs, offsets_xor, expected_xor, all_ascending, ascending, is_range,
}
use sitas.Index.Build.{Schedule, build_index_with_mailboxes, mailbox_index_test}
use sitas.Index.Verification.{
  Verified, verify_runs_lem, all_entries, ascending-sort, length-sort, offsets_xor-sort,
}
use sitas.Index.Batches.{records_from}
use sitas.Index.Arrival.{offsets_xor-records, length-records_from}
use sitas.Index.EndToEnd.{build_verifies, Verified-ok}

-- The messages of the two producers alternate at the first assembler.
abbrev some_schedule : Schedule
some_schedule = record {
  first = true ∷ false ∷ true ∷ [];
  second = [];
  third = false ∷ [];
  results = false ∷ [];
  later_results = true ∷ [];
}

abbrev some_bytes : ℕ → List ℕ
some_bytes key = key % 256 ∷ 7 ∷ []

build_verifies_example :
    (build_index_with_mailboxes some_bytes some_schedule ≡ some (ok record_count))
    × (Option.map mailbox_index_test (build_index_with_mailboxes some_bytes some_schedule)
        ≡ some 1024)
build_verifies_example = build_verifies some_bytes some_schedule

shards_of_assemblers : (work_unit_shard 0 ≡ 0) × (work_unit_shard 1 ≡ 1) × (work_unit_shard 2 ≡ 0)
unfolding work_unit_shard
shards_of_assemblers = (refl, refl, refl)

-- An index in which the records 4 and 5 occur three times each, and 0, 1, 2 and 3 do not occur.
unfoldable incomplete : List IndexEntry
incomplete = record_entry 4 ∷ record_entry 4 ∷ record_entry 5 ∷ record_entry 5 ∷ records_from 4 1020

unfoldable incomplete_runs : List RunResult
unfolding incomplete
incomplete_runs =
    record { work_unit = 0; entries = sort incomplete }
    ∷ record { work_unit = 1; entries = [] }
    ∷ record { work_unit = 2; entries = [] }
    ∷ []

incomplete_xor : offsets_xor 0 incomplete ≡ some (expected_xor 0 0 record_count)
unfolding incomplete offsets_xor expected_xor
incomplete_xor = rw (==_refl (record_key 4), ==_refl (record_key 5)) (offsets_xor-records 0 4 1020)

incomplete_entries : all_entries incomplete_runs ≡ sort incomplete
unfolding all_entries incomplete_runs
incomplete_entries = append-nil (sort incomplete)

incomplete-length : length incomplete ≡ record_count
unfolding incomplete records_from
incomplete-length = ap (λ n. 4 + n) (length-records_from 4 1020)

incomplete-Verified : Verified incomplete_runs
unfolding incomplete_runs all_ascending ascending is_range sort insert_sorted
incomplete-Verified = record {
  sorted = rw (ascending-sort incomplete) refl;
  complete = ap length incomplete_entries ∙ length-sort incomplete ∙ incomplete-length;
  units = refl;
  offsets = ap (offsets_xor 0) incomplete_entries ∙ offsets_xor-sort 0 incomplete ∙ incomplete_xor;
}

-- The coordinator accepts it.
incomplete_accepted : verify_runs incomplete_runs ≡ some (ok record_count)
incomplete_accepted = Verified-ok incomplete_runs incomplete-Verified

verify_runs_lem_example :
    ((verify_runs incomplete_runs ≡ some (ok record_count)) × Verified incomplete_runs)
    ⊎ ((verify_runs incomplete_runs ≡ some (err tt)) × ¬ Verified incomplete_runs)
verify_runs_lem_example = verify_runs_lem incomplete_runs
