-- ===== src/Index/Scanner.antt =====
-- crates/sitas-core/src/mailbox_index.rs, run_scanner_shard: what a scanner sends, in order, each
-- message with its assembler. `send_message` tries again until the mailbox takes the message.
-- `none` is a panic.
use sitas.Common.{
  ℕ, zero, suc, ◌+◌, ◌-◌, Option, none, some, List, [], ◌∷◌, ◌++◌, length, get_elem?, set,
  replicate, is_empty, ◌==◌, if◌then◌else◌,
}
use sitas.Placement.{shard_for_hash}
use sitas.Index.Entry.{IndexEntry}
use sitas.Index.Records.{
  record_count, shard_count, assembler_count, send_batch_entries, record_key, partition_for,
}

pub data IndexMessage : Type 0 where
  entries : ℕ → List IndexEntry → IndexMessage
  producer_done : ℕ → IndexMessage

-- The batches, one for each assembler, and the messages sent so far.
pub record Scan : Type 0 where
  pub batches : List (List IndexEntry)
  pub sent : List (ℕ × IndexMessage)

-- The entry of a record is added to the batch of its assembler; a full batch is sent.
unfoldable pub add_entry : ℕ → ℕ → IndexEntry → List IndexEntry → Scan → Scan
add_entry shard_id assembler entry batch s =
    let grown = batch ++ entry ∷ [] in
    if length grown == send_batch_entries
    then record {
      batches = set s.batches assembler [];
      sent = s.sent ++ (assembler, entries shard_id grown) ∷ [];
    }
    else record s { batches = set s.batches assembler grown }

abbrev pub record_entry : ℕ → IndexEntry
record_entry record_idx = record { key = record_key record_idx; offset = record_idx }

-- The trailing batches from the assembler `n` on.
unfoldable pub flush : ℕ → ℕ → List (List IndexEntry) → List (ℕ × IndexMessage)
flush shard_id n [] = []
flush shard_id n (batch ∷ rest) =
    let later = flush shard_id (n + 1) rest in
    if is_empty batch then later else (n, entries shard_id batch) ∷ later

-- The last message to each of `count` assemblers, from the assembler `n` on.
unfoldable pub finish : ℕ → ℕ → ℕ → List (ℕ × IndexMessage)
finish shard_id n zero = []
finish shard_id n (suc count) = (n, producer_done shard_id) ∷ finish shard_id (n + 1) count

-- `bytes` is what the hash of a key writes.
module _ (bytes : ℕ → List ℕ) where
  unfoldable pub scan_record : ℕ → ℕ → Scan → Option Scan
  unfolding add_entry
  scan_record shard_id record_idx s =
      elim (shard_for_hash bytes (record_key record_idx) assembler_count) [
        | none ↦ none
        | some assembler ↦ elim (get_elem? s.batches assembler) [
          | none ↦ none
          | some batch ↦ some (add_entry shard_id assembler (record_entry record_idx) batch s)
        ]
      ]

  -- `count` records from `record_idx` on.
  unfoldable pub scan_records : ℕ → ℕ → ℕ → Scan → Option Scan
  scan_records shard_id record_idx zero s = some s
  scan_records shard_id record_idx (suc count) s = elim (scan_record shard_id record_idx s) [
    | none ↦ none
    | some s' ↦ scan_records shard_id (record_idx + 1) count s'
  ]

  unfoldable pub run_scanner_shard : ℕ → Option (List (ℕ × IndexMessage))
  unfolding scan_records flush finish
  run_scanner_shard shard_idx =
      let part = partition_for shard_idx shard_count record_count in
      elim (scan_records shard_idx part.0 (part.1 - part.0)
        (record { batches = replicate assembler_count []; sent = [] })) [
          | none ↦ none
          | some s ↦
              some (s.sent ++ (flush shard_idx 0 s.batches ++ finish shard_idx 0 assembler_count))
        ]
