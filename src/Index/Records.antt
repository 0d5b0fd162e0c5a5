-- ===== src/Index/Records.antt =====
-- crates/sitas-core/src/mailbox_index.rs: the constants, the keys of the records and their parts.
use Prim.Native.Nat.{bit_xor}
use sitas.Common.{ℕ, ◌+◌, ◌*◌, ◌/◌, ◌%◌, ◌^◌, min, ltb, if◌then◌else◌, word, add_word, ◌==◌, ◌-◌}

abbrev pub record_count : ℕ
record_count = 1024

abbrev pub shard_count : ℕ
shard_count = 2

abbrev pub assembler_count : ℕ
assembler_count = 3

abbrev seed : ℕ
seed = 0x517a5eed

abbrev pub send_batch_entries : ℕ
send_batch_entries = 32

pub splitmix64 : ℕ → ℕ
splitmix64 value =
    let a = add_word value 0x9E3779B97F4A7C15 in
    let b = bit_xor a (a / 2 ^ 30) * 0xBF58476D1CE4E5B9 % word in
    let c = bit_xor b (b / 2 ^ 27) * 0x94D049BB133111EB % word in bit_xor c (c / 2 ^ 31)

pub record_key : ℕ → ℕ
unfolding splitmix64
record_key record_idx = splitmix64 (bit_xor seed (record_idx * 0x9E3779B97F4A7C15 % word))

-- The first record of a shard's part, and the one after its last.
unfoldable pub partition_for : ℕ → ℕ → ℕ → ℕ × ℕ
partition_for shard_idx shards records =
    let base = records / shards in
    let remainder = records % shards in
    let start = shard_idx * base + min shard_idx remainder in
    let len = base + (if ltb shard_idx remainder then 1 else 0) in (start, start + len)

-- The shard of an assembler.
unfoldable pub work_unit_shard : ℕ → ℕ
work_unit_shard work_unit = if work_unit == assembler_count - 1 then 0 else work_unit % shard_count
