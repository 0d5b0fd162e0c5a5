-- ===== src/Runtime/Config.antt =====
-- crates/sitas-core/src/error.rs, and of crates/sitas-core/src/runtime.rs the configuration.
use sitas.Common.{ℕ, Bool, Result, ok, err, ◌==◌, if◌then◌else◌}

-- The reason of the four errors on placement is a text, which nothing here reads.
pub data ShardError : Type 0 where
  invalid_shard_count invalid_mailbox_capacity : ShardError
  invalid_shard_id : ℕ → ShardError
  invalid_cpu_placement cpu_placement_failed : ShardError
  invalid_memory_placement memory_placement_failed : ShardError
  mailbox_full send_failed reply_failed reply_timeout shard_stopped thread_join_failed : ShardError

abbrev pub default_mailbox_capacity : ℕ
default_mailbox_capacity = 1024

pub record ShardConfig : Type 0 where
  pub shard_count : ℕ
  pub mailbox_capacity : ℕ

pub new_config : ℕ → ShardConfig
new_config shard_count = record {
  shard_count = shard_count;
  mailbox_capacity = default_mailbox_capacity;
}

pub with_mailbox_capacity : ℕ → ShardConfig → ShardConfig
with_mailbox_capacity mailbox_capacity c = record c { mailbox_capacity = mailbox_capacity }

unfoldable pub validate : ShardConfig → Result ShardConfig ShardError
validate c =
    if c.shard_count == 0
    then err invalid_shard_count
    else if c.mailbox_capacity == 0
    then err invalid_mailbox_capacity
    else ok c

pub record RuntimeSnapshot : Type 0 where
  pub shard_count : ℕ
  pub mailbox_capacity : ℕ
  pub stopped : Bool
