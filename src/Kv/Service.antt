-- ===== src/Kv/Service.antt =====
-- crates/sitas-core/src/kv_service.rs: the commands of a shard, the loop body that serves them,
-- and the calls of `ShardedKv`. A blocking call such as `put` is `submit_put` followed by a wait
-- on its reply.
pub mod Collect
pub mod Errors
use sitas.Common.{
  ℕ, Bool, true, false, Option, none, some, List, [], ◌∷◌, Result, ok, err, Poll, ready, pending,
  length, if◌then◌else◌,
}
use sitas.Runtime.Config.{
  ShardConfig, ShardError, RuntimeSnapshot, new_config, validate, shard_stopped,
}
use sitas.Runtime.Shards
use sitas.Runtime.Shards.{Shard, ShardSet}
use sitas.Kv.Keys.{Key}
use sitas.Kv.Map
use sitas.Kv.Map.{KvService}

-- The reply sender of a command is its index, which the mailbox keeps.
pub data KvCommand {ℓ κ} (K : Type ℓ) (T : Type κ) : Type (ℓ ⊔ κ) where
  get delete : K → KvCommand K T
  put get_or_put : K → T → KvCommand K T
  compare_and_put : K → Option T → T → KvCommand K T
  len keys stop : KvCommand K T

-- The values of the replies, which have one type for each command.
pub data KvValue {ℓ κ} (K : Type ℓ) (T : Type κ) : Type (ℓ ⊔ κ) where
  found : Option T → KvValue K T
  replaced : Bool → KvValue K T
  text : T → KvValue K T
  size : ℕ → KvValue K T
  names : List K → KvValue K T
  done : KvValue K T

pub record ShardedKvConfig : Type 0 where
  pub shard_count : ℕ
  pub mailbox_capacity : ℕ

-- `impl From<ShardConfig>`
pub from_config : ShardConfig → ShardedKvConfig
from_config c = record { shard_count = c.shard_count; mailbox_capacity = c.mailbox_capacity }

pub new_kv_config : ℕ → ShardedKvConfig
unfolding from_config
new_kv_config shard_count = from_config (new_config shard_count)

unfoldable pub runtime_config : ShardedKvConfig → Result ShardConfig ShardError
runtime_config c =
    validate (record { shard_count = c.shard_count; mailbox_capacity = c.mailbox_capacity })

pub record ShardedKv {ℓ κ} (K : Type ℓ) (T : Type κ) : Type (ℓ ⊔ κ) where
  pub shards : ShardSet (KvService K T) (KvCommand K T) (KvValue K T)
  pub stopped : Bool

module _ {ℓ κ} {K : Type ℓ} {T : Type κ} where
  -- The commands that leave the loop of `run_kv_shard`.
  unfoldable pub ends : KvCommand K T → Bool
  ends stop = true
  ends c = false

  unfoldable pub start_with_placement :
      ShardedKvConfig → Result {ℓ ⊔ κ, 0} (ShardedKv K T) ShardError
  start_with_placement c = elim (runtime_config c) [
    | err e ↦ err e
    | ok config ↦ ok record {
      shards = Shards.start Map.new config.shard_count config.mailbox_capacity;
      stopped = false;
    }
  ]

  unfoldable pub shard_count : ShardedKv K T → ℕ
  shard_count kv = length kv.shards.handles

  pub runtime_snapshot : ShardedKv K T → RuntimeSnapshot
  runtime_snapshot kv = Shards.snapshot kv.stopped kv.shards

  unfoldable pub ensure_running : ShardedKv K T → Result {0, 0} Unit ShardError
  ensure_running kv = if kv.stopped then err shard_stopped else ok tt

  -- A handle is looked up for a call on it: here with its index.
  unfoldable pub shard :
      ℕ → ShardedKv K T → Result (ℕ × Shard (KvService K T) (KvCommand K T)) ShardError
  shard i kv = elim (ensure_running kv) [
    | err e ↦ err e
    | ok u ↦ elim (Shards.get_by_id i kv.shards) [ err e ↦ err e | ok handle ↦ ok (i, handle) ]
  ]

  -- `?` on a handle, then a request on its mailbox.
  unfoldable pub submit_to :
      Result (ℕ × Shard (KvService K T) (KvCommand K T)) ShardError
      → KvCommand K T
      → ShardedKv K T
      → Poll (Result ℕ ShardError) × ShardedKv K T
  submit_to (err e) c kv = (ready (err e), kv)
  submit_to (ok handle) c kv =
      let sent = Shards.request handle.0 handle.1 c kv.shards in
      (sent.0, record kv { shards = sent.1 })

  unfoldable pub try_submit_to :
      Result (ℕ × Shard (KvService K T) (KvCommand K T)) ShardError
      → KvCommand K T
      → ShardedKv K T
      → Result ℕ ShardError × ShardedKv K T
  try_submit_to (err e) c kv = (err e, kv)
  try_submit_to (ok handle) c kv =
      let sent = Shards.try_request handle.0 handle.1 c kv.shards in
      (sent.0, record kv { shards = sent.1 })

  unfoldable pub submit_len_on_shard :
      ℕ → ShardedKv K T → Poll (Result ℕ ShardError) × ShardedKv K T
  submit_len_on_shard i kv = submit_to (shard i kv) len kv

  unfoldable pub submit_keys_on_shard :
      ℕ → ShardedKv K T → Poll (Result ℕ ShardError) × ShardedKv K T
  submit_keys_on_shard i kv = submit_to (shard i kv) keys kv

  unfoldable pub try_submit_len_on_shard : ℕ → ShardedKv K T → Result ℕ ShardError × ShardedKv K T
  try_submit_len_on_shard i kv = try_submit_to (shard i kv) len kv

  unfoldable pub try_submit_keys_on_shard : ℕ → ShardedKv K T → Result ℕ ShardError × ShardedKv K T
  try_submit_keys_on_shard i kv = try_submit_to (shard i kv) keys kv

module _ {ℓ κ} {K : Type ℓ} {T : Type κ} where
  -- The beginning of `shutdown`, and whether it goes on: to a `send_stop` on every handle in turn,
  -- and to the joins, with the result `Shards.stop_result`.
  unfoldable pub begin_shutdown : ShardedKv K T → Bool × ShardedKv K T
  begin_shutdown kv = if kv.stopped then (false, kv) else (true, record kv { stopped = true })

  unfoldable pub send_stop :
      ℕ
      → Shard (KvService K T) (KvCommand K T)
      → ShardedKv K T
      → Poll (Result ℕ ShardError) × ShardedKv K T
  send_stop i handle kv =
      let sent = Shards.send_stopped i handle stop kv.shards in
      (sent.0, record kv { shards = sent.1 })

-- `place` is the placement, a parameter of the service.
module _ {ℓ κ} {K : Type ℓ} {T : Type κ} (place : K → ℕ → ℕ) where
  unfoldable pub shard_for_key : K → ShardedKv K T → ℕ
  unfolding shard_count
  shard_for_key k kv = place k (shard_count kv)

  unfoldable pub shard_for_owned_key :
      K → ShardedKv K T → Result (ℕ × Shard (KvService K T) (KvCommand K T)) ShardError
  shard_for_owned_key k kv = elim (ensure_running kv) [
    | err e ↦ err e
    | ok u ↦ elim (Shards.get_by_id (shard_for_key k kv) kv.shards) [
      | err e ↦ err e
      | ok handle ↦ ok (shard_for_key k kv, handle)
    ]
  ]

  unfoldable pub submit_put : K → T → ShardedKv K T → Poll (Result ℕ ShardError) × ShardedKv K T
  submit_put k v kv = submit_to (shard_for_owned_key k kv) (put k v) kv

  unfoldable pub try_submit_put : K → T → ShardedKv K T → Result ℕ ShardError × ShardedKv K T
  try_submit_put k v kv = try_submit_to (shard_for_owned_key k kv) (put k v) kv

  unfoldable pub submit_compare_and_put :
      K → Option T → T → ShardedKv K T → Poll (Result ℕ ShardError) × ShardedKv K T
  submit_compare_and_put k expected v kv =
      submit_to (shard_for_owned_key k kv) (compare_and_put k expected v) kv

  unfoldable pub try_submit_compare_and_put :
      K → Option T → T → ShardedKv K T → Result ℕ ShardError × ShardedKv K T
  try_submit_compare_and_put k expected v kv =
      try_submit_to (shard_for_owned_key k kv) (compare_and_put k expected v) kv

  unfoldable pub submit_get_or_put :
      K → T → ShardedKv K T → Poll (Result ℕ ShardError) × ShardedKv K T
  submit_get_or_put k v kv = submit_to (shard_for_owned_key k kv) (get_or_put k v) kv

  unfoldable pub try_submit_get_or_put : K → T → ShardedKv K T → Result ℕ ShardError × ShardedKv K T
  try_submit_get_or_put k v kv = try_submit_to (shard_for_owned_key k kv) (get_or_put k v) kv

  unfoldable pub submit_get : K → ShardedKv K T → Poll (Result ℕ ShardError) × ShardedKv K T
  submit_get k kv = submit_to (shard_for_owned_key k kv) (get k) kv

  unfoldable pub try_submit_get : K → ShardedKv K T → Result ℕ ShardError × ShardedKv K T
  try_submit_get k kv = try_submit_to (shard_for_owned_key k kv) (get k) kv

  unfoldable pub submit_delete : K → ShardedKv K T → Poll (Result ℕ ShardError) × ShardedKv K T
  submit_delete k kv = submit_to (shard_for_owned_key k kv) (delete k) kv

  unfoldable pub try_submit_delete : K → ShardedKv K T → Result ℕ ShardError × ShardedKv K T
  try_submit_delete k kv = try_submit_to (shard_for_owned_key k kv) (delete k) kv

module _ {ℓ κ} {K : Type ℓ} {T : Type κ} ⦃key : Key K⦄ (same_text : T → T → Bool) where
  -- One arm of the loop of `run_kv_shard`, up to the sending of the reply.
  unfoldable pub handle : KvCommand K T → KvService K T → KvValue K T × KvService K T
  handle (get k) s = (found (Map.get k s), s)
  handle (put k v) s = (done, Map.put k v s)
  handle (compare_and_put k expected v) s =
      let result = Map.compare_and_put same_text k expected v s in (replaced result.0, result.1)
  handle (get_or_put k v) s = let result = Map.get_or_put k v s in (text result.0, result.1)
  handle (delete k) s = let result = Map.delete k s in (found result.0, result.1)
  handle len s = (size (Map.len s), s)
  handle keys s = (names (Map.keys s), s)
  handle stop s = (done, s)
