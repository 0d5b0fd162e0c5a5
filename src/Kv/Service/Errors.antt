-- ===== src/Kv/Service/Errors.antt =====
-- crates/sitas-core/src/kv_service.rs: the errors of the calls.
use sitas.Common.{
  ℕ, ◌≡◌, inl, inr, Bool, true, false, Result, ok, err, Poll, ready, pending, length, get_elem?,
  Option-cases, Bool-cases, arith,
}
use sitas.Runtime.Config.{ShardError, mailbox_full, shard_stopped}
use sitas.Runtime.Shards.{get_by_id, request, try_request}
use sitas.Kv.Service.{
  KvCommand, ShardedKv, ensure_running, shard_for_owned_key, shard_for_key, shard_count, submit_to,
  try_submit_to,
}

-- What a blocking call does where the non-blocking one has the given result.
abbrev pub waits : Result ℕ ShardError → Poll (Result ℕ ShardError)
waits (err mailbox_full) = pending
waits r = ready r

abbrev pub says_stopped : Result ℕ ShardError → Bool
says_stopped (err shard_stopped) = true
says_stopped r = false

abbrev pub or_unchanged {ℓ} : {A : Type ℓ} → Result ℕ ShardError → A → A → A
or_unchanged (ok id) before after = after
or_unchanged (err e) before after = before

module _ {ℓ κ} {K : Type ℓ} {T : Type κ} (place : K → ℕ → ℕ) where
  -- The two forms of a command for the shard of a key.
  pub calls-paired :
      (k : K) (c : KvCommand K T) (kv : ShardedKv K T)
      → let tried = try_submit_to (shard_for_owned_key place k kv) c kv in
        let sent = submit_to (shard_for_owned_key place k kv) c kv in
        (tried.1 ≡ sent.1)
        × (sent.0 ≡ waits tried.0)
        × (tried.1 ≡ or_unchanged tried.0 kv tried.1)
        × (says_stopped tried.0 ≡ kv.stopped)
  unfolding submit_to try_submit_to shard_for_owned_key shard_for_key shard_count ensure_running
      get_by_id request try_request
  calls-paired k c kv = elim (Bool-cases kv.stopped) [
    | inl s ↦ (ground arith, ground arith, ground arith, ground arith)
    | inr s ↦
        elim (Option-cases (get_elem? kv.shards.handles (place k (length kv.shards.handles)))) [
          | inl n ↦ (ground arith, ground arith, ground arith, ground arith)
          | inr (h, at) ↦ (ground arith, ground arith, ground arith, ground arith)
        ]
  ]
