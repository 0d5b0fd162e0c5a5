-- ===== src/Kv/History/Errors.antt =====
-- crates/sitas-core/src/kv_service.rs: the errors of the calls for keys.
use sitas.Common.{ℕ, ◌≡◌, err, arith}
use sitas.Runtime.Config.{shard_stopped}
use sitas.Kv.Service.{
  ShardedKv, begin_shutdown, submit_get, submit_put, submit_compare_and_put, submit_get_or_put,
  submit_delete, try_submit_get, try_submit_put, try_submit_compare_and_put, try_submit_get_or_put,
  try_submit_delete, try_submit_to, shard_for_owned_key, ensure_running,
}
use sitas.Kv.Service.Errors.{waits, says_stopped, or_unchanged, calls-paired}
use sitas.Kv.Single.Answers.{KvCall, command_of}
use sitas.Kv.History.{submit_call, try_submit_call}

module _ {ℓ κ} {K : Type ℓ} {T : Type κ} (place : K → ℕ → ℕ) where
  stopped_service :
      (c : KvCall K T) (kv : ShardedKv K T)
      → (try_submit_call place c (begin_shutdown kv).1).0 ≡ err shard_stopped
  unfolding begin_shutdown try_submit_call try_submit_get try_submit_put try_submit_compare_and_put
      try_submit_get_or_put try_submit_delete try_submit_to shard_for_owned_key ensure_running
  stopped_service (KvCall.get k) kv = ground arith
  stopped_service (KvCall.delete k) kv = ground arith
  stopped_service (KvCall.put k v) kv = ground arith
  stopped_service (KvCall.get_or_put k v) kv = ground arith
  stopped_service (KvCall.compare_and_put k x v) kv = ground arith

  -- The non-blocking form of a call for a key leaves the same service as the blocking form, which
  -- returns the same result, except that it waits where the other reports `MailboxFull`. An error
  -- leaves the service as it was. `ShardStopped` is reported exactly by a stopped service, and by
  -- every service once its shutdown has begun.
  pub try_submit_call-submit_call :
      (c : KvCall K T) (kv : ShardedKv K T)
      → let tried = try_submit_call place c kv in
        let sent = submit_call place c kv in
        (tried.1 ≡ sent.1)
        × (sent.0 ≡ waits tried.0)
        × (tried.1 ≡ or_unchanged tried.0 kv tried.1)
        × (says_stopped tried.0 ≡ kv.stopped)
        × ((try_submit_call place c (begin_shutdown kv).1).0 ≡ err shard_stopped)
  unfolding submit_call try_submit_call submit_get submit_put submit_compare_and_put
      submit_get_or_put submit_delete try_submit_get try_submit_put try_submit_compare_and_put
      try_submit_get_or_put try_submit_delete
  try_submit_call-submit_call (KvCall.get k) kv =
      let p = calls-paired place k (command_of (KvCall.get k)) kv in
      (p.0, p.1, p.2, p.3, stopped_service (KvCall.get k) kv)
  try_submit_call-submit_call (KvCall.delete k) kv =
      let p = calls-paired place k (command_of (KvCall.delete k)) kv in
      (p.0, p.1, p.2, p.3, stopped_service (KvCall.delete k) kv)
  try_submit_call-submit_call (KvCall.put k v) kv =
      let p = calls-paired place k (command_of (KvCall.put k v)) kv in
      (p.0, p.1, p.2, p.3, stopped_service (KvCall.put k v) kv)
  try_submit_call-submit_call (KvCall.get_or_put k v) kv =
      let p = calls-paired place k (command_of (KvCall.get_or_put k v)) kv in
      (p.0, p.1, p.2, p.3, stopped_service (KvCall.get_or_put k v) kv)
  try_submit_call-submit_call (KvCall.compare_and_put k x v) kv =
      let p = calls-paired place k (command_of (KvCall.compare_and_put k x v)) kv in
      (p.0, p.1, p.2, p.3, stopped_service (KvCall.compare_and_put k x v) kv)
