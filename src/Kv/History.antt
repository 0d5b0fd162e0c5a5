-- ===== src/Kv/History.antt =====
-- crates/sitas-core/src/kv_service.rs: calls for keys on a running service, the turns of its
-- threads, and looks at the replies, in the order in which they happen.
pub mod Errors
pub mod Follows
pub mod Refinement
use sitas.Common.{
  ℕ, ◌≡◌, refl, sym, ap, inl, inr, Bool, true, false, Option, none, some, List, [], ◌∷◌, ◌++◌,
  Result, ok, err, Poll, ready, pending, length, get_elem?, Option-cases, arith,
}
use sitas.Runtime.Config.{ShardError}
use sitas.Runtime.Shards
use sitas.Runtime.Shards.{get_by_id}
use sitas.Runtime.Shards.History.{request_on, try_request_on, accepted_now, tried_now}
use sitas.Kv.Keys.{Key}
use sitas.Kv.Service
use sitas.Kv.Service.{
  KvCommand, KvValue, ShardedKv, ensure_running, shard_for_owned_key, shard_for_key, shard_count,
  submit_to, try_submit_to, submit_get, submit_put, submit_compare_and_put, submit_get_or_put,
  submit_delete, try_submit_get, try_submit_put, try_submit_compare_and_put, try_submit_get_or_put,
  try_submit_delete, handle, ends,
}
use sitas.Kv.Single.Answers.{
  KvCall, get, put, compare_and_put, get_or_put, delete, call_key, command_of, route,
}

pub data KvEvent {ℓ κ} (K : Type ℓ) (T : Type κ) : Type (ℓ ⊔ κ) where
  submit try_submit : KvCall K T → KvEvent K T
  turn look : ℕ → KvEvent K T

abbrev pub log_call {ℓ} : {A : Type ℓ} → Bool → A → List A
log_call true a = a ∷ []
log_call false a = []

module _ {ℓ κ} {K : Type ℓ} {T : Type κ} (place : K → ℕ → ℕ) where
  unfoldable pub submit_call :
      KvCall K T → ShardedKv K T → Poll (Result ℕ ShardError) × ShardedKv K T
  submit_call (get k) = submit_get place k
  submit_call (delete k) = submit_delete place k
  submit_call (put k v) = submit_put place k v
  submit_call (get_or_put k v) = submit_get_or_put place k v
  submit_call (compare_and_put k x v) = submit_compare_and_put place k x v

  unfoldable pub try_submit_call : KvCall K T → ShardedKv K T → Result ℕ ShardError × ShardedKv K T
  try_submit_call (get k) = try_submit_get place k
  try_submit_call (delete k) = try_submit_delete place k
  try_submit_call (put k v) = try_submit_put place k v
  try_submit_call (get_or_put k v) = try_submit_get_or_put place k v
  try_submit_call (compare_and_put k x v) = try_submit_compare_and_put place k x v

  submit_to-request_on :
      (k : K) (c : KvCommand K T) (kv : ShardedKv K T)
      → kv.stopped ≡ false
      → let sent = request_on (place k (length kv.shards.handles)) c kv.shards in
        submit_to (shard_for_owned_key place k kv) c kv ≡ (sent.0, record kv { shards = sent.1 })
  unfolding submit_to shard_for_owned_key shard_for_key shard_count ensure_running request_on
      get_by_id
  submit_to-request_on k c kv h =
      elim (Option-cases (get_elem? kv.shards.handles (place k (length kv.shards.handles)))) [
        | inl e ↦ ground arith
        | inr (s, e) ↦ ground arith
      ]

  try_submit_to-try_request_on :
      (k : K) (c : KvCommand K T) (kv : ShardedKv K T)
      → kv.stopped ≡ false
      → let sent = try_request_on (place k (length kv.shards.handles)) c kv.shards in
        try_submit_to (shard_for_owned_key place k kv) c kv
        ≡ (sent.0, record kv { shards = sent.1 })
  unfolding try_submit_to shard_for_owned_key shard_for_key shard_count ensure_running
      try_request_on get_by_id
  try_submit_to-try_request_on k c kv h =
      elim (Option-cases (get_elem? kv.shards.handles (place k (length kv.shards.handles)))) [
        | inl e ↦ ground arith
        | inr (s, e) ↦ ground arith
      ]

  pub submit_call-request_on :
      (c : KvCall K T) (kv : ShardedKv K T)
      → kv.stopped ≡ false
      → let sent =
          request_on (place (call_key c) (length kv.shards.handles)) (command_of c) kv.shards in
        submit_call c kv ≡ (sent.0, record kv { shards = sent.1 })
  unfolding submit_call submit_get submit_put submit_compare_and_put submit_get_or_put submit_delete
  submit_call-request_on (get k) kv h = submit_to-request_on k _ kv h
  submit_call-request_on (delete k) kv h = submit_to-request_on k _ kv h
  submit_call-request_on (put k v) kv h = submit_to-request_on k _ kv h
  submit_call-request_on (get_or_put k v) kv h = submit_to-request_on k _ kv h
  submit_call-request_on (compare_and_put k x v) kv h = submit_to-request_on k _ kv h

  pub try_submit_call-try_request_on :
      (c : KvCall K T) (kv : ShardedKv K T)
      → kv.stopped ≡ false
      → let sent =
          try_request_on (place (call_key c) (length kv.shards.handles)) (command_of c) kv.shards in
        try_submit_call c kv ≡ (sent.0, record kv { shards = sent.1 })
  unfolding try_submit_call try_submit_get try_submit_put try_submit_compare_and_put
      try_submit_get_or_put try_submit_delete
  try_submit_call-try_request_on (get k) kv h = try_submit_to-try_request_on k _ kv h
  try_submit_call-try_request_on (delete k) kv h = try_submit_to-try_request_on k _ kv h
  try_submit_call-try_request_on (put k v) kv h = try_submit_to-try_request_on k _ kv h
  try_submit_call-try_request_on (get_or_put k v) kv h = try_submit_to-try_request_on k _ kv h
  try_submit_call-try_request_on (compare_and_put k x v) kv h =
      try_submit_to-try_request_on k _ kv h

module _ {ℓ κ} {K : Type ℓ} {T : Type κ} ⦃key : Key K⦄ (same_text : T → T → Bool)
    (place : K → ℕ → ℕ) where
  unfoldable pub kv_step : KvEvent K T → ShardedKv K T → ShardedKv K T
  kv_step (submit c) kv = (submit_call place c kv).1
  kv_step (try_submit c) kv = (try_submit_call place c kv).1
  kv_step (turn i) kv = record kv { shards = Shards.turn (handle same_text) ends i kv.shards }
  kv_step (look id) kv = record kv { shards = (Shards.wait_reply id kv.shards).1 }

  -- The call that an event gets accepted.
  unfoldable pub kv_accepted : KvEvent K T → ShardedKv K T → List (KvCall K T)
  kv_accepted (submit c) kv = log_call (accepted_now (submit_call place c kv).0) c
  kv_accepted (try_submit c) kv = log_call (tried_now (try_submit_call place c kv).0) c
  kv_accepted (turn i) kv = []
  kv_accepted (look id) kv = []

  unfoldable pub kv_run : List (KvEvent K T) → ShardedKv K T → ShardedKv K T
  kv_run [] kv = kv
  kv_run (e ∷ es) kv = kv_run es (kv_step e kv)

  unfoldable pub kv_log : List (KvEvent K T) → ShardedKv K T → List (KvCall K T)
  kv_log [] kv = []
  kv_log (e ∷ es) kv = kv_accepted e kv ++ kv_log es (kv_step e kv)
