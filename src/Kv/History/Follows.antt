-- ===== src/Kv/History/Follows.antt =====
-- crates/sitas-core/src/kv_service.rs: what its events do to the shards.
use sitas.Common.{
  ℕ, ◌≡◌, refl, ap, ◌∙◌, inl, inr, Bool, true, false, List, [], ◌∷◌, ◌++◌, ok, length, length-set,
  map, All, arith, if_intro,
}
use mathlib.Core.List.{map-append}
use mathlib.Core.Path.{subst, ap₂}
use sitas.Runtime.Config.{validate}
use sitas.Runtime.Shards
use sitas.Runtime.Shards.{ShardSet, Shard, start, start_shards, serve, accept, wait_reply}
use sitas.Runtime.Shards.History.{
  Event, step, accepted, run, log, log_if, accepted_now, tried_now, request_on, try_request_on,
}
use sitas.Runtime.Shards.History.Cases.{
  Accepts, request_on-Accepts, try_request_on-Accepts, turn-cases, wait_reply-cases,
}
use sitas.Runtime.Shards.Order.Answers.{Serving}
use sitas.Kv.Keys.{Key}
use sitas.Kv.Map.{new}
use sitas.Kv.Service.{
  KvCommand, ShardedKv, ShardedKvConfig, handle, ends, start_with_placement, runtime_config,
}
use sitas.Kv.Single.Answers.{KvCall, call_key, command_of, route}
use sitas.Kv.History.{
  KvEvent, submit_call, try_submit_call, kv_step, kv_accepted, kv_run, kv_log, log_call,
  submit_call-request_on, try_submit_call-try_request_on,
}

module _ {ℓ κ υ} {S : Type ℓ} {C : Type κ} {V : Type υ} where
  Accepts-size :
      (i : ℕ) (c : C) (s s' : ShardSet S C V) (l : List (ℕ × C))
      → Accepts i c s s' l
      → length s'.handles ≡ length s.handles
  unfolding accept
  Accepts-size i c s s' l (inl e) = ap (λ x. length x.handles) e.0
  Accepts-size i c s s' l (inr (shard, at, r, e, f)) =
      ap (λ x. length x.handles) e ∙ length-set s.handles i _

  look-size : (id : ℕ) (s : ShardSet S C V) → length (wait_reply id s).1.handles ≡ length s.handles
  look-size id s = elim (wait_reply-cases id s) [
    | inl e ↦ ap (λ x. length x.handles) e.1
    | inr (r, at, out, e) ↦ ap (λ x. length x.handles) e
  ]

  turn-size :
      (handle : C → S → V × S) (ends : C → Bool) (i : ℕ) (s : ShardSet S C V)
      → length (Shards.turn handle ends i s).handles ≡ length s.handles
  unfolding serve
  turn-size handle ends i s = elim (turn-cases handle ends i s) [
    | inl e ↦ ap (λ x. length x.handles) e.0
    | inr (shard, received, queue, at, q, e) ↦
        ap (λ x. length x.handles) e
        ∙ if_intro (λ (x : ShardSet S C V). length x.handles ≡ length s.handles) (ends received.0)
            (λ _. length-set s.handles i _) (λ _. length-set s.handles i _)
  ]

module _ {ℓ κ} {K : Type ℓ} {T : Type κ} where
  -- No call for a key ends the loop of a shard.
  command_of-ends : (c : KvCall K T) → ends (command_of c) ≡ false
  unfolding ends
  command_of-ends (KvCall.get k) = refl
  command_of-ends (KvCall.delete k) = refl
  command_of-ends (KvCall.put k v) = refl
  command_of-ends (KvCall.get_or_put k v) = refl
  command_of-ends (KvCall.compare_and_put k x v) = refl

  pub started :
      (c : ShardedKvConfig) (kv : ShardedKv K T)
      → start_with_placement c ≡ ok kv
      → (kv.stopped ≡ false) × (kv.shards ≡ start new c.shard_count c.mailbox_capacity)
  unfolding start_with_placement runtime_config validate
  started c kv h = ground arith

module _ {ℓ κ} {K : Type ℓ} {T : Type κ} ⦃key : Key K⦄ (same_text : T → T → Bool)
    (place : K → ℕ → ℕ) (n : ℕ) where
  -- The event on the shards, `n` of them, behind an event of the service.
  unfoldable pub on_shards : KvEvent K T → Event (KvCommand K T)
  on_shards (KvEvent.submit c) = Event.request (place (call_key c) n) (command_of c)
  on_shards (KvEvent.try_submit c) = Event.try_request (place (call_key c) n) (command_of c)
  on_shards (KvEvent.turn i) = Event.turn i
  on_shards (KvEvent.look id) = Event.look id

  -- One event of the service does to its shards what the event on the shards does, logs the same
  -- call, and leaves the service running on as many shards.
  record Follows (e : KvEvent K T) (kv : ShardedKv K T) : Type (ℓ ⊔ κ) where
    shards :
        (kv_step same_text place e kv).shards ≡ step (handle same_text) ends (on_shards e) kv.shards
    logs :
        map (route place n) (kv_accepted same_text place e kv)
        ≡ accepted (handle same_text) ends (on_shards e) kv.shards
    runs : (kv_step same_text place e kv).stopped ≡ false
    sized : length (kv_step same_text place e kv).shards.handles ≡ n

  map-log_call :
      (b : Bool) (c : KvCall K T)
      → map (route place n) (log_call b c) ≡ log_if b (place (call_key c) n) (command_of c)
  map-log_call true c = refl
  map-log_call false c = refl

  step-Follows :
      (e : KvEvent K T) (kv : ShardedKv K T)
      → kv.stopped ≡ false
      → length kv.shards.handles ≡ n
      → Follows e kv
  unfolding kv_step kv_accepted step accepted on_shards
  step-Follows (KvEvent.submit c) kv h z =
      let k = call_key c in
      let sent = request_on (place k n) (command_of c) kv.shards in
      let p : submit_call place c kv ≡ (sent.0, record kv { shards = sent.1 }) =
        subst
          (λ m.
            let r = request_on (place k m) (command_of c) kv.shards in
            submit_call place c kv ≡ (r.0, record kv { shards = r.1 }))
          z (submit_call-request_on place c kv h) in
      record {
        shards = ap (λ r. r.1.shards) p;
        logs =
            ap (λ r. map (route place n) (log_call (accepted_now r.0) c)) p
            ∙ map-log_call (accepted_now sent.0) c;
        runs = ap (λ r. r.1.stopped) p ∙ h;
        sized =
            ap (λ r. length r.1.shards.handles) p
            ∙ Accepts-size (place k n) (command_of c) kv.shards sent.1 _
                (request_on-Accepts (place k n) (command_of c) kv.shards)
            ∙ z;
      }
  step-Follows (KvEvent.try_submit c) kv h z =
      let k = call_key c in
      let sent = try_request_on (place k n) (command_of c) kv.shards in
      let p : try_submit_call place c kv ≡ (sent.0, record kv { shards = sent.1 }) =
        subst
          (λ m.
            let r = try_request_on (place k m) (command_of c) kv.shards in
            try_submit_call place c kv ≡ (r.0, record kv { shards = r.1 }))
          z (try_submit_call-try_request_on place c kv h) in
      record {
        shards = ap (λ r. r.1.shards) p;
        logs =
            ap (λ r. map (route place n) (log_call (tried_now r.0) c)) p
            ∙ map-log_call (tried_now sent.0) c;
        runs = ap (λ r. r.1.stopped) p ∙ h;
        sized =
            ap (λ r. length r.1.shards.handles) p
            ∙ Accepts-size (place k n) (command_of c) kv.shards sent.1 _
                (try_request_on-Accepts (place k n) (command_of c) kv.shards)
            ∙ z;
      }
  step-Follows (KvEvent.turn i) kv h z = record {
    shards = refl;
    logs = refl;
    runs = h;
    sized = turn-size (handle same_text) ends i kv.shards ∙ z;
  }
  step-Follows (KvEvent.look id) kv h z = record {
    shards = refl;
    logs = refl;
    runs = h;
    sized = look-size id kv.shards ∙ z;
  }

  pub run-Follows :
      (es : List (KvEvent K T)) (kv : ShardedKv K T)
      → kv.stopped ≡ false
      → length kv.shards.handles ≡ n
      → ((kv_run same_text place es kv).shards
          ≡ run (handle same_text) ends (map on_shards es) kv.shards)
        × (map (route place n) (kv_log same_text place es kv)
            ≡ log (handle same_text) ends (map on_shards es) kv.shards)
  unfolding kv_run kv_log run log
  run-Follows [] kv h z = (refl, refl)
  run-Follows (e ∷ es) kv h z =
      let f = step-Follows e kv h z in
      let (left, logs) = run-Follows es (kv_step same_text place e kv) f.runs f.sized in
      let later = map on_shards es in
      (
        left ∙ ap (run (handle same_text) ends later) f.shards,
        map-append (route place n) (kv_accepted same_text place e kv)
              (kv_log same_text place es (kv_step same_text place e kv))
            ∙ ap₂ ◌++◌ f.logs (logs ∙ ap (log (handle same_text) ends later) f.shards),
      )

  pub on_shards-Serving :
      (es : List (KvEvent K T)) → All (Serving (handle same_text) ends) (map on_shards es)
  unfolding ends on_shards
  on_shards-Serving [] = tt
  on_shards-Serving (KvEvent.submit c ∷ es) = (command_of-ends c, on_shards-Serving es)
  on_shards-Serving (KvEvent.try_submit c ∷ es) = (command_of-ends c, on_shards-Serving es)
  on_shards-Serving (KvEvent.turn i ∷ es) = (tt, on_shards-Serving es)
  on_shards-Serving (KvEvent.look id ∷ es) = (tt, on_shards-Serving es)
