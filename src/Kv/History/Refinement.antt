-- ===== src/Kv/History/Refinement.antt =====
-- crates/sitas-core/src/kv_service.rs: the sharded service against one single map.
use sitas.Common.{
  ℕ, zero, suc, ◌+◌, ◌<◌, ◌≡◌, refl, sym, ap, ◌∙◌, Bool, false, some, List, [], ◌∷◌, ok, ready,
  length, get_elem?, map, All, replicate, ◌==◌,
}
use sitas.Runtime.Shards.{start, start_shards, wait_reply}
use sitas.Runtime.Shards.Drain.{turns_from}
use sitas.Runtime.Shards.History.{run, log}
use sitas.Runtime.Shards.Order.{in_order}
use sitas.Runtime.Shards.Order.Answers.{replies_in_order}
use sitas.Runtime.Shards.Totality.{request_answered}
use sitas.Runtime.Shards.Owed.{Untaken}
use sitas.Kv.Keys.{Key}
use sitas.Kv.Map.{new}
use sitas.Kv.Service.{
  KvCommand, KvValue, ShardedKv, ShardedKvConfig, handle, ends, start_with_placement,
}
use sitas.Kv.Single.Answers.{single_answers, routed-Agrees, new-Agrees}
use sitas.Kv.History.Follows.{on_shards, run-Follows, on_shards-Serving, started}
use sitas.Kv.History.{KvEvent, kv_run, kv_log}

module _ {ℓ κ} {S : Type ℓ} (C : Type κ) where
  length-start_shards : (initial : S) (i n : ℕ) → length (start_shards {C = C} initial i n) ≡ n
  unfolding start_shards
  length-start_shards initial i zero = refl
  length-start_shards initial i (suc n) = ap suc (length-start_shards initial (i + 1) n)

module _ {ℓ κ} {K : Type ℓ} {T : Type κ} where
  -- The event is not a look at the reply `id`.
  abbrev pub LooksElsewhere : ℕ → KvEvent K T → Type 0
  LooksElsewhere id (KvEvent.look k) = (k == id) ≡ false
  LooksElsewhere id e = Unit

module _ {ℓ κ} {K : Type ℓ} {T : Type κ} ⦃key : Key K⦄ (same_text : T → T → Bool)
    (place : K → ℕ → ℕ) (n id : ℕ) where
  on_shards-Untaken :
      (es : List (KvEvent K T))
      → All (LooksElsewhere id) es
      → All (Untaken (handle same_text) ends id) (map (on_shards same_text place n) es)
  unfolding on_shards
  on_shards-Untaken [] h = tt
  on_shards-Untaken (KvEvent.submit c ∷ es) h = (tt, on_shards-Untaken es h.1)
  on_shards-Untaken (KvEvent.try_submit c ∷ es) h = (tt, on_shards-Untaken es h.1)
  on_shards-Untaken (KvEvent.turn i ∷ es) h = (tt, on_shards-Untaken es h.1)
  on_shards-Untaken (KvEvent.look k ∷ es) h = (h.0, on_shards-Untaken es h.1)

module _ {ℓ κ} {K : Type ℓ} {T : Type κ} ⦃key : Key K⦄ (same_text : T → T → Bool)
    (place : K → ℕ → ℕ) (c : ShardedKvConfig)
    (in_range : (k : K) → place k c.shard_count < c.shard_count) (kv : ShardedKv K T)
    (new_kv : start_with_placement c ≡ ok kv) where
  -- The shards behind the service, and what a single map answers, in terms of the shards.
  behind :
      (es : List (KvEvent K T))
      → let shards = start new c.shard_count c.mailbox_capacity in
        let events = map (on_shards same_text place c.shard_count) es in
        ((kv_run same_text place es kv).shards ≡ run (handle same_text) ends events shards)
        × (single_answers same_text (kv_log same_text place es kv) new
            ≡ in_order
                (handle same_text)
                ends
                (log (handle same_text) ends events shards)
                (replicate c.shard_count new))
  unfolding start
  behind es =
      let n = c.shard_count in
      let events = map (on_shards same_text place n) es in
      let (runs, fresh) = started c kv new_kv in
      let size = ap (λ s. length s.handles) fresh ∙ length-start_shards (KvCommand K T) new 0 n in
      let (left, logs) = run-Follows same_text place n es kv runs size in
      let single =
        (routed-Agrees same_text place n in_range (kv_log same_text place es kv) (replicate n new)
          new (new-Agrees place n)).0 in
      (
        left ∙ ap (run (handle same_text) ends events) fresh,
        sym single
            ∙ ap (λ l. in_order (handle same_text) ends l (replicate n new))
                (logs ∙ ap (log (handle same_text) ends events) fresh),
      )

  -- Take a service that was started with a placement that chooses one of its shards for every key,
  -- and any sequence of blocking and non-blocking calls for keys, of turns of its threads, and of
  -- looks at replies. A value that is then read as the reply to an accepted call is the one that
  -- the call gets from a single map which executes all accepted calls in the order in which they
  -- were accepted.
  pub replies_of_single_map :
      (es : List (KvEvent K T)) (id : ℕ) (v : KvValue K T)
      → (wait_reply id (kv_run same_text place es kv).shards).0 ≡ some (ready (ok v))
      → get_elem? (single_answers same_text (kv_log same_text place es kv) new) id ≡ some v
  replies_of_single_map es id v h =
      let n = c.shard_count in
      let (left, answers) = behind es in
      ap (λ l. get_elem? l id) answers
      ∙ replies_in_order (handle same_text) ends new n c.mailbox_capacity
          (map (on_shards same_text place n) es) id v (on_shards-Serving same_text place n es)
          (ap (λ s. (wait_reply id s).0) (sym left) ∙ h)

  -- Take such a service and such a sequence, in which nobody looks at the reply `id`. Let then each
  -- thread take as many turns as its shard has commands queued. If the call with the reply `id` was
  -- accepted, then a caller that waits for it does not block, and gets what a single map answers
  -- that executes all accepted calls in the order in which they were accepted.
  pub call_answered :
      (es : List (KvEvent K T)) (id : ℕ) (v : KvValue K T)
      → All (LooksElsewhere id) es
      → let s = (kv_run same_text place es kv).shards in
        get_elem? (single_answers same_text (kv_log same_text place es kv) new) id ≡ some v
        → (wait_reply id (run (handle same_text) ends (turns_from 0 s.handles) s)).0
          ≡ some (ready (ok v))
  call_answered es id v away h =
      let n = c.shard_count in
      let (left, answers) = behind es in
      ap (λ s. (wait_reply id (run (handle same_text) ends (turns_from 0 s.handles) s)).0) left
      ∙ request_answered (handle same_text) ends new n c.mailbox_capacity
          (map (on_shards same_text place n) es) id v (on_shards-Serving same_text place n es)
          (on_shards-Untaken same_text place n id es away)
          (ap (λ l. get_elem? l id) (sym answers) ∙ h)
