-- ===== src/Runtime/Shards/History.antt =====
-- crates/sitas-core/src/runtime.rs: the calls on a set of shards and the turns of their threads,
-- in the order in which they happen.
pub mod Cases
use sitas.Common.{
  ℕ, suc, Bool, true, false, Option, none, some, List, [], ◌∷◌, ◌++◌, Result, ok, err, Poll, ready,
  pending, get_elem?, set,
}
use sitas.Runtime.Config.{ShardError}
use sitas.Runtime.Shards

-- A call on the handle of a shard that a service looked up by its identifier, one turn of the
-- thread of a shard, or a look of a caller at its reply.
pub data Event {κ} (C : Type κ) : Type κ where
  request try_request stop : ℕ → C → Event C
  turn look : ℕ → Event C

module _ {ℓ κ υ} {S : Type ℓ} {C : Type κ} {V : Type υ} where
  unfoldable pub request_on :
      ℕ → C → Shards.ShardSet S C V → Poll (Result ℕ ShardError) × Shards.ShardSet S C V
  request_on i command s = elim (Shards.get_by_id i s) [
    | err e ↦ (ready (err e), s)
    | ok shard ↦ Shards.request i shard command s
  ]

  unfoldable pub try_request_on :
      ℕ → C → Shards.ShardSet S C V → Result ℕ ShardError × Shards.ShardSet S C V
  try_request_on i command s = elim (Shards.get_by_id i s) [
    | err e ↦ (err e, s)
    | ok shard ↦ Shards.try_request i shard command s
  ]

  unfoldable pub stop_on :
      ℕ → C → Shards.ShardSet S C V → Poll (Result ℕ ShardError) × Shards.ShardSet S C V
  stop_on i command s = elim (Shards.get_by_id i s) [
    | err e ↦ (ready (err e), s)
    | ok shard ↦ Shards.send_stopped i shard command s
  ]

-- Whether a call was accepted.
abbrev pub accepted_now : Poll (Result ℕ ShardError) → Bool
accepted_now (ready (ok id)) = true
accepted_now (ready (err e)) = false
accepted_now pending = false

abbrev pub tried_now : Result ℕ ShardError → Bool
tried_now (ok id) = true
tried_now (err e) = false

-- The command, under a test.
abbrev pub log_if {κ} : {C : Type κ} → Bool → ℕ → C → List (ℕ × C)
log_if true i command = (i, command) ∷ []
log_if false i command = []

module _ {ℓ κ υ} {S : Type ℓ} {C : Type κ} {V : Type υ} (handle : C → S → V × S)
    (ends : C → Bool) where
  unfoldable pub step : Event C → Shards.ShardSet S C V → Shards.ShardSet S C V
  step (request i command) s = (request_on i command s).1
  step (try_request i command) s = (try_request_on i command s).1
  step (stop i command) s = (stop_on i command s).1
  step (turn i) s = Shards.turn handle ends i s
  step (look id) s = (Shards.wait_reply id s).1

  -- The command that an event adds to a mailbox, with its shard.
  unfoldable pub accepted : Event C → Shards.ShardSet S C V → List (ℕ × C)
  accepted (request i command) s = log_if (accepted_now (request_on i command s).0) i command
  accepted (try_request i command) s = log_if (tried_now (try_request_on i command s).0) i command
  accepted (stop i command) s = log_if (accepted_now (stop_on i command s).0) i command
  accepted (turn i) s = []
  accepted (look id) s = []

  unfoldable pub run : List (Event C) → Shards.ShardSet S C V → Shards.ShardSet S C V
  run [] s = s
  run (e ∷ es) s = run es (step e s)

  -- The commands accepted, in order: the n-th of them has the reply with the index n.
  unfoldable pub log : List (Event C) → Shards.ShardSet S C V → List (ℕ × C)
  log [] s = []
  log (e ∷ es) s = accepted e s ++ log es (step e s)
