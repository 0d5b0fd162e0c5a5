-- ===== src/Mailbox/WorkUnits/Tests.antt =====
-- Runs and instances for the named mailboxes of shard_mailbox.rs.
use sitas.Common.{ℕ, ◌<◌, ◌≡◌, refl, List, [], ◌∷◌, ok, err, some, ◌==◌, ==_iff}
use sitas.Mailbox.{new}
use sitas.Mailbox.WorkUnits.{
  WorkUnitSpec, WorkUnitSet, new_set, work_unit, assigned_shard, duplicate_name,
  receiver_for_current_shard, wrong_shard,
}
use sitas.Mailbox.WorkUnits.Names.{new_set_lem}

abbrev spec : ℕ → ℕ → WorkUnitSpec ℕ
spec name shard_id = record { name = name; shard_id = shard_id }

abbrev specs : List (WorkUnitSpec ℕ)
specs = spec 40 0 ∷ spec 50 1 ∷ spec 60 0 ∷ []

abbrev units : WorkUnitSet ℕ ℕ
units = record {
  work_units =
      record { name = 40; mailbox = new 0 8 }
      ∷ record { name = 50; mailbox = new 1 8 }
      ∷ record { name = 60; mailbox = new 0 8 }
      ∷ [];
  by_name = (60, 2) ∷ (50, 1) ∷ (40, 0) ∷ [];
}

made : new_set ◌==◌ 2 specs 8 ≡ ok units
unfolding new_set
made = refl

twice : new_set {M = ℕ} ◌==◌ 2 (spec 40 0 ∷ spec 40 1 ∷ []) 8 ≡ err (duplicate_name 40)
unfolding new_set
twice = refl

wrong_place : (receiver_for_current_shard ◌==◌ 50 (some 0) units).0 ≡ err (wrong_shard 50 1 0)
unfolding receiver_for_current_shard work_unit new
wrong_place = refl

new_set_lem_example :
    (0 < 2)
    × (work_unit ◌==◌ 60 units ≡ ok (2, record { name = 60; mailbox = new 0 8 }))
    × (assigned_shard ◌==◌ 60 units ≡ ok 0)
new_set_lem_example = new_set_lem ◌==◌ ==_iff 2 8 specs units 2 (spec 60 0) made refl
