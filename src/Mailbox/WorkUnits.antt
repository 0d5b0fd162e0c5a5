-- ===== src/Mailbox/WorkUnits.antt =====
-- crates/sitas-core/src/shard_mailbox.rs, WorkUnitMailboxSet: mailboxes addressed by the names of
-- logical work units. The hash map from names to indices is an association list with distinct
-- names, and the test whether two names are equal is a parameter. A handle is the index of the
-- mailbox in the set.
pub mod Names
mod Tests
use sitas.Common.{
  ℕ, ◌+◌, Bool, true, false, not, Option, none, some, List, [], ◌∷◌, ◌++◌, Result, ok, err, length,
  is_empty, get_elem?, set, leb, ◌==◌, if◌then◌else◌,
}
use sitas.Mailbox.{Mailbox, new, add_sender}

pub record WorkUnitSpec {κ} (N : Type κ) : Type κ where
  pub name : N
  pub shard_id : ℕ

pub data WorkUnitCreateError {κ} (N : Type κ) : Type κ where
  no_work_units zero_capacity : WorkUnitCreateError N
  invalid_shard : N → ℕ → WorkUnitCreateError N
  duplicate_name : N → WorkUnitCreateError N

pub data WorkUnitAddressError {κ} (N : Type κ) : Type κ where
  unknown_work_unit not_on_shard : N → WorkUnitAddressError N
  wrong_shard : N → ℕ → ℕ → WorkUnitAddressError N
  receiver_already_taken : N → ℕ → WorkUnitAddressError N

pub record WorkUnitMailbox {κ ℓ} (N : Type κ) (M : Type ℓ) : Type (κ ⊔ ℓ) where
  pub name : N
  pub mailbox : Mailbox M

pub record WorkUnitSet {κ ℓ} (N : Type κ) (M : Type ℓ) : Type (κ ⊔ ℓ) where
  pub work_units : List (WorkUnitMailbox N M)
  pub by_name : List (N × ℕ)

abbrev known : Option ℕ → Bool
known none = false
known (some i) = true

module _ {κ} {N : Type κ} (same : N → N → Bool) where
  -- `HashMap::get`
  pub find_name : N → List (N × ℕ) → Option ℕ
  find_name name [] = none
  find_name name (p ∷ ps) = let rest = find_name name ps in if same p.0 name then some p.1 else rest

module _ {κ ℓ} {N : Type κ} {M : Type ℓ} where
  -- The body of the loop for a specification that passes the checks.
  add_unit : WorkUnitSpec N → ℕ → WorkUnitSet N M → WorkUnitSet N M
  add_unit spec capacity s = record {
    work_units =
        s.work_units ++ record { name = spec.name; mailbox = new spec.shard_id capacity } ∷ [];
    by_name = (spec.name, length s.work_units) ∷ s.by_name;
  }

  pub work_unit_count : WorkUnitSet N M → ℕ
  work_unit_count s = length s.work_units

  -- The index of a work unit and its mailbox; an index of the map is in bounds.
  unit_at :
      N → Option ℕ → WorkUnitSet N M → Result (ℕ × WorkUnitMailbox N M) (WorkUnitAddressError N)
  unit_at name none s = err (unknown_work_unit name)
  unit_at name (some i) s = elim (get_elem? s.work_units i) [
    | none ↦ err (unknown_work_unit name)
    | some u ↦ ok (i, u)
  ]

  put_mailbox : ℕ → WorkUnitMailbox N M → Mailbox M → WorkUnitSet N M → WorkUnitSet N M
  put_mailbox i u b s = record s { work_units = set s.work_units i (record u { mailbox = b }) }

  take_receiver :
      N
      → ℕ
      → WorkUnitMailbox N M
      → WorkUnitSet N M
      → Result ℕ (WorkUnitAddressError N) × WorkUnitSet N M
  unfolding put_mailbox
  take_receiver name i u s =
      if u.mailbox.receiver_taken
      then (err (receiver_already_taken name u.mailbox.shard_id), s)
      else (ok i, put_mailbox i u (record (u.mailbox) { receiver_taken = true }) s)

module _ {κ ℓ} {N : Type κ} {M : Type ℓ} (same : N → N → Bool) where
  add_units :
      ℕ
      → ℕ
      → List (WorkUnitSpec N)
      → WorkUnitSet N M
      → Result (WorkUnitSet N M) (WorkUnitCreateError N)
  unfolding find_name add_unit
  add_units shard_count capacity [] s = if is_empty s.work_units then err no_work_units else ok s
  add_units shard_count capacity (spec ∷ specs) s =
      let rest = add_units shard_count capacity specs (add_unit spec capacity s) in
      if leb shard_count spec.shard_id
      then err (invalid_shard spec.name spec.shard_id)
      else if known (find_name same spec.name s.by_name)
      then err (duplicate_name spec.name)
      else rest

  pub new_set : ℕ → List (WorkUnitSpec N) → ℕ → Result (WorkUnitSet N M) (WorkUnitCreateError N)
  unfolding add_units
  new_set shard_count specs capacity =
      if capacity == 0
      then err zero_capacity
      else add_units shard_count capacity specs (record { work_units = []; by_name = [] })

  pub work_unit : N → WorkUnitSet N M → Result (ℕ × WorkUnitMailbox N M) (WorkUnitAddressError N)
  unfolding find_name unit_at
  work_unit name s = unit_at name (find_name same name s.by_name) s

  pub assigned_shard : N → WorkUnitSet N M → Result ℕ (WorkUnitAddressError N)
  assigned_shard name s = elim (work_unit name s) [
    | err e ↦ err e
    | ok (i, u) ↦ ok u.mailbox.shard_id
  ]

  pub sender_to : N → WorkUnitSet N M → Result ℕ (WorkUnitAddressError N) × WorkUnitSet N M
  unfolding put_mailbox
  sender_to name s = elim (work_unit name s) [
    | err e ↦ (err e, s)
    | ok (i, u) ↦ (ok i, put_mailbox i u (add_sender u.mailbox) s)
  ]

  pub receiver_for : N → WorkUnitSet N M → Result ℕ (WorkUnitAddressError N) × WorkUnitSet N M
  unfolding take_receiver
  receiver_for name s = elim (work_unit name s) [
    | err e ↦ (err e, s)
    | ok (i, u) ↦ take_receiver name i u s
  ]

  -- The receiver goes to a task on the assigned shard only.
  for_shard :
      N → Option ℕ → ℕ → WorkUnitSet N M → Result ℕ (WorkUnitAddressError N) × WorkUnitSet N M
  unfolding receiver_for
  for_shard name none assigned s = (err (not_on_shard name), s)
  for_shard name (some current) assigned s =
      if current == assigned
      then receiver_for name s
      else (err (wrong_shard name assigned current), s)

  pub receiver_for_current_shard :
      N → Option ℕ → WorkUnitSet N M → Result ℕ (WorkUnitAddressError N) × WorkUnitSet N M
  unfolding for_shard
  receiver_for_current_shard name current s = elim (work_unit name s) [
    | err e ↦ (err e, s)
    | ok (i, u) ↦ for_shard name current u.mailbox.shard_id s
  ]
