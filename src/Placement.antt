-- ===== src/Placement.antt =====
-- crates/sitas-core/src/placement.rs: keys are placed on shards by a hash; and the key routers of
-- crates/sitas-core/src/shard_mailbox.rs, which choose a shard or a named work unit by it. The
-- bytes that the standard library's `Hash` writes for a key are a parameter.
pub mod Range
pub mod Spread
mod Tests
use Prim.Native.Nat.{bit_xor}
use sitas.Common.{
  ℕ, ◌*◌, ◌%◌, ◌^◌, Option, none, some, List, [], ◌∷◌, Result, ok, err, length, get_elem?, word,
  ◌==◌, if◌then◌else◌,
}

-- The state of `FnvHasher`, and `Default`.
abbrev pub offset_basis : ℕ
offset_basis = 14695981039346656037

abbrev fnv_prime : ℕ
fnv_prime = 1099511628211

-- One byte: exclusive or, then a multiplication that wraps.
pub write_byte : ℕ → ℕ → ℕ
write_byte hash byte = bit_xor hash byte * fnv_prime % word

pub write : List ℕ → ℕ → ℕ
write [] hash = hash
write (byte ∷ bytes) hash = write bytes (write_byte hash byte)

-- `hasher.finish() as usize % shard_count`; `none` is the panic on a count of zero.
pub shard_of : ℕ → ℕ → Option ℕ
shard_of hash shard_count = if shard_count == 0 then none else some (hash % shard_count)

pub data KeyRouterCreateError : Type 0 where
  zero_targets : KeyRouterCreateError

pub record UniformShardRouter : Type 0 where
  pub shard_count : ℕ

pub new_uniform : ℕ → Result UniformShardRouter KeyRouterCreateError
new_uniform shard_count =
    if shard_count == 0 then err zero_targets else ok (record { shard_count = shard_count })

pub record WorkUnitRouter {ℓ} (N : Type ℓ) : Type ℓ where
  pub work_units : List N

pub new_work_unit_router {ℓ} :
    {N : Type ℓ} → List N → Result (WorkUnitRouter N) KeyRouterCreateError
new_work_unit_router [] = err zero_targets
new_work_unit_router (n ∷ ns) = ok (record { work_units = n ∷ ns })

-- `bytes k` is what `k.hash` writes.
module _ {κ} {K : Type κ} (bytes : K → List ℕ) where
  pub hash_key : K → ℕ
  hash_key key = write (bytes key) offset_basis

  pub shard_for_hash : K → ℕ → Option ℕ
  unfolding hash_key
  shard_for_hash key shard_count = shard_of (hash_key key) shard_count

  pub route_uniform : K → UniformShardRouter → Option ℕ
  route_uniform key r = shard_for_hash key r.shard_count

  -- The index into the work units panics out of bounds, which is `none` too.
  pub route_work_unit {ℓ} : {N : Type ℓ} → K → WorkUnitRouter N → Option N
  route_work_unit key r = elim (shard_for_hash key (length r.work_units)) [
    | none ↦ none
    | some target ↦ get_elem? r.work_units target
  ]
