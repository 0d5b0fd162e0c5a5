-- ===== src/Placement/Tests.antt =====
-- Runs and instances for placement.rs and the routers.
use sitas.Common.{ℕ, ◌%◌, ◌<◌, ◌≡◌, refl, none, some, ◌≢◌, List, [], ◌∷◌, ◌++◌, ok, arith, word}
use sitas.Placement.{
  write, write_byte, offset_basis, shard_of, hash_key, shard_for_hash, WorkUnitRouter,
  new_work_unit_router,
}
use sitas.Placement.Range.{write-append}
use sitas.Placement.Spread.{undo, hash_key_undone}

-- A string is written as its bytes and then 255.
abbrev bytes : List ℕ → List ℕ
bytes s = s ++ 255 ∷ []

abbrev units : List ℕ
units = 10 ∷ 11 ∷ 12 ∷ []

abbrev router : WorkUnitRouter ℕ
router = record { work_units = units }

no_shards : shard_for_hash bytes (97 ∷ []) 0 ≡ none
unfolding shard_for_hash shard_of
no_shards = refl

write-append_example :
    write (97 ∷ 98 ∷ 255 ∷ []) offset_basis ≡ write (255 ∷ []) (write (97 ∷ 98 ∷ []) offset_basis)
write-append_example = write-append (97 ∷ 98 ∷ []) (255 ∷ []) offset_basis

hash_key_undone_example :
    (hash_key bytes (97 ∷ 98 ∷ []) < word)
    × (undo (97 ∷ 98 ∷ 255 ∷ []) (hash_key bytes (97 ∷ 98 ∷ [])) ≡ offset_basis)
    × (hash_key bytes (97 ∷ 98 ∷ []) ≢ hash_key bytes (99 ∷ 98 ∷ []))
hash_key_undone_example =
    hash_key_undone bytes (97 ∷ 98 ∷ []) (99 ∷ 98 ∷ []) [] (98 ∷ 255 ∷ []) 97 99
      (omega arith, (omega arith, (omega arith, tt)))
      (omega arith, (omega arith, (omega arith, tt))) refl refl (λ e. omega (arith, e))

-- The published values for "a" and "foobar".
hashes_of_fnv :
    (write (97 ∷ []) offset_basis ≡ 0xaf63dc4c8601ec8c)
    × (write (102 ∷ 111 ∷ 111 ∷ 98 ∷ 97 ∷ 114 ∷ []) offset_basis ≡ 0x85944171f73967e8)
unfolding write write_byte
hashes_of_fnv = (refl, refl)

shard_of_key : shard_for_hash bytes (97 ∷ []) 3 ≡ some (hash_key bytes (97 ∷ []) % 3)
unfolding shard_for_hash shard_of
shard_of_key = refl

made : new_work_unit_router units ≡ ok router
unfolding new_work_unit_router
made = refl
