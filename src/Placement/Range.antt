-- ===== src/Placement/Range.antt =====
-- Every key has a place: placement.rs stays within the shards and the routers within their targets.
use mathlib.Core.Path.{subst}
use sitas.Common.{
  ℕ, suc, zero, ◌%◌, ◌<◌, ◌≡◌, refl, ap, some, List, [], ◌∷◌, ◌++◌, Result, ok, err, arith, length,
  get_elem?, word, ==_of_ne,
}
use sitas.Placement.{
  write, write_byte, offset_basis, shard_of, hash_key, shard_for_hash, WorkUnitRouter,
  new_work_unit_router, route_work_unit, KeyRouterCreateError,
}

-- Hashing bytes in two writes is hashing them in one.
pub write-append : (xs ys : List ℕ) (hash : ℕ) → write (xs ++ ys) hash ≡ write ys (write xs hash)
unfolding write
write-append [] ys hash = refl
write-append (x ∷ xs) ys hash = write-append xs ys (write_byte hash x)

pub write_byte-lt : (hash byte : ℕ) → write_byte hash byte < word
unfolding write_byte
write_byte-lt hash byte = omega arith

pub write-lt : (xs : List ℕ) (hash : ℕ) → hash < word → write xs hash < word
unfolding write write_byte
write-lt [] hash h = h
write-lt (x ∷ xs) hash h = write-lt xs (write_byte hash x) (omega arith)

get_elem?_of_lt {ℓ} :
    {A : Type ℓ} (xs : List A) (i : ℕ) → i < length xs → (x : A) × (get_elem? xs i ≡ some x)
get_elem?_of_lt [] i h = absurd (omega arith)
get_elem?_of_lt (x ∷ xs) zero h = (x, refl)
get_elem?_of_lt (x ∷ xs) (suc i) h = get_elem?_of_lt xs i (omega arith)

module _ {κ} {K : Type κ} (bytes : K → List ℕ) where
  -- The hash of a key is a 64-bit word, and for a positive number of shards its shard is the hash
  -- modulo that number, which is one of the shards.
  pub shard_for_hash-lt :
      (key : K) (shard_count : ℕ)
      → 0 < shard_count
      → (hash_key bytes key < word)
        × (shard_for_hash bytes key shard_count ≡ some (hash_key bytes key % shard_count))
        × (hash_key bytes key % shard_count < shard_count)
  unfolding shard_for_hash hash_key shard_of
  shard_for_hash-lt key shard_count h = (
    write-lt (bytes key) offset_basis (omega arith),
    rw (==_of_ne shard_count 0 (omega arith)) refl,
    omega arith,
  )

  route_first {ℓ} :
      {N : Type ℓ} (key : K) (n : N) (ns : List N)
      → let r : WorkUnitRouter N = record { work_units = n ∷ ns } in
        (i : ℕ) × (m : N) × (route_work_unit bytes key r ≡ some m) × (get_elem? (n ∷ ns) i ≡ some m)
  unfolding route_work_unit
  route_first key n ns =
      let (b, q, l) = shard_for_hash-lt key (suc (length ns)) (omega arith) in
      let (m, g) = get_elem?_of_lt (n ∷ ns) (hash_key bytes key % suc (length ns)) l in
      (hash_key bytes key % suc (length ns), m, rw (route_work_unit, q) g, g)

  abbrev router_or {ℓ} :
      {N : Type ℓ}
      → WorkUnitRouter N
      → Result (WorkUnitRouter N) KeyRouterCreateError
      → WorkUnitRouter N
  router_or d (ok r) = r
  router_or d (err e) = d

  -- A router that was made for a list of work units routes every key to one of them, never out of
  -- bounds.
  route_work_unit_total {ℓ} :
      {N : Type ℓ} (key : K) (names : List N) (r : WorkUnitRouter N)
      → new_work_unit_router names ≡ ok r
      → (i : ℕ) × (n : N) × (route_work_unit bytes key r ≡ some n) × (get_elem? names i ≡ some n)
  unfolding new_work_unit_router
  route_work_unit_total key [] r e = cc
  route_work_unit_total key (n ∷ ns) r e =
      subst
        (λ r.
          (i : ℕ) × (m : _) × (route_work_unit bytes key r ≡ some m)
          × (get_elem? (n ∷ ns) i ≡ some m))
        (ap (router_or r) e) (route_first key n ns)
