-- ===== src/Kv/Map.antt =====
-- crates/sitas-core/src/kv_service.rs, KvService: the hash map of a shard as an association list,
-- where a key stands at most once, and what the service does with it.
pub mod Lookup
use sitas.Common.{
  ℕ, Bool, true, false, ◌≡◌, Option, none, some, List, [], ◌∷◌, length, map, if◌then◌else◌,
}
use sitas.Kv.Keys.{Key, sort}

module _ {ℓ κ} {K : Type ℓ} {T : Type κ} ⦃key : Key K⦄ where
  -- `HashMap::get`
  unfoldable pub lookup : K → List (K × T) → Option T
  lookup k [] = none
  lookup k (p ∷ ps) = let rest = lookup k ps in if key.same p.0 k then some p.1 else rest

  -- `HashMap::insert`
  unfoldable pub insert : K → T → List (K × T) → List (K × T)
  insert k v [] = (k, v) ∷ []
  insert k v (p ∷ ps) = let rest = insert k v ps in if key.same p.0 k then (k, v) ∷ ps else p ∷ rest

  -- `HashMap::remove`
  unfoldable pub remove : K → List (K × T) → List (K × T)
  remove k [] = []
  remove k (p ∷ ps) = let rest = remove k ps in if key.same p.0 k then ps else p ∷ rest

  -- `HashMap::keys`
  unfoldable pub map_keys : List (K × T) → List K
  map_keys [] = []
  map_keys (p ∷ ps) = p.0 ∷ map_keys ps

pub record KvService {ℓ κ} (K : Type ℓ) (T : Type κ) : Type (ℓ ⊔ κ) where
  pub map : List (K × T)

module _ {ℓ κ} {K : Type ℓ} {T : Type κ} where
  unfoldable pub new : KvService K T
  new = record { map = [] }

-- `same_text` is the equality of the values.
module _ {κ} {T : Type κ} (same_text : T → T → Bool) where
  unfoldable pub same_option : Option T → Option T → Bool
  same_option none none = true
  same_option none (some b) = false
  same_option (some a) none = false
  same_option (some a) (some b) = same_text a b

module _ {ℓ κ} {K : Type ℓ} {T : Type κ} ⦃key : Key K⦄ where
  unfoldable pub get : K → KvService K T → Option T
  get k s = lookup k s.map

  unfoldable pub put : K → T → KvService K T → KvService K T
  put k v s = record { map = insert k v s.map }

  unfoldable pub compare_and_put :
      (T → T → Bool) → K → Option T → T → KvService K T → Bool × KvService K T
  compare_and_put same_text k expected v s =
      if same_option same_text (lookup k s.map) expected
      then (true, record { map = insert k v s.map })
      else (false, s)

  -- `entry(key).or_insert(value)`
  unfoldable pub get_or_put : K → T → KvService K T → T × KvService K T
  get_or_put k v s = elim (lookup k s.map) [
    | none ↦ (v, record { map = insert k v s.map })
    | some u ↦ (u, s)
  ]

  unfoldable pub delete : K → KvService K T → Option T × KvService K T
  delete k s = (lookup k s.map, record { map = remove k s.map })

  unfoldable pub len : KvService K T → ℕ
  len s = length s.map

  unfoldable pub keys : KvService K T → List K
  keys s = sort (map_keys s.map)
