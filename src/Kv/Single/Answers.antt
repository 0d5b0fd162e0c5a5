-- ===== src/Kv/Single/Answers.antt =====
-- crates/sitas-core/src/kv_service.rs: commands for keys, executed in one order on the shards and
-- on one single map.
use mathlib.Core.Path.{subst, ap₂}
use sitas.Kv.Keys.Sorting.{sort_onto}
use sitas.Common.{
  zero, suc, get_elem?-replicate, ℕ, ◌<◌, ◌≡◌, refl, sym, ◌∙◌, Bool, Option, none, some, List, [],
  ◌∷◌, map, replicate, length-replicate, get_elem?_of_lt, arith,
}
use sitas.Runtime.Shards.Order.{in_order, states_after, in_order_cons}
use sitas.Kv.Keys.{Key, sort}
use sitas.Kv.Map.{KvService, lookup, new, map_keys}
use sitas.Kv.Map.Lookup.{IsMap}
use sitas.Kv.Service.{KvCommand, KvValue, handle, ends}
use sitas.Kv.Single.{Agrees, sort_all}
use sitas.Kv.Single.Effects.{key_of, handle-Same}

-- A call of the service for one key.
pub data KvCall {ℓ κ} (K : Type ℓ) (T : Type κ) : Type (ℓ ⊔ κ) where
  get delete : K → KvCall K T
  put get_or_put : K → T → KvCall K T
  compare_and_put : K → Option T → T → KvCall K T

module _ {ℓ κ} {K : Type ℓ} {T : Type κ} where
  abbrev pub call_key : KvCall K T → K
  call_key (get k) = k
  call_key (delete k) = k
  call_key (put k v) = k
  call_key (get_or_put k v) = k
  call_key (compare_and_put k x v) = k

  abbrev pub command_of : KvCall K T → KvCommand K T
  command_of (get k) = KvCommand.get k
  command_of (delete k) = KvCommand.delete k
  command_of (put k v) = KvCommand.put k v
  command_of (get_or_put k v) = KvCommand.get_or_put k v
  command_of (compare_and_put k x v) = KvCommand.compare_and_put k x v

  -- A call at its shard, of `n`.
  abbrev pub route : (K → ℕ → ℕ) → ℕ → KvCall K T → ℕ × KvCommand K T
  route place n c = (place (call_key c) n, command_of c)

  key_of-command_of : (c : KvCall K T) → key_of (command_of c) ≡ some (call_key c)
  key_of-command_of (get k) = refl
  key_of-command_of (delete k) = refl
  key_of-command_of (put k v) = refl
  key_of-command_of (get_or_put k v) = refl
  key_of-command_of (compare_and_put k x v) = refl

module _ {ℓ κ} {K : Type ℓ} {T : Type κ} ⦃key : Key K⦄ (same_text : T → T → Bool) where
  -- The answers of one map that executes the calls one after the other, and the map that this
  -- leaves.
  unfoldable pub single_answers : List (KvCall K T) → KvService K T → List (KvValue K T)
  single_answers [] m = []
  single_answers (c ∷ cs) m =
      let result = handle same_text (command_of c) m in result.0 ∷ single_answers cs result.1

  unfoldable pub single_after : List (KvCall K T) → KvService K T → KvService K T
  single_after [] m = m
  single_after (c ∷ cs) m = single_after cs (handle same_text (command_of c) m).1

module _ {ℓ κ} {K : Type ℓ} {T : Type κ} ⦃key : Key K⦄ (same_text : T → T → Bool)
    (place : K → ℕ → ℕ) (n : ℕ) (in_range : (k : K) → place k n < n) where
  pub routed-Agrees :
      (cs : List (KvCall K T)) (ss : List (KvService K T)) (m : KvService K T)
      → Agrees place n ss m
      → (in_order (handle same_text) ends (map (route place n) cs) ss
          ≡ single_answers same_text cs m)
        × Agrees place n
            (states_after (handle same_text) ends (map (route place n) cs) ss)
            (single_after same_text cs m)
  unfolding single_answers single_after in_order states_after
  routed-Agrees [] ss m a = (refl, a)
  routed-Agrees (c ∷ cs) ss m a =
      let k = call_key c in
      let (s, at) = get_elem?_of_lt ss (place k n) (omega (arith, a.sized, in_range k)) in
      let (same, after) =
        handle-Same same_text place n ss m s a (command_of c) k (key_of-command_of c) at in
      let (e, f) =
        in_order_cons (handle same_text) ends (place k n) (command_of c) (map (route place n) cs) ss
          s at in
      let (rest, last) = routed-Agrees cs _ _ after in
      (
        e ∙ ap₂ ◌∷◌ same rest,
        subst (λ x. Agrees place n x (single_after same_text (c ∷ cs) m)) (sym f) last,
      )

module _ {ℓ} {K : Type ℓ} ⦃key : Key K⦄ where
  sort_all-new {κ} : (T : Type κ) (n : ℕ) → sort_all (replicate n (new {K = K} {T = T})) ≡ []
  unfolding sort_all sort_onto map_keys new
  sort_all-new T zero = refl
  sort_all-new T (suc n) = sort_all-new T n

module _ {ℓ κ} {K : Type ℓ} {T : Type κ} ⦃key : Key K⦄ where
  pub new-Agrees :
      (place : K → ℕ → ℕ) (n : ℕ) → Agrees place n (replicate n (new {K = K} {T = T})) new
  unfolding new lookup IsMap sort map_keys
  new-Agrees place n = record {
    sized = length-replicate n new;
    parts = λ k s at.
        subst (λ x. lookup k x.map ≡ none) (get_elem?-replicate n (place k n) new s at) refl;
    maps = λ i s at. subst (λ x. IsMap x.map) (get_elem?-replicate n i new s at) tt;
    is_map = tt;
    key_sort = sort_all-new T n;
  }
