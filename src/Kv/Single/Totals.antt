-- ===== src/Kv/Single/Totals.antt =====
-- crates/sitas-core/src/kv_service.rs: what `total_len` and `all_keys` answer.
use sitas.Common.{
  ℕ, ◌+◌, ◌<◌, ◌≡◌, refl, sym, ap, ◌∙◌, List, [], ◌∷◌, ◌++◌, ok, map, length, replicate, word,
  add_word, arith, append_assoc, append-nil, Bool,
}
use sitas.Runtime.Shards.Order.{states_after}
use sitas.Kv.Keys.{Key, sort}
use sitas.Kv.Keys.Sorting.{sort_onto, sort-append, sort_onto-sort, length-sort_onto}
use sitas.Kv.Map.{KvService, map_keys, len, keys, new}
use sitas.Kv.Map.Lookup.{length-map_keys}
use sitas.Kv.Service.{handle, ends}
use sitas.Kv.Service.Collect.{wait_total_len, total_len_from, wait_all_keys, all_keys_from}
use sitas.Kv.Single.{sort_all, sort-sort_onto}
use sitas.Kv.Single.Answers.{KvCall, route, single_after, routed-Agrees, new-Agrees}

module _ {ℓ} {K : Type ℓ} ⦃key : Key K⦄ where
  length-sort : (xs : List K) → length (sort xs) ≡ length xs
  length-sort xs = ap length (sort-sort_onto xs) ∙ length-sort_onto xs [] ∙ omega arith

module _ {ℓ κ} {K : Type ℓ} {T : Type κ} ⦃key : Key K⦄ where
  abbrev keys_of : List (KvService K T) → List K
  keys_of [] = []
  keys_of (s ∷ ss) = keys s ++ keys_of ss

  sort-keys_of : (ss : List (KvService K T)) → sort (keys_of ss) ≡ sort_all ss
  unfolding sort_all keys sort
  sort-keys_of [] = refl
  sort-keys_of (s ∷ ss) =
      sort-append (keys s) (keys_of ss)
      ∙ sort_onto-sort (map_keys s.map) (sort (keys_of ss))
      ∙ ap (sort_onto (map_keys s.map)) (sort-keys_of ss)

  all_keys_from-ok :
      (ss : List (KvService K T)) (before : List K)
      → all_keys_from before (map (λ s. ok (keys s)) ss) ≡ ok (before ++ keys_of ss)
  unfolding all_keys_from
  all_keys_from-ok [] before = ap ok (sym (append-nil before))
  all_keys_from-ok (s ∷ ss) before =
      all_keys_from-ok ss (before ++ keys s) ∙ ap ok (append_assoc before (keys s) (keys_of ss))

  total_len_from-ok :
      (ss : List (KvService K T)) (before : ℕ)
      → before + length (sort_all ss) < word
      → total_len_from before (map (λ s. ok (len s)) ss) ≡ ok (before + length (sort_all ss))
  unfolding total_len_from sort_all len
  total_len_from-ok [] before h = ap ok (omega arith)
  total_len_from-ok (s ∷ ss) before h =
      let more = length-sort_onto (map_keys s.map) (sort_all ss) in
      let own = length-map_keys s.map in
      let sum : add_word before (length s.map) ≡ before + length s.map =
        omega (arith, more, own, h) in
      ap (λ x. total_len_from x (map (λ r. ok (len r)) ss)) sum
      ∙ total_len_from-ok ss (before + length s.map) (omega (arith, more, own, h))
      ∙ ap ok (omega (arith, more, own))

module _ {ℓ κ} {K : Type ℓ} {T : Type κ} ⦃key : Key K⦄ (same_text : T → T → Bool)
    (place : K → ℕ → ℕ) (n : ℕ) (in_range : (k : K) → place k n < n) where
  -- Let any calls for keys be executed in one order, each on the map of its shard, from empty maps.
  -- Then the lists of keys of the `n` shards give `all_keys` the sorted keys of the one map that
  -- executes the same calls; and their sizes give `total_len` its size, if that is below 2^64.
  pub totals_agree :
      (cs : List (KvCall K T))
      → let ss = states_after (handle same_text) ends (map (route place n) cs) (replicate n new) in
        let m = single_after same_text cs new in
        len m < word
        → (wait_all_keys (map (λ s. ok (keys s)) ss) ≡ ok (keys m))
          × (wait_total_len (map (λ s. ok (len s)) ss) ≡ ok (len m))
  unfolding wait_all_keys wait_total_len keys len
  totals_agree cs h =
      let ss = states_after (handle same_text) ends (map (route place n) cs) (replicate n new) in
      let m = single_after same_text cs new in
      let a =
        (routed-Agrees same_text place n in_range cs (replicate n new) new
          (new-Agrees place n)).1 in
      let size = ap length a.key_sort ∙ length-sort (map_keys m.map) ∙ length-map_keys m.map in
      (
        rw (all_keys_from-ok ss [], wait_all_keys) (ap ok (sort-keys_of ss ∙ a.key_sort)),
        total_len_from-ok ss 0 (omega (arith, size, h)) ∙ ap ok (omega (arith, size)),
      )
