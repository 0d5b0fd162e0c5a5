-- ===== src/Kv/Single.antt =====
-- crates/sitas-core/src/kv_service.rs: the maps of the shards against one single map.
pub mod Effects
pub mod Answers
pub mod Totals
use mathlib.Core.Path.{subst}
use sitas.Common.{
  ℕ, zero, suc, ◌+◌, ◌<◌, ◌≡◌, refl, sym, ap, ◌∙◌, ◌≢◌, inl, inr, Bool, true, false, Option, none,
  some, List, [], ◌∷◌, length, get_elem?, set, replicate, Bool-cases, Option-cases, ==_iff, ◌==◌,
  arith, get_elem?-set_cases, get_elem?-set_self, get_elem?-lt, length-set, length-replicate,
}
use sitas.Kv.Keys.{Key, sort, insert_sorted}
use sitas.Kv.Keys.Sorting.{sort_onto, sort_onto-insert_sorted, insert_sorted_inj}
use sitas.Kv.Map.{KvService, lookup, insert, remove, map_keys, new}
use sitas.Kv.Map.Lookup.{
  IsMap, lookup-insert_self, lookup-insert_ne, lookup-remove_self, lookup-remove_ne, insert-IsMap,
  remove-IsMap, keys-insert_new, keys-insert_known, keys-remove, remove_unknown, lookup_subst,
}

module _ {ℓ} {K : Type ℓ} ⦃key : Key K⦄ where
  sort-sort_onto : (xs : List K) → sort xs ≡ sort_onto xs []
  unfolding sort sort_onto
  sort-sort_onto [] = refl
  sort-sort_onto (a ∷ xs) = ap (insert_sorted a) (sort-sort_onto xs)

module _ {ℓ κ} {K : Type ℓ} {T : Type κ} ⦃key : Key K⦄ where
  -- The keys of all shards, sorted.
  unfoldable pub sort_all : List (KvService K T) → List K
  sort_all [] = []
  sort_all (s ∷ ss) = sort_onto (map_keys s.map) (sort_all ss)

  sort_all-set_more :
      (k : K) (ss : List (KvService K T)) (i : ℕ) (s s' : KvService K T)
      → get_elem? ss i ≡ some s
      → ((t : List K)
          → sort_onto (map_keys s'.map) t ≡ insert_sorted k (sort_onto (map_keys s.map) t))
      → sort_all (set ss i s') ≡ insert_sorted k (sort_all ss)
  unfolding sort_all
  sort_all-set_more k [] i s s' at h = absurd (cc)
  sort_all-set_more k (r ∷ ss) zero s s' at h =
      let e : r ≡ s = cc in
      h (sort_all ss) ∙ ap (λ x. insert_sorted k (sort_onto (map_keys x.map) (sort_all ss))) (sym e)
  sort_all-set_more k (r ∷ ss) (suc i) s s' at h =
      ap (sort_onto (map_keys r.map)) (sort_all-set_more k ss i s s' at h)
      ∙ sort_onto-insert_sorted k (map_keys r.map) (sort_all ss)

  sort_all-set_less :
      (k : K) (ss : List (KvService K T)) (i : ℕ) (s s' : KvService K T)
      → get_elem? ss i ≡ some s
      → ((t : List K)
          → sort_onto (map_keys s.map) t ≡ insert_sorted k (sort_onto (map_keys s'.map) t))
      → sort_all ss ≡ insert_sorted k (sort_all (set ss i s'))
  unfolding sort_all
  sort_all-set_less k [] i s s' at h = absurd (cc)
  sort_all-set_less k (r ∷ ss) zero s s' at h =
      let e : r ≡ s = cc in ap (λ x. sort_onto (map_keys x.map) (sort_all ss)) e ∙ h (sort_all ss)
  sort_all-set_less k (r ∷ ss) (suc i) s s' at h =
      ap (sort_onto (map_keys r.map)) (sort_all-set_less k ss i s s' at h)
      ∙ sort_onto-insert_sorted k (map_keys r.map) (sort_all (set ss i s'))

  sort_all-set_same :
      (ss : List (KvService K T)) (i : ℕ) (s s' : KvService K T)
      → get_elem? ss i ≡ some s
      → map_keys s'.map ≡ map_keys s.map
      → sort_all (set ss i s') ≡ sort_all ss
  unfolding sort_all
  sort_all-set_same [] i s s' at h = refl
  sort_all-set_same (r ∷ ss) zero s s' at h =
      let e : r ≡ s = cc in
      ap (λ ks. sort_onto ks (sort_all ss)) (h ∙ ap (λ x. map_keys x.map) (sym e))
  sort_all-set_same (r ∷ ss) (suc i) s s' at h =
      ap (sort_onto (map_keys r.map)) (sort_all-set_same ss i s s' at h)

module _ {ℓ κ} {K : Type ℓ} {T : Type κ} ⦃key : Key K⦄ (place : K → ℕ → ℕ) (n : ℕ) where
  -- The `n` maps of the shards hold together what the single map holds, each key at its shard.
  pub record Agrees (ss : List (KvService K T)) (m : KvService K T) : Type (ℓ ⊔ κ) where
    pub sized : length ss ≡ n
    pub parts :
        (k : K) (s : KvService K T)
        → get_elem? ss (place k n) ≡ some s
        → lookup k s.map ≡ lookup k m.map
    pub maps : (i : ℕ) (s : KvService K T) → get_elem? ss i ≡ some s → IsMap s.map
    pub is_map : IsMap m.map
    pub key_sort : sort_all ss ≡ sort (map_keys m.map)

  -- One change of the same key in the single map and in the map of its shard.
  change-Agrees :
      (ss : List (KvService K T)) (m m' s s' : KvService K T) (k : K)
      → Agrees ss m
      → get_elem? ss (place k n) ≡ some s
      → IsMap s'.map
      → IsMap m'.map
      → lookup k s'.map ≡ lookup k m'.map
      → ((q : K) → key.same k q ≡ false → lookup q s'.map ≡ lookup q s.map)
      → ((q : K) → key.same k q ≡ false → lookup q m'.map ≡ lookup q m.map)
      → sort_all (set ss (place k n) s') ≡ sort (map_keys m'.map)
      → Agrees (set ss (place k n) s') m'
  change-Agrees ss m m' s s' k a at sm mm here others_s others_m sorted = record {
    sized = length-set ss (place k n) s' ∙ a.sized;
    parts = λ q r at_q. elim (Bool-cases (key.same k q)) [
      | inl e ↦
          let kq = key.same_eq k q e in
          let there : get_elem? (set ss (place k n) s') (place k n) ≡ some r =
            ap (λ x. get_elem? (set ss (place k n) s') (place x n)) kq ∙ at_q in
          let own = get_elem?-set_self ss (place k n) s' (get_elem?-lt ss (place k n) s at) in
          let r_eq : s' ≡ r = cc in
          subst (λ x. lookup x r.map ≡ lookup x m'.map) kq
            (subst (λ y. lookup k y.map ≡ lookup k m'.map) r_eq here)
      | inr e ↦ elim (get_elem?-set_cases ss s' (place k n) (place q n) r at_q) [
        | inl p ↦
            ap (λ x. lookup q x.map) (sym p.1)
            ∙ others_s q e
            ∙ a.parts q s (ap (get_elem? ss) (sym p.0) ∙ at)
            ∙ sym (others_m q e)
        | inr p ↦ a.parts q r p.1 ∙ sym (others_m q e)
      ]
    ];
    maps = λ i r at_i. elim (get_elem?-set_cases ss s' (place k n) i r at_i) [
      | inl p ↦ subst (λ x. IsMap x.map) p.1 sm
      | inr p ↦ a.maps i r p.1
    ];
    is_map = mm;
    key_sort = sorted;
  }

  pub insert-Agrees :
      (ss : List (KvService K T)) (m s : KvService K T) (k : K) (v : T)
      → Agrees ss m
      → get_elem? ss (place k n) ≡ some s
      → Agrees
          (set ss (place k n) (record { map = insert k v s.map }))
          (record { map = insert k v m.map })
  insert-Agrees ss m s k v a at =
      change-Agrees ss m (record { map = insert k v m.map }) s (record { map = insert k v s.map }) k
        a at (insert-IsMap k v s.map (a.maps (place k n) s at)) (insert-IsMap k v m.map a.is_map)
        (lookup-insert_self k v s.map ∙ sym (lookup-insert_self k v m.map))
        (λ q e. lookup-insert_ne k q v s.map e) (λ q e. lookup-insert_ne k q v m.map e)
        (elim (Option-cases (lookup k m.map)) [
          | inl e ↦
              sort_all-set_more k ss (place k n) s (record { map = insert k v s.map }) at
                (λ t. keys-insert_new k v s.map t (a.parts k s at ∙ e))
              ∙ ap (insert_sorted k) (a.key_sort ∙ sort-sort_onto (map_keys m.map))
              ∙ sym (keys-insert_new k v m.map [] e)
              ∙ sym (sort-sort_onto (map_keys (insert k v m.map)))
          | inr (u, e) ↦
              sort_all-set_same ss (place k n) s (record { map = insert k v s.map }) at
                (keys-insert_known k v u s.map (a.parts k s at ∙ e))
              ∙ a.key_sort
              ∙ ap sort (sym (keys-insert_known k v u m.map e))
        ])

  pub remove-Agrees :
      (ss : List (KvService K T)) (m s : KvService K T) (k : K)
      → Agrees ss m
      → get_elem? ss (place k n) ≡ some s
      → Agrees
          (set ss (place k n) (record { map = remove k s.map }))
          (record { map = remove k m.map })
  remove-Agrees ss m s k a at =
      change-Agrees ss m (record { map = remove k m.map }) s (record { map = remove k s.map }) k a
        at (remove-IsMap k s.map (a.maps (place k n) s at)) (remove-IsMap k m.map a.is_map)
        (lookup-remove_self k s.map (a.maps (place k n) s at)
          ∙ sym (lookup-remove_self k m.map a.is_map))
        (λ q e. lookup-remove_ne k q s.map e) (λ q e. lookup-remove_ne k q m.map e)
        (elim (Option-cases (lookup k m.map)) [
          | inl e ↦
              sort_all-set_same ss (place k n) s (record { map = remove k s.map }) at
                (ap map_keys (remove_unknown k s.map (a.parts k s at ∙ e)))
              ∙ a.key_sort
              ∙ ap (λ x. sort (map_keys x)) (sym (remove_unknown k m.map e))
          | inr (u, e) ↦ insert_sorted_inj k _ _ (
              sym (
                sort_all-set_less k ss (place k n) s (record { map = remove k s.map }) at
                  (λ t. keys-remove k u s.map t (a.parts k s at ∙ e)))
              ∙ a.key_sort
              ∙ sort-sort_onto (map_keys m.map)
              ∙ keys-remove k u m.map [] e
              ∙ ap (insert_sorted k) (sym (sort-sort_onto (map_keys (remove k m.map)))))
        ])
