-- ===== src/Kv/Map/Lookup.antt =====
-- The hash map of crates/sitas-core/src/kv_service.rs: what a lookup finds after a change, and
-- which keys the change adds or removes.
use sitas.Common.{
  suc, ◌≡◌, refl, sym, ap, ◌∙◌, true, false, none, some, List, [], ◌∷◌, length, Bool-cases, inl,
  inr, arith,
}
use sitas.Kv.Keys.{Key, insert_sorted}
use sitas.Kv.Keys.Sorting.{sort_onto, insert_sorted_comm}
use sitas.Kv.Map.{lookup, insert, remove, map_keys}

module _ {ℓ} {K : Type ℓ} ⦃key : Key K⦄ where
  pub same_sym : (a b : K) → key.same a b ≡ false → key.same b a ≡ false
  same_sym a b h = elim (Bool-cases (key.same b a)) [
    | inl e ↦ absurd (false_true (sym h ∙ ap (key.same a) (key.same_eq b a e) ∙ key.same_refl a))
    | inr e ↦ e
  ]
    where
      false_true : false ≡ true → ⊥
      false_true p = cc

module _ {ℓ κ} {K : Type ℓ} {T : Type κ} ⦃key : Key K⦄ where
  -- Each key at most once.
  unfoldable pub IsMap : List (K × T) → Type κ
  IsMap [] = Unit
  IsMap (p ∷ ps) = (lookup p.0 ps ≡ none) × IsMap ps

  pub lookup_subst : (a b : K) (m : List (K × T)) → key.same a b ≡ true → lookup a m ≡ lookup b m
  lookup_subst a b m h = ap (λ k. lookup k m) (key.same_eq a b h)

  pub lookup-insert_self : (k : K) (v : T) (m : List (K × T)) → lookup k (insert k v m) ≡ some v
  unfolding lookup insert
  lookup-insert_self k v [] = ground (arith, key.same_refl k)
  lookup-insert_self k v (p ∷ ps) = ground (arith, key.same_refl k, lookup-insert_self k v ps)

  pub lookup-insert_ne :
      (k q : K) (v : T) (m : List (K × T))
      → key.same k q ≡ false
      → lookup q (insert k v m) ≡ lookup q m
  unfolding lookup insert
  lookup-insert_ne k q v [] h = ground arith
  lookup-insert_ne k q v (p ∷ ps) h = ground (arith, lookup-insert_ne k q v ps h, key.same_eq p.0 k)

  pub lookup-remove_self : (k : K) (m : List (K × T)) → IsMap m → lookup k (remove k m) ≡ none
  unfolding lookup remove IsMap
  lookup-remove_self k [] h = refl
  lookup-remove_self k (p ∷ ps) h =
      ground (arith, lookup-remove_self k ps h.1, key.same_eq p.0 k, h.0)

  pub lookup-remove_ne :
      (k q : K) (m : List (K × T)) → key.same k q ≡ false → lookup q (remove k m) ≡ lookup q m
  unfolding lookup remove
  lookup-remove_ne k q [] h = refl
  lookup-remove_ne k q (p ∷ ps) h = ground (arith, lookup-remove_ne k q ps h, key.same_eq p.0 k)

  pub insert-IsMap : (k : K) (v : T) (m : List (K × T)) → IsMap m → IsMap (insert k v m)
  unfolding IsMap insert lookup
  insert-IsMap k v [] h = (refl, tt)
  insert-IsMap k v (p ∷ ps) h = elim (Bool-cases (key.same p.0 k)) [
    | inl e ↦ rw e (sym (lookup_subst p.0 k ps e) ∙ h.0, h.1)
    | inr e ↦ rw e (lookup-insert_ne k p.0 v ps (same_sym p.0 k e) ∙ h.0, insert-IsMap k v ps h.1)
  ]

  pub remove-IsMap : (k : K) (m : List (K × T)) → IsMap m → IsMap (remove k m)
  unfolding IsMap remove lookup
  remove-IsMap k [] h = tt
  remove-IsMap k (p ∷ ps) h = elim (Bool-cases (key.same p.0 k)) [
    | inl e ↦ rw (e, remove) (h.1)
    | inr e ↦
        rw (e, remove) (lookup-remove_ne k p.0 ps (same_sym p.0 k e) ∙ h.0, remove-IsMap k ps h.1)
  ]

  -- A new key is added to the keys, a known one changes nothing.
  pub keys-insert_new :
      (k : K) (v : T) (m : List (K × T)) (t : List K)
      → lookup k m ≡ none
      → sort_onto (map_keys (insert k v m)) t ≡ insert_sorted k (sort_onto (map_keys m) t)
  unfolding lookup insert map_keys sort_onto
  keys-insert_new k v [] t h = refl
  keys-insert_new k v (p ∷ ps) t h =
      ground (arith, keys-insert_new k v ps t, insert_sorted_comm p.0 k (sort_onto (map_keys ps) t))

  pub keys-insert_known :
      (k : K) (v u : T) (m : List (K × T))
      → lookup k m ≡ some u
      → map_keys (insert k v m) ≡ map_keys m
  unfolding lookup insert map_keys
  keys-insert_known k v u [] h = absurd (cc)
  keys-insert_known k v u (p ∷ ps) h = ground (arith, keys-insert_known k v u ps, key.same_eq p.0 k)

  pub keys-remove :
      (k : K) (u : T) (m : List (K × T)) (t : List K)
      → lookup k m ≡ some u
      → sort_onto (map_keys m) t ≡ insert_sorted k (sort_onto (map_keys (remove k m)) t)
  unfolding lookup remove map_keys sort_onto
  keys-remove k u [] t h = absurd (cc)
  keys-remove k u (p ∷ ps) t h = ground (
    arith,
    keys-remove k u ps t,
    key.same_eq p.0 k,
    insert_sorted_comm p.0 k (sort_onto (map_keys (remove k ps)) t),
  )

  pub remove_unknown : (k : K) (m : List (K × T)) → lookup k m ≡ none → remove k m ≡ m
  unfolding lookup remove
  remove_unknown k [] h = refl
  remove_unknown k (p ∷ ps) h = ground (arith, remove_unknown k ps)

  pub length-map_keys : (m : List (K × T)) → length (map_keys m) ≡ length m
  unfolding map_keys
  length-map_keys [] = refl
  length-map_keys (p ∷ ps) = ap suc (length-map_keys ps)
