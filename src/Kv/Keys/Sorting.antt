-- ===== src/Kv/Keys/Sorting.antt =====
-- The sort of crates/sitas-core/src/kv_service.rs: the order in which keys are added does not
-- matter.
use sitas.Common.{
  suc, ◌+◌, if◌then◌else◌, ◌≡◌, refl, sym, ap, ◌∙◌, inl, inr, true, List, [], ◌∷◌, ◌++◌, Bool-cases,
  length, arith,
}
use sitas.Kv.Keys.{Key, insert_sorted, sort}

module _ {ℓ} {K : Type ℓ} ⦃key : Key K⦄ where
  insert_sorted_comm_le :
      (a b : K) (t : List K)
      → key.le a b ≡ true
      → insert_sorted a (insert_sorted b t) ≡ insert_sorted b (insert_sorted a t)
  unfolding insert_sorted
  insert_sorted_comm_le a b [] h = ground (arith, key.le_antisymm a b)
  insert_sorted_comm_le a b (c ∷ t) h = ground (
    arith,
    insert_sorted_comm_le a b t h,
    key.le_antisymm a b,
    key.le_trans a b c,
    key.le_trans b a c,
  )

  pub insert_sorted_comm :
      (a b : K) (t : List K)
      → insert_sorted a (insert_sorted b t) ≡ insert_sorted b (insert_sorted a t)
  insert_sorted_comm a b t = elim (Bool-cases (key.le a b)) [
    | inl e ↦ insert_sorted_comm_le a b t e
    | inr e ↦ sym (insert_sorted_comm_le b a t (key.le_total a b e))
  ]

  -- Keys added to a sorted list one by one.
  unfoldable pub sort_onto : List K → List K → List K
  sort_onto [] t = t
  sort_onto (a ∷ xs) t = insert_sorted a (sort_onto xs t)

  pub sort_onto-insert_sorted :
      (a : K) (xs t : List K) → sort_onto xs (insert_sorted a t) ≡ insert_sorted a (sort_onto xs t)
  unfolding sort_onto
  sort_onto-insert_sorted a [] t = refl
  sort_onto-insert_sorted a (b ∷ xs) t =
      ap (insert_sorted b) (sort_onto-insert_sorted a xs t)
      ∙ insert_sorted_comm b a (sort_onto xs t)

  insert_sorted-sort_onto :
      (a : K) (xs t : List K) → sort_onto (insert_sorted a xs) t ≡ insert_sorted a (sort_onto xs t)
  unfolding insert_sorted sort_onto
  insert_sorted-sort_onto a [] t = refl
  insert_sorted-sort_onto a (b ∷ xs) t = elim (Bool-cases (key.le a b)) [
    | inl e ↦ rw (e, sort_onto) refl
    | inr e ↦
        rw (e, sort_onto)
          (ap (insert_sorted b) (insert_sorted-sort_onto a xs t)
            ∙ insert_sorted_comm b a (sort_onto xs t))
  ]

  -- Sorting first makes no difference.
  pub sort_onto-sort : (xs t : List K) → sort_onto (sort xs) t ≡ sort_onto xs t
  unfolding sort sort_onto
  sort_onto-sort [] t = refl
  sort_onto-sort (a ∷ xs) t =
      insert_sorted-sort_onto a (sort xs) t ∙ ap (insert_sorted a) (sort_onto-sort xs t)

  pub sort-append : (xs ys : List K) → sort (xs ++ ys) ≡ sort_onto xs (sort ys)
  unfolding sort sort_onto
  sort-append [] ys = refl
  sort-append (a ∷ xs) ys = ap (insert_sorted a) (sort-append xs ys)

  pub length-insert_sorted : (a : K) (t : List K) → length (insert_sorted a t) ≡ suc (length t)
  unfolding insert_sorted
  length-insert_sorted a [] = refl
  length-insert_sorted a (b ∷ t) = ground (arith, length-insert_sorted a t)

  pub length-sort_onto : (xs t : List K) → length (sort_onto xs t) ≡ length xs + length t
  unfolding sort_onto
  length-sort_onto [] t = omega arith
  length-sort_onto (a ∷ xs) t =
      omega (arith, length-insert_sorted a (sort_onto xs t), length-sort_onto xs t)

  -- What was added can be taken away: the first key equal to `a`.
  erase : K → List K → List K
  erase a [] = []
  erase a (b ∷ t) = let rest = erase a t in if key.same a b then t else b ∷ rest

  erase-insert_sorted : (a : K) (t : List K) → erase a (insert_sorted a t) ≡ t
  unfolding erase insert_sorted
  erase-insert_sorted a [] = ground (arith, key.same_refl a)
  erase-insert_sorted a (b ∷ t) =
      ground (arith, key.same_refl a, key.same_eq a b, erase-insert_sorted a t, key.le_total a b)

  pub insert_sorted_inj : (a : K) (s t : List K) → insert_sorted a s ≡ insert_sorted a t → s ≡ t
  insert_sorted_inj a s t h =
      sym (erase-insert_sorted a s) ∙ ap (erase a) h ∙ erase-insert_sorted a t

  pub insert_sorted_front_inj : (a : K) (s t : List K) → insert_sorted a t ≡ a ∷ s → t ≡ s
  unfolding erase
  insert_sorted_front_inj a s t h =
      sym (erase-insert_sorted a t) ∙ ap (erase a) h ∙ rw (key.same_refl a, erase) refl
