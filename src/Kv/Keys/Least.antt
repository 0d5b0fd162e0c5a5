-- ===== src/Kv/Keys/Least.antt =====
-- The sort of crates/sitas-core/src/kv_service.rs: the least key of a sorted list, and what holds
-- of all keys.
use mathlib.Core.Path.{subst}
use sitas.Common.{
  ◌≡◌, refl, ap, sym, ◌∙◌, inl, inr, true, false, List, [], ◌∷◌, All, Bool-cases, List-cases, ◌⊎◌,
  arith,
}
use sitas.Kv.Keys.{Key, insert_sorted, sort}

module _ {ℓ} {K : Type ℓ} ⦃key : Key K⦄ where
  pub le_refl : (a : K) → key.le a a ≡ true
  le_refl a = elim (Bool-cases (key.le a a)) [ inl e ↦ e | inr e ↦ key.le_total a a e ]

  insert_sorted-All {κ} :
      (P : K → Type κ) (a : K) (xs : List K) → P a → All P xs → All P (insert_sorted a xs)
  unfolding insert_sorted
  insert_sorted-All P a [] p h = (p, tt)
  insert_sorted-All P a (b ∷ xs) p h = elim (Bool-cases (key.le a b)) [
    | inl e ↦ rw (e, insert_sorted) (p, (h.0, h.1))
    | inr e ↦ rw (e, insert_sorted) (h.0, insert_sorted-All P a xs p h.1)
  ]

  pub sort-All {κ} : (P : K → Type κ) (xs : List K) → All P xs → All P (sort xs)
  unfolding sort
  sort-All P [] h = tt
  sort-All P (x ∷ xs) h = insert_sorted-All P x (sort xs) h.0 (sort-All P xs h.1)

  All-le :
      (a b : K) (xs : List K)
      → key.le a b ≡ true
      → All (λ y. key.le b y ≡ true) xs
      → All (λ y. key.le a y ≡ true) xs
  All-le a b [] e h = tt
  All-le a b (x ∷ xs) e h = (key.le_trans a b x e h.0, All-le a b xs e h.1)

  insert_sorted-ne : (a : K) (xs : List K) → insert_sorted a xs ≡ [] → ⊥
  unfolding insert_sorted
  insert_sorted-ne a [] e = cc
  insert_sorted-ne a (b ∷ xs) e = ground arith

  sort_empty : (xs : List K) → sort xs ≡ [] → xs ≡ []
  unfolding sort
  sort_empty [] e = refl
  sort_empty (x ∷ xs) e = absurd (insert_sorted-ne x (sort xs) e)

  -- The first key after a key was added.
  pub insert_sorted-front :
      (a b c : K) (bs cs : List K)
      → insert_sorted a (b ∷ bs) ≡ c ∷ cs
      → ((key.le a b ≡ true) × (a ≡ c)) ⊎ ((key.le a b ≡ false) × (b ≡ c))
  unfolding insert_sorted
  insert_sorted-front a b c bs cs e = elim (Bool-cases (key.le a b)) [
    | inl t ↦ inl (t, ground (arith, e, t))
    | inr t ↦ inr (t, ground (arith, e, t))
  ]

  -- The first key of a sorted list is the least.
  pub sort-All_le :
      (xs : List K) (a : K) (rest : List K) → sort xs ≡ a ∷ rest → All (λ y. key.le a y ≡ true) xs
  unfolding sort insert_sorted
  sort-All_le [] a rest e = absurd (cc)
  sort-All_le (x ∷ xs) a rest e = elim (List-cases (sort xs)) [
    | inl n ↦
        let h : x ∷ [] ≡ a ∷ rest = ap (insert_sorted x) (sym n) ∙ e in
        let same : x ≡ a = (cc h) in
        subst (λ k. All (λ y. key.le k y ≡ true) (x ∷ xs)) same
          (le_refl x, subst (All (λ y. key.le x y ≡ true)) (sym (sort_empty xs n)) tt)
    | inr (b, bs, n) ↦
        let below = sort-All_le xs b bs n in
        elim (insert_sorted-front x b a bs rest (ap (insert_sorted x) (sym n) ∙ e)) [
          | inl (t, same) ↦
              subst (λ k. All (λ y. key.le k y ≡ true) (x ∷ xs)) same
                (le_refl x, All-le x b xs t below)
          | inr (t, same) ↦
              subst (λ k. All (λ y. key.le k y ≡ true) (x ∷ xs)) same (key.le_total x b t, below)
        ]
  ]

  -- A key below all others is put at the front.
  pub insert_sorted_least :
      (a : K) (xs : List K) → All (λ y. key.le a y ≡ true) xs → insert_sorted a xs ≡ a ∷ xs
  unfolding insert_sorted
  insert_sorted_least a [] h = refl
  insert_sorted_least a (x ∷ xs) h = rw (h.0, insert_sorted) refl
