-- ===== src/Common/Places.antt =====
-- Elements of lists by index, after an element was appended or a place written.
use Prim.Native.Nat.{ℕ, zero, suc, ◌<◌}
use mathlib.Core.Path.{◌≡◌, refl, ap}
use mathlib.Core.Logic.{◌≢◌, ◌⊎◌, inl, inr}
use mathlib.Core.List.{List, [], ◌∷◌, ◌++◌}
use mathlib.Core.Option.{some}
use native.Mathlib.Omega.{arith}
use sitas.Common.Lists.{length, replicate, get_elem?, set}

module _ {ℓ} {A : Type ℓ} where
  pub List-cases : (xs : List A) → (xs ≡ []) ⊎ ((x : A) × (rest : List A) × (xs ≡ x ∷ rest))
  List-cases [] = inl refl
  List-cases (x ∷ xs) = inr (x, xs, refl)

  pub get_elem?-lt : (xs : List A) (i : ℕ) (a : A) → get_elem? xs i ≡ some a → i < length xs
  get_elem?-lt [] i a h = absurd (ground arith)
  get_elem?-lt (x ∷ xs) zero a h = omega arith
  get_elem?-lt (x ∷ xs) (suc i) a h = omega (arith, get_elem?-lt xs i a h)

  pub get_elem?-append :
      (xs ys : List A) (i : ℕ) (a : A) → get_elem? xs i ≡ some a → get_elem? (xs ++ ys) i ≡ some a
  get_elem?-append [] ys i a h = absurd (ground arith)
  get_elem?-append (x ∷ xs) ys zero a h = h
  get_elem?-append (x ∷ xs) ys (suc i) a h = get_elem?-append xs ys i a h

  pub get_elem?-append_last : (xs : List A) (a : A) → get_elem? (xs ++ a ∷ []) (length xs) ≡ some a
  get_elem?-append_last [] a = refl
  get_elem?-append_last (x ∷ xs) a = get_elem?-append_last xs a

  -- An element of a list with one more at its end.
  pub get_elem?-snoc_cases :
      (xs : List A) (b : A) (i : ℕ) (a : A)
      → get_elem? (xs ++ b ∷ []) i ≡ some a
      → (get_elem? xs i ≡ some a) ⊎ ((length xs ≡ i) × (b ≡ a))
  get_elem?-snoc_cases [] b zero a h = inr (refl, cc)
  get_elem?-snoc_cases [] b (suc i) a h = absurd (ground arith)
  get_elem?-snoc_cases (x ∷ xs) b zero a h = inl h
  get_elem?-snoc_cases (x ∷ xs) b (suc i) a h = elim (get_elem?-snoc_cases xs b i a h) [
    | inl e ↦ inl e
    | inr e ↦ inr (omega (arith, e.0), e.1)
  ]

  pub get_elem?_of_lt : (xs : List A) (i : ℕ) → i < length xs → (a : A) × (get_elem? xs i ≡ some a)
  get_elem?_of_lt [] i h = absurd (omega arith)
  get_elem?_of_lt (x ∷ xs) zero h = (x, refl)
  get_elem?_of_lt (x ∷ xs) (suc i) h = get_elem?_of_lt xs i (omega arith)

  -- An element of a list with one place written.
  pub get_elem?-set_cases :
      (xs : List A) (b : A) (i j : ℕ) (a : A)
      → get_elem? (set xs i b) j ≡ some a
      → ((i ≡ j) × (b ≡ a)) ⊎ ((i ≢ j) × (get_elem? xs j ≡ some a))
  get_elem?-set_cases [] b i j a h = absurd (ground arith)
  get_elem?-set_cases (x ∷ xs) b zero zero a h = inl (refl, (cc))
  get_elem?-set_cases (x ∷ xs) b zero (suc j) a h = inr (λ e. omega (arith, e), h)
  get_elem?-set_cases (x ∷ xs) b (suc i) zero a h = inr (λ e. omega (arith, e), h)
  get_elem?-set_cases (x ∷ xs) b (suc i) (suc j) a h = elim (get_elem?-set_cases xs b i j a h) [
    | inl e ↦ inl (omega (arith, e.0), e.1)
    | inr e ↦ inr (λ q. e.0 (omega (arith, q)), e.1)
  ]

  pub set_same : (xs : List A) (i : ℕ) (a : A) → get_elem? xs i ≡ some a → set xs i a ≡ xs
  set_same [] i a h = refl
  set_same (x ∷ xs) zero a h = let e : a ≡ x = cc in ap (λ y. y ∷ xs) e
  set_same (x ∷ xs) (suc i) a h = ap (◌∷◌ x) (set_same xs i a h)

  pub get_elem?-replicate : (n i : ℕ) (a b : A) → get_elem? (replicate n a) i ≡ some b → a ≡ b
  get_elem?-replicate zero i a b h = absurd (cc)
  get_elem?-replicate (suc n) zero a b h = cc
  get_elem?-replicate (suc n) (suc i) a b h = get_elem?-replicate n i a b h
