-- ===== src/Charlotte/Tally.antt =====
-- Sums over the entries of a hash map, and what holds of each entry, through its changes.
use mathlib.Core.Path.{subst}
use sitas.Common.{
  ℕ, ◌+◌, ◌<◌, ◌≡◌, refl, ◌∙◌, Bool, none, some, List, [], ◌∷◌, ◌++◌, All, ◌==◌, if◌then◌else◌,
  Bool-cases, inl, inr, arith,
}
use sitas.Kv.Keys.{nat_key}
use sitas.Kv.Map.{lookup, insert, remove}
use sitas.Kv.Map.Lookup.{lookup-insert_self, lookup-insert_ne}

-- How many elements meet a test.
abbrev pub tally {ℓ} : {A : Type ℓ} → (A → Bool) → List A → ℕ
tally p [] = 0
tally p (x ∷ xs) = (if p x then 1 else 0) + tally p xs

pub tally-append {ℓ} :
    {A : Type ℓ} (p : A → Bool) (xs ys : List A) → tally p (xs ++ ys) ≡ tally p xs + tally p ys
tally-append p [] ys = omega arith
tally-append p (x ∷ xs) ys = omega (arith, tally-append p xs ys)

module _ {V : Type 0} where
  -- The sum of a measure of the entries.
  unfoldable pub total : (V → ℕ) → List (ℕ × V) → ℕ
  total f [] = 0
  total f (e ∷ es) = f e.1 + total f es

  pub total-insert_new :
      (f : V → ℕ) (k : ℕ) (v : V) (m : List (ℕ × V))
      → lookup k m ≡ none
      → total f (insert k v m) ≡ total f m + f v
  unfolding total lookup insert
  total-insert_new f k v [] h = omega arith
  total-insert_new f k v (e ∷ es) h = ground (arith, total-insert_new f k v es)

  pub total-insert_known :
      (f : V → ℕ) (k : ℕ) (u v : V) (m : List (ℕ × V))
      → lookup k m ≡ some u
      → total f (insert k v m) + f u ≡ total f m + f v
  unfolding total lookup insert
  total-insert_known f k u v [] h = absurd (cc)
  total-insert_known f k u v (e ∷ es) h = ground (arith, total-insert_known f k u v es)

  pub total-remove :
      (f : V → ℕ) (k : ℕ) (u : V) (m : List (ℕ × V))
      → lookup k m ≡ some u
      → total f (remove k m) + f u ≡ total f m
  unfolding total lookup remove
  total-remove f k u [] h = absurd (cc)
  total-remove f k u (e ∷ es) h = ground (arith, total-remove f k u es)

  -- A property of the keys and values that holds of a new entry.
  pub All-insert {κ} :
      (P : ℕ × V → Type κ) (k : ℕ) (v : V) (m : List (ℕ × V))
      → All P m
      → P (k, v)
      → All P (insert k v m)
  unfolding insert
  All-insert P k v [] h p = (p, tt)
  All-insert P k v (e ∷ es) h p = elim (Bool-cases (e.0 == k)) [
    | inl t ↦ rw (t, insert) (p, h.1)
    | inr t ↦ rw (t, insert) (h.0, All-insert P k v es h.1 p)
  ]

  pub All-remove {κ} :
      (P : ℕ × V → Type κ) (k : ℕ) (m : List (ℕ × V)) → All P m → All P (remove k m)
  unfolding remove
  All-remove P k [] h = tt
  All-remove P k (e ∷ es) h = elim (Bool-cases (e.0 == k)) [
    | inl t ↦ rw (t, remove) (h.1)
    | inr t ↦ rw (t, remove) (h.0, All-remove P k es h.1)
  ]

  pub All-map {κ υ} :
      (P : ℕ × V → Type κ) (Q : ℕ × V → Type υ) (m : List (ℕ × V))
      → ((e : ℕ × V) → P e → Q e)
      → All P m
      → All Q m
  All-map P Q [] f h = tt
  All-map P Q (e ∷ es) f h = (f e h.0, All-map P Q es f h.1)

  -- What holds of every value holds of the one found.
  pub All-lookup {κ} :
      (P : V → Type κ) (k : ℕ) (v : V) (m : List (ℕ × V))
      → All (λ e. P e.1) m
      → lookup k m ≡ some v
      → P v
  unfolding lookup
  All-lookup P k v [] h e = absurd (cc)
  All-lookup P k v (e ∷ es) h q = elim (Bool-cases (e.0 == k)) [
    | inl t ↦ subst P (ground (arith, q, t)) h.0
    | inr t ↦ All-lookup P k v es h.1 (ground (arith, q, t))
  ]

  pub lookup-fresh : (k : ℕ) (m : List (ℕ × V)) → All (λ e. e.0 < k) m → lookup k m ≡ none
  unfolding lookup
  lookup-fresh k [] h = refl
  lookup-fresh k (e ∷ es) h = ground (arith, lookup-fresh k es h.1)

  pub key-lt :
      (k n : ℕ) (v : V) (m : List (ℕ × V)) → All (λ e. e.0 < n) m → lookup k m ≡ some v → k < n
  unfolding lookup
  key-lt k n v [] h e = absurd (cc)
  key-lt k n v (e ∷ es) h q = ground (arith, key-lt k n v es h.1)

  -- There is an entry with the key.
  abbrev pub Known : List (ℕ × V) → ℕ → Type 0
  Known m k = (v : V) × (lookup k m ≡ some v)

  pub Known-insert : (k q : ℕ) (v : V) (m : List (ℕ × V)) → Known m q → Known (insert k v m) q
  Known-insert k q v m h = elim (Bool-cases (k == q)) [
    | inl t ↦
        (v, subst (λ j. lookup j (insert k v m) ≡ some v) (ground arith) (lookup-insert_self k v m))
    | inr t ↦ (h.0, lookup-insert_ne k q v m t ∙ h.1)
  ]

  pub Known-insert_self : (k : ℕ) (v : V) (m : List (ℕ × V)) → Known (insert k v m) k
  Known-insert_self k v m = (v, lookup-insert_self k v m)
