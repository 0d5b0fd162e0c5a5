-- ===== src/Kv/Keys.antt =====
-- What crates/sitas-core/src/kv_service.rs uses of `String`: the equality test of the hash map and
-- the total order of `Vec::sort`; and that sort.
pub mod Sorting
pub mod Least
use Prim.Native.Nat.{ℕ}
use sitas.Common.{
  Bool, true, false, ◌≡◌, List, [], ◌∷◌, ◌++◌, ◌==◌, leb, if◌then◌else◌, ==_iff, ==_refl, arith,
}

pub record Key {ℓ} (K : Type ℓ) : Type ℓ where
  pub same : K → K → Bool
  pub le : K → K → Bool
  pub same_refl : (a : K) → same a a ≡ true
  pub same_eq : (a b : K) → same a b ≡ true → a ≡ b
  pub le_trans : (a b c : K) → le a b ≡ true → le b c ≡ true → le a c ≡ true
  pub le_antisymm : (a b : K) → le a b ≡ true → le b a ≡ true → a ≡ b
  pub le_total : (a b : K) → le a b ≡ false → le b a ≡ true

module _ {ℓ} {K : Type ℓ} ⦃key : Key K⦄ where
  unfoldable pub insert_sorted : K → List K → List K
  insert_sorted a [] = a ∷ []
  insert_sorted a (b ∷ bs) =
      let rest = insert_sorted a bs in if key.le a b then a ∷ b ∷ bs else b ∷ rest

  -- `keys.sort()`, on keys that are equal only if they are the same
  unfoldable pub sort : List K → List K
  sort [] = []
  sort (a ∷ rest) = insert_sorted a (sort rest)

pub leb_trans : (a b c : ℕ) → leb a b ≡ true → leb b c ≡ true → leb a c ≡ true
leb_trans a b c p q = ground arith

pub leb_antisymm : (a b : ℕ) → leb a b ≡ true → leb b a ≡ true → a ≡ b
leb_antisymm a b p q = ground arith

pub leb_total : (a b : ℕ) → leb a b ≡ false → leb b a ≡ true
leb_total a b p = ground arith

-- Numbers are keys.
instance abbrev pub nat_key : Key ℕ
nat_key = record {
  same = ◌==◌;
  le = leb;
  same_refl = ==_refl;
  same_eq = λ a b h. (==_iff a b).0 h;
  le_trans = leb_trans;
  le_antisymm = leb_antisymm;
  le_total = leb_total;
}
