-- ===== src/Common/Members.antt =====
-- Lists of numbers: membership by a Boolean test, and lists with no repetition.
use mathlib.Core.Path.{◌≡◌, refl, subst}
use mathlib.Core.Bool.{Bool, true, false, ◌||◌}
use mathlib.Core.List.{List, [], ◌∷◌, ◌++◌}
use Prim.Native.Nat.{ℕ}
use native.Mathlib.Omega.{arith}
use sitas.Common.Tests.{◌==◌}
use sitas.Common.Lists.{any}

-- The slice method `contains`.
abbrev pub contains : ℕ → List ℕ → Bool
contains n = any (λ x. x == n)

-- Each number at most once.
abbrev pub Distinct : List ℕ → Type 0
Distinct [] = Unit
Distinct (x ∷ xs) = (contains x xs ≡ false) × Distinct xs

pub contains-append :
    (n : ℕ) (xs ys : List ℕ) → contains n (xs ++ ys) ≡ (contains n xs || contains n ys)
contains-append n [] ys = refl
contains-append n (x ∷ xs) ys = ground (arith, contains-append n xs ys)

pub Distinct-append :
    (x : ℕ) (xs : List ℕ) → contains x xs ≡ false → Distinct xs → Distinct (xs ++ x ∷ [])
Distinct-append x [] h d = (refl, tt)
Distinct-append x (y ∷ ys) h d = ground (arith, contains-append y ys (x ∷ []), Distinct-append x ys)

pub contains-subst : (a n : ℕ) (xs : List ℕ) → a ≡ n → contains a xs ≡ true → contains n xs ≡ true
contains-subst a n xs e h = subst (λ k. contains k xs ≡ true) e h
