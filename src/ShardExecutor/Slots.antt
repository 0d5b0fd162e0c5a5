-- ===== src/ShardExecutor/Slots.antt =====
-- crates/sitas-core/src/shard_executor.rs: the number of tasks that have a future.
use sitas.Common.{
  ℕ, zero, suc, ◌≡◌, refl, ap, Option, none, some, List, [], ◌∷◌, ◌++◌, get_elem?, set, arith,
}

unfoldable pub occupied {ℓ} : {F : Type ℓ} → List (Option F) → ℕ
occupied [] = 0
occupied (none ∷ tasks) = occupied tasks
occupied (some f ∷ tasks) = suc (occupied tasks)

module _ {ℓ} {F : Type ℓ} where
  pub occupied-append :
      (tasks : List (Option F)) (f : F) → occupied (tasks ++ some f ∷ []) ≡ suc (occupied tasks)
  unfolding occupied
  occupied-append [] f = refl
  occupied-append (none ∷ tasks) f = occupied-append tasks f
  occupied-append (some g ∷ tasks) f = ap suc (occupied-append tasks f)

  pub occupied-set-none :
      (tasks : List (Option F)) (i : ℕ) (f : F)
      → get_elem? tasks i ≡ some (some f)
      → suc (occupied (set tasks i none)) ≡ occupied tasks
  unfolding occupied
  occupied-set-none [] i f h = absurd (cc h)
  occupied-set-none (none ∷ tasks) zero f h = absurd (cc h)
  occupied-set-none (some g ∷ tasks) zero f h = refl
  occupied-set-none (none ∷ tasks) (suc i) f h = occupied-set-none tasks i f h
  occupied-set-none (some g ∷ tasks) (suc i) f h = ap suc (occupied-set-none tasks i f h)

  pub occupied-set-some :
      (tasks : List (Option F)) (i : ℕ) (f : F)
      → get_elem? tasks i ≡ some none
      → occupied (set tasks i (some f)) ≡ suc (occupied tasks)
  unfolding occupied
  occupied-set-some [] i f h = absurd (cc h)
  occupied-set-some (none ∷ tasks) zero f h = refl
  occupied-set-some (some g ∷ tasks) zero f h = absurd (cc h)
  occupied-set-some (none ∷ tasks) (suc i) f h = occupied-set-some tasks i f h
  occupied-set-some (some g ∷ tasks) (suc i) f h = ap suc (occupied-set-some tasks i f h)

  -- No task has a future.
  pub occupied-none :
      (tasks : List (Option F)) (i : ℕ) (o : Option F)
      → occupied tasks ≡ 0
      → get_elem? tasks i ≡ some o
      → o ≡ none
  unfolding occupied
  occupied-none [] i o e h = absurd (cc h)
  occupied-none (none ∷ tasks) zero o e h = cc
  occupied-none (some g ∷ tasks) zero o e h = absurd (omega (arith, e))
  occupied-none (none ∷ tasks) (suc i) o e h = occupied-none tasks i o e h
  occupied-none (some g ∷ tasks) (suc i) o e h = absurd (omega (arith, e))
