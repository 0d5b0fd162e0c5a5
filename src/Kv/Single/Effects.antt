-- ===== src/Kv/Single/Effects.antt =====
-- crates/sitas-core/src/kv_service.rs: a command for one key has the same answer and the same
-- effect on the map of its shard as on the single map.
use mathlib.Core.Path.{subst}
use sitas.Common.{
  ℕ, ◌≡◌, refl, sym, ap, ◌∙◌, inl, inr, Bool, Option, none, some, List, get_elem?, set, set_same,
  Bool-cases, Option-cases,
}
use sitas.Kv.Keys.{Key}
use sitas.Kv.Map.{
  KvService, lookup, insert, get, put, compare_and_put, get_or_put, delete, same_option,
}
use sitas.Kv.Service.{KvCommand, handle, found}
use sitas.Kv.Single.{Agrees, insert-Agrees, remove-Agrees}

-- The key of a command that has one.
abbrev pub key_of {ℓ κ} : {K : Type ℓ} {T : Type κ} → KvCommand K T → Option K
key_of (KvCommand.get k) = some k
key_of (KvCommand.delete k) = some k
key_of (KvCommand.put k v) = some k
key_of (KvCommand.get_or_put k v) = some k
key_of (KvCommand.compare_and_put k e v) = some k
key_of KvCommand.len = none
key_of KvCommand.keys = none
key_of KvCommand.stop = none

module _ {ℓ κ} {K : Type ℓ} {T : Type κ} ⦃key : Key K⦄ where
  get_or_put_absent :
      (k : K) (v : T) (s : KvService K T)
      → lookup k s.map ≡ none
      → get_or_put k v s ≡ (v, record { map = insert k v s.map })
  unfolding get_or_put
  get_or_put_absent k v s e = rw (e, get_or_put) refl

  get_or_put_present :
      (k : K) (v u : T) (s : KvService K T) → lookup k s.map ≡ some u → get_or_put k v s ≡ (u, s)
  unfolding get_or_put
  get_or_put_present k v u s e = rw (e, get_or_put) refl

module _ {ℓ κ} {K : Type ℓ} {T : Type κ} ⦃key : Key K⦄ (same_text : T → T → Bool)
    (place : K → ℕ → ℕ) (n : ℕ) (ss : List (KvService K T)) (m s : KvService K T)
    (a : Agrees place n ss m) where
  abbrev Same : KvCommand K T → K → Type (ℓ ⊔ κ)
  Same c k =
      get_elem? ss (place k n) ≡ some s
      → ((handle same_text c s).0 ≡ (handle same_text c m).0)
        × Agrees place n (set ss (place k n) (handle same_text c s).1) (handle same_text c m).1

  unchanged : (k : K) → get_elem? ss (place k n) ≡ some s → Agrees place n (set ss (place k n) s) m
  unchanged k at = subst (λ x. Agrees place n x m) (sym (set_same ss (place k n) s at)) a

  get-Same : (k : K) → Same (KvCommand.get k) k
  unfolding handle get
  get-Same k at = (ap found (a.parts k s at), unchanged k at)

  put-Same : (k : K) (v : T) → Same (KvCommand.put k v) k
  unfolding handle put
  put-Same k v at = (refl, insert-Agrees place n ss m s k v a at)

  delete-Same : (k : K) → Same (KvCommand.delete k) k
  unfolding handle delete
  delete-Same k at = (ap found (a.parts k s at), remove-Agrees place n ss m s k a at)

  get_or_put-Same : (k : K) (v : T) → Same (KvCommand.get_or_put k v) k
  unfolding handle
  get_or_put-Same k v at = elim (Option-cases (lookup k m.map)) [
    | inl e ↦
        rw (get_or_put_absent k v s (a.parts k s at ∙ e), get_or_put_absent k v m e)
          (refl, insert-Agrees place n ss m s k v a at)
    | inr (u, e) ↦
        rw (get_or_put_present k v u s (a.parts k s at ∙ e), get_or_put_present k v u m e)
          (refl, unchanged k at)
  ]

  compare_and_put-Same : (k : K) (x : Option T) (v : T) → Same (KvCommand.compare_and_put k x v) k
  unfolding handle compare_and_put
  compare_and_put-Same k x v at = elim (Bool-cases (same_option same_text (lookup k m.map) x)) [
    | inl e ↦ rw (a.parts k s at, e) (refl, insert-Agrees place n ss m s k v a at)
    | inr e ↦ rw (a.parts k s at, e) (refl, unchanged k at)
  ]

  pub handle-Same : (c : KvCommand K T) (k : K) → key_of c ≡ some k → Same c k
  handle-Same (KvCommand.get q) k e =
      let p : q ≡ k = cc in subst (Same (KvCommand.get q)) p (get-Same q)
  handle-Same (KvCommand.delete q) k e =
      let p : q ≡ k = cc in subst (Same (KvCommand.delete q)) p (delete-Same q)
  handle-Same (KvCommand.put q v) k e =
      let p : q ≡ k = cc in subst (Same (KvCommand.put q v)) p (put-Same q v)
  handle-Same (KvCommand.get_or_put q v) k e =
      let p : q ≡ k = cc in subst (Same (KvCommand.get_or_put q v)) p (get_or_put-Same q v)
  handle-Same (KvCommand.compare_and_put q x v) k e =
      let p : q ≡ k = cc in
      subst (Same (KvCommand.compare_and_put q x v)) p (compare_and_put-Same q x v)
  handle-Same KvCommand.len k e = absurd (cc)
  handle-Same KvCommand.keys k e = absurd (cc)
  handle-Same KvCommand.stop k e = absurd (cc)
