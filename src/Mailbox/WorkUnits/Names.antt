-- ===== src/Mailbox/WorkUnits/Names.antt =====
-- The names of a WorkUnitMailboxSet of shard_mailbox.rs lead to their mailboxes.
use mathlib.Core.Path.{subst}
use sitas.Common.{
  ℕ, zero, suc, ◌<◌, ◌≡◌, ◌↔◌, ◌∙◌, ◌⊎◌, inl, inr, refl, sym, ap, Bool, true, false, Option, none,
  some, List, [], ◌∷◌, ◌++◌, map, append-nil, append_assoc, Result, ok, err, arith, length,
  is_empty, get_elem?, leb, ◌==◌, if◌then◌else◌, Bool-cases,
}
use sitas.Mailbox.{new}
use sitas.Mailbox.WorkUnits.{
  WorkUnitSpec, WorkUnitCreateError, WorkUnitMailbox, WorkUnitSet, find_name, known, add_unit,
  add_units, new_set, work_unit, unit_at, assigned_shard,
}

if_err {ℓ κ} :
    {A : Type ℓ} {E : Type κ} (b : Bool) (e : E) (r : Result A E) (a : A)
    → (if b then err e else r) ≡ ok a
    → (b ≡ false) × (r ≡ ok a)
if_err true e r a h = cc
if_err false e r a h = (refl, h)

known-none : (o : Option ℕ) → known o ≡ false → o ≡ none
known-none none h = refl
known-none (some i) h = cc

-- An element of a list with one more at its end is in the list, or is the new one.
get_elem?-snoc {ℓ} :
    {A : Type ℓ} (xs : List A) (x y : A) (i : ℕ)
    → get_elem? (xs ++ x ∷ []) i ≡ some y
    → (get_elem? xs i ≡ some y) × (i < length xs) ⊎ (i ≡ length xs) × (x ≡ y)
get_elem?-snoc [] x y zero e = inr (refl, cc)
get_elem?-snoc [] x y (suc i) e = cc
get_elem?-snoc (z ∷ xs) x y zero e = inl (e, omega arith)
get_elem?-snoc (z ∷ xs) x y (suc i) e = elim (get_elem?-snoc xs x y i e) [
  | inl h ↦ inl (h.0, omega (arith, h.1))
  | inr h ↦ inr (ap suc h.0, h.1)
]

module _ {κ} {N : Type κ} (same : N → N → Bool)
    (same_iff : (a b : N) → (same a b ≡ true) ↔ (a ≡ b)) where
  find_old :
      (name : N) (n i : ℕ) (spec : N) (ps : List (N × ℕ))
      → find_name same spec ps ≡ none
      → find_name same name ps ≡ some i
      → find_name same name ((spec, n) ∷ ps) ≡ some i
  unfolding find_name
  find_old name n i spec ps h e = elim (Bool-cases (same spec name)) [
    | inl t ↦
        absurd (none-some (sym h ∙ ap (λ x. find_name same x ps) ((same_iff spec name).0 t) ∙ e))
    | inr t ↦ rw t e
  ]
    where
      none-some : (none ≡ some i) → ⊥
      none-some q = cc

  find_new :
      (spec name : N) (n : ℕ) (ps : List (N × ℕ))
      → spec ≡ name
      → find_name same name ((spec, n) ∷ ps) ≡ some n
  unfolding find_name
  find_new spec name n ps e = rw ((same_iff spec name).1 e) refl

module _ {κ ℓ} {N : Type κ} {M : Type ℓ} (same : N → N → Bool)
    (same_iff : (a b : N) → (same a b ≡ true) ↔ (a ≡ b)) where
  -- The map takes the name of each work unit to its index.
  abbrev Indexes : WorkUnitSet N M → Type (κ ⊔ ℓ)
  Indexes s =
      (i : ℕ) (u : WorkUnitMailbox N M)
      → get_elem? s.work_units i ≡ some u
      → find_name same u.name s.by_name ≡ some i

  unit_of : ℕ → WorkUnitSpec N → WorkUnitMailbox N M
  unit_of capacity spec = record { name = spec.name; mailbox = new spec.shard_id capacity }

  add_unit-Indexes :
      (spec : WorkUnitSpec N) (capacity : ℕ) (s : WorkUnitSet N M)
      → find_name same spec.name s.by_name ≡ none
      → Indexes s
      → Indexes (add_unit spec capacity s)
  unfolding unit_of add_unit
  add_unit-Indexes spec capacity s h v i u e =
      elim (get_elem?-snoc s.work_units (unit_of capacity spec) u i e) [
        | inl old ↦
            find_old same same_iff u.name (length s.work_units) i spec.name s.by_name h
              (v i u old.0)
        | inr fresh ↦
            find_new same same_iff spec.name u.name (length s.work_units) s.by_name
              (ap (λ x. x.name) fresh.1)
            ∙ ap some (sym fresh.0)
      ]

  abbrev set_or :
      WorkUnitSet N M → Result (WorkUnitSet N M) (WorkUnitCreateError N) → WorkUnitSet N M
  set_or d (ok s) = s
  set_or d (err e) = d

  -- What the loop leaves when it succeeds.
  record Added (shard_count capacity : ℕ) (specs : List (WorkUnitSpec N))
      (before after : WorkUnitSet N M) : Type (κ ⊔ ℓ) where
    indexes : Indexes after
    units : after.work_units ≡ before.work_units ++ map (unit_of capacity) specs
    in_range :
        (i : ℕ) (spec : WorkUnitSpec N)
        → get_elem? specs i ≡ some spec
        → spec.shard_id < shard_count

  add_units-Added :
      (shard_count capacity : ℕ) (specs : List (WorkUnitSpec N)) (s t : WorkUnitSet N M)
      → add_units same shard_count capacity specs s ≡ ok t
      → Indexes s
      → Added shard_count capacity specs s t
  unfolding new_set unit_of
  add_units-Added shard_count capacity [] s t e v =
      subst (Added shard_count capacity [] s)
        (ap (set_or s) (if_err (is_empty s.work_units) _ _ t e).1)
        (record { indexes = v; units = sym (append-nil s.work_units); in_range = λ i spec q. cc })
  add_units-Added shard_count capacity (spec ∷ specs) s t e v =
      let (small, e1) = if_err (leb shard_count spec.shard_id) _ _ t e in
      let (new_name, e2) = if_err (known (find_name same spec.name s.by_name)) _ _ t e1 in
      let r =
        add_units-Added shard_count capacity specs (add_unit spec capacity s) t e2
          (add_unit-Indexes spec capacity s (known-none _ new_name) v) in
      record {
        indexes = r.indexes;
        units =
            r.units
            ∙ append_assoc s.work_units (unit_of capacity spec ∷ []) (map (unit_of capacity) specs);
        in_range = range_cons (ground arith) r.in_range;
      }
    where
      range_cons :
          spec.shard_id < shard_count
          → ((i : ℕ) (x : WorkUnitSpec N) → get_elem? specs i ≡ some x → x.shard_id < shard_count)
          → (i : ℕ) (x : WorkUnitSpec N) → get_elem? (spec ∷ specs) i ≡ some x
          → x.shard_id < shard_count
      range_cons l r zero x q = let p : spec ≡ x = cc in subst (λ y. y.shard_id < shard_count) p l
      range_cons l r (suc i) x q = r i x q

  get_elem?-units :
      (capacity i : ℕ) (specs : List (WorkUnitSpec N)) (spec : WorkUnitSpec N)
      → get_elem? specs i ≡ some spec
      → get_elem? (map (unit_of capacity) specs) i ≡ some (unit_of capacity spec)
  get_elem?-units capacity i [] spec e = cc
  get_elem?-units capacity zero (x ∷ specs) spec e = cc
  get_elem?-units capacity (suc i) (x ∷ specs) spec e = get_elem?-units capacity i specs spec e

  -- Let a set of work units be made from specifications, with a correct equality test for the
  -- names. Each specification has an existing shard; its name leads to the mailbox at its own
  -- index, which is new, with its name, its shard and the capacity; and `assigned_shard` answers
  -- its shard.
  pub new_set_lem :
      (shard_count capacity : ℕ) (specs : List (WorkUnitSpec N)) (s : WorkUnitSet N M) (i : ℕ)
      (spec : WorkUnitSpec N)
      → new_set same shard_count specs capacity ≡ ok s
      → get_elem? specs i ≡ some spec
      → (spec.shard_id < shard_count)
        × (work_unit same spec.name s
            ≡ ok (i, record { name = spec.name; mailbox = new spec.shard_id capacity }))
        × (assigned_shard same spec.name s ≡ ok spec.shard_id)
  unfolding new_set work_unit unit_of assigned_shard new
  new_set_lem shard_count capacity specs s i spec e g =
      let r =
        add_units-Added shard_count capacity specs (record { work_units = []; by_name = [] }) s
          (if_err (capacity == 0) _ _ s e).1 (λ i u q. cc) in
      let u =
        subst (λ l. get_elem? l i ≡ some (unit_of capacity spec)) (sym r.units)
          (get_elem?-units capacity i specs spec g) in
      let n = r.indexes i (unit_of capacity spec) u in
      (
        r.in_range i spec g,
        rw (work_unit, n, unit_at, u) refl,
        rw (assigned_shard, work_unit, n, unit_at, u) refl,
      )
