-- ===== src/Index/Arrival.antt =====
-- crates/sitas-core/src/mailbox_index.rs: the runs of the assemblers and the order of their
-- arrival.
use Prim.Native.Nat.{bit_xor}
use sitas.Common.{
  ℕ, zero, suc, ◌+◌, ◌≡◌, refl, sym, ap, ◌∙◌, true, false, Bool, some, List, [], ◌∷◌, ◌++◌, map,
  length, retain, arith, append-nil, ==_refl,
}
use sitas.Kv.Keys.{Key, insert_sorted, sort, nat_key}
use sitas.Kv.Keys.Sorting.{sort_onto, sort-append, sort_onto-sort}
use sitas.Index.Entry.{IndexEntry, entry_key}
use sitas.Index.Records.{assembler_count, record_count, record_key}
use sitas.Index.Scanner.{IndexMessage}
use sitas.Index.Assembler.{RunResult, assembler_task}
use sitas.Index.Coordinator.{all_ascending, offsets_xor, expected_xor, is_range}
use sitas.Index.Build.{interleave, Schedule}
use sitas.Index.Verification.{all_entries, Verified, ascending-sort, offsets_xor-sort, length-sort}
use sitas.Index.Feeds.{Interleaving, Feed, receive_lem, Interleaving-sort, sort_right}
use sitas.Index.Batches.{records_from}
use sitas.Index.Delivery.{assigned}
use sitas.Index.Parts.{sort_onto-assigned}

left_only {ℓ} : {A : Type ℓ} (xs : List A) → Interleaving xs [] xs
left_only [] = Interleaving.done
left_only (x ∷ xs) = Interleaving.left x (left_only xs)

right_only {ℓ} : {A : Type ℓ} (ys : List A) → Interleaving [] ys ys
right_only [] = Interleaving.done
right_only (y ∷ ys) = Interleaving.right y (right_only ys)

-- What a schedule makes of two sequences is an interleaving.
interleave-Interleaving {ℓ} :
    {A : Type ℓ} (cs : List Bool) (xs ys : List A) → Interleaving xs ys (interleave cs xs ys)
unfolding interleave
interleave-Interleaving [] [] ys = right_only ys
interleave-Interleaving [] (x ∷ xs) ys = Interleaving.left x (interleave-Interleaving [] xs ys)
interleave-Interleaving (true ∷ cs) [] ys = right_only ys
interleave-Interleaving (true ∷ cs) (x ∷ xs) ys =
    Interleaving.left x (interleave-Interleaving cs xs ys)
interleave-Interleaving (false ∷ cs) xs [] = left_only xs
interleave-Interleaving (false ∷ cs) xs (y ∷ ys) =
    Interleaving.right y (interleave-Interleaving cs xs ys)

-- The run of an assembler: sorted, with the entries of both producers.
pub assembler_run :
    (a : ℕ) (cs : List Bool) (xs ys : List IndexMessage) (p q : List IndexEntry)
    → Feed xs p 1
    → Feed ys q 1
    → (r : RunResult) × (assembler_task a (interleave cs xs ys) ≡ some r)
      × (r.work_unit ≡ a)
      × (r.entries ≡ sort (p ++ q))
unfolding assembler_task
assembler_run a cs xs ys p q f g =
    let (found, e, s) = receive_lem [] (interleave-Interleaving cs xs ys) f g in
    (record { work_unit = a; entries = sort found }, rw (e, assembler_task) refl, refl, s)

pub offsets_xor-records :
    (acc n count : ℕ) → offsets_xor acc (records_from n count) ≡ some (expected_xor acc n count)
unfolding offsets_xor records_from expected_xor
offsets_xor-records acc n zero = refl
offsets_xor-records acc n (suc count) =
    rw (==_refl (record_key n)) (offsets_xor-records (bit_xor acc n) (n + 1) count)

pub length-records_from : (n count : ℕ) → length (records_from n count) ≡ count
unfolding records_from
length-records_from n zero = refl
length-records_from n (suc count) = ap suc (length-records_from (n + 1) count)

pub retain-append {ℓ} :
    {A : Type ℓ} (p : A → Bool) (xs ys : List A) → retain p xs ++ retain p ys ≡ retain p (xs ++ ys)
retain-append p [] ys = refl
retain-append p (x ∷ xs) ys = ground (arith, retain-append p xs ys)

sort-sort_onto : (xs : List IndexEntry) → sort_onto xs [] ≡ sort xs
unfolding sort
sort-sort_onto xs = sym (sort-append xs []) ∙ ap sort (append-nil xs)

Interleaving-ascending :
    {xs ys zs : List RunResult}
    → Interleaving xs ys zs
    → all_ascending xs ≡ true
    → all_ascending ys ≡ true
    → all_ascending zs ≡ true
unfolding all_ascending
Interleaving-ascending Interleaving.done h k = refl
Interleaving-ascending (Interleaving.left {xs = xs} {zs = zs} x m) h k =
    let later = Interleaving-ascending m (ground (arith, h)) k in ground (arith, h, later)
Interleaving-ascending (Interleaving.right {ys = ys} {zs = zs} y m) h k =
    let later = Interleaving-ascending m h (ground (arith, k)) in ground (arith, k, later)

all_entries-cons :
    (r : RunResult) (rs : List RunResult)
    → all_entries (r ∷ rs) ≡ all_entries (r ∷ []) ++ all_entries rs
unfolding all_entries
all_entries-cons r rs = ap (λ u. u ++ all_entries rs) (sym (append-nil r.entries))

all_entries-one : (r : RunResult) → all_entries (r ∷ []) ≡ r.entries
unfolding all_entries
all_entries-one r = append-nil r.entries

empty_entries : all_entries [] ≡ []
unfolding all_entries
empty_entries = refl

one_ascending :
    (x : RunResult) (xs : List IndexEntry) → x.entries ≡ sort xs → all_ascending (x ∷ []) ≡ true
unfolding all_ascending
one_ascending x xs e = rw (e, ascending-sort xs) refl

three_units : is_range 0 assembler_count (sort (0 ∷ 1 ∷ 2 ∷ [])) ≡ true
unfolding is_range sort insert_sorted
three_units = refl

-- Three runs in the order in which they arrive.
module _ (s : Schedule) (a b c : RunResult) where
  unfoldable pub later : List RunResult
  later = interleave s.later_results (b ∷ []) (c ∷ [])

  unfoldable pub arrived : List RunResult
  unfolding later
  arrived = interleave s.results (a ∷ []) later

  arrived-sort {κ} :
      {K : Type κ} ⦃key : Key K⦄ (f : List RunResult → List K)
      → ((x : RunResult) (xs : List RunResult) → f (x ∷ xs) ≡ f (x ∷ []) ++ f xs)
      → f [] ≡ []
      → sort (f arrived) ≡ sort (f (a ∷ []) ++ (f (b ∷ []) ++ f (c ∷ [])))
  unfolding arrived
  arrived-sort f k n =
      Interleaving-sort f k n (interleave-Interleaving s.results (a ∷ []) later)
      ∙ sort_right (f (a ∷ [])) (f later) (f (b ∷ []) ++ f (c ∷ []))
          (Interleaving-sort f k n (interleave-Interleaving s.later_results (b ∷ []) (c ∷ [])))

  -- Sorted runs of the three assemblers, with the parts of the same entries.
  pub arrived-Verified :
      (bytes : ℕ → List ℕ)
      → (a.work_unit ≡ 0) × (b.work_unit ≡ 1) × (c.work_unit ≡ 2)
      → let es = records_from 0 record_count in
        (a.entries ≡ sort (retain (assigned bytes 0) es))
          × (b.entries ≡ sort (retain (assigned bytes 1) es))
          × (c.entries ≡ sort (retain (assigned bytes 2) es))
        → Verified arrived
  unfolding arrived
  arrived-Verified bytes units parts =
      let es = records_from 0 record_count in
      let p = retain (assigned bytes 0) es in
      let q = retain (assigned bytes 1) es in
      let r = retain (assigned bytes 2) es in
      let all : sort (all_entries arrived) ≡ sort es =
        arrived-sort all_entries all_entries-cons empty_entries
        ∙ ap sort (entries_of p q r parts)
        ∙ three_sorted p q r
        ∙ sort_onto-assigned bytes es []
        ∙ sort-sort_onto es in
      record {
        sorted =
            Interleaving-ascending (interleave-Interleaving s.results (a ∷ []) later)
              (one_ascending a p parts.0)
              (Interleaving-ascending (interleave-Interleaving s.later_results (b ∷ []) (c ∷ []))
                (one_ascending b q parts.1) (one_ascending c r parts.2));
        complete =
            sym (length-sort (all_entries arrived))
            ∙ ap length all
            ∙ length-sort es
            ∙ length-records_from 0 record_count;
        units =
            ap (is_range 0 assembler_count) (
              arrived-sort (map (λ x. x.work_unit)) (λ x xs. refl) refl
              ∙ ap (λ u. sort (u ∷ b.work_unit ∷ c.work_unit ∷ [])) units.0
              ∙ ap (λ u. sort (0 ∷ u ∷ c.work_unit ∷ [])) units.1
              ∙ ap (λ u. sort (0 ∷ 1 ∷ u ∷ [])) units.2)
            ∙ three_units;
        offsets =
            sym (offsets_xor-sort 0 (all_entries arrived))
            ∙ ap (offsets_xor 0) all
            ∙ offsets_xor-sort 0 es
            ∙ offsets_xor-records 0 0 record_count;
      }
    where
      entries_of :
          (p q r : List IndexEntry)
          → (a.entries ≡ sort p) × (b.entries ≡ sort q) × (c.entries ≡ sort r)
          → all_entries (a ∷ []) ++ (all_entries (b ∷ []) ++ all_entries (c ∷ []))
            ≡ sort p ++ (sort q ++ sort r)
      entries_of p q r h =
          rw (all_entries-one a, all_entries-one b, all_entries-one c, h.0, h.1, h.2) refl

      three_sorted :
          (p q r : List IndexEntry)
          → sort (sort p ++ (sort q ++ sort r)) ≡ sort_onto p (sort_onto q (sort_onto r []))
      three_sorted p q r =
          sort-append (sort p) (sort q ++ sort r)
          ∙ sort_onto-sort p (sort (sort q ++ sort r))
          ∙ ap (sort_onto p) (
              sort-append (sort q) (sort r)
              ∙ sort_onto-sort q (sort (sort r))
              ∙ ap (sort_onto q) (sym (sort-sort_onto (sort r)) ∙ sort_onto-sort r []))
