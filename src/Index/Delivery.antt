-- ===== src/Index/Delivery.antt =====
-- crates/sitas-core/src/mailbox_index.rs, run_scanner_shard: each assembler is sent the entries of
-- its keys, in their order, and then the last message.
use mathlib.Core.Path.{subst}
use sitas.Common.{
  ℕ, zero, suc, ◌+◌, ◌%◌, ◌≡◌, ◌≢◌, refl, sym, ap, ◌∙◌, inl, inr, true, false, Bool, none, some,
  List, [], ◌∷◌, ◌++◌, length, get_elem?, set, retain, Bool-cases, arith, ◌==◌, ==_iff, ==_refl,
  if◌then◌else◌, append-nil, append_assoc, length-set, get_elem?-set_self, get_elem?-set_ne,
  get_elem?_of_lt, get_elem?-lt,
}
use sitas.Placement.{hash_key, shard_for_hash}
use sitas.Placement.Range.{shard_for_hash-lt}
use sitas.Index.Entry.{IndexEntry}
use sitas.Index.Records.{assembler_count, record_key, send_batch_entries}
use sitas.Index.Scanner.{IndexMessage, Scan, add_entry, record_entry, scan_record, scan_records}
use sitas.Index.Build.{addressed}
use sitas.Index.Batches.{addressed-append, Batches, Batches-snoc, records_from}

module _ (bytes : ℕ → List ℕ) where
  -- The key of the entry belongs to the assembler.
  unfoldable pub assigned : ℕ → IndexEntry → Bool
  assigned a entry = elim (shard_for_hash bytes entry.key assembler_count) [
    | none ↦ false
    | some b ↦ b == a
  ]

  -- What was sent to the assembler and what is in its batch are the entries that belong to it.
  pub record Carried (a : ℕ) (s : Scan) (es : List IndexEntry) : Type 0 where
    pub batch : List IndexEntry
    pub payload : List IndexEntry
    pub found : get_elem? s.batches a ≡ some batch
    pub sent : Batches (addressed a s.sent) payload
    pub carried : payload ++ batch ≡ retain (assigned a) es

  retain-snoc :
      {A : Type 0} (p : A → Bool) (xs : List A) (x : A)
      → retain p (xs ++ x ∷ []) ≡ retain p xs ++ (if p x then x ∷ [] else [])
  retain-snoc p [] x = refl
  retain-snoc p (y ∷ xs) x = ground (arith, retain-snoc p xs x)

  pub assigned_to :
      (a k : ℕ) (e : IndexEntry)
      → shard_for_hash bytes e.key assembler_count ≡ some k
      → assigned a e ≡ (k == a)
  unfolding assigned
  assigned_to a k e h = rw (h, assigned) refl

  retain-assigned :
      (a k : ℕ) (e : IndexEntry) (es : List IndexEntry)
      → shard_for_hash bytes e.key assembler_count ≡ some k
      → retain (assigned a) (es ++ e ∷ [])
        ≡ retain (assigned a) es ++ (if k == a then e ∷ [] else [])
  retain-assigned a k e es h =
      retain-snoc (assigned a) es e
      ∙ ap (λ t. retain (assigned a) es ++ (if t then e ∷ [] else [])) (assigned_to a k e h)

  -- An entry for another assembler changes nothing.
  Carried-other :
      (a k : ℕ) (e : IndexEntry) (s s' : Scan) (es : List IndexEntry)
      → shard_for_hash bytes e.key assembler_count ≡ some k
      → (k == a) ≡ false
      → get_elem? s'.batches a ≡ get_elem? s.batches a
      → addressed a s'.sent ≡ addressed a s.sent
      → Carried a s es
      → Carried a s' (es ++ e ∷ [])
  Carried-other a k e s s' es h t g m c = record {
    batch = c.batch;
    payload = c.payload;
    found = g ∙ c.found;
    sent = subst (λ ms. Batches ms c.payload) (sym m) c.sent;
    carried =
        c.carried
        ∙ sym (append-nil (retain (assigned a) es))
        ∙ ap (λ b. retain (assigned a) es ++ (if b then e ∷ [] else [])) (sym t)
        ∙ sym (retain-assigned a k e es h);
  }

  -- The entry for this assembler is in its batch, or was sent with it.
  Carried-own :
      (a : ℕ) (e : IndexEntry) (s s' : Scan) (es payload batch : List IndexEntry)
      → shard_for_hash bytes e.key assembler_count ≡ some a
      → get_elem? s'.batches a ≡ some batch
      → Batches (addressed a s'.sent) payload
      → (c : Carried a s es) → payload ++ batch ≡ c.payload ++ (c.batch ++ e ∷ [])
      → Carried a s' (es ++ e ∷ [])
  Carried-own a e s s' es payload batch h g m c q = record {
    batch = batch;
    payload = payload;
    found = g;
    sent = m;
    carried =
        q
        ∙ sym (append_assoc c.payload c.batch (e ∷ []))
        ∙ ap (λ u. u ++ e ∷ []) c.carried
        ∙ ap (λ b. retain (assigned a) es ++ (if b then e ∷ [] else [])) (sym (==_refl a))
        ∙ sym (retain-assigned a a e es h);
  }

  addressed-snoc :
      (a k : ℕ) (m : IndexMessage) (xs : List (ℕ × IndexMessage))
      → addressed a (xs ++ (k, m) ∷ []) ≡ addressed a xs ++ (if k == a then m ∷ [] else [])
  unfolding addressed
  addressed-snoc a k m xs = addressed-append a xs ((k, m) ∷ [])

  -- One entry more, for the assembler `k`.
  add_entry-Carried :
      (shard_id a k : ℕ) (e : IndexEntry) (b : List IndexEntry) (s : Scan) (es : List IndexEntry)
      → shard_for_hash bytes e.key assembler_count ≡ some k
      → get_elem? s.batches k ≡ some b
      → Carried a s es
      → Carried a (add_entry shard_id k e b s) (es ++ e ∷ [])
  unfolding add_entry
  add_entry-Carried shard_id a k e b s es h g c =
      let grown = b ++ e ∷ [] in
      let m = IndexMessage.entries shard_id grown in
      elim (Bool-cases (length grown == send_batch_entries)) [
        | inl f ↦
            rw (f, add_entry)
              (elim (Bool-cases (k == a)) [
                | inr t ↦
                    Carried-other a k e s _ es h t (get_elem?-set_ne s.batches [] (ne_of k a t))
                      (addressed-snoc a k m s.sent
                        ∙ ap (λ u. addressed a s.sent ++ (if u then m ∷ [] else [])) t
                        ∙ append-nil (addressed a s.sent))
                      c
                | inl t ↦
                    let (same, mine) = own a k b s es g c t in
                    Carried-own a e s _ es (c.payload ++ grown) []
                      (subst (λ i. shard_for_hash bytes e.key assembler_count ≡ some i) same h)
                      (subst (λ i. get_elem? (set s.batches k []) i ≡ some []) same
                        (get_elem?-set_self s.batches k [] (get_elem?-lt s.batches k b g)))
                      (subst (λ ms. Batches ms (c.payload ++ grown))
                        (ap (λ u. addressed a s.sent ++ (if u then m ∷ [] else [])) (sym t)
                          ∙ sym (addressed-snoc a k m s.sent))
                        (Batches-snoc shard_id grown c.sent))
                      c
                      (append-nil (c.payload ++ grown)
                        ∙ ap (λ u. c.payload ++ (u ++ e ∷ [])) (sym mine))
              ])
        | inr f ↦
            rw (f, add_entry)
              (elim (Bool-cases (k == a)) [
                | inr t ↦
                    Carried-other a k e s _ es h t (get_elem?-set_ne s.batches grown (ne_of k a t))
                      refl c
                | inl t ↦
                    let (same, mine) = own a k b s es g c t in
                    Carried-own a e s _ es c.payload grown
                      (subst (λ i. shard_for_hash bytes e.key assembler_count ≡ some i) same h)
                      (subst (λ i. get_elem? (set s.batches k grown) i ≡ some grown) same
                        (get_elem?-set_self s.batches k grown (get_elem?-lt s.batches k b g)))
                      c.sent c (ap (λ u. c.payload ++ (u ++ e ∷ [])) (sym mine))
              ])
      ]
    where
      ne_of : (i j : ℕ) → (i == j) ≡ false → i ≢ j
      ne_of i j t = ground arith

      own :
          (a k : ℕ) (b : List IndexEntry) (s : Scan) (es : List IndexEntry)
          → get_elem? s.batches k ≡ some b
          → (c : Carried a s es) → (k == a) ≡ true
          → (k ≡ a) × (c.batch ≡ b)
      own a k b s es g c t =
          let same : k ≡ a = (==_iff k a).0 t in
          (same, (cc (c.found, g, ap (get_elem? s.batches) same)))

  add_entry-length :
      (shard_id k : ℕ) (e : IndexEntry) (b : List IndexEntry) (s : Scan)
      → length s.batches ≡ assembler_count
      → length (add_entry shard_id k e b s).batches ≡ assembler_count
  unfolding add_entry
  add_entry-length shard_id k e b s l =
      elim (Bool-cases (length (b ++ e ∷ []) == send_batch_entries)) [
        | inl f ↦ rw (f, add_entry) (length-set s.batches k [] ∙ l)
        | inr f ↦ rw (f, add_entry) (length-set s.batches k (b ++ e ∷ []) ∙ l)
      ]

  scan_record-total :
      (shard_id n : ℕ) (s : Scan)
      → length s.batches ≡ assembler_count
      → (k : ℕ) × (b : List IndexEntry) × (shard_for_hash bytes (record_key n) assembler_count
          ≡ some k)
        × (get_elem? s.batches k ≡ some b)
        × (scan_record bytes shard_id n s ≡ some (add_entry shard_id k (record_entry n) b s))
        × (length (add_entry shard_id k (record_entry n) b s).batches ≡ assembler_count)
  unfolding scan_record add_entry
  scan_record-total shard_id n s l =
      let (_, e, lt) = shard_for_hash-lt bytes (record_key n) assembler_count (omega arith) in
      let k = hash_key bytes (record_key n) % assembler_count in
      let (b, g) = get_elem?_of_lt s.batches k (omega (arith, l, lt)) in
      (k, b, e, g, rw (e, g, scan_record) refl, add_entry-length shard_id k (record_entry n) b s l)

  -- The records of a part one after the other.
  pub scan_records-Carried :
      (shard_id n count : ℕ) (s : Scan) (es : List IndexEntry)
      → length s.batches ≡ assembler_count
      → (s' : Scan) × (scan_records bytes shard_id n count s ≡ some s')
        × ((a : ℕ) → Carried a s es → Carried a s' (es ++ records_from n count))
        × (length s'.batches ≡ assembler_count)
  unfolding scan_records records_from
  scan_records-Carried shard_id n zero s es l =
      (s, refl, λ a c. subst (Carried a s) (sym (append-nil es)) c, l)
  scan_records-Carried shard_id n (suc count) s es l =
      let (k, b, h, g, e, l') = scan_record-total shard_id n s l in
      let (s', e', f, l'') =
        scan_records-Carried shard_id (n + 1) count (add_entry shard_id k (record_entry n) b s)
          (es ++ record_entry n ∷ []) l' in
      (
        s',
        rw (e, scan_records) e',
        λ a c.
            subst (Carried a s')
              (append_assoc es (record_entry n ∷ []) (records_from (n + 1) count))
              (f a (add_entry-Carried shard_id a k (record_entry n) b s es h g c)),
        l'',
      )
