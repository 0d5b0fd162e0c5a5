-- ===== src/Index/Parts.antt =====
-- crates/sitas-core/src/mailbox_index.rs: what a scanner sends is the part of each assembler, and
-- the parts of all are the records.
use mathlib.Core.Path.{subst}
use sitas.Common.{
  ℕ, zero, suc, ◌+◌, ◌-◌, ◌%◌, ◌<◌, ◌≡◌, refl, sym, ap, ◌∙◌, some, List, [], ◌∷◌, ◌++◌, get_elem?,
  replicate, retain, arith, append-nil, ◌==◌,
}
use sitas.Kv.Keys.{insert_sorted}
use sitas.Kv.Keys.Sorting.{sort_onto, sort_onto-insert_sorted}
use sitas.Placement.{hash_key}
use sitas.Placement.Range.{shard_for_hash-lt}
use sitas.Index.Entry.{IndexEntry, entry_key}
use sitas.Index.Records.{assembler_count, shard_count, record_count, partition_for}
use sitas.Index.Scanner.{IndexMessage, Scan, record_entry, flush, finish, run_scanner_shard}
use sitas.Index.Build.{addressed}
use sitas.Index.Feeds.{Feed}
use sitas.Index.Batches.{
  none_sent, Batches-Feed, records_from, addressed-append, addressed-flush, trailing,
}
use sitas.Index.Delivery.{assigned, Carried, assigned_to, scan_records-Carried}

trailing-Feed :
    (shard_id : ℕ) (batch : List IndexEntry)
    → Feed (trailing shard_id batch ++ IndexMessage.producer_done shard_id ∷ []) batch 1
trailing-Feed shard_id [] = Feed.last shard_id
trailing-Feed shard_id (x ∷ xs) =
    subst (λ p. Feed (trailing shard_id (x ∷ xs) ++ IndexMessage.producer_done shard_id ∷ []) p 1)
      (append-nil (x ∷ xs)) (Feed.more shard_id (x ∷ xs) (Feed.last shard_id))

addressed-finish :
    (shard_id a : ℕ)
    → a < assembler_count
    → addressed a (finish shard_id 0 assembler_count) ≡ IndexMessage.producer_done shard_id ∷ []
unfolding addressed finish
addressed-finish shard_id zero h = refl
addressed-finish shard_id (suc zero) h = refl
addressed-finish shard_id (suc (suc zero)) h = refl
addressed-finish shard_id (suc (suc (suc a))) h = absurd (omega arith)

empty_batch :
    (a : ℕ)
    → a < assembler_count
    → get_elem? (replicate {A = List IndexEntry} assembler_count []) a ≡ some []
empty_batch zero h = refl
empty_batch (suc zero) h = refl
empty_batch (suc (suc zero)) h = refl
empty_batch (suc (suc (suc a))) h = absurd (omega arith)

module _ (bytes : ℕ → List ℕ) where
  feed :
      (shard_id : ℕ) (es : List IndexEntry) (s : Scan)
      → ((a : ℕ)
          → Carried bytes a (record { batches = replicate assembler_count []; sent = [] }) []
          → Carried bytes a s es)
      → (a : ℕ) → a < assembler_count
      → Feed
          (addressed a
            (s.sent ++ (flush shard_id 0 s.batches ++ finish shard_id 0 assembler_count)))
          (retain (assigned bytes a) es)
          1
  unfolding addressed
  feed shard_id es s f a h =
      let c = f a (record {
        batch = [];
        payload = [];
        found = empty_batch a h;
        sent = none_sent;
        carried = refl;
      }) in
      let ended = IndexMessage.producer_done shard_id ∷ [] in
      let flushed : addressed a (flush shard_id 0 s.batches) ≡ trailing shard_id c.batch =
        ap (λ k. addressed k (flush shard_id 0 s.batches)) (omega arith)
        ∙ addressed-flush shard_id 0 a c.batch s.batches c.found in
      let all =
        addressed-append a s.sent (flush shard_id 0 s.batches ++ finish shard_id 0 assembler_count)
        ∙ ap (λ u. addressed a s.sent ++ u)
            (addressed-append a (flush shard_id 0 s.batches) (finish shard_id 0 assembler_count)
              ∙ ap (λ u. u ++ addressed a (finish shard_id 0 assembler_count)) flushed
              ∙ ap (λ u. trailing shard_id c.batch ++ u) (addressed-finish shard_id a h)) in
      subst (λ ms. Feed ms (retain (assigned bytes a) es) 1) (sym all)
        (subst (λ p. Feed (addressed a s.sent ++ (trailing shard_id c.batch ++ ended)) p 1)
          c.carried (Batches-Feed c.sent (trailing-Feed shard_id c.batch)))

  -- A scanner sends each assembler its entries of the part and then the last message.
  pub scanner_feeds :
      (shard_idx : ℕ)
      → let part = partition_for shard_idx shard_count record_count in
        (ms : List (ℕ × IndexMessage)) × (run_scanner_shard bytes shard_idx ≡ some ms)
        × ((a : ℕ)
            → a < assembler_count
            → Feed
                (addressed a ms)
                (retain (assigned bytes a) (records_from part.0 (part.1 - part.0)))
                1)
  unfolding run_scanner_shard addressed
  scanner_feeds shard_idx =
      let part = partition_for shard_idx shard_count record_count in
      let empty : Scan = record { batches = replicate assembler_count []; sent = [] } in
      let (s, e, f, l) =
        scan_records-Carried bytes shard_idx part.0 (part.1 - part.0) empty [] refl in
      let rest = flush shard_idx 0 s.batches ++ finish shard_idx 0 assembler_count in
      (
        s.sent ++ rest,
        rw (e, run_scanner_shard) refl,
        λ a h. feed shard_idx (records_from part.0 (part.1 - part.0)) s f a h,
      )

  abbrev pub parts_onto : List IndexEntry → List IndexEntry → List IndexEntry
  parts_onto es t =
      sort_onto (retain (assigned bytes 0) es)
        (sort_onto (retain (assigned bytes 1) es) (sort_onto (retain (assigned bytes 2) es) t))

  -- An entry that belongs to one of the assemblers.
  parts_onto-cons :
      (k : ℕ) (e : IndexEntry) (es t : List IndexEntry)
      → k < assembler_count
      → assigned bytes 0 e ≡ (k == 0)
      → assigned bytes 1 e ≡ (k == 1)
      → assigned bytes 2 e ≡ (k == 2)
      → parts_onto (e ∷ es) t ≡ insert_sorted e (parts_onto es t)
  unfolding sort_onto
  parts_onto-cons zero e es t h x y z = rw (x, y, z) refl
  parts_onto-cons (suc zero) e es t h x y z =
      rw (x, y, z)
        (sort_onto-insert_sorted e (retain (assigned bytes 0) es)
          (sort_onto (retain (assigned bytes 1) es) (sort_onto (retain (assigned bytes 2) es) t)))
  parts_onto-cons (suc (suc zero)) e es t h x y z =
      rw (x, y, z)
        (ap (sort_onto (retain (assigned bytes 0) es)) (
            sort_onto-insert_sorted e (retain (assigned bytes 1) es)
              (sort_onto (retain (assigned bytes 2) es) t))
          ∙ sort_onto-insert_sorted e (retain (assigned bytes 0) es) (
              sort_onto (retain (assigned bytes 1) es)
                (sort_onto (retain (assigned bytes 2) es) t)))
  parts_onto-cons (suc (suc (suc k))) e es t h x y z = absurd (omega arith)

  -- The entries of all assemblers are all entries.
  pub sort_onto-assigned : (es t : List IndexEntry) → parts_onto es t ≡ sort_onto es t
  unfolding sort_onto
  sort_onto-assigned [] t = refl
  sort_onto-assigned (e ∷ es) t =
      let (_, h, lt) = shard_for_hash-lt bytes e.key assembler_count (omega arith) in
      let k = hash_key bytes e.key % assembler_count in
      parts_onto-cons k e es t lt (assigned_to bytes 0 k e h) (assigned_to bytes 1 k e h)
        (assigned_to bytes 2 k e h)
      ∙ ap (insert_sorted e) (sort_onto-assigned es t)

pub records_from-append :
    (n c d : ℕ) → records_from n c ++ records_from (n + c) d ≡ records_from n (c + d)
unfolding records_from
records_from-append n zero d =
    let at : n + 0 ≡ n = omega arith in
    let sum : d ≡ 0 + d = omega arith in ap (λ k. records_from k d) at ∙ ap (records_from n) sum
records_from-append n (suc c) d =
    let at : n + suc c ≡ (n + 1) + c = omega arith in
    let sum : suc (c + d) ≡ suc c + d = omega arith in
    ap (λ k. record_entry n ∷ (records_from (n + 1) c ++ records_from k d)) at
    ∙ ap (◌∷◌ (record_entry n)) (records_from-append (n + 1) c d)
    ∙ ap (records_from n) sum
