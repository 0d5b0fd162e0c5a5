-- ===== src/Index/Batches.antt =====
-- crates/sitas-core/src/mailbox_index.rs, run_scanner_shard: the batches for one assembler, and
-- the trailing ones.
use mathlib.Core.Path.{subst}
use sitas.Common.{
  ℕ, zero, suc, ◌+◌, ◌<◌, ◌≡◌, refl, sym, ap, ◌∙◌, some, List, [], ◌∷◌, ◌++◌, get_elem?, is_empty,
  arith, if◌then◌else◌, append-nil, append_assoc,
}
use sitas.Index.Entry.{IndexEntry}
use sitas.Index.Scanner.{IndexMessage, record_entry, flush}
use sitas.Index.Build.{addressed}
use sitas.Index.Feeds.{Feed}

pub addressed-append :
    (a : ℕ) (xs ys : List (ℕ × IndexMessage))
    → addressed a (xs ++ ys) ≡ addressed a xs ++ addressed a ys
unfolding addressed
addressed-append a [] ys = refl
addressed-append a (x ∷ xs) ys = ground (arith, addressed-append a xs ys)

-- Batches with these entries.
pub data Batches : List IndexMessage → List IndexEntry → Type 0 where
  none_sent : Batches [] []
  one_more :
      {ms : List IndexMessage} {p : List IndexEntry} (from : ℕ) (batch : List IndexEntry)
      → Batches ms p
      → Batches (IndexMessage.entries from batch ∷ ms) (batch ++ p)

pub Batches-snoc :
    {ms : List IndexMessage} {p : List IndexEntry} (from : ℕ) (batch : List IndexEntry)
    → Batches ms p
    → Batches (ms ++ IndexMessage.entries from batch ∷ []) (p ++ batch)
Batches-snoc from batch none_sent =
    subst (Batches (IndexMessage.entries from batch ∷ [])) (append-nil batch)
      (one_more from batch none_sent)
Batches-snoc {ms} from batch (one_more {ms = ms'} {p = p} f b h) =
    subst (Batches ((IndexMessage.entries f b ∷ ms') ++ IndexMessage.entries from batch ∷ []))
      (sym (append_assoc b p batch)) (one_more f b (Batches-snoc from batch h))

pub Batches-Feed :
    {ms ns : List IndexMessage} {p q : List IndexEntry}
    → Batches ms p
    → Feed ns q 1
    → Feed (ms ++ ns) (p ++ q) 1
Batches-Feed none_sent g = g
Batches-Feed {ns = ns} {q = q} (one_more {ms = ms} {p = p} f b h) g =
    subst (λ u. Feed (IndexMessage.entries f b ∷ (ms ++ ns)) u 1) (sym (append_assoc b p q))
      (Feed.more f b (Batches-Feed h g))

-- The records from `n` on.
unfoldable pub records_from : ℕ → ℕ → List IndexEntry
records_from n zero = []
records_from n (suc count) = record_entry n ∷ records_from (n + 1) count

addressed-flush_below :
    (shard_id a n : ℕ) (bs : List (List IndexEntry))
    → a < n
    → addressed a (flush shard_id n bs) ≡ []
unfolding addressed flush
addressed-flush_below shard_id a n [] h = refl
addressed-flush_below shard_id a n (b ∷ bs) h =
    ground (arith, addressed-flush_below shard_id a (n + 1) bs)

abbrev pub trailing : ℕ → List IndexEntry → List IndexMessage
trailing shard_id batch = if is_empty batch then [] else IndexMessage.entries shard_id batch ∷ []

pub addressed-flush :
    (shard_id n i : ℕ) (batch : List IndexEntry) (bs : List (List IndexEntry))
    → get_elem? bs i ≡ some batch
    → addressed (n + i) (flush shard_id n bs) ≡ trailing shard_id batch
unfolding addressed flush
addressed-flush shard_id n i batch [] e = absurd (cc)
addressed-flush shard_id n zero batch (b ∷ bs) e =
    ground (arith, addressed-flush_below shard_id (n + 0) (n + 1) bs)
addressed-flush shard_id n (suc i) batch (b ∷ bs) e =
    let at : (n + 1) + i ≡ n + suc i = omega arith in
    let later : addressed (n + suc i) (flush shard_id (n + 1) bs) ≡ trailing shard_id batch =
      ap (λ k. addressed k (flush shard_id (n + 1) bs)) (sym at)
      ∙ addressed-flush shard_id (n + 1) i batch bs e in
    ground (arith, later)
