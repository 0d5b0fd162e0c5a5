-- ===== src/Index/EndToEnd.antt =====
-- crates/sitas-core/src/mailbox_index.rs: whatever the order of the messages, the index is
-- complete.
use mathlib.Core.Option
use sitas.Common.{ℕ, ◌<◌, ◌≡◌, ap, ◌∙◌, inl, inr, some, List, ◌++◌, retain, ok, arith}
use sitas.Kv.Keys.{sort, nat_key}
use sitas.Index.Entry.{entry_key}
use sitas.Index.Records.{assembler_count, record_count, partition_for}
use sitas.Index.Scanner.{IndexMessage}
use sitas.Index.Assembler.{RunResult}
use sitas.Index.Coordinator.{verify_runs}
use sitas.Index.Build.{
  addressed, Schedule, coordinate, assemble, build_index_with_mailboxes, mailbox_index_test,
}
use sitas.Index.Verification.{Verified, verify_runs_lem}
use sitas.Index.Feeds.{Feed}
use sitas.Index.Batches.{records_from}
use sitas.Index.Delivery.{assigned}
use sitas.Index.Parts.{scanner_feeds, records_from-append}
use sitas.Index.Arrival.{arrived, later, assembler_run, retain-append, arrived-Verified}

parts_of_scanners :
    (bytes : ℕ → List ℕ) (a : ℕ)
    → retain (assigned bytes a) (records_from 0 512)
        ++ retain (assigned bytes a) (records_from 512 512)
      ≡ retain (assigned bytes a) (records_from 0 record_count)
parts_of_scanners bytes a =
    retain-append (assigned bytes a) (records_from 0 512) (records_from 512 512)
    ∙ ap (retain (assigned bytes a)) (records_from-append 0 512 512)

pub Verified-ok :
    (runs : List RunResult) → Verified runs → verify_runs runs ≡ some (ok record_count)
Verified-ok runs v = elim (verify_runs_lem runs) [ inl h ↦ h.0 | inr h ↦ absurd (h.1 v) ]

-- The assemblers and the coordinator, from what the two scanners send.
assembled :
    (bytes : ℕ → List ℕ) (s : Schedule) (xs ys : List (ℕ × IndexMessage))
    → ((a : ℕ)
        → a < assembler_count
        → Feed (addressed a xs) (retain (assigned bytes a) (records_from 0 512)) 1)
    → ((a : ℕ)
        → a < assembler_count
        → Feed (addressed a ys) (retain (assigned bytes a) (records_from 512 512)) 1)
    → assemble s xs ys ≡ some (ok record_count)
unfolding assemble coordinate arrived later
assembled bytes s xs ys f g =
    let (a, ra, wa, pa) =
      assembler_run 0 s.first (addressed 0 xs) (addressed 0 ys) _ _ (f 0 (omega arith))
        (g 0 (omega arith)) in
    let (b, rb, wb, pb) =
      assembler_run 1 s.second (addressed 1 xs) (addressed 1 ys) _ _ (f 1 (omega arith))
        (g 1 (omega arith)) in
    let (c, rc, wc, pc) =
      assembler_run 2 s.third (addressed 2 xs) (addressed 2 ys) _ _ (f 2 (omega arith))
        (g 2 (omega arith)) in
    rw (ra, rb, rc, assemble)
      (Verified-ok (arrived s a b c) (
        arrived-Verified s a b c bytes (wa, wb, wc)
          (
            pa ∙ ap sort (parts_of_scanners bytes 0),
            pb ∙ ap sort (parts_of_scanners bytes 1),
            pc ∙ ap sort (parts_of_scanners bytes 2),
          )))

-- Whatever the schedules of the mailboxes, no part of the build panics or waits without end: the
-- scanners send, the assemblers receive and sort, and the coordinator accepts the runs, so the
-- number of records is written to the result page.
pub build_verifies :
    (bytes : ℕ → List ℕ) (s : Schedule)
    → (build_index_with_mailboxes bytes s ≡ some (ok record_count))
      × (Option.map mailbox_index_test (build_index_with_mailboxes bytes s) ≡ some 1024)
unfolding build_index_with_mailboxes partition_for mailbox_index_test
build_verifies bytes s =
    let (xs, e, f) = scanner_feeds bytes 0 in
    let (ys, e', g) = scanner_feeds bytes 1 in
    let built : build_index_with_mailboxes bytes s ≡ some (ok record_count) =
      rw (e, e', build_index_with_mailboxes) (assembled bytes s xs ys f g) in
    (built, ap (Option.map mailbox_index_test) built)
