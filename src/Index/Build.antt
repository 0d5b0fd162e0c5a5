-- ===== src/Index/Build.antt =====
-- crates/sitas-core/src/mailbox_index.rs, build_index_with_mailboxes and mailbox_index_test: the
-- scanners, the assemblers and the coordinator together. The mailboxes keep the order of each
-- producer, and a schedule says which producer comes first wherever messages of two meet. `none`
-- is a panic, or a wait without end.
use sitas.Common.{
  ℕ, ◌%◌, ◌^◌, Bool, true, false, Option, none, some, List, [], ◌∷◌, ◌++◌, Result, ok, err, ◌==◌,
  if◌then◌else◌,
}
use sitas.Index.Records.{record_count}
use sitas.Index.Scanner.{IndexMessage, run_scanner_shard}
use sitas.Index.Assembler.{RunResult, assembler_task}
use sitas.Index.Coordinator.{verify_runs}

-- The messages to one assembler.
unfoldable pub addressed : ℕ → List (ℕ × IndexMessage) → List IndexMessage
addressed a [] = []
addressed a (m ∷ ms) = let rest = addressed a ms in if m.0 == a then m.1 ∷ rest else rest

-- Two sequences in one, in the order that the schedule says: `true` takes from the first.
unfoldable pub interleave {ℓ} : {A : Type ℓ} → List Bool → List A → List A → List A
interleave [] xs ys = xs ++ ys
interleave (true ∷ cs) [] ys = ys
interleave (true ∷ cs) (x ∷ xs) ys = x ∷ interleave cs xs ys
interleave (false ∷ cs) xs [] = xs
interleave (false ∷ cs) xs (y ∷ ys) = y ∷ interleave cs xs ys

-- The schedules of the mailboxes of the assemblers and of the coordinator.
pub record Schedule : Type 0 where
  pub first : List Bool
  pub second : List Bool
  pub third : List Bool
  pub results : List Bool
  pub later_results : List Bool

abbrev pub and_then {ℓ κ} : {A : Type ℓ} {B : Type κ} → Option A → (A → Option B) → Option B
and_then none f = none
and_then (some a) f = f a

unfoldable pub coordinate :
    Schedule → RunResult → RunResult → RunResult → Option (Result {0, 0} ℕ Unit)
unfolding interleave
coordinate s a b c =
    verify_runs (interleave s.results (a ∷ []) (interleave s.later_results (b ∷ []) (c ∷ [])))

unfoldable pub assemble :
    Schedule → List (ℕ × IndexMessage) → List (ℕ × IndexMessage) → Option (Result {0, 0} ℕ Unit)
unfolding interleave addressed coordinate
assemble s xs ys =
    and_then (assembler_task 0 (interleave s.first (addressed 0 xs) (addressed 0 ys))) λ a.
      and_then (assembler_task 1 (interleave s.second (addressed 1 xs) (addressed 1 ys))) λ b.
        and_then (assembler_task 2 (interleave s.third (addressed 2 xs) (addressed 2 ys)))
          (coordinate s a b)

module _ (bytes : ℕ → List ℕ) where
  unfoldable pub build_index_with_mailboxes : Schedule → Option (Result {0, 0} ℕ Unit)
  unfolding assemble
  build_index_with_mailboxes s =
      and_then (run_scanner_shard bytes 0)
        λ xs. and_then (run_scanner_shard bytes 1) (assemble s xs)

abbrev pub failure_sentinel : ℕ
failure_sentinel = 0xBADC0DE

-- What is written to the result page.
unfoldable pub mailbox_index_test : Result {0, 0} ℕ Unit → ℕ
mailbox_index_test (ok verified) =
    if verified == record_count then verified % 2 ^ 32 else failure_sentinel
mailbox_index_test (err e) = failure_sentinel
