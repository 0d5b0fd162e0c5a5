-- ===== src/Index/Assembler.antt =====
-- crates/sitas-core/src/mailbox_index.rs, assembler_task: the run that an assembler makes of the
-- messages it receives, in their order.
use sitas.Common.{ℕ, zero, suc, Option, none, some, List, [], ◌∷◌, ◌++◌}
use sitas.Kv.Keys.{sort}
use sitas.Index.Entry.{IndexEntry, entry_key}
use sitas.Index.Records.{shard_count}
use sitas.Index.Scanner.{IndexMessage}

pub record RunResult : Type 0 where
  pub work_unit : ℕ
  pub entries : List IndexEntry

-- The loop, with so many producers left. `none`: the channel ended before, and the task returned.
unfoldable pub receive : ℕ → List IndexMessage → List IndexEntry → Option (List IndexEntry)
receive zero ms found = some found
receive (suc left) [] found = none
receive (suc left) (IndexMessage.entries from batch ∷ ms) found =
    receive (suc left) ms (found ++ batch)
receive (suc left) (IndexMessage.producer_done from ∷ ms) found = receive left ms found

unfoldable pub assembler_task : ℕ → List IndexMessage → Option RunResult
assembler_task work_unit ms = elim (receive shard_count ms []) [
  | none ↦ none
  | some found ↦ some (record { work_unit = work_unit; entries = sort found })
]
