-- ===== src/Index.antt =====
-- crates/sitas-core/src/mailbox_index.rs: an index of records built by shards. A scanner reads its
-- part of the records and sends their entries in batches to assemblers, chosen by the hash of the
-- key; an assembler sorts what it received; and the coordinator merges and verifies these runs.
pub mod Entry
pub mod Records
pub mod Scanner
pub mod Assembler
pub mod Coordinator
pub mod Build
pub mod Heads
pub mod Merging
pub mod Verification
pub mod Feeds
pub mod Batches
pub mod Delivery
pub mod Parts
pub mod Arrival
pub mod EndToEnd
mod Tests
