-- ===== src/Runtime.antt =====
-- crates/sitas-core/src/runtime.rs: the start of the shards of a service, their mailboxes, which
-- are bounded channels of the standard library, and the replies to single requests.
pub mod Config
pub mod Reply
pub mod Shards
mod Tests
