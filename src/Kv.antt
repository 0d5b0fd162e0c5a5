-- ===== src/Kv.antt =====
-- crates/sitas-core/src/kv_service.rs: a map of texts whose keys are spread over shards, each of
-- which owns its part.
pub mod Keys
pub mod Map
pub mod Service
pub mod Single
pub mod History
mod Tests
