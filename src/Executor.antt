-- ===== src/Executor.antt =====
-- crates/sitas-core/src/executor: the parts of the single-threaded executor, a module each.
pub mod Task
pub mod Timer
pub mod Interest
pub mod Groups
pub mod Backpressure
pub mod Sync
