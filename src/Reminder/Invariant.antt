-- ===== src/Reminder/Invariant.antt =====
-- The outbox stays well formed through every sequence of operations of the store.
pub mod Entry
pub mod Outbox
pub mod Tasks
pub mod Materialize
pub mod Run
