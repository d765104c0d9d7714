-- ===== src/Reminder.antt =====
-- src/lenkobot/reminder_store.py: tasks, reminder jobs, their runs and the delivery outbox.
pub mod Types
pub mod Store
pub mod Draft
pub mod Due
pub mod Delivery
pub mod Task
pub mod Access
pub mod Invariant
pub mod Profile
pub mod Query
pub mod Tests
mod TaskTests
mod DueTests
