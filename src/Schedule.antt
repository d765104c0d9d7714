-- ===== src/Schedule.antt =====
-- src/lenkobot/reminder_schedule.py: recurrence rules, the next occurrence of a rule, local wall times
-- in a time zone, and quiet hours. The time zone database is a parameter (Schedule/Zone).
pub mod Zone
pub mod Rule
pub mod Occurrence
pub mod Quiet
mod Tests
