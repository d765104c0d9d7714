-- ===== src/Lib.antt =====
-- LenkoBot, a Telegram companion bot: its reminders (recurrence rules, the reminder store with its
-- delivery outbox, the delivery worker), single-use confirmations, the reset of an owner, and its
-- conversations (sessions with their turns and summaries, memories, their extraction, the context).
--
-- How the parts interact. A reminder starts as a draft of a task with one job (`create_draft`),
-- waits for the owner's confirmation (`mark_awaiting_confirmation`) and becomes active
-- (`activate`), with the first instant of its rule as the job's next one. The scheduler turns due
-- jobs into runs, each with an entry in the delivery outbox (`materialize_due`), and moves the
-- job's cursor on by the rule. The worker leases an entry, sends it and commits it or gives it
-- back. Buttons under a reminder carry tokens of confirmations, by which the owner snoozes,
-- completes or cancels the task. A reset closes a fence (the next epoch of the owner's profile),
-- purges, and opens the fence; what belongs to an older epoch is then refused by every operation.
--
-- A conversation is a session of a lane: turns are appended to the lane's active session, an
-- extraction run of a turn is claimed, asks a provider and stores memories or fails, and `finalize`
-- puts a summary in place of the turns once no run is left open, and closes the session. The next
-- context is built from the recent turns, the summary and the memories.
--
-- Which file models what (paths from the repository's root):
-- * Prelude, Prelude/Tests, Lists, Errors: shared names, Boolean tests, Python's exceptions as
--   values.
-- * Prelude/Table, Table/Unique, Table/Without: an SQL table as a list of rows; lookups, UPDATE,
--   DELETE, key columns, and what a DELETE takes.
-- * Calendar, Calendar/Ordinal, Calendar/Order: what the source uses of Python's `datetime`.
-- * Text, Text/Laws: Python's `str` as code points.
-- * Schedule and below: src/lenkobot/reminder_schedule.py. Rule is `RecurrenceRule`, Zone is
--   `resolve_local_time` and `_load_zone`, Quiet is `quiet_hours_available_at`, Occurrence is
--   `next_occurrence`, `_next_weekly` and `_next_monthly`.
-- * Reminder and below: src/lenkobot/reminder_store.py. Types and Store hold the rows, the tables
--   and the lookups; Draft, Due, Delivery, Task, Profile and Query hold the operations under the
--   names of the methods (`finish_task` is `_finish_task`, with its two targets as `Closing`). What
--   is proved of them stands in the modules below each, in Access and in Invariant.
-- * Worker, Worker/Deliver: src/lenkobot/reminder_worker.py.
-- * Confirmation and below: src/lenkobot/action_confirmation.py.
-- * Callback, Callback/Laws: the confirmation data of src/lenkobot/telegram_presentation.py.
-- * Reset, Reset/Fence: src/lenkobot/reset_coordinator.py.
-- * State and below: the rows of the conversation tables, transactions over them, ORDER BY, and
--   lemmas on rows.
-- * Session, Session/Query: `SQLiteSessionStore` of src/lenkobot/session_store.py; Session/Finalize
--   is `SQLiteSessionFinalizer`; Session/Deletion is src/lenkobot/session_deletion.py. Laws,
--   Invariant, Finalized, Fence, Exchange and Deletion/Taken and Exact hold what is proved of them.
-- * Memory, Memory/Update, Context, Runs, Runs/Transition and Activate: src/lenkobot/memory.py.
--   Memory/Candidate, Extraction, Extraction/Loop and Coordinator:
--   src/lenkobot/memory_extraction.py (`update_memory` is `update`, `delete_memory` is `delete`).
-- * Context, Context/Clip: src/lenkobot/context_builder.py.
-- * Session/Tests, Memory/Tests, Context/Tests, Tests, Schedule/Tests, Reminder/Tests, TaskTests
--   and DueTests: the theorems at concrete inputs.
--
-- How state and operations correspond. A method of a store is a function on the tables that gives a
-- result or an exception, and the tables after it; what stands between BEGIN IMMEDIATE and COMMIT
-- is a body, and `transaction` rolls back when the body raises. The readings of the clock and the
-- random tokens are arguments. Instants are microseconds of UTC, so the fixed-width texts of SQLite
-- and these numbers have the same order. Lease tokens are numbers, since they are only compared; so
-- are chat ids. Rows stand in the order of their ids.
--
-- Parameters. The zone database of Python's `zoneinfo` is `ZoneDatabase`: a name stands for a zone
-- or for none, and a zone takes wall times to instants and back. SHA-256 and the encoder and
-- decoder of JSON are parameters of Confirmation. The send of a message, and what other coroutines
-- do to the store while it waits, are parameters of Worker. The hooks of a reset are parameters of
-- Reset.
--
-- The generator of summaries, the provider of memory candidates, the deny patterns (regular
-- expressions) and the decoder of a relationship's JSON are parameters of Session/Finalize and
-- Memory; what other connections commit while a summary or an answer is awaited is one too. The
-- clock stands still during one call of the extraction service.
--
-- Fuel. The loop of `process_with_retry` has one round more than the budget of attempts: every
-- round but a first one that only retries counts an attempt. The loop of `lease_delivery` has as
-- many rounds as there are entries and one more; each round but the last cancels an entry that was
-- open, so this is enough, and it is a theorem. The searches for a weekly and a monthly date have
-- the bounds of the source: 3660 days and 1200 months.
--
-- Not modelled: the rows' JSON and text forms, the CHECKs of the schema that no operation relies
-- on, overflow of a datetime inside a zone's conversion, a failure of SQLite itself, tests of
-- Python types by `isinstance`, the endless loop of the worker, the parse of a provider's JSON, the
-- export, and all other parts of the program (personas, the router, the providers and the
-- adapters). The changes of the reset to the conversation tables stand in Reset, over the columns
-- that it reads.
pub mod Prelude
pub mod Calendar
pub mod Text
pub mod Schedule
pub mod Reminder
pub mod Confirmation
pub mod Callback
pub mod Worker
pub mod Reset
pub mod State
pub mod Session
pub mod Memory
pub mod Context
pub mod Tests
