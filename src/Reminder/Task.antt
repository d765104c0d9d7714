-- ===== src/Reminder/Task.antt =====
-- Closing, snoozing and purging tasks: `cancel_task`, `complete_task`, `snooze_task`, `purge_owner`.
pub mod Close
pub mod Silent
pub mod Snooze
pub mod Purge
use lenko_bot.Prelude.{
  ℕ, ◌+◌, ◌*◌, List, [], ◌∷◌, ◌++◌, Bool, true, false, ◌&&◌, ◌||◌, not, ltb, leb, ◌==◌,
  if◌then◌else◌, Option, none, some, Outcome, ok, err, ◌>>=◌, ◌>>◌, or_raise, raise_if, value_error,
  runtime_error, integrity_error, any, length, is_some,
}
use lenko_bot.Prelude.Table.{find, update, delete}
use lenko_bot.Text.{Text, text_eq, is_blank}
use lenko_bot.Schedule.Zone.{ZoneDatabase}
use lenko_bot.Schedule.Quiet.{quiet_hours_available_at}
use lenko_bot.Reminder.Types.{
  TaskRecord, TaskStatus, ReminderJob, ReminderJobStatus, ReminderRun, ReminderRunStatus,
  OutboxEntry, OutboxStatus,
}
use lenko_bot.Reminder.Store.{
  Store, Body, transaction, task_by_id, job_by_id, job_of_run, owned_task, owned_task_and_job,
  ensure_current_epoch, profile_by_id, is_active_state, is_active_task, is_closed_job, is_open_run,
  is_open_entry, micros_per_second,
}
use lenko_bot.Reminder.Draft.{set_task}
use lenko_bot.Reminder.Due.{new_run, new_entry, insert_run, has_run, run_status, entry_status}

-- The two targets of `_finish_task`.
pub data Closing : Type 0 where
  complete cancel : Closing

abbrev pub closed_task : Closing → TaskStatus
closed_task complete = TaskStatus.completed
closed_task cancel = TaskStatus.cancelled

abbrev pub closed_job : Closing → ReminderJobStatus
closed_job complete = ReminderJobStatus.completed
closed_job cancel = ReminderJobStatus.cancelled

-- `current is target`
abbrev pub is_closed_as : Closing → TaskStatus → Bool
is_closed_as complete TaskStatus.completed = true
is_closed_as cancel TaskStatus.cancelled = true
is_closed_as _ _ = false

-- `current in {CANCELLED, COMPLETED}`
abbrev pub is_closed_task : TaskStatus → Bool
is_closed_task TaskStatus.completed = true
is_closed_task TaskStatus.cancelled = true
is_closed_task _ = false

-- `job_id IN (SELECT id FROM reminder_job WHERE task_id = ?)`
unfoldable pub is_job_of : Store → ℕ → ℕ → Bool
is_job_of st task_id job_id = any (λ j. j.id == job_id && j.task_id == task_id) st.jobs

-- `run_id IN (SELECT run.id ... WHERE job.task_id = ?)`
unfoldable pub is_run_of : Store → ℕ → ℕ → Bool
unfolding is_job_of
is_run_of st task_id run_id = any (λ r. r.id == run_id && is_job_of st task_id r.job_id) st.runs

abbrev pub close_job : Closing → ℕ → ReminderJob → ReminderJob
close_job target now j = record j {
  status = closed_job target;
  next_scheduled_for = none;
  updated_at = now;
}

abbrev pub cancel_run : ℕ → ReminderRun → ReminderRun
cancel_run now r = record r { status = ReminderRunStatus.cancelled; updated_at = now }

abbrev pub withdraw : ℕ → OutboxEntry → OutboxEntry
withdraw now o = record o {
  status = OutboxStatus.cancelled;
  updated_at = now;
  lease_token = none;
  lease_until = none;
}

-- The four UPDATEs of `_finish_task`. The subqueries read ids and links, which the UPDATEs before them
-- leave alone.
unfoldable pub close_task : Closing → ℕ → ℕ → Store → Store
close_task target task_id now st = record st {
  tasks =
      update (λ t. t.id == task_id)
        (λ t. record t { status = closed_task target; updated_at = now }) st.tasks;
  jobs =
      update (λ j. j.task_id == task_id && not (is_closed_job j.status)) (close_job target now)
        st.jobs;
  runs =
      update (λ r. is_job_of st task_id r.job_id && is_open_run r.status) (cancel_run now) st.runs;
  outbox =
      update (λ o. is_run_of st task_id o.run_id && is_open_entry o.status) (withdraw now)
        st.outbox;
}

unfoldable pub finish_body : Closing → ℕ → ℕ → ℕ → Body TaskRecord
unfolding close_task
finish_body target task_id owner now st = do
  task ← owned_task st task_id owner
  ensure_current_epoch st task
  let closed = do
    raise_if (is_closed_task task.status) runtime_error
    row ← or_raise (task_by_id (close_task target task_id now st) task_id) runtime_error
    ok (row, close_task target task_id now st)
  if is_closed_as target task.status then ok (task, st) else closed

-- `cancel_task` and `complete_task`, by the target of `_finish_task`.
unfoldable pub finish_task : Closing → ℕ → ℕ → ℕ → Store → Outcome TaskRecord × Store
unfolding finish_body
finish_task target task_id owner now = transaction (finish_body target task_id owner now)

-- `WHERE run.action_token = ?`
abbrev pub has_token : Text → ReminderRun → Bool
has_token token r = elim r.action_token [ none ↦ false | some t ↦ text_eq t token ]

-- The JOIN drops a run whose job is gone.
unfoldable pub run_with_token : Store → Text → Option ReminderRun
run_with_token st token = find (λ r. has_token token r && is_some (job_by_id st r.job_id)) st.runs

-- A run made by an earlier call with this token: the same task gets it again.
unfoldable pub replay_snooze : ReminderRun → ℕ → ℕ → Body ReminderRun
replay_snooze run task_id owner st = elim (job_by_id st run.job_id) [
  | none ↦ err runtime_error
  | some job ↦
      if run.owner_user_id == owner && job.task_id == task_id
      then ok (run, st)
      else err runtime_error
]

abbrev pub shares_token : ReminderRun → ReminderRun → Bool
shares_token run r = elim run.action_token [ none ↦ false | some t ↦ has_token t r ]

-- `UNIQUE(job_id, scheduled_for)` and the unique index on `action_token`.
unfoldable pub insert_snoozed : ReminderRun → OutboxEntry → Body ReminderRun
insert_snoozed run entry st =
    if has_run st run.job_id run.scheduled_for || any (shares_token run) st.runs
    then err integrity_error
    else ok (run, insert_run run entry st)

unfoldable pub is_late : ReminderJob → ℕ → ℕ → Bool
is_late job scheduled available = ltb (scheduled + job.grace_seconds * micros_per_second) available

-- The run and the entry that a new snooze inserts.
unfoldable pub snooze_at : TaskRecord → ReminderJob → ℕ → Text → ℕ → ℕ → ℕ → Body ReminderRun
unfolding insert_snoozed is_late
snooze_at task job owner token scheduled now available st =
    let missed = is_late job scheduled available in
    let run =
      new_run st (record job { owner_user_id = owner }) scheduled now (run_status missed) none
        (some token) in
    let entry = new_entry st run task.chat_id task.text available now (entry_status missed) in
    insert_snoozed run entry st

unfoldable pub new_snooze : ZoneDatabase → ℕ → ℕ → Text → ℕ → ℕ → Body ReminderRun
unfolding snooze_at
new_snooze tz task_id owner token delay now st = do
  owned ← owned_task_and_job st task_id owner
  ensure_current_epoch st owned.0
  raise_if (not (is_active_task (owned.0).status)) runtime_error
  let job = owned.1
  let scheduled = now + delay * micros_per_second
  available ←
      quiet_hours_available_at tz scheduled job.timezone_name job.quiet_start_minute
        job.quiet_end_minute job.urgent
  snooze_at owned.0 job owner token scheduled now available st

unfoldable pub snooze_body : ZoneDatabase → ℕ → ℕ → Text → ℕ → ℕ → Body ReminderRun
unfolding new_snooze replay_snooze run_with_token
snooze_body tz task_id owner token delay now st = elim (run_with_token st token) [
  | some run ↦ replay_snooze run task_id owner st
  | none ↦ new_snooze tz task_id owner token delay now st
]

unfoldable pub snooze_task :
    ZoneDatabase → ℕ → ℕ → Text → ℕ → ℕ → Store → Outcome ReminderRun × Store
unfolding snooze_body
snooze_task tz task_id owner token delay now st =
    if is_blank token || ltb 128 (length token)
    then (err value_error, st)
    else if ltb delay 60 || ltb 604800 delay
    then (err value_error, st)
    else transaction (snooze_body tz task_id owner token delay now) st

-- The rows that DELETE FROM task and its ON DELETE CASCADE take: the owner's tasks, the jobs of those
-- tasks, the runs of those jobs, and the outbox entries of those runs.
unfoldable pub is_purged_job : Store → ℕ → ReminderJob → Bool
is_purged_job st owner j = any (λ t. t.owner_user_id == owner && t.id == j.task_id) st.tasks

unfoldable pub is_purged_run : Store → ℕ → ReminderRun → Bool
unfolding is_purged_job
is_purged_run st owner r = any (λ j. is_purged_job st owner j && j.id == r.job_id) st.jobs

unfoldable pub is_purged_entry : Store → ℕ → OutboxEntry → Bool
unfolding is_purged_run
is_purged_entry st owner o = any (λ r. is_purged_run st owner r && r.id == o.run_id) st.runs

unfoldable pub delete_owner : ℕ → Store → Store
unfolding is_purged_job is_purged_run is_purged_entry
delete_owner owner st = record st {
  tasks = delete (λ t. t.owner_user_id == owner) st.tasks;
  jobs = delete (is_purged_job st owner) st.jobs;
  runs = delete (is_purged_run st owner) st.runs;
  outbox = delete (is_purged_entry st owner) st.outbox;
}

unfoldable pub purge_body : ℕ → ℕ → Body (Unit {0})
unfolding delete_owner
purge_body owner epoch st = elim (profile_by_id st owner) [
  | none ↦ err runtime_error
  | some p ↦
      if not (p.lifecycle_epoch == epoch) || is_active_state p.lifecycle_state
      then err runtime_error
      else ok (tt, delete_owner owner st)
]

unfoldable pub purge_owner : ℕ → ℕ → Store → Outcome (Unit {0}) × Store
unfolding purge_body
purge_owner owner epoch = transaction (purge_body owner epoch)
