-- ===== src/Reminder/Due.antt =====
-- `materialize_due`: each due job gets a run and an outbox entry, and its cursor moves on.
pub mod Cursor
pub mod Emit
pub mod Blocked
use lenko_bot.Prelude.{
  ℕ, suc, ◌+◌, ◌*◌, List, [], ◌∷◌, ◌++◌, Bool, true, false, ◌&&◌, ◌||◌, not, ltb, leb, ◌==◌,
  if◌then◌else◌, Option, none, some, Outcome, ok, err, ◌>>=◌, ◌>>◌, or_raise, raise_if, value_error,
  key_error, type_error, nonexistent, ambiguous, any, take,
}
use lenko_bot.Prelude.Table.{find, update, select, next_id}
use lenko_bot.Text.{Text}
use lenko_bot.Calendar.{LocalTime}
use lenko_bot.Schedule.Zone.{Zone, ZoneDatabase, resolve_local_time}
use lenko_bot.Schedule.Occurrence.{next_occurrence}
use lenko_bot.Schedule.Quiet.{quiet_hours_available_at}
use lenko_bot.Reminder.Types.{
  TaskRecord, TaskStatus, ReminderJob, ReminderJobStatus, ReminderRun, ReminderRunStatus,
  OutboxEntry, OutboxStatus,
}
use lenko_bot.Reminder.Store.{
  Store, Body, transaction, task_by_id, is_current, is_active_task, is_active_job, is_at_most,
  micros_per_second,
}
use lenko_bot.Reminder.Draft.{set_job, set_task}

-- A row of the query: the job with its task's chat and text.
pub record DueJob : Type 0 where
  pub job : ReminderJob
  pub chat_id : ℕ
  pub text : Text

-- The WHERE clause of the query, on a job and the task that it joins.
unfoldable pub is_due : Store → ℕ → ReminderJob → TaskRecord → Bool
is_due st now job task =
    is_active_job job.status
    && is_at_most job.next_scheduled_for now
    && is_active_task task.status
    && task.lifecycle_epoch == job.lifecycle_epoch
    && is_current st job.owner_user_id job.lifecycle_epoch

unfoldable pub due_rows : Store → ℕ → List ReminderJob → List DueJob
unfolding is_due
due_rows st now [] = []
due_rows st now (job ∷ jobs) = elim (task_by_id st job.task_id) [
  | none ↦ due_rows st now jobs
  | some task ↦
      if is_due st now job task
      then record { job = job; chat_id = task.chat_id; text = task.text } ∷ due_rows st now jobs
      else due_rows st now jobs
]

-- `ORDER BY job.next_scheduled_for ASC, job.id ASC`, with NULL first.
unfoldable pub is_before : ReminderJob → ReminderJob → Bool
is_before a b = elim a.next_scheduled_for [
  | none ↦ true
  | some s ↦ elim b.next_scheduled_for [
    | none ↦ false
    | some t ↦ ltb s t || (s == t && leb a.id b.id)
  ]
]

unfoldable pub insert_by_time : DueJob → List DueJob → List DueJob
unfolding is_before
insert_by_time r [] = r ∷ []
insert_by_time r (q ∷ qs) = if is_before r.job q.job then r ∷ q ∷ qs else q ∷ insert_by_time r qs

unfoldable pub sort_by_time : List DueJob → List DueJob
unfolding insert_by_time
sort_by_time [] = []
sort_by_time (r ∷ rs) = insert_by_time r (sort_by_time rs)

unfoldable pub due_jobs : Store → ℕ → ℕ → List DueJob
unfolding due_rows sort_by_time
due_jobs st now limit = take limit (sort_by_time (due_rows st now st.jobs))

-- When the entry becomes available, and whether the quiet hours could not be resolved.
unfoldable pub availability : Outcome ℕ → ℕ → Outcome (ℕ × Bool)
availability (ok at) scheduled = ok (at, false)
availability (err nonexistent) scheduled = ok (scheduled, true)
availability (err ambiguous) scheduled = ok (scheduled, true)
availability (err e) scheduled = err e

unfoldable pub complete_job : ReminderJob → ℕ → Store → Store
complete_job job now = set_job job.id (λ j. record j {
  status = ReminderJobStatus.completed;
  next_scheduled_for = none;
  emitted_count = job.emitted_count + 1;
  updated_at = now;
})

-- A following wall time that cannot be resolved: the job counts this run, has no further date, and
-- waits with its task for the owner.
unfoldable pub review_job : ReminderJob → ℕ → Store → Store
review_job job now st =
    set_task job.task_id (λ t. record t { status = TaskStatus.needs_review; updated_at = now })
      (set_job job.id
        (λ j. record j {
          status = ReminderJobStatus.needs_review;
          next_scheduled_for = none;
          emitted_count = job.emitted_count + 1;
          updated_at = now;
        })
        st)

-- `_mark_job_needs_review`
unfoldable pub mark_job_needs_review : ReminderJob → ℕ → Store → Store
mark_job_needs_review job now st =
    set_task job.task_id (λ t. record t { status = TaskStatus.needs_review; updated_at = now })
      (set_job job.id
        (λ j. record j {
          status = ReminderJobStatus.needs_review;
          next_scheduled_for = none;
          emitted_count = j.emitted_count + 1;
          updated_at = now;
        })
        st)

-- The `try` around `resolve_local_time` in `_advance_job_cursor`, on its result.
unfoldable pub advance_to : ReminderJob → ℕ → Outcome ℕ → Store → Outcome Store
unfolding review_job
advance_to job now (ok next) st = ok (
    set_job job.id
      (λ j. record j {
        next_scheduled_for = some next;
        emitted_count = job.emitted_count + 1;
        updated_at = now;
      })
      st)
advance_to job now (err nonexistent) st = ok (review_job job now st)
advance_to job now (err ambiguous) st = ok (review_job job now st)
advance_to job now (err e) st = err e

unfoldable pub advance_following :
    ZoneDatabase → ReminderJob → ℕ → Option LocalTime → Store → Outcome Store
unfolding complete_job advance_to
advance_following tz job now none st = ok (complete_job job now st)
advance_following tz job now (some t) st =
    advance_to job now (resolve_local_time tz t job.timezone_name) st

-- `_advance_job_cursor`
unfoldable pub advance_job_cursor : ZoneDatabase → ReminderJob → ℕ → ℕ → Store → Outcome Store
unfolding advance_following
advance_job_cursor tz job scheduled now st = do
  zone ← or_raise (tz job.timezone_name) key_error
  following ←
      next_occurrence job.recurrence job.local_start (some (zone.from_utc scheduled))
        (job.emitted_count + 1)
  advance_following tz job now following st

unfoldable pub new_run :
    Store → ReminderJob → ℕ → ℕ → ReminderRunStatus → Option Text → Option Text → ReminderRun
new_run st job scheduled now status error_kind action_token = record {
  id = next_id (λ r. r.id) st.runs;
  job_id = job.id;
  owner_user_id = job.owner_user_id;
  lifecycle_epoch = job.lifecycle_epoch;
  scheduled_for = scheduled;
  status = status;
  claimed_at = none;
  delivered_at = none;
  error_kind = error_kind;
  action_token = action_token;
  created_at = now;
  updated_at = now;
}

unfoldable pub new_entry : Store → ReminderRun → ℕ → Text → ℕ → ℕ → OutboxStatus → OutboxEntry
new_entry st run chat_id text available now status = record {
  id = next_id (λ o. o.id) st.outbox;
  run_id = run.id;
  owner_user_id = run.owner_user_id;
  lifecycle_epoch = run.lifecycle_epoch;
  chat_id = chat_id;
  text = text;
  scheduled_for = run.scheduled_for;
  available_at = available;
  status = status;
  attempt = 0;
  lease_token = none;
  lease_until = none;
  telegram_message_id = none;
  error_kind = none;
  created_at = now;
  updated_at = now;
}

abbrev pub run_status : Bool → ReminderRunStatus
run_status true = ReminderRunStatus.missed
run_status false = ReminderRunStatus.due

abbrev pub entry_status : Bool → OutboxStatus
entry_status true = OutboxStatus.cancelled
entry_status false = OutboxStatus.pending

-- "quiet_hours_invalid"
abbrev pub quiet_hours_invalid : Bool → Option Text
quiet_hours_invalid true = some (
    113 ∷ 117 ∷ 105 ∷ 101 ∷ 116 ∷ 95 ∷ 104 ∷ 111 ∷ 117 ∷ 114 ∷ 115 ∷ 95 ∷ 105 ∷ 110 ∷ 118 ∷ 97 ∷ 108
    ∷ 105 ∷ 100 ∷ [])
quiet_hours_invalid false = none

-- `UNIQUE(job_id, scheduled_for)` of `reminder_run`.
unfoldable pub has_run : Store → ℕ → ℕ → Bool
has_run st job_id scheduled = any (λ r. r.job_id == job_id && r.scheduled_for == scheduled) st.runs

unfoldable pub insert_run : ReminderRun → OutboxEntry → Store → Store
insert_run run entry st = record st { runs = st.runs ++ run ∷ []; outbox = st.outbox ++ entry ∷ [] }

unfoldable pub is_missed : ReminderJob → ℕ → ℕ → ℕ → Bool → Bool
is_missed job scheduled now available failed =
    let deadline = scheduled + job.grace_seconds * micros_per_second in
    failed || ltb deadline now || ltb deadline available

unfoldable pub move_cursor : ZoneDatabase → ReminderJob → ℕ → ℕ → Bool → Store → Outcome Store
unfolding mark_job_needs_review advance_job_cursor
move_cursor tz job scheduled now true st = ok (mark_job_needs_review job now st)
move_cursor tz job scheduled now false st = advance_job_cursor tz job scheduled now st

-- A new run with its outbox entry, given what the quiet hours said.
unfoldable pub emit_run : ZoneDatabase → DueJob → ℕ → ℕ → ℕ × Bool → Body (Option ReminderRun)
unfolding new_run new_entry insert_run is_missed move_cursor
emit_run tz row scheduled now (available, failed) st = do
  let missed = is_missed row.job scheduled now available failed
  let run = new_run st row.job scheduled now (run_status missed) (quiet_hours_invalid failed) none
  let entry = new_entry st run row.chat_id row.text available now (entry_status missed)
  st' ← move_cursor tz row.job scheduled now failed (insert_run run entry st)
  ok (some run, st')

-- One round of the loop; `none` is the `continue` after INSERT OR IGNORE met an existing run.
unfoldable pub materialize_job : ZoneDatabase → ℕ → DueJob → Body (Option ReminderRun)
unfolding availability emit_run has_run
materialize_job tz now row st = do
  scheduled ← or_raise row.job.next_scheduled_for value_error
  quiet ←
      availability
        (quiet_hours_available_at tz scheduled row.job.timezone_name row.job.quiet_start_minute
          row.job.quiet_end_minute row.job.urgent)
        scheduled
  if has_run st row.job.id scheduled then ok (none, st) else emit_run tz row scheduled now quiet st

abbrev pub cons_some : Option ReminderRun → List ReminderRun → List ReminderRun
cons_some none runs = runs
cons_some (some r) runs = r ∷ runs

unfoldable pub materialize_all : ZoneDatabase → ℕ → List DueJob → Body (List ReminderRun)
unfolding materialize_job
materialize_all tz now [] st = ok ([], st)
materialize_all tz now (row ∷ rows) st = elim (materialize_job tz now row st) [
  | err e ↦ err e
  | ok (run, st') ↦ elim (materialize_all tz now rows st') [
    | err e ↦ err e
    | ok (runs, st'') ↦ ok (cons_some run runs, st'')
  ]
]

unfoldable pub materialize_due : ZoneDatabase → ℕ → ℕ → Store → Outcome (List ReminderRun) × Store
unfolding due_jobs materialize_all
materialize_due tz limit now st =
    if ltb limit 1 || ltb 1000 limit
    then (err value_error, st)
    else transaction (λ s. materialize_all tz now (due_jobs s now limit) s) st
