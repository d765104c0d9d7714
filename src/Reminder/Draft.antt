-- ===== src/Reminder/Draft.antt =====
-- `create_draft`, `mark_awaiting_confirmation` and `activate`: from a draft to an active reminder.
use lenko_bot.Prelude.{
  ℕ, [], ◌∷◌, ◌++◌, ◌&&◌, ◌||◌, ltb, ◌==◌, none, some, Outcome, ok, err, ◌>>=◌, ◌>>◌, or_raise,
  raise_if, value_error, runtime_error, nonexistent, ambiguous, length,
}
use lenko_bot.Prelude.Table.{find, update, next_id}
use lenko_bot.Text.{is_blank, strip}
use lenko_bot.Schedule.Zone.{ZoneDatabase, resolve_local_time}
use lenko_bot.Schedule.Occurrence.{next_occurrence}
use lenko_bot.Reminder.Types.{
  ReminderDraft, TaskRecord, TaskStatus, ReminderJob, ReminderJobStatus, Profile,
}
use lenko_bot.Reminder.Store.{
  Store, Body, transaction, active_profile, ensure_current_epoch, owned_task_and_job, job_by_id,
  check_timezone, check_quiet_policy,
}

-- `_validate_draft`
unfoldable pub validate_draft : ZoneDatabase → ReminderDraft → Outcome (Unit {0})
validate_draft tz d = do
  raise_if (d.owner_user_id == 0) value_error
  raise_if (d.persona_id == 0) value_error
  raise_if (is_blank d.text) value_error
  raise_if (ltb 1000 (length (strip d.text))) value_error
  check_timezone tz d.timezone_name
  check_quiet_policy d.quiet_start_minute d.quiet_end_minute
  raise_if (d.grace_seconds == 0 || ltb 604800 d.grace_seconds) value_error

unfoldable pub drafted_task : Store → ReminderDraft → Profile → ℕ → TaskRecord
drafted_task st d profile now = record {
  id = next_id (λ t. t.id) st.tasks;
  owner_user_id = d.owner_user_id;
  persona_id = d.persona_id;
  chat_id = d.chat_id;
  lifecycle_epoch = profile.lifecycle_epoch;
  text = strip d.text;
  status = TaskStatus.awaiting_confirmation;
  created_at = now;
  updated_at = now;
}

unfoldable pub drafted_job : Store → ReminderDraft → Profile → ℕ → ReminderJob
drafted_job st d profile now = record {
  id = next_id (λ j. j.id) st.jobs;
  task_id = next_id (λ t. t.id) st.tasks;
  owner_user_id = d.owner_user_id;
  lifecycle_epoch = profile.lifecycle_epoch;
  status = ReminderJobStatus.draft;
  timezone_name = strip d.timezone_name;
  local_start = d.local_start;
  recurrence = d.recurrence;
  next_scheduled_for = none;
  emitted_count = 0;
  grace_seconds = d.grace_seconds;
  quiet_start_minute = d.quiet_start_minute;
  quiet_end_minute = d.quiet_end_minute;
  urgent = d.urgent;
  created_at = now;
  updated_at = now;
}

unfoldable pub insert_draft : ReminderDraft → ℕ → Body (TaskRecord × ReminderJob)
unfolding drafted_task drafted_job
insert_draft d now st = do
  profile ← active_profile st d.owner_user_id
  persona ← or_raise (find (λ p. p.id == d.persona_id && p.is_active) st.personas) value_error
  let task = drafted_task st d profile now
  let job = drafted_job st d profile now
  ok ((task, job), record st { tasks = st.tasks ++ task ∷ []; jobs = st.jobs ++ job ∷ [] })

unfoldable pub create_draft :
    ZoneDatabase → ReminderDraft → ℕ → Store → Outcome (TaskRecord × ReminderJob) × Store
unfolding insert_draft validate_draft
create_draft tz d now st = elim (validate_draft tz d) [
  | ok _ ↦ transaction (insert_draft d now) st
  | err e ↦ (err e, st)
]

-- `UPDATE reminder_job SET ... WHERE id = ?`
abbrev pub set_job : ℕ → (ReminderJob → ReminderJob) → Store → Store
set_job id f st = record st { jobs = update (λ j. j.id == id) f st.jobs }

abbrev pub set_task : ℕ → (TaskRecord → TaskRecord) → Store → Store
set_task id f st = record st { tasks = update (λ t. t.id == id) f st.tasks }

unfoldable pub await_job : ReminderJob → ℕ → ReminderJobStatus → Body ReminderJob
await_job job now ReminderJobStatus.draft st = do
  let st' =
      set_job job.id
        (λ j. record j { status = ReminderJobStatus.awaiting_confirmation; updated_at = now }) st
  job' ← or_raise (job_by_id st' job.id) runtime_error
  ok (job', st')
await_job job now ReminderJobStatus.awaiting_confirmation st = ok (job, st)
await_job job now ReminderJobStatus.active st = ok (job, st)
await_job job now ReminderJobStatus.needs_review st = ok (job, st)
await_job job now ReminderJobStatus.completed st = err runtime_error
await_job job now ReminderJobStatus.cancelled st = err runtime_error

unfoldable pub mark_awaiting_body : ℕ → ℕ → ℕ → Body ReminderJob
unfolding await_job
mark_awaiting_body task_id owner now st = do
  owned ← owned_task_and_job st task_id owner
  done ← await_job owned.1 now (owned.1).status st
  ensure_current_epoch done.1 owned.0
  ok done

unfoldable pub mark_awaiting_confirmation : ℕ → ℕ → ℕ → Store → Outcome ReminderJob × Store
unfolding mark_awaiting_body
mark_awaiting_confirmation task_id owner now = transaction (mark_awaiting_body task_id owner now)

-- The job and its task, marked for review by the owner.
unfoldable pub needs_review : ℕ → ℕ → ℕ → Store → Store
needs_review job_id task_id now st =
    set_task task_id (λ t. record t { status = TaskStatus.needs_review; updated_at = now })
      (set_job job_id
        (λ j. record j {
          status = ReminderJobStatus.needs_review;
          next_scheduled_for = none;
          updated_at = now;
        })
        st)

unfoldable pub schedule_first : ℕ → ℕ → ℕ → ℕ → Store → Store
schedule_first job_id task_id first now st =
    set_task task_id (λ t. record t { status = TaskStatus.active; updated_at = now })
      (set_job job_id
        (λ j. record j {
          status = ReminderJobStatus.active;
          next_scheduled_for = some first;
          updated_at = now;
        })
        st)

-- The `try` around `resolve_local_time` in `activate`, on its result.
unfoldable pub activate_at : ReminderJob → ℕ → ℕ → Outcome ℕ → Store → Outcome Store
unfolding needs_review schedule_first
activate_at job task_id now (ok first) st = ok (schedule_first job.id task_id first now st)
activate_at job task_id now (err nonexistent) st = ok (needs_review job.id task_id now st)
activate_at job task_id now (err ambiguous) st = ok (needs_review job.id task_id now st)
activate_at job task_id now (err e) st = err e

unfoldable pub activate_awaiting : ZoneDatabase → ReminderJob → ℕ → ℕ → Body ReminderJob
unfolding activate_at
activate_awaiting tz job task_id now st = do
  first ← next_occurrence job.recurrence job.local_start none 0
  local ← or_raise first runtime_error
  st' ← activate_at job task_id now (resolve_local_time tz local job.timezone_name) st
  job' ← or_raise (job_by_id st' job.id) runtime_error
  ok (job', st')

unfoldable pub activate_job :
    ZoneDatabase → ReminderJob → ℕ → ℕ → ReminderJobStatus → Body ReminderJob
unfolding activate_awaiting
activate_job tz job task_id now ReminderJobStatus.active st = ok (job, st)
activate_job tz job task_id now ReminderJobStatus.needs_review st = ok (job, st)
activate_job tz job task_id now ReminderJobStatus.awaiting_confirmation st =
    activate_awaiting tz job task_id now st
activate_job tz job task_id now ReminderJobStatus.draft st = err runtime_error
activate_job tz job task_id now ReminderJobStatus.completed st = err runtime_error
activate_job tz job task_id now ReminderJobStatus.cancelled st = err runtime_error

unfoldable pub activate_body : ZoneDatabase → ℕ → ℕ → ℕ → Body ReminderJob
unfolding activate_job
activate_body tz task_id owner now st = do
  owned ← owned_task_and_job st task_id owner
  ensure_current_epoch st owned.0
  activate_job tz owned.1 task_id now (owned.1).status st

unfoldable pub activate : ZoneDatabase → ℕ → ℕ → ℕ → Store → Outcome ReminderJob × Store
unfolding activate_body
activate tz task_id owner now = transaction (activate_body tz task_id owner now)
