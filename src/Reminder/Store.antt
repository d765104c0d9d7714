-- ===== src/Reminder/Store.antt =====
-- The reminder tables of the state database, the transactions over them, and the lookups that several
-- operations share.
pub mod Laws
use lenko_bot.Prelude.{
  ℕ, List, Bool, true, false, ◌&&◌, ◌||◌, leb, ◌==◌, Option, none, some, not, Outcome, ok, err,
  ◌>>=◌, ◌>>◌, or_raise, raise_if, value_error, key_error, permission_error, runtime_error,
}
use lenko_bot.Prelude.Table.{find}
use lenko_bot.Text.{Text, is_blank, strip}
use lenko_bot.Schedule.Zone.{ZoneDatabase}
use lenko_bot.Reminder.Types.{
  Profile, PersonaRow, TaskRecord, TaskStatus, ReminderJob, ReminderJobStatus, ReminderRun,
  ReminderRunStatus, OutboxEntry, OutboxStatus, DeliveryAudit, LifecycleState,
}

pub record Store : Type 0 where
  pub profiles : List Profile
  pub personas : List PersonaRow
  pub tasks : List TaskRecord
  pub jobs : List ReminderJob
  pub runs : List ReminderRun
  pub outbox : List OutboxEntry
  pub audits : List DeliveryAudit

-- What an operation does between BEGIN IMMEDIATE and COMMIT.
abbrev pub Body : Type 0 → Type 0
Body A = Store → Outcome (A × Store)

-- A transaction commits, or it rolls back and raises again.
abbrev pub transaction : {A : Type 0} → Body A → Store → Outcome A × Store
transaction body st = elim (body st) [ ok (a, st') ↦ (ok a, st') | err e ↦ (err e, st) ]

abbrev pub micros_per_second : ℕ
micros_per_second = 1_000_000

-- `MAX_DELIVERY_ATTEMPTS`
abbrev pub max_delivery_attempts : ℕ
max_delivery_attempts = 3

abbrev pub is_active_state : LifecycleState → Bool
is_active_state LifecycleState.active = true
is_active_state LifecycleState.reset_in_progress = false

abbrev pub is_active_task : TaskStatus → Bool
is_active_task TaskStatus.active = true
is_active_task _ = false

abbrev pub is_active_job : ReminderJobStatus → Bool
is_active_job ReminderJobStatus.active = true
is_active_job _ = false

-- `status IN ('cancelled', 'completed')`
abbrev pub is_closed_job : ReminderJobStatus → Bool
is_closed_job ReminderJobStatus.cancelled = true
is_closed_job ReminderJobStatus.completed = true
is_closed_job _ = false

-- `status IN ('due', 'claimed')`
abbrev pub is_open_run : ReminderRunStatus → Bool
is_open_run ReminderRunStatus.due = true
is_open_run ReminderRunStatus.claimed = true
is_open_run _ = false

abbrev pub is_leased : OutboxStatus → Bool
is_leased OutboxStatus.leased = true
is_leased _ = false

abbrev pub is_pending : OutboxStatus → Bool
is_pending OutboxStatus.pending = true
is_pending _ = false

abbrev pub is_sent : OutboxStatus → Bool
is_sent OutboxStatus.sent = true
is_sent _ = false

-- `status IN ('pending', 'leased')`
abbrev pub is_open_entry : OutboxStatus → Bool
is_open_entry s = is_pending s || is_leased s

-- `column = ?` on a column that may be NULL.
abbrev pub is_equal : Option ℕ → ℕ → Bool
is_equal none n = false
is_equal (some m) n = m == n

-- `column <= ?` on a column that may be NULL.
abbrev pub is_at_most : Option ℕ → ℕ → Bool
is_at_most none n = false
is_at_most (some m) n = leb m n

unfoldable pub profile_by_id : Store → ℕ → Option Profile
profile_by_id st user = find (λ p. p.user_id == user) st.profiles

-- `_task_by_id` and `_job_by_id`, before their test for None.
unfoldable pub task_by_id : Store → ℕ → Option TaskRecord
task_by_id st id = find (λ t. t.id == id) st.tasks

unfoldable pub job_by_id : Store → ℕ → Option ReminderJob
job_by_id st id = find (λ j. j.id == id) st.jobs

unfoldable pub run_by_id : Store → ℕ → Option ReminderRun
run_by_id st id = find (λ r. r.id == id) st.runs

unfoldable pub entry_by_id : Store → ℕ → Option OutboxEntry
entry_by_id st id = find (λ o. o.id == id) st.outbox

-- The JOIN of a run with its job.
unfoldable pub job_of_run : Store → ℕ → Option ReminderJob
job_of_run st id = elim (run_by_id st id) [ none ↦ none | some r ↦ job_by_id st r.job_id ]

-- `profile.lifecycle_epoch = ? AND profile.lifecycle_state = 'active'`, for an existing profile.
unfoldable pub is_current : Store → ℕ → ℕ → Bool
is_current st user epoch = elim (profile_by_id st user) [
  | none ↦ false
  | some p ↦ p.lifecycle_epoch == epoch && is_active_state p.lifecycle_state
]

unfoldable pub active_profile : Store → ℕ → Outcome Profile
active_profile st user = do
  p ← or_raise (profile_by_id st user) value_error
  raise_if (not (is_active_state p.lifecycle_state)) value_error
  ok p

unfoldable pub ensure_current_epoch : Store → TaskRecord → Outcome (Unit {0})
ensure_current_epoch st task = do
  p ← active_profile st task.owner_user_id
  raise_if (not (p.lifecycle_epoch == task.lifecycle_epoch)) runtime_error

-- The first part of `_owned_task_and_job`, which `_finish_task` makes too.
unfoldable pub owned_task : Store → ℕ → ℕ → Outcome TaskRecord
owned_task st task_id owner = do
  task ← or_raise (task_by_id st task_id) key_error
  raise_if (not (task.owner_user_id == owner)) permission_error
  ok task

-- `SELECT * FROM reminder_job WHERE task_id = ? ORDER BY id LIMIT 1`; rows stand in the order of ids.
unfoldable pub first_job_of_task : Store → ℕ → Option ReminderJob
first_job_of_task st task_id = find (λ j. j.task_id == task_id) st.jobs

unfoldable pub owned_task_and_job : Store → ℕ → ℕ → Outcome (TaskRecord × ReminderJob)
owned_task_and_job st task_id owner = do
  task ← owned_task st task_id owner
  job ← or_raise (first_job_of_task st task_id) runtime_error
  ok (task, job)

-- `_validate_timezone`
unfoldable pub check_timezone : ZoneDatabase → Text → Outcome (Unit {0})
check_timezone tz name = do
  raise_if (is_blank name) value_error
  zone ← or_raise (tz (strip name)) value_error
  ok tt

-- `_validate_quiet_policy`
unfoldable pub check_quiet_policy : Option ℕ → Option ℕ → Outcome (Unit {0})
check_quiet_policy none none = ok tt
check_quiet_policy none (some end) = err value_error
check_quiet_policy (some start) none = err value_error
check_quiet_policy (some start) (some end) = do
  raise_if (leb 1440 start || leb 1440 end) value_error
  raise_if (start == end) value_error
