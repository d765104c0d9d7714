-- ===== src/Reminder/Task/Close.antt =====
-- `_finish_task`: what a task that was completed or cancelled leaves behind.
use lenko_bot.Prelude.{
  ap, ℕ, ◌≡◌, ◌≢◌, ◌∙◌, refl, List, [], ◌∷◌, Bool, true, false, ◌&&◌, not, inl, inr, ◌⊎◌, arith,
  All, some, Outcome, ok, err, Bool-cases, ◌==◌, if◌then◌else◌, >>=-eq-ok, raise_if-passed,
  or_raise, runtime_error,
}
use lenko_bot.Prelude.Table.{find-update, update}
use lenko_bot.Reminder.Types.{TaskRecord, TaskStatus, ReminderJob, ReminderRun, OutboxEntry}
use lenko_bot.Reminder.Store.{
  Store, task_by_id, owned_task, ensure_current_epoch, is_closed_job, is_open_run, is_open_entry,
  active_profile, profile_by_id,
}
use lenko_bot.Reminder.Store.Laws.{
  transaction-ok, transaction-err, transaction-eq-ok, task_by_id-id,
}
use lenko_bot.Reminder.Task.{
  Closing, complete, cancel, closed_task, closed_job, is_closed_as, is_closed_task, is_job_of,
  is_run_of, close_job, cancel_run, withdraw, close_task, finish_body, finish_task,
}

owned_task-eq-ok :
    (st : Store) (task_id owner : ℕ) (t : TaskRecord)
    → owned_task st task_id owner ≡ ok t
    → (task_by_id st task_id ≡ some t) × ((t.owner_user_id == owner) ≡ true)
unfolding owned_task
owned_task-eq-ok st task_id owner t h = ground arith

abbrev pub closed_row : Closing → ℕ → TaskRecord → TaskRecord
closed_row target now t = record t { status = closed_task target; updated_at = now }

task_after :
    (target : Closing) (task_id now : ℕ) (st : Store) (t : TaskRecord)
    → task_by_id st task_id ≡ some t
    → task_by_id (close_task target task_id now st) task_id ≡ some (closed_row target now t)
unfolding task_by_id close_task
task_after target task_id now st t h =
    find-update (λ q. q.id == task_id) (λ q. q.id == task_id)
      (λ q. record q { status = closed_task target; updated_at = now }) st.tasks t (λ q. refl) h
    ∙ rw (task_by_id-id st task_id t h) refl

-- What a call that returns has done.
pub record Finished (target : Closing) (task_id owner now : ℕ) (st : Store) (row : TaskRecord)
    (after : Store) : Type 0 where
  pub task : TaskRecord
  pub found : task_by_id st task_id ≡ some task
  pub owned : (task.owner_user_id == owner) ≡ true
  pub current : ensure_current_epoch st task ≡ ok tt
  pub how :
      ((is_closed_as target task.status ≡ true) × (row ≡ task) × (after ≡ st))
      ⊎ ((is_closed_task task.status ≡ false)
          × (row ≡ closed_row target now task)
          × (after ≡ close_task target task_id now st))

pub finish_body-Finished :
    (target : Closing) (task_id owner now : ℕ) (st : Store) (row : TaskRecord) (after : Store)
    → finish_body target task_id owner now st ≡ ok (row, after)
    → Finished target task_id owner now st row after
unfolding finish_body
finish_body-Finished target task_id owner now st row after h =
    let (task, owned, h1) = >>=-eq-ok (owned_task st task_id owner) _ h in
    let (_, current, h2) = >>=-eq-ok (ensure_current_epoch st task) _ h1 in
    let (found, mine) = owned_task-eq-ok st task_id owner task owned in
    record {
      task = task;
      found = found;
      owned = mine;
      current = current;
      how = elim (Bool-cases (is_closed_as target task.status)) [
        | inl e ↦
            let same = kept (task, st) (row, after) (rw e at h2) in
            inl (
              e,
              ap (λ (p : TaskRecord × Store). p.0) same,
              ap (λ (p : TaskRecord × Store). p.1) same,
            )
        | inr e ↦
            let (open_, h3) =
              raise_if-passed (is_closed_task task.status) runtime_error _ (rw e at h2) in
            let (r, f, made) =
              >>=-eq-ok
                (or_raise (task_by_id (close_task target task_id now st) task_id) runtime_error) _
                h3 in
            let read = rw (task_after target task_id now st task found) at f in
            let same = kept (r, close_task target task_id now st) (row, after) made in
            inr (open_, cc, ap (λ (p : TaskRecord × Store). p.1) same)
      ];
    }
  where
    kept : (p q : TaskRecord × Store) → ◌≡◌ {A = Outcome (TaskRecord × Store)} (ok p) (ok q) → q ≡ p
    kept p q h = cc

pub finish_task-Finished :
    (target : Closing) (task_id owner now : ℕ) (st : Store) (row : TaskRecord) (after : Store)
    → finish_task target task_id owner now st ≡ (ok row, after)
    → Finished target task_id owner now st row after
unfolding finish_task
finish_task-Finished target task_id owner now st row after h =
    finish_body-Finished target task_id owner now st row after
      (transaction-eq-ok (finish_body target task_id owner now) st row after h)

-- Every job of the task is closed.
abbrev pub JobsClosed : ℕ → List ReminderJob → Type 0
JobsClosed task_id = All (λ j. (j.task_id == task_id && not (is_closed_job j.status)) ≡ false)

jobs_after :
    (target : Closing) (task_id now : ℕ) (js : List ReminderJob)
    → JobsClosed task_id (
        update
          (λ j. j.task_id == task_id && not (is_closed_job j.status))
          (close_job target now)
          js)
unfolding update
jobs_after target task_id now [] = tt
jobs_after target task_id now (j ∷ js) =
    elim (Bool-cases (j.task_id == task_id && not (is_closed_job j.status))) [
      | inl e ↦ rw e (closed_now target, jobs_after target task_id now js)
      | inr e ↦ rw e (e, jobs_after target task_id now js)
    ]
  where
    closed_now :
        (target : Closing)
        → (j.task_id == task_id && not (is_closed_job (closed_job target))) ≡ false
    closed_now complete = ground arith
    closed_now cancel = ground arith

runs_after :
    (p : ReminderRun → Bool) (now : ℕ) (rs : List ReminderRun)
    → ((r : ReminderRun) → p (cancel_run now r) ≡ p r)
    → All
        (λ r. (p r && is_open_run r.status) ≡ false)
        (update (λ r. p r && is_open_run r.status) (cancel_run now) rs)
unfolding update
runs_after p now [] keep = tt
runs_after p now (r ∷ rs) keep = elim (Bool-cases (p r && is_open_run r.status)) [
  | inl e ↦ rw e (ground arith, runs_after p now rs keep)
  | inr e ↦ rw e (e, runs_after p now rs keep)
]

entries_after :
    (p : OutboxEntry → Bool) (now : ℕ) (os : List OutboxEntry)
    → All
        (λ o. (p o && is_open_entry o.status) ≡ false)
        (update (λ o. p o && is_open_entry o.status) (withdraw now) os)
unfolding update
entries_after p now [] = tt
entries_after p now (o ∷ os) = elim (Bool-cases (p o && is_open_entry o.status)) [
  | inl e ↦ rw e (ground arith, entries_after p now os)
  | inr e ↦ rw e (e, entries_after p now os)
]

-- Nothing of the task can still be delivered: its jobs are closed, and none of the runs of those jobs
-- and of the entries of those runs is open.
pub record IsSilent (task_id : ℕ) (before after : Store) : Type 0 where
  pub jobs : JobsClosed task_id after.jobs
  pub runs :
      All (λ r. (is_job_of before task_id r.job_id && is_open_run r.status) ≡ false) after.runs
  pub entries :
      All (λ o. (is_run_of before task_id o.run_id && is_open_entry o.status) ≡ false) after.outbox

pub close_task-IsSilent :
    (target : Closing) (task_id now : ℕ) (st : Store)
    → IsSilent task_id st (close_task target task_id now st)
unfolding close_task
close_task-IsSilent target task_id now st = record {
  jobs = jobs_after target task_id now st.jobs;
  runs = runs_after (λ r. is_job_of st task_id r.job_id) now st.runs (λ r. refl);
  entries = entries_after (λ o. is_run_of st task_id o.run_id) now st.outbox;
}

status_after :
    (target : Closing) (s : TaskStatus) → is_closed_as target s ≡ true → s ≡ closed_task target
status_after complete TaskStatus.completed h = refl
status_after complete TaskStatus.cancelled h = cc
status_after complete TaskStatus.active h = cc
status_after complete TaskStatus.needs_review h = cc
status_after complete TaskStatus.awaiting_confirmation h = cc
status_after cancel TaskStatus.cancelled h = refl
status_after cancel TaskStatus.completed h = cc
status_after cancel TaskStatus.active h = cc
status_after cancel TaskStatus.needs_review h = cc
status_after cancel TaskStatus.awaiting_confirmation h = cc

open_not_closed :
    (s : TaskStatus)
    → is_closed_task s ≡ false
    → (s ≢ TaskStatus.completed) × (s ≢ TaskStatus.cancelled)
open_not_closed s h = (λ e. cc (rw e at h), λ e. cc (rw e at h))

-- A call that completes or cancels a task returns a row with that status that belongs to the caller.
-- Either this very row stood in the store before, and the store is as it was; or the task stood there
-- neither completed nor cancelled, and afterwards the returned row stands in its place and nothing of
-- the task can still be delivered.
pub finish_task-IsSilent :
    (target : Closing) (task_id owner now : ℕ) (st after : Store) (row : TaskRecord)
    → finish_task target task_id owner now st ≡ (ok row, after)
    → (row.status ≡ closed_task target)
      × ((row.owner_user_id == owner) ≡ true)
      × (((task_by_id st task_id ≡ some row) × (after ≡ st))
          ⊎ ((task : TaskRecord) × (task_by_id st task_id ≡ some task)
              × (task.status ≢ TaskStatus.completed)
              × (task.status ≢ TaskStatus.cancelled)
              × (task_by_id after task_id ≡ some row)
              × IsSilent task_id st after))
finish_task-IsSilent target task_id owner now st after row h =
    let w = finish_task-Finished target task_id owner now st row after h in
    elim w.how [
      | inl (e, same, kept) ↦ (
        rw same (status_after target (w.task).status e),
        rw same w.owned,
        inl (rw same w.found, kept),
      )
      | inr (e, same, made) ↦ (
        rw same refl,
        rw same w.owned,
        inr (
          w.task,
          w.found,
          (open_not_closed (w.task).status e).0,
          (open_not_closed (w.task).status e).1,
          rw (same, made) (task_after target task_id now st w.task w.found),
          rw made (close_task-IsSilent target task_id now st),
        ),
      )
    ]

-- The row stands in the store afterwards, for a profile that is as current as before.
record Stands (task_id owner : ℕ) (row : TaskRecord) (st : Store) : Type 0 where
  found : task_by_id st task_id ≡ some row
  mine : (row.owner_user_id == owner) ≡ true
  current : ensure_current_epoch st row ≡ ok tt

epoch_after :
    (target : Closing) (task_id now : ℕ) (st : Store) (t : TaskRecord)
    → ensure_current_epoch st t ≡ ok tt
    → ensure_current_epoch (close_task target task_id now st) (closed_row target now t) ≡ ok tt
unfolding ensure_current_epoch active_profile profile_by_id close_task
epoch_after target task_id now st t h = h

Finished-Stands :
    (target : Closing) (task_id owner now : ℕ) (st : Store) (row : TaskRecord) (after : Store)
    → Finished target task_id owner now st row after
    → Stands task_id owner row after
Finished-Stands target task_id owner now st row after w = elim w.how [
  | inl (e, same, kept) ↦
      rw (same, kept) (record { found = w.found; mine = w.owned; current = w.current })
  | inr (e, same, made) ↦
      rw (same, made)
        (record {
          found = task_after target task_id now st w.task w.found;
          mine = w.owned;
          current = epoch_after target task_id now st w.task w.current;
        })
]

finish_body-Stands :
    (target : Closing) (task_id owner now : ℕ) (st : Store) (row : TaskRecord)
    → Stands task_id owner row st
    → is_closed_task row.status ≡ true
    → finish_body target task_id owner now st
      ≡ (if is_closed_as target row.status then ok (row, st) else err runtime_error)
unfolding finish_body owned_task
finish_body-Stands target task_id owner now st row w closed =
    rw (w.found, finish_body, owned_task, w.mine, w.current, closed) refl

abbrev pub same_closing : Closing → Closing → Bool
same_closing complete complete = true
same_closing cancel cancel = true
same_closing _ _ = false

closed_statuses :
    (target again : Closing)
    → (is_closed_task (closed_task target) ≡ true)
      × (is_closed_as again (closed_task target) ≡ same_closing again target)
closed_statuses complete complete = (refl, refl)
closed_statuses complete cancel = (refl, refl)
closed_statuses cancel complete = (refl, refl)
closed_statuses cancel cancel = (refl, refl)

-- A task that has been completed or cancelled stays so: the same request again, at any later time,
-- returns the same row, the other one raises RuntimeError, and neither changes anything.
pub finish_task-again :
    (target again : Closing) (task_id owner now later : ℕ) (st after : Store) (row : TaskRecord)
    → finish_task target task_id owner now st ≡ (ok row, after)
    → finish_task again task_id owner later after
      ≡ (if same_closing again target then (ok row, after) else (err runtime_error, after))
unfolding finish_task
finish_task-again target again task_id owner now later st after row h =
    let w =
      Finished-Stands target task_id owner now st row after
        (finish_task-Finished target task_id owner now st row after h) in
    let (status, _, _) = finish_task-IsSilent target task_id owner now st after row h in
    let (closed, same) = closed_statuses target again in
    let body = finish_body-Stands again task_id owner later after row w (rw status closed) in
    elim (Bool-cases (same_closing again target)) [
      | inl e ↦ rw e (
          transaction-ok (finish_body again task_id owner later) after row after
            (body ∙ rw (status, same, e) refl))
      | inr e ↦ rw e (
          transaction-err (finish_body again task_id owner later) after runtime_error
            (body ∙ rw (status, same, e) refl))
    ]

pub is_closed_as-is_closed_task :
    (target : Closing) (s : TaskStatus) → is_closed_as target s ≡ true → is_closed_task s ≡ true
is_closed_as-is_closed_task target s h =
    rw (status_after target s h) (closed_statuses target target).0
