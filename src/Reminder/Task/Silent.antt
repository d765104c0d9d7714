-- ===== src/Reminder/Task/Silent.antt =====
-- After a task is completed or cancelled, the outbox hands out none of its reminders.
use lenko_bot.Prelude.{
  ℕ, ◌≡◌, ◌≢◌, ◌∙◌, refl, sym, ap, true, false, ◌&&◌, not, inl, inr, arith, some, ok, Option-cases,
  ◌==◌,
}
use lenko_bot.Prelude.Table.{any-find-update}
use lenko_bot.Reminder.Types.{TaskRecord, ReminderJob, ReminderRun, OutboxEntry, DeliveryLease}
use lenko_bot.Reminder.Store.{
  Store, task_by_id, job_by_id, run_by_id, job_of_run, is_open_entry, is_open_run, is_closed_job,
}
use lenko_bot.Reminder.Delivery.{is_deliverable, cancel_entry, lease_delivery, lease_from_row}
use lenko_bot.Reminder.Delivery.Lease.{
  lease_delivery-Handed, is_deliverable-open, earliest_sound, earliest-In,
}
use lenko_bot.Reminder.Task.{
  Closing, is_closed_task, is_job_of, is_run_of, close_task, close_job, cancel_run, finish_task,
}
use lenko_bot.Reminder.Task.Close.{
  finish_task-Finished, IsSilent, close_task-IsSilent, is_closed_as-is_closed_task,
}

-- A job that is found after the task was closed was the job of its task before.
job_before :
    (target : Closing) (task_id now id : ℕ) (st : Store) (j : ReminderJob)
    → job_by_id (close_task target task_id now st) id ≡ some j
    → j.task_id ≡ task_id
    → is_job_of st task_id id ≡ true
unfolding job_by_id close_task is_job_of
job_before target task_id now id st j h e =
    any-find-update (λ q. q.id == id) (λ q. q.task_id == task_id && not (is_closed_job q.status))
      (λ q. q.task_id == task_id) (close_job target now) st.jobs j (λ q. (refl, refl)) h
      (ground arith)

run_before :
    (target : Closing) (task_id now id : ℕ) (st : Store) (r : ReminderRun)
    → run_by_id (close_task target task_id now st) id ≡ some r
    → is_job_of st task_id r.job_id ≡ true
    → is_run_of st task_id id ≡ true
unfolding run_by_id close_task is_run_of
run_before target task_id now id st r h t =
    any-find-update (λ q. q.id == id) (λ q. is_job_of st task_id q.job_id && is_open_run q.status)
      (λ q. is_job_of st task_id q.job_id) (cancel_run now) st.runs r (λ q. (refl, refl)) h t

joined_before :
    (target : Closing) (task_id now id : ℕ) (st : Store) (j : ReminderJob)
    → job_of_run (close_task target task_id now st) id ≡ some j
    → j.task_id ≡ task_id
    → is_run_of st task_id id ≡ true
unfolding job_of_run
joined_before target task_id now id st j h e =
    elim (Option-cases (run_by_id (close_task target task_id now st) id)) [
      | inl f ↦ cc (rw (f, job_of_run) at h)
      | inr (r, f) ↦
          run_before target task_id now id st r f
            (job_before target task_id now r.job_id st j (rw (f, job_of_run) at h) e)
    ]

-- The entries of the task are not open.
abbrev Withdrawn : Store → ℕ → OutboxEntry → Type 0
Withdrawn st task_id o = (is_run_of st task_id o.run_id && is_open_entry o.status) ≡ false

Withdrawn-cancel :
    (st : Store) (task_id now : ℕ) (o : OutboxEntry)
    → Withdrawn st task_id o
    → Withdrawn st task_id (cancel_entry now o)
Withdrawn-cancel st task_id now o w = ground arith

closed_now :
    (target : Closing) (task_id owner now : ℕ) (st mid : Store) (task row : TaskRecord)
    → task_by_id st task_id ≡ some task
    → is_closed_task task.status ≡ false
    → finish_task target task_id owner now st ≡ (ok row, mid)
    → mid ≡ close_task target task_id now st
closed_now target task_id owner now st mid task row found open_ h =
    let w = finish_task-Finished target task_id owner now st row mid h in
    let same : task ≡ w.task = cc (w.found) in
    elim w.how [
      | inl (e, _, _) ↦ cc (is_closed_as-is_closed_task target (w.task).status e, same, open_)
      | inr (_, _, made) ↦ made
    ]

-- A task that was open is completed or cancelled. A reminder that `lease_delivery` hands out after
-- that, at whatever time, is not one of this task.
pub lease_delivery_after_finish :
    (target : Closing) (task_id owner now seconds later token : ℕ) (st mid after : Store)
    (task row : TaskRecord) (lease : DeliveryLease)
    → task_by_id st task_id ≡ some task
    → is_closed_task task.status ≡ false
    → finish_task target task_id owner now st ≡ (ok row, mid)
    → lease_delivery seconds later token mid ≡ (ok (some lease), after)
    → lease.task_id ≢ task_id
unfolding lease_from_row
lease_delivery_after_finish target task_id owner now seconds later token st mid after task row lease
      found open_ h k e =
    let made = closed_now target task_id owner now st mid task row found open_ h in
    let silent : IsSilent task_id st mid = rw made (close_task-IsSilent target task_id now st) in
    let given =
      lease_delivery-Handed (Withdrawn st task_id) seconds later token
        (Withdrawn-cancel st task_id later) mid lease after silent.entries k in
    let picked =
      earliest_sound (is_deliverable given.mid later) (given.mid).outbox given.row given.picked in
    let shut =
      earliest-In (Withdrawn st task_id) (is_deliverable given.mid later) (given.mid).outbox
        given.row given.all given.picked in
    let opened = (is_deliverable-open given.mid later given.row picked).0 in
    let same : (given.job).task_id ≡ task_id =
      sym (ap (λ (l : DeliveryLease). l.task_id) given.lease_is) ∙ e in
    let joined : job_of_run mid (given.row).run_id ≡ some given.job =
      sym (given.joins (given.row).run_id) ∙ given.joined in
    let of_task =
      joined_before target task_id now (given.row).run_id st given.job (rw (← made) joined) same in
    cc (rw (of_task, opened) at shut)
