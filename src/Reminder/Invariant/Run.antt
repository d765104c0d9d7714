-- ===== src/Reminder/Invariant/Run.antt =====
-- Runs of the reminder store: the steps are its operations, with whatever arguments.
use lenko_bot.Prelude.{
  ℕ, ◌≡◌, [], inl, inr, arith, Option, none, Outcome, ok, >>=-elim, or_raise, runtime_error,
  Outcome-cases,
}
use lenko_bot.Text.{Text}
use lenko_bot.Schedule.Zone.{ZoneDatabase, resolve_local_time}
use lenko_bot.Schedule.Occurrence.{next_occurrence}
use lenko_bot.Reminder.Types.{
  ReminderDraft, DeliveryLease, ReminderJob, ReminderJobStatus, TaskRecord,
}
use lenko_bot.Reminder.Store.{Store, owned_task_and_job, ensure_current_epoch, job_by_id}
use lenko_bot.Reminder.Store.Laws.{transaction-keeps}
use lenko_bot.Reminder.Draft.{
  insert_draft, create_draft, validate_draft, mark_awaiting_body, mark_awaiting_confirmation,
  await_job, activate_body, activate, activate_job, activate_awaiting, activate_at, needs_review,
  schedule_first,
}
use lenko_bot.Reminder.Due.{materialize_due}
use lenko_bot.Reminder.Delivery.{lease_delivery, mark_delivery_sent, release_delivery}
use lenko_bot.Reminder.Task.{Closing, finish_task, snooze_task, purge_owner}
use lenko_bot.Reminder.Profile.{ensure_profile, insert_profile, set_profile_policy, update_policy}
use lenko_bot.Reminder.Invariant.Outbox.{
  OutboxOk, lease_delivery-OutboxOk, mark_delivery_sent-OutboxOk, release_delivery-OutboxOk,
}
use lenko_bot.Reminder.Invariant.Tasks.{
  finish_task-OutboxOk, snooze_task-OutboxOk, purge_owner-OutboxOk,
}
use lenko_bot.Reminder.Invariant.Materialize.{materialize_due-OutboxOk}

pub data Step : Store → Store → Type 0 where
  ensures : (owner : ℕ) {st : Store} → Step st (ensure_profile owner st).1
  sets :
      (tz : ZoneDatabase) (owner : ℕ) (name : Text) (start end : Option ℕ) {st : Store}
      → Step st (set_profile_policy tz owner name start end st).1
  drafts :
      (tz : ZoneDatabase) (d : ReminderDraft) (now : ℕ) {st : Store}
      → Step st (create_draft tz d now st).1
  awaits :
      (task_id owner now : ℕ) {st : Store}
      → Step st (mark_awaiting_confirmation task_id owner now st).1
  activates :
      (tz : ZoneDatabase) (task_id owner now : ℕ) {st : Store}
      → Step st (activate tz task_id owner now st).1
  materializes :
      (tz : ZoneDatabase) (limit now : ℕ) {st : Store} → Step st (materialize_due tz limit now st).1
  leases : (seconds now token : ℕ) {st : Store} → Step st (lease_delivery seconds now token st).1
  marks :
      (lease : DeliveryLease) (message_id now : ℕ) {st : Store}
      → Step st (mark_delivery_sent lease message_id now st).1
  releases :
      (lease : DeliveryLease) (kind : Text) (delay now : ℕ) {st : Store}
      → Step st (release_delivery lease kind delay now st).1
  finishes :
      (target : Closing) (task_id owner now : ℕ) {st : Store}
      → Step st (finish_task target task_id owner now st).1
  snoozes :
      (tz : ZoneDatabase) (task_id owner : ℕ) (token : Text) (delay now : ℕ) {st : Store}
      → Step st (snooze_task tz task_id owner token delay now st).1
  purges : (owner epoch : ℕ) {st : Store} → Step st (purge_owner owner epoch st).1

-- The stores that a run from the first one reaches.
pub data Reach (first : Store) : Store → Type 0 where
  here : Reach first first
  further : {st after : Store} → Reach first st → Step st after → Reach first after

draft-outbox :
    (d : ReminderDraft) (now : ℕ) (st after : Store) (r : TaskRecord × ReminderJob)
    → insert_draft d now st ≡ ok (r, after)
    → after.outbox ≡ st.outbox
unfolding insert_draft
draft-outbox d now st after r h = ground arith

await-outbox :
    (task_id owner now : ℕ) (st after : Store) (r : ReminderJob)
    → mark_awaiting_body task_id owner now st ≡ ok (r, after)
    → after.outbox ≡ st.outbox
unfolding mark_awaiting_body
await-outbox task_id owner now st after r h =
    >>=-elim (owned_task_and_job st task_id owner) _ (r, after) h
      λ owned e h1.
        >>=-elim (await_job owned.1 now (owned.1).status st) _ (r, after) h1
          λ done f h2.
            >>=-elim (ensure_current_epoch done.1 owned.0) _ (r, after) h2
              λ _ g h3.
                let same : done ≡ (r, after) = cc in
                job-outbox owned.1 now (owned.1).status st after r (rw same at f)
  where
    job-outbox :
        (job : ReminderJob) (now : ℕ) (s : ReminderJobStatus) (st after : Store) (r : ReminderJob)
        → await_job job now s st ≡ ok (r, after)
        → after.outbox ≡ st.outbox
    job-outbox job now ReminderJobStatus.draft st after r h = unfold await_job in ground arith
    job-outbox job now _ st after r h = unfold await_job in ground arith

activate_at-outbox :
    (job : ReminderJob) (task_id now : ℕ) (r : Outcome ℕ) (st after : Store)
    → activate_at job task_id now r st ≡ ok after
    → after.outbox ≡ st.outbox
unfolding activate_at needs_review schedule_first
activate_at-outbox job task_id now r st after h = ground arith

activate_awaiting-outbox :
    (tz : ZoneDatabase) (job : ReminderJob) (task_id now : ℕ) (st after : Store) (r : ReminderJob)
    → activate_awaiting tz job task_id now st ≡ ok (r, after)
    → after.outbox ≡ st.outbox
unfolding activate_awaiting
activate_awaiting-outbox tz job task_id now st after r h =
    >>=-elim (next_occurrence job.recurrence job.local_start none 0) _ (r, after) h
      λ first e h1.
        >>=-elim (or_raise first runtime_error) _ (r, after) h1
          λ t f h2.
            >>=-elim (activate_at job task_id now (resolve_local_time tz t job.timezone_name) st) _
              (r, after) h2
              λ mid g h3.
                >>=-elim (or_raise (job_by_id mid job.id) runtime_error) _ (r, after) h3
                  λ j k h4.
                    let same : mid ≡ after = cc in
                    activate_at-outbox job task_id now (resolve_local_time tz t job.timezone_name)
                      st after (rw same at g)

activate_job-outbox :
    (tz : ZoneDatabase) (job : ReminderJob) (task_id now : ℕ) (s : ReminderJobStatus)
    (st after : Store) (r : ReminderJob)
    → activate_job tz job task_id now s st ≡ ok (r, after)
    → after.outbox ≡ st.outbox
unfolding activate_job
activate_job-outbox tz job task_id now ReminderJobStatus.awaiting_confirmation st after r h =
    activate_awaiting-outbox tz job task_id now st after r h
activate_job-outbox tz job task_id now _ st after r h = ground arith

activate-outbox :
    (tz : ZoneDatabase) (task_id owner now : ℕ) (st after : Store) (r : ReminderJob)
    → activate_body tz task_id owner now st ≡ ok (r, after)
    → after.outbox ≡ st.outbox
unfolding activate_body
activate-outbox tz task_id owner now st after r h =
    >>=-elim (owned_task_and_job st task_id owner) _ (r, after) h
      λ owned e h1.
        >>=-elim (ensure_current_epoch st owned.0) _ (r, after) h1
          λ _ f h2. activate_job-outbox tz owned.1 task_id now (owned.1).status st after r h2

set-outbox :
    (tz : ZoneDatabase) (owner : ℕ) (name : Text) (start end : Option ℕ) (st : Store)
    → (set_profile_policy tz owner name start end st).1.outbox ≡ st.outbox
unfolding set_profile_policy update_policy
set-outbox tz owner name start end st = ground arith

ensure-outbox : (owner : ℕ) (st : Store) → (ensure_profile owner st).1.outbox ≡ st.outbox
unfolding ensure_profile insert_profile
ensure-outbox owner st = ground arith

Step-OutboxOk : {st after : Store} → Step st after → OutboxOk st.outbox → OutboxOk after.outbox
unfolding create_draft mark_awaiting_confirmation activate
Step-OutboxOk {st} (Step.ensures owner) v = rw (ensure-outbox owner st) v
Step-OutboxOk {st} (Step.sets tz owner name start end) v =
    rw (set-outbox tz owner name start end st) v
Step-OutboxOk {st} (Step.drafts tz d now) v = drafted tz d now st v
  where
    drafted :
        (tz : ZoneDatabase) (d : ReminderDraft) (now : ℕ) (st : Store)
        → OutboxOk st.outbox
        → OutboxOk (create_draft tz d now st).1.outbox
    drafted tz d now st v = elim (Outcome-cases (validate_draft tz d)) [
      | inr (e, f) ↦ unfold create_draft in rw (f, create_draft) v
      | inl (u, f) ↦
          unfold create_draft in
          rw (f, create_draft)
            (transaction-keeps (λ s. OutboxOk s.outbox) (insert_draft d now) st v
              (λ r after h. rw (draft-outbox d now st after r h) v))
    ]
Step-OutboxOk {st} (Step.awaits task_id owner now) v =
    transaction-keeps (λ s. OutboxOk s.outbox) (mark_awaiting_body task_id owner now) st v
      (λ r after h. rw (await-outbox task_id owner now st after r h) v)
Step-OutboxOk {st} (Step.activates tz task_id owner now) v =
    transaction-keeps (λ s. OutboxOk s.outbox) (activate_body tz task_id owner now) st v
      (λ r after h. rw (activate-outbox tz task_id owner now st after r h) v)
Step-OutboxOk {st} (Step.materializes tz limit now) v = materialize_due-OutboxOk tz limit now st v
Step-OutboxOk {st} (Step.leases seconds now token) v =
    lease_delivery-OutboxOk seconds now token st v
Step-OutboxOk {st} (Step.marks lease message_id now) v =
    mark_delivery_sent-OutboxOk lease message_id now st v
Step-OutboxOk {st} (Step.releases lease kind delay now) v =
    release_delivery-OutboxOk lease kind delay now st v
Step-OutboxOk {st} (Step.finishes target task_id owner now) v =
    finish_task-OutboxOk target task_id owner now st v
Step-OutboxOk {st} (Step.snoozes tz task_id owner token delay now) v =
    snooze_task-OutboxOk tz task_id owner token delay now st v
Step-OutboxOk {st} (Step.purges owner epoch) v = purge_owner-OutboxOk owner epoch st v

-- In every store that a run of operations reaches from one with an empty outbox, each outbox entry is
-- well formed: at most three attempts, with one left while it is pending; an end of the lease exactly
-- while it is leased, and a lease token then; a message id exactly once it is sent. No id of an entry
-- occurs twice.
pub Reach-OutboxOk : (first st : Store) → first.outbox ≡ [] → Reach first st → OutboxOk st.outbox
Reach-OutboxOk first _ empty Reach.here = rw empty (tt, tt)
Reach-OutboxOk first st empty (Reach.further before s) =
    Step-OutboxOk s (Reach-OutboxOk first _ empty before)
