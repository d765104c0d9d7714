-- ===== src/Reminder/Tests.antt =====
-- The delivery theorems at a store with one reminder.
use lenko_bot.Prelude.{
  ◌≡◌, ◌≢◌, refl, inr, [], ◌∷◌, true, false, ◌==◌, if◌then◌else◌, Option, none, some, ok, err,
  arith, runtime_error,
}
use lenko_bot.Prelude.Table.{find, update}
use lenko_bot.Text.{Text}
use lenko_bot.Schedule.Rule.{RecurrenceRule, ScheduleKind}
use lenko_bot.Reminder.Types.{
  Profile, TaskRecord, TaskStatus, ReminderJob, ReminderJobStatus, ReminderRun, ReminderRunStatus,
  OutboxEntry, OutboxStatus, DeliveryLease, LifecycleState,
}
use lenko_bot.Reminder.Store.{
  Store, profile_by_id, job_by_id, run_by_id, entry_by_id, job_of_run, is_current,
}
use lenko_bot.Reminder.Delivery.{
  is_deliverable, earliest, earlier_of, claim, lease_from_row, lease_loop, lease_delivery,
  holds_lease, commit_sent, mark_held, mark_body, mark_delivery_sent, give_back, leased_row,
  release_body, release_delivery, is_error_kind, all_kind_chars, is_kind_char,
}
use lenko_bot.Reminder.Delivery.Lease.{lease_delivery-total}
use lenko_bot.Reminder.Delivery.Exclusive.{lease_delivery-exclusive}
use lenko_bot.Reminder.Delivery.Sent.{mark_delivery_sent-once}
use lenko_bot.Reminder.Delivery.Retry.{release_delivery-waits}

abbrev pub owner_profile : Profile
owner_profile = record {
  user_id = 1;
  timezone = 85 ∷ 84 ∷ 67 ∷ [];
  quiet_start_minute = none;
  quiet_end_minute = none;
  lifecycle_epoch = 1;
  lifecycle_state = LifecycleState.active;
}

abbrev pub walk_task : TaskRecord
walk_task = record {
  id = 1;
  owner_user_id = 1;
  persona_id = 1;
  chat_id = 5;
  lifecycle_epoch = 1;
  text = 97 ∷ [];
  status = TaskStatus.active;
  created_at = 0;
  updated_at = 0;
}

abbrev pub once_rule : RecurrenceRule
once_rule = record {
  kind = ScheduleKind.once;
  interval = 1;
  weekdays = [];
  monthday = none;
  count = none;
  until_local = none;
}

abbrev pub walk_job : ReminderJob
walk_job = record {
  id = 1;
  task_id = 1;
  owner_user_id = 1;
  lifecycle_epoch = 1;
  status = ReminderJobStatus.active;
  timezone_name = 85 ∷ 84 ∷ 67 ∷ [];
  local_start = record { date = record { year = 2024; month = 1; day = 1 }; micros = 5 };
  recurrence = once_rule;
  next_scheduled_for = some 5;
  emitted_count = 0;
  grace_seconds = 100;
  quiet_start_minute = none;
  quiet_end_minute = none;
  urgent = false;
  created_at = 0;
  updated_at = 0;
}

abbrev pub walk_run : ReminderRun
walk_run = record {
  id = 1;
  job_id = 1;
  owner_user_id = 1;
  lifecycle_epoch = 1;
  scheduled_for = 5;
  status = ReminderRunStatus.due;
  claimed_at = none;
  delivered_at = none;
  error_kind = none;
  action_token = none;
  created_at = 5;
  updated_at = 5;
}

abbrev pub walk_entry : OutboxEntry
walk_entry = record {
  id = 1;
  run_id = 1;
  owner_user_id = 1;
  lifecycle_epoch = 1;
  chat_id = 5;
  text = 97 ∷ [];
  scheduled_for = 5;
  available_at = 5;
  status = OutboxStatus.pending;
  attempt = 0;
  lease_token = none;
  lease_until = none;
  telegram_message_id = none;
  error_kind = none;
  created_at = 5;
  updated_at = 5;
}

abbrev pub one_due : Store
one_due = record {
  profiles = owner_profile ∷ [];
  personas = [];
  tasks = walk_task ∷ [];
  jobs = walk_job ∷ [];
  runs = walk_run ∷ [];
  outbox = walk_entry ∷ [];
  audits = [];
}

abbrev pub walk_lease : DeliveryLease
walk_lease = lease_from_row walk_entry walk_job 7 60_000_010

abbrev pub leased_store : Store
leased_store = claim walk_entry 10 7 60_000_010 one_due

pub one_due-leased : lease_delivery 60 10 7 one_due ≡ (ok (some walk_lease), leased_store)
unfolding lease_delivery lease_loop earliest earlier_of is_deliverable job_of_run run_by_id
    job_by_id find is_current profile_by_id
one_due-leased = refl

lease_delivery-total_example :
    (r : Option DeliveryLease) × (after : Store) × (lease_delivery 60 10 7 one_due ≡ (ok r, after))
lease_delivery-total_example = lease_delivery-total 60 10 7 one_due (omega arith) (omega arith)

-- A second reminder beside the first one.
abbrev late_entry : OutboxEntry
late_entry = record walk_entry { id = 2; available_at = 6 }

abbrev two_due : Store
two_due = record one_due { outbox = walk_entry ∷ late_entry ∷ [] }

lease_delivery-exclusive_example :
    (lease_from_row late_entry walk_job 8 60_000_020).outbox_id ≢ walk_lease.outbox_id
unfolding lease_delivery lease_loop earliest earlier_of is_deliverable job_of_run run_by_id
    job_by_id find is_current profile_by_id claim update lease_from_row
lease_delivery-exclusive_example =
    lease_delivery-exclusive 60 10 7 60 20 8 two_due (claim walk_entry 10 7 60_000_010 two_due)
      (claim late_entry 20 8 60_000_020 (claim walk_entry 10 7 60_000_010 two_due)) walk_lease
      (lease_from_row late_entry walk_job 8 60_000_020) refl (omega arith) refl

abbrev pub sent_store : Store
sent_store = commit_sent walk_lease 77 20 leased_store

walk_sent : mark_delivery_sent walk_lease 77 20 leased_store ≡ (ok true, sent_store)
unfolding mark_delivery_sent mark_body mark_held entry_by_id find holds_lease is_current
    profile_by_id claim update lease_from_row
walk_sent = refl

mark_delivery_sent-once_example :
    mark_delivery_sent walk_lease 78 30 sent_store
    ≡ (if 77 == 78 then (ok true, sent_store) else (err runtime_error, sent_store))
mark_delivery_sent-once_example =
    mark_delivery_sent-once walk_lease 77 20 30 78 leased_store sent_store walk_sent
      (λ e. absurd (omega (arith, e)))

-- The owner's profile after a reset.
abbrev pub next_epoch : Store
next_epoch = record leased_store { profiles = record owner_profile { lifecycle_epoch = 2 } ∷ [] }

-- "lost"
abbrev lost : Text
lost = 108 ∷ 111 ∷ 115 ∷ 116 ∷ []

abbrev both_leased : Store
both_leased = claim walk_entry 10 7 60_000_010 two_due

release_delivery-waits_example :
    (lease_from_row late_entry walk_job 8 60_000_030).outbox_id ≢ walk_lease.outbox_id
unfolding lease_delivery lease_loop earliest earlier_of is_deliverable job_of_run run_by_id
    job_by_id find is_current profile_by_id claim update lease_from_row release_delivery
    release_body leased_row is_error_kind all_kind_chars is_kind_char give_back
release_delivery-waits_example =
    release_delivery-waits walk_lease (lease_from_row late_entry walk_job 8 60_000_030) lost
      (record walk_entry {
        status = OutboxStatus.leased;
        attempt = 1;
        lease_token = some 7;
        lease_until = some 60_000_010;
        error_kind = none;
        updated_at = 10;
      })
      30 20 60 30 8 both_leased
      (give_back walk_lease lost 30_000_020 20
        (record walk_entry {
          status = OutboxStatus.leased;
          attempt = 1;
          lease_token = some 7;
          lease_until = some 60_000_010;
          error_kind = none;
          updated_at = 10;
        })
        both_leased)
      (claim late_entry 30 8 60_000_030 (
        give_back walk_lease lost 30_000_020 20
          (record walk_entry {
            status = OutboxStatus.leased;
            attempt = 1;
            lease_token = some 7;
            lease_until = some 60_000_010;
            error_kind = none;
            updated_at = 10;
          })
          both_leased))
      refl refl (inr (omega arith)) refl
