-- ===== src/Reminder/Types.antt =====
-- The rows of the reminder tables and the states that they go through. Instants are microseconds of
-- UTC; the fixed-width texts in which SQLite keeps them have the same order.
use lenko_bot.Prelude.{ℕ, Bool, Option}
use lenko_bot.Calendar.{LocalTime}
use lenko_bot.Text.{Text}
use lenko_bot.Schedule.Rule.{RecurrenceRule}

pub data TaskStatus : Type 0 where
  awaiting_confirmation active needs_review completed cancelled : TaskStatus

pub data ReminderJobStatus : Type 0 where
  draft awaiting_confirmation active needs_review completed cancelled : ReminderJobStatus

pub data ReminderRunStatus : Type 0 where
  due missed claimed delivered failed cancelled : ReminderRunStatus

pub data OutboxStatus : Type 0 where
  pending leased sent failed cancelled : OutboxStatus

pub data LifecycleState : Type 0 where
  active reset_in_progress : LifecycleState

-- A row of `user_profile`.
pub record Profile : Type 0 where
  pub user_id : ℕ
  pub timezone : Text
  pub quiet_start_minute : Option ℕ
  pub quiet_end_minute : Option ℕ
  pub lifecycle_epoch : ℕ
  pub lifecycle_state : LifecycleState

-- A row of `persona`, as far as reminders read it.
pub record PersonaRow : Type 0 where
  pub id : ℕ
  pub profile_id : Text
  pub key : Text
  pub is_active : Bool

pub record ReminderDraft : Type 0 where
  pub owner_user_id : ℕ
  pub persona_id : ℕ
  pub chat_id : ℕ
  pub text : Text
  pub local_start : LocalTime
  pub timezone_name : Text
  pub recurrence : RecurrenceRule
  pub grace_seconds : ℕ
  pub quiet_start_minute : Option ℕ
  pub quiet_end_minute : Option ℕ
  pub urgent : Bool

pub record TaskRecord : Type 0 where
  pub id : ℕ
  pub owner_user_id : ℕ
  pub persona_id : ℕ
  pub chat_id : ℕ
  pub lifecycle_epoch : ℕ
  pub text : Text
  pub status : TaskStatus
  pub created_at : ℕ
  pub updated_at : ℕ

pub record ReminderJob : Type 0 where
  pub id : ℕ
  pub task_id : ℕ
  pub owner_user_id : ℕ
  pub lifecycle_epoch : ℕ
  pub status : ReminderJobStatus
  pub timezone_name : Text
  pub local_start : LocalTime
  pub recurrence : RecurrenceRule
  pub next_scheduled_for : Option ℕ
  pub emitted_count : ℕ
  pub grace_seconds : ℕ
  pub quiet_start_minute : Option ℕ
  pub quiet_end_minute : Option ℕ
  pub urgent : Bool
  pub created_at : ℕ
  pub updated_at : ℕ

pub record ReminderRun : Type 0 where
  pub id : ℕ
  pub job_id : ℕ
  pub owner_user_id : ℕ
  pub lifecycle_epoch : ℕ
  pub scheduled_for : ℕ
  pub status : ReminderRunStatus
  pub claimed_at : Option ℕ
  pub delivered_at : Option ℕ
  pub error_kind : Option Text
  pub action_token : Option Text
  pub created_at : ℕ
  pub updated_at : ℕ

-- Lease tokens are random texts that are only compared, so they are numbers here.
pub record OutboxEntry : Type 0 where
  pub id : ℕ
  pub run_id : ℕ
  pub owner_user_id : ℕ
  pub lifecycle_epoch : ℕ
  pub chat_id : ℕ
  pub text : Text
  pub scheduled_for : ℕ
  pub available_at : ℕ
  pub status : OutboxStatus
  pub attempt : ℕ
  pub lease_token : Option ℕ
  pub lease_until : Option ℕ
  pub telegram_message_id : Option ℕ
  pub error_kind : Option Text
  pub created_at : ℕ
  pub updated_at : ℕ

pub record DeliveryLease : Type 0 where
  pub outbox_id : ℕ
  pub run_id : ℕ
  pub task_id : ℕ
  pub owner_user_id : ℕ
  pub lifecycle_epoch : ℕ
  pub chat_id : ℕ
  pub text : Text
  pub scheduled_for : ℕ
  pub attempt : ℕ
  pub lease_token : ℕ
  pub lease_until : ℕ

-- A row of `reminder_delivery_audit`, whose event type is always `external_commit_after_reset`.
pub record DeliveryAudit : Type 0 where
  pub owner_user_id : ℕ
  pub lifecycle_epoch : ℕ
  pub delivery_token : ℕ
  pub created_at : ℕ
