-- ===== src/Reminder/Invariant/Tasks.antt =====
-- The operations on tasks and jobs keep the outbox well formed.
use lenko_bot.Prelude.{
  ℕ, ◌+◌, ◌*◌, ◌≡◌, refl, Bool, true, false, ◌&&◌, ◌||◌, not, inl, inr, arith, ok, >>=-elim,
  raise_if, runtime_error, ltb, Bool-cases, Option-cases, length,
}
use lenko_bot.Prelude.Table.{update-All, delete-All, All-append, next_id}
use lenko_bot.Prelude.Table.Unique.{Distinct-update, Distinct-delete, Distinct-insert}
use lenko_bot.Text.{Text, is_blank}
use lenko_bot.Schedule.Zone.{ZoneDatabase}
use lenko_bot.Schedule.Quiet.{quiet_hours_available_at}
use lenko_bot.Reminder.Types.{OutboxEntry, ReminderRun, ReminderJob, TaskRecord}
use lenko_bot.Reminder.Store.{
  Store, is_open_entry, owned_task_and_job, ensure_current_epoch, is_active_task, micros_per_second,
}
use lenko_bot.Reminder.Store.Laws.{transaction-keeps}
use lenko_bot.Reminder.Due.{insert_run, new_entry, entry_status}
use lenko_bot.Reminder.Task.{
  Closing, close_task, withdraw, is_run_of, finish_task, finish_body, snooze_at, snooze_task,
  new_snooze, snooze_body, replay_snooze, run_with_token, insert_snoozed, delete_owner,
  is_purged_entry, purge_body, purge_owner,
}
use lenko_bot.Reminder.Task.Close.{finish_body-Finished}
use lenko_bot.Reminder.Invariant.Entry.{IsSound, withdraw-IsSound}
use lenko_bot.Reminder.Invariant.Outbox.{OutboxOk, open-not_sent}

new_entry-IsSound :
    (st : Store) (run : ReminderRun) (chat_id : ℕ) (text : Text) (available now : ℕ) (missed : Bool)
    → IsSound (new_entry st run chat_id text available now (entry_status missed))
unfolding new_entry
new_entry-IsSound st run chat_id text available now true = record {
  attempts = omega arith;
  pending = refl;
  leased = refl;
  token = refl;
  sent = refl;
}
new_entry-IsSound st run chat_id text available now false = record {
  attempts = omega arith;
  pending = refl;
  leased = refl;
  token = refl;
  sent = refl;
}

pub insert_run-OutboxOk :
    (st : Store) (r run : ReminderRun) (chat_id : ℕ) (text : Text) (available now : ℕ)
    (missed : Bool)
    → OutboxOk st.outbox
    → OutboxOk
        (insert_run r (new_entry st run chat_id text available now (entry_status missed)) st).outbox
unfolding insert_run
insert_run-OutboxOk st r run chat_id text available now missed v = (
  All-append IsSound st.outbox _ v.0
      (new_entry-IsSound st run chat_id text available now missed, tt),
  Distinct-insert (λ q. q.id) st.outbox _ (entry_id st run chat_id text available now missed) v.1,
)
  where
    entry_id :
        (st : Store) (run : ReminderRun) (chat_id : ℕ) (text : Text) (available now : ℕ)
        (missed : Bool)
        → (new_entry st run chat_id text available now (entry_status missed)).id
          ≡ next_id (λ q. q.id) st.outbox
    entry_id st run chat_id text available now missed = unfold new_entry in refl

close_task-OutboxOk :
    (target : Closing) (task_id now : ℕ) (st : Store)
    → OutboxOk st.outbox
    → OutboxOk (close_task target task_id now st).outbox
unfolding close_task
close_task-OutboxOk target task_id now st v = (
  update-All IsSound (λ o. is_run_of st task_id o.run_id && is_open_entry o.status) (withdraw now)
      (λ o h s. withdraw-IsSound now o (open-not_sent o.status (ground arith)) s) st.outbox v.0,
  Distinct-update (λ q. q.id) _ (withdraw now) st.outbox (λ q. refl) v.1,
)

pub finish_task-OutboxOk :
    (target : Closing) (task_id owner now : ℕ) (st : Store)
    → OutboxOk st.outbox
    → OutboxOk (finish_task target task_id owner now st).1.outbox
unfolding finish_task
finish_task-OutboxOk target task_id owner now st v =
    transaction-keeps (λ s. OutboxOk s.outbox) (finish_body target task_id owner now) st v
      λ row after h. elim (finish_body-Finished target task_id owner now st row after h).how [
        | inl (_, _, same) ↦ rw same v
        | inr (_, _, made) ↦ rw made (close_task-OutboxOk target task_id now st v)
      ]

pub purge_owner-OutboxOk :
    (owner epoch : ℕ) (st : Store)
    → OutboxOk st.outbox
    → OutboxOk (purge_owner owner epoch st).1.outbox
unfolding purge_owner
purge_owner-OutboxOk owner epoch st v =
    transaction-keeps (λ s. OutboxOk s.outbox) (purge_body owner epoch) st v
      λ r after h. let made = purged owner epoch st after r h in rw made (deleted owner st v)
  where
    purged :
        (owner epoch : ℕ) (st after : Store) (r : Unit {0})
        → purge_body owner epoch st ≡ ok (r, after)
        → after ≡ delete_owner owner st
    purged owner epoch st after r h = unfold purge_body in ground arith

    deleted :
        (owner : ℕ) (st : Store) → OutboxOk st.outbox → OutboxOk (delete_owner owner st).outbox
    deleted owner st v =
        unfold delete_owner in
        (
          delete-All IsSound (is_purged_entry st owner) st.outbox v.0,
          Distinct-delete (λ q. q.id) (is_purged_entry st owner) st.outbox v.1,
        )

snooze_at-OutboxOk :
    (task : TaskRecord) (job : ReminderJob) (owner : ℕ) (token : Text) (scheduled now available : ℕ)
    (st after : Store) (r : ReminderRun)
    → OutboxOk st.outbox
    → snooze_at task job owner token scheduled now available st ≡ ok (r, after)
    → OutboxOk after.outbox
unfolding snooze_at
snooze_at-OutboxOk task job owner token scheduled now available st after r v h =
    rw (inserted _ _ st after r h)
      (insert_run-OutboxOk st _ _ task.chat_id task.text available now _ v)
  where
    inserted :
        (run : ReminderRun) (entry : OutboxEntry) (st after : Store) (r : ReminderRun)
        → insert_snoozed run entry st ≡ ok (r, after)
        → after ≡ insert_run run entry st
    inserted run entry st after r h = unfold insert_snoozed in ground arith

new_snooze-OutboxOk :
    (tz : ZoneDatabase) (task_id owner : ℕ) (token : Text) (delay now : ℕ) (st after : Store)
    (r : ReminderRun)
    → OutboxOk st.outbox
    → new_snooze tz task_id owner token delay now st ≡ ok (r, after)
    → OutboxOk after.outbox
unfolding new_snooze
new_snooze-OutboxOk tz task_id owner token delay now st after r v h =
    >>=-elim (owned_task_and_job st task_id owner) _ (r, after) h
      λ owned e h1.
        >>=-elim (ensure_current_epoch st owned.0) _ (r, after) h1
          λ _ f h2.
            >>=-elim (raise_if (not (is_active_task (owned.0).status)) runtime_error) _ (r, after)
              h2
              λ _ g h3.
                >>=-elim (quiet_hours_available_at tz _ _ _ _ _) _ (r, after) h3
                  λ available k h4.
                    snooze_at-OutboxOk owned.0 owned.1 owner token (now + delay * micros_per_second)
                      now available st after r v h4

replay_snooze-same :
    (run : ReminderRun) (task_id owner : ℕ) (st after : Store) (r : ReminderRun)
    → replay_snooze run task_id owner st ≡ ok (r, after)
    → st ≡ after
unfolding replay_snooze
replay_snooze-same run task_id owner st after r h = ground arith

snooze_body-OutboxOk :
    (tz : ZoneDatabase) (task_id owner : ℕ) (token : Text) (delay now : ℕ) (st after : Store)
    (r : ReminderRun)
    → OutboxOk st.outbox
    → snooze_body tz task_id owner token delay now st ≡ ok (r, after)
    → OutboxOk after.outbox
unfolding snooze_body
snooze_body-OutboxOk tz task_id owner token delay now st after r v h =
    elim (Option-cases (run_with_token st token)) [
      | inl e ↦
          new_snooze-OutboxOk tz task_id owner token delay now st after r v
            (rw (e, snooze_body) at h)
      | inr (run, e) ↦
          rw (← replay_snooze-same run task_id owner st after r (rw (e, snooze_body) at h)) v
    ]

pub snooze_task-OutboxOk :
    (tz : ZoneDatabase) (task_id owner : ℕ) (token : Text) (delay now : ℕ) (st : Store)
    → OutboxOk st.outbox
    → OutboxOk (snooze_task tz task_id owner token delay now st).1.outbox
unfolding snooze_task
snooze_task-OutboxOk tz task_id owner token delay now st v =
    elim (Bool-cases (is_blank token || ltb 128 (length token))) [
      | inl e ↦ rw (e, snooze_task) v
      | inr e ↦ elim (Bool-cases (ltb delay 60 || ltb 604800 delay)) [
        | inl f ↦ rw (e, snooze_task, f) v
        | inr f ↦
            rw (e, snooze_task, f)
              (transaction-keeps (λ s. OutboxOk s.outbox)
                (snooze_body tz task_id owner token delay now) st v
                (λ r after h. snooze_body-OutboxOk tz task_id owner token delay now st after r v h))
      ]
    ]
