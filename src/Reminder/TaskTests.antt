-- ===== src/Reminder/TaskTests.antt =====
-- The theorems on tasks, profiles and due jobs at concrete stores.
use lenko_bot.Prelude.{
  ◌≡◌, ◌≢◌, refl, ◌⊎◌, [], ◌∷◌, true, ◌&&◌, ◌==◌, if◌then◌else◌, none, some, ok, err, runtime_error,
  length, permission_error, List, ◌++◌, Perm, min, arith,
}
use lenko_bot.Prelude.Table.{find, update, next_id, max_of, select}
use lenko_bot.Text.{Text, is_blank, strip, is_empty, drop_while, is_space, text_eq}
use lenko_bot.Schedule.Zone.{ZoneDatabase, load_zone}
use lenko_bot.Schedule.Quiet.{quiet_hours_available_at, quiet_available}
use lenko_bot.Reminder.Types.{
  Profile, TaskRecord, TaskStatus, ReminderJob, ReminderRun, ReminderRunStatus, OutboxEntry,
  OutboxStatus, LifecycleState,
}
use lenko_bot.Reminder.Store.{
  Store, profile_by_id, task_by_id, job_by_id, run_by_id, job_of_run, is_current, active_profile,
  ensure_current_epoch, owned_task, owned_task_and_job, first_job_of_task,
}
use lenko_bot.Reminder.Draft.{mark_awaiting_confirmation, activate}
use lenko_bot.Reminder.Delivery.{
  is_deliverable, earliest, earlier_of, claim, lease_from_row, lease_loop, lease_delivery,
}
use lenko_bot.Reminder.Task.{
  Closing, finish_task, finish_body, close_task, closed_task, is_job_of, is_run_of, snooze_task,
  snooze_body, new_snooze, snooze_at, insert_snoozed, is_late, run_with_token, purge_owner,
  purge_body, delete_owner,
}
use lenko_bot.Reminder.Due.{new_run, new_entry, insert_run, has_run}
use lenko_bot.Reminder.Task.Close.{IsSilent, same_closing, finish_task-IsSilent, finish_task-again}
use lenko_bot.Reminder.Task.Silent.{lease_delivery_after_finish}
use lenko_bot.Reminder.Task.Snooze.{snooze_task-again}
use lenko_bot.Reminder.Task.Purge.{IsLinked, IsFreeOf, purge_owner-IsFreeOf}
use lenko_bot.Reminder.Access.{foreign_task_refused, stale_task_untouched}
use lenko_bot.Reminder.Profile.{ProfileReminderPolicy}
use lenko_bot.Reminder.Query.{list_tasks, IsOrdered, IsNewer, list_tasks-newest}
use lenko_bot.Reminder.Tests.{
  owner_profile, walk_task, walk_job, walk_run, walk_entry, one_due, next_epoch,
}

-- A second task of the owner, with a reminder of its own.
abbrev other_task : TaskRecord
other_task = record walk_task { id = 2 }

abbrev other_job : ReminderJob
other_job = record walk_job { id = 2; task_id = 2 }

abbrev other_run : ReminderRun
other_run = record walk_run { id = 2; job_id = 2 }

abbrev other_entry : OutboxEntry
other_entry = record walk_entry { id = 2; run_id = 2 }

abbrev two_tasks : Store
two_tasks = record one_due {
  tasks = walk_task ∷ other_task ∷ [];
  jobs = walk_job ∷ other_job ∷ [];
  runs = walk_run ∷ other_run ∷ [];
  outbox = walk_entry ∷ other_entry ∷ [];
}

abbrev finished : Store
finished = close_task Closing.complete 1 8 two_tasks

abbrev done_task : TaskRecord
done_task = record walk_task { status = TaskStatus.completed; updated_at = 8 }

walk_finished : finish_task Closing.complete 1 1 8 two_tasks ≡ (ok done_task, finished)
unfolding finish_task finish_body owned_task task_by_id find ensure_current_epoch active_profile
    profile_by_id close_task update
walk_finished = refl

finish_task-IsSilent_example :
    (done_task.status ≡ closed_task Closing.complete)
    × ((done_task.owner_user_id == 1) ≡ true)
    × (((task_by_id two_tasks 1 ≡ some done_task) × (finished ≡ two_tasks))
        ⊎ ((task : TaskRecord) × (task_by_id two_tasks 1 ≡ some task)
            × (task.status ≢ TaskStatus.completed)
            × (task.status ≢ TaskStatus.cancelled)
            × (task_by_id finished 1 ≡ some done_task)
            × IsSilent 1 two_tasks finished))
finish_task-IsSilent_example =
    finish_task-IsSilent Closing.complete 1 1 8 two_tasks finished done_task walk_finished

finish_task-again_example : finish_task Closing.cancel 1 1 9 finished ≡ (
    if same_closing Closing.cancel Closing.complete
    then (ok done_task, finished)
    else (err runtime_error, finished))
finish_task-again_example =
    finish_task-again Closing.complete Closing.cancel 1 1 8 9 two_tasks finished done_task
      walk_finished

lease_delivery_after_finish_example :
    (lease_from_row other_entry other_job 7 60_000_010).task_id ≢ 1
unfolding lease_delivery lease_loop earliest earlier_of is_deliverable job_of_run run_by_id
    job_by_id find is_current profile_by_id claim update lease_from_row task_by_id close_task
    is_run_of is_job_of
lease_delivery_after_finish_example =
    lease_delivery_after_finish Closing.complete 1 1 8 60 10 7 two_tasks finished
      (claim other_entry 10 7 60_000_010 finished) walk_task done_task
      (lease_from_row other_entry other_job 7 60_000_010) refl refl walk_finished refl

abbrev one_zone : ZoneDatabase
one_zone name = some (record {
  to_utc = λ fold t. t.micros;
  from_utc = λ u. record { date = record { year = 2024; month = 1; day = 1 }; micros = u };
})

-- "tok"
abbrev tok : Text
tok = 116 ∷ 111 ∷ 107 ∷ []

abbrev snoozed_run : ReminderRun
snoozed_run = new_run one_due walk_job 60_000_010 10 ReminderRunStatus.due none (some tok)

abbrev snoozed : Store
snoozed =
    insert_run snoozed_run
      (new_entry one_due snoozed_run 5 (97 ∷ []) 60_000_010 10 OutboxStatus.pending) one_due

snooze_task-again_example :
    snooze_task one_zone 1 2 tok 60 90 snoozed
    ≡ (if 1 == 2 && 1 == 1 then (ok snoozed_run, snoozed) else (err runtime_error, snoozed))
unfolding snooze_task snooze_body new_snooze snooze_at insert_snoozed is_late run_with_token new_run
    new_entry insert_run has_run owned_task_and_job owned_task first_job_of_task task_by_id find
    ensure_current_epoch active_profile profile_by_id quiet_hours_available_at quiet_available
    load_zone is_blank is_empty strip drop_while is_space text_eq next_id max_of job_by_id
snooze_task-again_example =
    snooze_task-again one_zone one_zone 1 1 1 2 tok 60 10 90 one_due snoozed snoozed_run (tt, tt)
      refl

-- The owner in the second epoch, with the fence closed.
abbrev fenced : Store
fenced = record one_due {
  profiles =
      record owner_profile {
        lifecycle_epoch = 2;
        lifecycle_state = LifecycleState.reset_in_progress;
      }
      ∷ [];
}

one_due-IsLinked : IsLinked fenced
one_due-IsLinked = record { jobs = (refl, tt); runs = (refl, tt); entries = (refl, tt) }

purge_owner-IsFreeOf_example :
    (p : Profile) × (profile_by_id fenced 1 ≡ some p)
    × (p.lifecycle_epoch ≡ 2)
    × (p.lifecycle_state ≡ LifecycleState.reset_in_progress)
    × IsFreeOf 1 (delete_owner 1 fenced)
unfolding purge_owner purge_body profile_by_id find
purge_owner-IsFreeOf_example =
    purge_owner-IsFreeOf 1 2 fenced (delete_owner 1 fenced) one_due-IsLinked refl

foreign_task_refused_example :
    (mark_awaiting_confirmation 1 2 9 one_due ≡ (err permission_error, one_due))
    × (activate one_zone 1 2 9 one_due ≡ (err permission_error, one_due))
    × (finish_task Closing.cancel 1 2 9 one_due ≡ (err permission_error, one_due))
    × (snooze_task one_zone 1 2 tok 60 9 one_due ≡ (err permission_error, one_due))
unfolding task_by_id find run_with_token is_blank is_empty strip drop_while is_space
foreign_task_refused_example =
    foreign_task_refused one_zone Closing.cancel 1 2 tok 60 9 one_due walk_task refl refl refl refl
      refl

stale_task_untouched_example :
    ((mark_awaiting_confirmation 1 1 9 next_epoch).1 ≡ next_epoch)
    × ((activate one_zone 1 1 9 next_epoch).1 ≡ next_epoch)
    × ((finish_task Closing.cancel 1 1 9 next_epoch).1 ≡ next_epoch)
    × ((snooze_task one_zone 1 1 tok 60 9 next_epoch).1 ≡ next_epoch)
unfolding task_by_id find is_current profile_by_id claim
stale_task_untouched_example =
    stale_task_untouched next_epoch 1 walk_task refl refl one_zone Closing.cancel 1 tok 60 9

-- " UTC"
abbrev utc_name : Text
utc_name = 32 ∷ 85 ∷ 84 ∷ 67 ∷ []

abbrev night : ProfileReminderPolicy
night = record {
  owner_user_id = 1;
  timezone_name = 85 ∷ 84 ∷ 67 ∷ [];
  quiet_start_minute = some 1320;
  quiet_end_minute = some 480;
}

abbrev night_store : Store
night_store = record one_due {
  profiles =
      record owner_profile { quiet_start_minute = some 1320; quiet_end_minute = some 480 } ∷ [];
}

list_tasks-newest_example :
    (rows : List TaskRecord) × (rest : List TaskRecord) × (list_tasks 1 1 two_tasks ≡ ok rows)
    × Perm (rows ++ rest) (select (λ t. t.owner_user_id == 1) two_tasks.tasks)
    × IsOrdered IsNewer (rows ++ rest)
    × (length rows ≡ min 1 (length (select (λ t. t.owner_user_id == 1) two_tasks.tasks)))
list_tasks-newest_example = list_tasks-newest 1 1 two_tasks (omega arith) (omega arith)
