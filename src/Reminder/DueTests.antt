-- ===== src/Reminder/DueTests.antt =====
-- The theorems on due jobs at concrete stores.
use lenko_bot.Prelude.{
  ◌≡◌, ◌≢◌, refl, [], ◌∷◌, ◌++◌, false, none, some, err, arith, value_error, ok, length,
}
use lenko_bot.Prelude.Table.{find, next_id, max_of, count_where, update}
use lenko_bot.Calendar.{Date, LocalTime, local_ltb, date_ltb, days_in_month}
use lenko_bot.Text.{is_blank, strip, is_empty, drop_while, is_space}
use lenko_bot.Schedule.Rule.{RecurrenceRule, ScheduleKind}
use lenko_bot.Schedule.Zone.{Zone, ZoneDatabase, load_zone}
use lenko_bot.Schedule.Quiet.{quiet_hours_available_at, quiet_available}
use lenko_bot.Schedule.Occurrence.{next_occurrence, candidate_of, candidate_after, monthday_or}
use lenko_bot.Reminder.Types.{
  Profile, ReminderJob, ReminderRun, ReminderRunStatus, OutboxEntry, OutboxStatus,
}
use lenko_bot.Reminder.Store.{
  Store, task_by_id, is_current, profile_by_id, check_timezone, check_quiet_policy,
}
use lenko_bot.Reminder.Due.{
  DueJob, is_due, due_rows, is_before, insert_by_time, sort_by_time, due_jobs, availability,
  complete_job, advance_job_cursor, advance_following, new_run, new_entry, has_run, insert_run,
  is_missed, move_cursor, emit_run, materialize_job, materialize_all, materialize_due,
}
use lenko_bot.Reminder.Due.Cursor.{IsAt, CursorOf}
use lenko_bot.Reminder.Due.Emit.{IsEmitted, materialize_job-IsEmitted}
use lenko_bot.Reminder.Due.Blocked.{HasNoNext, materialize_due-blocked}
use lenko_bot.Reminder.Delivery.{lease_delivery}
use lenko_bot.Reminder.Invariant.Outbox.{OutboxOk}
use lenko_bot.Reminder.Invariant.Run.{Step, Reach, Reach-OutboxOk}
use lenko_bot.Reminder.Profile.{
  policy_of, get_profile_policy, update_policy, check_policy, set_profile_policy,
}
use lenko_bot.Reminder.Profile.Policy.{set_profile_policy-get}
use lenko_bot.Reminder.Tests.{owner_profile, walk_job, one_due}

abbrev one_day : Zone
one_day = record {
  to_utc = λ fold t. t.micros;
  from_utc = λ u. record { date = record { year = 2024; month = 2; day = 29 }; micros = u };
}

abbrev one_zone : ZoneDatabase
one_zone name = some one_day

abbrev before_runs : Store
before_runs = record one_due { runs = []; outbox = [] }

abbrev walk_row : DueJob
walk_row = record { job = walk_job; chat_id = 5; text = 97 ∷ [] }

abbrev first_run : ReminderRun
first_run = new_run before_runs walk_job 5 20 ReminderRunStatus.due none none

abbrev first_entry : OutboxEntry
first_entry = new_entry before_runs first_run 5 (97 ∷ []) 5 20 OutboxStatus.pending

abbrev after_first : Store
after_first = complete_job walk_job 20 (insert_run first_run first_entry before_runs)

walk_job-IsAt : IsAt one_zone one_day walk_job 5
unfolding load_zone is_blank is_empty strip drop_while is_space days_in_month
walk_job-IsAt = record {
  zone = refl;
  loaded = refl;
  interval = omega arith;
  anchor = record {
    year_pos = omega arith;
    month_pos = omega arith;
    month_le = omega arith;
    day_pos = omega arith;
    day_le = omega arith;
  };
  date = record {
    year_pos = omega arith;
    month_pos = omega arith;
    month_le = omega arith;
    day_pos = omega arith;
    day_le = unfold lenko_bot.Calendar.is_leap in omega arith;
  };
}

materialize_job-IsEmitted_example :
    (entry : OutboxEntry) × IsEmitted walk_row 5 20 first_run entry
    × (after_first.runs ≡ before_runs.runs ++ first_run ∷ [])
    × (after_first.outbox ≡ before_runs.outbox ++ entry ∷ [])
    × (has_run before_runs 1 5 ≡ false)
    × CursorOf 1 (λ c. c ≢ some 5) after_first.jobs
unfolding materialize_job emit_run availability has_run quiet_hours_available_at quiet_available
    load_zone is_blank is_empty strip drop_while is_space new_run new_entry insert_run is_missed
    move_cursor advance_job_cursor advance_following complete_job next_occurrence candidate_of
    candidate_after local_ltb date_ltb next_id max_of
materialize_job-IsEmitted_example =
    materialize_job-IsEmitted one_zone one_day 20 5 walk_row before_runs after_first first_run refl
      walk_job-IsAt refl

-- Every twelve months on the 30th, from February 29, 2024.
abbrev leap_rule : RecurrenceRule
leap_rule = record {
  kind = ScheduleKind.monthly;
  interval = 12;
  weekdays = [];
  monthday = some 30;
  count = none;
  until_local = none;
}

abbrev leap_job : ReminderJob
leap_job = record walk_job {
  recurrence = leap_rule;
  local_start = record { date = record { year = 2024; month = 2; day = 29 }; micros = 5 };
}

abbrev leap_store : Store
leap_store = record before_runs {
  jobs = leap_job ∷ record walk_job { id = 2; next_scheduled_for = some 6 } ∷ [];
}

leap_job-HasNoNext : HasNoNext leap_job
unfolding monthday_or
leap_job-HasNoNext = record {
  monthly = refl;
  from_february = refl;
  whole_years = refl;
  late_day = omega arith;
}

materialize_due-blocked_example :
    materialize_due one_zone 100 20 leap_store ≡ (err value_error, leap_store)
unfolding due_jobs sort_by_time insert_by_time is_before due_rows is_due task_by_id find is_current
    profile_by_id local_ltb date_ltb has_run quiet_hours_available_at quiet_available load_zone
    is_blank is_empty strip drop_while is_space
materialize_due-blocked_example =
    materialize_due-blocked one_zone one_day 100 20 5 5 leap_store
      (record { job = leap_job; chat_id = 5; text = 97 ∷ [] })
      (record {
        job = record walk_job { id = 2; next_scheduled_for = some 6 };
        chat_id = 5;
        text = 97 ∷ [];
      }
        ∷ [])
      refl refl leap_job-HasNoNext refl refl refl refl refl refl

abbrev quiet_profile : Profile
quiet_profile = record owner_profile { quiet_start_minute = some 1320; quiet_end_minute = some 480 }

-- A second user beside the owner.
abbrev shared_store : Store
shared_store = record one_due {
  profiles = owner_profile ∷ record owner_profile { user_id = 2 } ∷ [];
}

abbrev quiet_store : Store
quiet_store = record shared_store {
  profiles = quiet_profile ∷ record owner_profile { user_id = 2 } ∷ [];
}

policy_set :
    set_profile_policy one_zone 1 (85 ∷ 84 ∷ 67 ∷ []) (some 1320) (some 480) shared_store
    ≡ (ok (policy_of quiet_profile), quiet_store)
unfolding set_profile_policy check_policy check_timezone check_quiet_policy update_policy
    get_profile_policy profile_by_id count_where update find load_zone is_blank strip is_empty
    drop_while is_space
policy_set = refl

set_profile_policy-get_example :
    (policy_of quiet_profile ≡ record {
      owner_user_id = 1;
      timezone_name = strip (85 ∷ 84 ∷ 67 ∷ []);
      quiet_start_minute = some 1320;
      quiet_end_minute = some 480;
    })
    × (get_profile_policy 1 quiet_store ≡ ok (policy_of quiet_profile))
    × (get_profile_policy 2 quiet_store ≡ get_profile_policy 2 shared_store)
set_profile_policy-get_example =
    set_profile_policy-get one_zone 1 2 (85 ∷ 84 ∷ 67 ∷ []) (some 1320) (some 480) shared_store
      quiet_store (policy_of quiet_profile) ((refl, tt), (tt, tt)) (omega arith) policy_set

-- From a store with no run: the due job is materialised, and its entry is leased.
abbrev materialized : Store
materialized = (materialize_due one_zone 10 20 before_runs).1

materialized_entries : length materialized.outbox ≡ 1
unfolding materialize_due materialize_all materialize_job emit_run move_cursor availability has_run
    advance_job_cursor advance_following complete_job is_missed insert_run next_id max_of due_jobs
    due_rows is_due insert_by_time sort_by_time task_by_id is_current profile_by_id find update
    quiet_hours_available_at quiet_available load_zone is_blank strip is_empty drop_while is_space
    next_occurrence candidate_of candidate_after local_ltb date_ltb
materialized_entries = refl

Reach-OutboxOk_example : OutboxOk (lease_delivery 60 10 7 materialized).1.outbox
Reach-OutboxOk_example = Reach-OutboxOk before_runs (lease_delivery 60 10 7 materialized).1 refl (
    Reach.further (Reach.further Reach.here (Step.materializes one_zone 10 20))
      (Step.leases 60 10 7))
