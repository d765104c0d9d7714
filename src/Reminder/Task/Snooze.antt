-- ===== src/Reminder/Task/Snooze.antt =====
-- `snooze_task` by its action token: a repeated button press makes one run.
use lenko_bot.Prelude.{
  ℕ, ◌+◌, ◌*◌, ◌≡◌, ◌∙◌, refl, true, false, ◌&&◌, ◌||◌, not, inl, inr, arith, any, is_some, some,
  none, ok, err, >>=-elim, or_raise-eq-ok, raise_if, or_raise, runtime_error, Option-cases,
  Bool-cases, ◌==◌, ==-refl, &&_iff, ltb, length, if◌then◌else◌,
}
use lenko_bot.Prelude.Table.{find, find-append, find-Distinct, find_sound, Distinct}
use lenko_bot.Text.{Text, is_blank}
use lenko_bot.Text.Laws.{text_eq_refl}
use lenko_bot.Schedule.Zone.{ZoneDatabase}
use lenko_bot.Schedule.Quiet.{quiet_hours_available_at}
use lenko_bot.Reminder.Types.{TaskRecord, ReminderJob, ReminderRun, OutboxEntry}
use lenko_bot.Reminder.Store.{
  Store, job_by_id, owned_task, owned_task_and_job, first_job_of_task, ensure_current_epoch,
  is_active_task, micros_per_second,
}
use lenko_bot.Reminder.Store.Laws.{transaction-ok, transaction-err, transaction-eq-ok}
use lenko_bot.Reminder.Due.{new_run, new_entry, insert_run, has_run, run_status, entry_status}
use lenko_bot.Reminder.Task.{
  has_token, shares_token, run_with_token, replay_snooze, insert_snoozed, is_late, snooze_at,
  new_snooze, snooze_body, snooze_task,
}

-- The run that the token leads to, of this owner and task.
record Leads (task_id owner : ℕ) (token : Text) (run : ReminderRun) (st : Store) : Type 0 where
  found : run_with_token st token ≡ some run
  job : ReminderJob
  joined : job_by_id st run.job_id ≡ some job
  mine : (run.owner_user_id == owner && job.task_id == task_id) ≡ true

replay-Leads :
    (task_id owner : ℕ) (token : Text) (st after : Store) (first run : ReminderRun)
    → run_with_token st token ≡ some first
    → replay_snooze first task_id owner st ≡ ok (run, after)
    → Leads task_id owner token run after
unfolding replay_snooze
replay-Leads task_id owner token st after first run found h =
    elim (Option-cases (job_by_id st first.job_id)) [
      | inl e ↦ cc (rw (e, replay_snooze) at h)
      | inr (job, e) ↦ elim (Bool-cases (first.owner_user_id == owner && job.task_id == task_id)) [
        | inr f ↦ cc (rw (e, replay_snooze, f) at h)
        | inl f ↦
            let made = rw (e, replay_snooze, f) at h in
            let same : first ≡ run = cc made in
            let kept : st ≡ after = cc made in
            rw (← same, ← kept) (record { found = found; job = job; joined = e; mine = f })
      ]
    ]

-- What `new_snooze` inserts.
record Inserted (task_id owner : ℕ) (token : Text) (st : Store) (run : ReminderRun) (after : Store)
    : Type 0 where
  job : ReminderJob
  first : first_job_of_task st task_id ≡ some job
  entry : OutboxEntry
  after_is : after ≡ insert_run run entry st
  of_job : run.job_id ≡ job.id
  of_owner : run.owner_user_id ≡ owner
  with_token : run.action_token ≡ some token

snooze_at-Inserted :
    (task : TaskRecord) (job : ReminderJob) (task_id owner : ℕ) (token : Text)
    (scheduled now available : ℕ) (st after : Store) (run : ReminderRun)
    → first_job_of_task st task_id ≡ some job
    → snooze_at task job owner token scheduled now available st ≡ ok (run, after)
    → Inserted task_id owner token st run after
unfolding snooze_at insert_snoozed new_run
snooze_at-Inserted task job task_id owner token scheduled now available st after run first h =
    let made =
      new_run st (record job { owner_user_id = owner }) scheduled now
        (run_status (is_late job scheduled available)) none (some token) in
    let entry =
      new_entry st made task.chat_id task.text available now
        (entry_status (is_late job scheduled available)) in
    elim (Bool-cases
      (has_run st made.job_id made.scheduled_for || any (shares_token made) st.runs)) [
        | inl e ↦ cc (rw (e, snooze_at) at h)
        | inr e ↦
            let kept = rw (e, snooze_at) at h in
            let same : made ≡ run = cc kept in
            record {
              job = job;
              first = first;
              entry = entry;
              after_is = rw (← same) (cc kept);
              of_job = rw (← same) refl;
              of_owner = rw (← same) refl;
              with_token = rw (← same) refl;
            }
      ]

owned_job :
    (st : Store) (task_id owner : ℕ) (owned : TaskRecord × ReminderJob)
    → owned_task_and_job st task_id owner ≡ ok owned
    → first_job_of_task st task_id ≡ some owned.1
unfolding owned_task_and_job
owned_job st task_id owner owned h = >>=-elim (owned_task st task_id owner) _ owned h λ task e h1.
    >>=-elim (or_raise (first_job_of_task st task_id) runtime_error) _ owned h1
      λ job f h2. or_raise-eq-ok _ _ job f ∙ cc h2

new_snooze-Inserted :
    (tz : ZoneDatabase) (task_id owner : ℕ) (token : Text) (delay now : ℕ) (st after : Store)
    (run : ReminderRun)
    → new_snooze tz task_id owner token delay now st ≡ ok (run, after)
    → Inserted task_id owner token st run after
unfolding new_snooze
new_snooze-Inserted tz task_id owner token delay now st after run h =
    >>=-elim (owned_task_and_job st task_id owner) _ (run, after) h
      λ owned e h1.
        >>=-elim (ensure_current_epoch st owned.0) _ (run, after) h1
          λ _ current h2.
            >>=-elim (raise_if (not (is_active_task (owned.0).status)) runtime_error) _ (run, after)
              h2
              λ _ active h3.
                >>=-elim
                  (quiet_hours_available_at tz (now + delay * micros_per_second)
                    (owned.1).timezone_name (owned.1).quiet_start_minute (owned.1).quiet_end_minute
                    (owned.1).urgent)
                  _ (run, after) h3
                  λ available f h4.
                    snooze_at-Inserted owned.0 owned.1 task_id owner token _ now available st after
                      run (owned_job st task_id owner owned e) h4

-- After the insertion the token leads to the new run.
Inserted-Leads :
    (task_id owner : ℕ) (token : Text) (st after : Store) (run : ReminderRun)
    → Distinct (λ j. j.id) st.jobs
    → run_with_token st token ≡ none
    → Inserted task_id owner token st run after
    → Leads task_id owner token run after
unfolding run_with_token insert_run job_by_id first_job_of_task
Inserted-Leads task_id owner token st after run distinct fresh w =
    let joined : find (λ j. j.id == (w.job).id) st.jobs ≡ some w.job =
      find-Distinct (λ j. j.id) (λ j. j.task_id == task_id) st.jobs w.job distinct w.first in
    rw w.after_is (record {
      found =
          find-append (λ r. has_token token r && is_some (job_by_id st r.job_id)) st.runs run fresh
            (rw (w.with_token, text_eq_refl token, w.of_job, joined) refl);
      job = w.job;
      joined = rw w.of_job joined;
      mine =
          rw (w.of_owner, ==-refl owner)
            (find_sound (λ j. j.task_id == task_id) st.jobs w.job w.first);
    })

snooze_body-Leads :
    (tz : ZoneDatabase) (task_id owner : ℕ) (token : Text) (delay now : ℕ) (st after : Store)
    (run : ReminderRun)
    → Distinct (λ j. j.id) st.jobs
    → snooze_body tz task_id owner token delay now st ≡ ok (run, after)
    → Leads task_id owner token run after
unfolding snooze_body
snooze_body-Leads tz task_id owner token delay now st after run distinct h =
    elim (Option-cases (run_with_token st token)) [
      | inl e ↦ Inserted-Leads task_id owner token st after run distinct e (
          new_snooze-Inserted tz task_id owner token delay now st after run
            (rw (e, snooze_body) at h))
      | inr (first, e) ↦
          replay-Leads task_id owner token st after first run e (rw (e, snooze_body) at h)
    ]

snooze_body-again :
    (tz : ZoneDatabase) (task_id owner other other_owner : ℕ) (token : Text) (delay now : ℕ)
    (st : Store) (run : ReminderRun)
    → Leads task_id owner token run st
    → snooze_body tz other other_owner token delay now st
      ≡ (if owner == other_owner && task_id == other then ok (run, st) else err runtime_error)
unfolding snooze_body replay_snooze
snooze_body-again tz task_id owner other other_owner token delay now st run w =
    let (mine, of_task) =
      (&&_iff (run.owner_user_id == owner) ((w.job).task_id == task_id)).0 w.mine in
    let a : run.owner_user_id ≡ owner = ground arith in
    let b : (w.job).task_id ≡ task_id = ground arith in
    rw (w.found, snooze_body, w.joined, replay_snooze, a, b) refl

-- Whether `snooze_task` accepts a token and a delay.
abbrev Accepts : Text → ℕ → Type 0
Accepts token delay =
    ((is_blank token || ltb 128 (length token)) ≡ false)
    × ((ltb delay 60 || ltb 604800 delay) ≡ false)

snooze_task-split :
    (tz : ZoneDatabase) (task_id owner : ℕ) (token : Text) (delay now : ℕ) (st after : Store)
    (run : ReminderRun)
    → snooze_task tz task_id owner token delay now st ≡ (ok run, after)
    → Accepts token delay × (snooze_body tz task_id owner token delay now st ≡ ok (run, after))
unfolding snooze_task
snooze_task-split tz task_id owner token delay now st after run h =
    elim (Bool-cases (is_blank token || ltb 128 (length token))) [
      | inl e ↦ cc (rw (e, snooze_task) at h)
      | inr e ↦ elim (Bool-cases (ltb delay 60 || ltb 604800 delay)) [
        | inl f ↦ cc (rw (e, snooze_task, f) at h)
        | inr f ↦ (
          (e, f),
          transaction-eq-ok (snooze_body tz task_id owner token delay now) st run after
              (rw (e, snooze_task, f) at h),
        )
      ]
    ]

-- With job ids that occur once: after a snooze that succeeded, the same token again, at any later time
-- and whatever the time zones say then, gives the same run to the same owner and task and raises
-- RuntimeError for any other; either way nothing changes, so the token makes one run.
pub snooze_task-again :
    (tz tz' : ZoneDatabase) (task_id owner other other_owner : ℕ) (token : Text)
    (delay now later : ℕ) (st after : Store) (run : ReminderRun)
    → Distinct (λ j. j.id) st.jobs
    → snooze_task tz task_id owner token delay now st ≡ (ok run, after)
    → snooze_task tz' other other_owner token delay later after ≡ (
        if owner == other_owner && task_id == other
        then (ok run, after)
        else (err runtime_error, after))
unfolding snooze_task
snooze_task-again tz tz' task_id owner other other_owner token delay now later st after run distinct
      h =
    let ((text, time), body) = snooze_task-split tz task_id owner token delay now st after run h in
    let w = snooze_body-Leads tz task_id owner token delay now st after run distinct body in
    let again =
      snooze_body-again tz' task_id owner other other_owner token delay later after run w in
    elim (Bool-cases (owner == other_owner && task_id == other)) [
      | inl e ↦
          rw (text, time, e)
            (transaction-ok (snooze_body tz' other other_owner token delay later) after run after
              (again ∙ rw e refl))
      | inr e ↦
          rw (text, time, e)
            (transaction-err (snooze_body tz' other other_owner token delay later) after
              runtime_error (again ∙ rw e refl))
    ]
