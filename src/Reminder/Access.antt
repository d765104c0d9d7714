-- ===== src/Reminder/Access.antt =====
-- Who may change a task: the four operations on a task by its id and owner, where they refuse.
use lenko_bot.Prelude.{
  ℕ, ◌≡◌, refl, false, ◌||◌, arith, some, none, ok, err, permission_error, runtime_error, ◌==◌, ltb,
  length, Option-cases, inl, inr, Bool-cases, ◌∙◌, or_raise, >>=-elim,
}
use lenko_bot.Text.{Text, is_blank}
use lenko_bot.Schedule.Zone.{ZoneDatabase}
use lenko_bot.Reminder.Types.{TaskRecord, ReminderJob, ReminderJobStatus, ReminderRun}
use lenko_bot.Reminder.Store.{
  Store, task_by_id, owned_task, owned_task_and_job, ensure_current_epoch, is_current,
  active_profile, first_job_of_task,
}
use lenko_bot.Reminder.Store.Laws.{transaction-err, transaction-keeps, is_current-profiles}
use lenko_bot.Reminder.Draft.{
  await_job, mark_awaiting_body, mark_awaiting_confirmation, activate_body, activate,
}
use lenko_bot.Reminder.Task.{
  Closing, finish_body, finish_task, snooze_body, snooze_task, new_snooze, replay_snooze,
  run_with_token,
}

foreign :
    (st : Store) (task_id owner : ℕ) (t : TaskRecord)
    → task_by_id st task_id ≡ some t
    → (t.owner_user_id == owner) ≡ false
    → owned_task st task_id owner ≡ err permission_error
unfolding owned_task
foreign st task_id owner t found other = rw (found, other) refl

foreign_job :
    (st : Store) (task_id owner : ℕ)
    → owned_task st task_id owner ≡ err permission_error
    → owned_task_and_job st task_id owner ≡ err permission_error
unfolding owned_task_and_job
foreign_job st task_id owner h = rw h refl

foreign_snooze :
    (tz : ZoneDatabase) (task_id owner : ℕ) (token : Text) (delay now : ℕ) (st : Store)
    → owned_task_and_job st task_id owner ≡ err permission_error
    → run_with_token st token ≡ none
    → snooze_body tz task_id owner token delay now st ≡ err permission_error
unfolding snooze_body new_snooze
foreign_snooze tz task_id owner token delay now st h fresh = rw (fresh, snooze_body, h) refl

-- A user who names the task of another user gets PermissionError from each of the four operations, for
-- a snooze with a token that was not used before and an accepted delay, and nothing changes.
pub foreign_task_refused :
    (tz : ZoneDatabase) (target : Closing) (task_id owner : ℕ) (token : Text) (delay now : ℕ)
    (st : Store) (t : TaskRecord)
    → task_by_id st task_id ≡ some t
    → (t.owner_user_id == owner) ≡ false
    → run_with_token st token ≡ none
    → (is_blank token || ltb 128 (length token)) ≡ false
    → (ltb delay 60 || ltb 604800 delay) ≡ false
    → (mark_awaiting_confirmation task_id owner now st ≡ (err permission_error, st))
      × (activate tz task_id owner now st ≡ (err permission_error, st))
      × (finish_task target task_id owner now st ≡ (err permission_error, st))
      × (snooze_task tz task_id owner token delay now st ≡ (err permission_error, st))
unfolding mark_awaiting_confirmation mark_awaiting_body activate activate_body finish_task
    finish_body snooze_task
foreign_task_refused tz target task_id owner token delay now st t found other fresh text time =
    let refused = foreign st task_id owner t found other in
    let refused_job = foreign_job st task_id owner refused in
    (
      transaction-err (mark_awaiting_body task_id owner now) st permission_error
          (rw (refused_job, mark_awaiting_body) refl),
      transaction-err (activate_body tz task_id owner now) st permission_error
          (rw (refused_job, activate_body) refl),
      transaction-err (finish_body target task_id owner now) st permission_error
          (rw (refused, finish_body) refl),
      rw (text, time)
          (transaction-err (snooze_body tz task_id owner token delay now) st permission_error
            (foreign_snooze tz task_id owner token delay now st refused_job fresh)),
    )

stale :
    (st : Store) (t : TaskRecord)
    → is_current st t.owner_user_id t.lifecycle_epoch ≡ false
    → ¬ (ensure_current_epoch st t ≡ ok tt)
unfolding ensure_current_epoch active_profile is_current
stale st t h e = ground arith

await_job-profiles :
    (job j : ReminderJob) (now : ℕ) (s : ReminderJobStatus) (st after : Store)
    → await_job job now s st ≡ ok (j, after)
    → after.profiles ≡ st.profiles
unfolding await_job
await_job-profiles job j now ReminderJobStatus.draft st after h = ground arith
await_job-profiles job j now ReminderJobStatus.awaiting_confirmation st after h = cc
await_job-profiles job j now ReminderJobStatus.active st after h = cc
await_job-profiles job j now ReminderJobStatus.needs_review st after h = cc
await_job-profiles job j now ReminderJobStatus.completed st after h = cc
await_job-profiles job j now ReminderJobStatus.cancelled st after h = cc

module _ (st : Store) (task_id : ℕ) (t : TaskRecord) (found : task_by_id st task_id ≡ some t)
    (old : is_current st t.owner_user_id t.lifecycle_epoch ≡ false) where
  owned-is : (owner : ℕ) (u : TaskRecord) → owned_task st task_id owner ≡ ok u → t ≡ u
  unfolding owned_task
  owned-is owner u h = ground arith

  owned_job-is :
      (owner : ℕ) (owned : TaskRecord × ReminderJob)
      → owned_task_and_job st task_id owner ≡ ok owned
      → t ≡ owned.0
  unfolding owned_task_and_job
  owned_job-is owner owned h = >>=-elim (owned_task st task_id owner) _ owned h λ u e h1.
      >>=-elim (or_raise (first_job_of_task st task_id) runtime_error) _ owned h1
        λ job f h2. owned-is owner u e ∙ cc h2

  no_mark :
      (owner now : ℕ) (j : ReminderJob) (after : Store)
      → ¬ (mark_awaiting_body task_id owner now st ≡ ok (j, after))
  unfolding mark_awaiting_body
  no_mark owner now j after h =
      >>=-elim (owned_task_and_job st task_id owner) _ (j, after) h
        λ owned e h1.
          >>=-elim (await_job owned.1 now (owned.1).status st) _ (j, after) h1
            λ done f h2.
              >>=-elim (ensure_current_epoch done.1 owned.0) _ (j, after) h2
                λ _ g h3.
                  stale done.1 owned.0
                    (is_current-profiles st done.1 _ _
                        (await_job-profiles owned.1 done.0 now _ st done.1 f)
                      ∙ rw (← owned_job-is owner owned e) old)
                    g

  no_activate :
      (tz : ZoneDatabase) (owner now : ℕ) (j : ReminderJob) (after : Store)
      → ¬ (activate_body tz task_id owner now st ≡ ok (j, after))
  unfolding activate_body
  no_activate tz owner now j after h =
      >>=-elim (owned_task_and_job st task_id owner) _ (j, after) h
        λ owned e h1.
          >>=-elim (ensure_current_epoch st owned.0) _ (j, after) h1
            λ _ g h2. stale st owned.0 (rw (← owned_job-is owner owned e) old) g

  no_finish :
      (target : Closing) (owner now : ℕ) (r : TaskRecord) (after : Store)
      → ¬ (finish_body target task_id owner now st ≡ ok (r, after))
  unfolding finish_body
  no_finish target owner now r after h =
      >>=-elim (owned_task st task_id owner) _ (r, after) h
        λ u e h1.
          >>=-elim (ensure_current_epoch st u) _ (r, after) h1
            λ _ g h2. stale st u (rw (← owned-is owner u e) old) g

  no_snooze :
      (tz : ZoneDatabase) (owner : ℕ) (token : Text) (delay now : ℕ) (r : ReminderRun)
      (after : Store)
      → ¬ (new_snooze tz task_id owner token delay now st ≡ ok (r, after))
  unfolding new_snooze
  no_snooze tz owner token delay now r after h =
      >>=-elim (owned_task_and_job st task_id owner) _ (r, after) h
        λ owned e h1.
          >>=-elim (ensure_current_epoch st owned.0) _ (r, after) h1
            λ _ g h2. stale st owned.0 (rw (← owned_job-is owner owned e) old) g

  replay_keeps :
      (owner : ℕ) (first r : ReminderRun) (after : Store)
      → replay_snooze first task_id owner st ≡ ok (r, after)
      → after ≡ st
  unfolding replay_snooze
  replay_keeps owner first r after h = ground arith

  snooze_keeps :
      (tz : ZoneDatabase) (owner : ℕ) (token : Text) (delay now : ℕ) (r : ReminderRun)
      (after : Store)
      → snooze_body tz task_id owner token delay now st ≡ ok (r, after)
      → after ≡ st
  unfolding snooze_body
  snooze_keeps tz owner token delay now r after h = elim (Option-cases (run_with_token st token)) [
    | inl e ↦ absurd (no_snooze tz owner token delay now r after (rw (e, snooze_body) at h))
    | inr (first, e) ↦ replay_keeps owner first r after (rw (e, snooze_body) at h)
  ]

  snooze_task_keeps :
      (tz : ZoneDatabase) (owner : ℕ) (token : Text) (delay now : ℕ)
      → (snooze_task tz task_id owner token delay now st).1 ≡ st
  unfolding snooze_task
  snooze_task_keeps tz owner token delay now =
      elim (Bool-cases (is_blank token || ltb 128 (length token))) [
        | inl e ↦ rw (e, snooze_task) refl
        | inr e ↦ elim (Bool-cases (ltb delay 60 || ltb 604800 delay)) [
          | inl f ↦ rw (e, snooze_task, f) refl
          | inr f ↦
              rw (e, snooze_task, f)
                (transaction-keeps (λ s. s ≡ st) (snooze_body tz task_id owner token delay now) st
                  refl (snooze_keeps tz owner token delay now))
        ]
      ]

  -- A task of an epoch that is over (or of an owner whose reset is in progress): whoever calls them,
  -- none of the four operations on the task changes the store.
  pub stale_task_untouched :
      (tz : ZoneDatabase) (target : Closing) (owner : ℕ) (token : Text) (delay now : ℕ)
      → ((mark_awaiting_confirmation task_id owner now st).1 ≡ st)
        × ((activate tz task_id owner now st).1 ≡ st)
        × ((finish_task target task_id owner now st).1 ≡ st)
        × ((snooze_task tz task_id owner token delay now st).1 ≡ st)
  unfolding mark_awaiting_confirmation activate finish_task
  stale_task_untouched tz target owner token delay now = (
    transaction-keeps (λ s. s ≡ st) (mark_awaiting_body task_id owner now) st refl
        (λ j after h. absurd (no_mark owner now j after h)),
    transaction-keeps (λ s. s ≡ st) (activate_body tz task_id owner now) st refl
        (λ j after h. absurd (no_activate tz owner now j after h)),
    transaction-keeps (λ s. s ≡ st) (finish_body target task_id owner now) st refl
        (λ r after h. absurd (no_finish target owner now r after h)),
    snooze_task_keeps tz owner token delay now,
  )
