-- ===== src/Reminder/Task/Purge.antt =====
-- `purge_owner`: a reset leaves no reminder row of its owner.
use lenko_bot.Prelude.{ℕ, ◌≡◌, true, false, ◌&&◌, arith, All, any, some, ok, ◌==◌, List, [], ◌∷◌}
use lenko_bot.Prelude.Table.{any_mono, delete-none}
use lenko_bot.Reminder.Types.{Profile, LifecycleState, ReminderJob, ReminderRun, OutboxEntry}
use lenko_bot.Reminder.Store.{Store, profile_by_id}
use lenko_bot.Reminder.Store.Laws.{transaction-eq-ok}
use lenko_bot.Reminder.Task.{
  is_purged_job, is_purged_run, is_purged_entry, delete_owner, purge_body, purge_owner,
}

-- The foreign keys of the schema: each row refers to a row of the same owner.
pub record IsLinked (st : Store) : Type 0 where
  pub jobs :
      All
        (λ j. any (λ t. t.id == j.task_id && t.owner_user_id == j.owner_user_id) st.tasks ≡ true)
        st.jobs
  pub runs :
      All
        (λ r. any (λ j. j.id == r.job_id && j.owner_user_id == r.owner_user_id) st.jobs ≡ true)
        st.runs
  pub entries :
      All
        (λ o. any (λ r. r.id == o.run_id && r.owner_user_id == o.owner_user_id) st.runs ≡ true)
        st.outbox

everything {ℓ} : {A : Type ℓ} (xs : List A) → All (λ _. Unit {0}) xs
everything [] = tt
everything (x ∷ xs) = (tt, everything xs)

module _ (st : Store) (owner : ℕ) (linked : IsLinked st) where
  purged_job :
      (j : ReminderJob)
      → any (λ t. t.id == j.task_id && t.owner_user_id == j.owner_user_id) st.tasks ≡ true
      → (j.owner_user_id == owner) ≡ true
      → is_purged_job st owner j ≡ true
  unfolding is_purged_job
  purged_job j link mine =
      any_mono (λ _. Unit {0}) (λ t. t.id == j.task_id && t.owner_user_id == j.owner_user_id)
        (λ t. t.owner_user_id == owner && t.id == j.task_id) st.tasks (everything st.tasks)
        (λ t _ h. ground arith) link

  purged_run :
      (r : ReminderRun)
      → any (λ j. j.id == r.job_id && j.owner_user_id == r.owner_user_id) st.jobs ≡ true
      → (r.owner_user_id == owner) ≡ true
      → is_purged_run st owner r ≡ true
  unfolding is_purged_run
  purged_run r link mine =
      any_mono _ (λ j. j.id == r.job_id && j.owner_user_id == r.owner_user_id)
        (λ j. is_purged_job st owner j && j.id == r.job_id) st.jobs linked.jobs
        (λ j of_task h. ground (arith, purged_job j of_task)) link

  purged_entry :
      (o : OutboxEntry)
      → any (λ r. r.id == o.run_id && r.owner_user_id == o.owner_user_id) st.runs ≡ true
      → (o.owner_user_id == owner) ≡ true
      → is_purged_entry st owner o ≡ true
  unfolding is_purged_entry
  purged_entry o link mine =
      any_mono _ (λ r. r.id == o.run_id && r.owner_user_id == o.owner_user_id)
        (λ r. is_purged_run st owner r && r.id == o.run_id) st.runs linked.runs
        (λ r of_job h. ground (arith, purged_run r of_job)) link

-- No row of the owner.
pub record IsFreeOf (owner : ℕ) (st : Store) : Type 0 where
  pub tasks : All (λ t. (t.owner_user_id == owner) ≡ false) st.tasks
  pub jobs : All (λ j. (j.owner_user_id == owner) ≡ false) st.jobs
  pub runs : All (λ r. (r.owner_user_id == owner) ≡ false) st.runs
  pub entries : All (λ o. (o.owner_user_id == owner) ≡ false) st.outbox

delete_owner-IsFreeOf :
    (owner : ℕ) (st : Store) → IsLinked st → IsFreeOf owner (delete_owner owner st)
unfolding delete_owner
delete_owner-IsFreeOf owner st linked = record {
  tasks = delete-none _ _ _ st.tasks (everything st.tasks) (λ t _ h. h);
  jobs = delete-none _ _ _ st.jobs linked.jobs (purged_job st owner linked);
  runs = delete-none _ _ _ st.runs linked.runs (purged_run st owner linked);
  entries = delete-none _ _ _ st.outbox linked.entries (purged_entry st owner linked);
}

purge_body-split :
    (owner epoch : ℕ) (st after : Store)
    → purge_body owner epoch st ≡ ok (tt, after)
    → (p : Profile) × (profile_by_id st owner ≡ some p)
      × (p.lifecycle_epoch ≡ epoch)
      × (p.lifecycle_state ≡ LifecycleState.reset_in_progress)
      × (after ≡ delete_owner owner st)
unfolding purge_body
purge_body-split owner epoch st after h = ground arith

-- A purge that returns was called under the fence of a reset in progress in that epoch, and, where the
-- rows are linked as the foreign keys demand, it leaves no task, job, run or outbox entry of the owner.
pub purge_owner-IsFreeOf :
    (owner epoch : ℕ) (st after : Store)
    → IsLinked st
    → purge_owner owner epoch st ≡ (ok tt, after)
    → (p : Profile) × (profile_by_id st owner ≡ some p)
      × (p.lifecycle_epoch ≡ epoch)
      × (p.lifecycle_state ≡ LifecycleState.reset_in_progress)
      × IsFreeOf owner after
unfolding purge_owner
purge_owner-IsFreeOf owner epoch st after linked h =
    let (p, found, fence, state, made) =
      purge_body-split owner epoch st after
        (transaction-eq-ok (purge_body owner epoch) st tt after h) in
    (p, found, fence, state, rw made (delete_owner-IsFreeOf owner st linked))
