-- ===== src/Reminder/Store/Laws.antt =====
-- Transactions commit the result of their body, or leave the store as it was.
use lenko_bot.Prelude.{ℕ, List, ap, ◌≡◌, ◌==◌, true, some, ok, err, Error, Outcome-cases, inl, inr}
use lenko_bot.Prelude.Table.{find_sound}
use lenko_bot.Reminder.Types.{Profile, OutboxEntry, TaskRecord, ReminderJob}
use lenko_bot.Reminder.Store.{
  Store, Body, transaction, is_current, profile_by_id, entry_by_id, task_by_id, job_by_id,
}

module _ {A : Type 0} (body : Body A) (st : Store) where
  pub transaction-ok :
      (a : A) (after : Store) → body st ≡ ok (a, after) → transaction body st ≡ (ok a, after)
  transaction-ok a after e = rw (e, transaction)

  pub transaction-err : (e : Error) → body st ≡ err e → transaction body st ≡ (err e, st)
  transaction-err e h = rw (h, transaction)

  pub transaction-eq-ok :
      (a : A) (after : Store) → transaction body st ≡ (ok a, after) → body st ≡ ok (a, after)
  transaction-eq-ok a after h = elim (Outcome-cases (body st)) [
    | inl ((b, mid), e) ↦ cc (rw (e, transaction) at h)
    | inr (bad, e) ↦ cc (rw (e, transaction) at h)
  ]

  -- A transaction that raises has rolled back.
  pub transaction-rolls_back :
      (e : Error) (after : Store) → transaction body st ≡ (err e, after) → after ≡ st
  transaction-rolls_back e after h = elim (Outcome-cases (body st)) [
    | inl ((b, mid), f) ↦ cc (rw (f, transaction) at h)
    | inr (bad, f) ↦ cc (rw (f, transaction) at h)
  ]

-- A row that a lookup by id returns has that id.
pub entry_by_id-id :
    (st : Store) (id : ℕ) (o : OutboxEntry) → entry_by_id st id ≡ some o → (o.id == id) ≡ true
unfolding entry_by_id
entry_by_id-id st id o h = find_sound (λ q. q.id == id) st.outbox o h

pub task_by_id-id :
    (st : Store) (id : ℕ) (t : TaskRecord) → task_by_id st id ≡ some t → (t.id == id) ≡ true
unfolding task_by_id
task_by_id-id st id t h = find_sound (λ q. q.id == id) st.tasks t h

pub job_by_id-id :
    (st : Store) (id : ℕ) (j : ReminderJob) → job_by_id st id ≡ some j → (j.id == id) ≡ true
unfolding job_by_id
job_by_id-id st id j h = find_sound (λ q. q.id == id) st.jobs j h

-- Whether an epoch is current depends on the profiles alone.
pub is_current-profiles :
    (st st' : Store) (user epoch : ℕ)
    → st'.profiles ≡ st.profiles
    → is_current st' user epoch ≡ is_current st user epoch
unfolding is_current profile_by_id
is_current-profiles st st' user epoch h =
    ap (λ (ps : List Profile). is_current (record st { profiles = ps }) user epoch) h

-- A property that the store has, and that the body's result has, is kept by the transaction.
module _ {κ} {A : Type 0} (P : Store → Type κ) (body : Body A) (st : Store) where
  pub transaction-keeps :
      P st
      → ((a : A) (after : Store) → body st ≡ ok (a, after) → P after)
      → P (transaction body st).1
  transaction-keeps before h = elim (Outcome-cases (body st)) [
    | inl ((a, after), e) ↦ rw (e, transaction) (h a after e)
    | inr (bad, e) ↦ rw (e, transaction) before
  ]
