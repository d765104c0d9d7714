-- ===== src/Reminder/Delivery/Lease.antt =====
-- What `lease_delivery` hands out.
use lenko_bot.Prelude.{
  ℕ, zero, suc, ◌+◌, ◌*◌, ◌≤◌, ◌<◌, ◌≡◌, refl, ◌∙◌, ap, List, [], ◌∷◌, Bool, true, false, ◌&&◌,
  ◌||◌, inl, inr, arith, ◌⊎◌, All, Option, none, some, ok, length, Bool-cases, Option-cases,
  is_some, ltb, ◌==◌,
}
use lenko_bot.Prelude.Table.{find, update, count_where, update-All}
use lenko_bot.Reminder.Types.{OutboxEntry, DeliveryLease, ReminderJob, ReminderRun}
use lenko_bot.Reminder.Store.{
  Store, job_of_run, run_by_id, job_by_id, is_open_run, is_current, is_open_entry,
  micros_per_second,
}
use lenko_bot.Reminder.Store.Laws.{transaction-ok, transaction-eq-ok}
use lenko_bot.Reminder.Delivery.{
  is_deliverable, earliest, expire, claim, lease_loop, lease_from_row, cancel_entry, miss_run,
  lease_delivery,
}

pub is_deliverable-open :
    (st : Store) (now : ℕ) (o : OutboxEntry)
    → is_deliverable st now o ≡ true
    → (is_open_entry o.status ≡ true)
      × (o.attempt < 3)
      × (o.available_at ≤ now)
      × (is_current st o.owner_user_id o.lifecycle_epoch ≡ true)
      × (is_some (job_of_run st o.run_id) ≡ true)
unfolding is_deliverable
is_deliverable-open st now o h = ground arith

pub earliest_sound :
    (p : OutboxEntry → Bool) (os : List OutboxEntry) (o : OutboxEntry)
    → earliest p os ≡ some o
    → p o ≡ true
unfolding earliest
earliest_sound p [] o h = cc
earliest_sound p (q ∷ os) o h = ground (arith, earliest_sound p os o, earliest_sound p os)

-- The entries that are pending or leased.
abbrev pub open_count : List OutboxEntry → ℕ
open_count = count_where (λ o. is_open_entry o.status)

count_where-update_le :
    (id now : ℕ) (os : List OutboxEntry)
    → open_count (update (λ o. o.id == id) (cancel_entry now) os) ≤ open_count os
unfolding count_where update
count_where-update_le id now [] = omega arith
count_where-update_le id now (o ∷ os) = ground (arith, count_where-update_le id now os)

pub head_or_rest :
    (p : OutboxEntry → Bool) (q : OutboxEntry) (os : List OutboxEntry) (o : OutboxEntry)
    → earliest p (q ∷ os) ≡ some o
    → (q ≡ o) ⊎ (earliest p os ≡ some o)
unfolding earliest
head_or_rest p q os o h = ground arith

head_drops :
    (id now : ℕ) (q : OutboxEntry) (os : List OutboxEntry)
    → q.id ≡ id
    → is_open_entry q.status ≡ true
    → open_count (update (λ o. o.id == id) (cancel_entry now) (q ∷ os)) + 1 ≤ open_count (q ∷ os)
unfolding count_where update
head_drops id now q os e h = ground (arith, count_where-update_le id now os)

rest_drops :
    (id now : ℕ) (q : OutboxEntry) (os : List OutboxEntry)
    → open_count (update (λ o. o.id == id) (cancel_entry now) os) + 1 ≤ open_count os
    → open_count (update (λ o. o.id == id) (cancel_entry now) (q ∷ os)) + 1 ≤ open_count (q ∷ os)
unfolding count_where update
rest_drops id now q os h = ground arith

pub cancel_drops :
    (p : OutboxEntry → Bool) (now : ℕ) (os : List OutboxEntry) (o : OutboxEntry)
    → earliest p os ≡ some o
    → is_open_entry o.status ≡ true
    → open_count (update (λ q. q.id == o.id) (cancel_entry now) os) + 1 ≤ open_count os
unfolding earliest
cancel_drops p now [] o h open_ = cc
cancel_drops p now (q ∷ os) o h open_ = elim (head_or_rest p q os o h) [
  | inl e ↦ head_drops o.id now q os (ap (λ (r : OutboxEntry). r.id) e) (rw e open_)
  | inr e ↦ rest_drops o.id now q os (cancel_drops p now os o e open_)
]

pub earliest-In :
    (P : OutboxEntry → Type 0) (p : OutboxEntry → Bool) (os : List OutboxEntry) (o : OutboxEntry)
    → All P os
    → earliest p os ≡ some o
    → P o
unfolding earliest
earliest-In P p [] o w h = cc
earliest-In P p (q ∷ os) o w h = elim (head_or_rest p q os o h) [
  | inl e ↦ rw (← e) w.0
  | inr e ↦ earliest-In P p os o w.1 e
]

-- What the last round of the loop met, given that all entries had a property Q that cancelling keeps.
pub record Handed (Q : OutboxEntry → Type 0) (now token until : ℕ) (before : Store)
    (lease : DeliveryLease) (after : Store) : Type 0 where
  pub mid : Store
  pub row : OutboxEntry
  pub job : ReminderJob
  pub all : All Q mid.outbox
  pub kept : mid.profiles ≡ before.profiles
  pub joins : (run_id : ℕ) → job_of_run mid run_id ≡ job_of_run before run_id
  pub picked : earliest (is_deliverable mid now) mid.outbox ≡ some row
  pub joined : job_of_run mid row.run_id ≡ some job
  pub in_time : now ≤ row.scheduled_for + job.grace_seconds * micros_per_second
  pub lease_is : lease ≡ lease_from_row row job token until
  pub after_is : after ≡ claim row now token until mid

abbrev late : OutboxEntry → ReminderJob → ℕ → Bool
late o job now = ltb (o.scheduled_for + job.grace_seconds * micros_per_second) now

-- What the rest of a round does.
abbrev Goes : ℕ → ℕ → ℕ → ℕ → Store → DeliveryLease → Store → OutboxEntry → ReminderJob → Type 0
Goes fuel now token until st lease after o job =
    (lease_loop fuel now token until (expire o now st) ≡ ok (some lease, after))
    ⊎ ((late o job now ≡ false)
        × (lease ≡ lease_from_row o job token until)
        × (after ≡ claim o now token until st))

out_of_rounds :
    (now token until : ℕ) (st : Store) (r : Option DeliveryLease × Store)
    → ¬ (lease_loop zero now token until st ≡ ok r)
unfolding lease_loop
out_of_rounds now token until st r h = cc

lease_loop-round :
    (fuel now token until : ℕ) (st : Store) (lease : DeliveryLease) (after : Store)
    → lease_loop (suc fuel) now token until st ≡ ok (some lease, after)
    → (o : OutboxEntry) × (job : ReminderJob) × (earliest (is_deliverable st now) st.outbox
        ≡ some o)
      × (job_of_run st o.run_id ≡ some job)
      × Goes fuel now token until st lease after o job
unfolding lease_loop
lease_loop-round fuel now token until st lease after h =
    elim (Option-cases (earliest (is_deliverable st now) st.outbox)) [
      | inl e ↦ cc (rw (e, lease_loop) at h)
      | inr (o, e) ↦ elim (Option-cases (job_of_run st o.run_id)) [
        | inl f ↦ cc (rw (e, f, lease_loop) at h)
        | inr (job, f) ↦ (
          o,
          job,
          e,
          f,
          elim (Bool-cases (late o job now)) [
            | inl l ↦ inl (rw (e, f, l, lease_loop) at h)
            | inr l ↦
                inr (l, cc (rw (e, f, l, lease_loop) at h), cc (rw (e, f, l, lease_loop) at h))
          ],
        )
      ]
    ]

-- What one round does, whatever the loop returns.
abbrev Rounds : ℕ → ℕ → ℕ → ℕ → Store → Option DeliveryLease → Store → Type 0
Rounds fuel now token until st r after =
    (after ≡ st)
    ⊎ ((o : OutboxEntry) × (earliest (is_deliverable st now) st.outbox ≡ some o)
        × ((lease_loop fuel now token until (expire o now st) ≡ ok (r, after))
            ⊎ (after ≡ claim o now token until st)))

lease_loop-Rounds :
    (fuel now token until : ℕ) (st : Store) (r : Option DeliveryLease) (after : Store)
    → lease_loop (suc fuel) now token until st ≡ ok (r, after)
    → Rounds fuel now token until st r after
unfolding lease_loop
lease_loop-Rounds fuel now token until st r after h =
    elim (Option-cases (earliest (is_deliverable st now) st.outbox)) [
      | inl e ↦ inl (cc (rw (e, lease_loop) at h))
      | inr (o, e) ↦ elim (Option-cases (job_of_run st o.run_id)) [
        | inl f ↦ cc (rw (e, f, lease_loop) at h)
        | inr (job, f) ↦ inr (
          o,
          e,
          elim (Bool-cases (late o job now)) [
            | inl l ↦ inl (rw (e, f, l, lease_loop) at h)
            | inr l ↦ inr (cc (rw (e, f, l, lease_loop) at h))
          ],
        )
      ]
    ]

-- What expiring and claiming the entry that is picked keep, the loop keeps.
pub lease_loop-keeps :
    (P : Store → Type 0) (fuel now token until : ℕ) (st : Store) (r : Option DeliveryLease)
    (after : Store)
    → ((s : Store) (o : OutboxEntry)
        → P s
        → earliest (is_deliverable s now) s.outbox ≡ some o
        → P (expire o now s))
    → ((s : Store) (o : OutboxEntry)
        → P s
        → earliest (is_deliverable s now) s.outbox ≡ some o
        → P (claim o now token until s))
    → P st
    → lease_loop fuel now token until st ≡ ok (r, after)
    → P after
lease_loop-keeps P zero now token until st r after x c v h =
    absurd (out_of_rounds now token until st (r, after) h)
lease_loop-keeps P (suc fuel) now token until st r after x c v h =
    elim (lease_loop-Rounds fuel now token until st r after h) [
      | inl same ↦ rw same v
      | inr (o, e, inl next) ↦
          lease_loop-keeps P fuel now token until (expire o now st) r after x c (x st o v e) next
      | inr (o, e, inr made) ↦ rw made (c st o v e)
    ]

-- A run keeps its job when an entry expires.
abbrev job_of : Store → Option ReminderRun → Option ReminderJob
job_of st r = elim r [ none ↦ none | some run ↦ job_by_id st run.job_id ]

run_of :
    (id run_id now : ℕ) (rs : List ReminderRun) (st : Store)
    → job_of st (
        find
          (λ r. r.id == id)
          (update (λ r. r.id == run_id && is_open_run r.status) (miss_run now) rs))
      ≡ job_of st (find (λ r. r.id == id) rs)
unfolding find update
run_of id run_id now [] st = refl
run_of id run_id now (r ∷ rs) st = ground (arith, run_of id run_id now rs st)

job_of_run-expire :
    (o : OutboxEntry) (now : ℕ) (st : Store) (run_id : ℕ)
    → job_of_run (expire o now st) run_id ≡ job_of_run st run_id
unfolding job_of_run run_by_id expire job_by_id
job_of_run-expire o now st run_id = run_of run_id o.run_id now st.runs st

module _ (Q : OutboxEntry → Type 0) (now token until : ℕ)
    (cancel_keeps : (o : OutboxEntry) → Q o → Q (cancel_entry now o)) where
  expire-All : (o : OutboxEntry) (st : Store) → All Q st.outbox → All Q (expire o now st).outbox
  unfolding expire
  expire-All o st w =
      update-All Q (λ q. q.id == o.id) (cancel_entry now) (λ q _ h. cancel_keeps q h) st.outbox w

  Handed-expire :
      (o : OutboxEntry) (st : Store) (lease : DeliveryLease) (after : Store)
      → Handed Q now token until (expire o now st) lease after
      → Handed Q now token until st lease after
  unfolding expire
  Handed-expire o st lease after w = record {
    mid = w.mid;
    row = w.row;
    job = w.job;
    all = w.all;
    kept = w.kept;
    joins = λ run_id. w.joins run_id ∙ job_of_run-expire o now st run_id;
    picked = w.picked;
    joined = w.joined;
    in_time = w.in_time;
    lease_is = w.lease_is;
    after_is = w.after_is;
  }

  pub lease_loop-Handed :
      (fuel : ℕ) (st : Store) (lease : DeliveryLease) (after : Store)
      → All Q st.outbox
      → lease_loop fuel now token until st ≡ ok (some lease, after)
      → Handed Q now token until st lease after
  lease_loop-Handed zero st lease after w h =
      absurd (out_of_rounds now token until st (some lease, after) h)
  lease_loop-Handed (suc fuel) st lease after w h =
      let (o, job, e, f, goes) = lease_loop-round fuel now token until st lease after h in
      elim goes [
        | inl next ↦
            Handed-expire o st lease after
              (lease_loop-Handed fuel (expire o now st) lease after (expire-All o st w) next)
        | inr (l, lease_is, after_is) ↦ record {
          mid = st;
          row = o;
          job = job;
          all = w;
          kept = refl;
          joins = λ run_id. refl;
          picked = e;
          joined = f;
          in_time = ground arith;
          lease_is = lease_is;
          after_is = after_is;
        }
      ]

some_of_is_some : {A : Type 0} (o : Option A) → is_some o ≡ true → (a : A) × (o ≡ some a)
some_of_is_some none h = cc
some_of_is_some (some a) h = (a, refl)

open_count-length : (os : List OutboxEntry) → open_count os ≤ length os
unfolding count_where
open_count-length [] = omega arith
open_count-length (o ∷ os) = ground (arith, open_count-length os)

-- The loop ends with a result within as many rounds as there are open entries, and one more.
pub lease_loop-total :
    (fuel now token until : ℕ) (st : Store)
    → open_count st.outbox < fuel
    → (r : Option DeliveryLease × Store) × (lease_loop fuel now token until st ≡ ok r)
unfolding lease_loop
lease_loop-total zero now token until st h = absurd (omega arith)
lease_loop-total (suc fuel) now token until st h =
    elim (Option-cases (earliest (is_deliverable st now) st.outbox)) [
      | inl e ↦ ((none, st), rw (e, lease_loop))
      | inr (o, e) ↦
          let fits =
            is_deliverable-open st now o (earliest_sound (is_deliverable st now) st.outbox o e) in
          let drops = cancel_drops (is_deliverable st now) now st.outbox o e fits.0 in
          let (job, f) = some_of_is_some (job_of_run st o.run_id) fits.4 in
          elim (Bool-cases (ltb (o.scheduled_for + job.grace_seconds * micros_per_second) now)) [
            | inl late ↦
                let (r, ends) =
                  lease_loop-total fuel now token until (expire o now st)
                    (fewer o st fuel drops h) in
                (r, rw (e, lease_loop, f, late) ends)
            | inr early ↦ (
              (some (lease_from_row o job token until), claim o now token until st),
              rw (e, lease_loop, f, early),
            )
          ]
    ]
  where
    fewer :
        (o : OutboxEntry) (st : Store) (fuel : ℕ)
        → open_count (update (λ q. q.id == o.id) (cancel_entry now) st.outbox) + 1
          ≤ open_count st.outbox
        → open_count st.outbox < suc fuel
        → open_count (expire o now st).outbox < fuel
    fewer o st fuel drops h = omega arith

-- `lease_delivery` with a valid duration always returns: its loop never runs out of rounds.
pub lease_delivery-total :
    (seconds now token : ℕ) (st : Store)
    → 1 ≤ seconds
    → seconds ≤ 3600
    → (r : Option DeliveryLease) × (after : Store) × (lease_delivery seconds now token st
        ≡ (ok r, after))
unfolding lease_delivery
lease_delivery-total seconds now token st low high =
    let until : ℕ = now + seconds * micros_per_second in
    let ((r, after), e) =
      lease_loop-total (suc (length st.outbox)) now token until st
        (omega (arith, open_count-length st.outbox)) in
    let in_range : (ltb seconds 1 || ltb 3600 seconds) ≡ false = ground arith in
    (
      r,
      after,
      rw (in_range, lease_delivery)
          (transaction-ok (lease_loop (suc (length st.outbox)) now token until) st r after e),
    )

module _ (Q : OutboxEntry → Type 0) (seconds now token : ℕ)
    (cancel_keeps : (o : OutboxEntry) → Q o → Q (cancel_entry now o)) where
  pub lease_delivery-Handed :
      (st : Store) (lease : DeliveryLease) (after : Store)
      → All Q st.outbox
      → lease_delivery seconds now token st ≡ (ok (some lease), after)
      → Handed Q now token (now + seconds * micros_per_second) st lease after
  unfolding lease_delivery
  lease_delivery-Handed st lease after w h = elim (Bool-cases (ltb seconds 1 || ltb 3600 seconds)) [
    | inl bad ↦ cc (rw (bad, lease_delivery) at h)
    | inr fine ↦
        lease_loop-Handed Q now token (now + seconds * micros_per_second) cancel_keeps
          (suc (length st.outbox)) st lease after w
          (transaction-eq-ok
            (lease_loop (suc (length st.outbox)) now token (now + seconds * micros_per_second)) st
            (some lease) after (rw (fine, lease_delivery) at h))
  ]
