-- ===== src/Reminder/Delivery.antt =====
-- The delivery outbox: `lease_delivery`, `delivery_is_current`, `mark_delivery_sent` and
-- `release_delivery`.
pub mod Lease
pub mod Exclusive
pub mod Sent
pub mod Retry
use lenko_bot.Prelude.{
  ℕ, zero, suc, ◌+◌, ◌*◌, List, [], ◌∷◌, ◌++◌, Bool, true, false, ◌&&◌, ◌||◌, not, ltb, leb, ◌==◌,
  if◌then◌else◌, Option, none, some, Outcome, ok, err, ◌>>=◌, ◌>>◌, or_raise, raise_if, value_error,
  runtime_error, type_error, out_of_fuel, any, length, is_some,
}
use lenko_bot.Prelude.Table.{find, update, select}
use lenko_bot.Text.{Text, text_eq}
use lenko_bot.Reminder.Types.{
  ReminderJob, ReminderRun, ReminderRunStatus, OutboxEntry, OutboxStatus, DeliveryLease,
  DeliveryAudit, LifecycleState,
}
use lenko_bot.Reminder.Store.{
  Store, Body, transaction, entry_by_id, profile_by_id, job_of_run, is_current, is_open_run,
  is_leased, is_pending, is_sent, is_equal, is_at_most, is_active_state, micros_per_second,
  max_delivery_attempts,
}

-- The WHERE clause of `lease_delivery`, with the joins that it makes.
unfoldable pub is_deliverable : Store → ℕ → OutboxEntry → Bool
is_deliverable st now o =
    ltb o.attempt max_delivery_attempts
    && leb o.available_at now
    && (is_pending o.status || (is_leased o.status && is_at_most o.lease_until now))
    && is_some (job_of_run st o.run_id)
    && is_current st o.owner_user_id o.lifecycle_epoch

-- `ORDER BY outbox.available_at ASC, outbox.id ASC LIMIT 1`
unfoldable pub earlier_of : OutboxEntry → Option OutboxEntry → OutboxEntry
earlier_of o none = o
earlier_of o (some p) =
    if ltb p.available_at o.available_at || (p.available_at == o.available_at && ltb p.id o.id)
    then p
    else o

unfoldable pub earliest : (OutboxEntry → Bool) → List OutboxEntry → Option OutboxEntry
unfolding earlier_of
earliest p [] = none
earliest p (o ∷ os) = if p o then some (earlier_of o (earliest p os)) else earliest p os

abbrev pub set_entry : ℕ → (OutboxEntry → OutboxEntry) → Store → Store
set_entry id f st = record st { outbox = update (λ o. o.id == id) f st.outbox }

abbrev pub set_open_run : ℕ → (ReminderRun → ReminderRun) → Store → Store
set_open_run id f st = record st {
  runs = update (λ r. r.id == id && is_open_run r.status) f st.runs;
}

abbrev pub set_run : ℕ → (ReminderRun → ReminderRun) → Store → Store
set_run id f st = record st { runs = update (λ r. r.id == id) f st.runs }

-- "grace_expired"
abbrev pub grace_expired : Text
grace_expired = 103 ∷ 114 ∷ 97 ∷ 99 ∷ 101 ∷ 95 ∷ 101 ∷ 120 ∷ 112 ∷ 105 ∷ 114 ∷ 101 ∷ 100 ∷ []

abbrev pub cancel_entry : ℕ → OutboxEntry → OutboxEntry
cancel_entry now o = record o {
  status = OutboxStatus.cancelled;
  lease_token = none;
  lease_until = none;
  updated_at = now;
}

abbrev pub miss_run : ℕ → ReminderRun → ReminderRun
miss_run now r = record r {
  status = ReminderRunStatus.missed;
  error_kind = some grace_expired;
  updated_at = now;
}

-- The entry's grace period is over: it is cancelled and its run missed.
unfoldable pub expire : OutboxEntry → ℕ → Store → Store
expire o now st = set_open_run o.run_id (miss_run now) (set_entry o.id (cancel_entry now) st)

abbrev pub lease_entry : ℕ → ℕ → ℕ → OutboxEntry → OutboxEntry
lease_entry now token until o = record o {
  status = OutboxStatus.leased;
  attempt = o.attempt + 1;
  lease_token = some token;
  lease_until = some until;
  error_kind = none;
  updated_at = now;
}

unfoldable pub claim : OutboxEntry → ℕ → ℕ → ℕ → Store → Store
claim o now token until st =
    set_open_run o.run_id
      (λ r. record r {
        status = ReminderRunStatus.claimed;
        claimed_at = some now;
        updated_at = now;
      })
      (set_entry o.id (lease_entry now token until) st)

-- `_lease_from_row` on the leased row and its job.
unfoldable pub lease_from_row : OutboxEntry → ReminderJob → ℕ → ℕ → DeliveryLease
lease_from_row o job token until = record {
  outbox_id = o.id;
  run_id = o.run_id;
  task_id = job.task_id;
  owner_user_id = o.owner_user_id;
  lifecycle_epoch = o.lifecycle_epoch;
  chat_id = o.chat_id;
  text = o.text;
  scheduled_for = o.scheduled_for;
  attempt = o.attempt + 1;
  lease_token = token;
  lease_until = until;
}

-- The `while True` of `lease_delivery`. Each round but the last cancels an entry, so as many rounds as
-- there are entries, and one more, are enough. The rounds use one token: only the last one takes it.
unfoldable pub lease_loop : ℕ → ℕ → ℕ → ℕ → Body (Option DeliveryLease)
unfolding expire claim lease_from_row
lease_loop zero now token until st = err out_of_fuel
lease_loop (suc fuel) now token until st = elim (earliest (is_deliverable st now) st.outbox) [
  | none ↦ ok (none, st)
  | some o ↦ elim (job_of_run st o.run_id) [
    | none ↦ err runtime_error
    | some job ↦ elim (ltb (o.scheduled_for + job.grace_seconds * micros_per_second) now) [
      | true ↦ lease_loop fuel now token until (expire o now st)
      | false ↦ ok (some (lease_from_row o job token until), claim o now token until st)
    ]
  ]
]

unfoldable pub lease_delivery : ℕ → ℕ → ℕ → Store → Outcome (Option DeliveryLease) × Store
unfolding lease_loop
lease_delivery seconds now token st =
    if ltb seconds 1 || ltb 3600 seconds
    then (err value_error, st)
    else transaction
        (lease_loop (suc (length st.outbox)) now token (now + seconds * micros_per_second)) st

-- The WHERE clause of `delivery_is_current`.
unfoldable pub is_row_of : DeliveryLease → Store → OutboxEntry → Bool
is_row_of lease st o =
    o.id == lease.outbox_id
    && o.owner_user_id == lease.owner_user_id
    && o.lifecycle_epoch == lease.lifecycle_epoch
    && is_equal o.lease_token lease.lease_token
    && is_leased o.status
    && is_current st o.owner_user_id o.lifecycle_epoch

unfoldable pub delivery_is_current : DeliveryLease → Store → Bool
unfolding is_row_of
delivery_is_current lease st = any (is_row_of lease st) st.outbox

-- `_record_external_commit`: INSERT OR IGNORE, by the unique delivery token.
unfoldable pub record_external_commit : DeliveryLease → ℕ → Store → Store
record_external_commit lease now st =
    if any (λ a. a.delivery_token == lease.lease_token) st.audits then st else record st {
      audits =
          st.audits
          ++ record {
            owner_user_id = lease.owner_user_id;
            lifecycle_epoch = lease.lifecycle_epoch;
            delivery_token = lease.lease_token;
            created_at = now;
          }
            ∷ [];
    }

-- Whether the entry and the owner's profile are still those of the lease.
unfoldable pub holds_lease : DeliveryLease → Store → OutboxEntry → Bool
holds_lease lease st o =
    o.owner_user_id == lease.owner_user_id
    && o.lifecycle_epoch == lease.lifecycle_epoch
    && is_equal o.lease_token lease.lease_token
    && is_current st lease.owner_user_id lease.lifecycle_epoch

unfoldable pub commit_sent : DeliveryLease → ℕ → ℕ → Store → Store
commit_sent lease message_id now st = record st {
  outbox =
      update
        (λ o.
          o.id == lease.outbox_id && is_equal o.lease_token lease.lease_token && is_leased o.status)
        (λ o. record o {
          status = OutboxStatus.sent;
          telegram_message_id = some message_id;
          lease_until = none;
          updated_at = now;
        })
        st.outbox;
  runs =
      update (λ r. r.id == lease.run_id)
        (λ r. record r {
          status = ReminderRunStatus.delivered;
          delivered_at = some now;
          updated_at = now;
        })
        st.runs;
}

-- A delivery that was committed before: `int(row["telegram_message_id"]) != telegram_message_id`.
unfoldable pub confirm_sent : Option ℕ → ℕ → Body Bool
confirm_sent none message_id st = err type_error
confirm_sent (some m) message_id st = if m == message_id then ok (true, st) else err runtime_error

unfoldable pub mark_held : DeliveryLease → ℕ → ℕ → OutboxEntry → OutboxStatus → Body Bool
unfolding commit_sent confirm_sent record_external_commit
mark_held lease message_id now o OutboxStatus.sent st =
    confirm_sent o.telegram_message_id message_id st
mark_held lease message_id now o OutboxStatus.leased st =
    ok (true, commit_sent lease message_id now st)
mark_held lease message_id now o s st = ok (false, record_external_commit lease now st)

unfoldable pub mark_body : DeliveryLease → ℕ → ℕ → Body Bool
unfolding holds_lease mark_held record_external_commit
mark_body lease message_id now st = elim (entry_by_id st lease.outbox_id) [
  | none ↦ ok (false, record_external_commit lease now st)
  | some o ↦
      if holds_lease lease st o
      then mark_held lease message_id now o o.status st
      else ok (false, record_external_commit lease now st)
]

unfoldable pub mark_delivery_sent : DeliveryLease → ℕ → ℕ → Store → Outcome Bool × Store
unfolding mark_body
mark_delivery_sent lease message_id now st =
    if message_id == 0
    then (err value_error, st)
    else transaction (mark_body lease message_id now) st

-- `_ERROR_KIND`: `[a-z][a-z0-9_]{0,99}`.
abbrev pub is_lower : ℕ → Bool
is_lower c = leb 97 c && leb c 122

unfoldable pub is_kind_char : ℕ → Bool
is_kind_char c = is_lower c || (leb 48 c && leb c 57) || c == 95

unfoldable pub all_kind_chars : Text → Bool
unfolding is_kind_char
all_kind_chars [] = true
all_kind_chars (c ∷ t) = is_kind_char c && all_kind_chars t

unfoldable pub is_error_kind : Text → Bool
unfolding all_kind_chars
is_error_kind [] = false
is_error_kind (c ∷ t) = is_lower c && all_kind_chars t && leb (length t) 99

-- The entry and its run after a failed attempt: for good after the last one, else to be tried again.
unfoldable pub give_back : DeliveryLease → Text → ℕ → ℕ → OutboxEntry → Store → Store
give_back lease kind retry_at now row st =
    let terminal = leb max_delivery_attempts row.attempt in
    set_run lease.run_id
      (λ r. record r {
        status = if terminal then ReminderRunStatus.failed else ReminderRunStatus.due;
        error_kind = some kind;
        updated_at = now;
      })
      (set_entry lease.outbox_id
        (λ o. record o {
          status = if terminal then OutboxStatus.failed else OutboxStatus.pending;
          available_at = if terminal then row.available_at else retry_at;
          lease_token = none;
          lease_until = none;
          error_kind = some kind;
          updated_at = now;
        })
        st)

-- The SELECT of `release_delivery`: the leased entry of this lease.
unfoldable pub leased_row : DeliveryLease → Store → Option OutboxEntry
leased_row lease st =
    find
      (λ o.
        o.id == lease.outbox_id && is_equal o.lease_token lease.lease_token && is_leased o.status)
      st.outbox

unfoldable pub release_body : DeliveryLease → Text → ℕ → ℕ → Body Bool
unfolding leased_row give_back
release_body lease kind retry_at now st = elim (leased_row lease st) [
  | none ↦ ok (false, st)
  | some row ↦
      if is_current st row.owner_user_id lease.lifecycle_epoch
      then ok (true, give_back lease kind retry_at now row st)
      else ok (false, st)
]

unfoldable pub release_delivery : DeliveryLease → Text → ℕ → ℕ → Store → Outcome Bool × Store
unfolding release_body
release_delivery lease kind delay now st =
    if not (is_error_kind kind)
    then (err value_error, st)
    else if ltb delay 1 || ltb 3600 delay
    then (err value_error, st)
    else transaction (release_body lease kind (now + delay * micros_per_second) now) st
