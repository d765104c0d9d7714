-- ===== src/Reminder/Invariant/Entry.antt =====
-- A well-formed outbox entry, and what each kind of UPDATE does to it.
use lenko_bot.Prelude.{
  ℕ, ◌≤◌, ◌<◌, ◌≡◌, refl, false, ◌&&◌, not, arith, none, some, is_some, leb, if◌then◌else◌,
}
use lenko_bot.Text.{Text}
use lenko_bot.Reminder.Types.{OutboxEntry, OutboxStatus}
use lenko_bot.Reminder.Store.{is_leased, is_pending, is_sent, max_delivery_attempts}
use lenko_bot.Reminder.Delivery.{cancel_entry, lease_entry}
use lenko_bot.Reminder.Task.{withdraw}

-- An entry is attempted three times at most, and a pending one has an attempt left; a leased one has a
-- token and an end, and no other has an end; a sent one has its message id, and no other has one.
pub record IsSound (o : OutboxEntry) : Type 0 where
  pub attempts : o.attempt ≤ 3
  pub pending : (is_pending o.status && leb 3 o.attempt) ≡ false
  pub leased : is_leased o.status ≡ is_some o.lease_until
  pub token : (is_leased o.status && not (is_some o.lease_token)) ≡ false
  pub sent : is_sent o.status ≡ is_some o.telegram_message_id

pub cancel_entry-IsSound :
    (now : ℕ) (o : OutboxEntry)
    → is_sent o.status ≡ false
    → IsSound o
    → IsSound (cancel_entry now o)
cancel_entry-IsSound now o s v = record {
  attempts = v.attempts;
  pending = refl;
  leased = refl;
  token = refl;
  sent = ground arith;
}

pub withdraw-IsSound :
    (now : ℕ) (o : OutboxEntry) → is_sent o.status ≡ false → IsSound o → IsSound (withdraw now o)
withdraw-IsSound now o s v = record {
  attempts = v.attempts;
  pending = refl;
  leased = refl;
  token = refl;
  sent = ground arith;
}

pub lease_entry-IsSound :
    (now token until : ℕ) (o : OutboxEntry)
    → is_sent o.status ≡ false
    → o.attempt < 3
    → IsSound o
    → IsSound (lease_entry now token until o)
lease_entry-IsSound now token until o s a v = record {
  attempts = omega arith;
  pending = refl;
  leased = refl;
  token = refl;
  sent = ground arith;
}

abbrev pub give_back_entry : OutboxEntry → Text → ℕ → ℕ → OutboxEntry → OutboxEntry
give_back_entry row kind retry_at now o =
    let terminal = leb max_delivery_attempts row.attempt in
    record o {
      status = if terminal then OutboxStatus.failed else OutboxStatus.pending;
      available_at = if terminal then row.available_at else retry_at;
      lease_token = none;
      lease_until = none;
      error_kind = some kind;
      updated_at = now;
    }

pub give_back_entry-IsSound :
    (row : OutboxEntry) (kind : Text) (retry_at now : ℕ) (o : OutboxEntry)
    → is_sent o.status ≡ false
    → o.attempt ≡ row.attempt
    → IsSound o
    → IsSound (give_back_entry row kind retry_at now o)
give_back_entry-IsSound row kind retry_at now o s a v = record {
  attempts = v.attempts;
  pending = ground arith;
  leased = ground arith;
  token = ground arith;
  sent = ground arith;
}

abbrev pub commit_entry : ℕ → ℕ → OutboxEntry → OutboxEntry
commit_entry message_id now o = record o {
  status = OutboxStatus.sent;
  telegram_message_id = some message_id;
  lease_until = none;
  updated_at = now;
}

pub commit_entry-IsSound :
    (message_id now : ℕ) (o : OutboxEntry) → IsSound o → IsSound (commit_entry message_id now o)
commit_entry-IsSound message_id now o v = record {
  attempts = v.attempts;
  pending = refl;
  leased = refl;
  token = refl;
  sent = refl;
}
