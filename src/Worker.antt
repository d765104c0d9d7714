-- ===== src/Worker.antt =====
-- src/lenkobot/reminder_worker.py: one round of the delivery worker. The Telegram port is a parameter:
-- what the send of a reminder gives. Other coroutines run while it waits, so the store in which the
-- round goes on is an argument. So are the readings of the clock and the random tokens.
pub mod Deliver
use lenko_bot.Prelude.{
  ℕ, List, [], ◌∷◌, ◌++◌, Bool, true, false, ◌&&◌, ◌||◌, not, ltb, ◌==◌, if◌then◌else◌, Option,
  none, some, Outcome, ok, err, ◌>>=◌, any, value_error,
}
use lenko_bot.Text.{Text}
use lenko_bot.Callback.{confirmation_callback_data, confirm_action}
use lenko_bot.Confirmation.{ConfirmationRow, Digest, create}
use lenko_bot.Schedule.Zone.{ZoneDatabase}
use lenko_bot.Reminder.Types.{DeliveryLease, ReminderRun}
use lenko_bot.Reminder.Store.{Store}
use lenko_bot.Reminder.Due.{materialize_due}
use lenko_bot.Reminder.Delivery.{
  lease_delivery, delivery_is_current, mark_delivery_sent, release_delivery,
}

-- What `port.send` gives: it raises, it gives a handle, or something that is no handle.
pub data Sent : Type 0 where
  failed no_handle : Sent
  handle : (chat_id message_id : ℕ) → Sent

-- What the worker finds for a round: no lease, a lease that is not to be sent, or one that is.
pub data Pick : Type 0 where
  idle skipped : Pick
  sending : DeliveryLease → Pick

-- "telegram_unavailable"
abbrev pub telegram_unavailable : Text
telegram_unavailable =
    116 ∷ 101 ∷ 108 ∷ 101 ∷ 103 ∷ 114 ∷ 97 ∷ 109 ∷ 95 ∷ 117 ∷ 110 ∷ 97 ∷ 118 ∷ 97 ∷ 105 ∷ 108 ∷ 97
    ∷ 98 ∷ 108 ∷ 101 ∷ []

-- `(owner_user_id, lifecycle_epoch) in self._quiesced_epochs`
unfoldable pub is_quiesced : List (ℕ × ℕ) → DeliveryLease → Bool
is_quiesced epochs lease =
    any (λ e. e.0 == lease.owner_user_id && e.1 == lease.lifecycle_epoch) epochs

unfoldable pub quiesce : ℕ → ℕ → List (ℕ × ℕ) → List (ℕ × ℕ)
quiesce owner epoch epochs =
    if any (λ e. e.0 == owner && e.1 == epoch) epochs then epochs else epochs ++ (owner, epoch) ∷ []

-- `ReminderScheduler.run_once`
abbrev pub schedule_once : ZoneDatabase → ℕ → ℕ → Store → Outcome (List ReminderRun) × Store
schedule_once = materialize_due

unfoldable pub pick_of : List (ℕ × ℕ) → Option DeliveryLease → Store → Pick
unfolding is_quiesced
pick_of epochs none st = idle
pick_of epochs (some lease) st =
    if is_quiesced epochs lease || not (delivery_is_current lease st)
    then skipped
    else sending lease

-- The first part of `run_once`, up to the send, with the store's lease time of 60 seconds.
unfoldable pub pick : List (ℕ × ℕ) → ℕ → ℕ → Store → Outcome Pick × Store
unfolding pick_of
pick epochs now token st = elim (lease_delivery 60 now token st).0 [
  | err e ↦ (err e, (lease_delivery 60 now token st).1)
  | ok lease ↦ (
    ok (pick_of epochs lease (lease_delivery 60 now token st).1),
    (lease_delivery 60 now token st).1,
  )
]

-- The payload of a button's action; `delay_seconds` is there for a snooze only.
pub record ReminderPayload : Type 0 where
  pub task_id : ℕ
  pub delay_seconds : Option ℕ

pub record Button : Type 0 where
  pub label : Text
  pub callback_data : Text

-- A label, an action type and its payload, with the random token and the time that the request of its
-- confirmation takes.
pub record ButtonRequest : Type 0 where
  pub label : Text
  pub action_type : Text
  pub payload : ReminderPayload
  pub token : Text
  pub now : ℕ

-- `_action_buttons`: an action whose request or callback data raises gets no button.
unfoldable pub action_buttons :
    Digest
    → (ReminderPayload → Text)
    → ℕ
    → ℕ
    → List ButtonRequest
    → List ConfirmationRow
    → List Button × List ConfirmationRow
action_buttons digest dumps ttl owner [] rows = ([], rows)
action_buttons digest dumps ttl owner (q ∷ qs) rows =
    let made = create digest dumps owner q.action_type q.payload q.token ttl q.now rows in
    let rest = action_buttons digest dumps ttl owner qs made.1 in
    elim (do token ← made.0; confirmation_callback_data confirm_action token) [
      | err e ↦ rest
      | ok text ↦ (record { label = q.label; callback_data = text } ∷ rest.0, rest.1)
    ]

-- "Через 10 минут"
abbrev pub snooze_label : Text
snooze_label =
    1063 ∷ 1077 ∷ 1088 ∷ 1077 ∷ 1079 ∷ 32 ∷ 49 ∷ 48 ∷ 32 ∷ 1084 ∷ 1080 ∷ 1085 ∷ 1091 ∷ 1090 ∷ []

-- "Готово"
abbrev pub complete_label : Text
complete_label = 1043 ∷ 1086 ∷ 1090 ∷ 1086 ∷ 1074 ∷ 1086 ∷ []

-- "Отменить"
abbrev pub cancel_label : Text
cancel_label = 1054 ∷ 1090 ∷ 1084 ∷ 1077 ∷ 1085 ∷ 1080 ∷ 1090 ∷ 1100 ∷ []

-- "snooze_reminder"
abbrev pub snooze_reminder : Text
snooze_reminder =
    115 ∷ 110 ∷ 111 ∷ 111 ∷ 122 ∷ 101 ∷ 95 ∷ 114 ∷ 101 ∷ 109 ∷ 105 ∷ 110 ∷ 100 ∷ 101 ∷ 114 ∷ []

-- "complete_reminder"
abbrev pub complete_reminder : Text
complete_reminder =
    99 ∷ 111 ∷ 109 ∷ 112 ∷ 108 ∷ 101 ∷ 116 ∷ 101 ∷ 95 ∷ 114 ∷ 101 ∷ 109 ∷ 105 ∷ 110 ∷ 100 ∷ 101
    ∷ 114 ∷ []

-- "cancel_reminder"
abbrev pub cancel_reminder : Text
cancel_reminder =
    99 ∷ 97 ∷ 110 ∷ 99 ∷ 101 ∷ 108 ∷ 95 ∷ 114 ∷ 101 ∷ 109 ∷ 105 ∷ 110 ∷ 100 ∷ 101 ∷ 114 ∷ []

-- A random token and the reading of the clock that goes with it.
pub record Draw : Type 0 where
  pub token : Text
  pub now : ℕ

pub record Draws : Type 0 where
  pub snooze : Draw
  pub complete : Draw
  pub cancel : Draw

-- The `actions` of `_action_buttons`, in their order.
unfoldable pub requests_of : Draws → DeliveryLease → List ButtonRequest
requests_of draws lease =
    record {
      label = snooze_label;
      action_type = snooze_reminder;
      payload = record { task_id = lease.task_id; delay_seconds = some 600 };
      token = (draws.snooze).token;
      now = (draws.snooze).now;
    }
    ∷ record {
      label = complete_label;
      action_type = complete_reminder;
      payload = record { task_id = lease.task_id; delay_seconds = none };
      token = (draws.complete).token;
      now = (draws.complete).now;
    }
    ∷ record {
      label = cancel_label;
      action_type = cancel_reminder;
      payload = record { task_id = lease.task_id; delay_seconds = none };
      token = (draws.cancel).token;
      now = (draws.cancel).now;
    }
    ∷ []

-- What the worker holds: its delay of a retry, and the confirmation store's parameters.
pub record Setup : Type 0 where
  pub retry_delay_seconds : ℕ
  pub digest : Digest
  pub dumps : ReminderPayload → Text
  pub ttl : ℕ

-- The tables that a round changes.
pub record Tables : Type 0 where
  pub store : Store
  pub confirmations : List ConfirmationRow

-- The buttons of the lease's reminder, and the confirmations with those that they ask for.
unfoldable pub buttons_of :
    Setup → Draws → DeliveryLease → List ConfirmationRow → List Button × List ConfirmationRow
unfolding action_buttons requests_of
buttons_of setup draws lease rows =
    action_buttons setup.digest setup.dumps setup.ttl lease.owner_user_id (requests_of draws lease)
      rows

-- Whether the send gave a handle of the lease's chat.
unfoldable pub message_of : DeliveryLease → Sent → Option ℕ
message_of lease failed = none
message_of lease no_handle = none
message_of lease (handle chat_id message_id) =
    if not (chat_id == lease.chat_id) || ltb message_id 1 then none else some message_id

-- `release_delivery` in the handler of a failed send, whose own failure is passed over.
abbrev pub passed_over : {A : Type 0} → Outcome A × Store → Outcome Bool × Store
passed_over r = (ok true, r.1)

-- `mark_delivery_sent` at the end of the round, whose failure is raised.
abbrev pub kept_going : {A : Type 0} → Outcome A × Store → Outcome Bool × Store
kept_going (ok _, st) = (ok true, st)
kept_going (err e, st) = (err e, st)

-- The part of `run_once` after the send.
unfoldable pub settle : ℕ → DeliveryLease → Sent → ℕ → Store → Outcome Bool × Store
settle retry lease sent now st = elim (message_of lease sent) [
  | none ↦ passed_over (release_delivery lease telegram_unavailable retry now st)
  | some message_id ↦ kept_going (mark_delivery_sent lease message_id now st)
]

abbrev pub with_store : Outcome Bool × Store → List ConfirmationRow → Outcome Bool × Tables
with_store r rows = (r.0, record { store = r.1; confirmations = rows })

-- The tables as other coroutines leave them when the send is over.
abbrev pub settled : ℕ → DeliveryLease → Sent → ℕ → Tables → Outcome Bool × Tables
settled retry lease sent later tables =
    with_store (settle retry lease sent later tables.store) tables.confirmations

-- `ReminderDeliveryWorker.run_once` after its pick.
unfoldable pub go_on :
    Setup
    → Draws
    → (DeliveryLease → List Button → Sent)
    → (Tables → Tables)
    → ℕ
    → List ConfirmationRow
    → Outcome Pick × Store
    → Outcome Bool × Tables
unfolding settle buttons_of
go_on setup draws send meanwhile later rows (err e, st) = with_store (err e, st) rows
go_on setup draws send meanwhile later rows (ok idle, st) = with_store (ok false, st) rows
go_on setup draws send meanwhile later rows (ok skipped, st) = with_store (ok true, st) rows
go_on setup draws send meanwhile later rows (ok (sending lease), st) =
    settled setup.retry_delay_seconds lease (send lease (buttons_of setup draws lease rows).0) later
      (meanwhile (record { store = st; confirmations = (buttons_of setup draws lease rows).1 }))

-- `ReminderDeliveryWorker.run_once`: `send` gives the result of the send of a lease's text with its
-- buttons, and `meanwhile` the tables after it; the last time is that of the clock after the send.
unfoldable pub run_once :
    Setup
    → List (ℕ × ℕ)
    → Draws
    → (DeliveryLease → List Button → Sent)
    → (Tables → Tables)
    → ℕ
    → ℕ
    → ℕ
    → Tables
    → Outcome Bool × Tables
unfolding pick go_on
run_once setup epochs draws send meanwhile now token later tables =
    go_on setup draws send meanwhile later tables.confirmations (pick epochs now token tables.store)
