-- ===== src/Tests.antt =====
-- The theorems on confirmations, callback data, the worker and the reset at concrete inputs.
use lenko_bot.Prelude.{
  ℕ, ◌+◌, ◌*◌, ◌≡◌, refl, List, [], ◌∷◌, ◌++◌, true, false, ltb, leb, if◌then◌else◌, none, some,
  Outcome, ok, err, arith, runtime_error,
}
use lenko_bot.Prelude.Table.{find, update, delete}
use lenko_bot.Text.{Text, is_blank, is_empty, strip, drop_while, is_space, text_eq}
use lenko_bot.Confirmation.{
  ConfirmationOutcome, outcome_eq, ConfirmationRow, ConfirmationAction, ConfirmationResolution,
  Digest, drop_expired, new_row, resolve_row, is_authentic, create, resolve, resolve_read,
  resolve_found, consume,
}
use lenko_bot.Confirmation.Once.{consume-once, resolve-again, create-resolve}
use lenko_bot.Callback.{
  utf8_length, prefix_of, confirm_action, confirmation_callback_data,
  parse_confirmation_callback_data, data_limit,
}
use lenko_bot.Callback.Laws.{parse_confirmation_callback_data-callback}
use lenko_bot.Reminder.Types.{DeliveryLease, LifecycleState}
use lenko_bot.Reminder.Store.{is_current, profile_by_id, job_of_run, run_by_id, job_by_id}
use lenko_bot.Reminder.Delivery.{
  is_deliverable, earliest, earlier_of, claim, lease_from_row, lease_loop, lease_delivery,
  is_row_of, delivery_is_current, commit_sent,
}
use lenko_bot.Reminder.Delivery.Sent.{IsCommitted, is_audited}
use lenko_bot.Reminder.Invariant.Outbox.{OutboxOk}
use lenko_bot.Reminder.Tests.{one_due, walk_lease, leased_store, owner_profile}
use lenko_bot.Worker.{
  Button, ReminderPayload, Setup, Draws, Tables, buttons_of, Sent, handle, sending, is_quiesced,
  pick_of, pick, run_once,
}
use lenko_bot.Worker.Deliver.{run_once-delivers, run_once-reset}
use lenko_bot.Reset.{
  Db, Hook, Coordinator, is_missing, begin_reset, run_hooks, complete_reset, finish_reset, reset,
}
use lenko_bot.Reset.Fence.{IsCleared, reset-opens, reset-stays_closed}

-- A digest that keeps the action and the payload, a payload that is its own text.
abbrev joined : Digest
joined owner action json = action ++ json

abbrev same_text : Text → Text
same_text t = t

abbrev read_text : Text → Outcome Text
read_text t = ok t

-- "t", "a" and "p"
abbrev t_token : Text
t_token = 116 ∷ []

abbrev an_action : Text
an_action = 97 ∷ []

abbrev a_payload : Text
a_payload = 112 ∷ []

abbrev first_row : ConfirmationRow
first_row = new_row joined t_token 1 an_action a_payload 10 300

abbrev the_action : ConfirmationAction Text
the_action = record { token = t_token; action_type = an_action; payload = a_payload }

abbrev confirmed_rows : List ConfirmationRow
confirmed_rows = resolve_row ConfirmationOutcome.confirmed 20 first_row ∷ []

consume-once_example :
    consume joined read_text t_token 2 30 confirmed_rows ≡ (ok none, confirmed_rows)
unfolding consume resolve resolve_read resolve_found is_authentic text_eq find update
consume-once_example =
    consume-once joined read_text t_token 1 2 20 30 (first_row ∷ []) confirmed_rows the_action refl

abbrev first_resolved : ConfirmationResolution Text
first_resolved = record {
  action = the_action;
  outcome = ConfirmationOutcome.confirmed;
  first_resolution = true;
}

resolve-again_example :
    resolve joined read_text t_token 1 ConfirmationOutcome.cancelled 30 confirmed_rows ≡ (
      ok (
          if outcome_eq ConfirmationOutcome.confirmed ConfirmationOutcome.cancelled
          then some (record {
            action = first_resolved.action;
            outcome = ConfirmationOutcome.cancelled;
            first_resolution = false;
          })
          else none),
      confirmed_rows,
    )
unfolding resolve resolve_read resolve_found is_authentic text_eq find update
resolve-again_example =
    resolve-again joined read_text t_token 1 ConfirmationOutcome.confirmed
      ConfirmationOutcome.cancelled 20 30 (first_row ∷ []) confirmed_rows first_resolved refl

create-resolve_example :
    (t_token ≡ t_token)
    × ((resolve joined read_text t_token 1 ConfirmationOutcome.confirmed 20 (first_row ∷ [])).0
        ≡ ok (
            if leb (10 + 300 * 1_000_000) 20
            then none
            else some (record {
              action = the_action;
              outcome = ConfirmationOutcome.confirmed;
              first_resolution = true;
            })))
    × (resolve joined read_text t_token 2 ConfirmationOutcome.confirmed 20 (first_row ∷ [])
        ≡ (ok none, first_row ∷ []))
unfolding create drop_expired delete is_blank is_empty strip drop_while is_space text_eq
create-resolve_example =
    create-resolve joined read_text same_text 1 2 300 10 20 ConfirmationOutcome.confirmed an_action
      t_token t_token a_payload [] (first_row ∷ []) refl refl refl

parse_confirmation_callback_data-callback_example :
    (ltb data_limit
        (utf8_length (99 ∷ 111 ∷ 110 ∷ 102 ∷ 105 ∷ 114 ∷ 109 ∷ 58 ∷ 118 ∷ 49 ∷ 58 ∷ 116 ∷ []))
      ≡ false)
    × (parse_confirmation_callback_data
          (99 ∷ 111 ∷ 110 ∷ 102 ∷ 105 ∷ 114 ∷ 109 ∷ 58 ∷ 118 ∷ 49 ∷ 58 ∷ 116 ∷ [])
        ≡ some (confirm_action, t_token))
unfolding confirmation_callback_data prefix_of text_eq is_empty utf8_length
parse_confirmation_callback_data-callback_example =
    parse_confirmation_callback_data-callback confirm_action t_token
      (99 ∷ 111 ∷ 110 ∷ 102 ∷ 105 ∷ 114 ∷ 109 ∷ 58 ∷ 118 ∷ 49 ∷ 58 ∷ 116 ∷ []) refl

abbrev sent_ok : DeliveryLease → List Button → Sent
sent_ok lease buttons = handle 5 77

abbrev no_json : ReminderPayload → Text
no_json payload = []

abbrev setup : Setup
setup = record { retry_delay_seconds = 30; digest = joined; dumps = no_json; ttl = 300 }

abbrev draws : Draws
draws = record {
  snooze = record { token = 1 ∷ []; now = 11 };
  complete = record { token = 2 ∷ []; now = 12 };
  cancel = record { token = 3 ∷ []; now = 13 };
}

abbrev tables : Tables
tables = record { store = one_due; confirmations = [] }

walk_picked : pick [] 10 7 one_due ≡ (ok (sending walk_lease), leased_store)
unfolding pick pick_of is_quiesced delivery_is_current is_row_of lease_delivery lease_loop earliest
    earlier_of is_deliverable job_of_run run_by_id job_by_id find is_current profile_by_id claim
    update lease_from_row
walk_picked = refl

one_due-OutboxOk : OutboxOk one_due.outbox
one_due-OutboxOk = (
  (record { attempts = omega arith; pending = refl; leased = refl; token = refl; sent = refl }, tt),
  (tt, tt),
)

run_once-delivers_example :
    (is_quiesced [] walk_lease ≡ false)
    × (run_once setup [] draws sent_ok (λ s. s) 10 7 20 tables ≡ (
      ok true,
      record {
        store = commit_sent walk_lease 77 20 leased_store;
        confirmations = (buttons_of setup draws walk_lease []).1;
      },
    ))
    × IsCommitted walk_lease 77 (commit_sent walk_lease 77 20 leased_store)
unfolding lease_from_row
run_once-delivers_example =
    run_once-delivers setup [] draws sent_ok 10 7 20 77 tables leased_store walk_lease walk_picked
      refl (λ e. absurd (omega (arith, e))) one_due-OutboxOk

-- While the message is sent, the owner's profile goes to the second epoch.
abbrev meanwhile_reset : Tables → Tables
meanwhile_reset t = record t {
  store = record (t.store) { profiles = record owner_profile { lifecycle_epoch = 2 } ∷ [] };
}

run_once-reset_example :
    (after : Tables) × (run_once setup [] draws sent_ok meanwhile_reset 10 7 20 tables
      ≡ (ok true, after))
    × ((after.store).outbox ≡ leased_store.outbox)
    × ((after.store).runs ≡ leased_store.runs)
    × (is_audited walk_lease after.store ≡ true)
unfolding lease_from_row is_current profile_by_id find
run_once-reset_example =
    run_once-reset setup [] draws sent_ok 10 7 20 77 tables leased_store walk_lease walk_picked refl
      (λ e. absurd (omega (arith, e))) meanwhile_reset refl

abbrev small_db : Db
small_db = record {
  store = one_due;
  memories = 1 ∷ 2 ∷ [];
  relationships = 1 ∷ [];
  sessions = record { owner_user_id = 1; persona_session_id = 3 } ∷ [];
  lanes = record { id = 3; conversation_id = 4 } ∷ [];
  conversations = 4 ∷ [];
  security = [];
}

abbrev quiet_hook : Hook
quiet_hook owner epoch db = (ok tt, db)

abbrev raising_hook : Hook
raising_hook owner epoch db = (err runtime_error, db)

-- "tasks"
abbrev tasks_name : Text
tasks_name = 116 ∷ 97 ∷ 115 ∷ 107 ∷ 115 ∷ []

abbrev good : Coordinator
good = record {
  required_hooks = tasks_name ∷ [];
  purge_hooks = (tasks_name, quiet_hook) ∷ [];
  quiesce_hooks = [];
}

abbrev bad : Coordinator
bad = record {
  required_hooks = tasks_name ∷ [];
  purge_hooks = (tasks_name, raising_hook) ∷ [];
  quiesce_hooks = [];
}

abbrev closed_db : Db
closed_db = record small_db {
  store = record one_due {
    profiles =
        record owner_profile {
          lifecycle_epoch = 2;
          lifecycle_state = LifecycleState.reset_in_progress;
        }
        ∷ [];
  };
}

reset-opens_example :
    (◌≡◌ {A = ℕ} 1 1)
    × (◌≡◌ {A = ℕ} 2 (1 + 1))
    × (is_current one_due 1 1 ≡ true)
    × (is_current (finish_reset 1 2 closed_db).store 1 1 ≡ false)
    × (is_current (finish_reset 1 2 closed_db).store 1 2 ≡ true)
    × IsCleared 1 (finish_reset 1 2 closed_db)
unfolding reset is_missing text_eq begin_reset profile_by_id find update delete complete_reset
    run_hooks
reset-opens_example =
    reset-opens good 1 small_db (finish_reset 1 2 closed_db)
      (record { owner_user_id = 1; previous_epoch = 1; lifecycle_epoch = 2 }) tt
      ((λ o e d. refl), tt) refl

reset-stays_closed_example :
    (is_current closed_db.store 1 2 ≡ false)
    × (reset bad 1 closed_db ≡ (err runtime_error, closed_db))
unfolding reset is_missing text_eq begin_reset profile_by_id find update delete complete_reset
    run_hooks
reset-stays_closed_example =
    reset-stays_closed bad 1 2 small_db closed_db runtime_error tt ((λ o e d. refl), tt) refl 1
      closed_db refl refl
