-- ===== src/Session/Finalize.antt =====
-- src/lenkobot/session_store.py, `SQLiteSessionFinalizer`: the summary of a session in place of its
-- turns. What generates the summary, what processes the extraction runs, and what other connections
-- commit while the summary is generated are parameters.
use lenko_bot.Prelude.{
  ℕ, List, [], ◌∷◌, ◌++◌, Bool, ◌&&◌, not, ltb, ◌==◌, if◌then◌else◌, Option, none, some, Outcome,
  ok, err, ◌>>=◌, ◌>>◌, or_raise, raise_if, value_error, runtime_error, integrity_error, any, map,
  length,
}
use lenko_bot.Prelude.Table.{find, select, update, delete, next_id}
use lenko_bot.Text.{Text, strip, is_blank, text_eq}
use lenko_bot.Reminder.Store.{is_active_state}
use lenko_bot.State.{
  State, Body, transaction, reading, ◌>=>◌, Session, SessionStatus, is_open, TranscriptTurn,
  SessionSummary, SummaryStatus, profile_of,
}
use lenko_bot.State.Order.{order_by}
use lenko_bot.Session.{is_in_session}
use lenko_bot.Session.Query.{by_sequence}
use lenko_bot.Memory.Runs.{has_blocking_extraction_runs}

-- `generate` of the summary generator; `process_for_session` of the extraction processor, which may
-- raise after it has changed the state.
abbrev pub Generate : Type 0
Generate = List TranscriptTurn → Outcome Text

abbrev pub Processor : Type 0
Processor = ℕ → ℕ → State → Outcome (Unit {0}) × State

-- `_MAX_SUMMARY_CHARS`
abbrev pub max_summary_chars : ℕ
max_summary_chars = 4_000

unfoldable pub get_summary : ℕ → ℕ → State → Option SessionSummary
get_summary session owner st =
    find (λ m. m.session_id == session && m.owner_user_id == owner) st.summaries

-- `active_session.id = ? AND owner_user_id = ? AND status = 'active'`
abbrev pub is_owned_active : ℕ → ℕ → Session → Bool
is_owned_active session owner s = s.id == session && s.owner_user_id == owner && is_open s.status

-- `_load_active_session`, of which the owner's epoch is used.
unfoldable pub load_active_session : ℕ → ℕ → State → Outcome ℕ
load_active_session session owner st = do
  s ← or_raise (find (is_owned_active session owner) st.sessions) value_error
  p ← or_raise (profile_of st s.owner_user_id) value_error
  raise_if (not (is_active_state p.lifecycle_state)) value_error
  ok p.lifecycle_epoch

unfoldable pub load_turns : ℕ → State → List TranscriptTurn
load_turns session st = order_by by_sequence (select (is_in_session session) st.turns)

unfoldable pub ensure_extraction_gate : ℕ → ℕ → State → Outcome (Unit {0})
ensure_extraction_gate session owner st = do
  blocked ← has_blocking_extraction_runs owner session st
  raise_if blocked runtime_error

-- What is read before the summary is generated.
pub record Snapshot : Type 0 where
  pub lifecycle_epoch : ℕ
  pub turns : List TranscriptTurn

unfoldable pub take_snapshot : ℕ → ℕ → State → Outcome Snapshot
take_snapshot session owner st = do
  epoch ← load_active_session session owner st
  ok (record { lifecycle_epoch = epoch; turns = load_turns session st })

unfoldable pub generate_summary : Generate → List TranscriptTurn → Outcome Text
generate_summary generate turns = do
  content ← generate turns
  raise_if (is_blank content) value_error
  raise_if (ltb max_summary_chars (length (strip content))) value_error
  ok (strip content)

-- A DELETE of turns, with their failures (ON DELETE CASCADE).
unfoldable pub delete_turns : (TranscriptTurn → Bool) → State → State
delete_turns p st = record st {
  turns = delete p st.turns;
  failures =
      delete
        (λ f. any (λ t. p t && t.id == f.related_turn_id && t.session_id == f.session_id) st.turns)
        st.failures;
}

abbrev pub close_session : ℕ → Session → Session
close_session now s = record s { status = SessionStatus.closed; closed_at = some now }

unfoldable pub new_summary : ℕ → ℕ → Snapshot → Text → ℕ → State → SessionSummary
new_summary session owner snapshot content now st = record {
  id = next_id (λ m. m.id) st.summaries;
  session_id = session;
  owner_user_id = owner;
  content = content;
  source_turn_count = length snapshot.turns;
  lifecycle_epoch = snapshot.lifecycle_epoch;
  status = SummaryStatus.active;
  created_at = now;
}

-- The writes; `session_id` is unique in session_summary.
unfoldable pub write_summary : ℕ → ℕ → Snapshot → Text → ℕ → Body SessionSummary
unfolding new_summary delete_turns
write_summary session owner snapshot content now st =
    if any (λ m. m.session_id == session) st.summaries
    then err integrity_error
    else let summary = new_summary session owner snapshot content now st in
      ok (
        summary,
        record (delete_turns (is_in_session session) st) {
          summaries = st.summaries ++ summary ∷ [];
          sessions = update (is_owned_active session owner) (close_session now) st.sessions;
        },
      )

-- The checks of the transaction when no summary is there yet.
unfoldable pub finalize_current : ℕ → ℕ → Snapshot → Text → ℕ → Body SessionSummary
unfolding write_summary
finalize_current session owner snapshot content now st = do
  epoch ← load_active_session session owner st
  raise_if (not (epoch == snapshot.lifecycle_epoch)) runtime_error
  raise_if
      (not (text_eq (map (λ t. t.id) (load_turns session st)) (map (λ t. t.id) snapshot.turns)))
      runtime_error
  ensure_extraction_gate session owner st
  write_summary session owner snapshot content now st

unfoldable pub finalize_body : ℕ → ℕ → Snapshot → Text → ℕ → Body SessionSummary
unfolding finalize_current
finalize_body session owner snapshot content now st = elim (get_summary session owner st) [
  | some m ↦ ok (m, st)
  | none ↦ finalize_current session owner snapshot content now st
]

unfoldable pub process_runs : Option Processor → ℕ → ℕ → State → Outcome (Unit {0}) × State
process_runs none session owner st = (ok tt, st)
process_runs (some processor) session owner st = processor session owner st

unfoldable pub finalize :
    Generate
    → Option Processor
    → (State → State)
    → ℕ
    → ℕ
    → ℕ
    → State
    → Outcome SessionSummary × State
unfolding take_snapshot process_runs generate_summary finalize_body
finalize generate processor meanwhile session owner now st = elim (get_summary session owner st) [
  | some m ↦ (ok m, st)
  | none ↦ reading (take_snapshot session owner st) st >=> λ snapshot st.
      process_runs processor session owner st >=> λ _ st.
      reading (ensure_extraction_gate session owner st) st >=> λ _ st.
      reading (generate_summary generate snapshot.turns) (meanwhile st) >=> λ content.
      transaction (finalize_body session owner snapshot content now)
]
