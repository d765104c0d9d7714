-- ===== src/Session.antt =====
-- src/lenkobot/session_store.py, `SQLiteSessionStore`: the sessions of a lane, their turns and
-- failures, and what is read of them.
pub mod Query
pub mod Finalize
pub mod Deletion
pub mod Laws
pub mod Invariant
pub mod Finalized
pub mod Fence
pub mod Exchange
pub mod Tests
use lenko_bot.Prelude.{
  ℕ, zero, suc, ◌+◌, List, [], ◌∷◌, ◌++◌, Bool, true, false, ◌&&◌, ◌||◌, not, leb, ltb, ◌==◌,
  if◌then◌else◌, Option, none, some, Outcome, ok, err, ◌>>=◌, ◌>>◌, or_raise, raise_if, value_error,
  key_error, permission_error, integrity_error, any, length, take,
}
use mathlib.Core.List.{reverse}
use lenko_bot.Prelude.Table.{find, select, max_of, next_id}
use lenko_bot.Text.{Text, strip, is_blank}
use lenko_bot.State.{
  State, Body, transaction, reading, ◌>=>◌, Session, SessionStatus, is_open, Lane, Role, is_user,
  is_assistant, TranscriptTurn, TranscriptFailure, FailureStage, SessionSummary, SummaryStatus,
  insert_profile, session_by_id, owns_session,
}
use lenko_bot.State.Order.{order_by}
use lenko_bot.Reminder.Delivery.{is_error_kind}

-- A session as the store returns it.
pub record ActiveSession : Type 0 where
  pub id : ℕ
  pub persona_session_id : ℕ
  pub owner_user_id : ℕ
  pub generation : ℕ
  pub status : SessionStatus
  pub opened_at : ℕ

abbrev pub active_session_from_row : Session → ActiveSession
active_session_from_row s = record {
  id = s.id;
  persona_session_id = s.persona_session_id;
  owner_user_id = s.owner_user_id;
  generation = s.generation;
  status = s.status;
  opened_at = s.opened_at;
}

-- `persona_session_id = ? AND status = 'active'`
abbrev pub is_active_in : ℕ → Session → Bool
is_active_in lane s = s.persona_session_id == lane && is_open s.status

-- `COALESCE(MAX(generation), 0) + 1` over the sessions of the lane.
unfoldable pub next_generation : ℕ → List Session → ℕ
next_generation lane sessions =
    suc (max_of (λ s. s.generation) (select (λ s. s.persona_session_id == lane) sessions))

unfoldable pub new_session : ℕ → ℕ → ℕ → State → Session
unfolding next_generation
new_session owner lane now st = record {
  id = next_id (λ s. s.id) st.sessions;
  persona_session_id = lane;
  owner_user_id = owner;
  generation = next_generation lane st.sessions;
  status = SessionStatus.active;
  opened_at = now;
  closed_at = none;
}

-- The lane's active session if there is one and the user owns it, else a new one.
unfoldable pub open_session : ℕ → ℕ → ℕ → Option Session → Body Session
unfolding new_session
open_session owner lane now (some s) st =
    if not (s.owner_user_id == owner) then err permission_error else ok (s, st)
open_session owner lane now none st =
    let s = new_session owner lane now st in ok (s, record st { sessions = st.sessions ++ s ∷ [] })

unfoldable pub ensure_session_body : ℕ → ℕ → ℕ → Body ActiveSession
unfolding open_session insert_profile
ensure_session_body owner lane now st = do
  found ← or_raise (find (λ l. l.id == lane) (insert_profile owner st).lanes) value_error
  opened ←
      open_session owner lane now (find (is_active_in lane) (insert_profile owner st).sessions)
        (insert_profile owner st)
  ok (active_session_from_row opened.0, opened.1)

unfoldable pub ensure_active_session : ℕ → ℕ → ℕ → State → Outcome ActiveSession × State
unfolding ensure_session_body
ensure_active_session owner lane now st =
    if owner == 0 || lane == 0
    then (err value_error, st)
    else transaction (ensure_session_body owner lane now) st

unfoldable pub active_session_for_lane : ℕ → ℕ → State → Option ActiveSession
active_session_for_lane owner lane st =
    elim (find (λ s. is_active_in lane s && s.owner_user_id == owner) st.sessions) [
      | none ↦ none
      | some s ↦ some (active_session_from_row s)
    ]

abbrev pub is_in_session : ℕ → TranscriptTurn → Bool
is_in_session session t = t.session_id == session

-- `COALESCE(MAX(sequence), 0) + 1` over the turns of the session.
unfoldable pub next_sequence : ℕ → List TranscriptTurn → ℕ
next_sequence session turns = suc (max_of (λ t. t.sequence) (select (is_in_session session) turns))

-- `id = ? AND status = 'active'`
abbrev pub is_active_session : ℕ → Session → Bool
is_active_session session s = s.id == session && is_open s.status

unfoldable pub new_turn : ℕ → Role → Text → Option Text → ℕ → State → TranscriptTurn
unfolding next_sequence
new_turn session role content response now st = record {
  id = next_id (λ t. t.id) st.turns;
  session_id = session;
  sequence = next_sequence session st.turns;
  role = role;
  content = strip content;
  provider_response_id = response;
  created_at = now;
}

unfoldable pub append_turn_body : ℕ → Role → Text → Option Text → ℕ → Body TranscriptTurn
unfolding new_turn
append_turn_body session role content response now st = do
  active ← or_raise (find (is_active_session session) st.sessions) value_error
  let t = new_turn session role content response now st
  ok (t, record st { turns = st.turns ++ t ∷ [] })

unfoldable pub append_turn :
    ℕ → Role → Text → Option Text → ℕ → State → Outcome TranscriptTurn × State
unfolding append_turn_body
append_turn session role content response now st =
    if is_blank content
    then (err value_error, st)
    else transaction (append_turn_body session role content response now) st

-- Two transactions: the session stays when the turn is refused.
unfoldable pub begin_user_turn : ℕ → ℕ → Text → ℕ → State → Outcome TranscriptTurn × State
unfolding ensure_active_session append_turn
begin_user_turn owner lane content now st =
    ensure_active_session owner lane now st >=> λ s. append_turn s.id Role.user content none now

unfoldable pub append_assistant_turn :
    ℕ → Text → Option Text → ℕ → State → Outcome TranscriptTurn × State
unfolding append_turn
append_assistant_turn session content response now st =
    append_turn session Role.assistant content response now st

unfoldable pub new_failure : ℕ → ℕ → FailureStage → Text → ℕ → State → TranscriptFailure
new_failure session turn stage kind now st = record {
  id = next_id (λ f. f.id) st.failures;
  session_id = session;
  related_turn_id = turn;
  stage = stage;
  error_kind = kind;
  created_at = now;
}

-- The foreign key of a failure is its turn with the turn's session.
unfoldable pub record_failure :
    ℕ → ℕ → FailureStage → Text → ℕ → State → Outcome TranscriptFailure × State
unfolding new_failure
record_failure session turn stage kind now st =
    if not (is_error_kind kind)
    then (err value_error, st)
    else if not (any (λ t. t.id == turn && is_in_session session t) st.turns)
    then (err integrity_error, st)
    else let f = new_failure session turn stage kind now st in
      (ok f, record st { failures = st.failures ++ f ∷ [] })
