-- ===== src/Session/Invariant.antt =====
-- What the tables of the sessions always satisfy, row by row.
pub mod Sessions
pub mod Turns
pub mod Run
use lenko_bot.Prelude.{◌≡◌, Bool, true, ◌&&◌, not, leb, ◌==◌, ℕ, any, All}
use lenko_bot.Prelude.Table.{Distinct}
use lenko_bot.State.{State, Session, TranscriptTurn, is_open}
use lenko_bot.State.Order.{Apart}
use lenko_bot.Session.{is_active_session}
use lenko_bot.Session.Query.{by_sequence}

-- Two active sessions of one lane.
abbrev pub are_rivals : Session → Session → Bool
are_rivals s u =
    s.persona_session_id == u.persona_session_id && is_open s.status && is_open u.status

-- Two sessions of one lane, of which the later one has no larger generation.
abbrev pub are_unordered : Session → Session → Bool
are_unordered s u = s.persona_session_id == u.persona_session_id && leb u.generation s.generation

-- Two turns of one session, of which the later one has no larger sequence number.
abbrev pub are_out_of_sequence : TranscriptTurn → TranscriptTurn → Bool
are_out_of_sequence t u = t.session_id == u.session_id && leb u.sequence t.sequence

abbrev pub is_closed_session : ℕ → Session → Bool
is_closed_session session s = s.id == session && not (is_open s.status)

-- A lane has one active session at most, its generations grow, and so do the sequence numbers of a
-- session's turns; a turn's session is active, and the session of a summary is closed.
pub record IsConsistent (st : State) : Type 0 where
  pub session_ids : Distinct (λ s. s.id) st.sessions
  pub one_active : Apart are_rivals st.sessions
  pub generations : Apart are_unordered st.sessions
  pub turn_ids : Distinct (λ t. t.id) st.turns
  pub sequences : Apart are_out_of_sequence st.turns
  pub open_turns : All (λ t. any (is_active_session t.session_id) st.sessions ≡ true) st.turns
  pub summarised : All (λ m. any (is_closed_session m.session_id) st.sessions ≡ true) st.summaries
