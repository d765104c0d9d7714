-- ===== src/Session/Deletion.antt =====
-- src/lenkobot/session_deletion.py, `SQLiteSessionDataDeletionService`.
pub mod Laws
pub mod Taken
pub mod Exact
use lenko_bot.Prelude.{
  ℕ, ◌+◌, List, [], ◌∷◌, Bool, true, false, ◌&&◌, ◌||◌, not, ◌==◌, if◌then◌else◌, Option, none,
  some, Outcome, ok, err, ◌>>=◌, or_raise, key_error, any, length,
}
use lenko_bot.Prelude.Table.{find, update, delete, count_where}
use lenko_bot.State.{
  State, Body, transaction, TranscriptTurn, SessionSummary, SummaryStatus, is_user, is_assistant,
  MemoryRecord, MemoryExtractionRun,
}
use lenko_bot.Session.{is_in_session}
use lenko_bot.Session.Query.{is_active_summary}
use lenko_bot.Session.Finalize.{is_owned_active, delete_turns}

pub record TurnDeletionResult : Type 0 where
  pub turn_id : ℕ
  pub deleted_memory_count : ℕ
  pub invalidated_summary : Bool
  pub deleted_turn_count : ℕ

-- The reply to a user's turn: the assistant's turn of the next sequence number.
abbrev pub is_reply_to : ℕ → TranscriptTurn → TranscriptTurn → Bool
is_reply_to session turn t =
    t.session_id == session && t.sequence == turn.sequence + 1 && is_assistant t.role

unfoldable pub deleted_turn_ids : ℕ → TranscriptTurn → State → List ℕ
deleted_turn_ids session turn st =
    if is_user turn.role
    then elim (find (is_reply_to session turn) st.turns) [
      | none ↦ turn.id ∷ []
      | some reply ↦ turn.id ∷ reply.id ∷ []
    ]
    else turn.id ∷ []

-- A DELETE of memories, with their revisions (ON DELETE CASCADE).
unfoldable pub delete_memories : (MemoryRecord → Bool) → State → State
delete_memories p st = record st {
  memories = delete p st.memories;
  revisions = delete (λ r. any (λ m. p m && m.id == r.memory_id) st.memories) st.revisions;
}

-- `column = ?` on a column that may be NULL.
abbrev pub equals : Option ℕ → ℕ → Bool
equals none n = false
equals (some m) n = m == n

-- `user_id = ? AND provenance_turn_id = ?`
abbrev pub comes_from : ℕ → ℕ → MemoryRecord → Bool
comes_from owner turn m = m.user_id == owner && equals m.provenance_turn_id turn

-- `session_id = ? AND owner_user_id = ? AND status = 'active'`
abbrev pub is_summary_of : ℕ → ℕ → SessionSummary → Bool
is_summary_of session owner m =
    m.session_id == session && m.owner_user_id == owner && is_active_summary m.status

-- `owner_user_id = ? AND session_id = ? AND source_turn_id = ?`
abbrev pub is_run_from : ℕ → ℕ → ℕ → MemoryExtractionRun → Bool
is_run_from owner session turn r =
    r.owner_user_id == owner && r.session_id == session && r.source_turn_id == turn

abbrev pub invalidate : SessionSummary → SessionSummary
invalidate m = record m { status = SummaryStatus.invalidated }

unfoldable pub delete_each : ℕ → List ℕ → State → State
unfolding delete_turns
delete_each session [] st = st
delete_each session (id ∷ ids) st =
    delete_each session ids (delete_turns (λ t. t.id == id && is_in_session session t) st)

-- What the statements before the DELETE of the turns leave.
unfoldable pub delete_derived : ℕ → ℕ → ℕ → State → State
unfolding delete_memories
delete_derived owner session turn st = record (delete_memories (comes_from owner turn) st) {
  runs = delete (is_run_from owner session turn) st.runs;
  summaries = update (is_summary_of session owner) invalidate st.summaries;
}

unfoldable pub find_turn : ℕ → ℕ → ℕ → State → Option TranscriptTurn
find_turn owner session turn st =
    if any (is_owned_active session owner) st.sessions
    then find (λ t. t.id == turn && is_in_session session t) st.turns
    else none

unfoldable pub delete_turn_body : ℕ → ℕ → ℕ → Body TurnDeletionResult
unfolding deleted_turn_ids delete_derived delete_each
delete_turn_body owner session turn st = do
  t ← or_raise (find_turn owner session turn st) key_error
  let ids = deleted_turn_ids session t st
  let result : TurnDeletionResult = record {
    turn_id = turn;
    deleted_memory_count = count_where (comes_from owner turn) st.memories;
    invalidated_summary = count_where (is_summary_of session owner) st.summaries == 1;
    deleted_turn_count = length ids;
  }
  ok (result, delete_each session ids (delete_derived owner session turn st))

unfoldable pub delete_turn : ℕ → ℕ → ℕ → State → Outcome TurnDeletionResult × State
unfolding delete_turn_body
delete_turn owner session turn = transaction (delete_turn_body owner session turn)
