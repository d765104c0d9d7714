-- ===== src/Session/Query.antt =====
-- src/lenkobot/session_store.py, what `SQLiteSessionStore` reads: turns, exchanges, summaries, failures
-- and the turns of a context.
use lenko_bot.Prelude.{
  ℕ, List, [], ◌∷◌, Bool, true, false, ◌&&◌, not, ltb, ◌==◌, if◌then◌else◌, Option, none, some,
  Outcome, ok, ◌>>=◌, ◌>>◌, or_raise, raise_if, value_error, key_error, any, length, take,
}
use mathlib.Core.List.{reverse}
use lenko_bot.Prelude.Table.{find, select}
use lenko_bot.Text.{Text}
use lenko_bot.State.{
  State, is_user, is_assistant, TranscriptTurn, TranscriptFailure, SessionSummary, SummaryStatus,
  owns_session,
}
use lenko_bot.State.Order.{order_by}
use lenko_bot.Session.{is_active_session, is_in_session}

-- `ORDER BY sequence ASC`
abbrev pub by_sequence : TranscriptTurn → TranscriptTurn → Bool
by_sequence t u = ltb t.sequence u.sequence

unfoldable pub list_turns : ℕ → ℕ → State → List TranscriptTurn
list_turns session owner st =
    if owns_session st owner session
    then order_by by_sequence (select (is_in_session session) st.turns)
    else []

-- The loop over the turns: it ends at the source turn.
unfoldable pub exchange_in : ℕ → List TranscriptTurn → Option (TranscriptTurn × TranscriptTurn)
exchange_in source [] = none
exchange_in source (t ∷ []) = none
exchange_in source (t ∷ u ∷ rest) =
    let later = exchange_in source (u ∷ rest) in
    if not (t.id == source)
    then later
    else if is_user t.role && is_assistant u.role
    then some (t, u)
    else none

unfoldable pub extraction_exchange : ℕ → ℕ → ℕ → State → Outcome (TranscriptTurn × TranscriptTurn)
unfolding list_turns exchange_in
extraction_exchange session owner source st =
    or_raise (exchange_in source (list_turns session owner st)) value_error

-- `ORDER BY summary.id DESC LIMIT 1`
abbrev pub by_id_descending : SessionSummary → SessionSummary → Bool
by_id_descending a b = ltb b.id a.id

abbrev pub is_active_summary : SummaryStatus → Bool
is_active_summary SummaryStatus.active = true
is_active_summary SummaryStatus.invalidated = false

unfoldable pub latest_summary_for_lane : ℕ → ℕ → State → Option SessionSummary
latest_summary_for_lane owner lane st =
    find (λ s. true)
      (order_by by_id_descending (
        select
          (λ m.
            m.owner_user_id == owner
            && any
                (λ s.
                  s.id == m.session_id && s.owner_user_id == owner && s.persona_session_id == lane)
                st.sessions
            && is_active_summary m.status)
          st.summaries))

unfoldable pub persona_key_for_session : ℕ → ℕ → State → Outcome Text
persona_key_for_session session owner st = do
  s ← or_raise (find (λ s. s.id == session && s.owner_user_id == owner) st.sessions) key_error
  lane ← or_raise (find (λ l. l.id == s.persona_session_id) st.lanes) key_error
  ok lane.persona_key

-- `ORDER BY sequence DESC`
abbrev pub by_sequence_descending : TranscriptTurn → TranscriptTurn → Bool
by_sequence_descending t u = ltb u.sequence t.sequence

-- The turns before the current one, the newest `limit` of them, the oldest first.
unfoldable pub recent_before :
    ℕ → ℕ → Option TranscriptTurn → List TranscriptTurn → List TranscriptTurn
recent_before session limit none turns = []
recent_before session limit (some current) turns = reverse (
    take limit (
      order_by by_sequence_descending
        (select (λ t. is_in_session session t && ltb t.sequence current.sequence) turns)))

unfoldable pub list_recent_for_context : ℕ → ℕ → ℕ → ℕ → ℕ → State → Outcome (List TranscriptTurn)
unfolding recent_before
list_recent_for_context owner lane session before limit st = do
  raise_if (limit == 0) value_error
  ok (
      if any
        (λ s.
          is_active_session session s && s.owner_user_id == owner && s.persona_session_id == lane)
        st.sessions
      then recent_before session limit
          (find (λ t. t.id == before && is_in_session session t) st.turns) st.turns
      else [])

unfoldable pub list_failures : ℕ → ℕ → State → List TranscriptFailure
list_failures session owner st =
    if owns_session st owner session
    then order_by (λ f g. ltb f.id g.id) (select (λ f. f.session_id == session) st.failures)
    else []

unfoldable pub profile_count : State → ℕ
profile_count st = length st.profiles

unfoldable pub session_count : State → ℕ
session_count st = length st.sessions

unfoldable pub turn_count : State → ℕ
turn_count st = length st.turns
