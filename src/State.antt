-- ===== src/State.antt =====
-- The conversation tables of the state database, for src/lenkobot/session_store.py,
-- src/lenkobot/session_deletion.py and src/lenkobot/memory.py: sessions, turns, summaries, extraction
-- runs and memories. Instants are microseconds of UTC; a row id is one more than the largest in the
-- table (the tables have INTEGER PRIMARY KEY without AUTOINCREMENT).
pub mod Order
pub mod Rows
pub mod Laws
use lenko_bot.Prelude.{
  ℕ, zero, suc, List, [], ◌∷◌, ◌++◌, Bool, true, false, ◌&&◌, ◌||◌, not, leb, ◌==◌, ◌*◌,
  if◌then◌else◌, Option, none, some, Outcome, ok, err, any,
}
use lenko_bot.Prelude.Table.{find}
use lenko_bot.Text.{Text}
use lenko_bot.Reminder.Types.{Profile, PersonaRow}
use lenko_bot.Reminder.Store.{is_active_state}
use lenko_bot.Reminder.Profile.{default_profile}

pub data SessionStatus : Type 0 where
  active closed : SessionStatus

-- A row of `session`.
pub record Session : Type 0 where
  pub id : ℕ
  pub persona_session_id : ℕ
  pub owner_user_id : ℕ
  pub generation : ℕ
  pub status : SessionStatus
  pub opened_at : ℕ
  pub closed_at : Option ℕ

-- A row of `persona_session`, the lane of a persona in a chat, as far as these stores read it.
pub record Lane : Type 0 where
  pub id : ℕ
  pub persona_key : Text

pub data Role : Type 0 where
  user assistant : Role

pub record TranscriptTurn : Type 0 where
  pub id : ℕ
  pub session_id : ℕ
  pub sequence : ℕ
  pub role : Role
  pub content : Text
  pub provider_response_id : Option Text
  pub created_at : ℕ

pub data FailureStage : Type 0 where
  provider delivery : FailureStage

pub record TranscriptFailure : Type 0 where
  pub id : ℕ
  pub session_id : ℕ
  pub related_turn_id : ℕ
  pub stage : FailureStage
  pub error_kind : Text
  pub created_at : ℕ

pub data SummaryStatus : Type 0 where
  active invalidated : SummaryStatus

pub record SessionSummary : Type 0 where
  pub id : ℕ
  pub session_id : ℕ
  pub owner_user_id : ℕ
  pub content : Text
  pub source_turn_count : ℕ
  pub lifecycle_epoch : ℕ
  pub status : SummaryStatus
  pub created_at : ℕ

pub data ExtractionRunStatus : Type 0 where
  pending processing completed failed discarded : ExtractionRunStatus

pub record MemoryExtractionRun : Type 0 where
  pub id : ℕ
  pub owner_user_id : ℕ
  pub session_id : ℕ
  pub source_turn_id : ℕ
  pub lifecycle_epoch : ℕ
  pub status : ExtractionRunStatus
  pub attempt : ℕ
  pub error_kind : Option Text
  pub created_at : ℕ
  pub updated_at : ℕ

pub data MemoryScope : Type 0 where
  shared persona_private relationship : MemoryScope

pub data MemoryStatus : Type 0 where
  active deleted : MemoryStatus

pub data MemorySource : Type 0 where
  manual automatic : MemorySource

pub data MemoryCategory : Type 0 where
  fact preference goal constraint relationship event : MemoryCategory

-- Python's float: a number of the other kind, or a sign, a numerator and the exponent of the
-- denominator, a power of two.
pub data Float : Type 0 where
  not_finite : Float
  dyadic : (is_negative : Bool) (numerator exponent : ℕ) → Float

pub record MemoryRecord : Type 0 where
  pub id : ℕ
  pub user_id : ℕ
  pub scope : MemoryScope
  pub kind : Text
  pub content : Text
  pub persona_id : Option ℕ
  pub relationship_id : Option ℕ
  pub provenance_session_id : Option ℕ
  pub status : MemoryStatus
  pub created_at : ℕ
  pub updated_at : ℕ
  pub version : ℕ
  pub source : MemorySource
  pub category : Option MemoryCategory
  pub confidence : Option Float
  pub provenance_turn_id : Option ℕ

pub record MemoryRevision : Type 0 where
  pub id : ℕ
  pub memory_id : ℕ
  pub owner_user_id : ℕ
  pub version : ℕ
  pub content : Text
  pub category : Option MemoryCategory
  pub confidence : Option Float
  pub changed_at : ℕ

pub record Relationship : Type 0 where
  pub id : ℕ
  pub user_id : ℕ
  pub persona_id : ℕ
  pub summary : Text
  pub state_json : Text
  pub version : ℕ
  pub updated_at : ℕ

pub record State : Type 0 where
  pub profiles : List Profile
  pub personas : List PersonaRow
  pub lanes : List Lane
  pub sessions : List Session
  pub turns : List TranscriptTurn
  pub failures : List TranscriptFailure
  pub summaries : List SessionSummary
  pub runs : List MemoryExtractionRun
  pub memories : List MemoryRecord
  pub revisions : List MemoryRevision
  pub relationships : List Relationship

-- What an operation does between BEGIN IMMEDIATE and COMMIT, and the transaction: it commits, or it
-- rolls back and raises again.
abbrev pub Body : Type 0 → Type 0
Body A = State → Outcome (A × State)

abbrev pub transaction : {A : Type 0} → Body A → State → Outcome A × State
transaction body st = elim (body st) [ ok (a, st') ↦ (ok a, st') | err e ↦ (err e, st) ]

-- A call, and the statements after it, that run on the state that it leaves if it returned.
infixl 5 ◌>=>◌
abbrev pub ◌>=>◌ :
    {A B : Type 0} (call : Outcome A × State) → (A → State → Outcome B × State) → Outcome B × State
(err e, st) >=> next = (err e, st)
(ok a, st) >=> next = next a st

-- A call that only reads.
abbrev pub reading : {A : Type 0} → Outcome A → State → Outcome A × State
reading o st = (o, st)

abbrev pub is_open : SessionStatus → Bool
is_open SessionStatus.active = true
is_open SessionStatus.closed = false

abbrev pub is_user : Role → Bool
is_user Role.user = true
is_user Role.assistant = false

abbrev pub is_assistant : Role → Bool
is_assistant r = not (is_user r)

-- `INSERT OR IGNORE INTO user_profile`
unfoldable pub insert_profile : ℕ → State → State
insert_profile owner st =
    if any (λ p. p.user_id == owner) st.profiles
    then st
    else record st { profiles = st.profiles ++ default_profile owner ∷ [] }

-- `profile.user_id = ?` of a JOIN with user_profile.
unfoldable pub profile_of : State → ℕ → Option Profile
profile_of st owner = find (λ p. p.user_id == owner) st.profiles

unfoldable pub session_by_id : State → ℕ → Option Session
session_by_id st id = find (λ s. s.id == id) st.sessions

-- Whether the session of the id exists and is owned by the user.
unfoldable pub owns_session : State → ℕ → ℕ → Bool
owns_session st owner id = any (λ s. s.id == id && s.owner_user_id == owner) st.sessions

-- `float(2 ** n)`, a helper of the comparison below.
unfoldable pub power_of_two : ℕ → ℕ
power_of_two zero = 1
power_of_two (suc n) = 2 * power_of_two n

-- `0.0 <= confidence <= 1.0`; minus zero is zero.
unfoldable pub is_confidence : Float → Bool
unfolding power_of_two
is_confidence Float.not_finite = false
is_confidence (Float.dyadic negative n e) = (not negative || n == 0) && leb n (power_of_two e)
