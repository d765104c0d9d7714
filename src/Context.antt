-- ===== src/Context.antt =====
-- src/lenkobot/context_builder.py: the limits of a context, and the transcript and the memories that
-- are cut to them. A dict of the JSON that is built is a record here.
pub mod Clip
pub mod Tests
use lenko_bot.Prelude.{
  ℕ, ◌-◌, List, [], ◌∷◌, map, min, Bool, true, false, ◌||◌, not, ltb, leb, ◌==◌, if◌then◌else◌,
  Option, none, some, Outcome, ok, err, ◌>>=◌, ◌>>◌, raise_if, value_error, length, take,
}
use mathlib.Core.List.{reverse}
use lenko_bot.Text.{Text, is_empty}
use lenko_bot.State.{State, Role, TranscriptTurn, MemoryRecord, Relationship}
use lenko_bot.Session.Query.{list_recent_for_context}
use lenko_bot.Memory.Context.{MemoryContext}

pub record TranscriptContextLimits : Type 0 where
  pub max_turns : ℕ
  pub max_chars : ℕ
  pub max_turn_chars : ℕ

-- `__post_init__`
unfoldable pub check_transcript_limits : TranscriptContextLimits → Outcome (Unit {0})
check_transcript_limits l =
    raise_if (l.max_turns == 0 || l.max_chars == 0 || l.max_turn_chars == 0) value_error

abbrev pub default_transcript_limits : TranscriptContextLimits
default_transcript_limits = record { max_turns = 8; max_chars = 6_000; max_turn_chars = 2_000 }

pub record PromptContentLimits : Type 0 where
  pub max_identity_chars : ℕ
  pub max_current_chars : ℕ
  pub max_memory_record_chars : ℕ
  pub max_relationship_summary_chars : ℕ
  pub max_relationship_state_chars : ℕ
  pub max_session_summary_chars : ℕ

unfoldable pub check_content_limits : PromptContentLimits → Outcome (Unit {0})
check_content_limits l =
    raise_if
      (l.max_identity_chars == 0
        || l.max_current_chars == 0
        || l.max_memory_record_chars == 0
        || l.max_relationship_summary_chars == 0
        || l.max_relationship_state_chars == 0
        || l.max_session_summary_chars == 0)
      value_error

pub record TranscriptEntry : Type 0 where
  pub sequence : ℕ
  pub role : Role
  pub content : Text
  pub truncated : Bool

abbrev pub entry_of : Text → TranscriptTurn → TranscriptEntry
entry_of content t = record {
  sequence = t.sequence;
  role = t.role;
  content = content;
  truncated = ltb (length content) (length t.content);
}

-- The loop over the turns from the newest: `remaining` characters are left.
unfoldable pub clip_loop : ℕ → ℕ → List TranscriptTurn → List TranscriptEntry
clip_loop max_turn_chars remaining [] = []
clip_loop max_turn_chars remaining (t ∷ ts) = elim (remaining == 0) [
  | true ↦ []
  | false ↦
      let content = take (min max_turn_chars remaining) t.content in
      elim (is_empty content) [
        | true ↦ clip_loop max_turn_chars remaining ts
        | false ↦ entry_of content t ∷ clip_loop max_turn_chars (remaining - length content) ts
      ]
]

-- `_clip_transcript`
unfoldable pub clip_transcript :
    TranscriptContextLimits → List TranscriptTurn → List TranscriptEntry
unfolding clip_loop
clip_transcript l records = reverse (clip_loop l.max_turn_chars l.max_chars (reverse records))

-- `_transcript_records`, of a builder with a transcript store.
unfoldable pub transcript_records :
    TranscriptContextLimits → ℕ → ℕ → Option ℕ → Option ℕ → State → Outcome (List TranscriptEntry)
unfolding clip_transcript
transcript_records l owner lane (some session) (some current) st = do
  records ← list_recent_for_context owner lane session current l.max_turns st
  ok (clip_transcript l records)
transcript_records l owner lane session current st = err value_error

pub record MemoryEntry : Type 0 where
  pub id : ℕ
  pub kind : Text
  pub content : Text
  pub updated_at : ℕ

-- `_records`; a time is an instant, whose text is shorter than 128 characters.
unfoldable pub memory_entries : PromptContentLimits → List MemoryRecord → List MemoryEntry
memory_entries l = map λ r. record {
  id = r.id;
  kind = take 100 r.kind;
  content = take l.max_memory_record_chars r.content;
  updated_at = r.updated_at;
}
