-- ===== src/Memory/Candidate.antt =====
-- src/lenkobot/memory_extraction.py, `MemoryCandidatePolicy`: what a candidate must be to become a
-- memory. The search of the deny patterns is a parameter.
use lenko_bot.Prelude.{
  ℕ, List, [], ◌∷◌, Bool, false, ◌&&◌, ◌||◌, not, ltb, ◌==◌, if◌then◌else◌, Option, none, some,
  Outcome, ok, err, ◌>>=◌, ◌>>◌, raise_if, value_error, any, length,
}
use lenko_bot.Text.{Text, text_eq, strip, is_blank}
use lenko_bot.State.{MemoryScope, MemoryCategory, Float, is_confidence}

-- A candidate as the provider names it: category and scope are still texts.
pub record MemoryCandidate : Type 0 where
  pub text : Text
  pub category : Text
  pub scope : Text
  pub confidence : Float
  pub evidence_turn_ids : List ℕ

-- A candidate that the policy has accepted.
pub record Accepted : Type 0 where
  pub text : Text
  pub category : MemoryCategory
  pub scope : MemoryScope
  pub confidence : Float
  pub evidence_turn_ids : List ℕ

abbrev pub category_value : MemoryCategory → Text
category_value MemoryCategory.fact = 102 ∷ 97 ∷ 99 ∷ 116 ∷ []
category_value MemoryCategory.preference =
    112 ∷ 114 ∷ 101 ∷ 102 ∷ 101 ∷ 114 ∷ 101 ∷ 110 ∷ 99 ∷ 101 ∷ []
category_value MemoryCategory.goal = 103 ∷ 111 ∷ 97 ∷ 108 ∷ []
category_value MemoryCategory.constraint =
    99 ∷ 111 ∷ 110 ∷ 115 ∷ 116 ∷ 114 ∷ 97 ∷ 105 ∷ 110 ∷ 116 ∷ []
category_value MemoryCategory.relationship =
    114 ∷ 101 ∷ 108 ∷ 97 ∷ 116 ∷ 105 ∷ 111 ∷ 110 ∷ 115 ∷ 104 ∷ 105 ∷ 112 ∷ []
category_value MemoryCategory.event = 101 ∷ 118 ∷ 101 ∷ 110 ∷ 116 ∷ []

abbrev pub scope_value : MemoryScope → Text
scope_value MemoryScope.shared = 115 ∷ 104 ∷ 97 ∷ 114 ∷ 101 ∷ 100 ∷ []
scope_value MemoryScope.persona_private =
    112 ∷ 101 ∷ 114 ∷ 115 ∷ 111 ∷ 110 ∷ 97 ∷ 95 ∷ 112 ∷ 114 ∷ 105 ∷ 118 ∷ 97 ∷ 116 ∷ 101 ∷ []
scope_value MemoryScope.relationship =
    114 ∷ 101 ∷ 108 ∷ 97 ∷ 116 ∷ 105 ∷ 111 ∷ 110 ∷ 115 ∷ 104 ∷ 105 ∷ 112 ∷ []

abbrev pub categories : List MemoryCategory
categories =
    MemoryCategory.fact ∷ MemoryCategory.preference ∷ MemoryCategory.goal
    ∷ MemoryCategory.constraint ∷ MemoryCategory.relationship ∷ MemoryCategory.event ∷ []

abbrev pub scopes : List MemoryScope
scopes = MemoryScope.shared ∷ MemoryScope.persona_private ∷ MemoryScope.relationship ∷ []

-- An enum's call on a text: the member of that value, or a ValueError.
unfoldable pub member_of : {A : Type 0} → (A → Text) → List A → Text → Outcome A
member_of value [] text = err value_error
member_of value (a ∷ more) text =
    let rest = member_of value more text in if text_eq (value a) text then ok a else rest

-- `_MAX_CANDIDATE_TEXT` and `_MAX_EVIDENCE_TURNS`
abbrev pub max_candidate_text : ℕ
max_candidate_text = 500

abbrev pub max_evidence_turns : ℕ
max_evidence_turns = 8

-- `len(set(ids)) != len(ids)`
unfoldable pub has_repeated : List ℕ → Bool
has_repeated [] = false
has_repeated (n ∷ ns) = any (λ m. m == n) ns || has_repeated ns

unfoldable pub is_evidence : List ℕ → Bool
unfolding has_repeated
is_evidence [] = false
is_evidence (n ∷ ns) =
    not (ltb max_evidence_turns (length (n ∷ ns)))
    && not (any (λ m. m == 0) (n ∷ ns))
    && not (has_repeated (n ∷ ns))

-- `validate`: none for a candidate that a deny pattern matches.
unfoldable pub validate : (Text → Bool) → MemoryCandidate → Outcome (Option Accepted)
unfolding member_of is_evidence
validate is_denied c = do
  raise_if (is_blank c.text || ltb max_candidate_text (length (strip c.text))) value_error
  category ← member_of category_value categories c.category
  scope ← member_of scope_value scopes c.scope
  raise_if (not (is_confidence c.confidence)) value_error
  raise_if (not (is_evidence c.evidence_turn_ids)) value_error
  ok (
      if is_denied (strip c.text)
      then none
      else some (record {
        text = strip c.text;
        category = category;
        scope = scope;
        confidence = c.confidence;
        evidence_turn_ids = c.evidence_turn_ids;
      }))
