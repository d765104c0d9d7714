-- ===== src/Memory/Extraction.antt =====
-- src/lenkobot/memory_extraction.py, `MemoryExtractionService`: a claimed run asks the provider for
-- candidates and stores them, or fails; a failed run is tried again within its budget. The provider's
-- answer, the deny patterns and what other connections commit meanwhile are parameters; the clock
-- stands still during a call.
pub mod Loop
pub mod Attempt
pub mod Retry
use lenko_bot.Prelude.{
  ℕ, zero, suc, ◌+◌, List, [], ◌∷◌, Bool, true, false, ◌&&◌, ◌||◌, not, leb, ◌==◌, if◌then◌else◌,
  Option, none, some, is_some, Outcome, ok, err, Error, ◌>>=◌, ◌>>◌, or_raise, raise_if,
  value_error, key_error, runtime_error, out_of_fuel, any, map,
}
use lenko_bot.Prelude.Table.{find}
use lenko_bot.Text.{Text, text_eq}
use lenko_bot.State.{
  State, reading, ◌>=>◌, MemoryExtractionRun, ExtractionRunStatus, MemoryRecord, MemoryScope,
  MemorySource, TranscriptTurn,
}
use lenko_bot.Session.Query.{extraction_exchange, persona_key_for_session}
use lenko_bot.Memory.{NewMemory, scope_eq}
use lenko_bot.Memory.Context.{ensure_relationship}
use lenko_bot.Memory.Runs.{status_eq, get_extraction_run, list_extraction_runs}
use lenko_bot.Memory.Runs.Transition.{
  claim_extraction_run, fail_extraction_run, retry_extraction_run,
}
use lenko_bot.Memory.Activate.{activate_extraction}
use lenko_bot.Memory.Candidate.{MemoryCandidate, Accepted, validate, category_value}

-- `respond` answers to an exchange with the parsed candidates; it may raise.
pub record Service : Type 0 where
  pub profile_id : Text
  pub is_denied : Text → Bool
  pub respond : State → TranscriptTurn × TranscriptTurn → Outcome (List MemoryCandidate)
  pub meanwhile : State → State

-- `persona_id_for_key` of the memory store.
unfoldable pub persona_id_for_key : Text → Text → State → Option ℕ
persona_id_for_key profile key st =
    elim (find (λ p. text_eq p.profile_id profile && text_eq p.key key) st.personas) [
      | none ↦ none
      | some p ↦ some p.id
    ]

-- Every id is the user's turn or its reply.
abbrev pub is_supported : TranscriptTurn × TranscriptTurn → Accepted → Bool
is_supported (turn, reply) c =
    not (any (λ n. not (n == turn.id || n == reply.id)) c.evidence_turn_ids)

abbrev pub is_of_scope : MemoryScope → Accepted → Bool
is_of_scope scope c = scope_eq c.scope scope

-- The loop over the candidates: a denied one is left out.
unfoldable pub accept_all :
    Service
    → Option ℕ
    → TranscriptTurn × TranscriptTurn
    → List MemoryCandidate
    → Outcome (List Accepted)
accept_all service persona exchange [] = ok []
accept_all service persona exchange (c ∷ cs) = do
  validated ← validate service.is_denied c
  raise_if
      (elim validated [
        | none ↦ false
        | some a ↦
            not (is_supported exchange a)
            || (not (is_of_scope MemoryScope.shared a) && not (is_some persona))
      ])
      value_error
  rest ← accept_all service persona exchange cs
  ok (elim validated [ none ↦ rest | some a ↦ a ∷ rest ])

abbrev pub new_memory_of : MemoryExtractionRun → ℕ → Option ℕ → Option ℕ → Accepted → NewMemory
new_memory_of run owner persona relationship c = record {
  user_id = owner;
  scope = c.scope;
  kind = category_value c.category;
  content = c.text;
  persona_id = if is_of_scope MemoryScope.persona_private c then persona else none;
  relationship_id = if is_of_scope MemoryScope.relationship c then relationship else none;
  provenance_session_id = some run.session_id;
  created_at = none;
  updated_at = none;
  source = MemorySource.automatic;
  category = some c.category;
  confidence = some c.confidence;
  provenance_turn_id = some run.source_turn_id;
}

-- The relationship of the owner with the persona, if a candidate is about it.
unfoldable pub relationship_for :
    ℕ → Option ℕ → List Accepted → ℕ → State → Outcome (Option ℕ) × State
relationship_for owner persona accepted now st =
    if any (is_of_scope MemoryScope.relationship) accepted
    then (reading (or_raise persona value_error) st
        >=> (λ p. ensure_relationship owner p now)
        >=> (λ r. reading (ok (some r.id))))
    else (ok none, st)

unfoldable pub prepare_records :
    Service
    → MemoryExtractionRun
    → ℕ
    → List MemoryCandidate
    → TranscriptTurn × TranscriptTurn
    → ℕ
    → State
    → Outcome (List NewMemory) × State
unfolding persona_id_for_key accept_all relationship_for
prepare_records service run owner candidates exchange now st =
    reading (persona_key_for_session run.session_id owner st) st >=> λ key st.
    let persona = persona_id_for_key service.profile_id key st in
    reading (accept_all service persona exchange candidates) st >=> λ accepted st.
    relationship_for owner persona accepted now st >=> λ relationship.
    reading (ok (map (new_memory_of run owner persona relationship) accepted))

-- The statements between the claim and the end of the try block.
unfoldable pub extract :
    Service → MemoryExtractionRun → ℕ → ℕ → State → Outcome (List MemoryRecord) × State
unfolding prepare_records
extract service run owner now st =
    reading (extraction_exchange run.session_id owner run.source_turn_id st) st >=> λ exchange st.
    reading (service.respond st exchange) (service.meanwhile st) >=> λ candidates st.
    prepare_records service run owner candidates exchange now st >=> λ records.
    activate_extraction run.id owner records now

abbrev pub extraction_failed : Text
extraction_failed =
    101 ∷ 120 ∷ 116 ∷ 114 ∷ 97 ∷ 99 ∷ 116 ∷ 105 ∷ 111 ∷ 110 ∷ 95 ∷ 102 ∷ 97 ∷ 105 ∷ 108 ∷ 101 ∷ 100
    ∷ []

-- `except (KeyError, RuntimeError): pass`
abbrev pub failure_error : Outcome MemoryExtractionRun → Error → Error
failure_error (ok run) e = e
failure_error (err key_error) e = e
failure_error (err runtime_error) e = e
failure_error (err other) e = other

-- The except block: the run fails, and the exception is raised again.
unfoldable pub conclude :
    MemoryExtractionRun
    → ℕ
    → ℕ
    → Outcome (List MemoryRecord) × State
    → Outcome (List MemoryRecord) × State
conclude run owner now (ok records, st) = (ok records, st)
conclude run owner now (err e, st) =
    let failed = fail_extraction_run run.id owner extraction_failed now st in
    (err (failure_error failed.0 e), failed.1)

unfoldable pub process : Service → ℕ → ℕ → ℕ → State → Outcome (List MemoryRecord) × State
unfolding extract conclude
process service id owner now st = claim_extraction_run id owner now st >=> λ run st.
    conclude run owner now (extract service run owner now st)
