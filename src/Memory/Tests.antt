-- ===== src/Memory/Tests.antt =====
-- Memories and extraction runs on concrete tables.
use lenko_bot.Prelude.{
  any, true, ◌≡◌, refl, List, [], ◌∷◌, false, none, some, Outcome, ok, err, Error, value_error,
}
use lenko_bot.Prelude.Table.{find, select, update, delete, count_where, max_of, next_id}
use lenko_bot.Text.{strip, is_blank, is_empty, is_space, drop_while, text_eq}
use lenko_bot.State.{
  State, TranscriptTurn, MemoryExtractionRun, ExtractionRunStatus, MemoryRecord, MemoryScope,
  MemoryStatus, MemorySource, MemoryCategory, Float, insert_profile, profile_of, is_confidence,
  power_of_two, owns_session,
}
use lenko_bot.State.Order.{order_by, insert_by}
use lenko_bot.Session.Query.{extraction_exchange, exchange_in, list_turns, persona_key_for_session}
use lenko_bot.Session.Tests.{hello, reply, talk, user_turn}
use lenko_bot.Session.Deletion.{
  TurnDeletionResult, deleted_turn_ids, delete_memories, delete_each, delete_derived, find_turn,
  delete_turn_body, delete_turn,
}
use lenko_bot.Session.Finalize.{delete_turns}
use lenko_bot.Memory.{
  NewMemory, check_metadata, normalize_memory_metadata, is_storable, is_sql_blank,
  has_scope_columns, new_memory, existing_memory, is_same_memory, select_memory, insert_memory,
  create_in_transaction,
}
use lenko_bot.Memory.Update.{has_version, update_body, insert_revision, new_revision, update_memory}
use lenko_bot.Memory.Update.Version.{update_memory-again}
use lenko_bot.Memory.Runs.{get_extraction_run}
use lenko_bot.Memory.Runs.Transition.{
  transition_extraction_run, transition_body, run_with_profile, claim_extraction_run,
}
use lenko_bot.Memory.Activate.{
  normalize_all, check_provenance, create_all, complete_run, activate_body, activate_extraction,
}
use lenko_bot.Memory.Activate.Once.{activate_extraction-once}
use lenko_bot.Memory.Candidate.{
  MemoryCandidate, category_value, member_of, is_evidence, has_repeated, validate,
}
use lenko_bot.Memory.Extraction.{
  Service, process, extract, conclude, prepare_records, persona_id_for_key, accept_all,
  relationship_for,
}
use lenko_bot.Memory.Extraction.Loop.{retry_loop, process_with_retry}
use lenko_bot.Memory.Extraction.Retry.{process_with_retry-retry_loop}
use lenko_bot.Memory.Coordinator.{process_after_delivery}

abbrev processing_run : MemoryExtractionRun
processing_run = record {
  id = 1;
  owner_user_id = 7;
  session_id = 1;
  source_turn_id = 1;
  lifecycle_epoch = 1;
  status = ExtractionRunStatus.processing;
  attempt = 1;
  error_kind = none;
  created_at = 20;
  updated_at = 20;
}

abbrev pending_run : MemoryExtractionRun
pending_run = record processing_run { status = ExtractionRunStatus.pending; attempt = 0 }

abbrev half : Float
half = Float.dyadic false 1 1

abbrev found_fact : NewMemory
found_fact = record {
  user_id = 7;
  scope = MemoryScope.shared;
  kind = category_value MemoryCategory.fact;
  content = hello;
  persona_id = none;
  relationship_id = none;
  provenance_session_id = some 1;
  created_at = none;
  updated_at = none;
  source = MemorySource.automatic;
  category = some MemoryCategory.fact;
  confidence = some half;
  provenance_turn_id = some 1;
}

abbrev stored_fact : MemoryRecord
stored_fact = record {
  id = 1;
  user_id = 7;
  scope = MemoryScope.shared;
  kind = category_value MemoryCategory.fact;
  content = hello;
  persona_id = none;
  relationship_id = none;
  provenance_session_id = some 1;
  status = MemoryStatus.active;
  created_at = 30;
  updated_at = 30;
  version = 1;
  source = MemorySource.automatic;
  category = some MemoryCategory.fact;
  confidence = some half;
  provenance_turn_id = some 1;
}

abbrev claimed : State
claimed = record talk { runs = processing_run ∷ [] }

abbrev activated : State
activated = record talk {
  runs = record processing_run { status = ExtractionRunStatus.completed; updated_at = 30 } ∷ [];
  memories = stored_fact ∷ [];
}

activate_extraction-once_example :
    (e : Error) × (activate_extraction 1 7 (found_fact ∷ []) 40 activated ≡ (err e, activated))
unfolding activate_extraction normalize_all normalize_memory_metadata check_metadata is_confidence
    power_of_two activate_body run_with_profile profile_of check_provenance create_all
    create_in_transaction existing_memory is_same_memory insert_memory is_storable is_sql_blank
    has_scope_columns new_memory select_memory insert_profile complete_run count_where find update
    max_of next_id
activate_extraction-once_example =
    activate_extraction-once 1 7 (found_fact ∷ []) (found_fact ∷ []) 30 40 claimed activated
      (stored_fact ∷ []) refl

abbrev changed_fact : MemoryRecord
changed_fact = record stored_fact { content = reply; version = 2; updated_at = 50 }

abbrev changed : State
changed = record activated {
  memories = changed_fact ∷ [];
  revisions =
      record {
        id = 1;
        memory_id = 1;
        owner_user_id = 7;
        version = 2;
        content = reply;
        category = some MemoryCategory.fact;
        confidence = some half;
        changed_at = 50;
      }
      ∷ [];
}

update_memory-again_example :
    (any (has_version 1 7 2) changed.memories ≡ true)
    × ((e : Error) × (update_memory 1 7 hello none none none (some 1) 60 changed
          ≡ (err e, changed)))
unfolding update_memory update_body insert_revision new_revision select_memory check_metadata
    is_confidence power_of_two is_sql_blank insert_profile find update max_of next_id
update_memory-again_example =
    update_memory-again 1 7 reply hello none none none none none none 1 50 60 activated changed
      changed_fact refl

-- A provider that always raises, and one that answers with a fact.
abbrev silent : Service
silent = record {
  profile_id = hello;
  is_denied = λ t. false;
  respond = λ st exchange. err value_error;
  meanwhile = λ st. st;
}

abbrev waiting : State
waiting = record talk { runs = pending_run ∷ [] }

process_with_retry-retry_loop_example :
    (r : Outcome (List MemoryRecord) × State) × (retry_loop 4 silent 1 7 3 30 waiting ≡ some r)
    × (process_with_retry silent 1 7 3 30 waiting ≡ r)
process_with_retry-retry_loop_example =
    process_with_retry-retry_loop silent 1 7 3 30 waiting (λ x. refl) refl

abbrev candidate : MemoryCandidate
candidate = record {
  text = hello;
  category = category_value MemoryCategory.fact;
  scope = 115 ∷ 104 ∷ 97 ∷ 114 ∷ 101 ∷ 100 ∷ [];
  confidence = half;
  evidence_turn_ids = 1 ∷ 2 ∷ [];
}

abbrev helpful : Service
helpful = record silent { respond = λ st exchange. ok (candidate ∷ []) }

-- The run is claimed, the answer becomes a memory, and the run is completed.
waiting_processed : process helpful 1 7 30 waiting ≡ (ok (stored_fact ∷ []), activated)
unfolding process claim_extraction_run transition_extraction_run transition_body run_with_profile
    profile_of extract conclude extraction_exchange list_turns owns_session exchange_in order_by
    insert_by prepare_records persona_key_for_session persona_id_for_key accept_all relationship_for
    validate member_of is_evidence has_repeated is_confidence power_of_two activate_extraction
    normalize_all normalize_memory_metadata check_metadata activate_body check_provenance create_all
    create_in_transaction existing_memory is_same_memory insert_memory is_storable is_sql_blank
    has_scope_columns new_memory select_memory insert_profile complete_run count_where find select
    update max_of next_id strip is_blank is_empty is_space drop_while text_eq
waiting_processed = refl

-- The session of the run is 1 and its lane is 3: process_after_delivery refuses the lane.
refused_lane : process_after_delivery helpful 1 7 3 3 30 waiting ≡ (err value_error, waiting)
unfolding process_after_delivery get_extraction_run find
refused_lane = refl

-- A memory of session 1 is deleted with a turn of session 2, whose turn has got the id of the old one.
abbrev later_session : State
later_session = record activated {
  sessions =
      record {
        id = 2;
        persona_session_id = 3;
        owner_user_id = 7;
        generation = 2;
        status = lenko_bot.State.SessionStatus.active;
        opened_at = 90;
        closed_at = none;
      }
      ∷ [];
  turns = record user_turn { session_id = 2; created_at = 95 } ∷ [];
}

abbrev deletion : TurnDeletionResult
deletion = record {
  turn_id = 1;
  deleted_memory_count = 1;
  invalidated_summary = false;
  deleted_turn_count = 1;
}

foreign_memory_deleted :
    delete_turn 7 2 1 later_session
    ≡ (ok deletion, record later_session { turns = []; memories = [] })
unfolding delete_turn delete_turn_body find_turn deleted_turn_ids delete_derived delete_memories
    delete_each delete_turns count_where find update delete
foreign_memory_deleted = refl
