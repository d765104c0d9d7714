-- ===== src/Session/Tests.antt =====
-- Sessions on concrete tables.
use lenko_bot.Prelude.{ℕ, ◌+◌, ◌≡◌, refl, [], ◌∷◌, length, false, Option, none, some, ok, All}
use lenko_bot.Prelude.Table.{find, select, update, delete, count_where, max_of, next_id}
use lenko_bot.Text.{Text, strip, is_blank, is_empty, is_space, drop_while, text_eq}
use lenko_bot.Reminder.Profile.{default_profile}
use lenko_bot.State.{
  State, Session, SessionStatus, Role, TranscriptTurn, SessionSummary, SummaryStatus,
  MemoryExtractionRun, ExtractionRunStatus, insert_profile, profile_of, owns_session,
}
use lenko_bot.State.Order.{order_by, insert_by}
use lenko_bot.Memory.Runs.{has_blocking_extraction_runs}
use lenko_bot.Session.{
  ensure_active_session, ensure_session_body, open_session, new_session, next_generation,
  append_turn, append_turn_body, new_turn, next_sequence, begin_user_turn, append_assistant_turn,
  is_in_session,
}
use lenko_bot.Session.Query.{extraction_exchange}
use lenko_bot.Session.Finalize.{
  Generate, Processor, get_summary, load_active_session, load_turns, ensure_extraction_gate,
  take_snapshot, generate_summary, delete_turns, new_summary, write_summary, finalize_current,
  finalize_body, process_runs, finalize,
}
use lenko_bot.Session.Deletion.{
  TurnDeletionResult, deleted_turn_ids, delete_memories, delete_each, delete_derived, find_turn,
  delete_turn_body, delete_turn,
}
use lenko_bot.Session.Invariant.{IsConsistent}
use lenko_bot.Session.Invariant.Run.{Step, Reach, Reach-IsConsistent}
use lenko_bot.Session.Finalized.{finalize-done}
use lenko_bot.Session.Exchange.{extraction_exchange-append_assistant_turn}
use lenko_bot.Session.Deletion.Taken.{IsTaken}
use lenko_bot.Session.Deletion.Exact.{IsActiveOf, IsFrom, IsRunOf, delete_turn-exact}
use lenko_bot.Prelude.Table.Unique.{In}
use lenko_bot.Prelude.Table.Without.{Without}

abbrev pub hello : Text
hello = 104 ∷ 105 ∷ []

abbrev pub reply : Text
reply = 121 ∷ 111 ∷ []

-- The owner 7 and the lane 3 of a persona, with no session yet.
abbrev pub no_sessions : State
no_sessions = record {
  profiles = default_profile 7 ∷ [];
  personas = [];
  lanes = record { id = 3; persona_key = hello } ∷ [];
  sessions = [];
  turns = [];
  failures = [];
  summaries = [];
  runs = [];
  memories = [];
  revisions = [];
  relationships = [];
}

abbrev pub first_session : Session
first_session = record {
  id = 1;
  persona_session_id = 3;
  owner_user_id = 7;
  generation = 1;
  status = SessionStatus.active;
  opened_at = 10;
  closed_at = none;
}

abbrev pub user_turn : TranscriptTurn
user_turn = record {
  id = 1;
  session_id = 1;
  sequence = 1;
  role = Role.user;
  content = hello;
  provider_response_id = none;
  created_at = 10;
}

abbrev pub reply_turn : TranscriptTurn
reply_turn = record {
  id = 2;
  session_id = 1;
  sequence = 2;
  role = Role.assistant;
  content = reply;
  provider_response_id = none;
  created_at = 20;
}

abbrev pub begun : State
begun = record no_sessions { sessions = first_session ∷ []; turns = user_turn ∷ [] }

abbrev pub talk : State
talk = record no_sessions { sessions = first_session ∷ []; turns = user_turn ∷ reply_turn ∷ [] }

no_sessions-IsConsistent : IsConsistent no_sessions
no_sessions-IsConsistent = record {
  session_ids = tt;
  one_active = tt;
  generations = tt;
  turn_ids = tt;
  sequences = tt;
  open_turns = tt;
  summarised = tt;
}

talk-IsConsistent : IsConsistent talk
talk-IsConsistent = record {
  session_ids = (tt, tt);
  one_active = (tt, tt);
  generations = (tt, tt);
  turn_ids = ((refl, tt), (tt, tt));
  sequences = ((refl, tt), (tt, tt));
  open_turns = (refl, (refl, tt));
  summarised = tt;
}

Reach-IsConsistent_example :
    IsConsistent
      (append_turn 1 Role.user hello none 10 (ensure_active_session 7 3 10 no_sessions).1).1
Reach-IsConsistent_example =
    Reach-IsConsistent no_sessions _
      (Reach.further (Reach.further Reach.here (Step.ensures 7 3 10))
        (Step.appends 1 Role.user hello none 10))
      no_sessions-IsConsistent

extraction_exchange-append_assistant_turn_example :
    extraction_exchange 1 7 1 talk ≡ ok (user_turn, reply_turn)
unfolding begin_user_turn append_assistant_turn ensure_active_session ensure_session_body
    open_session new_session next_generation append_turn append_turn_body new_turn next_sequence
    insert_profile find select max_of next_id strip is_blank is_empty is_space drop_while
extraction_exchange-append_assistant_turn_example =
    extraction_exchange-append_assistant_turn 7 3 hello 10 no_sessions begun user_turn reply none 20
      talk reply_turn no_sessions-IsConsistent refl refl

-- The generator of a summary that is always the same.
abbrev pub same_summary : Generate
same_summary turns = ok reply

abbrev pub untouched : State → State
untouched st = st

abbrev pub summary : SessionSummary
summary = record {
  id = 1;
  session_id = 1;
  owner_user_id = 7;
  content = reply;
  source_turn_count = 2;
  lifecycle_epoch = 1;
  status = SummaryStatus.active;
  created_at = 30;
}

abbrev pub finalized : State
finalized = record talk {
  sessions = record first_session { status = SessionStatus.closed; closed_at = some 30 } ∷ [];
  turns = [];
  summaries = summary ∷ [];
}

summary_written : finalize same_summary none untouched 1 7 30 talk ≡ (ok summary, finalized)
unfolding finalize get_summary load_active_session load_turns ensure_extraction_gate take_snapshot
    generate_summary delete_turns new_summary write_summary finalize_current finalize_body
    process_runs has_blocking_extraction_runs owns_session profile_of order_by insert_by find select
    update delete max_of next_id strip is_blank is_empty is_space drop_while text_eq
summary_written = refl

finalize-done_example :
    IsConsistent finalized
    × (get_summary 1 7 finalized ≡ some summary)
    × All (λ t. is_in_session 1 t ≡ false) finalized.turns
    × ((again : Generate) (other : Option Processor) (between : State → State) (later : ℕ)
        → finalize again other between 1 7 later finalized ≡ (ok summary, finalized))
unfolding process_runs
finalize-done_example =
    finalize-done same_summary none untouched 1 7 30 talk finalized summary talk-IsConsistent
      (λ x w. w) (λ x w. w) summary_written

abbrev deletion : TurnDeletionResult
deletion = record {
  turn_id = 1;
  deleted_memory_count = 0;
  invalidated_summary = false;
  deleted_turn_count = 2;
}

abbrev third_turn : TranscriptTurn
third_turn = record user_turn { id = 3; sequence = 3; created_at = 25 }

abbrev first_run : MemoryExtractionRun
first_run = record {
  id = 1;
  owner_user_id = 7;
  session_id = 1;
  source_turn_id = 1;
  lifecycle_epoch = 1;
  status = ExtractionRunStatus.pending;
  attempt = 0;
  error_kind = none;
  created_at = 20;
  updated_at = 20;
}

-- Three turns, and the extraction runs of the first and the third.
abbrev longer_talk : State
longer_talk = record talk {
  turns = user_turn ∷ reply_turn ∷ third_turn ∷ [];
  runs = first_run ∷ record first_run { id = 2; source_turn_id = 3 } ∷ [];
}

abbrev shortened : State
shortened = record longer_talk {
  turns = third_turn ∷ [];
  runs = record first_run { id = 2; source_turn_id = 3 } ∷ [];
}

longer_talk-IsConsistent : IsConsistent longer_talk
longer_talk-IsConsistent = record {
  session_ids = (tt, tt);
  one_active = (tt, tt);
  generations = (tt, tt);
  turn_ids = ((refl, (refl, tt)), ((refl, tt), (tt, tt)));
  sequences = ((refl, (refl, tt)), ((refl, tt), (tt, tt)));
  open_turns = (refl, (refl, (refl, tt)));
  summarised = tt;
}

delete_first : delete_turn 7 1 1 longer_talk ≡ (ok deletion, shortened)
unfolding delete_turn delete_turn_body find_turn deleted_turn_ids delete_derived delete_memories
    delete_each delete_turns count_where find update delete
delete_first = refl

delete_turn-exact_example :
    ((s : Session) × In s longer_talk.sessions × IsActiveOf 7 1 s)
    × ((row : TranscriptTurn) × In row longer_talk.turns
        × (row.id ≡ 1)
        × (row.session_id ≡ 1)
        × Without (IsTaken row) longer_talk.turns shortened.turns)
    × Without (IsFrom 7 1) longer_talk.memories shortened.memories
    × Without (IsRunOf 7 1 1) longer_talk.runs shortened.runs
    × (length longer_talk.turns ≡ length shortened.turns + deletion.deleted_turn_count)
    × (length longer_talk.memories ≡ length shortened.memories + deletion.deleted_memory_count)
delete_turn-exact_example =
    delete_turn-exact 7 1 1 longer_talk shortened deletion longer_talk-IsConsistent delete_first

-- While the summary of `talk` is generated, the reply is deleted and another user's turn is begun. It
-- gets the id of the deleted turn, so the check of the ids passes, and the turn is deleted unsummarised.
abbrev meanwhile : State → State
meanwhile st = (begin_user_turn 7 3 hello 25 (delete_turn 7 1 2 st).1).1

finalize_reused_id : finalize same_summary none meanwhile 1 7 30 talk ≡ (ok summary, finalized)
unfolding finalize get_summary load_active_session load_turns ensure_extraction_gate take_snapshot
    generate_summary delete_turns new_summary write_summary finalize_current finalize_body
    process_runs has_blocking_extraction_runs owns_session profile_of order_by insert_by find select
    update delete max_of next_id strip is_blank is_empty is_space drop_while text_eq begin_user_turn
    ensure_active_session ensure_session_body open_session append_turn append_turn_body new_turn
    next_sequence insert_profile delete_turn delete_turn_body find_turn deleted_turn_ids
    delete_derived delete_memories delete_each count_where
finalize_reused_id = refl
