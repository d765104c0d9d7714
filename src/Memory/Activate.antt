-- ===== src/Memory/Activate.antt =====
-- src/lenkobot/memory.py, `activate_extraction`: the memories of a run are stored and the run is
-- completed in one transaction.
pub mod Once
use lenko_bot.Prelude.{
  ℕ, List, [], ◌∷◌, Bool, true, false, ◌&&◌, ◌||◌, not, ◌==◌, Option, none, some, Outcome, ok, err,
  ◌>>=◌, ◌>>◌, or_raise, raise_if, value_error, key_error, permission_error, runtime_error, any,
}
use lenko_bot.Prelude.Table.{update, count_where}
use lenko_bot.Reminder.Types.{Profile}
use lenko_bot.State.{
  State, Body, transaction, reading, ◌>=>◌, MemoryExtractionRun, ExtractionRunStatus, MemoryRecord,
}
use lenko_bot.Session.Deletion.{equals}
use lenko_bot.Memory.{NewMemory, is_automatic, normalize_memory_metadata, create_in_transaction}
use lenko_bot.Memory.Runs.{status_eq}
use lenko_bot.Memory.Runs.Transition.{run_with_profile, is_stale, has_status, move_run}

unfoldable pub normalize_all : List NewMemory → Outcome (Unit {0})
normalize_all [] = ok tt
normalize_all (m ∷ ms) = do normalize_memory_metadata m; normalize_all ms

-- The memories are the owner's, automatic, and from the run's session and turn.
unfoldable pub check_provenance : ℕ → MemoryExtractionRun → List NewMemory → Outcome (Unit {0})
check_provenance owner run [] = ok tt
check_provenance owner run (m ∷ ms) = do
  raise_if (not (m.user_id == owner)) permission_error
  raise_if (not (is_automatic m.source)) value_error
  raise_if (not (equals m.provenance_session_id run.session_id)) value_error
  raise_if (not (equals m.provenance_turn_id run.source_turn_id)) value_error
  check_provenance owner run ms

unfoldable pub create_all : List NewMemory → ℕ → Body (List MemoryRecord)
create_all [] timestamp st = ok ([], st)
create_all (m ∷ ms) timestamp st = do
  first ← create_in_transaction m timestamp st
  rest ← create_all ms timestamp first.1
  ok (first.0 ∷ rest.0, rest.1)

abbrev pub is_completable : ℕ → ℕ → ℕ → MemoryExtractionRun → Bool
is_completable id owner epoch r =
    has_status id owner ExtractionRunStatus.processing r && r.lifecycle_epoch == epoch

unfoldable pub complete_run : ℕ → ℕ → ℕ → ℕ → List MemoryRecord → Body (List MemoryRecord)
complete_run id owner epoch now rows st = do
  raise_if (not (count_where (is_completable id owner epoch) st.runs == 1)) runtime_error
  ok (
    rows,
    record st {
      runs =
          update (is_completable id owner epoch) (move_run ExtractionRunStatus.completed 0 none now)
            st.runs;
    },
  )

unfoldable pub activate_body : ℕ → ℕ → List NewMemory → ℕ → Body (List MemoryRecord)
unfolding check_provenance create_all complete_run
activate_body id owner memories now st = do
  joined ← or_raise (run_with_profile id owner st) key_error
  raise_if (is_stale joined) runtime_error
  raise_if (not (status_eq (joined.0).status ExtractionRunStatus.processing)) runtime_error
  check_provenance owner joined.0 memories
  created ← create_all memories now st
  complete_run id owner (joined.0).lifecycle_epoch now created.0 created.1

unfoldable pub activate_extraction :
    ℕ → ℕ → List NewMemory → ℕ → State → Outcome (List MemoryRecord) × State
unfolding normalize_all activate_body
activate_extraction id owner memories now st =
    reading (normalize_all memories) st >=> λ _. transaction (activate_body id owner memories now)
