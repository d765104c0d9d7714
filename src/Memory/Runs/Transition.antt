-- ===== src/Memory/Runs/Transition.antt =====
-- src/lenkobot/memory.py, `_transition_extraction_run` and the transitions of an extraction run.
use lenko_bot.Prelude.{
  ℕ, ◌+◌, Bool, ◌&&◌, ◌||◌, not, leb, ◌==◌, if◌then◌else◌, Option, none, some, Outcome, ok, err,
  ◌>>=◌, ◌>>◌, or_raise, raise_if, value_error, key_error, runtime_error,
}
use lenko_bot.Prelude.Table.{find, update}
use lenko_bot.Text.{Text}
use lenko_bot.Reminder.Types.{Profile}
use lenko_bot.Reminder.Store.{is_active_state}
use lenko_bot.Reminder.Delivery.{is_error_kind}
use lenko_bot.State.{
  State, Body, transaction, reading, ◌>=>◌, MemoryExtractionRun, ExtractionRunStatus, profile_of,
}
use lenko_bot.Memory.Runs.{get_extraction_run, is_owned_run, status_eq}

-- The JOIN of the owner's run with the owner's profile.
unfoldable pub run_with_profile : ℕ → ℕ → State → Option (MemoryExtractionRun × Profile)
run_with_profile id owner st = elim (find (is_owned_run id owner) st.runs) [
  | none ↦ none
  | some r ↦ elim (profile_of st r.owner_user_id) [ none ↦ none | some p ↦ some (r, p) ]
]

-- Whether a run of the epoch may go on: the owner's epoch is still the same and active.
abbrev pub is_stale : MemoryExtractionRun × Profile → Bool
is_stale (r, p) =
    not (is_active_state p.lifecycle_state) || not (p.lifecycle_epoch == r.lifecycle_epoch)

abbrev pub move_run :
    ExtractionRunStatus → ℕ → Option Text → ℕ → MemoryExtractionRun → MemoryExtractionRun
move_run target increment kind now r = record r {
  status = target;
  attempt = r.attempt + increment;
  error_kind = kind;
  updated_at = now;
}

abbrev pub has_status : ℕ → ℕ → ExtractionRunStatus → MemoryExtractionRun → Bool
has_status id owner expected r = is_owned_run id owner r && status_eq r.status expected

unfoldable pub transition_body :
    ℕ
    → ℕ
    → ExtractionRunStatus
    → ExtractionRunStatus
    → ℕ
    → Option Text
    → ℕ
    → Body (Option MemoryExtractionRun)
unfolding run_with_profile
transition_body id owner expected target increment kind now st = do
  joined ← or_raise (run_with_profile id owner st) key_error
  raise_if (is_stale joined) runtime_error
  raise_if (not (status_eq (joined.0).status expected)) runtime_error
  let runs = update (has_status id owner expected) (move_run target increment kind now) st.runs
  ok (find (λ r. r.id == id) runs, record st { runs = runs })

unfoldable pub transition_extraction_run :
    ℕ
    → ℕ
    → ExtractionRunStatus
    → ExtractionRunStatus
    → ℕ
    → Option Text
    → ℕ
    → State
    → Outcome MemoryExtractionRun × State
unfolding transition_body
transition_extraction_run id owner expected target increment kind now st =
    if id == 0 || owner == 0
    then (err value_error, st)
    else transaction (transition_body id owner expected target increment kind now) st >=> λ row.
        reading (or_raise row runtime_error)

unfoldable pub claim_extraction_run : ℕ → ℕ → ℕ → State → Outcome MemoryExtractionRun × State
claim_extraction_run id owner =
    transition_extraction_run id owner ExtractionRunStatus.pending ExtractionRunStatus.processing 1
      none

unfoldable pub retry_run :
    ℕ → ℕ → ℕ → MemoryExtractionRun → ℕ → State → Outcome MemoryExtractionRun × State
retry_run id owner max_attempts run now st =
    if not (status_eq run.status ExtractionRunStatus.failed) || leb max_attempts run.attempt
    then (err runtime_error, st)
    else transition_extraction_run id owner ExtractionRunStatus.failed ExtractionRunStatus.pending 0
        none now st

unfoldable pub retry_extraction_run : ℕ → ℕ → ℕ → ℕ → State → Outcome MemoryExtractionRun × State
unfolding get_extraction_run retry_run
retry_extraction_run id owner max_attempts now st =
    if max_attempts == 0
    then (err value_error, st)
    else reading (get_extraction_run id owner st) st
      >=> (λ row. reading (or_raise row key_error))
      >=> λ run. retry_run id owner max_attempts run now

unfoldable pub complete_extraction_run : ℕ → ℕ → ℕ → State → Outcome MemoryExtractionRun × State
complete_extraction_run id owner =
    transition_extraction_run id owner ExtractionRunStatus.processing ExtractionRunStatus.completed
      0 none

unfoldable pub fail_extraction_run : ℕ → ℕ → Text → ℕ → State → Outcome MemoryExtractionRun × State
fail_extraction_run id owner kind now st =
    if not (is_error_kind kind)
    then (err value_error, st)
    else transition_extraction_run id owner ExtractionRunStatus.processing
        ExtractionRunStatus.failed 0 (some kind) now st

unfoldable pub discard_extraction_run : ℕ → ℕ → ℕ → State → Outcome MemoryExtractionRun × State
discard_extraction_run id owner =
    transition_extraction_run id owner ExtractionRunStatus.processing ExtractionRunStatus.discarded
      0 none

unfoldable pub recover_extraction_run : ℕ → ℕ → ℕ → State → Outcome MemoryExtractionRun × State
recover_extraction_run id owner =
    transition_extraction_run id owner ExtractionRunStatus.processing ExtractionRunStatus.pending 0
      none
