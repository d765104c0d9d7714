-- ===== src/Memory/Coordinator.antt =====
-- src/lenkobot/memory_extraction.py, `ExtractionCoordinator`: the runs of a lane are drained before a
-- turn, and a run is processed after its reply is delivered. Its lock is held for a whole call.
use lenko_bot.Prelude.{
  ℕ, List, [], ◌∷◌, Bool, false, not, leb, ◌==◌, if◌then◌else◌, Option, none, some, Outcome, ok,
  err, or_raise, value_error, runtime_error,
}
use lenko_bot.State.{State, reading, ◌>=>◌, MemoryExtractionRun, ExtractionRunStatus}
use lenko_bot.Memory.Runs.{
  status_eq, get_extraction_run, list_extraction_runs_for_lane, extraction_lane_ids_for_user,
}
use lenko_bot.Memory.Runs.Transition.{recover_extraction_run, retry_extraction_run}
use lenko_bot.Memory.Extraction.{Service}
use lenko_bot.Memory.Extraction.Loop.{process_with_retry}

-- `process_with_retry`, whose result is not used.
abbrev pub run_service : Service → ℕ → ℕ → ℕ → ℕ → State → Outcome (Unit {0}) × State
run_service service id owner max_attempts now st =
    process_with_retry service id owner max_attempts now st >=> λ _. reading (ok tt)

-- One round of `drain_for_lane`, by the status that the run had when it was listed.
unfoldable pub drain_run :
    Service
    → ℕ
    → ℕ
    → ℕ
    → MemoryExtractionRun
    → ExtractionRunStatus
    → State
    → Outcome (Unit {0}) × State
drain_run service owner max_attempts now run ExtractionRunStatus.processing st =
    recover_extraction_run run.id owner now st >=> λ _.
    run_service service run.id owner max_attempts now
drain_run service owner max_attempts now run ExtractionRunStatus.failed st =
    if leb max_attempts run.attempt
    then (ok tt, st)
    else retry_extraction_run run.id owner max_attempts now st >=> λ _.
        run_service service run.id owner max_attempts now
drain_run service owner max_attempts now run ExtractionRunStatus.pending st =
    run_service service run.id owner max_attempts now st
drain_run service owner max_attempts now run _ st = (ok tt, st)

unfoldable pub drain_each :
    Service → ℕ → ℕ → ℕ → List MemoryExtractionRun → State → Outcome (Unit {0}) × State
unfolding drain_run
drain_each service owner max_attempts now [] st = (ok tt, st)
drain_each service owner max_attempts now (run ∷ runs) st =
    drain_run service owner max_attempts now run run.status st >=> λ _.
    drain_each service owner max_attempts now runs

unfoldable pub drain_for_lane : Service → ℕ → ℕ → ℕ → ℕ → State → Outcome (Unit {0}) × State
unfolding drain_each
drain_for_lane service owner lane max_attempts now st =
    reading (list_extraction_runs_for_lane owner lane st) st >=> λ runs.
    drain_each service owner max_attempts now runs

-- `recover_extraction_run` on a run that is processing, then the run read again.
unfoldable pub recovered :
    ℕ → ℕ → MemoryExtractionRun → State → Outcome (Option MemoryExtractionRun) × State
recovered owner now run st =
    if status_eq run.status ExtractionRunStatus.processing
    then (recover_extraction_run run.id owner now st
        >=> (λ _ st. reading (get_extraction_run run.id owner st) st))
    else (ok (some run), st)

unfoldable pub process_recovered :
    Service
    → ℕ
    → ℕ
    → ℕ
    → MemoryExtractionRun
    → ExtractionRunStatus
    → State
    → Outcome (Unit {0}) × State
process_recovered service owner max_attempts now run ExtractionRunStatus.completed st = (ok tt, st)
process_recovered service owner max_attempts now run ExtractionRunStatus.discarded st = (ok tt, st)
process_recovered service owner max_attempts now run ExtractionRunStatus.failed st =
    if leb max_attempts run.attempt
    then (err runtime_error, st)
    else retry_extraction_run run.id owner max_attempts now st >=> λ _.
        run_service service run.id owner max_attempts now
process_recovered service owner max_attempts now run _ st =
    run_service service run.id owner max_attempts now st

-- The id of the run's session is compared with the id of the lane.
abbrev pub is_of_lane : ℕ → Option MemoryExtractionRun → Bool
is_of_lane lane none = false
is_of_lane lane (some run) = run.session_id == lane

unfoldable pub process_after_delivery :
    Service → ℕ → ℕ → ℕ → ℕ → ℕ → State → Outcome (Unit {0}) × State
unfolding recovered process_recovered
process_after_delivery service id owner lane max_attempts now st =
    reading (get_extraction_run id owner st) st >=> λ row st.
    if not (is_of_lane lane row)
    then (err value_error, st)
    else reading (or_raise row value_error) st
      >=> (λ run. recovered owner now run)
      >=> (λ again. reading (or_raise again value_error))
      >=> λ run. process_recovered service owner max_attempts now run run.status

-- The loop over the lanes: a lane that raises is left as it is.
unfoldable pub recover_each : Service → ℕ → ℕ → ℕ → List ℕ → State → State
unfolding drain_for_lane
recover_each service owner max_attempts now [] st = st
recover_each service owner max_attempts now (lane ∷ lanes) st =
    recover_each service owner max_attempts now lanes
      (drain_for_lane service owner lane max_attempts now st).1

unfoldable pub recover_for_user : Service → ℕ → ℕ → ℕ → State → Outcome (Unit {0}) × State
unfolding recover_each
recover_for_user service owner max_attempts now st =
    reading (extraction_lane_ids_for_user owner st) st >=> λ lanes st.
    (ok tt, recover_each service owner max_attempts now lanes st)
