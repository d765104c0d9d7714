-- ===== src/Memory/Extraction/Loop.antt =====
-- src/lenkobot/memory_extraction.py, `process_with_retry` and `process_for_session`.
use lenko_bot.Prelude.{
  ℕ, zero, suc, List, [], ◌∷◌, Bool, true, false, ◌||◌, not, leb, ◌==◌, if◌then◌else◌, Option, none,
  some, Outcome, ok, err, Error, value_error, runtime_error, out_of_fuel,
}
use lenko_bot.State.{State, reading, ◌>=>◌, MemoryExtractionRun, ExtractionRunStatus, MemoryRecord}
use lenko_bot.Memory.Runs.{status_eq, get_extraction_run, list_extraction_runs}
use lenko_bot.Memory.Runs.Transition.{retry_extraction_run}
use lenko_bot.Memory.Extraction.{Service, process}

-- Whether the loop ends with the exception: the run is gone, has not failed, or has no attempt left.
abbrev pub is_over : ℕ → Option MemoryExtractionRun → Bool
is_over max_attempts none = true
is_over max_attempts (some run) =
    not (status_eq run.status ExtractionRunStatus.failed) || leb max_attempts run.attempt

-- After a process that raised e: the end of the loop, or the rest of it after a retry.
unfoldable pub after_failure :
    ℕ
    → ℕ
    → ℕ
    → ℕ
    → Error
    → (State → Option (Outcome (List MemoryRecord) × State))
    → State
    → Option (Outcome (List MemoryRecord) × State)
after_failure id owner max_attempts now e rest st = elim (get_extraction_run id owner st) [
  | err bad ↦ some (err bad, st)
  | ok run ↦ elim (is_over max_attempts run) [
    | true ↦ some (err e, st)
    | false ↦ elim (retry_extraction_run id owner max_attempts now st).0 [
      | err bad ↦ some (err bad, (retry_extraction_run id owner max_attempts now st).1)
      | ok _ ↦ rest (retry_extraction_run id owner max_attempts now st).1
    ]
  ]
]

-- The endless loop, on fuel; none when the fuel is used up.
unfoldable pub retry_loop :
    ℕ → Service → ℕ → ℕ → ℕ → ℕ → State → Option (Outcome (List MemoryRecord) × State)
unfolding after_failure
retry_loop zero service id owner max_attempts now st = none
retry_loop (suc fuel) service id owner max_attempts now st =
    elim (process service id owner now st).0 [
      | ok records ↦ some (ok records, (process service id owner now st).1)
      | err e ↦
          after_failure id owner max_attempts now e
            (retry_loop fuel service id owner max_attempts now) (process service id owner now st).1
    ]

unfoldable pub process_with_retry :
    Service → ℕ → ℕ → ℕ → ℕ → State → Outcome (List MemoryRecord) × State
unfolding retry_loop
process_with_retry service id owner max_attempts now st =
    if max_attempts == 0
    then (err value_error, st)
    else elim (retry_loop (suc max_attempts) service id owner max_attempts now st) [
      | none ↦ (err out_of_fuel, st)
      | some r ↦ r
    ]

-- One round of `process_for_session`, by the status that the run had when it was listed.
unfoldable pub process_listed :
    Service
    → ℕ
    → ℕ
    → ℕ
    → MemoryExtractionRun
    → ExtractionRunStatus
    → State
    → Outcome (Unit {0}) × State
process_listed service owner max_attempts now run ExtractionRunStatus.completed st = (ok tt, st)
process_listed service owner max_attempts now run ExtractionRunStatus.discarded st = (ok tt, st)
process_listed service owner max_attempts now run ExtractionRunStatus.processing st =
    (err runtime_error, st)
process_listed service owner max_attempts now run ExtractionRunStatus.failed st =
    retry_extraction_run run.id owner max_attempts now st
    >=> (λ _. process_with_retry service run.id owner max_attempts now)
    >=> λ _. reading (ok tt)
process_listed service owner max_attempts now run ExtractionRunStatus.pending st =
    process_with_retry service run.id owner max_attempts now st >=> λ _. reading (ok tt)

unfoldable pub process_each :
    Service → ℕ → ℕ → ℕ → List MemoryExtractionRun → State → Outcome (Unit {0}) × State
unfolding process_listed
process_each service owner max_attempts now [] st = (ok tt, st)
process_each service owner max_attempts now (run ∷ runs) st =
    process_listed service owner max_attempts now run run.status st >=> λ _.
    process_each service owner max_attempts now runs

unfoldable pub process_for_session : Service → ℕ → ℕ → ℕ → ℕ → State → Outcome (Unit {0}) × State
unfolding process_each
process_for_session service session owner max_attempts now st =
    reading (list_extraction_runs owner session st) st >=> λ runs.
    process_each service owner max_attempts now runs
