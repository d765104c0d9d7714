-- ===== src/Memory/Extraction/Retry.antt =====
-- The loop of `process_with_retry` ends: every further round has one attempt less.
use lenko_bot.Prelude.{
  ℕ, zero, suc, ◌+◌, ◌≤◌, ◌≡◌, ap, refl, sym, subst, ◌∙◌, List, true, false, ◌||◌, not, inl, inr,
  ◌⊎◌, arith, Option, none, some, Outcome, ok, err, Error, Bool-cases, Option-cases, ◌==◌, leb,
  if◌then◌else◌,
}
use lenko_bot.State.{State, MemoryExtractionRun, ExtractionRunStatus, MemoryRecord}
use lenko_bot.Memory.Runs.{status_eq, get_extraction_run}
use lenko_bot.Memory.Runs.Transition.{retry_run, retry_extraction_run, move_run}
use lenko_bot.Memory.Runs.Laws.{run_at, transition-cases}
use lenko_bot.Memory.Extraction.{Service, process}
use lenko_bot.Memory.Extraction.Loop.{after_failure, retry_loop, process_with_retry}
use lenko_bot.Memory.Extraction.Attempt.{Counted, process-Counted}

-- The loop, or its rest, has ended.
Ended : Option (Outcome (List MemoryRecord) × State) → Type 0
Ended o = (r : Outcome (List MemoryRecord) × State) × (o ≡ some r)

ended : (r : Outcome (List MemoryRecord) × State) → Ended (some r)
unfolding Ended
ended r = (r, refl)

get-run_at :
    (id owner : ℕ) (st : State) (row : Option MemoryExtractionRun)
    → get_extraction_run id owner st ≡ ok row
    → row ≡ run_at id owner st
unfolding get_extraction_run
get-run_at id owner st row h = elim (Bool-cases (id == 0 || owner == 0)) [
  | inl e ↦ cc (rw e at h)
  | inr e ↦ cc (rw e at h)
]

-- A retry that returned has made the failed run pending, with the attempts that it had.
record Retried (id owner : ℕ) (st after : State) (q : MemoryExtractionRun) : Type 0 where
  run : MemoryExtractionRun
  found : run_at id owner after ≡ some run
  pending : status_eq run.status ExtractionRunStatus.pending ≡ true
  kept : run.attempt ≡ q.attempt

retry-run :
    (id owner max_attempts now : ℕ) (st : State) (q : MemoryExtractionRun)
    → run_at id owner st ≡ some q
    → (max_attempts == 0) ≡ false
    → (id == 0 || owner == 0) ≡ false
    → retry_extraction_run id owner max_attempts now st ≡ retry_run id owner max_attempts q now st
unfolding retry_extraction_run get_extraction_run
retry-run id owner max_attempts now st q at m pos = rw (m, pos, at) refl

retry_run-Retried :
    (id owner max_attempts now : ℕ) (st : State) (q row : MemoryExtractionRun)
    → run_at id owner st ≡ some q
    → (retry_run id owner max_attempts q now st).0 ≡ ok row
    → Retried id owner st (retry_run id owner max_attempts q now st).1 q
unfolding retry_run
retry_run-Retried id owner max_attempts now st q row at h =
    elim (Bool-cases
      (not (status_eq q.status ExtractionRunStatus.failed) || leb max_attempts q.attempt)) [
        | inl e ↦ absurd (cc (rw (e, if◌then◌else◌) at h))
        | inr e ↦
            rw e
              (elim (transition-cases id owner ExtractionRunStatus.failed
                ExtractionRunStatus.pending 0 none now st) [
                  | inr (bad, g) ↦ absurd (cc (rw (e, if◌then◌else◌, g) at h))
                  | inl m ↦
                      let same : m.run ≡ q = cc (m.found, at) in
                      record {
                        run = move_run ExtractionRunStatus.pending 0 none now m.run;
                        found = m.now_at;
                        pending = refl;
                        kept = rw same (omega arith);
                      }
                ])
      ]

retry-Retried :
    (id owner max_attempts now : ℕ) (st : State) (q row : MemoryExtractionRun)
    → run_at id owner st ≡ some q
    → (id == 0 || owner == 0) ≡ false
    → (retry_extraction_run id owner max_attempts now st).0 ≡ ok row
    → Retried id owner st (retry_extraction_run id owner max_attempts now st).1 q
unfolding retry_extraction_run
retry-Retried id owner max_attempts now st q row at pos h = elim (Bool-cases (max_attempts == 0)) [
  | inl e ↦ absurd (cc (rw (e, if◌then◌else◌) at h))
  | inr e ↦
      let same = retry-run id owner max_attempts now st q at e pos in
      subst (λ x. Retried id owner st x.1 q) (sym same)
        (retry_run-Retried id owner max_attempts now st q row at (ap (λ x. x.0) (sym same) ∙ h))
]

-- The rest of the loop starts from a pending run with the attempts of the failed one.
after_failure-Ended :
    (id owner max_attempts now : ℕ) (e : Error)
    (rest : State → Option (Outcome (List MemoryRecord) × State)) (st : State)
    → ((q : MemoryExtractionRun)
        → run_at id owner st ≡ some q
        → status_eq q.status ExtractionRunStatus.failed ≡ true
        → leb max_attempts q.attempt ≡ false
        → (after : State) → Retried id owner st after q
        → Ended (rest after))
    → Ended (after_failure id owner max_attempts now e rest st)
unfolding after_failure get_extraction_run
after_failure-Ended id owner max_attempts now e rest st go =
    elim (Bool-cases (id == 0 || owner == 0)) [
      | inl pos ↦ rw (pos, after_failure) (ended _)
      | inr pos ↦ elim (Option-cases (run_at id owner st)) [
        | inl at ↦ rw (pos, after_failure, at) (ended _)
        | inr (q, at) ↦
            elim (Bool-cases
              (not (status_eq q.status ExtractionRunStatus.failed) || leb max_attempts q.attempt)) [
                | inl over ↦ rw (pos, after_failure, at, over) (ended _)
                | inr over ↦
                    rw (pos, after_failure, at, over)
                      (retried pos q at over (retry_extraction_run id owner max_attempts now st).0
                        refl)
              ]
      ]
    ]
  where
    retried :
        (id == 0 || owner == 0) ≡ false
        → (q : MemoryExtractionRun) → run_at id owner st ≡ some q
        → (not (status_eq q.status ExtractionRunStatus.failed) || leb max_attempts q.attempt)
          ≡ false
        → (o : Outcome MemoryExtractionRun)
        → (retry_extraction_run id owner max_attempts now st).0 ≡ o
        → Ended (elim o [
          | err bad ↦ some (err bad, (retry_extraction_run id owner max_attempts now st).1)
          | ok _ ↦ rest (retry_extraction_run id owner max_attempts now st).1
        ])
    retried pos q at over (err bad) h = ended _
    retried pos q at over (ok row) h =
        go q at (ground arith) (ground arith) _
          (retry-Retried id owner max_attempts now st q row at pos h)

pending_not_failed :
    (s : ExtractionRunStatus)
    → status_eq s ExtractionRunStatus.pending ≡ true
    → status_eq s ExtractionRunStatus.failed ≡ true
    → ⊥
pending_not_failed ExtractionRunStatus.pending h k = cc
pending_not_failed ExtractionRunStatus.processing h k = cc
pending_not_failed ExtractionRunStatus.completed h k = cc
pending_not_failed ExtractionRunStatus.failed h k = cc
pending_not_failed ExtractionRunStatus.discarded h k = cc

module _ (service : Service) (id owner max_attempts now : ℕ)
    (quiet : (x : State) → (service.meanwhile x).runs ≡ x.runs) where
  Loop : ℕ → State → Type 0
  Loop fuel st = Ended (retry_loop fuel service id owner max_attempts now st)

  -- One round: the rest of the loop is asked for only after a failed attempt and a retry.
  one_round :
      (fuel : ℕ) (st : State)
      → ((mid after : State) (q : MemoryExtractionRun)
          → (mid ≡ st) ⊎ Counted id owner st q
          → run_at id owner mid ≡ some q
          → status_eq q.status ExtractionRunStatus.failed ≡ true
          → leb max_attempts q.attempt ≡ false
          → Retried id owner mid after q
          → Loop fuel after)
      → Loop (suc fuel) st
  unfolding Loop retry_loop
  one_round fuel st go =
      by_result (process service id owner now st).0 (process service id owner now st).1 refl
    where
      by_result :
          (o : Outcome (List MemoryRecord)) (s : State)
          → process service id owner now st ≡ (o, s)
          → Ended (elim o [
            | ok records ↦ some (ok records, s)
            | err e ↦
                after_failure id owner max_attempts now e
                  (retry_loop fuel service id owner max_attempts now)
                  s
          ])
      by_result (ok records) s h = ended _
      by_result (err e) s h =
          after_failure-Ended id owner max_attempts now e
            (retry_loop fuel service id owner max_attempts now) s
            λ q at failed left after r.
              go s after q (process-Counted service id owner now st s q e quiet h at failed) at
                failed left r

  -- A pending run with attempts left: the fuel covers them.
  pending-Loop :
      (fuel : ℕ) (st : State) (r : MemoryExtractionRun)
      → run_at id owner st ≡ some r
      → status_eq r.status ExtractionRunStatus.pending ≡ true
      → leb max_attempts r.attempt ≡ false
      → max_attempts ≤ fuel + r.attempt
      → Loop fuel st
  pending-Loop zero st r at p left enough = absurd (ground arith)
  pending-Loop (suc fuel) st r at p left enough =
      one_round fuel st λ mid after q how at_mid failed more w. elim how [
        | inl same ↦
            let row : q ≡ r = cc (rw same at at_mid, at) in
            absurd (pending_not_failed r.status p (rw row at failed))
        | inr c ↦
            let row : c.before ≡ r = cc (c.found, at) in
            pending-Loop fuel after w.run w.found w.pending (rw w.kept more)
              (omega (arith, c.counted, w.kept, ap (λ x. x.attempt) row, enough))
      ]

  -- Fuel one above the budget is enough from every state.
  any-Loop : (st : State) → (max_attempts == 0) ≡ false → Loop (suc max_attempts) st
  any-Loop st some_budget = one_round max_attempts st λ mid after q how at failed more w. elim how [
    | inl same ↦
        pending-Loop max_attempts after w.run w.found w.pending (rw w.kept more) (omega arith)
    | inr c ↦ pending-Loop max_attempts after w.run w.found w.pending (rw w.kept more) (omega arith)
  ]

-- The loop of process_with_retry ends for every state, run, owner, provider and deny patterns, where
-- what is committed meanwhile leaves the extraction runs: with a budget of at least one attempt it
-- takes at most one round more than the budget, and process_with_retry gives what the loop ends with.
pub process_with_retry-retry_loop :
    (service : Service) (id owner max_attempts now : ℕ) (st : State)
    → ((x : State) → (service.meanwhile x).runs ≡ x.runs)
    → (max_attempts == 0) ≡ false
    → (r : Outcome (List MemoryRecord) × State) × (retry_loop
          (suc max_attempts)
          service
          id
          owner
          max_attempts
          now
          st
        ≡ some r)
      × (process_with_retry service id owner max_attempts now st ≡ r)
unfolding process_with_retry Loop Ended
process_with_retry-retry_loop service id owner max_attempts now st quiet budget =
    let done = any-Loop service id owner max_attempts now quiet st budget in
    (done.0, done.1, rw (budget, if◌then◌else◌, done.1) refl)
