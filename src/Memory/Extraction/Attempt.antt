-- ===== src/Memory/Extraction/Attempt.antt =====
-- One attempt: when `process` raises and leaves the run failed, it has counted one attempt, or it has
-- done nothing.
use lenko_bot.Prelude.{
  ℕ, ◌+◌, ◌≡◌, ap, refl, sym, ◌∙◌, List, true, inl, inr, ◌⊎◌, arith, Option, none, some, Outcome,
  ok, err, Error, or_raise, value_error, Bool-cases, any,
}
use lenko_bot.Reminder.Delivery.{is_error_kind, all_kind_chars, is_kind_char}
use lenko_bot.State.{
  State, reading, ◌>=>◌, MemoryExtractionRun, ExtractionRunStatus, MemoryRecord, MemoryScope,
  TranscriptTurn,
}
use lenko_bot.State.Laws.{transaction-rolls_back, >=>-raised, >=>-keeps}
use lenko_bot.Session.Query.{extraction_exchange, persona_key_for_session}
use lenko_bot.Memory.{NewMemory}
use lenko_bot.Memory.Context.{ensure_relationship}
use lenko_bot.Memory.Runs.{status_eq}
use lenko_bot.Memory.Runs.Transition.{
  claim_extraction_run, fail_extraction_run, transition_extraction_run, move_run,
}
use lenko_bot.Memory.Runs.Laws.{run_at, transition-cases}
use lenko_bot.Memory.Activate.{activate_extraction, activate_body, normalize_all}
use lenko_bot.Memory.Candidate.{MemoryCandidate, Accepted}
use lenko_bot.Memory.Extraction.{
  Service, persona_id_for_key, accept_all, is_of_scope, relationship_for, prepare_records, extract,
  extraction_failed, conclude, process,
}

ensure_relationship-runs :
    (owner persona now : ℕ) (st : State)
    → (ensure_relationship owner persona now st).1.runs ≡ st.runs
unfolding ensure_relationship
ensure_relationship-runs owner persona now st = ground arith

relationship_for-runs :
    (owner : ℕ) (persona : Option ℕ) (accepted : List Accepted) (now : ℕ) (st : State)
    → (relationship_for owner persona accepted now st).1.runs ≡ st.runs
unfolding relationship_for
relationship_for-runs owner persona accepted now st =
    elim (Bool-cases (any (is_of_scope MemoryScope.relationship) accepted)) [
      | inr e ↦ rw e refl
      | inl e ↦ rw e (
          >=>-keeps (λ x. x.runs ≡ st.runs)
            (reading (or_raise persona value_error) st >=> λ p. ensure_relationship owner p now)
            (λ r. reading (ok (some r.id)))
            (>=>-keeps (λ x. x.runs ≡ st.runs) (reading (or_raise persona value_error) st)
              (λ p. ensure_relationship owner p now) refl
              (λ p x h. ensure_relationship-runs owner p now x ∙ h))
            (λ r x h. h))
    ]

prepare_records-runs :
    (service : Service) (run : MemoryExtractionRun) (owner : ℕ) (candidates : List MemoryCandidate)
    (exchange : TranscriptTurn × TranscriptTurn) (now : ℕ) (st : State)
    → (prepare_records service run owner candidates exchange now st).1.runs ≡ st.runs
unfolding prepare_records
prepare_records-runs service run owner candidates exchange now st =
    >=>-keeps (λ x. x.runs ≡ st.runs) (reading (persona_key_for_session run.session_id owner st) st)
      _ refl
      λ key x h.
        let persona = persona_id_for_key service.profile_id key x in
        >=>-keeps (λ y. y.runs ≡ st.runs)
          (reading (accept_all service persona exchange candidates) x) _ h
          λ accepted y k.
            >=>-keeps (λ z. z.runs ≡ st.runs) (relationship_for owner persona accepted now y) _
              (relationship_for-runs owner persona accepted now y ∙ k) (λ relationship z l. l)

activate-raised :
    (id owner : ℕ) (memories : List NewMemory) (now : ℕ) (st after : State) (e : Error)
    → activate_extraction id owner memories now st ≡ (err e, after)
    → after ≡ st
unfolding activate_extraction
activate-raised id owner memories now st after e h =
    >=>-raised (reading (normalize_all memories) st) _ e after h (λ k. k)
      λ _ k. transaction-rolls_back (activate_body id owner memories now) st e after k

-- An attempt that raises before the run is settled has not touched the runs.
extract-raised :
    (service : Service) (run : MemoryExtractionRun) (owner now : ℕ) (st after : State) (e : Error)
    → ((x : State) → (service.meanwhile x).runs ≡ x.runs)
    → extract service run owner now st ≡ (err e, after)
    → after.runs ≡ st.runs
unfolding extract
extract-raised service run owner now st after e quiet h =
    >=>-raised (reading (extraction_exchange run.session_id owner run.source_turn_id st) st) _ e
      after h (λ k. ap (λ x. x.runs) k)
      λ exchange h1.
        let mid = service.meanwhile st in
        >=>-raised (reading (service.respond st exchange) mid) _ e after h1
          (λ k. ap (λ x. x.runs) k ∙ quiet st)
          λ candidates h2.
            let prepared = prepare_records service run owner candidates exchange now mid in
            let kept =
              prepare_records-runs service run owner candidates exchange now mid ∙ quiet st in
            >=>-raised prepared _ e after h2 (λ k. ap (λ x. x.runs) k ∙ kept)
              λ records h3.
                ap (λ x. x.runs) (activate-raised run.id owner records now prepared.1 after e h3)
                ∙ kept

-- What a run that is failed after an attempt has to do with the run before it.
pub record Counted (id owner : ℕ) (st : State) (q : MemoryExtractionRun) : Type 0 where
  pub before : MemoryExtractionRun
  pub found : run_at id owner st ≡ some before
  pub pending : status_eq before.status ExtractionRunStatus.pending ≡ true
  pub counted : q.attempt ≡ before.attempt + 1

fail-transition :
    (id owner now : ℕ) (st : State)
    → fail_extraction_run id owner extraction_failed now st
      ≡ transition_extraction_run id owner ExtractionRunStatus.processing ExtractionRunStatus.failed
          0
          (some extraction_failed)
          now
          st
unfolding fail_extraction_run is_error_kind all_kind_chars is_kind_char
fail-transition id owner now st = refl

failed-Counted :
    (id owner now : ℕ) (mid after : State) (r q : MemoryExtractionRun)
    → run_at id owner mid ≡ some (move_run ExtractionRunStatus.processing 1 none now r)
    → after ≡ (fail_extraction_run id owner extraction_failed now mid).1
    → run_at id owner after ≡ some q
    → status_eq q.status ExtractionRunStatus.failed ≡ true
    → q.attempt ≡ r.attempt + 1
failed-Counted id owner now mid after r q at_mid same at_end failed =
    elim (transition-cases id owner ExtractionRunStatus.processing ExtractionRunStatus.failed 0
      (some extraction_failed) now mid) [
        | inr (bad, h) ↦
            let still : after ≡ mid = same ∙ rw (fail-transition id owner now mid, h) refl in
            let row : q ≡ move_run ExtractionRunStatus.processing 1 none now r =
              cc (rw still at at_end, at_mid) in
            absurd (cc (rw row at failed))
        | inl m ↦
            let moved : after ≡ _ = same ∙ ap (λ x. x.1) (fail-transition id owner now mid) in
            let run : m.run ≡ move_run ExtractionRunStatus.processing 1 none now r =
              cc (m.found, at_mid) in
            let row : q ≡ move_run ExtractionRunStatus.failed 0 (some extraction_failed) now m.run =
              cc (rw moved at at_end, m.now_at) in
            rw (row, run) (omega arith)
      ]

conclude-Counted :
    (service : Service) (row : MemoryExtractionRun) (owner now : ℕ) (mid : State)
    (r q : MemoryExtractionRun) (after : State) (e : Error)
    → ((x : State) → (service.meanwhile x).runs ≡ x.runs)
    → run_at row.id owner mid ≡ some (move_run ExtractionRunStatus.processing 1 none now r)
    → conclude row owner now (extract service row owner now mid) ≡ (err e, after)
    → run_at row.id owner after ≡ some q
    → status_eq q.status ExtractionRunStatus.failed ≡ true
    → q.attempt ≡ r.attempt + 1
unfolding conclude
conclude-Counted service row owner now mid r q after e quiet at_mid h at_end failed =
    settled (extract service row owner now mid) refl h
  where
    settled :
        (x : Outcome (List MemoryRecord) × State)
        → extract service row owner now mid ≡ x
        → conclude row owner now x ≡ (err e, after)
        → q.attempt ≡ r.attempt + 1
    settled (ok records, s) g k = absurd (cc k)
    settled (err bad, s) g k =
        failed-Counted row.id owner now s after r q
          (rw (extract-raised service row owner now mid s bad quiet g) at_mid)
          (ap (λ x. x.1) (sym k)) at_end failed

-- An attempt that raises and leaves the run failed: it has done nothing, or the run was pending and
-- has one attempt more.
pub process-Counted :
    (service : Service) (id owner now : ℕ) (st after : State) (q : MemoryExtractionRun) (e : Error)
    → ((x : State) → (service.meanwhile x).runs ≡ x.runs)
    → process service id owner now st ≡ (err e, after)
    → run_at id owner after ≡ some q
    → status_eq q.status ExtractionRunStatus.failed ≡ true
    → (after ≡ st) ⊎ Counted id owner st q
unfolding process claim_extraction_run
process-Counted service id owner now st after q e quiet h at_end failed =
    elim (transition-cases id owner ExtractionRunStatus.pending ExtractionRunStatus.processing 1
      none now st) [
        | inr (bad, g) ↦ inl (cc (rw g at h))
        | inl m ↦
            let same : (m.row).id ≡ id = ground (arith, m.same_id) in
            let s1 =
              (transition_extraction_run id owner ExtractionRunStatus.pending
                ExtractionRunStatus.processing 1 none now st).1 in
            inr (record {
              before = m.run;
              found = m.found;
              pending = m.was;
              counted =
                  conclude-Counted service m.row owner now s1 m.run q after e quiet
                    (rw same m.now_at)
                    (claimed
                      (transition_extraction_run id owner ExtractionRunStatus.pending
                        ExtractionRunStatus.processing 1 none now st)
                      m.row m.returned h)
                    (rw same at_end) failed;
            })
      ]
  where
    claimed :
        (c : Outcome MemoryExtractionRun × State) (row : MemoryExtractionRun)
        → c.0 ≡ ok row
        → (c >=> λ run x. conclude run owner now (extract service run owner now x)) ≡ (err e, after)
        → conclude row owner now (extract service row owner now c.1) ≡ (err e, after)
    claimed (ok other, s) row k g = let same : other ≡ row = cc in rw (← same) g
    claimed (err bad, s) row k g = absurd (cc k)
