-- ===== src/Memory/Activate/Once.antt =====
-- A run is activated once.
use lenko_bot.Prelude.{
  ℕ, ◌≡◌, ap, refl, sym, ◌∙◌, List, [], ◌∷◌, ◌++◌, true, false, not, inl, inr, arith, none, some,
  ok, err, Error, >>=-elim, or_raise, or_raise-eq-ok, raise_if-passed, key_error, runtime_error,
  Bool-cases, Option-cases, Outcome-cases, ◌==◌,
}
use lenko_bot.Prelude.Table.{find_sound, find-update, update, count_where}
use lenko_bot.State.{
  State, transaction, reading, insert_profile, MemoryExtractionRun, ExtractionRunStatus,
  MemoryRecord,
}
use lenko_bot.State.Laws.{>=>-elim, transaction-eq-ok}
use lenko_bot.Memory.{
  NewMemory, existing_memory, insert_memory, is_storable, new_memory, select_memory,
  create_in_transaction,
}
use lenko_bot.Memory.Runs.{status_eq, is_owned_run}
use lenko_bot.Memory.Runs.Transition.{run_with_profile, is_stale, move_run}
use lenko_bot.Memory.Runs.Laws.{run_at, joined_run}
use lenko_bot.Memory.Activate.{
  normalize_all, check_provenance, create_all, is_completable, complete_run, activate_body,
  activate_extraction,
}

insert_profile-runs : (owner : ℕ) (st : State) → (insert_profile owner st).runs ≡ st.runs
unfolding insert_profile
insert_profile-runs owner st = ground arith

insert_memory-runs :
    (m : NewMemory) (now : ℕ) (st after : State) (r : MemoryRecord)
    → insert_memory m now st ≡ ok (r, after)
    → after.runs ≡ st.runs
unfolding insert_memory
insert_memory-runs m now st after r h = elim (Bool-cases (not (is_storable m st))) [
  | inl e ↦ cc (rw e at h)
  | inr e ↦
      let r0 = new_memory m now st in
      >>=-elim
        (or_raise (select_memory r0.id m.user_id (record st { memories = st.memories ++ r0 ∷ [] }))
          runtime_error)
        _ (r, after) (rw e at h) λ row _ k. cc
]

create-runs :
    (m : NewMemory) (now : ℕ) (st after : State) (r : MemoryRecord)
    → create_in_transaction m now st ≡ ok (r, after)
    → after.runs ≡ st.runs
unfolding create_in_transaction
create-runs m now st after r h =
    elim (Option-cases (existing_memory m (insert_profile m.user_id st))) [
      | inr (old, e) ↦
          let same : insert_profile m.user_id st ≡ after =
            cc (rw (e, create_in_transaction) at h) in
          rw (← same) (insert_profile-runs m.user_id st)
      | inl e ↦
          insert_memory-runs m now (insert_profile m.user_id st) after r
            (rw (e, create_in_transaction) at h)
          ∙ insert_profile-runs m.user_id st
    ]

create_all-runs :
    (ms : List NewMemory) (now : ℕ) (st after : State) (rows : List MemoryRecord)
    → create_all ms now st ≡ ok (rows, after)
    → after.runs ≡ st.runs
unfolding create_all
create_all-runs [] now st after rows h = cc
create_all-runs (m ∷ ms) now st after rows h =
    >>=-elim (create_in_transaction m now st) _ (rows, after) h
      λ first e h1.
        >>=-elim (create_all ms now first.1) _ (rows, after) h1
          λ rest f h2.
            let same : rest.1 ≡ after = cc in
            ap (λ x. x.runs) (sym same)
            ∙ create_all-runs ms now first.1 rest.1 rest.0 f
            ∙ create-runs m now st first.1 first.0 e

complete_run-run_at :
    (id owner epoch now : ℕ) (rows out : List MemoryRecord) (st after : State)
    (r : MemoryExtractionRun)
    → complete_run id owner epoch now rows st ≡ ok (out, after)
    → run_at id owner st ≡ some r
    → is_completable id owner epoch r ≡ true
    → run_at id owner after ≡ some (move_run ExtractionRunStatus.completed 0 none now r)
unfolding complete_run
complete_run-run_at id owner epoch now rows out st after r h at e =
    let rest =
      raise_if-passed (not (count_where (is_completable id owner epoch) st.runs == 1)) runtime_error
        _ h in
    let same : update (is_completable id owner epoch)
          (move_run ExtractionRunStatus.completed 0 none now) st.runs
        ≡ after.runs =
      cc rest.1 in
    rw (← same) (
      find-update (is_owned_run id owner) (is_completable id owner epoch)
        (move_run ExtractionRunStatus.completed 0 none now) st.runs r (λ x. refl) at
      ∙ rw e refl)

-- After an activation the run is completed.
activated :
    (id owner : ℕ) (ms : List NewMemory) (now : ℕ) (st after : State) (rows : List MemoryRecord)
    → activate_body id owner ms now st ≡ ok (rows, after)
    → (r : MemoryExtractionRun) × (run_at id owner after
        ≡ some (move_run ExtractionRunStatus.completed 0 none now r))
unfolding activate_body
activated id owner ms now st after rows h =
    >>=-elim (or_raise (run_with_profile id owner st) key_error) _ (rows, after) h
      λ j e h1.
        let fresh = raise_if-passed (is_stale j) runtime_error _ h1 in
        let status =
          raise_if-passed (not (status_eq (j.0).status ExtractionRunStatus.processing))
            runtime_error _ fresh.1 in
        >>=-elim (check_provenance owner j.0 ms) _ (rows, after) status.1
          λ _ _ h2.
            >>=-elim (create_all ms now st) _ (rows, after) h2
              λ created f h3.
                let at =
                  joined_run id owner st j
                    (or_raise-eq-ok (run_with_profile id owner st) key_error j e) in
                let mine = find_sound (is_owned_run id owner) st.runs j.0 at in
                (
                  j.0,
                  complete_run-run_at id owner (j.0).lifecycle_epoch now created.0 rows created.1
                      after j.0 h3 (rw (create_all-runs ms now st created.1 created.0 f) at)
                      (ground (arith, mine, status.0)),
                )

-- A run that is completed is not activated.
closed_body :
    (id owner : ℕ) (ms : List NewMemory) (now : ℕ) (st : State) (r : MemoryExtractionRun)
    → run_at id owner st ≡ some r
    → status_eq r.status ExtractionRunStatus.processing ≡ false
    → (e : Error) × (activate_body id owner ms now st ≡ err e)
unfolding activate_body
closed_body id owner ms now st r at closed = elim (Option-cases (run_with_profile id owner st)) [
  | inl e ↦ (key_error, rw e refl)
  | inr (j, e) ↦
      let same : j.0 ≡ r = cc (joined_run id owner st j e, at) in
      elim (Bool-cases (is_stale j)) [
        | inl stale ↦ (runtime_error, rw (e, stale) refl)
        | inr stale ↦ (runtime_error, rw (e, stale, same, closed) refl)
      ]
]

-- After an activation that returned, every later activation of the run, with whatever memories, raises
-- and leaves the state as it was: the memories of a run are stored once.
pub activate_extraction-once :
    (id owner : ℕ) (memories others : List NewMemory) (now later : ℕ) (st after : State)
    (rows : List MemoryRecord)
    → activate_extraction id owner memories now st ≡ (ok rows, after)
    → (e : Error) × (activate_extraction id owner others later after ≡ (err e, after))
unfolding activate_extraction
activate_extraction-once id owner memories others now later st after rows h =
    >=>-elim (reading (normalize_all memories) st) _ rows after h λ _ _ h1.
      let done =
        activated id owner memories now st after rows
          (transaction-eq-ok (activate_body id owner memories now) st rows after h1) in
      let closed = closed_body id owner others later after _ done.1 refl in
      elim (Outcome-cases (normalize_all others)) [
        | inr (e, k) ↦ (e, rw k refl)
        | inl (_, k) ↦ (closed.0, rw k (rolled id owner others later after closed.0 closed.1))
      ]
  where
    rolled :
        (id owner : ℕ) (ms : List NewMemory) (now : ℕ) (st : State) (e : Error)
        → activate_body id owner ms now st ≡ err e
        → transaction (activate_body id owner ms now) st ≡ (err e, st)
    rolled id owner ms now st e k = rw (transaction, k) refl
