-- ===== src/Memory/Runs/Laws.antt =====
-- A transition of an extraction run moves the run, or raises and changes nothing.
use lenko_bot.Prelude.{
  ℕ, ◌∙◌, ◌≡◌, refl, List, true, false, ◌||◌, inl, inr, ◌⊎◌, arith, Option, some, Outcome, ok, err,
  Error, or_raise, value_error, key_error, runtime_error, Bool-cases, Option-cases, ◌==◌,
  if◌then◌else◌,
}
use lenko_bot.Prelude.Table.{find, find-update, find_sound, update}
use lenko_bot.Text.{Text}
use lenko_bot.Reminder.Types.{Profile}
use lenko_bot.State.{
  State, transaction, reading, ◌>=>◌, MemoryExtractionRun, ExtractionRunStatus, profile_of,
}
use lenko_bot.State.Rows.{any-find, find-any}
use lenko_bot.Memory.Runs.{status_eq, is_owned_run}
use lenko_bot.Memory.Runs.Transition.{
  run_with_profile, is_stale, has_status, move_run, transition_body, transition_extraction_run,
}

-- The run that a call for the run and its owner is about.
abbrev pub run_at : ℕ → ℕ → State → Option MemoryExtractionRun
run_at id owner st = find (is_owned_run id owner) st.runs

-- A transition that returned, and the run that it moved.
pub record Moved (id owner : ℕ) (expected target : ExtractionRunStatus) (increment : ℕ)
    (kind : Option Text) (now : ℕ) (st : State) (res : Outcome MemoryExtractionRun × State)
    : Type 0 where
  pub run : MemoryExtractionRun
  pub found : run_at id owner st ≡ some run
  pub was : status_eq run.status expected ≡ true
  pub row : MemoryExtractionRun
  pub returned : res.0 ≡ ok row
  pub same_id : (row.id == id) ≡ true
  pub now_at : run_at id owner res.1 ≡ some (move_run target increment kind now run)
  pub after : res.1 ≡ record st {
    runs = update (has_status id owner expected) (move_run target increment kind now) st.runs;
  }

pub joined_run :
    (id owner : ℕ) (st : State) (j : MemoryExtractionRun × Profile)
    → run_with_profile id owner st ≡ some j
    → run_at id owner st ≡ some j.0
unfolding run_with_profile
joined_run id owner st j h = elim (Option-cases (run_at id owner st)) [
  | inl e ↦ cc (rw (e, run_with_profile) at h)
  | inr (r, e) ↦ elim (Option-cases (profile_of st r.owner_user_id)) [
    | inl f ↦ cc (rw (e, run_with_profile, f) at h)
    | inr (p, f) ↦ let same : (r, p) ≡ j = cc (rw (e, run_with_profile, f) at h) in rw (← same) e
  ]
]

module _ (id owner : ℕ) (expected target : ExtractionRunStatus) (increment : ℕ) (kind : Option Text)
    (now : ℕ) (st : State) where
  rows : List MemoryExtractionRun
  rows = update (has_status id owner expected) (move_run target increment kind now) st.runs

  moved_run :
      (r : MemoryExtractionRun)
      → run_at id owner st ≡ some r
      → status_eq r.status expected ≡ true
      → find (is_owned_run id owner) rows ≡ some (move_run target increment kind now r)
  unfolding rows
  moved_run r h e =
      find-update (is_owned_run id owner) (has_status id owner expected)
        (move_run target increment kind now) st.runs r (λ x. refl) h
      ∙ rw (find_sound (is_owned_run id owner) st.runs r h, e) refl

  after_move : State
  after_move = record st { runs = rows }

  body-found :
      (j : MemoryExtractionRun × Profile)
      → run_with_profile id owner st ≡ some j
      → is_stale j ≡ false
      → status_eq (j.0).status expected ≡ true
      → transition_body id owner expected target increment kind now st
        ≡ ok (find (λ r. r.id == id) rows, after_move)
  unfolding transition_body rows after_move
  body-found j h stale e = rw (h, stale, e) refl

  same_row :
      (r : MemoryExtractionRun)
      → find (is_owned_run id owner) rows ≡ some r
      → (row : MemoryExtractionRun) × (find (λ r. r.id == id) rows ≡ some row)
  same_row r h =
      any-find (λ r. r.id == id) rows
        (find-any (is_owned_run id owner) (λ r. r.id == id) rows r h
          (ground (arith, find_sound (is_owned_run id owner) rows r h)))

  finish : Outcome (Option MemoryExtractionRun × State) → Outcome MemoryExtractionRun × State
  finish (err e) = (err e, st)
  finish (ok (row, after)) = (or_raise row runtime_error, after)

  opened :
      (id == 0 || owner == 0) ≡ false
      → transition_extraction_run id owner expected target increment kind now st
        ≡ finish (transition_body id owner expected target increment kind now st)
  unfolding transition_extraction_run finish
  opened pos =
      rw (pos, if◌then◌else◌)
        (by_cases (transition_body id owner expected target increment kind now st) refl)
    where
      by_cases :
          (b : Outcome (Option MemoryExtractionRun × State))
          → transition_body id owner expected target increment kind now st ≡ b
          → (transaction (transition_body id owner expected target increment kind now) st >=> λ row.
              reading (or_raise row runtime_error))
            ≡ finish b
      by_cases (err e) h = rw (transaction, h) refl
      by_cases (ok (row, after)) h = rw (transaction, h) refl

  -- The owner's run of the id has the expected status, and its epoch is current: it moves.
  pub transition-found :
      (j : MemoryExtractionRun × Profile)
      → (id == 0 || owner == 0) ≡ false
      → run_with_profile id owner st ≡ some j
      → is_stale j ≡ false
      → status_eq (j.0).status expected ≡ true
      → Moved id owner expected target increment kind now st
          (transition_extraction_run id owner expected target increment kind now st)
  unfolding rows after_move finish
  transition-found j pos h stale e =
      let found = joined_run id owner st j h in
      let moved = moved_run j.0 found e in
      let row = same_row _ moved in
      let body = body-found j h stale e in
      rw (opened pos, body, row.1)
        (record {
          run = j.0;
          found = found;
          was = e;
          row = row.0;
          returned = refl;
          same_id = find_sound (λ r. r.id == id) rows row.0 row.1;
          now_at = moved;
          after = refl;
        })

  raised :
      (id == 0 || owner == 0) ≡ false
      → (e : Error) → transition_body id owner expected target increment kind now st ≡ err e
      → (bad : Error) × (transition_extraction_run id owner expected target increment kind now st
          ≡ (err bad, st))
  unfolding finish
  raised pos e h = (e, opened pos ∙ rw h refl)

  -- A transition moves the run, or raises and leaves the state as it was.
  pub transition-cases :
      Moved id owner expected target increment kind now st
        (transition_extraction_run id owner expected target increment kind now st)
      ⊎ ((e : Error) × (transition_extraction_run id owner expected target increment kind now st
            ≡ (err e, st)))
  unfolding transition_extraction_run finish
  transition-cases = elim (Bool-cases (id == 0 || owner == 0)) [
    | inl pos ↦ inr (value_error, rw pos refl)
    | inr pos ↦ elim (Option-cases (run_with_profile id owner st)) [
      | inl h ↦ inr (raised pos key_error (unfold transition_body in rw h refl))
      | inr (j, h) ↦ elim (Bool-cases (is_stale j)) [
        | inl stale ↦ inr (raised pos runtime_error (unfold transition_body in rw (h, stale) refl))
        | inr stale ↦ elim (Bool-cases (status_eq (j.0).status expected)) [
          | inr e ↦ inr (raised pos runtime_error (unfold transition_body in rw (h, stale, e) refl))
          | inl e ↦ inl (transition-found j pos h stale e)
        ]
      ]
    ]
  ]
