-- ===== src/Session/Invariant/Turns.antt =====
-- A turn that is appended, turns that are deleted, and a session that is closed with its summary.
use lenko_bot.Prelude.{
  ℕ, ◌≡◌, refl, List, [], ◌∷◌, ◌++◌, Bool, true, false, ◌&&◌, inl, inr, arith, Option, ok, >>=-elim,
  or_raise, or_raise-eq-ok, value_error, key_error, Bool-cases, ◌==◌, any, All,
}
use lenko_bot.Prelude.Table.{find, update, delete, delete-All, update-All, All-append}
use lenko_bot.Prelude.Table.Unique.{Distinct-insert, Distinct-update, Distinct-delete}
use lenko_bot.Text.{Text}
use lenko_bot.State.{State, Session, TranscriptTurn, Role, SessionSummary}
use lenko_bot.State.Order.{Apart, Apart-append, Apart-update, Apart-delete}
use lenko_bot.State.Rows.{above-select, any_of_find, any-update, All-map}
use lenko_bot.Session.{is_in_session, next_sequence, new_turn, append_turn_body, is_active_session}
use lenko_bot.Session.Finalize.{
  Snapshot, is_owned_active, delete_turns, close_session, new_summary, write_summary,
}
use lenko_bot.Session.Deletion.{
  TurnDeletionResult, is_summary_of, invalidate, delete_each, delete_derived, find_turn,
  deleted_turn_ids, delete_turn_body, delete_memories,
}
use lenko_bot.Session.Invariant.{
  are_rivals, are_unordered, are_out_of_sequence, is_closed_session, IsConsistent,
}

new_sequence :
    (session : ℕ) (role : Role) (content : Text) (response : Option Text) (now : ℕ) (st : State)
    → All
        (λ t. are_out_of_sequence t (new_turn session role content response now st) ≡ false)
        st.turns
unfolding new_turn next_sequence
new_sequence session role content response now st =
    above-select (is_in_session session) (λ t. t.sequence) _ st.turns (omega arith)

pub append_turn_body-IsConsistent :
    (session : ℕ) (role : Role) (content : Text) (response : Option Text) (now : ℕ)
    (st after : State) (t : TranscriptTurn)
    → append_turn_body session role content response now st ≡ ok (t, after)
    → IsConsistent st
    → IsConsistent after
unfolding append_turn_body
append_turn_body-IsConsistent session role content response now st after t h w =
    >>=-elim (or_raise (find (is_active_session session) st.sessions) value_error) _ (t, after) h
      λ active e h1.
        let turn = new_turn session role content response now st in
        let same : record st { turns = st.turns ++ turn ∷ [] } ≡ after = cc in
        let there =
          or_raise-eq-ok (find (is_active_session session) st.sessions) value_error active e in
        rw (← same) (record {
          session_ids = w.session_ids;
          one_active = w.one_active;
          generations = w.generations;
          turn_ids = Distinct-insert (λ t. t.id) st.turns turn (unfold new_turn in refl) w.turn_ids;
          sequences =
              Apart-append are_out_of_sequence st.turns turn
                (new_sequence session role content response now st) w.sequences;
          open_turns =
              All-append (λ t. any (is_active_session t.session_id) st.sessions ≡ true) st.turns
                (turn ∷ []) w.open_turns
                (
                  unfold new_turn in
                      any_of_find (is_active_session session) st.sessions active there,
                  tt,
                );
          summarised = w.summarised;
        })

pub delete_turns-IsConsistent :
    (p : TranscriptTurn → Bool) (st : State) → IsConsistent st → IsConsistent (delete_turns p st)
unfolding delete_turns
delete_turns-IsConsistent p st w = record {
  session_ids = w.session_ids;
  one_active = w.one_active;
  generations = w.generations;
  turn_ids = Distinct-delete (λ t. t.id) p st.turns w.turn_ids;
  sequences = Apart-delete are_out_of_sequence p st.turns w.sequences;
  open_turns = delete-All _ p st.turns w.open_turns;
  summarised = w.summarised;
}

delete_each-IsConsistent :
    (session : ℕ) (ids : List ℕ) (st : State)
    → IsConsistent st
    → IsConsistent (delete_each session ids st)
unfolding delete_each
delete_each-IsConsistent session [] st w = w
delete_each-IsConsistent session (id ∷ ids) st w =
    delete_each-IsConsistent session ids _
      (delete_turns-IsConsistent (λ t. t.id == id && is_in_session session t) st w)

delete_derived-IsConsistent :
    (owner session turn : ℕ) (st : State)
    → IsConsistent st
    → IsConsistent (delete_derived owner session turn st)
unfolding delete_derived delete_memories
delete_derived-IsConsistent owner session turn st w = record {
  session_ids = w.session_ids;
  one_active = w.one_active;
  generations = w.generations;
  turn_ids = w.turn_ids;
  sequences = w.sequences;
  open_turns = w.open_turns;
  summarised =
      update-All (λ m. any (is_closed_session m.session_id) st.sessions ≡ true)
        (is_summary_of session owner) invalidate (λ m _ k. k) st.summaries w.summarised;
}

pub delete_turn_body-IsConsistent :
    (owner session turn : ℕ) (st after : State) (r : TurnDeletionResult)
    → delete_turn_body owner session turn st ≡ ok (r, after)
    → IsConsistent st
    → IsConsistent after
unfolding delete_turn_body
delete_turn_body-IsConsistent owner session turn st after r h w =
    >>=-elim (or_raise (find_turn owner session turn st) key_error) _ (r, after) h
      λ t e h1.
        let same : delete_each session (deleted_turn_ids session t st)
              (delete_derived owner session turn st)
            ≡ after =
          cc in
        rw (← same) (
          delete_each-IsConsistent session (deleted_turn_ids session t st) _
            (delete_derived-IsConsistent owner session turn st w))

-- Closing a session brings no two sessions into a relation that the active status is needed for.
closed_rivals :
    (session owner now : ℕ) (xs : List Session)
    → Apart are_rivals xs
    → Apart are_rivals (update (is_owned_active session owner) (close_session now) xs)
closed_rivals session owner now xs =
    Apart-update are_rivals (is_owned_active session owner) (close_session now) xs
      (λ s u h. ground arith) (λ s u h. ground arith)

-- A session with another id stays as it is, in particular active.
stays_active :
    (session owner now id : ℕ) (xs : List Session)
    → (id == session) ≡ false
    → any (is_active_session id) xs ≡ true
    → any (is_active_session id) (update (is_owned_active session owner) (close_session now) xs)
      ≡ true
stays_active session owner now id xs n =
    any-update (is_active_session id) (is_owned_active session owner) (close_session now) xs
      (λ s h k. ground arith)

stays_closed :
    (session owner now id : ℕ) (xs : List Session)
    → any (is_closed_session id) xs ≡ true
    → any (is_closed_session id) (update (is_owned_active session owner) (close_session now) xs)
      ≡ true
stays_closed session owner now id xs =
    any-update (is_closed_session id) (is_owned_active session owner) (close_session now) xs
      (λ s h k. ground arith)

becomes_closed :
    (session owner now : ℕ) (xs : List Session)
    → any (is_owned_active session owner) xs ≡ true
    → any
        (is_closed_session session)
        (update (is_owned_active session owner) (close_session now) xs)
      ≡ true
unfolding update
becomes_closed session owner now [] h = cc
becomes_closed session owner now (s ∷ xs) h = ground (arith, becomes_closed session owner now xs)

left_open :
    (session owner now : ℕ) (sessions : List Session) (ts : List TranscriptTurn)
    → All (λ t. any (is_active_session t.session_id) sessions ≡ true) ts
    → All
        (λ t.
          any
            (is_active_session t.session_id)
            (update (is_owned_active session owner) (close_session now) sessions)
          ≡ true)
        (delete (is_in_session session) ts)
unfolding delete
left_open session owner now sessions [] w = tt
left_open session owner now sessions (t ∷ ts) w = elim (Bool-cases (is_in_session session t)) [
  | inl e ↦ rw e (left_open session owner now sessions ts w.1)
  | inr e ↦ rw e (
    stays_active session owner now t.session_id sessions e w.0,
    left_open session owner now sessions ts w.1,
  )
]

pub write_summary-IsConsistent :
    (session owner : ℕ) (snapshot : Snapshot) (content : Text) (now : ℕ) (st after : State)
    (m : SessionSummary)
    → any (is_owned_active session owner) st.sessions ≡ true
    → write_summary session owner snapshot content now st ≡ ok (m, after)
    → IsConsistent st
    → IsConsistent after
unfolding write_summary delete_turns
write_summary-IsConsistent session owner snapshot content now st after m active h w =
    elim (Bool-cases (any (λ m. m.session_id == session) st.summaries)) [
      | inl e ↦ cc (rw e at h)
      | inr e ↦
          let summary = new_summary session owner snapshot content now st in
          let sessions = update (is_owned_active session owner) (close_session now) st.sessions in
          let same : record (delete_turns (is_in_session session) st) {
            summaries = st.summaries ++ summary ∷ [];
            sessions = sessions;
          }
              ≡ after =
            cc (rw e at h) in
          rw (← same) (record {
            session_ids =
                Distinct-update (λ s. s.id) _ (close_session now) st.sessions (λ s. refl)
                  w.session_ids;
            one_active = closed_rivals session owner now st.sessions w.one_active;
            generations =
                Apart-update are_unordered (is_owned_active session owner) (close_session now)
                  st.sessions (λ s u h. h) (λ s u h. h) w.generations;
            turn_ids = Distinct-delete (λ t. t.id) _ st.turns w.turn_ids;
            sequences = Apart-delete are_out_of_sequence _ st.turns w.sequences;
            open_turns = left_open session owner now st.sessions st.turns w.open_turns;
            summarised =
                All-append (λ m. any (is_closed_session m.session_id) sessions ≡ true) st.summaries
                  (summary ∷ [])
                  (All-map _ _ st.summaries
                    (λ m k. stays_closed session owner now m.session_id st.sessions k) w.summarised)
                  (unfold new_summary in becomes_closed session owner now st.sessions active, tt);
          })
    ]
