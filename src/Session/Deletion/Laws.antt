-- ===== src/Session/Deletion/Laws.antt =====
-- What a `delete_turn` that returns has done.
use lenko_bot.Prelude.{
  ℕ, ◌≡◌, refl, List, [], ◌∷◌, true, ◌&&◌, inl, inr, some, ok, >>=-elim, or_raise, or_raise-eq-ok,
  key_error, Bool-cases, ◌==◌, any, length, if◌then◌else◌,
}
use lenko_bot.Prelude.Table.{find, count_where}
use lenko_bot.State.{State, TranscriptTurn}
use lenko_bot.State.Laws.{transaction-eq-ok}
use lenko_bot.Session.{is_in_session}
use lenko_bot.Session.Finalize.{is_owned_active, delete_turns}
use lenko_bot.Session.Deletion.{
  TurnDeletionResult, deleted_turn_ids, comes_from, is_summary_of, delete_each, delete_derived,
  find_turn, delete_turn_body, delete_turn,
}

pub delete_each-rest :
    (session : ℕ) (ids : List ℕ) (st : State)
    → ((delete_each session ids st).memories ≡ st.memories)
      × ((delete_each session ids st).runs ≡ st.runs)
      × ((delete_each session ids st).summaries ≡ st.summaries)
unfolding delete_each delete_turns
delete_each-rest session [] st = (refl, refl, refl)
delete_each-rest session (id ∷ ids) st =
    delete_each-rest session ids (delete_turns (λ t. t.id == id && is_in_session session t) st)

found_turn :
    (owner session turn : ℕ) (st : State) (t : TranscriptTurn)
    → find_turn owner session turn st ≡ some t
    → (any (is_owned_active session owner) st.sessions ≡ true)
      × (find (λ t. t.id == turn && is_in_session session t) st.turns ≡ some t)
unfolding find_turn
found_turn owner session turn st t h =
    elim (Bool-cases (any (is_owned_active session owner) st.sessions)) [
      | inr e ↦ absurd (cc (rw (e, if◌then◌else◌) at h))
      | inl e ↦ (e, rw (e, if◌then◌else◌) at h)
    ]

-- The turn that was found, the result and the state of a deletion that returned.
pub record Deleted (owner session turn : ℕ) (st : State) (r : TurnDeletionResult) (after : State)
    : Type 0 where
  pub row : TranscriptTurn
  pub active : any (is_owned_active session owner) st.sessions ≡ true
  pub chosen : find (λ t. t.id == turn && is_in_session session t) st.turns ≡ some row
  pub counted : r.deleted_memory_count ≡ count_where (comes_from owner turn) st.memories
  pub sized : r.deleted_turn_count ≡ length (deleted_turn_ids session row st)
  pub invalidated :
      r.invalidated_summary ≡ (count_where (is_summary_of session owner) st.summaries == 1)
  pub left :
      after
      ≡ delete_each session (deleted_turn_ids session row st) (delete_derived owner session turn st)

pub delete_turn-Deleted :
    (owner session turn : ℕ) (st after : State) (r : TurnDeletionResult)
    → delete_turn owner session turn st ≡ (ok r, after)
    → Deleted owner session turn st r after
unfolding delete_turn delete_turn_body
delete_turn-Deleted owner session turn st after r h =
    >>=-elim (or_raise (find_turn owner session turn st) key_error) _ (r, after)
      (transaction-eq-ok (delete_turn_body owner session turn) st r after h)
      λ t e k.
        let found =
          found_turn owner session turn st t
            (or_raise-eq-ok (find_turn owner session turn st) key_error t e) in
        record {
          row = t;
          active = found.0;
          chosen = found.1;
          counted = cc;
          sized = cc;
          invalidated = cc;
          left = cc;
        }
