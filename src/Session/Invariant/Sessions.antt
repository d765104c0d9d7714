-- ===== src/Session/Invariant/Sessions.antt =====
-- A new session of a lane, and a session that is closed.
use lenko_bot.Prelude.{
  ℕ, ◌≡◌, refl, [], ◌∷◌, ◌++◌, false, inl, inr, arith, Option, none, some, ok, >>=-elim, or_raise,
  value_error, Bool-cases, ◌==◌, any, All,
}
use lenko_bot.Prelude.Table.{find}
use lenko_bot.Prelude.Table.Unique.{Distinct-insert}
use lenko_bot.State.{State, Session, insert_profile}
use lenko_bot.State.Order.{Apart-append}
use lenko_bot.State.Rows.{above-select, find-none_rows, any-append, All-map}
use lenko_bot.Session.{
  ActiveSession, is_active_in, next_generation, new_session, open_session, is_active_session,
  ensure_session_body,
}
use lenko_bot.Session.Invariant.{are_rivals, are_unordered, is_closed_session, IsConsistent}

new_rivals :
    (owner lane now : ℕ) (st : State)
    → find (is_active_in lane) st.sessions ≡ none
    → All (λ s. are_rivals s (new_session owner lane now st) ≡ false) st.sessions
unfolding new_session
new_rivals owner lane now st h =
    All-map (λ s. is_active_in lane s ≡ false) _ st.sessions (λ s w. ground arith)
      (find-none_rows (is_active_in lane) st.sessions h)

new_generations :
    (owner lane now : ℕ) (st : State)
    → All (λ s. are_unordered s (new_session owner lane now st) ≡ false) st.sessions
unfolding new_session next_generation
new_generations owner lane now st =
    above-select (λ s. s.persona_session_id == lane) (λ s. s.generation) _ st.sessions (omega arith)

pub insert_session-IsConsistent :
    (owner lane now : ℕ) (st : State)
    → find (is_active_in lane) st.sessions ≡ none
    → IsConsistent st
    → IsConsistent (record st { sessions = st.sessions ++ new_session owner lane now st ∷ [] })
insert_session-IsConsistent owner lane now st h w = record {
  session_ids =
      Distinct-insert (λ s. s.id) st.sessions (new_session owner lane now st)
        (unfold new_session in refl) w.session_ids;
  one_active =
      Apart-append are_rivals st.sessions (new_session owner lane now st)
        (new_rivals owner lane now st h) w.one_active;
  generations =
      Apart-append are_unordered st.sessions (new_session owner lane now st)
        (new_generations owner lane now st) w.generations;
  turn_ids = w.turn_ids;
  sequences = w.sequences;
  open_turns =
      All-map _ _ st.turns (λ t k. any-append (is_active_session t.session_id) st.sessions _ k)
        w.open_turns;
  summarised =
      All-map _ _ st.summaries (λ m k. any-append (is_closed_session m.session_id) st.sessions _ k)
        w.summarised;
}

open_session-IsConsistent :
    (owner lane now : ℕ) (o : Option Session) (st after : State) (s : Session)
    → find (is_active_in lane) st.sessions ≡ o
    → open_session owner lane now o st ≡ ok (s, after)
    → IsConsistent st
    → IsConsistent after
unfolding open_session
open_session-IsConsistent owner lane now (some u) st after s f h w =
    let same : st ≡ after = ground arith in rw (← same) w
open_session-IsConsistent owner lane now none st after s f h w =
    let same : record st { sessions = st.sessions ++ new_session owner lane now st ∷ [] } ≡ after =
      cc in
    rw (← same) (insert_session-IsConsistent owner lane now st f w)

insert_profile-IsConsistent :
    (owner : ℕ) (st : State) → IsConsistent st → IsConsistent (insert_profile owner st)
unfolding insert_profile
insert_profile-IsConsistent owner st w =
    elim (Bool-cases (any (λ p. p.user_id == owner) st.profiles)) [
      | inl e ↦ rw e w
      | inr e ↦ rw e (record {
        session_ids = w.session_ids;
        one_active = w.one_active;
        generations = w.generations;
        turn_ids = w.turn_ids;
        sequences = w.sequences;
        open_turns = w.open_turns;
        summarised = w.summarised;
      })
    ]

pub ensure_session_body-IsConsistent :
    (owner lane now : ℕ) (st after : State) (a : ActiveSession)
    → ensure_session_body owner lane now st ≡ ok (a, after)
    → IsConsistent st
    → IsConsistent after
unfolding ensure_session_body
ensure_session_body-IsConsistent owner lane now st after a h w =
    let base = insert_profile owner st in
    >>=-elim (or_raise (find (λ l. l.id == lane) base.lanes) value_error) _ (a, after) h
      λ found e h1.
        >>=-elim (open_session owner lane now (find (is_active_in lane) base.sessions) base) _
          (a, after) h1
          λ opened f h2.
            let same : opened.1 ≡ after = cc in
            rw (← same) (
              open_session-IsConsistent owner lane now _ base opened.1 opened.0 refl f
                (insert_profile-IsConsistent owner st w))
