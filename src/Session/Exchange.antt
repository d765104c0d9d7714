-- ===== src/Session/Exchange.antt =====
-- A user's turn and its reply, read back as the exchange of an extraction run.
use lenko_bot.Prelude.{
  ℕ, ◌≡◌, refl, ◌∙◌, ap, List, [], ◌∷◌, ◌++◌, true, false, ◌&&◌, ◌||◌, inl, inr, arith, Option,
  none, some, ok, >>=-elim, or_raise, value_error, Bool-cases, ◌==◌, ==-refl, All,
}
use lenko_bot.Prelude.Table.{find, select}
use lenko_bot.Text.{Text, is_blank}
use lenko_bot.State.{
  State, Session, Role, TranscriptTurn, insert_profile, owns_session, is_user, is_assistant,
}
use lenko_bot.State.Order.{order_by, order_by-Apart}
use lenko_bot.State.Laws.{transaction-eq-ok, >=>-elim}
use lenko_bot.State.Rows.{find-any, any-last, select-All, Apart-select, fresh_id}
use lenko_bot.Session.{
  ActiveSession, active_session_from_row, is_active_in, new_session, open_session,
  ensure_session_body, ensure_active_session, append_turn, append_turn_body, new_turn,
  begin_user_turn, append_assistant_turn, is_in_session, is_active_session,
}
use lenko_bot.Session.Query.{by_sequence, list_turns, exchange_in, extraction_exchange}
use lenko_bot.Session.Invariant.{IsConsistent, are_out_of_sequence}
use lenko_bot.Session.Invariant.Run.{Step, Step-IsConsistent}

-- In a consistent state the turns of a session stand in the order of their sequence numbers.
turns_ordered :
    (session : ℕ) (st : State)
    → IsConsistent st
    → order_by by_sequence (select (is_in_session session) st.turns)
      ≡ select (is_in_session session) st.turns
turns_ordered session st w = order_by-Apart by_sequence (select (is_in_session session) st.turns) (
    Apart-select are_out_of_sequence (λ t u. by_sequence u t) (is_in_session session) st.turns
      (λ t u e f k. ground arith) w.sequences)

exchange_at_end :
    (source : ℕ) (ts : List TranscriptTurn) (t u : TranscriptTurn)
    → All (λ x. (x.id == source) ≡ false) ts
    → (t.id == source) ≡ true
    → (is_user t.role && is_assistant u.role) ≡ true
    → exchange_in source (ts ++ t ∷ u ∷ []) ≡ some (t, u)
unfolding exchange_in
exchange_at_end source [] t u w e f = rw (e, f) refl
exchange_at_end source (x ∷ []) t u w e f = rw (w.0, e, f) refl
exchange_at_end source (x ∷ y ∷ ts) t u w e f =
    rw (w.0, exchange_at_end source (y ∷ ts) t u w.1 e f) refl

-- What an append that returned has done.
appended :
    (session : ℕ) (role : Role) (content : Text) (response : Option Text) (now : ℕ)
    (st after : State) (t : TranscriptTurn)
    → append_turn session role content response now st ≡ (ok t, after)
    → (t ≡ new_turn session role content response now st)
      × (after.turns ≡ st.turns ++ t ∷ [])
      × (after.sessions ≡ st.sessions)
unfolding append_turn append_turn_body
appended session role content response now st after t h = elim (Bool-cases (is_blank content)) [
  | inl e ↦ absurd (cc (rw e at h))
  | inr e ↦
      >>=-elim (or_raise (find (is_active_session session) st.sessions) value_error) _ (t, after)
        (transaction-eq-ok (append_turn_body session role content response now) st t after
          (rw e at h))
        λ active _ k. (cc, cc, cc)
]

open_session-owned :
    (owner lane now : ℕ) (o : Option Session) (st after : State) (s : Session)
    → find (is_active_in lane) st.sessions ≡ o
    → open_session owner lane now o st ≡ ok (s, after)
    → owns_session after owner s.id ≡ true
unfolding open_session owns_session
open_session-owned owner lane now (some u) st after s f h =
    elim (Bool-cases (u.owner_user_id == owner)) [
      | inr e ↦ cc (rw e at h)
      | inl e ↦
          let row : u ≡ s = cc (rw e at h) in
          let same : st ≡ after = cc (rw e at h) in
          rw (← same, ← row)
            (find-any (is_active_in lane) (λ x. x.id == u.id && x.owner_user_id == owner)
              st.sessions u f (ground arith))
    ]
open_session-owned owner lane now none st after s f h =
    let row : new_session owner lane now st ≡ s = cc in
    let rows : st.sessions ++ new_session owner lane now st ∷ [] ≡ after.sessions = cc in
    rw (← rows, ← row)
      (any-last (λ x. x.id == (new_session owner lane now st).id && x.owner_user_id == owner)
        st.sessions (new_session owner lane now st) (unfold new_session in ground arith))

ensured-owned :
    (owner lane now : ℕ) (st after : State) (a : ActiveSession)
    → ensure_active_session owner lane now st ≡ (ok a, after)
    → owns_session after owner a.id ≡ true
unfolding ensure_active_session ensure_session_body
ensured-owned owner lane now st after a h = elim (Bool-cases (owner == 0 || lane == 0)) [
  | inl e ↦ absurd (cc (rw e at h))
  | inr e ↦
      let base = insert_profile owner st in
      >>=-elim (or_raise (find (λ l. l.id == lane) base.lanes) value_error) _ (a, after)
        (transaction-eq-ok (ensure_session_body owner lane now) st a after (rw e at h))
        λ found _ h1.
          >>=-elim (open_session owner lane now (find (is_active_in lane) base.sessions) base) _
            (a, after) h1
            λ opened f h2.
              let same : opened.1 ≡ after = cc in
              let row : active_session_from_row opened.0 ≡ a = cc in
              rw (← same, ← row) (open_session-owned owner lane now _ base opened.1 opened.0 refl f)
]

list_turns-select :
    (session owner : ℕ) (st : State)
    → IsConsistent st
    → owns_session st owner session ≡ true
    → list_turns session owner st ≡ select (is_in_session session) st.turns
unfolding list_turns
list_turns-select session owner st w o = rw o (turns_ordered session st w)

-- The rows of a session after two more of them.
select_two :
    (session : ℕ) (ts : List TranscriptTurn) (t u : TranscriptTurn)
    → is_in_session session t ≡ true
    → is_in_session session u ≡ true
    → select (is_in_session session) ((ts ++ t ∷ []) ++ u ∷ [])
      ≡ select (is_in_session session) ts ++ t ∷ u ∷ []
unfolding select
select_two session [] t u e f = rw (e, f) refl
select_two session (x ∷ xs) t u e f = elim (Bool-cases (is_in_session session x)) [
  | inl g ↦ rw (g, select_two session xs t u e f) refl
  | inr g ↦ rw (g, select_two session xs t u e f) refl
]

exchange_of :
    (session owner : ℕ) (before st : State) (t u : TranscriptTurn)
    → IsConsistent st
    → owns_session st owner session ≡ true
    → st.turns ≡ (before.turns ++ t ∷ []) ++ u ∷ []
    → is_in_session session t ≡ true
    → is_in_session session u ≡ true
    → (is_user t.role && is_assistant u.role) ≡ true
    → All (λ x. (x.id == t.id) ≡ false) before.turns
    → extraction_exchange session owner t.id st ≡ ok (t, u)
unfolding extraction_exchange
exchange_of session owner before st t u w o rows e f roles fresh =
    rw
      (
        list_turns-select session owner st w o,
        rows,
        select_two session before.turns t u e f,
        exchange_at_end t.id (select (is_in_session session) before.turns) t u
            (select-All (λ x. (x.id == t.id) ≡ false) (is_in_session session) before.turns fresh)
            (==-refl t.id) roles,
      )
      refl

-- From a consistent state, a user's turn that is begun and the reply that is appended to its session:
-- the exchange of that turn, as the memory extraction reads it, is the turn and the reply.
pub extraction_exchange-append_assistant_turn :
    (owner lane : ℕ) (content : Text) (now : ℕ) (st mid : State) (t : TranscriptTurn) (reply : Text)
    (response : Option Text) (later : ℕ) (after : State) (u : TranscriptTurn)
    → IsConsistent st
    → begin_user_turn owner lane content now st ≡ (ok t, mid)
    → append_assistant_turn t.session_id reply response later mid ≡ (ok u, after)
    → extraction_exchange t.session_id owner t.id after ≡ ok (t, u)
unfolding begin_user_turn append_assistant_turn owns_session
extraction_exchange-append_assistant_turn owner lane content now st mid t reply response later after
      u w h k =
    >=>-elim (ensure_active_session owner lane now st) _ t mid h λ a e h1.
      let s1 = (ensure_active_session owner lane now st).1 in
      let first = appended a.id Role.user content none now s1 mid t h1 in
      let second = appended t.session_id Role.assistant reply response later mid after u k in
      let session : t.session_id ≡ a.id = rw first.0 (unfold new_turn in refl) in
      let sessions : after.sessions ≡ s1.sessions = second.2 ∙ first.2 in
      let owned : owns_session after owner t.session_id ≡ true =
        rw (sessions, session) (ensured-owned owner lane now st s1 a e) in
      exchange_of t.session_id owner s1 after t u
        (kept a.id s1 mid after h1 k (Step-IsConsistent st s1 (Step.ensures owner lane now) w))
        owned (second.1 ∙ ap (λ ts. ts ++ u ∷ []) first.1) (==-refl t.session_id)
        (rw second.0 (unfold new_turn in ==-refl t.session_id))
        (rw (second.0, first.0) (unfold new_turn in refl))
        (rw first.0 (unfold new_turn in fresh_id (λ x. x.id) s1.turns))
  where
    kept :
        (session : ℕ) (s1 mid after : State)
        → append_turn session Role.user content none now s1 ≡ (ok t, mid)
        → append_turn t.session_id Role.assistant reply response later mid ≡ (ok u, after)
        → IsConsistent s1
        → IsConsistent after
    kept session s1 mid after h k w =
        let one : (append_turn session Role.user content none now s1).1 ≡ mid = ap (λ p. p.1) h in
        let two : (append_turn t.session_id Role.assistant reply response later mid).1 ≡ after =
          ap (λ p. p.1) k in
        rw (← two) (
          Step-IsConsistent mid _ (Step.appends t.session_id Role.assistant reply response later) (
            rw (← one)
              (Step-IsConsistent s1 _ (Step.appends session Role.user content none now) w)))
