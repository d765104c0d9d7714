-- ===== src/Session/Deletion/Taken.antt =====
-- The turns that `delete_turn` takes in a consistent state: the turn and the answer to it.
use lenko_bot.Prelude.{
  ℕ, ◌+◌, ◌≡◌, refl, sym, subst, ◌∙◌, List, [], ◌∷◌, Bool, true, false, ◌&&◌, ◌||◌, inl, inr, ◌⊎◌,
  arith, some, Bool-cases, Option-cases, ◌==◌, length,
}
use lenko_bot.Prelude.Table.{find, find_sound, delete, count_where}
use lenko_bot.Prelude.Table.Unique.{In, find-In, All-In, Distinct-delete}
use lenko_bot.Prelude.Table.Without.{
  Without, Tells, delete-Without, delete-delete, length-delete, find-none-In, Distinct-same,
  count_where-one, delete-In,
}
use lenko_bot.State.{State, Role, TranscriptTurn, is_user, is_assistant}
use lenko_bot.State.Order.{Apart}
use lenko_bot.Session.{is_in_session}
use lenko_bot.Session.Finalize.{delete_turns}
use lenko_bot.Session.Invariant.{IsConsistent, are_out_of_sequence}
use lenko_bot.Session.Deletion.{
  is_reply_to, deleted_turn_ids, delete_memories, delete_each, delete_derived,
}

-- The turn itself, and the assistant's answer to it: the assistant's turn that follows a user's turn
-- in its session.
abbrev pub IsTaken : TranscriptTurn → TranscriptTurn → Type 0
IsTaken row t =
    (t.id ≡ row.id)
    ⊎ ((row.role ≡ Role.user)
        × (t.role ≡ Role.assistant)
        × (t.session_id ≡ row.session_id)
        × (t.sequence ≡ row.sequence + 1))

Apart-same :
    {A : Type 0} (r : A → A → Bool) (xs : List A) (a b : A)
    → Apart r xs
    → In a xs
    → In b xs
    → r a b ≡ true
    → r b a ≡ true
    → b ≡ a
Apart-same r [] a b d i j e f = elim i [ ]
Apart-same r (x ∷ xs) a b d (inl i) (inl j) e f = sym j ∙ i
Apart-same r (x ∷ xs) a b d (inl i) (inr j) e f =
    let apart = All-In (λ y. r x y ≡ false) xs b d.0 j in absurd (cc (rw i at apart, e))
Apart-same r (x ∷ xs) a b d (inr i) (inl j) e f =
    let apart = All-In (λ y. r x y ≡ false) xs a d.0 i in absurd (cc (rw j at apart, f))
Apart-same r (x ∷ xs) a b d (inr i) (inr j) e f = Apart-same r xs a b d.1 i j e f

role_of_user : (r : Role) → is_user r ≡ true → r ≡ Role.user
role_of_user Role.user h = refl
role_of_user Role.assistant h = cc

role_of_assistant : (r : Role) → is_assistant r ≡ true → r ≡ Role.assistant
role_of_assistant Role.assistant h = refl
role_of_assistant Role.user h = cc

module _ (session turn : ℕ) (st : State) (w : IsConsistent st) (row : TranscriptTurn)
    (chosen : find (λ t. t.id == turn && is_in_session session t) st.turns ≡ some row) where
  pub row_In : In row st.turns
  row_In = find-In (λ t. t.id == turn && is_in_session session t) st.turns row chosen

  pub row_fields : (row.id ≡ turn) × (row.session_id ≡ session)
  row_fields =
      let e = find_sound (λ t. t.id == turn && is_in_session session t) st.turns row chosen in
      (ground (arith, e), ground (arith, e))

  same_row : (t : TranscriptTurn) → In t st.turns → t.id ≡ row.id → t ≡ row
  same_row t i e = Distinct-same (λ t. t.id) st.turns row t w.turn_ids row_In i (ground (arith, e))

  reply_fields :
      (t : TranscriptTurn)
      → is_reply_to session row t ≡ true
      → (t.role ≡ Role.assistant)
        × (t.session_id ≡ row.session_id)
        × (t.sequence ≡ row.sequence + 1)
  reply_fields t e =
      let (_, s) = row_fields in
      (role_of_assistant t.role (ground (arith, e)), ground (arith, e, s), ground (arith, e))

  reply_test :
      (t : TranscriptTurn)
      → t.role ≡ Role.assistant
      → t.session_id ≡ row.session_id
      → t.sequence ≡ row.sequence + 1
      → is_reply_to session row t ≡ true
  reply_test t a s q = let (_, same) = row_fields in rw a (ground (arith, s, q, same))

  row_test : (row.id == turn && is_in_session session row) ≡ true
  row_test = find_sound (λ t. t.id == turn && is_in_session session t) st.turns row chosen

  one_row : count_where (λ t. t.id == turn && is_in_session session t) st.turns ≡ 1
  one_row =
      count_where-one (λ t. t.id) (λ t. t.id == turn && is_in_session session t) st.turns row
        w.turn_ids row_In row_test (λ t e. ground (arith, e, row_fields.0))

  -- The DELETE of the turn alone, where it has no answer.
  Tells-row :
      ((t : TranscriptTurn)
        → In t st.turns
        → row.role ≡ Role.user
        → is_reply_to session row t ≡ false)
      → (t : TranscriptTurn) → In t st.turns
      → Tells (IsTaken row) (λ t. t.id == turn && is_in_session session t) t
  Tells-row no_reply t i = elim (Bool-cases (t.id == turn && is_in_session session t)) [
    | inl e ↦ inl (e, inl (ground (arith, e, row_fields.0)))
    | inr e ↦ inr (
      e,
      λ taken. elim taken [
        | inl same ↦ let eq = same_row t i same in cc (eq, e, row_test)
        | inr (user, a, s, q) ↦ cc (no_reply t i user, reply_test t a s q)
      ],
    )
  ]

  module _ (reply : TranscriptTurn) (user : row.role ≡ Role.user)
      (found : find (is_reply_to session row) st.turns ≡ some reply) where
    reply-In : In reply st.turns
    reply-In = find-In (is_reply_to session row) st.turns reply found

    fields :
        (reply.role ≡ Role.assistant)
        × (reply.session_id ≡ row.session_id)
        × (reply.sequence ≡ row.sequence + 1)
    fields = reply_fields reply (find_sound (is_reply_to session row) st.turns reply found)

    reply_test_self : (reply.id == reply.id && is_in_session session reply) ≡ true
    reply_test_self = let (_, s, _) = fields in ground (arith, s, row_fields.1)

    same_reply :
        (t : TranscriptTurn)
        → In t st.turns
        → t.session_id ≡ row.session_id
        → t.sequence ≡ row.sequence + 1
        → t ≡ reply
    same_reply t i s q =
        let (_, s', q') = fields in
        Apart-same are_out_of_sequence st.turns reply t w.sequences reply-In i
          (ground (arith, s, q, s', q')) (ground (arith, s, q, s', q'))

    apart : (reply.id == turn && is_in_session session reply) ≡ false
    apart = elim (Bool-cases (reply.id == turn && is_in_session session reply)) [
      | inr e ↦ e
      | inl e ↦
          let eq = same_row reply reply-In (ground (arith, e, row_fields.0)) in
          let (_, _, q) = fields in absurd (omega (arith, rw eq at q))
    ]

    Tells-both :
        (t : TranscriptTurn)
        → In t st.turns
        → Tells
            (IsTaken row)
            (λ t.
              t.id == turn && is_in_session session t
              || t.id == reply.id && is_in_session session t)
            t
    Tells-both t i = elim (Bool-cases (t.id == turn && is_in_session session t)) [
      | inl e ↦ rw e (inl (refl, inl (ground (arith, e, row_fields.0))))
      | inr e ↦ elim (Bool-cases (t.id == reply.id && is_in_session session t)) [
        | inl f ↦
            let eq =
              Distinct-same (λ t. t.id) st.turns reply t w.turn_ids reply-In i
                (ground (arith, f)) in
            rw (e, f, eq) (inl (refl, inr (user, fields.0, fields.1, fields.2)))
        | inr f ↦
            rw (e, f)
              (inr (
                refl,
                λ taken. elim taken [
                  | inl same ↦ let eq = same_row t i same in cc (eq, e, row_test)
                  | inr (_, a, s, q) ↦ let eq = same_reply t i s q in cc (eq, f, reply_test_self)
                ],
              ))
      ]
    ]

    one_reply :
        count_where
          (λ t. t.id == reply.id && is_in_session session t)
          (delete (λ t. t.id == turn && is_in_session session t) st.turns)
        ≡ 1
    one_reply =
        count_where-one (λ t. t.id) (λ t. t.id == reply.id && is_in_session session t)
          (delete (λ t. t.id == turn && is_in_session session t) st.turns) reply
          (Distinct-delete (λ t. t.id) (λ t. t.id == turn && is_in_session session t) st.turns
            w.turn_ids)
          (delete-In (λ t. t.id == turn && is_in_session session t) st.turns reply reply-In apart)
          reply_test_self (λ t e. ground (arith, e))

  -- The turns that the DELETE statements leave, and how many they take.
  abbrev TurnsLeft : List ℕ → List TranscriptTurn → Type 0
  TurnsLeft ids turns =
      Without (IsTaken row) st.turns turns × (length st.turns ≡ length turns + length ids)

  row_left :
      ((t : TranscriptTurn)
        → In t st.turns
        → row.role ≡ Role.user
        → is_reply_to session row t ≡ false)
      → TurnsLeft (row.id ∷ []) (delete (λ t. t.id == row.id && is_in_session session t) st.turns)
  row_left no_reply =
      subst
        (λ n. TurnsLeft (row.id ∷ []) (delete (λ t. t.id == n && is_in_session session t) st.turns))
        (sym row_fields.0)
        (
          delete-Without (IsTaken row) (λ t. t.id == turn && is_in_session session t) st.turns
              (Tells-row no_reply),
          length-delete (λ t. t.id == turn && is_in_session session t) st.turns ∙ rw one_row refl,
        )

  both_left :
      (reply : TranscriptTurn)
      → row.role ≡ Role.user
      → find (is_reply_to session row) st.turns ≡ some reply
      → TurnsLeft (row.id ∷ reply.id ∷ []) (
          delete
            (λ t. t.id == reply.id && is_in_session session t)
            (delete (λ t. t.id == row.id && is_in_session session t) st.turns))
  both_left reply user found =
      let p : TranscriptTurn → Bool = λ t. t.id == turn && is_in_session session t in
      let q : TranscriptTurn → Bool = λ t. t.id == reply.id && is_in_session session t in
      let first = length-delete p st.turns in
      let second = length-delete q (delete p st.turns) in
      subst
        (λ n.
          TurnsLeft (row.id ∷ reply.id ∷ [])
            (delete q (delete (λ t. t.id == n && is_in_session session t) st.turns)))
        (sym row_fields.0)
        (
          rw (delete-delete p q st.turns) (
              delete-Without (IsTaken row) (λ t. p t || q t) st.turns
                (Tells-both reply user found)),
          omega (arith, first, second, one_row, one_reply reply user found),
        )

  pub turns_left :
      (owner : ℕ)
      → TurnsLeft
          (deleted_turn_ids session row st)
          (delete_each session
            (deleted_turn_ids session row st)
            (delete_derived owner session turn st)).turns
  unfolding deleted_turn_ids delete_each delete_turns delete_derived delete_memories
  turns_left owner = elim (Bool-cases (is_user row.role)) [
    | inr e ↦ rw e (row_left (λ t i user. cc (rw user at e)))
    | inl e ↦ elim (Option-cases (find (is_reply_to session row) st.turns)) [
      | inl f ↦
          rw (e, f) (row_left (λ t i _. find-none-In (is_reply_to session row) st.turns t f i))
      | inr (u, f) ↦ rw (e, f) (both_left u (role_of_user row.role e) f)
    ]
  ]
