-- ===== src/Session/Deletion/Exact.antt =====
-- `delete_turn` in a consistent state: which rows it takes.
use lenko_bot.Prelude.{
  ℕ, ◌+◌, ◌≡◌, refl, ap, true, ◌&&◌, inl, inr, arith, some, ok, Bool-cases, Option-cases, ◌==◌, any,
  length,
}
use lenko_bot.Prelude.Table.Unique.{In}
use lenko_bot.Prelude.Table.Without.{Without, Tells, delete-Without, length-delete, any-In}
use lenko_bot.State.{
  State, Session, SessionStatus, TranscriptTurn, MemoryRecord, MemoryExtractionRun, is_open,
}
use lenko_bot.Session.Finalize.{is_owned_active}
use lenko_bot.Session.Invariant.{IsConsistent}
use lenko_bot.Session.Deletion.{
  is_run_from, TurnDeletionResult, deleted_turn_ids, delete_memories, comes_from, delete_derived,
  delete_turn,
}
use lenko_bot.Session.Deletion.Taken.{IsTaken, row_In, row_fields, turns_left}
use lenko_bot.Session.Deletion.Laws.{delete_turn-Deleted, delete_each-rest}

-- `user_id = ? AND provenance_turn_id = ?`, said of the columns.
abbrev pub IsFrom : ℕ → ℕ → MemoryRecord → Type 0
IsFrom owner turn m = (m.user_id ≡ owner) × (m.provenance_turn_id ≡ some turn)

Tells-memory :
    (owner turn : ℕ) (m : MemoryRecord) → Tells (IsFrom owner turn) (comes_from owner turn) m
Tells-memory owner turn m = elim (Option-cases m.provenance_turn_id) [
  | inl f ↦ inr (rw f (ground arith), λ h. cc (h.1, f))
  | inr (n, f) ↦ elim (Bool-cases (m.user_id == owner && n == turn)) [
    | inl e ↦ inl (rw f e, (ground (arith, e), rw f (ap some (ground (arith, e)))))
    | inr e ↦ inr (rw f e, λ h. ground (arith, e, same n f h.1, h.0))
  ]
]
  where
    same : (n : ℕ) → m.provenance_turn_id ≡ some n → m.provenance_turn_id ≡ some turn → n ≡ turn
    same n f g = cc

abbrev pub IsRunOf : ℕ → ℕ → ℕ → MemoryExtractionRun → Type 0
IsRunOf owner session turn q =
    (q.owner_user_id ≡ owner) × (q.session_id ≡ session) × (q.source_turn_id ≡ turn)

Tells-run :
    (owner session turn : ℕ) (q : MemoryExtractionRun)
    → Tells (IsRunOf owner session turn) (is_run_from owner session turn) q
Tells-run owner session turn q = elim (Bool-cases (is_run_from owner session turn q)) [
  | inl e ↦ inl (e, (ground (arith, e), ground (arith, e), ground (arith, e)))
  | inr e ↦ inr (e, λ h. ground (arith, e, h.0, h.1, h.2))
]

-- The session is the owner's and active.
abbrev pub IsActiveOf : ℕ → ℕ → Session → Type 0
IsActiveOf owner session s =
    (s.id ≡ session) × (s.owner_user_id ≡ owner) × (s.status ≡ SessionStatus.active)

active_session :
    (owner session : ℕ) (st : State)
    → any (is_owned_active session owner) st.sessions ≡ true
    → (s : Session) × In s st.sessions × IsActiveOf owner session s
active_session owner session st h =
    let (s, i, t) = any-In (is_owned_active session owner) st.sessions h in
    (s, i, (ground (arith, t), ground (arith, t), status s.status (ground (arith, t))))
  where
    status : (x : SessionStatus) → is_open x ≡ true → x ≡ SessionStatus.active
    status SessionStatus.active e = refl
    status SessionStatus.closed e = cc

-- In a consistent state a call of delete_turn that returns was about a turn of an active session of
-- the owner. Of all turns it takes that turn and, if it is the user's, the assistant's turn that
-- follows it in the session; of the memories those that the owner has from a turn of that id; of the
-- extraction runs the owner's for that turn of that session. All other rows of the three tables stay,
-- in their order, and the result has the numbers of the turns and of the memories that were taken.
pub delete_turn-exact :
    (owner session turn : ℕ) (st after : State) (r : TurnDeletionResult)
    → IsConsistent st
    → delete_turn owner session turn st ≡ (ok r, after)
    → ((s : Session) × In s st.sessions × IsActiveOf owner session s)
      × ((row : TranscriptTurn) × In row st.turns
          × (row.id ≡ turn)
          × (row.session_id ≡ session)
          × Without (IsTaken row) st.turns after.turns)
      × Without (IsFrom owner turn) st.memories after.memories
      × Without (IsRunOf owner session turn) st.runs after.runs
      × (length st.turns ≡ length after.turns + r.deleted_turn_count)
      × (length st.memories ≡ length after.memories + r.deleted_memory_count)
unfolding delete_derived delete_memories
delete_turn-exact owner session turn st after r w h =
    let d = delete_turn-Deleted owner session turn st after r h in
    let base = delete_derived owner session turn st in
    let rest = delete_each-rest session (deleted_turn_ids session d.row st) base in
    let left = turns_left session turn st w d.row d.chosen owner in
    let fields = row_fields session turn st w d.row d.chosen in
    rw (d.left, d.sized, d.counted)
      (
        active_session owner session st d.active,
        (d.row, row_In session turn st w d.row d.chosen, fields.0, fields.1, left.0),
        rw rest.0 (
            delete-Without (IsFrom owner turn) (comes_from owner turn) st.memories
              (λ m _. Tells-memory owner turn m)),
        rw rest.1 (
            delete-Without (IsRunOf owner session turn) (is_run_from owner session turn) st.runs
              (λ q _. Tells-run owner session turn q)),
        left.1,
        rw rest.0 (length-delete (comes_from owner turn) st.memories),
      )
