-- ===== src/Session/Invariant/Run.antt =====
-- The steps that change the sessions, with whatever arguments, and the runs of them.
use lenko_bot.Prelude.{ℕ, ◌≡◌, ◌||◌, inl, inr, Option, ok, Bool-cases, Option-cases, ◌==◌}
use lenko_bot.Text.{Text, is_blank}
use lenko_bot.State.{State, transaction, Role, SessionSummary}
use lenko_bot.State.Laws.{transaction-keeps}
use lenko_bot.Session.{ensure_active_session, ensure_session_body, append_turn, append_turn_body}
use lenko_bot.Session.Finalize.{Snapshot, get_summary, finalize_body}
use lenko_bot.Session.Deletion.{delete_turn, delete_turn_body}
use lenko_bot.Session.Laws.{finalize_current-Committed}
use lenko_bot.Session.Invariant.{IsConsistent}
use lenko_bot.Session.Invariant.Sessions.{ensure_session_body-IsConsistent}
use lenko_bot.Session.Invariant.Turns.{
  append_turn_body-IsConsistent, delete_turn_body-IsConsistent, write_summary-IsConsistent,
}

-- `elsewhere` stands for every change that leaves the three tables, such as those of memories,
-- extraction runs, failures and profiles.
pub data Step : State → State → Type 0 where
  ensures : (owner lane now : ℕ) {st : State} → Step st (ensure_active_session owner lane now st).1
  appends :
      (session : ℕ) (role : Role) (content : Text) (response : Option Text) (now : ℕ) {st : State}
      → Step st (append_turn session role content response now st).1
  finalizes :
      (session owner : ℕ) (snapshot : Snapshot) (content : Text) (now : ℕ) {st : State}
      → Step st (transaction (finalize_body session owner snapshot content now) st).1
  deletes : (owner session turn : ℕ) {st : State} → Step st (delete_turn owner session turn st).1
  elsewhere :
      {st after : State}
      → after.sessions ≡ st.sessions
      → after.turns ≡ st.turns
      → after.summaries ≡ st.summaries
      → Step st after

pub data Reach (first : State) : State → Type 0 where
  here : Reach first first
  further : {st after : State} → Reach first st → Step st after → Reach first after

-- The invariant is about the three tables.
elsewhere-IsConsistent :
    (st after : State)
    → after.sessions ≡ st.sessions
    → after.turns ≡ st.turns
    → after.summaries ≡ st.summaries
    → IsConsistent st
    → IsConsistent after
elsewhere-IsConsistent st after s t m w = record {
  session_ids = rw s w.session_ids;
  one_active = rw s w.one_active;
  generations = rw s w.generations;
  turn_ids = rw t w.turn_ids;
  sequences = rw t w.sequences;
  open_turns = rw (s, t) w.open_turns;
  summarised = rw (s, m) w.summarised;
}

pub finalize_body-IsConsistent :
    (session owner : ℕ) (snapshot : Snapshot) (content : Text) (now : ℕ) (st after : State)
    (m : SessionSummary)
    → finalize_body session owner snapshot content now st ≡ ok (m, after)
    → IsConsistent st
    → IsConsistent after
unfolding finalize_body
finalize_body-IsConsistent session owner snapshot content now st after m h w =
    elim (Option-cases (get_summary session owner st)) [
      | inr (old, e) ↦ let same : st ≡ after = cc (rw (e, finalize_body) at h) in rw (← same) w
      | inl e ↦
          let c =
            finalize_current-Committed session owner snapshot content now st after m
              (rw (e, finalize_body) at h) in
          write_summary-IsConsistent session owner snapshot content now st after m c.active
            c.written w
    ]

pub Step-IsConsistent : (st after : State) → Step st after → IsConsistent st → IsConsistent after
unfolding ensure_active_session append_turn delete_turn
Step-IsConsistent st after (ensures owner lane now) w =
    elim (Bool-cases (owner == 0 || lane == 0)) [
      | inl e ↦ rw e w
      | inr e ↦ rw e (
          transaction-keeps (ensure_session_body owner lane now) st IsConsistent w
            λ a mid h. ensure_session_body-IsConsistent owner lane now st mid a h w)
    ]
Step-IsConsistent st after (appends session role content response now) w =
    elim (Bool-cases (is_blank content)) [
      | inl e ↦ rw e w
      | inr e ↦ rw e (
          transaction-keeps (append_turn_body session role content response now) st IsConsistent w
            λ t mid h. append_turn_body-IsConsistent session role content response now st mid t h w)
    ]
Step-IsConsistent st after (finalizes session owner snapshot content now) w =
    transaction-keeps (finalize_body session owner snapshot content now) st IsConsistent w
      λ m mid h. finalize_body-IsConsistent session owner snapshot content now st mid m h w
Step-IsConsistent st after (deletes owner session turn) w =
    transaction-keeps (delete_turn_body owner session turn) st IsConsistent w
      λ r mid h. delete_turn_body-IsConsistent owner session turn st mid r h w
Step-IsConsistent st after (elsewhere s t m) w = elsewhere-IsConsistent st after s t m w

-- From a consistent state every run of ensure_active_session, appended turns, the transactions of
-- finalize, delete_turn and changes of other tables, with whatever arguments, leads to a consistent
-- state: no lane has two active sessions, the generations of a lane grow, the sequence numbers of a
-- session grow, every turn belongs to an active session, and every summary to a closed one.
pub Reach-IsConsistent : (first st : State) → Reach first st → IsConsistent first → IsConsistent st
Reach-IsConsistent first st here w = w
Reach-IsConsistent first st (further r s) w =
    Step-IsConsistent _ st s (Reach-IsConsistent first _ r w)
