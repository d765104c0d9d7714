-- ===== src/Session/Finalized.antt =====
-- The end of `finalize`: what its result says of the tables, and what is left when it raises.
use lenko_bot.Prelude.{
  ℕ, ◌≡◌, refl, ap, List, [], ◌∷◌, ◌++◌, true, false, ◌&&◌, ◌||◌, inl, inr, arith, Option, none,
  some, ok, Bool-cases, Option-cases, ◌==◌, any, All,
}
use lenko_bot.Prelude.Table.{find_sound, find-append, Distinct}
use lenko_bot.Prelude.Table.Unique.{find-In, All-In}
use lenko_bot.Text.{Text}
use lenko_bot.State.{State, reading, Session, TranscriptTurn, SessionSummary}
use lenko_bot.State.Laws.{transaction-eq-ok, >=>-elim}
use lenko_bot.State.Rows.{All-map}
use lenko_bot.Session.{is_in_session, is_active_session}
use lenko_bot.Session.Finalize.{
  Generate, Processor, Snapshot, get_summary, take_snapshot, process_runs, generate_summary,
  ensure_extraction_gate, finalize, finalize_body, write_summary, new_summary, delete_turns,
}
use lenko_bot.Session.Laws.{finalize_current-Committed}
use lenko_bot.Session.Invariant.{IsConsistent, is_closed_session}
use lenko_bot.Session.Invariant.Run.{finalize_body-IsConsistent}

none_active :
    (id session : ℕ) (xs : List Session)
    → (id == session) ≡ true
    → All (λ s. (id == s.id) ≡ false) xs
    → any (is_active_session session) xs ≡ false
none_active id session [] e w = refl
none_active id session (s ∷ xs) e w = ground (arith, w.0, none_active id session xs e w.1)

other_id :
    (id session : ℕ) (xs : List Session)
    → All (λ s. (id == s.id) ≡ false) xs
    → any (is_closed_session session) xs ≡ true
    → (id == session) ≡ false
other_id id session [] w h = cc
other_id id session (s ∷ xs) w h = ground (arith, w.0, other_id id session xs w.1)

pub closed-inactive :
    (session : ℕ) (xs : List Session)
    → Distinct (λ s. s.id) xs
    → any (is_closed_session session) xs ≡ true
    → any (is_active_session session) xs ≡ false
closed-inactive session [] d h = refl
closed-inactive session (s ∷ xs) d h = elim (Bool-cases (is_closed_session session s)) [
  | inl e ↦ rw (none_active s.id session xs (ground arith) d.0) (ground arith)
  | inr e ↦
      let later : any (is_closed_session session) xs ≡ true = rw (e, ◌||◌) at h in
      rw (closed-inactive session xs d.1 later, other_id s.id session xs d.0 later) refl
]

-- In a consistent state a session that has a summary has no turns.
summary-no_turns :
    (session owner : ℕ) (st : State) (m : SessionSummary)
    → IsConsistent st
    → get_summary session owner st ≡ some m
    → All (λ t. is_in_session session t ≡ false) st.turns
unfolding get_summary
summary-no_turns session owner st m w h =
    All-map _ _ st.turns
      (λ t k. elim (Bool-cases (is_in_session session t)) [
        | inr e ↦ e
        | inl e ↦ cc (closed-inactive t.session_id st.sessions w.session_ids (closed t e), k)
      ])
      w.open_turns
  where
    row : any (is_closed_session m.session_id) st.sessions ≡ true
    row =
        All-In (λ m. any (is_closed_session m.session_id) st.sessions ≡ true) st.summaries m
          w.summarised
          (find-In (λ m. m.session_id == session && m.owner_user_id == owner) st.summaries m h)

    closed :
        (t : TranscriptTurn)
        → is_in_session session t ≡ true
        → any (is_closed_session t.session_id) st.sessions ≡ true
    closed t e =
        let found =
          find_sound (λ m. m.session_id == session && m.owner_user_id == owner) st.summaries m h in
        let same : t.session_id ≡ m.session_id = ground arith in rw same row

write_summary-get :
    (session owner : ℕ) (snapshot : Snapshot) (content : Text) (now : ℕ) (st after : State)
    (m : SessionSummary)
    → get_summary session owner st ≡ none
    → write_summary session owner snapshot content now st ≡ ok (m, after)
    → get_summary session owner after ≡ some m
unfolding write_summary delete_turns get_summary new_summary
write_summary-get session owner snapshot content now st after m none_yet h =
    elim (Bool-cases (any (λ m. m.session_id == session) st.summaries)) [
      | inl e ↦ cc (rw e at h)
      | inr e ↦
          let summary = new_summary session owner snapshot content now st in
          let rows : st.summaries ++ summary ∷ [] ≡ after.summaries = cc (rw e at h) in
          let same : summary ≡ m = cc (rw e at h) in
          rw (← rows, ← same)
            (find-append (λ m. m.session_id == session && m.owner_user_id == owner) st.summaries
              summary none_yet (ground arith))
    ]

finalize_body-get :
    (session owner : ℕ) (snapshot : Snapshot) (content : Text) (now : ℕ) (st after : State)
    (m : SessionSummary)
    → finalize_body session owner snapshot content now st ≡ ok (m, after)
    → get_summary session owner after ≡ some m
unfolding finalize_body
finalize_body-get session owner snapshot content now st after m h =
    elim (Option-cases (get_summary session owner st)) [
      | inr (old, e) ↦
          let same : st ≡ after = cc (rw (e, finalize_body) at h) in
          let summary : old ≡ m = cc (rw (e, finalize_body) at h) in rw (← same, ← summary) e
      | inl e ↦
          let c =
            finalize_current-Committed session owner snapshot content now st after m
              (rw (e, finalize_body) at h) in
          write_summary-get session owner snapshot content now st after m e c.written
    ]

-- The stages of a call of `finalize` that returned.
pub record Finished (generate : Generate) (processor : Option Processor) (meanwhile : State → State)
    (session owner now : ℕ) (st : State) (m : SessionSummary) (after : State) : Type 0 where
  pub snapshot : Snapshot
  pub content : Text
  pub taken : take_snapshot session owner st ≡ ok snapshot
  pub generated : generate_summary generate snapshot.turns ≡ ok content
  pub committed :
      finalize_body session owner snapshot content now
        (meanwhile (process_runs processor session owner st).1)
      ≡ ok (m, after)

pub finalize-Finished :
    (generate : Generate) (processor : Option Processor) (meanwhile : State → State)
    (session owner now : ℕ) (st after : State) (m : SessionSummary)
    → get_summary session owner st ≡ none
    → finalize generate processor meanwhile session owner now st ≡ (ok m, after)
    → Finished generate processor meanwhile session owner now st m after
unfolding finalize
finalize-Finished generate processor meanwhile session owner now st after m e h =
    >=>-elim (reading (take_snapshot session owner st) st) _ m after (rw (e, finalize) at h)
      λ snapshot e1 h1. >=>-elim (process_runs processor session owner st) _ m after h1 λ _ e2 h2.
        let mid = (process_runs processor session owner st).1 in
        >=>-elim (reading (ensure_extraction_gate session owner mid) mid) _ m after h2 λ _ e3 h3.
          >=>-elim (reading (generate_summary generate snapshot.turns) (meanwhile mid)) _ m after h3
            λ content e4 h4. record {
              snapshot = snapshot;
              content = content;
              taken = ap (λ p. p.0) e1;
              generated = ap (λ p. p.0) e4;
              committed =
                  transaction-eq-ok (finalize_body session owner snapshot content now)
                    (meanwhile mid) m after h4;
            }

-- A call of finalize that returns, from a consistent state, where the processor and what is committed
-- meanwhile keep the state consistent: the state afterwards has the returned summary and no turn of
-- the session, and every later call, with whatever generator, processor and time, returns the same
-- summary and changes nothing.
pub finalize-done :
    (generate : Generate) (processor : Option Processor) (meanwhile : State → State)
    (session owner now : ℕ) (st after : State) (m : SessionSummary)
    → IsConsistent st
    → ((x : State) → IsConsistent x → IsConsistent (process_runs processor session owner x).1)
    → ((x : State) → IsConsistent x → IsConsistent (meanwhile x))
    → finalize generate processor meanwhile session owner now st ≡ (ok m, after)
    → IsConsistent after
      × (get_summary session owner after ≡ some m)
      × All (λ t. is_in_session session t ≡ false) after.turns
      × ((again : Generate) (other : Option Processor) (between : State → State) (later : ℕ)
          → finalize again other between session owner later after ≡ (ok m, after))
unfolding finalize
finalize-done generate processor meanwhile session owner now st after m w keep_runs keep h =
    elim (Option-cases (get_summary session owner st)) [
      | inr (old, e) ↦
          let same : st ≡ after = cc (rw (e, finalize) at h) in
          let summary : old ≡ m = cc (rw (e, finalize) at h) in
          ending (rw same at w) (rw (same, summary) at e)
      | inl e ↦
          let f = finalize-Finished generate processor meanwhile session owner now st after m e h in
          ending
            (finalize_body-IsConsistent session owner f.snapshot f.content now _ after m f.committed
              (keep _ (keep_runs st w)))
            (finalize_body-get session owner f.snapshot f.content now _ after m f.committed)
    ]
  where
    ending :
        IsConsistent after
        → get_summary session owner after ≡ some m
        → IsConsistent after
          × (get_summary session owner after ≡ some m)
          × All (λ t. is_in_session session t ≡ false) after.turns
          × ((again : Generate) (other : Option Processor) (between : State → State) (later : ℕ)
              → finalize again other between session owner later after ≡ (ok m, after))
    ending v g = (
      v,
      g,
      summary-no_turns session owner after m v g,
      λ again other between later. rw (g, finalize) refl,
    )
