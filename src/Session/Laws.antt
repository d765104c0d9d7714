-- ===== src/Session/Laws.antt =====
-- What the transaction of `finalize` has checked when it writes a summary.
use lenko_bot.Prelude.{
  ℕ, ◌≡◌, map, true, false, not, arith, ok, >>=-elim, or_raise, or_raise-eq-ok, raise_if-passed,
  raise_if-eq-ok, value_error, runtime_error, ◌==◌, any,
}
use lenko_bot.Prelude.Table.{find}
use lenko_bot.Text.{Text, text_eq}
use lenko_bot.Text.Laws.{text_eq_sound}
use lenko_bot.State.{State, SessionSummary}
use lenko_bot.State.Rows.{any_of_find}
use lenko_bot.Memory.Runs.{has_blocking_extraction_runs}
use lenko_bot.Session.Finalize.{
  Snapshot, is_owned_active, write_summary, finalize_current, load_active_session, load_turns,
  ensure_extraction_gate,
}

pub record Committed (session owner : ℕ) (snapshot : Snapshot) (content : Text) (now : ℕ)
    (st : State) (m : SessionSummary) (after : State) : Type 0 where
  pub active : any (is_owned_active session owner) st.sessions ≡ true
  pub epoch : load_active_session session owner st ≡ ok snapshot.lifecycle_epoch
  pub same_turns : map (λ t. t.id) (load_turns session st) ≡ map (λ t. t.id) snapshot.turns
  pub gate : has_blocking_extraction_runs owner session st ≡ ok false
  pub written : write_summary session owner snapshot content now st ≡ ok (m, after)

load_active_session-active :
    (session owner epoch : ℕ) (st : State)
    → load_active_session session owner st ≡ ok epoch
    → any (is_owned_active session owner) st.sessions ≡ true
unfolding load_active_session
load_active_session-active session owner epoch st h =
    >>=-elim (or_raise (find (is_owned_active session owner) st.sessions) value_error) _ epoch h
      λ s e _.
        any_of_find (is_owned_active session owner) st.sessions s
          (or_raise-eq-ok (find (is_owned_active session owner) st.sessions) value_error s e)

gate-eq-ok :
    (session owner : ℕ) (st : State)
    → ensure_extraction_gate session owner st ≡ ok tt
    → has_blocking_extraction_runs owner session st ≡ ok false
unfolding ensure_extraction_gate
gate-eq-ok session owner st h =
    >>=-elim (has_blocking_extraction_runs owner session st) _ tt h λ blocked e h1.
      let no : blocked ≡ false = raise_if-eq-ok blocked runtime_error h1 in rw (← no) e

pub finalize_current-Committed :
    (session owner : ℕ) (snapshot : Snapshot) (content : Text) (now : ℕ) (st after : State)
    (m : SessionSummary)
    → finalize_current session owner snapshot content now st ≡ ok (m, after)
    → Committed session owner snapshot content now st m after
unfolding finalize_current
finalize_current-Committed session owner snapshot content now st after m h =
    >>=-elim (load_active_session session owner st) _ (m, after) h
      λ epoch e h1.
        let fence = raise_if-passed (not (epoch == snapshot.lifecycle_epoch)) runtime_error _ h1 in
        let ids =
          raise_if-passed
            (not
              (text_eq (map (λ t. t.id) (load_turns session st)) (map (λ t. t.id) snapshot.turns)))
            runtime_error _ fence.1 in
        let current : epoch ≡ snapshot.lifecycle_epoch = ground (arith, fence.0) in
        >>=-elim (ensure_extraction_gate session owner st) _ (m, after) ids.1
          λ _ g h3. record {
            active = load_active_session-active session owner epoch st e;
            epoch = rw (← current) e;
            same_turns = text_eq_sound _ _ (ground (arith, ids.0));
            gate = gate-eq-ok session owner st g;
            written = h3;
          }
