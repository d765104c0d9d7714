-- ===== src/Reset.antt =====
-- src/lenkobot/reset_coordinator.py: the reset of an owner. A first transaction closes the fence (a new
-- epoch, `reset_in_progress`), the hooks purge, and a second transaction purges the rest and opens the
-- fence. Of the tables that only the deletion meets, the columns that it reads stand here.
pub mod Fence
use lenko_bot.Prelude.{
  ℕ, ◌+◌, List, [], ◌∷◌, ◌++◌, Bool, true, false, ◌&&◌, ◌||◌, not, ◌==◌, if◌then◌else◌, Option,
  none, some, Outcome, ok, err, ◌>>=◌, ◌>>◌, or_raise, raise_if, value_error, key_error,
  runtime_error, any, map,
}
use lenko_bot.Prelude.Table.{find, update, delete}
use lenko_bot.Text.{Text, is_empty, text_eq}
use lenko_bot.Reminder.Types.{Profile, LifecycleState}
use lenko_bot.Reminder.Store.{Store, profile_by_id, is_active_state}

-- A row of `session`, of `persona_session` (a lane) and of `security_audit`.
pub record SessionRow : Type 0 where
  pub owner_user_id : ℕ
  pub persona_session_id : ℕ

pub record LaneRow : Type 0 where
  pub id : ℕ
  pub conversation_id : ℕ

pub data AuditEvent : Type 0 where
  reset_completed other_event : AuditEvent

pub record SecurityAudit : Type 0 where
  pub owner_user_id : ℕ
  pub lifecycle_epoch : ℕ
  pub event_type : AuditEvent

-- The database; of `memory` and `relationship` only the user of each row, of `conversation` the id.
pub record Db : Type 0 where
  pub store : Store
  pub memories : List ℕ
  pub relationships : List ℕ
  pub sessions : List SessionRow
  pub lanes : List LaneRow
  pub conversations : List ℕ
  pub security : List SecurityAudit

-- A hook takes the owner and an epoch; it may raise, and then it has done what it has done.
abbrev pub Hook : Type 0
Hook = ℕ → ℕ → Db → Outcome (Unit {0}) × Db

pub record ResetResult : Type 0 where
  pub owner_user_id : ℕ
  pub previous_epoch : ℕ
  pub lifecycle_epoch : ℕ

pub record Coordinator : Type 0 where
  pub required_hooks : List Text
  pub purge_hooks : List (Text × Hook)
  pub quiesce_hooks : List Hook

unfoldable pub register_purge_hook : Text → Hook → Coordinator → Outcome Coordinator
register_purge_hook name hook c =
    if is_empty name || any (λ h. text_eq h.0 name) c.purge_hooks
    then err value_error
    else ok (record c { purge_hooks = c.purge_hooks ++ (name, hook) ∷ [] })

unfoldable pub register_quiesce_hook : Hook → Coordinator → Coordinator
register_quiesce_hook hook c = record c { quiesce_hooks = c.quiesce_hooks ++ hook ∷ [] }

-- Whether a required hook has no purge hook of its name.
unfoldable pub is_missing : Coordinator → Bool
is_missing c = any (λ name. not (any (λ h. text_eq h.0 name) c.purge_hooks)) c.required_hooks

abbrev pub set_profiles : List Profile → Db → Db
set_profiles ps db = record db { store = record (db.store) { profiles = ps } }

abbrev pub close_fence : ℕ → Profile → Profile
close_fence epoch p = record p {
  lifecycle_epoch = epoch;
  lifecycle_state = LifecycleState.reset_in_progress;
}

abbrev pub is_open_at : ℕ → ℕ → Profile → Bool
is_open_at owner epoch p =
    p.user_id == owner && p.lifecycle_epoch == epoch && is_active_state p.lifecycle_state

-- The first transaction: it gives the previous epoch.
unfoldable pub begin_reset : ℕ → Db → Outcome (ℕ × Db)
begin_reset owner db = do
  p ← or_raise (profile_by_id db.store owner) key_error
  raise_if (not (is_active_state p.lifecycle_state)) runtime_error
  let profiles =
      update (is_open_at owner p.lifecycle_epoch) (close_fence (p.lifecycle_epoch + 1))
        (db.store).profiles
  ok (
    p.lifecycle_epoch,
    record (set_profiles profiles db) {
      security = delete (λ a. a.owner_user_id == owner) db.security;
    },
  )

-- The hooks in their order, up to the first that raises.
unfoldable pub run_hooks : List Hook → ℕ → ℕ → Db → Outcome (Unit {0}) × Db
run_hooks [] owner epoch db = (ok tt, db)
run_hooks (hook ∷ hooks) owner epoch db = elim (hook owner epoch db).0 [
  | err e ↦ (err e, (hook owner epoch db).1)
  | ok _ ↦ run_hooks hooks owner epoch (hook owner epoch db).1
]

-- The lanes of the owner's sessions.
unfoldable pub is_owned_lane : ℕ → Db → ℕ → Bool
is_owned_lane owner db lane =
    any (λ s. s.owner_user_id == owner && s.persona_session_id == lane) db.sessions

-- The conversations of those lanes.
unfoldable pub is_owned_conversation : ℕ → Db → ℕ → Bool
unfolding is_owned_lane
is_owned_conversation owner db c =
    any (λ l. is_owned_lane owner db l.id && l.conversation_id == c) db.lanes

abbrev pub set_utc : Profile → Profile
set_utc p = record p { timezone = 85 ∷ 84 ∷ 67 ∷ [] }

-- `_purge_canonical_data`. With a lane go all its sessions (ON DELETE CASCADE); a conversation goes if
-- no lane is left in it.
unfoldable pub purge_canonical_data : ℕ → Db → Db
unfolding is_owned_lane is_owned_conversation
purge_canonical_data owner db =
    let lanes = delete (λ l. is_owned_lane owner db l.id) db.lanes in
    record (set_profiles (update (λ p. p.user_id == owner) set_utc (db.store).profiles) db) {
      memories = delete (λ u. u == owner) db.memories;
      relationships = delete (λ u. u == owner) db.relationships;
      sessions =
          delete (λ s. s.owner_user_id == owner || is_owned_lane owner db s.persona_session_id)
            db.sessions;
      lanes = lanes;
      conversations =
          delete
            (λ c. is_owned_conversation owner db c && not (any (λ l. l.conversation_id == c) lanes))
            db.conversations;
    }

abbrev pub is_closed_at : ℕ → ℕ → Profile → Bool
is_closed_at owner epoch p =
    p.user_id == owner && p.lifecycle_epoch == epoch && not (is_active_state p.lifecycle_state)

abbrev pub open_fence : Profile → Profile
open_fence p = record p { lifecycle_state = LifecycleState.active }

-- The second transaction.
unfoldable pub finish_reset : ℕ → ℕ → Db → Db
unfolding purge_canonical_data
finish_reset owner epoch db =
    let purged = purge_canonical_data owner db in
    record (set_profiles (update (is_closed_at owner epoch) open_fence (purged.store).profiles)
      purged) {
        security =
            purged.security
            ++ record {
              owner_user_id = owner;
              lifecycle_epoch = epoch;
              event_type = reset_completed;
            }
              ∷ [];
      }

-- From the closed fence on.
unfoldable pub complete_reset : Coordinator → ℕ → ℕ → Db → Outcome ResetResult × Db
unfolding run_hooks finish_reset
complete_reset c owner previous db =
    let quiesced = run_hooks c.quiesce_hooks owner previous db in
    let purged = run_hooks (map (λ h. h.1) c.purge_hooks) owner (previous + 1) quiesced.1 in
    elim quiesced.0 [
      | err e ↦ (err e, quiesced.1)
      | ok _ ↦ elim purged.0 [
        | err e ↦ (err e, purged.1)
        | ok _ ↦ (
          ok (record {
            owner_user_id = owner;
            previous_epoch = previous;
            lifecycle_epoch = previous + 1;
          }),
          finish_reset owner (previous + 1) purged.1,
        )
      ]
    ]

unfoldable pub reset : Coordinator → ℕ → Db → Outcome ResetResult × Db
unfolding is_missing begin_reset complete_reset
reset c owner db = if is_missing c then (err runtime_error, db) else elim (begin_reset owner db) [
  | err e ↦ (err e, db)
  | ok (previous, closed) ↦ complete_reset c owner previous closed
]
