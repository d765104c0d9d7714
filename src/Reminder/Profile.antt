-- ===== src/Reminder/Profile.antt =====
-- The owner's profile: `ensure_profile`, `get_profile_policy`, `set_profile_policy` and
-- `persona_id_for_key`.
pub mod Policy
use lenko_bot.Prelude.{
  ℕ, List, [], ◌∷◌, ◌++◌, Bool, true, false, ◌&&◌, not, ◌==◌, if◌then◌else◌, Option, none, some,
  Outcome, ok, err, ◌>>=◌, ◌>>◌, or_raise, raise_if, value_error, key_error, any,
}
use lenko_bot.Prelude.Table.{find, update, count_where}
use lenko_bot.Text.{Text, strip, is_blank, text_eq}
use lenko_bot.Schedule.Zone.{ZoneDatabase}
use lenko_bot.Reminder.Types.{Profile, PersonaRow, LifecycleState}
use lenko_bot.Reminder.Store.{
  Store, Body, transaction, profile_by_id, is_active_state, check_timezone, check_quiet_policy,
}

pub record ProfileReminderPolicy : Type 0 where
  pub owner_user_id : ℕ
  pub timezone_name : Text
  pub quiet_start_minute : Option ℕ
  pub quiet_end_minute : Option ℕ

-- `_profile_policy_from_row`
abbrev pub policy_of : Profile → ProfileReminderPolicy
policy_of p = record {
  owner_user_id = p.user_id;
  timezone_name = p.timezone;
  quiet_start_minute = p.quiet_start_minute;
  quiet_end_minute = p.quiet_end_minute;
}

unfoldable pub get_profile_policy : ℕ → Store → Outcome ProfileReminderPolicy
get_profile_policy owner st = do p ← or_raise (profile_by_id st owner) key_error; ok (policy_of p)

-- The row of an INSERT that names the user only, with the columns' defaults: 'UTC', no quiet hours,
-- epoch 1, active.
abbrev pub default_profile : ℕ → Profile
default_profile owner = record {
  user_id = owner;
  timezone = 85 ∷ 84 ∷ 67 ∷ [];
  quiet_start_minute = none;
  quiet_end_minute = none;
  lifecycle_epoch = 1;
  lifecycle_state = LifecycleState.active;
}

-- `INSERT OR IGNORE INTO user_profile`
unfoldable pub insert_profile : ℕ → Store → Store
insert_profile owner st =
    if any (λ p. p.user_id == owner) st.profiles
    then st
    else record st { profiles = st.profiles ++ default_profile owner ∷ [] }

unfoldable pub ensure_profile : ℕ → Store → Outcome ProfileReminderPolicy × Store
unfolding insert_profile
ensure_profile owner st =
    if owner == 0
    then (err value_error, st)
    else (get_profile_policy owner (insert_profile owner st), insert_profile owner st)

abbrev pub is_active_row : ℕ → Profile → Bool
is_active_row owner p = p.user_id == owner && is_active_state p.lifecycle_state

abbrev pub set_policy : Text → Option ℕ → Option ℕ → Profile → Profile
set_policy name start end p = record p {
  timezone = strip name;
  quiet_start_minute = start;
  quiet_end_minute = end;
}

unfoldable pub update_policy : ℕ → Text → Option ℕ → Option ℕ → Body (Unit {0})
update_policy owner name start end st = do
  raise_if (not (count_where (is_active_row owner) st.profiles == 1)) key_error
  ok (
    tt,
    record st { profiles = update (is_active_row owner) (set_policy name start end) st.profiles },
  )

unfoldable pub check_policy : ZoneDatabase → Text → Option ℕ → Option ℕ → Outcome (Unit {0})
check_policy tz name start end = do check_timezone tz name; check_quiet_policy start end

abbrev pub policy_after : ℕ → Outcome (Unit {0}) × Store → Outcome ProfileReminderPolicy × Store
policy_after owner (err e, st) = (err e, st)
policy_after owner (ok _, st) = (get_profile_policy owner st, st)

unfoldable pub set_profile_policy :
    ZoneDatabase → ℕ → Text → Option ℕ → Option ℕ → Store → Outcome ProfileReminderPolicy × Store
unfolding check_policy update_policy
set_profile_policy tz owner name start end st = elim (check_policy tz name start end) [
  | err e ↦ (err e, st)
  | ok _ ↦ policy_after owner (transaction (update_policy owner name start end) st)
]

-- "default"
abbrev pub default_id : Text
default_id = 100 ∷ 101 ∷ 102 ∷ 97 ∷ 117 ∷ 108 ∷ 116 ∷ []

unfoldable pub persona_id_for_key : Text → Store → Outcome (Option ℕ)
persona_id_for_key key st =
    if is_blank key
    then err value_error
    else ok
        (elim (find
          (λ p. text_eq p.profile_id default_id && text_eq p.key (strip key) && p.is_active)
          st.personas) [ none ↦ none | some p ↦ some p.id ])
