-- ===== src/Reminder/Profile/Policy.antt =====
-- What the profile operations promise.
use lenko_bot.Prelude.{
  ℕ, ◌≡◌, ◌≢◌, ◌∙◌, refl, sym, subst, List, [], ◌∷◌, Bool, true, false, inl, inr, arith, Option,
  some, ok, Bool-cases, Outcome-cases, ◌==◌,
}
use lenko_bot.Prelude.Table.{
  find, update, count_where, Distinct, find_sound, find-update, find-Distinct,
}
use lenko_bot.Text.{Text, strip}
use lenko_bot.Schedule.Zone.{ZoneDatabase}
use lenko_bot.Reminder.Types.{Profile}
use lenko_bot.Reminder.Store.{Store, transaction, profile_by_id}
use lenko_bot.Reminder.Profile.{
  ProfileReminderPolicy, get_profile_policy, is_active_row, set_policy, update_policy, check_policy,
  set_profile_policy,
}

counted-found {ℓ} :
    {A : Type ℓ} (p : A → Bool) (xs : List A)
    → (count_where p xs == 1) ≡ true
    → (a : A) × (find p xs ≡ some a)
unfolding count_where find
counted-found p [] h = cc
counted-found p (x ∷ xs) h = elim (Bool-cases (p x)) [
  | inl e ↦ (x, rw e refl)
  | inr e ↦ rw e (counted-found p xs (rw e at h))
]

found_by_id :
    (owner : ℕ) (ps : List Profile) (p : Profile)
    → Distinct (λ q. q.user_id) ps
    → find (is_active_row owner) ps ≡ some p
    → (find (λ q. q.user_id == owner) ps ≡ some p) × (is_active_row owner p ≡ true)
found_by_id owner ps p d h =
    let t = find_sound (is_active_row owner) ps p h in
    let same : p.user_id ≡ owner = ground arith in
    (
      subst (λ n. find (λ q. q.user_id == n) ps ≡ some p) same
          (find-Distinct (λ q. q.user_id) (is_active_row owner) ps p d h),
      t,
    )

record Updated (owner : ℕ) (name : Text) (start end : Option ℕ) (st after : Store)
    (policy : ProfileReminderPolicy) : Type 0 where
  one : (count_where (is_active_row owner) st.profiles == 1) ≡ true
  made : after ≡ record st {
    profiles = update (is_active_row owner) (set_policy name start end) st.profiles;
  }
  read : get_profile_policy owner after ≡ ok policy

update-made :
    (owner : ℕ) (name : Text) (start end : Option ℕ) (st after : Store) (u : Unit {0})
    → update_policy owner name start end st ≡ ok (u, after)
    → ((count_where (is_active_row owner) st.profiles == 1) ≡ true)
      × (after ≡ record st {
        profiles = update (is_active_row owner) (set_policy name start end) st.profiles;
      })
unfolding update_policy
update-made owner name start end st after u h = ground arith

set-Updated :
    (tz : ZoneDatabase) (owner : ℕ) (name : Text) (start end : Option ℕ) (st after : Store)
    (policy : ProfileReminderPolicy)
    → set_profile_policy tz owner name start end st ≡ (ok policy, after)
    → Updated owner name start end st after policy
unfolding set_profile_policy
set-Updated tz owner name start end st after policy h =
    elim (Outcome-cases (check_policy tz name start end)) [
      | inr (e, f) ↦ cc (rw (f, set_profile_policy) at h)
      | inl (u, f) ↦ elim (Outcome-cases (update_policy owner name start end st)) [
        | inr (e, g) ↦ cc (rw (f, set_profile_policy, g, transaction) at h)
        | inl ((v, mid), g) ↦
            let k = rw (f, set_profile_policy, g, transaction) at h in
            let same : mid ≡ after = cc in
            let made = update-made owner name start end st mid v g in
            record { one = made.0; made = sym same ∙ made.1; read = rw (← same) (cc) }
      ]
    ]

policy-stands :
    (owner : ℕ) (name : Text) (start end : Option ℕ) (st : Store) (p : Profile)
    → find (λ q. q.user_id == owner) st.profiles ≡ some p
    → is_active_row owner p ≡ true
    → get_profile_policy owner (record st {
      profiles = update (is_active_row owner) (set_policy name start end) st.profiles;
    })
      ≡ ok (record {
        owner_user_id = owner;
        timezone_name = strip name;
        quiet_start_minute = start;
        quiet_end_minute = end;
      })
unfolding get_profile_policy profile_by_id
policy-stands owner name start end st p h t =
    let same : p.user_id ≡ owner = ground arith in
    rw
      (
        find-update (λ q. q.user_id == owner) (is_active_row owner) (set_policy name start end)
            st.profiles p (λ q. refl) h,
        t,
        same,
      )
      refl

find-update_others :
    (owner other : ℕ) (f : Profile → Profile) (ps : List Profile)
    → ((p : Profile) → (f p).user_id ≡ p.user_id)
    → other ≢ owner
    → find (λ q. q.user_id == other) (update (is_active_row owner) f ps)
      ≡ find (λ q. q.user_id == other) ps
unfolding find update
find-update_others owner other f [] keep ne = refl
find-update_others owner other f (p ∷ ps) keep ne = elim (Bool-cases (is_active_row owner p)) [
  | inr e ↦ rw (e, find-update_others owner other f ps keep ne) refl
  | inl e ↦
      let away : (p.user_id == other) ≡ false = ground (arith, e, ne) in
      rw (e, keep p, away, find-update_others owner other f ps keep ne) refl
]

policy_of_others :
    (owner other : ℕ) (name : Text) (start end : Option ℕ) (st : Store)
    → other ≢ owner
    → get_profile_policy other (record st {
      profiles = update (is_active_row owner) (set_policy name start end) st.profiles;
    })
      ≡ get_profile_policy other st
unfolding get_profile_policy profile_by_id
policy_of_others owner other name start end st ne =
    rw (find-update_others owner other (set_policy name start end) st.profiles (λ p. refl) ne) refl

-- With user ids that occur once: when `set_profile_policy` returns, its result is the given policy with
-- the zone's name stripped, `get_profile_policy` gives this policy afterwards, and for every other
-- user it gives what it gave before.
pub set_profile_policy-get :
    (tz : ZoneDatabase) (owner other : ℕ) (name : Text) (start end : Option ℕ) (st after : Store)
    (policy : ProfileReminderPolicy)
    → Distinct (λ p. p.user_id) st.profiles
    → other ≢ owner
    → set_profile_policy tz owner name start end st ≡ (ok policy, after)
    → (policy ≡ record {
      owner_user_id = owner;
      timezone_name = strip name;
      quiet_start_minute = start;
      quiet_end_minute = end;
    })
      × (get_profile_policy owner after ≡ ok policy)
      × (get_profile_policy other after ≡ get_profile_policy other st)
set_profile_policy-get tz owner other name start end st after policy d ne h =
    let w = set-Updated tz owner name start end st after policy h in
    let (p, found) = counted-found (is_active_row owner) st.profiles w.one in
    let (by_id, active) = found_by_id owner st.profiles p d found in
    let stands = policy-stands owner name start end st p by_id active in
    let read = subst (λ s. get_profile_policy owner s ≡ ok policy) w.made w.read in
    (cc, w.read, rw w.made (policy_of_others owner other name start end st ne))
