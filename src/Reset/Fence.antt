-- ===== src/Reset/Fence.antt =====
-- The fence of a reset: it opens in the next epoch when all hooks return, and stays closed when one
-- raises.
use lenko_bot.Prelude.{
  ap, ℕ, ◌+◌, ◌≡◌, ◌∙◌, refl, sym, List, [], ◌∷◌, map, Bool, true, false, ◌&&◌, not, inl, inr,
  arith, All, any, Option, none, some, Outcome, ok, err, Error, >>=-elim, or_raise, or_raise-eq-ok,
  raise_if-passed, key_error, runtime_error, Bool-cases, Outcome-cases, ◌==◌, ==-refl, ◌⊎◌,
}
use lenko_bot.Prelude.Table.{find, update, delete, find_sound, find-update}
use lenko_bot.Reminder.Types.{Profile}
use lenko_bot.Reminder.Store.{Store, profile_by_id, is_active_state, is_current}
use lenko_bot.Reset.{
  Db, Hook, ResetResult, Coordinator, is_missing, close_fence, is_open_at, begin_reset, run_hooks,
  set_utc, is_closed_at, open_fence, purge_canonical_data, finish_reset, complete_reset, reset,
  SessionRow,
}

-- A hook that leaves the profiles alone, as the purge of the reminders does.
abbrev pub KeepsProfiles : Hook → Type 0
KeepsProfiles hook =
    (owner epoch : ℕ) (db : Db) → (hook owner epoch db).1.store.profiles ≡ db.store.profiles

run_hooks-profiles :
    (hooks : List Hook) (owner epoch : ℕ) (db : Db)
    → All KeepsProfiles hooks
    → (run_hooks hooks owner epoch db).1.store.profiles ≡ db.store.profiles
unfolding run_hooks
run_hooks-profiles [] owner epoch db w = refl
run_hooks-profiles (hook ∷ hooks) owner epoch db w = elim (Outcome-cases (hook owner epoch db).0) [
  | inr (e, f) ↦ rw (f, run_hooks) (w.0 owner epoch db)
  | inl (u, f) ↦
      rw (f, run_hooks)
        (run_hooks-profiles hooks owner epoch (hook owner epoch db).1 w.1 ∙ w.0 owner epoch db)
]

abbrev profile_in : List Profile → ℕ → Option Profile
profile_in ps owner = find (λ p. p.user_id == owner) ps

-- What the first transaction met and left.
record Begun (owner previous : ℕ) (db closed : Db) : Type 0 where
  profile : Profile
  found : profile_in (db.store).profiles owner ≡ some profile
  active : is_active_state profile.lifecycle_state ≡ true
  epoch : profile.lifecycle_epoch ≡ previous
  fenced : profile_in (closed.store).profiles owner ≡ some (close_fence (previous + 1) profile)

begin_reset-Begun :
    (owner previous : ℕ) (db closed : Db)
    → begin_reset owner db ≡ ok (previous, closed)
    → Begun owner previous db closed
unfolding begin_reset profile_by_id
begin_reset-Begun owner previous db closed h =
    >>=-elim (or_raise (profile_in (db.store).profiles owner) key_error) _ (previous, closed) h
      λ p e h1.
        let found = or_raise-eq-ok (profile_in (db.store).profiles owner) key_error p e in
        let (passed, h2) =
          raise_if-passed (not (is_active_state p.lifecycle_state)) runtime_error _ h1 in
        let active : is_active_state p.lifecycle_state ≡ true = ground arith in
        let same : p.lifecycle_epoch ≡ previous = cc in
        let mine = find_sound (λ q. q.user_id == owner) (db.store).profiles p found in
        let taken : is_open_at owner p.lifecycle_epoch p ≡ true =
          rw (mine, ==-refl p.lifecycle_epoch, active) refl in
        let left : update (is_open_at owner p.lifecycle_epoch) (close_fence (p.lifecycle_epoch + 1))
              (db.store).profiles
            ≡ (closed.store).profiles =
          cc in
        record {
          profile = p;
          found = found;
          active = active;
          epoch = same;
          fenced =
              rw (← left, ← same)
                (find-update (λ q. q.user_id == owner) (is_open_at owner p.lifecycle_epoch)
                    (close_fence (p.lifecycle_epoch + 1)) (db.store).profiles p (λ q. refl) found
                  ∙ rw taken refl);
        }

finish_reset-profile :
    (owner epoch : ℕ) (db : Db) (p : Profile)
    → profile_in (db.store).profiles owner ≡ some p
    → p.lifecycle_epoch ≡ epoch
    → is_active_state p.lifecycle_state ≡ false
    → profile_in ((finish_reset owner epoch db).store).profiles owner
      ≡ some (open_fence (set_utc p))
unfolding finish_reset purge_canonical_data
finish_reset-profile owner epoch db p found same closed =
    let mine = find_sound (λ q. q.user_id == owner) (db.store).profiles p found in
    let moved : profile_in (update (λ q. q.user_id == owner) set_utc (db.store).profiles) owner
        ≡ some (set_utc p) =
      find-update (λ q. q.user_id == owner) (λ q. q.user_id == owner) set_utc (db.store).profiles p
        (λ q. refl) found
      ∙ rw mine refl in
    let taken : is_closed_at owner epoch (set_utc p) ≡ true =
      rw (mine, same, ==-refl epoch, closed) refl in
    find-update (λ q. q.user_id == owner) (is_closed_at owner epoch) open_fence
      (update (λ q. q.user_id == owner) set_utc (db.store).profiles) (set_utc p) (λ q. refl) moved
    ∙ rw taken refl

current_of :
    (st : Store) (owner epoch : ℕ) (p : Profile)
    → profile_in st.profiles owner ≡ some p
    → is_current st owner epoch ≡ (p.lifecycle_epoch == epoch && is_active_state p.lifecycle_state)
unfolding is_current profile_by_id
current_of st owner epoch p h = cong_current (profile_in st.profiles owner) (some p) h
  where
    cong_current :
        (a b : Option Profile)
        → a ≡ b
        → elim a [
          | none ↦ false
          | some q ↦ q.lifecycle_epoch == epoch && is_active_state q.lifecycle_state
        ]
          ≡ elim b [
            | none ↦ false
            | some q ↦ q.lifecycle_epoch == epoch && is_active_state q.lifecycle_state
          ]
    cong_current a b k =
        ap
          (λ o. elim o [
            | none ↦ false
            | some q ↦ q.lifecycle_epoch == epoch && is_active_state q.lifecycle_state
          ])
          k

delete-any {ℓ} :
    {A : Type ℓ} (p q : A → Bool) (xs : List A)
    → ((x : A) → p x ≡ true → q x ≡ true)
    → any p (delete q xs) ≡ false
unfolding delete
delete-any p q [] h = refl
delete-any p q (x ∷ xs) h = ground (arith, h x, delete-any p q xs h)

-- What is left of the owner's data after the second transaction.
pub record IsCleared (owner : ℕ) (db : Db) : Type 0 where
  pub memories : any (λ u. u == owner) db.memories ≡ false
  pub relationships : any (λ u. u == owner) db.relationships ≡ false
  pub sessions : any (λ (s : SessionRow). s.owner_user_id == owner) db.sessions ≡ false

finish_reset-IsCleared : (owner epoch : ℕ) (db : Db) → IsCleared owner (finish_reset owner epoch db)
unfolding finish_reset purge_canonical_data
finish_reset-IsCleared owner epoch db = record {
  memories = delete-any _ _ db.memories (λ u h. h);
  relationships = delete-any _ _ db.relationships (λ u h. h);
  sessions = delete-any _ _ db.sessions (λ s h. rw h refl);
}

-- The three ends of a reset from the closed fence on.
record Completed (c : Coordinator) (owner previous : ℕ) (closed after : Db) (r : ResetResult)
    : Type 0 where
  result :
      r
      ≡ record { owner_user_id = owner; previous_epoch = previous; lifecycle_epoch = previous + 1 }
  purged : Db
  kept :
      All KeepsProfiles c.quiesce_hooks
      → All KeepsProfiles (map (λ h. h.1) c.purge_hooks)
      → (purged.store).profiles ≡ (closed.store).profiles
  made : after ≡ finish_reset owner (previous + 1) purged

complete_reset-Completed :
    (c : Coordinator) (owner previous : ℕ) (closed after : Db) (r : ResetResult)
    → complete_reset c owner previous closed ≡ (ok r, after)
    → Completed c owner previous closed after r
unfolding complete_reset
complete_reset-Completed c owner previous closed after r h =
    let quiesced = run_hooks c.quiesce_hooks owner previous closed in
    let purged = run_hooks (map (λ h. h.1) c.purge_hooks) owner (previous + 1) quiesced.1 in
    elim (Outcome-cases quiesced.0) [
      | inr (e, f) ↦ cc (rw (f, complete_reset) at h)
      | inl (u, f) ↦ elim (Outcome-cases purged.0) [
        | inr (e, g) ↦ cc (rw (f, complete_reset, g) at h)
        | inl (v, g) ↦
            let k = rw (f, complete_reset, g) at h in
            record {
              result = cc k;
              purged = purged.1;
              kept = λ w v.
                  run_hooks-profiles (map (λ h. h.1) c.purge_hooks) owner (previous + 1) quiesced.1
                    v
                  ∙ run_hooks-profiles c.quiesce_hooks owner previous closed w;
              made = cc k;
            }
      ]
    ]

failed_profiles :
    (c : Coordinator) (owner previous : ℕ) (closed after : Db) (e : Error)
    → All KeepsProfiles c.quiesce_hooks
    → All KeepsProfiles (map (λ h. h.1) c.purge_hooks)
    → complete_reset c owner previous closed ≡ (err e, after)
    → (after.store).profiles ≡ (closed.store).profiles
unfolding complete_reset
failed_profiles c owner previous closed after e w v h =
    let quiesced = run_hooks c.quiesce_hooks owner previous closed in
    let purged = run_hooks (map (λ h. h.1) c.purge_hooks) owner (previous + 1) quiesced.1 in
    let first = run_hooks-profiles c.quiesce_hooks owner previous closed w in
    let second =
      run_hooks-profiles (map (λ h. h.1) c.purge_hooks) owner (previous + 1) quiesced.1 v in
    elim (Outcome-cases quiesced.0) [
      | inr (bad, f) ↦
          let same : quiesced.1 ≡ after = cc (rw (f, complete_reset) at h) in rw (← same) first
      | inl (u, f) ↦ elim (Outcome-cases purged.0) [
        | inr (bad, g) ↦
            let same : purged.1 ≡ after = cc (rw (f, complete_reset, g) at h) in
            rw (← same) (second ∙ first)
        | inl (k, g) ↦ cc (rw (f, complete_reset, g) at h)
      ]
    ]

begun :
    (c : Coordinator) (owner : ℕ) (db : Db) (r : Outcome ResetResult × Db)
    → is_missing c ≡ false
    → reset c owner db ≡ r
    → ((e : Error) × (begin_reset owner db ≡ err e) × (r ≡ (err e, db)))
      ⊎ ((previous : ℕ) × (closed : Db) × (begin_reset owner db ≡ ok (previous, closed))
          × (complete_reset c owner previous closed ≡ r))
unfolding reset
begun c owner db r m h = elim (Outcome-cases (begin_reset owner db)) [
  | inr (e, f) ↦ inl (e, f, sym (rw (m, reset, f) at h))
  | inl ((previous, closed), f) ↦ inr (previous, closed, f, rw (m, reset, f) at h)
]

not_missing :
    (c : Coordinator) (owner : ℕ) (db after : Db) (r : ResetResult)
    → reset c owner db ≡ (ok r, after)
    → is_missing c ≡ false
unfolding reset
not_missing c owner db after r h = elim (Bool-cases (is_missing c)) [
  | inl e ↦ cc (rw (e, reset) at h)
  | inr e ↦ e
]

-- A reset that returns, with hooks that leave the profiles alone: its result names the epoch before and
-- the next one, the first was current and is not any more, and the second is current. Of the owner's
-- memories, relationships and sessions no row is left.
pub reset-opens :
    (c : Coordinator) (owner : ℕ) (db after : Db) (r : ResetResult)
    → All KeepsProfiles c.quiesce_hooks
    → All KeepsProfiles (map (λ h. h.1) c.purge_hooks)
    → reset c owner db ≡ (ok r, after)
    → (r.owner_user_id ≡ owner)
      × (r.lifecycle_epoch ≡ r.previous_epoch + 1)
      × (is_current db.store owner r.previous_epoch ≡ true)
      × (is_current after.store owner r.previous_epoch ≡ false)
      × (is_current after.store owner r.lifecycle_epoch ≡ true)
      × IsCleared owner after
reset-opens c owner db after r w v h =
    elim (begun c owner db (ok r, after) (not_missing c owner db after r h) h) [
      | inl (e, _, bad) ↦ cc bad
      | inr (previous, closed, first, rest) ↦
          let b = begin_reset-Begun owner previous db closed first in
          let d = complete_reset-Completed c owner previous closed after r rest in
          let p = close_fence (previous + 1) b.profile in
          let fenced : profile_in ((d.purged).store).profiles owner ≡ some p =
            ap (λ ps. profile_in ps owner) (d.kept w v) ∙ b.fenced in
          let open_ = finish_reset-profile owner (previous + 1) d.purged p fenced refl refl in
          let last = open_fence (set_utc p) in
          let before = current_of db.store owner previous b.profile b.found in
          let gone =
            current_of (finish_reset owner (previous + 1) d.purged).store owner previous last
              open_ in
          let now =
            current_of (finish_reset owner (previous + 1) d.purged).store owner (previous + 1) last
              open_ in
          (
            rw d.result refl,
            rw d.result refl,
            rw d.result (before ∙ rw (b.epoch, ==-refl previous, b.active) refl),
            rw (d.result, d.made) (gone ∙ ground arith),
            rw (d.result, d.made) (now ∙ rw (==-refl (previous + 1)) refl),
            rw d.made (finish_reset-IsCleared owner (previous + 1) d.purged),
          )
    ]

shut_out :
    (c : Coordinator) (owner : ℕ) (db : Db) (p : Profile)
    → is_missing c ≡ false
    → profile_in (db.store).profiles owner ≡ some p
    → is_active_state p.lifecycle_state ≡ false
    → reset c owner db ≡ (err runtime_error, db)
unfolding reset begin_reset profile_by_id
shut_out c owner db p m found closed = rw (m, found, closed) refl

-- A reset of an owner with an active profile in which a hook raises, with hooks that leave the profiles
-- alone: the profile's fence stays closed, so no epoch of the owner is current, and every later reset
-- of the owner raises RuntimeError and changes nothing.
pub reset-stays_closed :
    (c : Coordinator) (owner epoch : ℕ) (db after : Db) (e : Error)
    → All KeepsProfiles c.quiesce_hooks
    → All KeepsProfiles (map (λ h. h.1) c.purge_hooks)
    → is_missing c ≡ false
    → (previous : ℕ) (closed : Db) → begin_reset owner db ≡ ok (previous, closed)
    → reset c owner db ≡ (err e, after)
    → (is_current after.store owner epoch ≡ false)
      × (reset c owner after ≡ (err runtime_error, after))
reset-stays_closed c owner epoch db after e w v m previous closed first h =
    elim (begun c owner db (err e, after) m h) [
      | inl (e', bad, _) ↦ cc (first, bad)
      | inr (previous', closed', again, rest) ↦
          let b = begin_reset-Begun owner previous' db closed' again in
          let p = close_fence (previous' + 1) b.profile in
          let fenced : profile_in (after.store).profiles owner ≡ some p =
            ap (λ ps. profile_in ps owner)
              (failed_profiles c owner previous' closed' after e w v rest)
            ∙ b.fenced in
          (
            current_of after.store owner epoch p fenced ∙ ground arith,
            shut_out c owner after p m fenced refl,
          )
    ]
