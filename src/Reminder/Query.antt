-- ===== src/Reminder/Query.antt =====
-- The reads of the store: `get_task`, `get_job`, `get_job_for_task`, `get_outbox`, `list_runs` and
-- `list_tasks`.
use mathlib.Core.List.Perm
use lenko_bot.Prelude.{
  ℕ, zero, suc, ◌≤◌, ◌<◌, ◌≡◌, refl, List, [], ◌∷◌, ◌++◌, Bool, true, false, ◌&&◌, ◌||◌, ◌⊎◌, inl,
  inr, arith, All, Option, Outcome, ok, err, value_error, ltb, leb, ◌==◌, if◌then◌else◌, Bool-cases,
  take, drop, length, min, Perm,
}
use lenko_bot.Prelude.Table.{find, select}
use lenko_bot.Reminder.Types.{TaskRecord, ReminderJob, ReminderRun, OutboxEntry}
use lenko_bot.Reminder.Store.{Store}

unfoldable get_task : ℕ → ℕ → Store → Option TaskRecord
get_task task_id owner st = find (λ t. t.id == task_id && t.owner_user_id == owner) st.tasks

unfoldable get_job : ℕ → ℕ → Store → Option ReminderJob
get_job job_id owner st = find (λ j. j.id == job_id && j.owner_user_id == owner) st.jobs

-- Rows stand in the order of their ids.
unfoldable get_job_for_task : ℕ → ℕ → Store → Option ReminderJob
get_job_for_task task_id owner st =
    find (λ j. j.task_id == task_id && j.owner_user_id == owner) st.jobs

unfoldable get_outbox : ℕ → ℕ → Store → Option OutboxEntry
get_outbox run_id owner st = find (λ o. o.run_id == run_id && o.owner_user_id == owner) st.outbox

-- `ORDER BY`, by a test that says which row stands before which.
unfoldable pub insert_by {ℓ} : {A : Type ℓ} → (A → A → Bool) → A → List A → List A
insert_by before x [] = x ∷ []
insert_by before x (y ∷ ys) = if before x y then x ∷ y ∷ ys else y ∷ insert_by before x ys

unfoldable pub sort_by {ℓ} : {A : Type ℓ} → (A → A → Bool) → List A → List A
unfolding insert_by
sort_by before [] = []
sort_by before (x ∷ xs) = insert_by before x (sort_by before xs)

-- `ORDER BY scheduled_for ASC, id ASC`
abbrev is_earlier : ReminderRun → ReminderRun → Bool
is_earlier a b =
    ltb a.scheduled_for b.scheduled_for || (a.scheduled_for == b.scheduled_for && leb a.id b.id)

unfoldable list_runs : ℕ → ℕ → Store → List ReminderRun
unfolding sort_by
list_runs job_id owner st =
    sort_by is_earlier (select (λ r. r.job_id == job_id && r.owner_user_id == owner) st.runs)

-- `ORDER BY updated_at DESC, id DESC`
abbrev pub is_newer : TaskRecord → TaskRecord → Bool
is_newer a b = ltb b.updated_at a.updated_at || (a.updated_at == b.updated_at && leb b.id a.id)

unfoldable pub list_tasks : ℕ → ℕ → Store → Outcome (List TaskRecord)
unfolding sort_by
list_tasks owner limit st =
    if ltb limit 1 || ltb 100 limit
    then err value_error
    else ok (take limit (sort_by is_newer (select (λ t. t.owner_user_id == owner) st.tasks)))

insert_by-All {ℓ κ} :
    {A : Type ℓ} (P : A → Type κ) (before : A → A → Bool) (x : A) (ys : List A)
    → P x
    → All P ys
    → All P (insert_by before x ys)
unfolding insert_by
insert_by-All P before x [] h w = (h, tt)
insert_by-All P before x (y ∷ ys) h w = elim (Bool-cases (before x y)) [
  | inl e ↦ rw e (h, w)
  | inr e ↦ rw e (w.0, insert_by-All P before x ys h w.1)
]

module _ {ℓ} {A : Type ℓ} (before : A → A → Bool) where
  insert_by-Perm : (x : A) (ys : List A) → Perm (insert_by before x ys) (x ∷ ys)
  unfolding insert_by
  insert_by-Perm x [] = Perm.refl _
  insert_by-Perm x (y ∷ ys) = elim (Bool-cases (before x y)) [
    | inl e ↦ rw e (Perm.refl _)
    | inr e ↦ rw e (Perm.trans (Perm.cons y (insert_by-Perm x ys)) (Perm.swap x y ys))
  ]

  sort_by-Perm : (xs : List A) → Perm (sort_by before xs) xs
  unfolding sort_by
  sort_by-Perm [] = Perm.nil
  sort_by-Perm (x ∷ xs) =
      Perm.trans (insert_by-Perm x (sort_by before xs)) (Perm.cons x (sort_by-Perm xs))

  length-insert_by : (x : A) (ys : List A) → length (insert_by before x ys) ≡ suc (length ys)
  unfolding insert_by
  length-insert_by x [] = refl
  length-insert_by x (y ∷ ys) = elim (Bool-cases (before x y)) [
    | inl e ↦ rw e refl
    | inr e ↦ rw (e, length-insert_by x ys) refl
  ]

  length-sort_by : (xs : List A) → length (sort_by before xs) ≡ length xs
  unfolding sort_by
  length-sort_by [] = refl
  length-sort_by (x ∷ xs) = rw (length-insert_by x (sort_by before xs), length-sort_by xs) refl

-- Each row comes before those that follow it.
abbrev pub IsOrdered {ℓ κ} : {A : Type ℓ} → (A → A → Type κ) → List A → Type κ
IsOrdered R [] = Unit
IsOrdered R (x ∷ xs) = All (R x) xs × IsOrdered R xs

module _ {ℓ κ} {A : Type ℓ} (R : A → A → Type κ) (before : A → A → Bool)
    (first : (a b : A) → before a b ≡ true → R a b)
    (second : (a b : A) → before a b ≡ false → R b a)
    (trans_ : (a b c : A) → R a b → R b c → R a c) where
  All-trans : (x y : A) (ys : List A) → R x y → All (R y) ys → All (R x) ys
  All-trans x y [] h w = tt
  All-trans x y (z ∷ zs) h w = (trans_ x y z h w.0, All-trans x y zs h w.1)

  insert_by-IsOrdered : (x : A) (ys : List A) → IsOrdered R ys → IsOrdered R (insert_by before x ys)
  unfolding insert_by
  insert_by-IsOrdered x [] w = (tt, tt)
  insert_by-IsOrdered x (y ∷ ys) w = elim (Bool-cases (before x y)) [
    | inl e ↦ rw e ((first x y e, All-trans x y ys (first x y e) w.0), w)
    | inr e ↦
        rw e (insert_by-All (R y) before x ys (second x y e) w.0, insert_by-IsOrdered x ys w.1)
  ]

  sort_by-IsOrdered : (xs : List A) → IsOrdered R (sort_by before xs)
  unfolding sort_by
  sort_by-IsOrdered [] = tt
  sort_by-IsOrdered (x ∷ xs) = insert_by-IsOrdered x (sort_by before xs) (sort_by-IsOrdered xs)

take-drop {ℓ} : {A : Type ℓ} (n : ℕ) (xs : List A) → take n xs ++ drop n xs ≡ xs
take-drop zero xs = refl
take-drop (suc n) [] = refl
take-drop (suc n) (x ∷ xs) = rw (take-drop n xs) refl

length-take {ℓ} : {A : Type ℓ} (n : ℕ) (xs : List A) → length (take n xs) ≡ min n (length xs)
length-take zero xs = omega arith
length-take (suc n) [] = omega arith
length-take (suc n) (x ∷ xs) = omega (arith, length-take n xs)

-- Updated later, or at the same time under an id that is not smaller.
abbrev pub IsNewer : TaskRecord → TaskRecord → Type 0
IsNewer a b = (b.updated_at < a.updated_at) ⊎ ((a.updated_at ≡ b.updated_at) × (b.id ≤ a.id))

-- For a limit from 1 to 100, `list_tasks` returns rows which, followed by some further rows, are the
-- owner's tasks, each as often as it stands in the table: every row is newer than all that follow it,
-- those that are not returned included, where of two rows updated at the same time the one with the
-- larger id counts as newer. So many rows are returned as the limit allows and the owner has.
pub list_tasks-newest :
    (owner limit : ℕ) (st : Store)
    → 1 ≤ limit
    → limit ≤ 100
    → (rows : List TaskRecord) × (rest : List TaskRecord) × (list_tasks owner limit st ≡ ok rows)
      × Perm (rows ++ rest) (select (λ t. t.owner_user_id == owner) st.tasks)
      × IsOrdered IsNewer (rows ++ rest)
      × (length rows ≡ min limit (length (select (λ t. t.owner_user_id == owner) st.tasks)))
unfolding list_tasks
list_tasks-newest owner limit st low high =
    let mine = select (λ t. t.owner_user_id == owner) st.tasks in
    let sorted = sort_by is_newer mine in
    let range : (ltb limit 1 || ltb 100 limit) ≡ false = ground (arith, low, high) in
    (
      take limit sorted,
      drop limit sorted,
      rw range refl,
      rw (take-drop limit sorted) (sort_by-Perm is_newer mine),
      rw (take-drop limit sorted) (
          sort_by-IsOrdered IsNewer is_newer (λ a b. newer a b) (λ a b. not_newer a b)
            (λ a b c. newer_trans a b c) mine),
      rw (length-take limit sorted, length-sort_by is_newer mine) refl,
    )
  where
    newer : (a b : TaskRecord) → is_newer a b ≡ true → IsNewer a b
    newer a b h = ground (arith, h)

    not_newer : (a b : TaskRecord) → is_newer a b ≡ false → IsNewer b a
    not_newer a b h = ground (arith, h)

    newer_trans : (a b c : TaskRecord) → IsNewer a b → IsNewer b c → IsNewer a c
    newer_trans a b c h k = ground (arith, h, k)
