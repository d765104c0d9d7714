-- ===== src/Prelude/Table.antt =====
-- An SQL table as the list of its rows: SELECT, UPDATE and DELETE with a WHERE test, and the row id
-- that SQLite gives to an inserted row (one more than the largest).
pub mod Unique
pub mod Without
use Prim.Native.Nat.{ℕ, suc, ◌≤◌, max}
use mathlib.Core.Path.{◌≡◌, ap, refl}
use mathlib.Core.Logic.{inl, inr}
use mathlib.Core.Bool.{Bool, true, false, ◌&&◌, ◌||◌}
use mathlib.Core.Option.{Option, none, some}
use mathlib.Core.List.{List, [], ◌∷◌, ◌++◌}
use native.Mathlib.Omega.{arith}
use lenko_bot.Prelude.Tests.{if◌then◌else◌, Bool-cases, ◌==◌, ==-refl}
use lenko_bot.Prelude.Lists.{All, any}

module _ {ℓ} {A : Type ℓ} where
  -- The first row that passes the test.
  unfoldable pub find : (A → Bool) → List A → Option A
  find p [] = none
  find p (x ∷ xs) = if p x then some x else find p xs

  unfoldable pub select : (A → Bool) → List A → List A
  select p [] = []
  select p (x ∷ xs) = if p x then x ∷ select p xs else select p xs

  unfoldable pub update : (A → Bool) → (A → A) → List A → List A
  update p f [] = []
  update p f (x ∷ xs) = (if p x then f x else x) ∷ update p f xs

  unfoldable pub delete : (A → Bool) → List A → List A
  delete p [] = []
  delete p (x ∷ xs) = if p x then delete p xs else x ∷ delete p xs

  unfoldable pub count_where : (A → Bool) → List A → ℕ
  count_where p [] = 0
  count_where p (x ∷ xs) = if p x then suc (count_where p xs) else count_where p xs

  -- The largest value of a column, 0 for no rows.
  unfoldable pub max_of : (A → ℕ) → List A → ℕ
  max_of g [] = 0
  max_of g (x ∷ xs) = max (g x) (max_of g xs)

  unfoldable pub next_id : (A → ℕ) → List A → ℕ
  next_id g xs = suc (max_of g xs)

  -- A row that `find` returns passes the test.
  pub find_sound : (p : A → Bool) (xs : List A) (a : A) → find p xs ≡ some a → p a ≡ true
  unfolding find
  find_sound p [] a h = cc
  find_sound p (x ∷ xs) a h = ground (arith, find_sound p xs a)

  -- An UPDATE that keeps the column of a lookup changes the row that the lookup returns.
  pub find-update :
      (p q : A → Bool) (f : A → A) (xs : List A) (a : A)
      → ((x : A) → p (f x) ≡ p x)
      → find p xs ≡ some a
      → find p (update q f xs) ≡ some (if q a then f a else a)
  unfolding find update
  find-update p q f [] a keep h = cc
  find-update p q f (x ∷ xs) a keep h = ground (arith, keep x, find-update p q f xs a keep)

  -- A row that is found after an UPDATE stood there before it, in the columns that it keeps.
  pub any-find-update :
      (p q g : A → Bool) (f : A → A) (xs : List A) (a : A)
      → ((x : A) → (p (f x) ≡ p x) × (g (f x) ≡ g x))
      → find p (update q f xs) ≡ some a
      → g a ≡ true
      → any (λ x. p x && g x) xs ≡ true
  unfolding find update
  any-find-update p q g f [] a keep h t = cc
  any-find-update p q g f (x ∷ xs) a keep h t =
      ground (arith, keep x, ap g, any-find-update p q g f xs a keep)

  pub find-All {κ} :
      (P : A → Type κ) (p : A → Bool) (xs : List A) (a : A) → All P xs → find p xs ≡ some a → P a
  unfolding find
  find-All P p [] a w h = cc
  find-All P p (x ∷ xs) a w h = ground (arith, find-All P p xs a w.1)

  pub update-All {κ} :
      (P : A → Type κ) (p : A → Bool) (f : A → A)
      → ((a : A) → p a ≡ true → P a → P (f a))
      → (xs : List A) → All P xs
      → All P (update p f xs)
  unfolding update
  update-All P p f keep [] w = tt
  update-All P p f keep (x ∷ xs) w = elim (Bool-cases (p x)) [
    | inl e ↦ rw e (keep x e w.0, update-All P p f keep xs w.1)
    | inr e ↦ rw e (w.0, update-All P p f keep xs w.1)
  ]

  pub All-append {κ} : (P : A → Type κ) (xs ys : List A) → All P xs → All P ys → All P (xs ++ ys)
  All-append P [] ys w v = v
  All-append P (x ∷ xs) ys w v = (w.0, All-append P xs ys w.1 v)

  pub delete-All {κ} :
      (P : A → Type κ) (p : A → Bool) (xs : List A) → All P xs → All P (delete p xs)
  unfolding delete
  delete-All P p [] w = tt
  delete-All P p (x ∷ xs) w = ground (arith, delete-All P p xs w.1)

  pub le-max_of : (g : A → ℕ) (xs : List A) → All (λ x. g x ≤ max_of g xs) xs
  unfolding max_of
  le-max_of g [] = tt
  le-max_of g (x ∷ xs) = (omega arith, weaken xs (le-max_of g xs))
    where
      weaken :
          (ys : List A)
          → All (λ y. g y ≤ max_of g xs) ys
          → All (λ y. g y ≤ max (g x) (max_of g xs)) ys
      weaken [] w = tt
      weaken (y ∷ ys) w = (omega (arith, w.0), weaken ys w.1)

  -- A column with no value twice.
  abbrev pub Distinct : (A → ℕ) → List A → Type 0
  Distinct g [] = Unit
  Distinct g (x ∷ xs) = All (λ y. (g x == g y) ≡ false) xs × Distinct g xs

  pub find-none_All :
      (p q : A → Bool) (xs : List A) (a : A)
      → find p xs ≡ some a
      → All (λ x. q x ≡ false) xs
      → q a ≡ false
  unfolding find
  find-none_All p q [] a h w = cc
  find-none_All p q (x ∷ xs) a h w = ground (arith, w.0, ap q, find-none_All p q xs a)

  -- A row that is found by any test is found by a column with no value twice.
  pub find-Distinct :
      (g : A → ℕ) (p : A → Bool) (xs : List A) (a : A)
      → Distinct g xs
      → find p xs ≡ some a
      → find (λ x. g x == g a) xs ≡ some a
  unfolding find
  find-Distinct g p [] a d h = cc
  find-Distinct g p (x ∷ xs) a d h = elim (Bool-cases (p x)) [
    | inl e ↦ let same : x ≡ a = cc (rw (e, find) at h) in rw (same, ==-refl (g a)) refl
    | inr e ↦
        let rest : find p xs ≡ some a = rw (e, find) at h in
        rw (find-none_All p (λ y. g x == g y) xs a rest d.0) (find-Distinct g p xs a d.1 rest)
  ]

  pub find-append :
      (p : A → Bool) (xs : List A) (a : A)
      → find p xs ≡ none
      → p a ≡ true
      → find p (xs ++ a ∷ []) ≡ some a
  unfolding find
  find-append p [] a h t = rw t refl
  find-append p (x ∷ xs) a h t = ground (arith, find-append p xs a)

  -- `any` of one test from `any` of another, where a fact about every row leads from one to the other.
  pub any_mono {κ} :
      (P : A → Type κ) (p q : A → Bool) (xs : List A)
      → All P xs
      → ((x : A) → P x → p x ≡ true → q x ≡ true)
      → any p xs ≡ true
      → any q xs ≡ true
  any_mono P p q [] w h t = t
  any_mono P p q (x ∷ xs) w h t = elim (Bool-cases (p x)) [
    | inl e ↦ rw (h x w.0 e) refl
    | inr e ↦ rw (any_mono P p q xs w.1 h (rw (e, ◌||◌) at t)) (ground arith)
  ]

  -- After a DELETE no row is left of which a fact about every row shows that the DELETE takes it.
  pub delete-none {κ} :
      (P : A → Type κ) (p q : A → Bool) (xs : List A)
      → All P xs
      → ((x : A) → P x → q x ≡ true → p x ≡ true)
      → All (λ x. q x ≡ false) (delete p xs)
  unfolding delete
  delete-none P p q [] w h = tt
  delete-none P p q (x ∷ xs) w h = elim (Bool-cases (p x)) [
    | inl e ↦ rw e (delete-none P p q xs w.1 h)
    | inr e ↦ rw e (kept e (q x) refl, delete-none P p q xs w.1 h)
  ]
    where
      kept : p x ≡ false → (b : Bool) → q x ≡ b → q x ≡ false
      kept e true f = cc (h x w.0 f, e)
      kept e false f = f
