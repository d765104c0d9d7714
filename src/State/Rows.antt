-- ===== src/State/Rows.antt =====
-- Facts about all rows of a table from a lookup, a maximum or a test.
use lenko_bot.Prelude.{
  ℕ, suc, ◌≤◌, ◌≡◌, refl, List, [], ◌∷◌, ◌++◌, Bool, true, false, ◌&&◌, ◌||◌, inl, inr, arith, none,
  some, Bool-cases, leb, ◌==◌, any, All,
}
use lenko_bot.Prelude.Table.{find, select, max_of, le-max_of, next_id, update}
use lenko_bot.State.Order.{Apart}

-- A number above the largest of a column in the rows of a test.
pub above-select :
    {A : Type 0} (p : A → Bool) (g : A → ℕ) (m : ℕ) (xs : List A)
    → max_of g (select p xs) ≤ m
    → All (λ x. (p x && leb (suc m) (g x)) ≡ false) xs
unfolding max_of select
above-select p g m [] h = tt
above-select p g m (x ∷ xs) h = elim (Bool-cases (p x)) [
  | inl e ↦ (ground arith, above-select p g m xs (ground arith))
  | inr e ↦ (rw e refl, above-select p g m xs (ground arith))
]

pub find-none_rows :
    {A : Type 0} (p : A → Bool) (xs : List A) → find p xs ≡ none → All (λ x. p x ≡ false) xs
unfolding find
find-none_rows p [] h = tt
find-none_rows p (x ∷ xs) h = elim (Bool-cases (p x)) [
  | inl e ↦ absurd (cc (rw (e, find) at h))
  | inr e ↦ (e, find-none_rows p xs (rw (e, find) at h))
]

pub any_of_find :
    {A : Type 0} (p : A → Bool) (xs : List A) (a : A) → find p xs ≡ some a → any p xs ≡ true
unfolding find
any_of_find p [] a h = cc
any_of_find p (x ∷ xs) a h = ground (arith, any_of_find p xs a)

pub any-append :
    {A : Type 0} (p : A → Bool) (xs ys : List A) → any p xs ≡ true → any p (xs ++ ys) ≡ true
any-append p [] ys h = cc
any-append p (x ∷ xs) ys h = ground (arith, any-append p xs ys)

-- Facts about the rows of a table, from facts about them.
pub All-map :
    {A : Type 0} (P Q : A → Type 0) (xs : List A) → ((x : A) → P x → Q x) → All P xs → All Q xs
All-map P Q [] f w = tt
All-map P Q (x ∷ xs) f w = (f x w.0, All-map P Q xs f w.1)

pub any-update :
    {A : Type 0} (p q : A → Bool) (f : A → A) (xs : List A)
    → ((x : A) → q x ≡ true → p x ≡ true → p (f x) ≡ true)
    → any p xs ≡ true
    → any p (update q f xs) ≡ true
unfolding update
any-update p q f [] keep h = cc
any-update p q f (x ∷ xs) keep h = elim (Bool-cases (q x)) [
  | inr e ↦ rw e (ground (arith, any-update p q f xs keep))
  | inl e ↦ rw e (ground (arith, keep x e, any-update p q f xs keep))
]

pub find-any :
    {A : Type 0} (p q : A → Bool) (xs : List A) (a : A)
    → find p xs ≡ some a
    → q a ≡ true
    → any q xs ≡ true
unfolding find
find-any p q [] a h t = cc
find-any p q (x ∷ xs) a h t = elim (Bool-cases (p x)) [
  | inl e ↦ let same : x ≡ a = cc (rw (e, find) at h) in rw (same, t) refl
  | inr e ↦ rw (find-any p q xs a (rw (e, find) at h) t) (ground arith)
]

pub any-last :
    {A : Type 0} (q : A → Bool) (xs : List A) (a : A) → q a ≡ true → any q (xs ++ a ∷ []) ≡ true
any-last q [] a t = rw t refl
any-last q (x ∷ xs) a t = rw (any-last q xs a t) (ground arith)

pub select-append :
    {A : Type 0} (p : A → Bool) (xs ys : List A) → select p (xs ++ ys) ≡ select p xs ++ select p ys
unfolding select
select-append p [] ys = refl
select-append p (x ∷ xs) ys = elim (Bool-cases (p x)) [
  | inl e ↦ rw (e, select-append p xs ys) refl
  | inr e ↦ rw (e, select-append p xs ys) refl
]

pub select-All :
    {A : Type 0} (P : A → Type 0) (p : A → Bool) (xs : List A) → All P xs → All P (select p xs)
unfolding select
select-All P p [] w = tt
select-All P p (x ∷ xs) w = elim (Bool-cases (p x)) [
  | inl e ↦ rw e (w.0, select-All P p xs w.1)
  | inr e ↦ rw e (select-All P p xs w.1)
]

-- Rows that a test selects, from a fact about all rows.
pub select_passed :
    {A : Type 0} (P Q : A → Type 0) (p : A → Bool) (xs : List A)
    → ((x : A) → p x ≡ true → P x → Q x)
    → All P xs
    → All Q (select p xs)
unfolding select
select_passed P Q p [] f w = tt
select_passed P Q p (x ∷ xs) f w = elim (Bool-cases (p x)) [
  | inl e ↦ rw e (f x e w.0, select_passed P Q p xs f w.1)
  | inr e ↦ rw e (select_passed P Q p xs f w.1)
]

-- The selected rows, where the test turns one relation into another.
pub Apart-select :
    {A : Type 0} (r q : A → A → Bool) (p : A → Bool) (xs : List A)
    → ((x y : A) → p x ≡ true → p y ≡ true → r x y ≡ false → q x y ≡ false)
    → Apart r xs
    → Apart q (select p xs)
unfolding select
Apart-select r q p [] f d = tt
Apart-select r q p (x ∷ xs) f d = elim (Bool-cases (p x)) [
  | inr e ↦ rw e (Apart-select r q p xs f d.1)
  | inl e ↦ rw e (
    select_passed (λ y. r x y ≡ false) (λ y. q x y ≡ false) p xs (λ y k v. f x y e k v) d.0,
    Apart-select r q p xs f d.1,
  )
]

-- An id above the largest is none of a table's.
pub fresh_id : {A : Type 0} (g : A → ℕ) (xs : List A) → All (λ x. (g x == next_id g xs) ≡ false) xs
unfolding next_id
fresh_id g xs = All-map (λ x. g x ≤ max_of g xs) _ xs (λ x k. ground arith) (le-max_of g xs)

pub any-find :
    {A : Type 0} (q : A → Bool) (xs : List A) → any q xs ≡ true → (b : A) × (find q xs ≡ some b)
unfolding find
any-find q [] h = cc
any-find q (x ∷ xs) h = elim (Bool-cases (q x)) [
  | inl e ↦ rw e (x, refl)
  | inr e ↦ rw e (any-find q xs (rw (e, ◌||◌) at h))
]
