-- ===== src/Prelude/Table/Unique.antt =====
-- Tables whose ids occur once: INSERT, UPDATE and DELETE keep that, and an UPDATE by id changes one row.
use Prim.Native.Nat.{ℕ, suc, ◌≤◌}
use mathlib.Core.Path.{◌≡◌, subst}
use mathlib.Core.Logic.{◌⊎◌, inl, inr}
use mathlib.Core.Bool.{Bool, true, false}
use mathlib.Core.Option.{some}
use mathlib.Core.List.{List, [], ◌∷◌, ◌++◌}
use native.Mathlib.Omega.{arith}
use lenko_bot.Prelude.Tests.{Bool-cases, ◌==◌, ==-comm}
use lenko_bot.Prelude.Lists.{All}
use lenko_bot.Prelude.Table.{
  find, update, delete, next_id, max_of, Distinct, update-All, delete-All, le-max_of,
}

module _ {A : Type 0} where
  -- The row is in the table.
  abbrev pub In : A → List A → Type 0
  In a [] = ⊥
  In a (x ∷ xs) = (x ≡ a) ⊎ In a xs

  pub find-In : (p : A → Bool) (xs : List A) (a : A) → find p xs ≡ some a → In a xs
  unfolding find
  find-In p [] a h = cc
  find-In p (x ∷ xs) a h = elim (Bool-cases (p x)) [
    | inl e ↦ inl (cc (rw (e, find) at h))
    | inr e ↦ inr (find-In p xs a (rw (e, find) at h))
  ]

  pub All-In {κ} : (P : A → Type κ) (xs : List A) (a : A) → All P xs → In a xs → P a
  All-In P [] a w i = elim i [ ]
  All-In P (x ∷ xs) a w (inl e) = rw (← e) w.0
  All-In P (x ∷ xs) a w (inr i) = All-In P xs a w.1 i

module _ {A : Type 0} (g : A → ℕ) where
  apart_from :
      (a x : A) (xs : List A) → All (λ y. (g x == g y) ≡ false) xs → In a xs → (g x == g a) ≡ false
  apart_from a x xs w i = All-In (λ y. (g x == g y) ≡ false) xs a w i

  others :
      (a : A) (xs : List A)
      → All (λ y. (g a == g y) ≡ false) xs
      → All (λ y. ((g y == g a) ≡ false) ⊎ (y ≡ a)) xs
  others a [] w = tt
  others a (y ∷ ys) w = (inl (rw (==-comm (g y) (g a)) w.0), others a ys w.1)

  -- The other rows have other ids.
  pub Distinct-only :
      (xs : List A) (a : A)
      → Distinct g xs
      → In a xs
      → All (λ x. ((g x == g a) ≡ false) ⊎ (x ≡ a)) xs
  Distinct-only [] a d i = tt
  Distinct-only (x ∷ xs) a d (inl e) =
      (inr e, subst (λ b. All (λ y. ((g y == g b) ≡ false) ⊎ (y ≡ b)) xs) e (others x xs d.0))
  Distinct-only (x ∷ xs) a d (inr i) = (inl (apart_from a x xs d.0 i), Distinct-only xs a d.1 i)

  -- An UPDATE by the id of a row of the table changes that row alone.
  pub update_row-All {κ} :
      (P : A → Type κ) (f : A → A) (xs : List A) (a : A)
      → All (λ x. ((g x == g a) ≡ false) ⊎ (x ≡ a)) xs
      → All P xs
      → P (f a)
      → All P (update (λ x. g x == g a) f xs)
  unfolding update
  update_row-All P f [] a only w h = tt
  update_row-All P f (x ∷ xs) a only w h = elim (Bool-cases (g x == g a)) [
    | inr e ↦ rw e (w.0, update_row-All P f xs a only.1 w.1 h)
    | inl e ↦ rw e (changed only.0 e, update_row-All P f xs a only.1 w.1 h)
  ]
    where
      changed : (((g x == g a) ≡ false) ⊎ (x ≡ a)) → (g x == g a) ≡ true → P (f x)
      changed (inl n) e = cc
      changed (inr s) e = rw s h

  pub Distinct-update :
      (p : A → Bool) (f : A → A) (xs : List A)
      → ((x : A) → g (f x) ≡ g x)
      → Distinct g xs
      → Distinct g (update p f xs)
  unfolding update
  Distinct-update p f [] keep d = tt
  Distinct-update p f (x ∷ xs) keep d = elim (Bool-cases (p x)) [
    | inl e ↦ rw (e, keep x) (rest, Distinct-update p f xs keep d.1)
    | inr e ↦ rw e (rest, Distinct-update p f xs keep d.1)
  ]
    where
      rest : All (λ y. (g x == g y) ≡ false) (update p f xs)
      rest = update-All (λ y. (g x == g y) ≡ false) p f (λ y _ h. rw (keep y) h) xs d.0

  pub Distinct-delete : (p : A → Bool) (xs : List A) → Distinct g xs → Distinct g (delete p xs)
  unfolding delete
  Distinct-delete p [] d = tt
  Distinct-delete p (x ∷ xs) d = elim (Bool-cases (p x)) [
    | inl e ↦ rw e (Distinct-delete p xs d.1)
    | inr e ↦ rw e (delete-All (λ y. (g x == g y) ≡ false) p xs d.0, Distinct-delete p xs d.1)
  ]

  append_below :
      (n : ℕ) (xs : List A) (a : A)
      → All (λ y. (n == g y) ≡ false) xs
      → (n == g a) ≡ false
      → All (λ y. (n == g y) ≡ false) (xs ++ a ∷ [])
  append_below n [] a w h = (h, tt)
  append_below n (x ∷ xs) a w h = (w.0, append_below n xs a w.1 h)

  Distinct-append :
      (m : ℕ) (xs : List A) (a : A)
      → All (λ x. g x ≤ m) xs
      → g a ≡ suc m
      → Distinct g xs
      → Distinct g (xs ++ a ∷ [])
  Distinct-append m [] a w e d = (tt, tt)
  Distinct-append m (x ∷ xs) a w e d =
      (append_below (g x) xs a d.0 (ground arith), Distinct-append m xs a w.1 e d.1)

  -- A row that is inserted with the next id.
  pub Distinct-insert :
      (xs : List A) (a : A) → g a ≡ next_id g xs → Distinct g xs → Distinct g (xs ++ a ∷ [])
  unfolding next_id
  Distinct-insert xs a e d = Distinct-append (max_of g xs) xs a (le-max_of g xs) e d
