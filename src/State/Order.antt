-- ===== src/State/Order.antt =====
-- ORDER BY as an insertion sort, and tables whose rows differ pairwise in what a test compares.
use lenko_bot.Prelude.{
  ◌≡◌, ◌⊎◌, refl, List, [], ◌∷◌, ◌++◌, Bool, true, false, inl, inr, if◌then◌else◌, Bool-cases, All,
}
use lenko_bot.Prelude.Table.{update, delete, delete-All, update-All}

module _ {A : Type 0} where
  -- A row goes before the first one that it must stand before.
  unfoldable pub insert_by : (A → A → Bool) → A → List A → List A
  insert_by before a [] = a ∷ []
  insert_by before a (x ∷ xs) =
      let rest = insert_by before a xs in if before x a then x ∷ rest else a ∷ x ∷ xs

  unfoldable pub order_by : (A → A → Bool) → List A → List A
  unfolding insert_by
  order_by before [] = []
  order_by before (x ∷ xs) = insert_by before x (order_by before xs)

  -- No earlier row is in the relation with a later one.
  abbrev pub Apart : (A → A → Bool) → List A → Type 0
  Apart r [] = Unit
  Apart r (x ∷ xs) = All (λ y. r x y ≡ false) xs × Apart r xs

  append-All : (P : A → Type 0) (xs : List A) (a : A) → All P xs → P a → All P (xs ++ a ∷ [])
  append-All P [] a w h = (h, tt)
  append-All P (x ∷ xs) a w h = (w.0, append-All P xs a w.1 h)

  pub Apart-append :
      (r : A → A → Bool) (xs : List A) (a : A)
      → All (λ x. r x a ≡ false) xs
      → Apart r xs
      → Apart r (xs ++ a ∷ [])
  Apart-append r [] a w d = (tt, tt)
  Apart-append r (x ∷ xs) a w d =
      (append-All (λ y. r x y ≡ false) xs a d.0 w.0, Apart-append r xs a w.1 d.1)

  pub Apart-delete :
      (r : A → A → Bool) (p : A → Bool) (xs : List A) → Apart r xs → Apart r (delete p xs)
  unfolding delete
  Apart-delete r p [] d = tt
  Apart-delete r p (x ∷ xs) d = elim (Bool-cases (p x)) [
    | inl e ↦ rw e (Apart-delete r p xs d.1)
    | inr e ↦ rw e (delete-All (λ y. r x y ≡ false) p xs d.0, Apart-delete r p xs d.1)
  ]

  -- An UPDATE that brings no two rows into the relation.
  pub Apart-update :
      (r : A → A → Bool) (p : A → Bool) (f : A → A) (xs : List A)
      → ((x y : A) → r x y ≡ false → r (f x) y ≡ false)
      → ((x y : A) → r x y ≡ false → r x (f y) ≡ false)
      → Apart r xs
      → Apart r (update p f xs)
  unfolding update
  Apart-update r p f [] left right d = tt
  Apart-update r p f (x ∷ xs) left right d =
      (first (Bool-cases (p x)), Apart-update r p f xs left right d.1)
    where
      same : All (λ y. r x y ≡ false) (update p f xs)
      same = update-All (λ y. r x y ≡ false) p f (λ y _ h. right x y h) xs d.0

      changed : (ys : List A) → All (λ y. r x y ≡ false) ys → All (λ y. r (f x) y ≡ false) ys
      changed [] w = tt
      changed (y ∷ ys) w = (left x y w.0, changed ys w.1)

      first :
          (p x ≡ true) ⊎ (p x ≡ false)
          → All (λ y. r (if p x then f x else x) y ≡ false) (update p f xs)
      first (inl e) = rw e (changed (update p f xs) same)
      first (inr e) = rw e same

  -- Rows that stand in the order already stay as they are.
  pub order_by-Apart :
      (before : A → A → Bool) (xs : List A) → Apart (λ x y. before y x) xs → order_by before xs ≡ xs
  unfolding order_by insert_by
  order_by-Apart before [] d = refl
  order_by-Apart before (x ∷ xs) d = rw (order_by-Apart before xs d.1) (front xs d.0)
    where
      front : (ys : List A) → All (λ y. before y x ≡ false) ys → insert_by before x ys ≡ x ∷ ys
      front [] w = refl
      front (y ∷ ys) w = rw w.0 refl
