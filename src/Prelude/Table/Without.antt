-- ===== src/Prelude/Table/Without.antt =====
-- What a DELETE does, apart from how it is written: the rows of which a statement holds are gone, and
-- the others stand as they stood, in their order.
use Prim.Native.Nat.{ℕ, ◌+◌}
use mathlib.Core.Path.{◌≡◌, refl}
use mathlib.Core.Logic.{◌⊎◌, inl, inr}
use mathlib.Core.Bool.{Bool, true, false, ◌||◌}
use mathlib.Core.Option.{none}
use mathlib.Core.List.{List, [], ◌∷◌}
use native.Mathlib.Omega.{arith}
use lenko_bot.Prelude.Tests.{Bool-cases, ◌==◌}
use lenko_bot.Prelude.Lists.{All, any, length}
use lenko_bot.Prelude.Table.{find, delete, count_where, Distinct}
use lenko_bot.Prelude.Table.Unique.{In, All-In, Distinct-only}

pub data Without {A : Type 0} (P : A → Type 0) : List A → List A → Type 0 where
  ends : Without P [] []
  gone : {x : A} {xs ys : List A} → P x → Without P xs ys → Without P (x ∷ xs) ys
  stays : {x : A} {xs ys : List A} → ¬ (P x) → Without P xs ys → Without P (x ∷ xs) (x ∷ ys)

module _ {A : Type 0} where
  -- The test tells whether the statement holds of the row.
  abbrev pub Tells : (A → Type 0) → (A → Bool) → A → Type 0
  Tells P p x = ((p x ≡ true) × P x) ⊎ ((p x ≡ false) × ¬ (P x))

  pub delete-Without :
      (P : A → Type 0) (p : A → Bool) (xs : List A)
      → ((x : A) → In x xs → Tells P p x)
      → Without P xs (delete p xs)
  unfolding delete
  delete-Without P p [] tells = Without.ends
  delete-Without P p (x ∷ xs) tells = elim (tells x (inl refl)) [
    | inl (e, h) ↦ rw e (Without.gone h (delete-Without P p xs (λ y i. tells y (inr i))))
    | inr (e, n) ↦ rw e (Without.stays n (delete-Without P p xs (λ y i. tells y (inr i))))
  ]

  pub delete-delete :
      (p q : A → Bool) (xs : List A) → delete q (delete p xs) ≡ delete (λ x. p x || q x) xs
  unfolding delete
  delete-delete p q [] = refl
  delete-delete p q (x ∷ xs) = elim (Bool-cases (p x)) [
    | inl e ↦ rw (e, delete-delete p q xs) refl
    | inr e ↦ rw (e, delete-delete p q xs) refl
  ]

  pub length-delete :
      (p : A → Bool) (xs : List A) → length xs ≡ length (delete p xs) + count_where p xs
  unfolding delete count_where
  length-delete p [] = refl
  length-delete p (x ∷ xs) = elim (Bool-cases (p x)) [
    | inl e ↦ rw e (omega (arith, length-delete p xs))
    | inr e ↦ rw e (omega (arith, length-delete p xs))
  ]

  pub find-none-In : (p : A → Bool) (xs : List A) (a : A) → find p xs ≡ none → In a xs → p a ≡ false
  unfolding find
  find-none-In p [] a h i = elim i [ ]
  find-none-In p (x ∷ xs) a h i = elim (Bool-cases (p x)) [
    | inl e ↦ absurd (cc (rw (e, find) at h))
    | inr e ↦ elim i [
      | inl same ↦ rw (← same) e
      | inr j ↦ find-none-In p xs a (rw (e, find) at h) j
    ]
  ]

  pub any-In : (p : A → Bool) (xs : List A) → any p xs ≡ true → (a : A) × In a xs × (p a ≡ true)
  any-In p [] h = cc
  any-In p (x ∷ xs) h = elim (Bool-cases (p x)) [
    | inl e ↦ (x, inl refl, e)
    | inr e ↦ let (a, i, t) = any-In p xs (rw (e, ◌||◌) at h) in (a, inr i, t)
  ]

  -- Rows of a table that share the value of a column with no value twice.
  pub Distinct-same :
      (g : A → ℕ) (xs : List A) (a b : A)
      → Distinct g xs
      → In a xs
      → In b xs
      → (g b == g a) ≡ true
      → b ≡ a
  Distinct-same g xs a b d i j e =
      elim (All-In (λ x. ((g x == g a) ≡ false) ⊎ (x ≡ a)) xs b (Distinct-only g xs a d i) j) [
        | inl n ↦ absurd (cc (e, n))
        | inr same ↦ same
      ]

  none_counted : (p : A → Bool) (xs : List A) → All (λ x. p x ≡ false) xs → count_where p xs ≡ 0
  unfolding count_where
  none_counted p [] w = refl
  none_counted p (x ∷ xs) w = rw (w.0, none_counted p xs w.1) refl

  -- A test that only one row of the table passes counts it once.
  pub count_where-one :
      (g : A → ℕ) (p : A → Bool) (xs : List A) (a : A)
      → Distinct g xs
      → In a xs
      → p a ≡ true
      → ((x : A) → p x ≡ true → (g a == g x) ≡ true)
      → count_where p xs ≡ 1
  unfolding count_where
  count_where-one g p [] a d i t only = elim i [ ]
  count_where-one g p (x ∷ xs) a d (inl e) t only =
      rw (e, t) (rw (none_counted p xs (apart xs (rw e at d.0))) refl)
    where
      apart : (ys : List A) → All (λ y. (g a == g y) ≡ false) ys → All (λ y. p y ≡ false) ys
      apart [] w = tt
      apart (y ∷ ys) w = (
        elim (Bool-cases (p y)) [ inl f ↦ absurd (cc (only y f, w.0)) | inr f ↦ f ],
        apart ys w.1,
      )
  count_where-one g p (x ∷ xs) a d (inr i) t only = elim (Bool-cases (p x)) [
    | inr e ↦ rw e (count_where-one g p xs a d.1 i t only)
    | inl e ↦
        let other = All-In (λ y. (g x == g y) ≡ false) xs a d.0 i in
        absurd (ground (arith, other, only x e))
  ]

  pub delete-In : (p : A → Bool) (xs : List A) (a : A) → In a xs → p a ≡ false → In a (delete p xs)
  unfolding delete
  delete-In p [] a i e = i
  delete-In p (x ∷ xs) a (inl same) e = rw (same, e) (inl refl)
  delete-In p (x ∷ xs) a (inr i) e = elim (Bool-cases (p x)) [
    | inl t ↦ rw t (delete-In p xs a i e)
    | inr t ↦ rw t (inr (delete-In p xs a i e))
  ]
