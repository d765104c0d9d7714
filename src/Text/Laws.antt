-- ===== src/Text/Laws.antt =====
-- The equality test of texts decides equality.
use lenko_bot.Prelude.{[], ◌∷◌, ◌≡◌, refl, true, arith}
use lenko_bot.Text.{Text, text_eq}

pub text_eq_refl : (t : Text) → text_eq t t ≡ true
unfolding text_eq
text_eq_refl [] = refl
text_eq_refl (c ∷ t) = ground (arith, text_eq_refl t)

pub text_eq_sound : (t u : Text) → text_eq t u ≡ true → t ≡ u
unfolding text_eq
text_eq_sound [] [] h = refl
text_eq_sound [] (d ∷ u) h = cc
text_eq_sound (c ∷ t) [] h = cc
text_eq_sound (c ∷ t) (d ∷ u) h = ground (arith, text_eq_sound t u)
