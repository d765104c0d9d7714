-- ===== src/Callback.antt =====
-- The callback data of confirmation buttons: `confirmation_callback_data` and
-- `parse_confirmation_callback_data` of src/lenkobot/telegram_presentation.py.
pub mod Laws
use lenko_bot.Prelude.{
  ℕ, ◌+◌, List, [], ◌∷◌, ◌++◌, Bool, true, false, ltb, leb, ◌==◌, if◌then◌else◌, Option, none, some,
  Outcome, ok, err, ◌>>=◌, ◌>>◌, raise_if, value_error,
}
use lenko_bot.Text.{Text, is_empty, text_eq}

-- `len(text.encode("utf-8"))`
unfoldable pub utf8_length : Text → ℕ
utf8_length [] = 0
utf8_length (c ∷ t) =
    (if ltb c 128 then 1 else if ltb c 2048 then 2 else if ltb c 65536 then 3 else 4)
    + utf8_length t

-- `text.removeprefix(prefix)` where `text.startswith(prefix)`.
unfoldable pub after_prefix : Text → Text → Option Text
after_prefix [] t = some t
after_prefix (c ∷ p) [] = none
after_prefix (c ∷ p) (d ∷ t) = if c == d then after_prefix p t else none

-- "confirm"
abbrev pub confirm_action : Text
confirm_action = 99 ∷ 111 ∷ 110 ∷ 102 ∷ 105 ∷ 114 ∷ 109 ∷ []

-- "cancel"
abbrev pub cancel_action : Text
cancel_action = 99 ∷ 97 ∷ 110 ∷ 99 ∷ 101 ∷ 108 ∷ []

-- "confirm:v1:"
abbrev pub confirm_prefix : Text
confirm_prefix = 99 ∷ 111 ∷ 110 ∷ 102 ∷ 105 ∷ 114 ∷ 109 ∷ 58 ∷ 118 ∷ 49 ∷ 58 ∷ []

-- "cancel:v1:"
abbrev pub cancel_prefix : Text
cancel_prefix = 99 ∷ 97 ∷ 110 ∷ 99 ∷ 101 ∷ 108 ∷ 58 ∷ 118 ∷ 49 ∷ 58 ∷ []

abbrev pub data_limit : ℕ
data_limit = 64

unfoldable pub prefix_of : Text → Outcome Text
prefix_of action =
    if text_eq action confirm_action
    then ok confirm_prefix
    else if text_eq action cancel_action
    then ok cancel_prefix
    else err value_error

unfoldable pub confirmation_callback_data : Text → Text → Outcome Text
unfolding prefix_of
confirmation_callback_data action token = do
  prefix ← prefix_of action
  raise_if (is_empty token) value_error
  raise_if (ltb data_limit (utf8_length (prefix ++ token))) value_error
  ok (prefix ++ token)

abbrev pub with_token : Text → Text → Option (Text × Text)
with_token action token = if is_empty token then none else some (action, token)

unfoldable pub parse_confirmation_callback_data : Text → Option (Text × Text)
parse_confirmation_callback_data text =
    if ltb data_limit (utf8_length text) then none else elim (after_prefix confirm_prefix text) [
      | some token ↦ with_token confirm_action token
      | none ↦ elim (after_prefix cancel_prefix text) [
        | some token ↦ with_token cancel_action token
        | none ↦ none
      ]
    ]
