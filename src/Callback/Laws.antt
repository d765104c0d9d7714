-- ===== src/Callback/Laws.antt =====
-- The data of a button is read back as it was written.
use lenko_bot.Prelude.{
  ◌≡◌, refl, subst, sym, [], ◌∷◌, ◌++◌, false, inl, inr, none, some, ok, >>=-elim, raise_if-passed,
  value_error, Bool-cases, ltb, ==-refl,
}
use lenko_bot.Text.{Text, is_empty, text_eq}
use lenko_bot.Text.Laws.{text_eq_sound}
use lenko_bot.Callback.{
  utf8_length, after_prefix, confirm_action, cancel_action, confirm_prefix, cancel_prefix,
  data_limit, prefix_of, confirmation_callback_data, parse_confirmation_callback_data,
}

after_prefix-append : (p t : Text) → after_prefix p (p ++ t) ≡ some t
unfolding after_prefix
after_prefix-append [] t = refl
after_prefix-append (c ∷ p) t = rw (==-refl c) (after_prefix-append p t)

-- No text starts with both prefixes.
cancel_is_not_confirm : (t : Text) → after_prefix confirm_prefix (cancel_prefix ++ t) ≡ none
unfolding after_prefix
cancel_is_not_confirm t = refl

read_cancel :
    (token : Text)
    → ltb data_limit (utf8_length (cancel_prefix ++ token)) ≡ false
    → is_empty token ≡ false
    → parse_confirmation_callback_data (cancel_prefix ++ token) ≡ some (cancel_action, token)
unfolding parse_confirmation_callback_data
read_cancel token short nonempty =
    rw (short, cancel_is_not_confirm token)
      (rw (after_prefix-append cancel_prefix token) (rw nonempty refl))

read_confirm :
    (token : Text)
    → ltb data_limit (utf8_length (confirm_prefix ++ token)) ≡ false
    → is_empty token ≡ false
    → parse_confirmation_callback_data (confirm_prefix ++ token) ≡ some (confirm_action, token)
unfolding parse_confirmation_callback_data
read_confirm token short nonempty =
    rw (short, after_prefix-append confirm_prefix token, nonempty) refl

-- The data that `confirmation_callback_data` makes fits Telegram's limit and is read back as the same
-- action and token.
pub parse_confirmation_callback_data-callback :
    (action token written : Text)
    → confirmation_callback_data action token ≡ ok written
    → (ltb data_limit (utf8_length written) ≡ false)
      × (parse_confirmation_callback_data written ≡ some (action, token))
unfolding confirmation_callback_data prefix_of
parse_confirmation_callback_data-callback action token written h =
    >>=-elim (prefix_of action) _ written h λ prefix e h1.
      let (nonempty, h2) = raise_if-passed (is_empty token) value_error _ h1 in
      let (short, h3) =
        raise_if-passed (ltb data_limit (utf8_length (prefix ++ token))) value_error _ h2 in
      let same : prefix ++ token ≡ written = cc h3 in
      elim (Bool-cases (text_eq action confirm_action)) [
        | inl c ↦
            let chosen : confirm_prefix ≡ prefix = cc (rw (c, prefix_of) at e) in
            (
              rw (← same) short,
              rw (← same, ← chosen, text_eq_sound action confirm_action c)
                  (read_confirm token
                    (subst (λ p. ltb data_limit (utf8_length (p ++ token)) ≡ false) (sym chosen)
                      short)
                    nonempty),
            )
        | inr n ↦ elim (Bool-cases (text_eq action cancel_action)) [
          | inl c ↦
              let chosen : cancel_prefix ≡ prefix = cc (rw (n, prefix_of, c) at e) in
              (
                rw (← same) short,
                rw (← same, ← chosen, text_eq_sound action cancel_action c)
                    (read_cancel token
                      (subst (λ p. ltb data_limit (utf8_length (p ++ token)) ≡ false) (sym chosen)
                        short)
                      nonempty),
              )
          | inr m ↦ cc (rw (n, prefix_of, m) at e)
        ]
      ]
