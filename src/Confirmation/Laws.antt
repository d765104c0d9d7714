-- ===== src/Confirmation/Laws.antt =====
-- A confirmation is resolved once, by its owner, before it expires.
use lenko_bot.Prelude.{
  ap, ℕ, ◌≡◌, refl, List, [], ◌∷◌, Bool, true, false, inl, inr, ◌⊎◌, arith, Option, none, some,
  Outcome, ok, Bool-cases, Option-cases, Outcome-cases, leb, any,
}
use lenko_bot.Prelude.Table.{find, update}
use lenko_bot.Text.{Text}
use lenko_bot.Confirmation.{
  ConfirmationOutcome, outcome_eq, ConfirmationRow, Digest, has_token, resolve_row, is_unresolved,
  is_authentic, ConfirmationResolution, resolution, resolve_found, resolve_read, resolve,
}

pub outcome_eq_refl : (o : ConfirmationOutcome) → outcome_eq o o ≡ true
outcome_eq_refl ConfirmationOutcome.confirmed = refl
outcome_eq_refl ConfirmationOutcome.cancelled = refl

pub find-none {ℓ} : {A : Type ℓ} (p : A → Bool) (xs : List A) → any p xs ≡ false → find p xs ≡ none
unfolding find
find-none p [] h = refl
find-none p (x ∷ xs) h = ground (arith, find-none p xs)

module _ {Payload : Type 0} (digest : Digest) (loads : Text → Outcome Payload) where
  -- What a resolution that was granted read, and what it wrote.
  pub record Granted (token : Text) (owner : ℕ) (outcome : ConfirmationOutcome) (now : ℕ)
      (rows after : List ConfirmationRow) (res : ConfirmationResolution Payload) : Type 0 where
    pub row : ConfirmationRow
    pub payload : Payload
    pub found : find (has_token token) rows ≡ some row
    pub mine : is_authentic digest owner row ≡ true
    pub decoded : loads row.payload_json ≡ ok payload
    pub how :
        (row.outcome ≡ some outcome)
          × (after ≡ rows)
          × (res ≡ resolution token row payload outcome false)
        ⊎ (row.outcome ≡ none)
          × (row.consumed_at ≡ none)
          × (leb row.expires_at now ≡ false)
          × (after ≡ update (is_unresolved token) (resolve_row outcome now) rows)
          × (res ≡ resolution token row payload outcome true)

  outcome_eq_sound : (a b : ConfirmationOutcome) → outcome_eq a b ≡ true → a ≡ b
  outcome_eq_sound ConfirmationOutcome.confirmed ConfirmationOutcome.confirmed h = refl
  outcome_eq_sound ConfirmationOutcome.cancelled ConfirmationOutcome.cancelled h = refl
  outcome_eq_sound ConfirmationOutcome.confirmed ConfirmationOutcome.cancelled h = cc
  outcome_eq_sound ConfirmationOutcome.cancelled ConfirmationOutcome.confirmed h = cc

  resolve_found_parts :
      (token : Text) (outcome : ConfirmationOutcome) (now : ℕ) (r : ConfirmationRow)
      (payload : Payload) (before : Option ConfirmationOutcome) (rows after : List ConfirmationRow)
      (res : ConfirmationResolution Payload)
      → resolve_found token outcome now r payload before rows ≡ (some res, after)
      → (before ≡ some outcome) × (after ≡ rows) × (res ≡ resolution token r payload outcome false)
        ⊎ (before ≡ none)
          × (r.consumed_at ≡ none)
          × (leb r.expires_at now ≡ false)
          × (after ≡ update (is_unresolved token) (resolve_row outcome now) rows)
          × (res ≡ resolution token r payload outcome true)
  unfolding resolve_found
  resolve_found_parts token outcome now r payload (some before) rows after res h =
      elim (Bool-cases (outcome_eq before outcome)) [
        | inl e ↦
            let k = rw (e, resolve_found) at h in
            inl (ap some (outcome_eq_sound before outcome e), cc, cc)
        | inr e ↦ cc (rw (e, resolve_found) at h)
      ]
  resolve_found_parts token outcome now r payload none rows after res h =
      elim (Option-cases r.consumed_at) [
        | inr (c, e) ↦ cc (rw (e, resolve_found) at h)
        | inl e ↦ elim (Bool-cases (leb r.expires_at now)) [
          | inl f ↦ cc (rw (e, resolve_found, f) at h)
          | inr f ↦ let k = rw (e, resolve_found, f) at h in inr (refl, e, f, cc, cc)
        ]
      ]

  resolve_read-Granted :
      (token : Text) (owner : ℕ) (outcome : ConfirmationOutcome) (now : ℕ)
      (rows after : List ConfirmationRow) (row : Option ConfirmationRow)
      (res : ConfirmationResolution Payload)
      → find (has_token token) rows ≡ row
      → resolve_read digest loads token owner outcome now rows row ≡ (ok (some res), after)
      → Granted token owner outcome now rows after res
  unfolding resolve_read
  resolve_read-Granted token owner outcome now rows after none res at_row h = cc
  resolve_read-Granted token owner outcome now rows after (some r) res at_row h =
      elim (Bool-cases (is_authentic digest owner r)) [
        | inr e ↦ cc (rw (e, resolve_read) at h)
        | inl e ↦ elim (Outcome-cases (loads r.payload_json)) [
          | inr (bad, f) ↦ cc (rw (e, resolve_read, f) at h)
          | inl (payload, f) ↦
              let k = rw (e, resolve_read, f) at h in
              record {
                row = r;
                payload = payload;
                found = at_row;
                mine = e;
                decoded = f;
                how =
                    resolve_found_parts token outcome now r payload r.outcome rows after res
                      (pair-eq _ (some res) after (cc k) (cc k));
              }
        ]
      ]
    where
      pair-eq : {A B : Type 0} (p : A × B) (a : A) (b : B) → p.0 ≡ a → p.1 ≡ b → p ≡ (a, b)
      pair-eq p a b h k = rw (← h, ← k) refl

  pub resolve-Granted :
      (token : Text) (owner : ℕ) (outcome : ConfirmationOutcome) (now : ℕ)
      (rows after : List ConfirmationRow) (res : ConfirmationResolution Payload)
      → resolve digest loads token owner outcome now rows ≡ (ok (some res), after)
      → Granted token owner outcome now rows after res
  unfolding resolve
  resolve-Granted token owner outcome now rows after res h =
      resolve_read-Granted token owner outcome now rows after (find (has_token token) rows) res refl
        h
