-- ===== src/Confirmation.antt =====
-- src/lenkobot/action_confirmation.py: single-use confirmations of actions. SHA-256 is the parameter
-- `digest`, and the encoder and decoder of JSON are `dumps` and `loads`. Instants are microseconds of
-- UTC; their fixed-width texts have the same order. A token is given by `secrets`: an argument here.
pub mod Laws
pub mod Once
use lenko_bot.Prelude.{
  ℕ, ◌+◌, ◌*◌, List, [], ◌∷◌, ◌++◌, Bool, true, false, ◌&&◌, ◌||◌, not, ◌==◌, leb, if◌then◌else◌,
  Option, none, some, is_some, Outcome, ok, err, ◌>>=◌, value_error, integrity_error, any,
}
use lenko_bot.Prelude.Table.{find, update, delete}
use lenko_bot.Text.{Text, text_eq, is_blank}

pub data ConfirmationOutcome : Type 0 where
  confirmed cancelled : ConfirmationOutcome

abbrev pub outcome_eq : ConfirmationOutcome → ConfirmationOutcome → Bool
outcome_eq ConfirmationOutcome.confirmed ConfirmationOutcome.confirmed = true
outcome_eq ConfirmationOutcome.cancelled ConfirmationOutcome.cancelled = true
outcome_eq _ _ = false

-- A row of `action_confirmation`.
pub record ConfirmationRow : Type 0 where
  pub token : Text
  pub owner_user_id : ℕ
  pub action_type : Text
  pub payload_json : Text
  pub payload_hash : Text
  pub created_at : ℕ
  pub expires_at : ℕ
  pub consumed_at : Option ℕ
  pub outcome : Option ConfirmationOutcome
  pub resolved_at : Option ℕ

-- The owner, a newline, the action type, a newline and the payload, hashed.
abbrev pub Digest : Type 0
Digest = ℕ → Text → Text → Text

-- `DELETE FROM action_confirmation WHERE owner_user_id = ? AND expires_at <= ?`
unfoldable pub drop_expired : ℕ → ℕ → List ConfirmationRow → List ConfirmationRow
drop_expired owner now rows = delete (λ r. r.owner_user_id == owner && leb r.expires_at now) rows

abbrev pub has_token : Text → ConfirmationRow → Bool
has_token token r = text_eq r.token token

abbrev pub resolve_row : ConfirmationOutcome → ℕ → ConfirmationRow → ConfirmationRow
resolve_row outcome now r = record r {
  consumed_at = some now;
  outcome = some outcome;
  resolved_at = some now;
}

-- `token = ? AND consumed_at IS NULL AND outcome IS NULL`
abbrev pub is_unresolved : Text → ConfirmationRow → Bool
is_unresolved token r = has_token token r && not (is_some r.consumed_at) && not (is_some r.outcome)

abbrev pub new_row : Digest → Text → ℕ → Text → Text → ℕ → ℕ → ConfirmationRow
new_row digest token owner action_type payload_json now ttl = record {
  token = token;
  owner_user_id = owner;
  action_type = action_type;
  payload_json = payload_json;
  payload_hash = digest owner action_type payload_json;
  created_at = now;
  expires_at = now + ttl * 1_000_000;
  consumed_at = none;
  outcome = none;
  resolved_at = none;
}

-- Whether the row is the owner's, with the hash of its own content.
unfoldable pub is_authentic : Digest → ℕ → ConfirmationRow → Bool
is_authentic digest owner r =
    r.owner_user_id == owner && text_eq r.payload_hash (digest owner r.action_type r.payload_json)

pub record ConfirmationAction (Payload : Type 0) : Type 0 where
  pub token : Text
  pub action_type : Text
  pub payload : Payload

pub record ConfirmationResolution (Payload : Type 0) : Type 0 where
  pub action : ConfirmationAction Payload
  pub outcome : ConfirmationOutcome
  pub first_resolution : Bool

module _ {Payload : Type 0} where
  abbrev pub resolution :
      Text → ConfirmationRow → Payload → ConfirmationOutcome → Bool → ConfirmationResolution Payload
  resolution token r payload outcome first = record {
    action = record { token = token; action_type = r.action_type; payload = payload };
    outcome = outcome;
    first_resolution = first;
  }

  -- What `resolve` does with the owner's row, its decoded payload and the row's outcome. The UPDATE
  -- takes the row that was read: it is its token's, not consumed and without outcome.
  unfoldable pub resolve_found :
      Text
      → ConfirmationOutcome
      → ℕ
      → ConfirmationRow
      → Payload
      → Option ConfirmationOutcome
      → List ConfirmationRow
      → Option (ConfirmationResolution Payload) × List ConfirmationRow
  resolve_found token outcome now r payload (some before) rows =
      if outcome_eq before outcome
      then (some (resolution token r payload outcome false), rows)
      else (none, rows)
  resolve_found token outcome now r payload none rows =
      if is_some r.consumed_at || leb r.expires_at now then (none, rows) else (
        some (resolution token r payload outcome true),
        update (is_unresolved token) (resolve_row outcome now) rows,
      )

  abbrev pub first_action :
      Option (ConfirmationResolution Payload) → Option (ConfirmationAction Payload)
  first_action none = none
  first_action (some r) = if r.first_resolution then some r.action else none

-- `create` of the store and `request` of the service, with the token that `secrets.token_urlsafe`
-- gave; tokens are the primary key.
unfoldable pub create :
    {Payload : Type 0}
    → Digest
    → (Payload → Text)
    → ℕ
    → Text
    → Payload
    → Text
    → ℕ
    → ℕ
    → List ConfirmationRow
    → Outcome Text × List ConfirmationRow
unfolding drop_expired
create digest dumps owner action_type payload token ttl now rows =
    let kept = drop_expired owner now rows in
    if owner == 0 || is_blank action_type
    then (err value_error, rows)
    else if any (has_token token) kept
    then (err integrity_error, rows)
    else (ok token, kept ++ new_row digest token owner action_type (dumps payload) now ttl ∷ [])

module _ {Payload : Type 0} (digest : Digest) (loads : Text → Outcome Payload) where
  -- `resolve` of the store from the row on; the outcome is one of the two that there are.
  unfoldable pub resolve_read :
      Text
      → ℕ
      → ConfirmationOutcome
      → ℕ
      → List ConfirmationRow
      → Option ConfirmationRow
      → Outcome (Option (ConfirmationResolution Payload)) × List ConfirmationRow
  unfolding resolve_found is_authentic
  resolve_read token owner outcome now rows none = (ok none, rows)
  resolve_read token owner outcome now rows (some r) =
      if not (is_authentic digest owner r) then (ok none, rows) else elim (loads r.payload_json) [
        | err e ↦ (err e, rows)
        | ok payload ↦ (
          ok (resolve_found token outcome now r payload r.outcome rows).0,
          (resolve_found token outcome now r payload r.outcome rows).1,
        )
      ]

  unfoldable pub resolve :
      Text
      → ℕ
      → ConfirmationOutcome
      → ℕ
      → List ConfirmationRow
      → Outcome (Option (ConfirmationResolution Payload)) × List ConfirmationRow
  unfolding resolve_read
  resolve token owner outcome now rows =
      resolve_read token owner outcome now rows (find (has_token token) rows)

  unfoldable pub consume :
      Text
      → ℕ
      → ℕ
      → List ConfirmationRow
      → Outcome (Option (ConfirmationAction Payload)) × List ConfirmationRow
  unfolding resolve
  consume token owner now rows =
      let (found, after) = resolve token owner ConfirmationOutcome.confirmed now rows in
      ((do r ← found; ok (first_action r)), after)

  -- `resolve` of the service.
  unfoldable pub decide :
      Text
      → ℕ
      → Bool
      → ℕ
      → List ConfirmationRow
      → Outcome (Option (ConfirmationResolution Payload)) × List ConfirmationRow
  unfolding resolve
  decide token owner is_confirmed now rows =
      resolve token owner
        (if is_confirmed then ConfirmationOutcome.confirmed else ConfirmationOutcome.cancelled) now
        rows
