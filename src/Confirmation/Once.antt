-- ===== src/Confirmation/Once.antt =====
-- A token is used once, by its owner, before it expires.
use lenko_bot.Prelude.{
  ap, ℕ, ◌+◌, ◌*◌, ◌≡◌, ◌∙◌, refl, List, [], ◌∷◌, ◌++◌, true, false, ◌||◌, inl, inr, arith, Option,
  none, some, Outcome, ok, Bool-cases, Outcome-cases, ◌==◌, ==-refl, leb, if◌then◌else◌, any,
}
use lenko_bot.Prelude.Table.{find, find_sound, find-update, find-append}
use lenko_bot.Text.{Text, is_blank}
use lenko_bot.Text.Laws.{text_eq_refl}
use lenko_bot.Confirmation.{
  ConfirmationOutcome, outcome_eq, ConfirmationRow, Digest, drop_expired, has_token, resolve_row,
  is_unresolved, new_row, is_authentic, ConfirmationAction, ConfirmationResolution, resolution,
  resolve_found, first_action, create, resolve_read, resolve, consume,
}
use lenko_bot.Confirmation.Laws.{Granted, resolve-Granted, find-none}

module _ {Payload : Type 0} (digest : Digest) (loads : Text → Outcome Payload) where
  -- The row of the token after a resolution that was granted.
  record Resolved (token : Text) (owner : ℕ) (outcome : ConfirmationOutcome)
      (rows : List ConfirmationRow) (res : ConfirmationResolution Payload) : Type 0 where
    row : ConfirmationRow
    payload : Payload
    found : find (has_token token) rows ≡ some row
    mine : is_authentic digest owner row ≡ true
    decoded : loads row.payload_json ≡ ok payload
    done : row.outcome ≡ some outcome
    action : res.action ≡ record { token = token; action_type = row.action_type; payload = payload }

  resolve-Resolved :
      (token : Text) (owner : ℕ) (outcome : ConfirmationOutcome) (now : ℕ)
      (rows after : List ConfirmationRow) (res : ConfirmationResolution Payload)
      → Granted digest loads token owner outcome now rows after res
      → Resolved token owner outcome after res
  unfolding is_authentic
  resolve-Resolved token owner outcome now rows after res w = elim w.how [
    | inl (o, same, r) ↦ record {
      row = w.row;
      payload = w.payload;
      found = rw same w.found;
      mine = w.mine;
      decoded = w.decoded;
      done = o;
      action = rw r refl;
    }
    | inr (o, c, _, same, r) ↦
        let t = find_sound (has_token token) rows w.row w.found in
        let taken : is_unresolved token w.row ≡ true = rw (t, o, c) refl in
        record {
          row = resolve_row outcome now w.row;
          payload = w.payload;
          found = rw same (
              find-update (has_token token) (is_unresolved token) (resolve_row outcome now) rows
                w.row (λ x. refl) w.found
              ∙ rw taken refl);
          mine = w.mine;
          decoded = w.decoded;
          done = refl;
          action = rw r refl;
        }
  ]

  again_found :
      (token : Text) (outcome again : ConfirmationOutcome) (later : ℕ) (rows : List ConfirmationRow)
      (r : ConfirmationRow) (payload : Payload)
      → resolve_found token again later r payload (some outcome) rows ≡ (
        (if outcome_eq outcome again then some (resolution token r payload again false) else none),
        rows,
      )
  unfolding resolve_found
  again_found token outcome again later rows r payload = ground arith

  again_read :
      (token : Text) (owner : ℕ) (outcome again : ConfirmationOutcome) (later : ℕ)
      (rows : List ConfirmationRow) (res : ConfirmationResolution Payload)
      → Resolved token owner outcome rows res
      → resolve digest loads token owner again later rows ≡ (
        ok (
            if outcome_eq outcome again
            then some (record { action = res.action; outcome = again; first_resolution = false })
            else none),
        rows,
      )
  unfolding resolve resolve_read
  again_read token owner outcome again later rows res w =
      rw
        (
          w.found,
          w.mine,
          w.decoded,
          w.done,
          again_found token outcome again later rows w.row w.payload,
          w.action,
        )
        refl

  pair-eq : {A B : Type 0} (p : A × B) (a : A) (b : B) → p.0 ≡ a → p.1 ≡ b → p ≡ (a, b)
  pair-eq p a b h k = rw (← h, ← k) refl

  -- A resolution that was granted, asked for again by the same owner at any later time: the same
  -- outcome gives the same action, marked as not the first, the other outcome gives nothing, and the
  -- table does not change.
  pub resolve-again :
      (token : Text) (owner : ℕ) (outcome again : ConfirmationOutcome) (now later : ℕ)
      (rows after : List ConfirmationRow) (res : ConfirmationResolution Payload)
      → resolve digest loads token owner outcome now rows ≡ (ok (some res), after)
      → resolve digest loads token owner again later after ≡ (
        ok (
            if outcome_eq outcome again
            then some (record { action = res.action; outcome = again; first_resolution = false })
            else none),
        after,
      )
  resolve-again token owner outcome again now later rows after res h =
      again_read token owner outcome again later after res (
        resolve-Resolved token owner outcome now rows after res
          (resolve-Granted digest loads token owner outcome now rows after res h))

  foreign_read :
      (token : Text) (owner other : ℕ) (outcome : ConfirmationOutcome) (later : ℕ)
      (rows : List ConfirmationRow) (r : ConfirmationRow)
      → find (has_token token) rows ≡ some r
      → (r.owner_user_id == owner) ≡ true
      → (owner == other) ≡ false
      → resolve digest loads token other outcome later rows ≡ (ok none, rows)
  unfolding resolve resolve_read is_authentic
  foreign_read token owner other outcome later rows r found mine apart =
      let same : r.owner_user_id ≡ owner = ground arith in rw (found, same, apart) refl

  consume-resolve :
      (token : Text) (owner now : ℕ) (rows after : List ConfirmationRow)
      (a : ConfirmationAction Payload)
      → consume digest loads token owner now rows ≡ (ok (some a), after)
      → (res : ConfirmationResolution Payload) × (resolve digest loads token owner
            ConfirmationOutcome.confirmed now rows
          ≡ (ok (some res), after))
        × (res.first_resolution ≡ true)
        × (res.action ≡ a)
  unfolding consume
  consume-resolve token owner now rows after a h =
      elim (Outcome-cases
        (resolve digest loads token owner ConfirmationOutcome.confirmed now rows).0) [
          | inr (bad, e) ↦ cc (rw (e, consume) at h)
          | inl (none, e) ↦ cc (rw (e, consume) at h)
          | inl (some res, e) ↦ elim (Bool-cases res.first_resolution) [
            | inr f ↦ cc (rw (e, consume, f) at h)
            | inl f ↦
                let k = rw (e, consume, f) at h in
                (
                  res,
                  pair-eq (resolve digest loads token owner ConfirmationOutcome.confirmed now rows)
                      (ok (some res)) after e (ap (λ p. p.1) h),
                  f,
                  cc k,
                )
          ]
        ]

  again_first :
      (action : ConfirmationAction Payload) (outcome again : ConfirmationOutcome)
      → first_action (
          if outcome_eq outcome again
          then some (record { action = action; outcome = again; first_resolution = false })
          else none)
        ≡ none
  again_first action outcome again = ground arith

  -- A token that was consumed is never consumed again: not by its owner and not by another user, at
  -- any later time. The call gives nothing and changes nothing.
  pub consume-once :
      (token : Text) (owner other now later : ℕ) (rows after : List ConfirmationRow)
      (a : ConfirmationAction Payload)
      → consume digest loads token owner now rows ≡ (ok (some a), after)
      → consume digest loads token other later after ≡ (ok none, after)
  unfolding consume is_authentic
  consume-once token owner other now later rows after a h =
      let (res, granted, _, _) = consume-resolve token owner now rows after a h in
      let w = resolve-Resolved token owner ConfirmationOutcome.confirmed now rows after res (
        resolve-Granted digest loads token owner ConfirmationOutcome.confirmed now rows after res
          granted) in
      elim (Bool-cases (owner == other)) [
        | inl e ↦
            let same : owner ≡ other = ground arith in
            rw
              (
                ← same,
                again_read token owner ConfirmationOutcome.confirmed ConfirmationOutcome.confirmed
                    later after res w,
              )
              refl
        | inr e ↦
            let mine : ((w.row).owner_user_id == owner) ≡ true = ground (arith, w.mine) in
            rw
              (foreign_read token owner other ConfirmationOutcome.confirmed later after w.row
                w.found mine e)
              refl
      ]

  created :
      (dumps : Payload → Text) (owner ttl now : ℕ) (action_type token t : Text) (payload : Payload)
      (rows after : List ConfirmationRow)
      → create digest dumps owner action_type payload token ttl now rows ≡ (ok t, after)
      → (t ≡ token)
        × (any (has_token token) (drop_expired owner now rows) ≡ false)
        × (after
            ≡ drop_expired owner now rows
              ++ new_row digest token owner action_type (dumps payload) now ttl ∷ [])
  unfolding create
  created dumps owner ttl now action_type token t payload rows after h =
      elim (Bool-cases (owner == 0 || is_blank action_type)) [
        | inl e ↦ cc (rw (e, create) at h)
        | inr e ↦ elim (Bool-cases (any (has_token token) (drop_expired owner now rows))) [
          | inl f ↦ cc (rw (e, create, f) at h)
          | inr f ↦ let k = rw (e, create, f) at h in (cc k, f, cc k)
        ]
      ]

  stands :
      (dumps : Payload → Text) (owner ttl now : ℕ) (action_type token t : Text) (payload : Payload)
      (rows after : List ConfirmationRow)
      → create digest dumps owner action_type payload token ttl now rows ≡ (ok t, after)
      → find (has_token token) after
        ≡ some (new_row digest token owner action_type (dumps payload) now ttl)
  stands dumps owner ttl now action_type token t payload rows after h =
      let (_, fresh, made) = created dumps owner ttl now action_type token t payload rows after h in
      rw made (
        find-append (has_token token) (drop_expired owner now rows) _
          (find-none (has_token token) (drop_expired owner now rows) fresh) (text_eq_refl token))

  -- A confirmation that was created, where the decoder of JSON takes back what the encoder wrote, is
  -- resolved by its owner before its time to live is over: the call gives the action with its payload,
  -- as the first resolution. After that time it gives nothing, and it gives another user nothing.
  pub create-resolve :
      (dumps : Payload → Text) (owner other ttl now later : ℕ) (outcome : ConfirmationOutcome)
      (action_type token t : Text) (payload : Payload) (rows after : List ConfirmationRow)
      → loads (dumps payload) ≡ ok payload
      → (owner == other) ≡ false
      → create digest dumps owner action_type payload token ttl now rows ≡ (ok t, after)
      → (t ≡ token)
        × ((resolve digest loads token owner outcome later after).0
            ≡ ok (
                if leb (now + ttl * 1_000_000) later
                then none
                else some (record {
                  action = record { token = token; action_type = action_type; payload = payload };
                  outcome = outcome;
                  first_resolution = true;
                })))
        × (resolve digest loads token other outcome later after ≡ (ok none, after))
  unfolding resolve resolve_read resolve_found is_authentic
  create-resolve dumps owner other ttl now later outcome action_type token t payload rows after
        decodes apart h =
      let found = stands dumps owner ttl now action_type token t payload rows after h in
      let first = created dumps owner ttl now action_type token t payload rows after h in
      (
        first.0,
        rw (found, ==-refl owner, text_eq_refl (digest owner action_type (dumps payload)), decodes)
            (granted_first owner ttl now later outcome action_type token payload (dumps payload)
              after),
        foreign_read token owner other outcome later after _ found (==-refl owner) apart,
      )
    where
      granted_first :
          (owner ttl now later : ℕ) (outcome : ConfirmationOutcome) (action_type token : Text)
          (payload : Payload) (json : Text) (after : List ConfirmationRow)
          → ◌≡◌ {A = Outcome (Option (ConfirmationResolution Payload))}
              (ok
                (resolve_found token outcome later
                  (new_row digest token owner action_type json now ttl)
                  payload
                  none
                  after).0)
              (ok (
                if leb (now + ttl * 1_000_000) later
                then none
                else some (record {
                  action = record { token = token; action_type = action_type; payload = payload };
                  outcome = outcome;
                  first_resolution = true;
                })))
      granted_first owner ttl now later outcome action_type token payload json after =
          elim (Bool-cases (leb (now + ttl * 1_000_000) later)) [
            | inl e ↦ rw e refl
            | inr e ↦ rw e refl
          ]
