-- ===== src/Reminder/Delivery/Sent.antt =====
-- `mark_delivery_sent`: a delivery is committed once, under one message id; after a reset it is only
-- recorded for audit.
use lenko_bot.Prelude.{
  ap, ℕ, ◌≡◌, ◌≢◌, refl, ◌∙◌, true, false, ◌&&◌, inl, inr, arith, any, Option, none, some, ok, err,
  Bool, runtime_error, Bool-cases, Option-cases, ◌==◌, ==-refl, if◌then◌else◌, List, [], ◌∷◌, ◌++◌,
}
use lenko_bot.Prelude.Table.{find-update}
use lenko_bot.Reminder.Types.{OutboxEntry, OutboxStatus, DeliveryLease, DeliveryAudit}
use lenko_bot.Reminder.Store.{Store, entry_by_id, is_current, is_leased, is_equal, profile_by_id}
use lenko_bot.Reminder.Store.Laws.{
  transaction-ok, transaction-eq-ok, transaction-err, entry_by_id-id, is_current-profiles,
}
use lenko_bot.Reminder.Delivery.{
  holds_lease, commit_sent, confirm_sent, mark_held, mark_body, mark_delivery_sent,
  record_external_commit,
}

-- The entry of the lease is sent under this message id, and the lease still holds.
pub record IsCommitted (lease : DeliveryLease) (message_id : ℕ) (st : Store) : Type 0 where
  pub row : OutboxEntry
  pub found : entry_by_id st lease.outbox_id ≡ some row
  pub sent : row.status ≡ OutboxStatus.sent
  pub under : row.telegram_message_id ≡ some message_id
  pub held : holds_lease lease st row ≡ true

abbrev sent_entry : ℕ → ℕ → OutboxEntry → OutboxEntry
sent_entry message_id now o = record o {
  status = OutboxStatus.sent;
  telegram_message_id = some message_id;
  lease_until = none;
  updated_at = now;
}

held_parts :
    (lease : DeliveryLease) (st : Store) (o : OutboxEntry)
    → holds_lease lease st o ≡ true
    → (is_equal o.lease_token lease.lease_token ≡ true)
      × (is_current st lease.owner_user_id lease.lifecycle_epoch ≡ true)
unfolding holds_lease
held_parts lease st o h = ground arith

held_after :
    (lease : DeliveryLease) (message_id now : ℕ) (st : Store) (o : OutboxEntry)
    → holds_lease lease st o ≡ true
    → holds_lease lease (commit_sent lease message_id now st) (sent_entry message_id now o) ≡ true
unfolding holds_lease commit_sent is_current profile_by_id
held_after lease message_id now st o h = h

found_after :
    (lease : DeliveryLease) (message_id now : ℕ) (st : Store) (o : OutboxEntry)
    → entry_by_id st lease.outbox_id ≡ some o
    → (o.id == lease.outbox_id) ≡ true
    → is_equal o.lease_token lease.lease_token ≡ true
    → o.status ≡ OutboxStatus.leased
    → entry_by_id (commit_sent lease message_id now st) lease.outbox_id
      ≡ some (sent_entry message_id now o)
unfolding entry_by_id commit_sent
found_after lease message_id now st o h i t s =
    let picked : (o.id == lease.outbox_id
          && is_equal o.lease_token lease.lease_token
          && is_leased o.status)
        ≡ true =
      rw (i, t, s) refl in
    find-update (λ q. q.id == lease.outbox_id)
      (λ q.
        q.id == lease.outbox_id && is_equal q.lease_token lease.lease_token && is_leased q.status)
      (sent_entry message_id now) st.outbox o (λ q. refl) h
    ∙ rw picked refl

confirmed :
    (id : Option ℕ) (message_id : ℕ) (st after : Store)
    → confirm_sent id message_id st ≡ ok (true, after)
    → (st ≡ after) × (id ≡ some message_id)
unfolding confirm_sent
confirmed none message_id st after h = cc
confirmed (some m) message_id st after h = ground arith

mark_held-IsCommitted :
    (lease : DeliveryLease) (message_id now : ℕ) (st after : Store) (o : OutboxEntry)
    (s : OutboxStatus)
    → o.status ≡ s
    → entry_by_id st lease.outbox_id ≡ some o
    → holds_lease lease st o ≡ true
    → mark_held lease message_id now o s st ≡ ok (true, after)
    → IsCommitted lease message_id after
unfolding mark_held
mark_held-IsCommitted lease message_id now st after o OutboxStatus.sent e f held h =
    let (same, under) = confirmed o.telegram_message_id message_id st after h in
    rw (← same) (record { row = o; found = f; sent = e; under = under; held = held })
mark_held-IsCommitted lease message_id now st after o OutboxStatus.leased e f held h =
    let same : commit_sent lease message_id now st ≡ after = cc in
    rw (← same) (record {
      row = sent_entry message_id now o;
      found =
          found_after lease message_id now st o f (entry_by_id-id st lease.outbox_id o f)
            (held_parts lease st o held).0 e;
      sent = refl;
      under = refl;
      held = held_after lease message_id now st o held;
    })
mark_held-IsCommitted lease message_id now st after o _ e f held h = cc

mark_body-IsCommitted :
    (lease : DeliveryLease) (message_id now : ℕ) (st after : Store)
    → mark_body lease message_id now st ≡ ok (true, after)
    → IsCommitted lease message_id after
unfolding mark_body
mark_body-IsCommitted lease message_id now st after h =
    elim (Option-cases (entry_by_id st lease.outbox_id)) [
      | inl e ↦ cc (rw (e, mark_body) at h)
      | inr (o, e) ↦ elim (Bool-cases (holds_lease lease st o)) [
        | inl held ↦
            mark_held-IsCommitted lease message_id now st after o o.status refl e held
              (rw (e, mark_body, held) at h)
        | inr lost ↦ cc (rw (e, mark_body, lost) at h)
      ]
    ]

-- A delivery that was marked sent is committed: its entry is sent under the message id.
pub mark_delivery_sent-IsCommitted :
    (lease : DeliveryLease) (message_id now : ℕ) (st after : Store)
    → mark_delivery_sent lease message_id now st ≡ (ok true, after)
    → (message_id ≢ 0) × IsCommitted lease message_id after
unfolding mark_delivery_sent
mark_delivery_sent-IsCommitted lease message_id now st after h =
    elim (Bool-cases (message_id == 0)) [
      | inl z ↦ cc (rw (z, mark_delivery_sent) at h)
      | inr z ↦
          let body =
            transaction-eq-ok (mark_body lease message_id now) st true after
              (rw (z, mark_delivery_sent) at h) in
          (λ e. cc (z, ==-refl 0, e), mark_body-IsCommitted lease message_id now st after body)
    ]

mark_committed :
    (lease : DeliveryLease) (message_id m now : ℕ) (st : Store)
    → IsCommitted lease message_id st
    → mark_body lease m now st ≡ confirm_sent (some message_id) m st
unfolding mark_body mark_held
mark_committed lease message_id m now st w =
    rw (w.found, mark_body, w.held, w.sent, mark_held, w.under) refl

-- Once a delivery is committed, marking it sent again under the same message id succeeds and changes
-- nothing, at any later time; under another one it raises RuntimeError and changes nothing.
pub mark_delivery_sent-once :
    (lease : DeliveryLease) (message_id now later m : ℕ) (st after : Store)
    → mark_delivery_sent lease message_id now st ≡ (ok true, after)
    → m ≢ 0
    → mark_delivery_sent lease m later after
      ≡ (if message_id == m then (ok true, after) else (err runtime_error, after))
unfolding mark_delivery_sent confirm_sent
mark_delivery_sent-once lease message_id now later m st after h pos =
    let (_, w) = mark_delivery_sent-IsCommitted lease message_id now st after h in
    let positive : (m == 0) ≡ false = ground arith in
    elim (Bool-cases (message_id == m)) [
      | inl e ↦
          rw (positive, e)
            (transaction-ok (mark_body lease m later) after true after
              (mark_committed lease message_id m later after w ∙ rw (e, confirm_sent) refl))
      | inr e ↦
          rw (positive, e)
            (transaction-err (mark_body lease m later) after runtime_error
              (mark_committed lease message_id m later after w ∙ rw (e, confirm_sent) refl))
    ]

mark_stale :
    (lease : DeliveryLease) (message_id now : ℕ) (st : Store)
    → is_current st lease.owner_user_id lease.lifecycle_epoch ≡ false
    → mark_body lease message_id now st ≡ ok (false, record_external_commit lease now st)
unfolding mark_body holds_lease
mark_stale lease message_id now st h = elim (Option-cases (entry_by_id st lease.outbox_id)) [
  | inl e ↦ rw (e, mark_body) refl
  | inr (o, e) ↦ rw (e, mark_body) (ground arith)
]

any-append :
    (p : DeliveryAudit → Bool) (xs : List DeliveryAudit) (a : DeliveryAudit)
    → p a ≡ true
    → any p (xs ++ a ∷ []) ≡ true
any-append p [] a h = rw h refl
any-append p (x ∷ xs) a h = rw (any-append p xs a h) (ground arith)

-- The audit table has a row with the lease's token.
abbrev pub is_audited : DeliveryLease → Store → Bool
is_audited lease st = any (λ a. a.delivery_token == lease.lease_token) st.audits

recorded :
    (lease : DeliveryLease) (now : ℕ) (st : Store)
    → let after = record_external_commit lease now st in
      (is_audited lease after ≡ true)
      × (after.outbox ≡ st.outbox)
      × (after.runs ≡ st.runs)
      × (after.profiles ≡ st.profiles)
unfolding record_external_commit
recorded lease now st = elim (Bool-cases (is_audited lease st)) [
  | inl e ↦ rw e (e, refl, refl, refl)
  | inr e ↦ rw e (any-append _ st.audits _ (==-refl lease.lease_token), refl, refl, refl)
]

audited_again :
    (lease : DeliveryLease) (now : ℕ) (st : Store)
    → is_audited lease st ≡ true
    → record_external_commit lease now st ≡ st
unfolding record_external_commit
audited_again lease now st h = rw h refl

-- A message that was sent although its owner's profile was reset meanwhile (or is being reset): the
-- call returns False, leaves the outbox and the runs alone, and records the delivery's token in the
-- audit table; a later call records nothing more.
pub mark_delivery_sent_after_reset :
    (lease : DeliveryLease) (message_id now later : ℕ) (st : Store)
    → message_id ≢ 0
    → is_current st lease.owner_user_id lease.lifecycle_epoch ≡ false
    → (after : Store) × (mark_delivery_sent lease message_id now st ≡ (ok false, after))
      × (after.outbox ≡ st.outbox)
      × (after.runs ≡ st.runs)
      × (is_audited lease after ≡ true)
      × (mark_delivery_sent lease message_id later after ≡ (ok false, after))
unfolding mark_delivery_sent
mark_delivery_sent_after_reset lease message_id now later st pos stale =
    let after : Store = record_external_commit lease now st in
    let positive : (message_id == 0) ≡ false = ground arith in
    let (audited, outbox, runs, profiles) = recorded lease now st in
    (
      after,
      rw positive (
          transaction-ok (mark_body lease message_id now) st false after
            (mark_stale lease message_id now st stale)),
      outbox,
      runs,
      audited,
      rw positive (
          transaction-ok (mark_body lease message_id later) after false after (
            mark_stale lease message_id later after (
              is_current-profiles st after lease.owner_user_id lease.lifecycle_epoch profiles
              ∙ stale)
            ∙ ap (λ (s : Store). ok (false, s)) (audited_again lease later after audited))),
    )
