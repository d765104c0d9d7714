-- ===== src/Worker/Deliver.antt =====
-- What a round of the worker does to the delivery that it picks.
use lenko_bot.Prelude.{
  ap, subst, ℕ, ◌≡◌, ◌≢◌, refl, sym, List, [], ◌∷◌, Bool, true, false, ◌||◌, inl, inr, arith,
  Option, none, some, ok, any, Bool-cases, Outcome-cases, ◌==◌, ==-refl, ltb,
}
use lenko_bot.Prelude.Table.{find, Distinct, find_sound, find-Distinct}
use lenko_bot.Reminder.Types.{OutboxEntry, OutboxStatus, DeliveryLease}
use lenko_bot.Reminder.Store.{Store, entry_by_id, is_current, is_leased, is_equal}
use lenko_bot.Reminder.Store.Laws.{transaction-ok}
use lenko_bot.Reminder.Delivery.{
  is_row_of, delivery_is_current, holds_lease, mark_held, mark_body, mark_delivery_sent,
  commit_sent, lease_delivery,
}
use lenko_bot.Reminder.Delivery.Sent.{
  IsCommitted, mark_delivery_sent-IsCommitted, mark_delivery_sent_after_reset, is_audited,
}
use lenko_bot.Reminder.Invariant.Outbox.{OutboxOk, lease_delivery-OutboxOk}
use lenko_bot.Confirmation.{ConfirmationRow}
use lenko_bot.Worker.{
  Sent, handle, sending, is_quiesced, pick_of, pick, message_of, settle, go_on, run_once, Button,
  Setup, Draws, Tables, buttons_of,
}

any-find {ℓ} :
    {A : Type ℓ} (p : A → Bool) (xs : List A) → any p xs ≡ true → (a : A) × (find p xs ≡ some a)
unfolding find
any-find p [] h = cc
any-find p (x ∷ xs) h = elim (Bool-cases (p x)) [
  | inl e ↦ (x, rw e refl)
  | inr e ↦ rw e (any-find p xs (rw (e, ◌||◌) at h))
]

-- The parts of `is_row_of`.
row_parts :
    (lease : DeliveryLease) (st : Store) (o : OutboxEntry)
    → is_row_of lease st o ≡ true
    → (o.id ≡ lease.outbox_id) × (o.status ≡ OutboxStatus.leased) × (holds_lease lease st o ≡ true)
unfolding is_row_of holds_lease
row_parts lease st o h =
    let same_id : o.id ≡ lease.outbox_id = ground arith in
    let same_owner : o.owner_user_id ≡ lease.owner_user_id = ground arith in
    let same_epoch : o.lifecycle_epoch ≡ lease.lifecycle_epoch = ground arith in
    let token : is_equal o.lease_token lease.lease_token ≡ true = ground arith in
    let current : is_current st o.owner_user_id o.lifecycle_epoch ≡ true = ground arith in
    let status : is_leased o.status ≡ true = ground arith in
    (
      same_id,
      leased_only o.status status,
      rw (same_owner, same_epoch, token, ==-refl lease.owner_user_id, ==-refl lease.lifecycle_epoch)
          (rw (same_owner, same_epoch) at current),
    )
  where
    leased_only : (s : OutboxStatus) → is_leased s ≡ true → s ≡ OutboxStatus.leased
    leased_only OutboxStatus.leased h = refl
    leased_only OutboxStatus.pending h = cc
    leased_only OutboxStatus.sent h = cc
    leased_only OutboxStatus.failed h = cc
    leased_only OutboxStatus.cancelled h = cc

-- With ids of entries that occur once: a delivery that is current can be marked sent under a message
-- id, at any time, and is committed then.
pub mark_delivery_sent-current :
    (lease : DeliveryLease) (message_id now : ℕ) (st : Store)
    → Distinct (λ o. o.id) st.outbox
    → message_id ≢ 0
    → delivery_is_current lease st ≡ true
    → mark_delivery_sent lease message_id now st ≡ (ok true, commit_sent lease message_id now st)
unfolding mark_delivery_sent delivery_is_current mark_body mark_held entry_by_id
mark_delivery_sent-current lease message_id now st d pos h =
    let (o, found) = any-find (is_row_of lease st) st.outbox h in
    let (same, status, held) =
      row_parts lease st o (find_sound (is_row_of lease st) st.outbox o found) in
    let at_id =
      subst (λ n. find (λ q. q.id == n) st.outbox ≡ some o) same
        (find-Distinct (λ q. q.id) (is_row_of lease st) st.outbox o d found) in
    let positive : (message_id == 0) ≡ false = ground arith in
    rw positive (
      transaction-ok (mark_body lease message_id now) st true (commit_sent lease message_id now st)
        (rw (at_id, mark_body, held, status, mark_held) refl))

picked_current :
    (epochs : List (ℕ × ℕ)) (found : Option DeliveryLease) (st : Store) (lease : DeliveryLease)
    → pick_of epochs found st ≡ sending lease
    → (found ≡ some lease)
      × (is_quiesced epochs lease ≡ false)
      × (delivery_is_current lease st ≡ true)
unfolding pick_of
picked_current epochs none st lease h = cc
picked_current epochs (some l) st lease h = elim (Bool-cases (is_quiesced epochs l)) [
  | inl e ↦ cc (rw (e, pick_of) at h)
  | inr e ↦ elim (Bool-cases (delivery_is_current l st)) [
    | inr f ↦ cc (rw (e, pick_of, f) at h)
    | inl f ↦
        let same : l ≡ lease = cc (rw (e, pick_of, f) at h) in
        (ap some same, rw (← same) e, rw (← same) f)
  ]
]

pick-sending :
    (epochs : List (ℕ × ℕ)) (now token : ℕ) (st mid : Store) (lease : DeliveryLease)
    → pick epochs now token st ≡ (ok (sending lease), mid)
    → (mid ≡ (lease_delivery 60 now token st).1)
      × (is_quiesced epochs lease ≡ false)
      × (delivery_is_current lease mid ≡ true)
unfolding pick
pick-sending epochs now token st mid lease h =
    elim (Outcome-cases (lease_delivery 60 now token st).0) [
      | inr (bad, e) ↦ cc (rw (e, pick) at h)
      | inl (found, e) ↦
          let k = rw (e, pick) at h in
          let same : (lease_delivery 60 now token st).1 ≡ mid = cc in
          let w = picked_current epochs found (lease_delivery 60 now token st).1 lease (cc k) in
          (sym same, w.1, rw (← same) w.2)
    ]

handed :
    (lease : DeliveryLease) (message_id : ℕ)
    → ltb message_id 1 ≡ false
    → message_of lease (handle lease.chat_id message_id) ≡ some message_id
unfolding message_of
handed lease message_id positive = rw (==-refl lease.chat_id) (rw positive refl)

-- The tables when the message goes out.
abbrev pub at_send : Setup → Draws → DeliveryLease → List ConfirmationRow → Store → Tables
at_send setup draws lease rows mid = record {
  store = mid;
  confirmations = (buttons_of setup draws lease rows).1;
}

module _ (setup : Setup) (epochs : List (ℕ × ℕ)) (draws : Draws)
    (send : DeliveryLease → List Button → Sent) (now token later message_id : ℕ) (tables : Tables)
    (mid : Store) (lease : DeliveryLease)
    (picked : pick epochs now token tables.store ≡ (ok (sending lease), mid))
    (sent : send lease (buttons_of setup draws lease tables.confirmations).0
      ≡ handle lease.chat_id message_id)
    (pos : message_id ≢ 0) where
  -- The end of a round whose send gave a handle of the lease's chat.
  handed_over :
      (meanwhile : Tables → Tables) (after : Store) (r : Bool)
      → mark_delivery_sent lease message_id later
          (meanwhile (at_send setup draws lease tables.confirmations mid)).store
        ≡ (ok r, after)
      → run_once setup epochs draws send meanwhile now token later tables ≡ (
        ok true,
        record {
          store = after;
          confirmations =
              (meanwhile (at_send setup draws lease tables.confirmations mid)).confirmations;
        },
      )
  unfolding run_once go_on settle
  handed_over meanwhile after r marked =
      let positive : ltb message_id 1 ≡ false = ground arith in
      let left = meanwhile (at_send setup draws lease tables.confirmations mid) in
      let rest : go_on setup draws send meanwhile later tables.confirmations
            (ok (sending lease), mid)
          ≡ (ok true, record { store = after; confirmations = left.confirmations }) =
        rw (sent, settle, handed lease message_id positive, marked) refl in
      subst
        (λ p.
          go_on setup draws send meanwhile later tables.confirmations p
          ≡ (ok true, record { store = after; confirmations = left.confirmations }))
        (sym picked) rest

  -- From a well-formed outbox: a round that picks a delivery to send, in which nothing else changes the
  -- tables while it is sent and Telegram gives a handle of its chat, succeeds and leaves the delivery
  -- committed under that message, with the confirmations that its buttons asked for. The delivery's
  -- owner and epoch were not quiesced.
  pub run_once-delivers :
      OutboxOk (tables.store).outbox
      → (is_quiesced epochs lease ≡ false)
        × (run_once setup epochs draws send (λ s. s) now token later tables ≡ (
          ok true,
          record {
            store = commit_sent lease message_id later mid;
            confirmations = (buttons_of setup draws lease tables.confirmations).1;
          },
        ))
        × IsCommitted lease message_id (commit_sent lease message_id later mid)
  run_once-delivers v =
      let (same, open_, current) = pick-sending epochs now token tables.store mid lease picked in
      let sound = lease_delivery-OutboxOk 60 now token tables.store v in
      let marked =
        mark_delivery_sent-current lease message_id later mid (rw same sound.1) pos current in
      (
        open_,
        handed_over (λ s. s) (commit_sent lease message_id later mid) true marked,
        (mark_delivery_sent-IsCommitted lease message_id later mid
            (commit_sent lease message_id later mid) marked).1,
      )

  -- A reminder whose owner's profile is reset while it is sent: although Telegram gave a handle, the
  -- round leaves the outbox and the runs as the reset left them, and the token of the delivery stands in
  -- the audit table.
  pub run_once-reset :
      (meanwhile : Tables → Tables)
      → is_current
          (meanwhile (at_send setup draws lease tables.confirmations mid)).store
          lease.owner_user_id
          lease.lifecycle_epoch
        ≡ false
      → (after : Tables) × (run_once setup epochs draws send meanwhile now token later tables
          ≡ (ok true, after))
        × ((after.store).outbox
            ≡ ((meanwhile (at_send setup draws lease tables.confirmations mid)).store).outbox)
        × ((after.store).runs
            ≡ ((meanwhile (at_send setup draws lease tables.confirmations mid)).store).runs)
        × (is_audited lease after.store ≡ true)
  run_once-reset meanwhile stale =
      let left = meanwhile (at_send setup draws lease tables.confirmations mid) in
      let (after, marked, outbox, runs, audited, _) =
        mark_delivery_sent_after_reset lease message_id later later left.store pos stale in
      (
        record { store = after; confirmations = left.confirmations },
        handed_over meanwhile after false marked,
        outbox,
        runs,
        audited,
      )
