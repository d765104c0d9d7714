-- ===== src/Reminder/Invariant/Outbox.antt =====
-- The operations of the delivery worker keep the outbox well formed.
use lenko_bot.Prelude.{
  subst, ℕ, suc, ◌+◌, ◌*◌, ◌<◌, ◌≡◌, refl, List, [], ◌∷◌, Bool, true, false, ◌&&◌, ◌||◌, inl, inr,
  arith, All, Option, none, some, Outcome, ok, ltb, ◌==◌, Bool-cases, Option-cases, length,
}
use lenko_bot.Prelude.Table.{update, Distinct, update-All, find_sound}
use lenko_bot.Prelude.Table.Unique.{
  In, find-In, All-In, Distinct-only, update_row-All, Distinct-update,
}
use lenko_bot.Text.{Text}
use lenko_bot.Reminder.Types.{OutboxEntry, OutboxStatus, DeliveryLease}
use lenko_bot.Reminder.Store.{
  Store, is_current, entry_by_id, is_leased, is_equal, is_sent, is_open_entry, micros_per_second,
}
use lenko_bot.Reminder.Store.Laws.{transaction-keeps}
use lenko_bot.Reminder.Delivery.{
  is_deliverable, earliest, expire, claim, cancel_entry, lease_entry, lease_loop, lease_delivery,
  commit_sent, confirm_sent, mark_held, mark_body, mark_delivery_sent, record_external_commit,
  holds_lease, leased_row, give_back, release_body, release_delivery, is_error_kind,
}
use lenko_bot.Reminder.Delivery.Lease.{
  is_deliverable-open, earliest_sound, head_or_rest, lease_loop-keeps,
}
use lenko_bot.Reminder.Invariant.Entry.{
  IsSound, cancel_entry-IsSound, lease_entry-IsSound, give_back_entry, give_back_entry-IsSound,
  commit_entry, commit_entry-IsSound,
}

-- Every entry is well formed, and no id occurs twice.
abbrev pub OutboxOk : List OutboxEntry → Type 0
OutboxOk os = All IsSound os × Distinct (λ o. o.id) os

earliest-In_outbox :
    (p : OutboxEntry → Bool) (os : List OutboxEntry) (o : OutboxEntry)
    → earliest p os ≡ some o
    → In o os
unfolding earliest
earliest-In_outbox p [] o h = cc
earliest-In_outbox p (q ∷ os) o h = elim (head_or_rest p q os o h) [
  | inl e ↦ inl e
  | inr e ↦ inr (earliest-In_outbox p os o e)
]

-- An UPDATE by the id of an entry of the outbox.
update_entry-OutboxOk :
    (f : OutboxEntry → OutboxEntry) (os : List OutboxEntry) (o : OutboxEntry)
    → ((q : OutboxEntry) → (f q).id ≡ q.id)
    → In o os
    → OutboxOk os
    → IsSound (f o)
    → OutboxOk (update (λ q. q.id == o.id) f os)
update_entry-OutboxOk f os o keep i v sound = (
  update_row-All (λ q. q.id) IsSound f os o (Distinct-only (λ q. q.id) os o v.1 i) v.0 sound,
  Distinct-update (λ q. q.id) (λ q. q.id == o.id) f os keep v.1,
)

pub open-not_sent : (s : OutboxStatus) → is_open_entry s ≡ true → is_sent s ≡ false
open-not_sent s h = ground arith

picked :
    (st : Store) (now : ℕ) (o : OutboxEntry)
    → OutboxOk st.outbox
    → earliest (is_deliverable st now) st.outbox ≡ some o
    → In o st.outbox × IsSound o × (is_sent o.status ≡ false) × (o.attempt < 3)
picked st now o v e =
    let i = earliest-In_outbox (is_deliverable st now) st.outbox o e in
    let fits =
      is_deliverable-open st now o (earliest_sound (is_deliverable st now) st.outbox o e) in
    (i, All-In IsSound st.outbox o v.0 i, open-not_sent o.status fits.0, fits.1)

expire-OutboxOk :
    (now : ℕ) (st : Store) (o : OutboxEntry)
    → OutboxOk st.outbox
    → earliest (is_deliverable st now) st.outbox ≡ some o
    → OutboxOk (expire o now st).outbox
unfolding expire
expire-OutboxOk now st o v e =
    let (i, sound, unsent, _) = picked st now o v e in
    update_entry-OutboxOk (cancel_entry now) st.outbox o (λ q. refl) i v
      (cancel_entry-IsSound now o unsent sound)

claim-OutboxOk :
    (now token until : ℕ) (st : Store) (o : OutboxEntry)
    → OutboxOk st.outbox
    → earliest (is_deliverable st now) st.outbox ≡ some o
    → OutboxOk (claim o now token until st).outbox
unfolding claim
claim-OutboxOk now token until st o v e =
    let (i, sound, unsent, left) = picked st now o v e in
    update_entry-OutboxOk (lease_entry now token until) st.outbox o (λ q. refl) i v
      (lease_entry-IsSound now token until o unsent left sound)

pub lease_delivery-OutboxOk :
    (seconds now token : ℕ) (st : Store)
    → OutboxOk st.outbox
    → OutboxOk (lease_delivery seconds now token st).1.outbox
unfolding lease_delivery
lease_delivery-OutboxOk seconds now token st v =
    elim (Bool-cases (ltb seconds 1 || ltb 3600 seconds)) [
      | inl e ↦ rw (e, lease_delivery) v
      | inr e ↦
          rw (e, lease_delivery)
            (transaction-keeps (λ s. OutboxOk s.outbox)
              (lease_loop (suc (length st.outbox)) now token (now + seconds * micros_per_second)) st
              v
              (λ r after h.
                lease_loop-keeps (λ s. OutboxOk s.outbox) (suc (length st.outbox)) now token
                  (now + seconds * micros_per_second) st r after (λ s o. expire-OutboxOk now s o)
                  (λ s o. claim-OutboxOk now token (now + seconds * micros_per_second) s o) v h))
    ]

commit_sent-OutboxOk :
    (lease : DeliveryLease) (message_id now : ℕ) (st : Store)
    → OutboxOk st.outbox
    → OutboxOk (commit_sent lease message_id now st).outbox
unfolding commit_sent
commit_sent-OutboxOk lease message_id now st v = (
  update-All IsSound _ (commit_entry message_id now)
      (λ o _ s. commit_entry-IsSound message_id now o s) st.outbox v.0,
  Distinct-update (λ q. q.id) _ (commit_entry message_id now) st.outbox (λ q. refl) v.1,
)

record_external_commit-outbox :
    (lease : DeliveryLease) (now : ℕ) (st : Store)
    → (record_external_commit lease now st).outbox ≡ st.outbox
unfolding record_external_commit
record_external_commit-outbox lease now st = ground arith

confirm_sent-OutboxOk :
    (id : Option ℕ) (message_id : ℕ) (st after : Store) (r : Bool)
    → OutboxOk st.outbox
    → confirm_sent id message_id st ≡ ok (r, after)
    → OutboxOk after.outbox
unfolding confirm_sent
confirm_sent-OutboxOk none message_id st after r v h = cc
confirm_sent-OutboxOk (some m) message_id st after r v h = elim (Bool-cases (m == message_id)) [
  | inl e ↦ let same : st ≡ after = cc (rw (e, confirm_sent) at h) in rw (← same) v
  | inr e ↦ cc (rw (e, confirm_sent) at h)
]

recorded-OutboxOk :
    (lease : DeliveryLease) (now : ℕ) (st after : Store) (r : Bool)
    → OutboxOk st.outbox
    → ◌≡◌ {A = Outcome (Bool × Store)}
        (ok (false, record_external_commit lease now st))
        (ok (r, after))
    → OutboxOk after.outbox
recorded-OutboxOk lease now st after r v h =
    let same : record_external_commit lease now st ≡ after = cc in
    rw (← same, record_external_commit-outbox lease now st) v

mark_held-OutboxOk :
    (lease : DeliveryLease) (message_id now : ℕ) (o : OutboxEntry) (s : OutboxStatus)
    (st after : Store) (r : Bool)
    → OutboxOk st.outbox
    → mark_held lease message_id now o s st ≡ ok (r, after)
    → OutboxOk after.outbox
unfolding mark_held
mark_held-OutboxOk lease message_id now o OutboxStatus.sent st after r v h =
    confirm_sent-OutboxOk o.telegram_message_id message_id st after r v h
mark_held-OutboxOk lease message_id now o OutboxStatus.leased st after r v h =
    let same : commit_sent lease message_id now st ≡ after = cc in
    rw (← same) (commit_sent-OutboxOk lease message_id now st v)
mark_held-OutboxOk lease message_id now o _ st after r v h =
    recorded-OutboxOk lease now st after r v h

mark_body-OutboxOk :
    (lease : DeliveryLease) (message_id now : ℕ) (st after : Store) (r : Bool)
    → OutboxOk st.outbox
    → mark_body lease message_id now st ≡ ok (r, after)
    → OutboxOk after.outbox
unfolding mark_body
mark_body-OutboxOk lease message_id now st after r v h =
    elim (Option-cases (entry_by_id st lease.outbox_id)) [
      | inl e ↦ recorded-OutboxOk lease now st after r v (rw (e, mark_body) at h)
      | inr (o, e) ↦ elim (Bool-cases (holds_lease lease st o)) [
        | inl held ↦
            mark_held-OutboxOk lease message_id now o o.status st after r v
              (rw (e, mark_body, held) at h)
        | inr lost ↦ recorded-OutboxOk lease now st after r v (rw (e, mark_body, lost) at h)
      ]
    ]

pub mark_delivery_sent-OutboxOk :
    (lease : DeliveryLease) (message_id now : ℕ) (st : Store)
    → OutboxOk st.outbox
    → OutboxOk (mark_delivery_sent lease message_id now st).1.outbox
unfolding mark_delivery_sent
mark_delivery_sent-OutboxOk lease message_id now st v = elim (Bool-cases (message_id == 0)) [
  | inl e ↦ rw (e, mark_delivery_sent) v
  | inr e ↦
      rw (e, mark_delivery_sent)
        (transaction-keeps (λ s. OutboxOk s.outbox) (mark_body lease message_id now) st v
          (λ r after h. mark_body-OutboxOk lease message_id now st after r v h))
]

leased_row-parts :
    (lease : DeliveryLease) (st : Store) (o : OutboxEntry)
    → leased_row lease st ≡ some o
    → In o st.outbox × ((o.id == lease.outbox_id) ≡ true) × (is_sent o.status ≡ false)
unfolding leased_row
leased_row-parts lease st o h =
    let t =
      find_sound
        (λ q.
          q.id == lease.outbox_id && is_equal q.lease_token lease.lease_token && is_leased q.status)
        st.outbox o h in
    (find-In _ st.outbox o h, ground arith, ground arith)

give_back-OutboxOk :
    (lease : DeliveryLease) (kind : Text) (retry_at now : ℕ) (st : Store) (row : OutboxEntry)
    → OutboxOk st.outbox
    → leased_row lease st ≡ some row
    → OutboxOk (give_back lease kind retry_at now row st).outbox
unfolding give_back
give_back-OutboxOk lease kind retry_at now st row v h =
    let (i, same, unsent) = leased_row-parts lease st row h in
    let id : row.id ≡ lease.outbox_id = ground arith in
    subst
      (λ n. OutboxOk (update (λ q. q.id == n) (give_back_entry row kind retry_at now) st.outbox)) id
      (update_entry-OutboxOk (give_back_entry row kind retry_at now) st.outbox row (λ q. refl) i v
        (give_back_entry-IsSound row kind retry_at now row unsent refl
          (All-In IsSound st.outbox row v.0 i)))

release_body-OutboxOk :
    (lease : DeliveryLease) (kind : Text) (retry_at now : ℕ) (st after : Store) (r : Bool)
    → OutboxOk st.outbox
    → release_body lease kind retry_at now st ≡ ok (r, after)
    → OutboxOk after.outbox
unfolding release_body
release_body-OutboxOk lease kind retry_at now st after r v h =
    elim (Option-cases (leased_row lease st)) [
      | inl e ↦ let same : st ≡ after = cc (rw (e, release_body) at h) in rw (← same) v
      | inr (row, e) ↦ elim (Bool-cases (is_current st row.owner_user_id lease.lifecycle_epoch)) [
        | inl t ↦
            let same : give_back lease kind retry_at now row st ≡ after =
              cc (rw (e, release_body, t) at h) in
            rw (← same) (give_back-OutboxOk lease kind retry_at now st row v e)
        | inr f ↦ let same : st ≡ after = cc (rw (e, release_body, f) at h) in rw (← same) v
      ]
    ]

pub release_delivery-OutboxOk :
    (lease : DeliveryLease) (kind : Text) (delay now : ℕ) (st : Store)
    → OutboxOk st.outbox
    → OutboxOk (release_delivery lease kind delay now st).1.outbox
unfolding release_delivery
release_delivery-OutboxOk lease kind delay now st v = elim (Bool-cases (is_error_kind kind)) [
  | inr e ↦ rw (e, release_delivery) v
  | inl e ↦ elim (Bool-cases (ltb delay 1 || ltb 3600 delay)) [
    | inl f ↦ rw (e, release_delivery, f) v
    | inr f ↦
        rw (e, release_delivery, f)
          (transaction-keeps (λ s. OutboxOk s.outbox)
            (release_body lease kind (now + delay * micros_per_second) now) st v
            (λ r after h.
              release_body-OutboxOk lease kind (now + delay * micros_per_second) now st after r v
                h))
  ]
]
