-- ===== src/Reminder/Delivery/Retry.antt =====
-- `release_delivery`: a failed attempt gives its lease back, to be tried again after a delay or, after
-- the third attempt, never.
use lenko_bot.Prelude.{
  ℕ, ◌+◌, ◌*◌, ◌≤◌, ◌<◌, ◌≡◌, ◌≢◌, refl, List, [], ◌∷◌, true, false, ◌&&◌, ◌||◌, inl, inr, ◌⊎◌,
  arith, All, any, none, some, ok, Bool-cases, Option-cases, ltb, leb, ◌==◌, if◌then◌else◌,
}
use lenko_bot.Prelude.Table.{update}
use lenko_bot.Text.{Text}
use lenko_bot.Reminder.Types.{OutboxEntry, OutboxStatus, DeliveryLease}
use lenko_bot.Reminder.Store.{
  Store, is_current, is_leased, is_pending, is_at_most, micros_per_second, max_delivery_attempts,
}
use lenko_bot.Reminder.Store.Laws.{transaction-eq-ok}
use lenko_bot.Reminder.Delivery.{
  leased_row, give_back, release_body, release_delivery, is_error_kind, delivery_is_current,
  is_row_of, lease_delivery,
}
use lenko_bot.Reminder.Delivery.Exclusive.{Blocked, lease_delivery-Blocked}

-- How an entry stands after the attempt counted in `row` has failed.
pub record IsReleased (row : OutboxEntry) (kind : Text) (retry_at : ℕ) (o : OutboxEntry)
    : Type 0 where
  pub no_token : o.lease_token ≡ none
  pub no_end : o.lease_until ≡ none
  pub reason : o.error_kind ≡ some kind
  pub next :
      ((3 ≤ row.attempt) × (o.status ≡ OutboxStatus.failed) × (o.available_at ≡ row.available_at))
      ⊎ ((row.attempt < 3) × (o.status ≡ OutboxStatus.pending) × (o.available_at ≡ retry_at))

-- What is so of every entry that has this id.
abbrev pub AllWith : ℕ → (OutboxEntry → Type 0) → List OutboxEntry → Type 0
AllWith id P = All (λ o. o.id ≡ id → P o)

abbrev released_entry : OutboxEntry → Text → ℕ → ℕ → OutboxEntry → OutboxEntry
released_entry row kind retry_at now o =
    let terminal = leb max_delivery_attempts row.attempt in
    record o {
      status = if terminal then OutboxStatus.failed else OutboxStatus.pending;
      available_at = if terminal then row.available_at else retry_at;
      lease_token = none;
      lease_until = none;
      error_kind = some kind;
      updated_at = now;
    }

give_back-AllWith :
    (row : OutboxEntry) (kind : Text) (id retry_at now : ℕ) (os : List OutboxEntry)
    → AllWith id
        (IsReleased row kind retry_at)
        (update (λ o. o.id == id) (released_entry row kind retry_at now) os)
unfolding update
give_back-AllWith row kind id retry_at now [] = tt
give_back-AllWith row kind id retry_at now (o ∷ os) = elim (Bool-cases (o.id == id)) [
  | inl e ↦ rw e (
    λ _. record { no_token = refl; no_end = refl; reason = refl; next = ground arith },
    give_back-AllWith row kind id retry_at now os,
  )
  | inr e ↦ rw e (λ f. absurd (ground arith), give_back-AllWith row kind id retry_at now os)
]

release_body-split :
    (lease : DeliveryLease) (kind : Text) (retry_at now : ℕ) (st after : Store)
    → release_body lease kind retry_at now st ≡ ok (true, after)
    → (row : OutboxEntry) × (leased_row lease st ≡ some row)
      × (after ≡ give_back lease kind retry_at now row st)
unfolding release_body
release_body-split lease kind retry_at now st after h = elim (Option-cases (leased_row lease st)) [
  | inl e ↦ cc (rw (e, release_body) at h)
  | inr (row, e) ↦ elim (Bool-cases (is_current st row.owner_user_id lease.lifecycle_epoch)) [
    | inl t ↦ (row, e, cc (rw (e, release_body, t) at h))
    | inr f ↦ cc (rw (e, release_body, f) at h)
  ]
]

release_delivery-split :
    (lease : DeliveryLease) (kind : Text) (delay now : ℕ) (st after : Store)
    → release_delivery lease kind delay now st ≡ (ok true, after)
    → (is_error_kind kind ≡ true)
      × (1 ≤ delay)
      × (release_body lease kind (now + delay * micros_per_second) now st ≡ ok (true, after))
unfolding release_delivery
release_delivery-split lease kind delay now st after h = elim (Bool-cases (is_error_kind kind)) [
  | inr e ↦ cc (rw (e, release_delivery) at h)
  | inl e ↦ elim (Bool-cases (ltb delay 1 || ltb 3600 delay)) [
    | inl f ↦ cc (rw (e, release_delivery, f) at h)
    | inr f ↦ (
      e,
      ground arith,
      transaction-eq-ok (release_body lease kind (now + delay * micros_per_second) now) st true
          after (rw (e, release_delivery, f) at h),
    )
  ]
]

none_current :
    (lease : DeliveryLease) (st : Store) (row : OutboxEntry) (kind : Text) (retry_at : ℕ)
    (os : List OutboxEntry)
    → AllWith lease.outbox_id (IsReleased row kind retry_at) os
    → any (is_row_of lease st) os ≡ false
unfolding is_row_of
none_current lease st row kind retry_at [] w = refl
none_current lease st row kind retry_at (o ∷ os) w =
    rw (none_current lease st row kind retry_at os w.1)
      (elim (Bool-cases (o.id == lease.outbox_id)) [
        | inr e ↦ rw e refl
        | inl e ↦ let v = w.0 (ground arith) in rw (e, v.no_token) (ground arith)
      ])

-- A release that succeeds: the entry of the lease goes back to pending, available after the delay, or
-- to failed if this was the third attempt; either way it has no lease, and the delivery that was
-- leased is no longer current.
pub release_delivery-IsReleased :
    (lease : DeliveryLease) (kind : Text) (delay now : ℕ) (st after : Store)
    → release_delivery lease kind delay now st ≡ (ok true, after)
    → (row : OutboxEntry) × (leased_row lease st ≡ some row)
      × AllWith lease.outbox_id (IsReleased row kind (now + delay * micros_per_second)) after.outbox
      × (delivery_is_current lease after ≡ false)
unfolding give_back delivery_is_current
release_delivery-IsReleased lease kind delay now st after h =
    let (_, _, body) = release_delivery-split lease kind delay now st after h in
    let retry_at : ℕ = now + delay * micros_per_second in
    let (row, e, made) = release_body-split lease kind retry_at now st after body in
    let released : AllWith lease.outbox_id (IsReleased row kind retry_at) after.outbox =
      rw made (give_back-AllWith row kind lease.outbox_id retry_at now st.outbox) in
    (row, e, released, none_current lease after row kind retry_at after.outbox released)

released-Blocked :
    (row : OutboxEntry) (kind : Text) (id retry_at later : ℕ) (os : List OutboxEntry)
    → ((3 ≤ row.attempt) ⊎ (later < retry_at))
    → AllWith id (IsReleased row kind retry_at) os
    → All (Blocked id later) os
released-Blocked row kind id retry_at later [] t w = tt
released-Blocked row kind id retry_at later (o ∷ os) t w =
    (λ e. blocked (w.0 e), released-Blocked row kind id retry_at later os t w.1)
  where
    blocked :
        IsReleased row kind retry_at o
        → (leb o.available_at later
            && (is_pending o.status || (is_leased o.status && is_at_most o.lease_until later)))
          ≡ false
    blocked v = elim v.next [
      | inl (late, failed, _) ↦ rw failed (ground arith)
      | inr (early, pending, at) ↦ ground arith
    ]

-- After a release that succeeded, `lease_delivery` does not hand the entry out again before the delay
-- is over, and after the third attempt it never does.
pub release_delivery-waits :
    (lease next : DeliveryLease) (kind : Text) (row : OutboxEntry)
    (delay now seconds later token : ℕ) (st mid after : Store)
    → leased_row lease st ≡ some row
    → release_delivery lease kind delay now st ≡ (ok true, mid)
    → (3 ≤ row.attempt) ⊎ (later < now + delay * micros_per_second)
    → lease_delivery seconds later token mid ≡ (ok (some next), after)
    → next.outbox_id ≢ lease.outbox_id
release_delivery-waits lease next kind row delay now seconds later token st mid after picked h t k =
    let (row', e, released, _) = release_delivery-IsReleased lease kind delay now st mid h in
    let same : row' ≡ row = cc in
    lease_delivery-Blocked lease.outbox_id seconds later token mid next after
      (released-Blocked row' kind lease.outbox_id (now + delay * micros_per_second) later mid.outbox
        (rw same t) released)
      k
