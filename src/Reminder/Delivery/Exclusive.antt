-- ===== src/Reminder/Delivery/Exclusive.antt =====
-- A leased entry is out of reach of every other worker until its lease ends.
use lenko_bot.Prelude.{
  ℕ, ◌+◌, ◌*◌, ◌≤◌, ◌<◌, ◌≡◌, ◌≢◌, refl, ap, List, [], ◌∷◌, Bool, true, false, ◌&&◌, ◌||◌, inl, inr,
  arith, All, any, some, ok, Bool-cases, leb, ◌==◌, ==-refl, ◌∙◌, sym,
}
use lenko_bot.Prelude.Table.{update}
use lenko_bot.Reminder.Types.{OutboxEntry, DeliveryLease, ReminderJob}
use lenko_bot.Reminder.Store.{
  Store, is_current, is_pending, is_leased, is_at_most, micros_per_second, profile_by_id,
}
use lenko_bot.Reminder.Delivery.{
  is_deliverable, earliest, claim, lease_from_row, cancel_entry, lease_entry, lease_delivery,
  delivery_is_current, is_row_of,
}
use lenko_bot.Reminder.Delivery.Lease.{
  lease_delivery-Handed, is_deliverable-open, earliest_sound, earliest-In, head_or_rest,
}

-- No worker may take the entry at this time.
abbrev pub Blocked : ℕ → ℕ → OutboxEntry → Type 0
Blocked id now o =
    o.id ≡ id
    → (leb o.available_at now
        && (is_pending o.status || (is_leased o.status && is_at_most o.lease_until now)))
      ≡ false

Blocked-cancel :
    (id now t : ℕ) (o : OutboxEntry) → Blocked id now o → Blocked id now (cancel_entry t o)
Blocked-cancel id now t o b e = ground arith

Blocked-not_deliverable :
    (id now : ℕ) (st : Store) (o : OutboxEntry)
    → Blocked id now o
    → is_deliverable st now o ≡ true
    → o.id ≢ id
unfolding is_deliverable
Blocked-not_deliverable id now st o b h e = ground (arith, b e)

pub lease_delivery-Blocked :
    (id seconds now token : ℕ) (st : Store) (lease : DeliveryLease) (after : Store)
    → All (Blocked id now) st.outbox
    → lease_delivery seconds now token st ≡ (ok (some lease), after)
    → lease.outbox_id ≢ id
unfolding lease_from_row
lease_delivery-Blocked id seconds now token st lease after w h e =
    let given =
      lease_delivery-Handed (Blocked id now) seconds now token (Blocked-cancel id now now) st lease
        after w h in
    Blocked-not_deliverable id now given.mid given.row
      (earliest-In (Blocked id now) (is_deliverable given.mid now) (given.mid).outbox given.row
        given.all given.picked)
      (earliest_sound (is_deliverable given.mid now) (given.mid).outbox given.row given.picked)
      (sym (ap (λ (l : DeliveryLease). l.outbox_id) given.lease_is) ∙ e)

claimed-Blocked :
    (id now token until t : ℕ) (os : List OutboxEntry)
    → t < until
    → All (Blocked id t) (update (λ o. o.id == id) (lease_entry now token until) os)
unfolding update
claimed-Blocked id now token until t [] h = tt
claimed-Blocked id now token until t (o ∷ os) h = elim (Bool-cases (o.id == id)) [
  | inl e ↦ rw e (λ _. ground arith, claimed-Blocked id now token until t os h)
  | inr e ↦ rw e (λ f. ground arith, claimed-Blocked id now token until t os h)
]

everything : (os : List OutboxEntry) → All (λ _. Unit {0}) os
everything [] = tt
everything (o ∷ os) = (tt, everything os)

-- A lease, followed at a time before its end by another call of `lease_delivery`: the second call does
-- not hand out the entry again.
pub lease_delivery-exclusive :
    (seconds now token seconds' later token' : ℕ) (st mid after : Store)
    (first second : DeliveryLease)
    → lease_delivery seconds now token st ≡ (ok (some first), mid)
    → later < first.lease_until
    → lease_delivery seconds' later token' mid ≡ (ok (some second), after)
    → second.outbox_id ≢ first.outbox_id
unfolding lease_from_row claim
lease_delivery-exclusive seconds now token seconds' later token' st mid after first second h before
      k =
    let until : ℕ = now + seconds * micros_per_second in
    let given =
      lease_delivery-Handed (λ _. Unit {0}) seconds now token (λ _ w. w) st first mid
        (everything st.outbox) h in
    let same : first.outbox_id ≡ (given.row).id =
      ap (λ (l : DeliveryLease). l.outbox_id) given.lease_is in
    let ends : first.lease_until ≡ until =
      ap (λ (l : DeliveryLease). l.lease_until) given.lease_is in
    lease_delivery-Blocked first.outbox_id seconds' later token' mid second after
      (rw (given.after_is, same)
        (claimed-Blocked (given.row).id now token until later (given.mid).outbox
          (rw (← ends) before)))
      k

-- The entry that was picked is in the outbox after the claim, as it was leased.
claimed-any :
    (p : OutboxEntry → Bool) (q : OutboxEntry → Bool) (now token until : ℕ) (os : List OutboxEntry)
    (o : OutboxEntry)
    → earliest p os ≡ some o
    → q (lease_entry now token until o) ≡ true
    → any q (update (λ r. r.id == o.id) (lease_entry now token until) os) ≡ true
unfolding update earliest
claimed-any p q now token until [] o h t = cc
claimed-any p q now token until (r ∷ os) o h t = elim (head_or_rest p r os o h) [
  | inl e ↦ rw e (rw (==-refl o.id) (rw t refl))
  | inr e ↦ rw (claimed-any p q now token until os o e t) (ground arith)
]

current_row :
    (st : Store) (o : OutboxEntry) (now token until : ℕ) (job : ReminderJob)
    → is_current st o.owner_user_id o.lifecycle_epoch ≡ true
    → is_row_of
        (lease_from_row o job token until)
        (claim o now token until st)
        (lease_entry now token until o)
      ≡ true
unfolding is_row_of lease_from_row claim is_current profile_by_id
current_row st o now token until job h =
    rw (==-refl o.id, ==-refl o.owner_user_id, ==-refl o.lifecycle_epoch, ==-refl token) h

-- A delivery that `lease_delivery` hands out is current right after: its entry is leased under the new
-- token, for an owner whose profile is active in the same epoch. It is one of three attempts at most,
-- and its lease ends after the given number of seconds.
pub lease_delivery-current :
    (seconds now token : ℕ) (st after : Store) (lease : DeliveryLease)
    → lease_delivery seconds now token st ≡ (ok (some lease), after)
    → (delivery_is_current lease after ≡ true)
      × (lease.lease_token ≡ token)
      × (lease.lease_until ≡ now + seconds * micros_per_second)
      × (1 ≤ lease.attempt)
      × (lease.attempt ≤ 3)
unfolding delivery_is_current lease_from_row claim
lease_delivery-current seconds now token st after lease h =
    let until : ℕ = now + seconds * micros_per_second in
    let given =
      lease_delivery-Handed (λ _. Unit {0}) seconds now token (λ _ w. w) st lease after
        (everything st.outbox) h in
    let fits =
      is_deliverable-open given.mid now given.row
        (earliest_sound (is_deliverable given.mid now) (given.mid).outbox given.row given.picked) in
    let same = given.lease_is in
    (
      rw (same, given.after_is)
          (claimed-any (is_deliverable given.mid now)
            (is_row_of (lease_from_row given.row given.job token until)
              (claim given.row now token until given.mid))
            now token until (given.mid).outbox given.row given.picked
            (current_row given.mid given.row now token until given.job fits.3)),
      ap (λ (l : DeliveryLease). l.lease_token) same,
      ap (λ (l : DeliveryLease). l.lease_until) same,
      rw same (omega arith),
      rw same (omega (arith, fits.1)),
    )
