-- ===== src/Schedule/Zone/Laws.antt =====
-- `resolve_local_time` against the instants that a zone gives to a wall time.
use lenko_bot.Prelude.{
  ℕ, ◌≡◌, ◌≢◌, refl, Bool, true, false, ◌⊎◌, inl, inr, arith, ok, err, nonexistent, ambiguous, ◌∙◌,
  sym, ◌↔◌, subst,
}
use lenko_bot.Calendar.{LocalTime, local_eq}
use lenko_bot.Calendar.Order.{local_eq_sound, local_eq_refl}
use lenko_bot.Schedule.Zone.{Zone, resolve_in_zone}

-- The instant u shows the wall time t in the zone, under one of the two readings of t.
pub record Shows (z : Zone) (t : LocalTime) (u : ℕ) : Type 0 where
  pub reading : Bool
  pub instant : z.to_utc reading t ≡ u
  pub wall : z.from_utc u ≡ t

tests :
    (z : Zone) (t : LocalTime) (u : ℕ)
    → resolve_in_zone z t ≡ ok u
    → ((z.to_utc false t ≡ u) × (local_eq (z.from_utc (z.to_utc false t)) t ≡ true))
      ⊎ ((z.to_utc true t ≡ u) × (local_eq (z.from_utc (z.to_utc true t)) t ≡ true))
unfolding resolve_in_zone
tests z t u h = ground arith

unique :
    (z : Zone) (t : LocalTime) (u : ℕ) (fold : Bool)
    → resolve_in_zone z t ≡ ok u
    → local_eq (z.from_utc (z.to_utc fold t)) t ≡ true
    → z.to_utc fold t ≡ u
unfolding resolve_in_zone
unique z t u false h e = ground arith
unique z t u true h e = ground arith

-- A resolved time is an instant that shows the wall time, and the only one.
pub resolve_in_zone_unique :
    (z : Zone) (t : LocalTime) (u : ℕ)
    → resolve_in_zone z t ≡ ok u
    → Shows z t u × ((v : ℕ) → Shows z t v → v ≡ u)
resolve_in_zone_unique z t u h = (
  shown (tests z t u h),
  λ v s. sym s.instant ∙ unique z t u s.reading h (rw (s.instant, s.wall) (local_eq_refl t)),
)
  where
    shown :
        ((z.to_utc false t ≡ u) × (local_eq (z.from_utc (z.to_utc false t)) t ≡ true))
          ⊎ ((z.to_utc true t ≡ u) × (local_eq (z.from_utc (z.to_utc true t)) t ≡ true))
        → Shows z t u
    shown (inl (e, l)) = record {
      reading = false;
      instant = e;
      wall = local_eq_sound (z.from_utc u) t (rw (← e) l);
    }
    shown (inr (e, l)) = record {
      reading = true;
      instant = e;
      wall = local_eq_sound (z.from_utc u) t (rw (← e) l);
    }

no_reading :
    (z : Zone) (t : LocalTime) (fold : Bool)
    → resolve_in_zone z t ≡ err nonexistent
    → local_eq (z.from_utc (z.to_utc fold t)) t ≡ false
unfolding resolve_in_zone
no_reading z t false h = ground arith
no_reading z t true h = ground arith

two_readings :
    (z : Zone) (t : LocalTime)
    → resolve_in_zone z t ≡ err ambiguous
    → (local_eq (z.from_utc (z.to_utc false t)) t ≡ true)
      × (local_eq (z.from_utc (z.to_utc true t)) t ≡ true)
      × (z.to_utc false t ≢ z.to_utc true t)
unfolding resolve_in_zone
two_readings z t h = ground arith

-- The two refusals: no reading shows the wall time, or both do at different instants.
pub resolve_in_zone-nonexistent :
    (z : Zone) (t : LocalTime) → resolve_in_zone z t ≡ err nonexistent → (u : ℕ) → ¬ Shows z t u
resolve_in_zone-nonexistent z t h u s =
    let e : local_eq (z.from_utc (z.to_utc s.reading t)) t ≡ true =
      rw (s.instant, s.wall) (local_eq_refl t) in
    cc (no_reading z t s.reading h)

pub resolve_in_zone-ambiguous :
    (z : Zone) (t : LocalTime)
    → resolve_in_zone z t ≡ err ambiguous
    → Shows z t (z.to_utc false t)
      × Shows z t (z.to_utc true t)
      × (z.to_utc false t ≢ z.to_utc true t)
resolve_in_zone-ambiguous z t h =
    let (a, b, apart) = two_readings z t h in
    (
      record { reading = false; instant = refl; wall = local_eq_sound _ t a },
      record { reading = true; instant = refl; wall = local_eq_sound _ t b },
      apart,
    )

-- A wall time that resolves to u: the instants that show it in the zone, under one of the readings of
-- the wall time, are u and no other.
pub resolve_in_zone-only :
    (z : Zone) (t : LocalTime) (u v : ℕ) → resolve_in_zone z t ≡ ok u → Shows z t v ↔ (v ≡ u)
resolve_in_zone-only z t u v h =
    let (shown, others) = resolve_in_zone_unique z t u h in
    (others v, λ e. subst (Shows z t) (sym e) shown)
