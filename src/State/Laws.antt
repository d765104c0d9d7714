-- ===== src/State/Laws.antt =====
-- A transaction commits what its body returns, or leaves the state as it was.
use lenko_bot.Prelude.{◌≡◌, refl, Outcome, ok, err, Error, Outcome-cases, inl, inr}
use lenko_bot.State.{State, Body, transaction, ◌>=>◌}

module _ {A : Type 0} (body : Body A) (st : State) where
  pub transaction-eq-ok :
      (a : A) (after : State) → transaction body st ≡ (ok a, after) → body st ≡ ok (a, after)
  transaction-eq-ok a after h = elim (Outcome-cases (body st)) [
    | inl ((b, mid), e) ↦ cc (rw (e, transaction) at h)
    | inr (bad, e) ↦ cc (rw (e, transaction) at h)
  ]

  -- A transaction that raises has rolled back.
  pub transaction-rolls_back :
      (e : Error) (after : State) → transaction body st ≡ (err e, after) → after ≡ st
  transaction-rolls_back e after h = elim (Outcome-cases (body st)) [
    | inl ((b, mid), f) ↦ cc (rw (f, transaction) at h)
    | inr (bad, f) ↦ cc (rw (f, transaction) at h)
  ]

  pub transaction-keeps {κ} :
      (P : State → Type κ)
      → P st
      → ((a : A) (after : State) → body st ≡ ok (a, after) → P after)
      → P (transaction body st).1
  transaction-keeps P w keep = elim (Outcome-cases (body st)) [
    | inl ((a, after), e) ↦ rw (e, transaction) (keep a after e)
    | inr (bad, e) ↦ rw (e, transaction) w
  ]

-- What a call returned, and the statements after it that returned.
pub >=>-elim {κ} :
    {A B : Type 0} {C : Type κ} (call : Outcome A × State) (next : A → State → Outcome B × State)
    (b : B) (after : State)
    → (call >=> next) ≡ (ok b, after)
    → ((a : A) → call ≡ (ok a, call.1) → next a call.1 ≡ (ok b, after) → C)
    → C
>=>-elim (ok a, st) next b after h use_it = use_it a refl h
>=>-elim (err e, st) next b after h use_it = absurd (cc h)

pub >=>-keeps {κ} :
    {A B : Type 0} (P : State → Type κ) (call : Outcome A × State)
    (next : A → State → Outcome B × State)
    → P call.1
    → ((a : A) (st : State) → P st → P (next a st).1)
    → P (call >=> next).1
>=>-keeps P (ok a, st) next w keep = keep a st w
>=>-keeps P (err e, st) next w keep = w

-- Of a call and the statements after it, the one that raised.
pub >=>-raised {κ} :
    {A B : Type 0} {C : Type κ} (call : Outcome A × State) (next : A → State → Outcome B × State)
    (e : Error) (after : State)
    → (call >=> next) ≡ (err e, after)
    → (after ≡ call.1 → C)
    → ((a : A) → next a call.1 ≡ (err e, after) → C)
    → C
>=>-raised (ok a, st) next e after h first later = later a h
>=>-raised (err bad, st) next e after h first later = first (cc h)
