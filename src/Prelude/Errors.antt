-- ===== src/Prelude/Errors.antt =====
-- Python's exceptions as values: a call ends with a result or raises one of the classes below.
-- `nonexistent` and `ambiguous` are the two kinds of `LocalTimeResolutionError`.
use mathlib.Core.Path.{◌≡◌, refl}
use mathlib.Core.Logic.{◌⊎◌, inl, inr}
use mathlib.Core.Bool.{Bool, true, false}
use mathlib.Core.Option.{Option, none, some}

pub data Error : Type 0 where
  value_error key_error permission_error runtime_error overflow_error integrity_error type_error :
      Error
  nonexistent ambiguous : Error
  out_of_fuel : Error

-- A call's end: the exception that it raised, or what it returned.
pub data Outcome {ℓ} (A : Type ℓ) : Type ℓ where
  err : Error → Outcome A
  ok : (returned : A) → Outcome A

-- `if b: raise e`
abbrev pub raise_if : Bool → Error → Outcome (Unit {0})
raise_if true e = err e
raise_if false e = ok tt

-- The statements after a call run if it returned.
infixl 5 ◌>>=◌
abbrev pub ◌>>=◌ {ℓ κ} : {A : Type ℓ} {B : Type κ} (call : Outcome A) → (A → Outcome B) → Outcome B
err e >>= next = err e
ok a >>= next = next a

infixl 5 ◌>>◌
abbrev pub ◌>>◌ {κ} : {B : Type κ} (check : Outcome (Unit {0})) → Outcome B → Outcome B
check >> rest = check >>= λ passed. rest

-- `if row is None: raise e`
abbrev pub or_raise {ℓ} : {A : Type ℓ} → Option A → Error → Outcome A
or_raise none e = err e
or_raise (some a) e = ok a

-- What returned from a call and the statements after it came from what the call returned.
pub >>=-eq-ok {ℓ κ} :
    {A : Type ℓ} {B : Type κ} {last : B} (call : Outcome A) (next : A → Outcome B)
    → (call >>= next) ≡ ok last
    → (first : A) × (call ≡ ok first) × (next first ≡ ok last)
>>=-eq-ok (err e) next h = cc
>>=-eq-ok (ok first) next h = (first, refl, h)

pub raise_if-eq-ok : (b : Bool) (e : Error) → raise_if b e ≡ ok tt → b ≡ false
raise_if-eq-ok true e h = cc
raise_if-eq-ok false e h = refl

pub Outcome-cases {ℓ} :
    {A : Type ℓ} (m : Outcome A) → ((a : A) × (m ≡ ok a)) ⊎ ((e : Error) × (m ≡ err e))
Outcome-cases (ok a) = inl (a, refl)
Outcome-cases (err e) = inr (e, refl)

-- A call that goes on past `if b: raise e` had b false.
pub raise_if-passed {ℓ} :
    {A : Type ℓ} (b : Bool) (e : Error) (k : Outcome A) {r : A}
    → (raise_if b e >> k) ≡ ok r
    → (b ≡ false) × (k ≡ ok r)
raise_if-passed true e k h = cc
raise_if-passed false e k h = (refl, h)

-- The same, handed to what is to be proved from it.
pub >>=-elim {ℓ κ μ} :
    {A : Type ℓ} {B : Type κ} {C : Type μ} (call : Outcome A) (next : A → Outcome B) (last : B)
    → (call >>= next) ≡ ok last
    → ((first : A) → call ≡ ok first → next first ≡ ok last → C)
    → C
>>=-elim (ok a) f b h use_it = use_it a refl h
>>=-elim (err e) f b h use_it = absurd (cc h)

pub or_raise-eq-ok {ℓ} :
    {A : Type ℓ} (o : Option A) (e : Error) (a : A) → or_raise o e ≡ ok a → o ≡ some a
or_raise-eq-ok none e a h = cc
or_raise-eq-ok (some b) e a h = cc
