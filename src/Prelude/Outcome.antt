-- ===== src/Prelude/Outcome.antt =====
-- The outcome of a fallible call: the errors that the callers tell apart by `errors.Is`
-- (internal/storage sentinels and the packages' own), and chaining.
use mathlib.Core.Path.{◌≡◌, refl}
use mathlib.Core.Bool.{Bool, true, false}
use mathlib.Core.Option.{Option, none, some}
use fleetplane.Prelude.Tests.{if◌then◌else◌}

pub data Error : Type 0 where
  not_found conflict stale insufficient park_unsupported no_capacity : Error
  idem_mismatch idem_in_flight invalid malformed unknown_provider unknown_class other : Error

pub data Outcome {ℓ} (A : Type ℓ) : Type ℓ where
  ok : A → Outcome A
  err : Error → Outcome A

-- `if !cond { return err }`.
abbrev pub guard : Bool → Error → Outcome (Unit {0})
guard false why = err why
guard true why = ok tt

abbrev pub or_fail {ℓ} : {A : Type ℓ} → Option A → Error → Outcome A
or_fail none e = err e
or_fail (some a) e = ok a

-- Chaining, for do blocks.
infixl 5 ◌>>=◌ ◌>>◌
abbrev pub ◌>>=◌ {μ ν} : {X : Type μ} {Y : Type ν} → Outcome X → (X → Outcome Y) → Outcome Y
err why >>= k = err why
ok x >>= k = k x

abbrev pub ◌>>◌ {ν} : {Y : Type ν} → Outcome (Unit {0}) → Outcome Y → Outcome Y
first >> rest = first >>= λ u. rest

-- A chain that succeeds succeeded in its first step.
pub >>=-eq-ok {μ ν} :
    {X : Type μ} {Y : Type ν} (first : Outcome X) (k : X → Outcome Y) {y : Y}
    → (first >>= k) ≡ ok y
    → (x : X) × (first ≡ ok x) × (k x ≡ ok y)
>>=-eq-ok (err why) k h = cc
>>=-eq-ok (ok x) k h = (x, refl, h)

-- What holds of the value of a call that succeeds.
abbrev pub OnOk {ℓ κ} : {A : Type ℓ} → (A → Type κ) → Outcome A → Type κ
OnOk P (ok a) = P a
OnOk P (err e) = Unit

pub OnOk-ok {ℓ κ} :
    {A : Type ℓ} (P : A → Type κ) (m : Outcome A) (a : A) → m ≡ ok a → OnOk P m → P a
OnOk-ok P m a e h = rw e at h

-- The rules for chains: an early return with an error, and a bind.
pub OnOk-guard {ℓ κ} :
    {A : Type ℓ} (P : A → Type κ) (b : Bool) (e : Error) (m : Outcome A)
    → (b ≡ false → OnOk P m)
    → OnOk P (if b then err e else m)
OnOk-guard P true e m h = tt
OnOk-guard P false e m h = h refl

pub OnOk-bind {ℓ κ μ ν} :
    {A : Type ℓ} {B : Type κ} (P : A → Type μ) (Q : B → Type ν) (m : Outcome A) (f : A → Outcome B)
    → OnOk P m
    → ((a : A) → m ≡ ok a → P a → OnOk Q (f a))
    → OnOk Q (m >>= f)
OnOk-bind P Q (ok a) f h k = k a refl h
OnOk-bind P Q (err e) f h k = tt

pub OnOk-and {ℓ κ μ} :
    {A : Type ℓ} (P : A → Type κ) (Q : A → Type μ) (m : Outcome A)
    → OnOk P m
    → OnOk Q m
    → OnOk (λ a. P a × Q a) m
OnOk-and P Q (ok a) h k = (h, k)
OnOk-and P Q (err e) h k = tt

pub OnOk-of {ℓ κ} :
    {A : Type ℓ} (P : A → Type κ) (m : Outcome A) → ((a : A) → m ≡ ok a → P a) → OnOk P m
OnOk-of P (ok a) h = h a refl
OnOk-of P (err e) h = tt

abbrev pub is_ok {ℓ} : {A : Type ℓ} → Outcome A → Bool
is_ok (ok a) = true
is_ok (err e) = false
