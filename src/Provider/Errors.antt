-- ===== src/Provider/Errors.antt =====
-- pkg/sdk/provider/errors.go: how the operation engine reads a failure.
use fleetplane.Prelude.{ℕ, Bool, Option, none, some, ltb, if◌then◌else◌, ◌==◌}

pub data ErrorClass : Type 0 where
  retryable rate_limited conflict not_found invalid quota terminal : ErrorClass

pub data SideEffect : Type 0 where
  unset effect_none effect_maybe : SideEffect

-- provider.Error. `retry_after` is in nanoseconds, 0 when unknown; the text is a number.
pub record ProviderError : Type 0 where
  pub class : ErrorClass
  pub side_effect : SideEffect
  pub retry_after : ℕ
  pub message : ℕ

-- An error value: one that `errors.As` finds a *provider.Error in, or any other.
pub data GoError : Type 0 where
  typed : ProviderError → GoError
  plain : ℕ → GoError

-- The order of the declaration of the classes, by which they are compared.
abbrev pub class_place : ErrorClass → ℕ
class_place retryable = 0
class_place rate_limited = 1
class_place conflict = 2
class_place not_found = 3
class_place invalid = 4
class_place quota = 5
class_place terminal = 6

abbrev pub class_eq : ErrorClass → ErrorClass → Bool
class_eq a b = class_place a == class_place b

unfoldable pub classify : GoError → ErrorClass
classify (typed e) = e.class
classify (plain m) = retryable

unfoldable pub is_class : GoError → ErrorClass → Bool
unfolding classify
is_class e c = class_eq (classify e) c

unfoldable pub effect_of : SideEffect → SideEffect
effect_of unset = effect_maybe
effect_of effect_none = effect_none
effect_of effect_maybe = effect_maybe

-- Anything not marked as without effect may have had one.
unfoldable pub effect : GoError → SideEffect
unfolding effect_of
effect (typed e) = effect_of e.side_effect
effect (plain m) = effect_maybe

unfoldable pub retry_after_of : GoError → Option ℕ
retry_after_of (typed e) = if ltb 0 e.retry_after then some e.retry_after else none
retry_after_of (plain m) = none

-- The text of an error.
abbrev pub message_of : GoError → ℕ
message_of (typed e) = e.message
message_of (plain m) = m
