-- ===== src/Prelude/Json.antt =====
-- A stored JSON column (json.RawMessage) as its reader sees it: no bytes, bytes that
-- json.Unmarshal refuses, or a document of the type that it is decoded into.
use fleetplane.Prelude.Outcome.{Outcome, ok, err, malformed}

pub data Json {ℓ} (A : Type ℓ) : Type ℓ where
  blank : Json A
  garbage : Json A
  doc : A → Json A

-- json.Unmarshal, which refuses an empty input.
abbrev pub unmarshal {ℓ} : {A : Type ℓ} → Json A → Outcome A
unmarshal blank = err malformed
unmarshal garbage = err malformed
unmarshal (doc a) = ok a

-- The idiom `if len(raw) == 0 { return zero }` before json.Unmarshal.
abbrev pub unmarshal_or {ℓ} : {A : Type ℓ} → A → Json A → Outcome A
unmarshal_or zero_value blank = ok zero_value
unmarshal_or zero_value garbage = err malformed
unmarshal_or zero_value (doc a) = ok a
