-- ===== src/Examples/Paying.antt =====
-- The theorems on capacity, billing and phases at concrete values: an hourly increment.
use fleetplane.Prelude.{
  ℕ, ◌≡◌, ◌≢◌, ◌≤◌, ◌<◌, ◌+◌, ◌*◌, ◌/◌, max, ◌⊎◌, refl, true, false, some, List, [], ◌∷◌, All,
  arith,
}
use fleetplane.Prelude.Outcome.{ok}
use fleetplane.Prelude.Json.{Json}
use fleetplane.Prelude.Int64.{pos, sub64}
use fleetplane.Billing.{
  BillingPolicy, paid, next_boundary, ms, decide, window_before, effective_buffer, keep, crossed,
  adaptive_buffer,
}
use fleetplane.Billing.Paid.{paid_least}
use fleetplane.Billing.Boundary.{next_boundary_lem, elapsed}
use fleetplane.Billing.Termination.{window_hit}
use fleetplane.Billing.Percentile.{IsEnough, adaptive_buffer-least}
use fleetplane.Capacity.{Vector, fits, Parsed, parse_request}
use fleetplane.Capacity.Fit.{parse_request_lem, IsPositive, Requests}

abbrev hour : ℕ
hour = 3600000000000

abbrev hourly : BillingPolicy
hourly = record { minimum_duration = 0; billing_increment = hour; termination_buffer = 0 }

paid_least_example :
    (n : ℕ) × (paid 4000000000000 hourly ≡ max 0 (n * hour))
    × (0 < n)
    × (4000000000000 ≤ n * hour)
    × ((m : ℕ) → 0 < m → 4000000000000 ≤ m * hour → n ≤ m)
paid_least_example = paid_least 4000000000000 hourly (omega arith)

next_boundary_lem_example :
    (t : ℕ) × (next_boundary 1000 hourly 5000000 ≡ some (1000 + t / ms))
    × (elapsed 1000 5000000 < t)
    × (paid t hourly < paid (t + 1) hourly)
    × ((l : ℕ) → elapsed 1000 5000000 < l → l ≤ t → paid l hourly ≡ paid t hourly)
next_boundary_lem_example = next_boundary_lem 1000 5000000 hourly (omega arith)

abbrev sweep : ℕ
sweep = 30000000000

kept : decide (window_before 3600000 (effective_buffer hourly sweep) 0) 3530000 ≡ keep
unfolding window_before effective_buffer decide
kept = refl

window_hit_example :
    decide (window_before 3600000 (effective_buffer hourly sweep) 0) 3560000 ≢ crossed
window_hit_example =
    window_hit 3600000 hourly sweep 3530000 3560000 (omega arith) (omega arith) kept

abbrev total : Vector
total = (7, pos 8) ∷ (8, pos 64) ∷ []

abbrev used : Vector
used = (7, pos 3) ∷ []

abbrev want : Vector
want = (7, pos 5) ∷ []

it_fits : fits total used want ≡ true
unfolding fits sub64
it_fits = refl

abbrev parsed : Parsed
parsed = record {
  request = record { exclusive = false; constraints = Json.doc want; max_wait_ms = 0 };
  want = want;
  exclusive = false;
}

it_parses :
    parse_request
      (Json.doc (record { exclusive = false; constraints = Json.doc want; max_wait_ms = 0 }))
    ≡ ok parsed
unfolding parse_request
it_parses = refl

parse_request_lem_example : Requests want want × All IsPositive want × (want ≡ [] → false ≡ true)
parse_request_lem_example = parse_request_lem false want 0 parsed (refl, tt) it_parses

abbrev durations : List ℕ
durations = 3 ∷ 9 ∷ 4 ∷ []

abbrev longest : ℕ
longest = 100

adaptive_buffer-least_example :
    ((n : ℕ)
      → IsEnough durations 60 10 n
      → (longest ≡ 0) ⊎ (n ≤ longest)
      → IsEnough durations 60 10 (adaptive_buffer durations 60 10 longest)
        × (adaptive_buffer durations 60 10 longest ≤ n))
    × (longest ≡ 0 → IsEnough durations 60 10 (adaptive_buffer durations 60 10 longest))
    × (0 < longest
        → (adaptive_buffer durations 60 10 longest ≤ longest)
          × (IsEnough durations 60 10 (adaptive_buffer durations 60 10 longest)
              ⊎ (adaptive_buffer durations 60 10 longest ≡ longest)))
adaptive_buffer-least_example = adaptive_buffer-least durations 60 10 longest
