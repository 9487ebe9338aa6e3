-- ===== src/Engine/Pacing.antt =====
-- The delay between two attempts (internal/operations/engine.go, backoff).
use fleetplane.Prelude.{ℕ, ◌*◌, ◌^◌, ◌≤◌, ◌<◌, min, ◌||◌, Option, ltb, ◌==◌, if◌then◌else◌, arith}
use fleetplane.Prelude.Int64.{ℤ, pos, negsuc, wrap_sub}
use fleetplane.Billing.{ms}
use fleetplane.Provider.{GoError}
use fleetplane.Engine.Base.{World, capped_delay, backoff, hint_of, at_least_hint}

-- The exponential delay stays between 1 ns and the cap at every attempt, the shifts that overflow
-- int64 included.
pub capped_delay-le :
    (base cap attempt : ℕ)
    → 0 < cap
    → (0 < capped_delay base cap attempt) × (capped_delay base cap attempt ≤ cap)
unfolding capped_delay
capped_delay-le base cap attempt h = by (wrap_sub (base * 2 ^ min attempt 16) 0)
  where
    by :
        (z : ℤ)
        → (0 < (elim z [ pos d ↦ if ltb cap d || d == 0 then cap else d | negsuc d ↦ cap ]))
          × ((elim z [ pos d ↦ if ltb cap d || d == 0 then cap else d | negsuc d ↦ cap ]) ≤ cap)
    by (pos d) = (ground arith, ground arith)
    by (negsuc d) = (h, omega arith)

-- The delay before a retry: at least ten milliseconds, at least what the provider asked for, and
-- otherwise at most the jittered cap, whenever the jitter keeps its bound on delays up to the cap.
pub backoff-bounds :
    (w : World) (attempt : ℕ) (cause : Option GoError) (bound : ℕ)
    → 0 < w.backoff_cap
    → ((d : ℕ) → d ≤ w.backoff_cap → w.jitter d ≤ bound)
    → 10 * ms ≤ bound
    → (10 * ms ≤ backoff w attempt cause)
      × (at_least_hint 0 (hint_of cause) ≤ backoff w attempt cause)
      × (backoff w attempt cause ≤ at_least_hint bound (hint_of cause))
unfolding backoff
backoff-bounds w attempt cause bound h jit floor = ground (
  arith,
  jit (capped_delay w.backoff_base w.backoff_cap attempt)
      (capped_delay-le w.backoff_base w.backoff_cap attempt h).1,
)
