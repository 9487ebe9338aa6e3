-- ===== src/Reconcile/Backoff.antt =====
-- internal/reconcile/reconcile.go: the failure backoff of a pool, kept in its checkpoint.
use fleetplane.Prelude.{ℕ, ◌+◌, ◌*◌, ◌/◌, ◌^◌, ◌%◌, ◌||◌, ltb, leb, ◌==◌, if◌then◌else◌, min}
use fleetplane.Prelude.Json.{Json}
use fleetplane.Prelude.Int64.{i64_mod, i64_half}
use fleetplane.Billing.{ms}

pub record Checkpoint : Type 0 where
  pub failure_attempt : ℕ
  pub failure_backoff_until : ℕ

-- The zero checkpoint, of a pool without one or with one that does not decode.
abbrev pub no_failures : Checkpoint
no_failures = record { failure_attempt = 0; failure_backoff_until = 0 }

abbrev pub read_checkpoint : Json Checkpoint → Checkpoint
read_checkpoint (Json.doc c) = c
read_checkpoint Json.blank = no_failures
read_checkpoint Json.garbage = no_failures

-- failureBackoffUntil.
abbrev pub backoff_until : Json Checkpoint → ℕ
backoff_until raw = (read_checkpoint raw).failure_backoff_until

-- `base << min(attempt, 12)` in int64, replaced by the cap when it is over it or not positive.
unfoldable pub failure_delay : ℕ → ℕ → ℕ → ℕ
failure_delay base cap_ attempt =
    let shifted = (base * 2 ^ min attempt 12) % i64_mod in
    if shifted == 0 || leb i64_half shifted || ltb cap_ shifted then cap_ else shifted

-- bumpFailureBackoff.
unfoldable pub bump_failure : ℕ → ℕ → ℕ → Json Checkpoint → Json Checkpoint
unfolding failure_delay
bump_failure base cap_ now raw =
    let attempt = (read_checkpoint raw).failure_attempt + 1 in
    Json.doc (record {
      failure_attempt = attempt;
      failure_backoff_until = now + failure_delay base cap_ attempt / ms;
    })

-- resetFailureBackoff.
abbrev pub reset_failure : Json Checkpoint → Json Checkpoint
reset_failure raw = Json.doc no_failures
