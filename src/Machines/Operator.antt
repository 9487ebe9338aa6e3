-- ===== src/Machines/Operator.antt =====
-- internal/app/park.go: the operator parks or starts a machine. `other` is ErrAlreadyThere, which the
-- API answers with the machine as it is.
use fleetplane.Prelude.{ℕ, Bool, false, not, ◌||◌}
use fleetplane.Prelude.Outcome.{Outcome, other, guard, ◌>>=◌, ◌>>◌}
use fleetplane.Phase.{Phase, phase_eq}
use fleetplane.Store.{Db}
use fleetplane.Store.Resources
use fleetplane.Machines.{journal_stop, journal_start}

-- ParkResource; the operator's intent overrides the protection from deletes.
unfoldable pub park_resource : (ℕ → ℕ → Bool) → ℕ → ℕ → ℕ → Db → Outcome Db
park_resource parking op res now db = do
  r ← Resources.get res db
  guard (not (phase_eq r.phase Phase.parking || phase_eq r.phase Phase.parked)) other
  journal_stop parking op res now false db

-- StartResource.
unfoldable pub start_resource : (ℕ → ℕ → Bool) → ℕ → ℕ → ℕ → Db → Outcome Db
start_resource parking op res now db = do
  r ← Resources.get res db
  guard
      (not (
        phase_eq r.phase Phase.starting
        || phase_eq r.phase Phase.ready
        || phase_eq r.phase Phase.allocated))
      other
  journal_start parking op res now db
