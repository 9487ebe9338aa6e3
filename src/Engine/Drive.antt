-- ===== src/Engine/Drive.antt =====
-- internal/operations/engine.go, drive, Step and Resume, and internal/app/resolve.go, the manual
-- resolution of a frozen operation.
use fleetplane.Prelude.{ℕ, ◌+◌, Option, none, some, List, [], ◌∷◌, ◌++◌}
use fleetplane.Prelude.Outcome.{Outcome, Error, ok, err, ◌>>=◌}
use fleetplane.Phase.{Phase}
use fleetplane.Store.{Db, Operation, OpState, OpKind, EventType}
use fleetplane.Store.Operations
use fleetplane.Store.Events
use fleetplane.Engine.Base.{World, Driven, quiet, try_cas}
use fleetplane.Engine.Dispatch.{dispatch}
use fleetplane.Engine.Poll.{poll}
use fleetplane.Engine.Verify.{verify}

abbrev pub by_state : World → Operation → Db → OpState → Driven
by_state w op db OpState.journaled = dispatch w op db
by_state w op db OpState.external_accepted = poll w op db
by_state w op db OpState.verifying = verify w op db
by_state w op db OpState.in_flight = quiet db
by_state w op db OpState.uncertain = quiet db
by_state w op db OpState.succeeded = quiet db
by_state w op db OpState.failed = quiet db
by_state w op db OpState.aborted = quiet db

unfoldable pub drive : World → Operation → Db → Driven
unfolding dispatch poll verify
drive w op db = by_state w op db op.state

-- The loop of Step; each operation is driven with the world as it is then.
unfoldable pub drive_all : (ℕ → World) → List Operation → Db → Driven
unfolding drive
drive_all w [] db = quiet db
drive_all w (op ∷ ops) db =
    let first = drive (w op.id) op db in
    let rest = drive_all w ops first.db in
    record { db = rest.db; calls = first.calls ++ rest.calls }

unfoldable pub step : ℕ → ℕ → (ℕ → World) → Db → Driven
unfolding drive_all
step now max_batch w db = drive_all w (Operations.due now max_batch db) db

abbrev pub resume_one : ℕ → Operation → Db → OpState → Outcome Db
resume_one wall op db OpState.in_flight =
    Operations.transition wall op.id OpState.in_flight OpState.verifying
      (λ o. record o { next_attempt_at = none }) db
resume_one wall op db _ = ok db

abbrev pub resume_next : Db → (Db → Db × Option Error) → Outcome Db → Db × Option Error
resume_next db rest (err e) = (db, some e)
resume_next db rest (ok db1) = rest db1

-- The scan of Resume: a dispatch that a crash interrupted goes to verification. An error ends the
-- scan and leaves what was committed before it.
unfoldable pub resume_all : ℕ → List Operation → Db → Db × Option Error
resume_all wall [] db = (db, none)
resume_all wall (op ∷ ops) db =
    resume_next db (λ d. resume_all wall ops d) (resume_one wall op db op.state)

unfoldable pub resume : ℕ → Db → Db × Option Error
unfolding resume_all
resume wall db = resume_all wall (Operations.non_terminal db) db

pub data ResolveAction : Type 0 where
  retry_verification mark_failed : ResolveAction

-- IdemRetention, 48 hours in milliseconds (internal/app/service.go).
abbrev pub idem_retention_ms : ℕ
idem_retention_ms = 172800000

abbrev pub failed_from : OpKind → Phase
failed_from OpKind.delete = Phase.deleting
failed_from _ = Phase.provisioning

-- ResolveOperation.
unfoldable pub resolve : World → ℕ → ResolveAction → Db → Outcome Db
resolve w id retry_verification db = do
  db1 ←
      Operations.transition w.wall id OpState.uncertain OpState.verifying
        (λ o. record o {
          next_attempt_at = none;
          verify_deadline_at = some (w.now + idem_retention_ms);
        })
        db
  ok (Events.append w.now EventType.operation_resolve none (some id) db1)
resolve w id mark_failed db = do
  op ← Operations.get id db
  db1 ← Operations.transition w.wall id OpState.uncertain OpState.failed Operations.no_change db
  ok (
      Events.append w.now EventType.operation_resolve none (some id)
        (try_cas op.resource_id (failed_from op.kind) Phase.failed w.now db1))
