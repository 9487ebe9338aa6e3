-- ===== src/Engine/Poll.antt =====
-- internal/operations/engine.go, poll: ObserveOperation, the readiness gate and TxD.
use fleetplane.Prelude.{
  ℕ, ◌-◌, ◌/◌, Bool, true, false, not, Option, none, some, ltb, ◌==◌, if◌then◌else◌,
}
use fleetplane.Prelude.Outcome.{Outcome, ok, err, ◌>>=◌}
use fleetplane.Prelude.Json.{Json}
use fleetplane.Billing.{ms}
use fleetplane.Phase.{Phase}
use fleetplane.Provider.{
  Action, OperationRef, OperationStatus, ObservedResource, ReportedState, GoError, ProviderError,
  ErrorClass, classify, class_eq,
}
use fleetplane.Provider.Errors.{typed}
use fleetplane.Store.{Db, Operation, OpState, OpKind, EventType, MachineSpec, ObservedSnapshot}
use fleetplane.Store.Resources
use fleetplane.Store.Operations
use fleetplane.Store.Events
use fleetplane.Engine.Base.{
  Reply, answered, failed, World, Driven, observed, quiet, after_call, commit, commit_terminal,
  is_delete, is_park_op, corrupt_ref, budget_exhausted, no_detail, driver_and_action, reschedule,
  fail_op, fail_op_phases, succeed_delete,
}

abbrev pub snapshot_of : ℕ → ℕ → ObservedResource → ObservedSnapshot
snapshot_of id now r = record { resource_id = id; observed_at = now; provider_phase = r.phase }

-- The observation, whose failure is ignored.
abbrev pub note_observed : World → ℕ → ObservedResource → Db → Db
note_observed w id r db = commit db (Resources.put_observed (snapshot_of id w.now r) db)

-- PutObserved and SetProviderFacts.
abbrev pub take_facts : World → ℕ → Option ObservedResource → Db → Outcome Db
take_facts w id none db = ok db
take_facts w id (some r) db =
    Resources.set_provider_facts id r.extensions r.capacity w.now (note_observed w id r db)

-- PutObserved alone.
abbrev pub take_snapshot : World → ℕ → Option ObservedResource → Db → Outcome Db
take_snapshot w id none db = ok db
take_snapshot w id (some r) db = ok (note_observed w id r db)

abbrev pub land_created : World → Option ℕ → OperationStatus → Db → Outcome Db
land_created w none status db = ok db
land_created w (some id) status db =
    take_facts w id status.resource db
    >>= Resources.cas_phase id Phase.provisioning Phase.ready w.now

abbrev pub land_stopped : World → Option ℕ → OperationStatus → Db → Outcome Db
land_stopped w none status db = ok db
land_stopped w (some id) status db =
    take_snapshot w id status.resource db
    >>= Resources.cas_phase id Phase.parking Phase.parked w.now

abbrev pub land_started : World → Option ℕ → OperationStatus → Db → Outcome Db
land_started w none status db = ok db
land_started w (some id) status db =
    take_facts w id status.resource db >>= Resources.cas_phase id Phase.starting Phase.ready w.now

abbrev succeeded_event : World → Operation → Db → Outcome Db
succeeded_event w op db =
    ok (Events.append w.now EventType.operation_succeeded op.resource_id (some op.id) db)

unfoldable pub succeed_create : World → Operation → OperationStatus → Db → Driven
unfolding commit_terminal
succeed_create w op status db = commit_terminal op.id db (do
  db1 ← Operations.transition w.wall op.id op.state OpState.succeeded Operations.no_change db
  db2 ← land_created w op.resource_id status db1
  succeeded_event w op db2)

unfoldable pub succeed_stop : World → Operation → OperationStatus → Db → Driven
unfolding commit_terminal
succeed_stop w op status db = commit_terminal op.id db (do
  db1 ← Operations.transition w.wall op.id op.state OpState.succeeded Operations.no_change db
  db2 ← land_stopped w op.resource_id status db1
  succeeded_event w op db2)

unfoldable pub succeed_start : World → Operation → OperationStatus → Db → Driven
unfolding commit_terminal
succeed_start w op status db = commit_terminal op.id db (do
  db1 ← Operations.transition w.wall op.id op.state OpState.succeeded Operations.no_change db
  db2 ← land_started w op.resource_id status db1
  succeeded_event w op db2)

pub data Gate : Type 0 where
  passed waiting exhausted : Gate

-- DefaultProbeBudget, five minutes.
abbrev pub default_probe_budget : ℕ
default_probe_budget = 300000000000

abbrev pub budget_of : ℕ → ℕ
budget_of b = if b == 0 then default_probe_budget else b

-- The gate of a machine that declares a probe: its budget first, then one attempt.
abbrev pub probe_gate : World → Operation → MachineSpec → Gate
probe_gate w op spec =
    if not spec.probed
    then passed
    else if ltb (budget_of spec.budget / ms) (w.now - op.created_at)
    then exhausted
    else if w.probe op.id
    then passed
    else waiting

abbrev pub spec_gate : World → Operation → Json MachineSpec → Gate
spec_gate w op Json.blank = passed
spec_gate w op Json.garbage = passed
spec_gate w op (Json.doc spec) = probe_gate w op spec

abbrev gate_of : World → Operation → Option ℕ → Db → Gate
gate_of w op none db = passed
gate_of w op (some id) db = elim (Resources.get id db) [
  | err e ↦ passed
  | ok r ↦ spec_gate w op r.spec
]

unfoldable pub readiness_gate : World → Operation → Db → Gate
readiness_gate w op db = gate_of w op op.resource_id db

abbrev pub is_start : OpKind → Bool
is_start OpKind.start = true
is_start _ = false

abbrev pub is_stop : OpKind → Bool
is_stop OpKind.stop = true
is_stop _ = false

-- Past the gate, for creates and starts.
unfoldable pub poll_gated : World → Operation → OperationStatus → Db → Gate → Driven
poll_gated w op status db exhausted =
    if is_start op.kind
    then fail_op_phases w op.id OpState.external_accepted budget_exhausted Phase.starting
        Phase.failed db
    else fail_op w op.id OpState.external_accepted budget_exhausted db
poll_gated w op status db waiting = reschedule w op none db
poll_gated w op status db passed =
    if is_start op.kind then succeed_start w op status db else succeed_create w op status db

unfoldable pub poll_succeeded : World → Operation → OperationStatus → Db → Driven
unfolding poll_gated succeed_create succeed_stop succeed_start readiness_gate
poll_succeeded w op status db =
    if is_delete op.kind
    then succeed_delete w op OpState.external_accepted db
    else if is_stop op.kind
    then succeed_stop w op status db
    else poll_gated w op status db (readiness_gate w op db)

abbrev pub cause_of : Option ProviderError → GoError
cause_of none = no_detail
cause_of (some e) = typed e

abbrev pub on_status : World → Operation → OperationStatus → Db → ReportedState → Driven
on_status w op status db ReportedState.reported_succeeded = poll_succeeded w op status db
on_status w op status db ReportedState.reported_failed =
    fail_op w op.id OpState.external_accepted (cause_of status.failure) db
on_status w op status db ReportedState.reported_pending = reschedule w op none db
on_status w op status db ReportedState.reported_running = reschedule w op none db
on_status w op status db ReportedState.reported_unknown = reschedule w op none db

-- The object of a create vanished: resolve by verification.
unfoldable pub verify_vanished : World → Operation → Db → Driven
verify_vanished w op db = quiet (
    commit db (
      Operations.transition w.wall op.id OpState.external_accepted OpState.verifying
        (λ o. record o { next_attempt_at = none }) db))

unfoldable pub poll_error : World → Operation → GoError → Db → Driven
unfolding verify_vanished
poll_error w op cause db =
    if class_eq (classify cause) ErrorClass.not_found
    then (if is_delete op.kind
        then succeed_delete w op OpState.external_accepted db
        else if is_park_op op.kind
        then fail_op w op.id OpState.external_accepted cause db
        else verify_vanished w op db)
    else reschedule w op (some cause) db

unfoldable pub on_observed : World → Operation → Db → Reply OperationStatus → Driven
unfolding poll_error poll_succeeded
on_observed w op db (failed cause) = poll_error w op cause db
on_observed w op db (answered status) = on_status w op status db status.state

-- The stored reference of the accepted operation, and the call that it is for.
unfoldable pub poll_ref : World → Operation → Db → Json OperationRef → Driven
unfolding on_observed
poll_ref w op db Json.blank = fail_op w op.id op.state corrupt_ref db
poll_ref w op db Json.garbage = fail_op w op.id op.state corrupt_ref db
poll_ref w op db (Json.doc ref) = after_call (observed op.id) (on_observed w op db (w.observe ref))

unfoldable pub poll_with : World → Operation → Db → Reply Action → Driven
unfolding poll_ref
poll_with w op db (failed cause) = fail_op w op.id op.state cause db
poll_with w op db (answered a) = poll_ref w op db op.external_op

unfoldable pub poll : World → Operation → Db → Driven
unfolding poll_with
poll w op db = poll_with w op db (driver_and_action w op db)
