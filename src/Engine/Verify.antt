-- ===== src/Engine/Verify.antt =====
-- internal/operations/engine.go, verify: the resolution of an operation whose outcome is unknown.
use fleetplane.Prelude.{
  ℕ, Bool, true, false, not, ◌&&◌, Option, none, some, List, [], ◌∷◌, ltb, if◌then◌else◌,
}
use fleetplane.Prelude.Outcome.{◌>>=◌}
use fleetplane.Provider.{ExternalRef, OperationRef, Action, ObservedResource, ErrorClass, is_class}
use fleetplane.Store.{Db, Operation, OpState}
use fleetplane.Store.Operations
use fleetplane.Engine.Base.{
  Reply, answered, failed, World, Driven, fetched, discovered, quiet, after_call, commit, is_delete,
  is_park_op, delete_without_ref, driver_and_action, reschedule, fail_op, succeed_delete,
}
use fleetplane.Engine.Dispatch.{mark_accepted, adopt_ref}

abbrev pub run_now : Operation → Operation
run_now o = record o { next_attempt_at = none }

-- verifying → journaled: the operation may be applied again.
unfoldable pub redispatch : World → Operation → (Operation → Operation) → Db → Driven
redispatch w op mut db =
    quiet
      (commit db (Operations.transition w.wall op.id OpState.verifying OpState.journaled mut db))

unfoldable pub on_fetched : World → Operation → Db → Reply (Unit {0}) → Driven
unfolding redispatch
on_fetched w op db (answered present) = redispatch w op Operations.no_change db
on_fetched w op db (failed cause) =
    if is_class cause ErrorClass.not_found
    then succeed_delete w op OpState.verifying db
    else reschedule w op (some cause) db

-- A delete verifies by Get.
unfoldable pub verify_delete : World → Operation → Option ExternalRef → Db → Driven
unfolding on_fetched
verify_delete w op none db = fail_op w op.id OpState.verifying delete_without_ref db
verify_delete w op (some ref) db = after_call (fetched op.id) (on_fetched w op db (w.fetch ref))

-- The reference of the object that carries the operation's label.
abbrev pub found_ref : Operation → ObservedResource → OperationRef
found_ref op obs = record { action_id = op.id; ref = some obs.ref }

unfoldable pub adopt : World → Operation → ObservedResource → Db → Driven
unfolding mark_accepted
adopt w op obs db = quiet (
    commit db (
      Operations.transition w.wall op.id OpState.verifying OpState.external_accepted
        (mark_accepted (found_ref op obs)) db
      >>= adopt_ref op.resource_id (some obs.ref)))

abbrev pub before_deadline : ℕ → Option ℕ → Bool
before_deadline now none = false
before_deadline now (some d) = ltb now d

abbrev pub freeze : World → Operation → Db → Driven
freeze w op db = quiet (
    commit db (
      Operations.transition w.wall op.id OpState.verifying OpState.uncertain Operations.no_change
        db))

unfoldable pub on_discovered : World → Operation → Db → Reply (List ObservedResource) → Driven
unfolding adopt redispatch
on_discovered w op db (failed cause) = reschedule w op (some cause) db
on_discovered w op db (answered (obs ∷ rest)) = adopt w op obs db
on_discovered w op db (answered []) =
    if before_deadline w.now op.verify_deadline_at
    then reschedule w op none db
    else redispatch w op run_now db

abbrev pub found_nothing : Reply (List ObservedResource) → Bool
found_nothing (answered []) = true
found_nothing (answered (obs ∷ rest)) = false
found_nothing (failed cause) = false

-- Nothing carries the label, and the verification window is over.
abbrev pub proves_absent : World → Operation → Reply (List ObservedResource) → Bool
proves_absent w op r = found_nothing r && not (before_deadline w.now op.verify_deadline_at)

-- `descriptor` is the zero value for an instance that is not configured.
abbrev pub discovers : World → Operation → Bool
discovers w op = if w.has_instance op.provider then w.label_discovery op.provider else false

-- A create verifies by its operation label.
unfoldable pub verify_create : World → Operation → Db → Driven
unfolding on_discovered
verify_create w op db =
    if discovers w op
    then after_call (discovered op.id (proves_absent w op (w.discover op.id)))
        (on_discovered w op db (w.discover op.id))
    else freeze w op db

unfoldable pub verify_with : World → Operation → Db → Reply Action → Driven
unfolding redispatch verify_delete verify_create
verify_with w op db (failed cause) = fail_op w op.id op.state cause db
verify_with w op db (answered a) =
    if is_park_op op.kind
    then redispatch w op run_now db
    else if is_delete op.kind
    then verify_delete w op a.ref db
    else verify_create w op db

unfoldable pub verify : World → Operation → Db → Driven
unfolding verify_with
verify w op db = verify_with w op db (driver_and_action w op db)
