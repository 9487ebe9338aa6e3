-- ===== src/Engine/Dispatch.antt =====
-- internal/operations/engine.go, dispatch and handleApplyError: TxB, the provider's Apply, TxC.
use fleetplane.Prelude.{
  ℕ, ◌+◌, ◌/◌, Bool, true, false, not, ◌&&◌, ◌||◌, Option, none, some, leb, if◌then◌else◌,
}
use fleetplane.Prelude.Outcome.{Outcome, ok, err, ◌>>=◌}
use fleetplane.Prelude.Json.{Json}
use fleetplane.Billing.{ms}
use fleetplane.Provider.{
  ExternalRef, OperationRef, Action, GoError, ErrorClass, classify, effect, class_eq,
}
use fleetplane.Provider.Errors.{SideEffect}
use fleetplane.Store.{Db, Operation, OpState}
use fleetplane.Store.Resources
use fleetplane.Store.Operations
use fleetplane.Engine.Base.{
  Reply, answered, failed, World, Driven, applied, quiet, after_call, commit, is_delete, is_create,
  is_park_op, set_err, giving_up, driver_and_action, next_attempt, fail_op, succeed_delete,
}

-- maxParkOpAttempts.
abbrev pub max_park_op_attempts : ℕ
max_park_op_attempts = 8

-- TxB: the dispatch marker, the attempt and the verify deadline.
unfoldable pub mark_in_flight : World → Operation → Operation
mark_in_flight w o = record o {
  attempt = o.attempt + 1;
  verify_deadline_at = some (w.now + w.verify_window / ms);
  next_attempt_at = none;
}

unfoldable pub tx_b : World → Operation → Db → Outcome Db
unfolding mark_in_flight
tx_b w op db =
    Operations.transition w.wall op.id OpState.journaled OpState.in_flight (mark_in_flight w) db

-- The external reference column: NULL when the accept carried none.
abbrev pub ref_column : Option ExternalRef → Json ExternalRef
ref_column none = Json.blank
ref_column (some r) = Json.doc r

unfoldable pub mark_accepted : OperationRef → Operation → Operation
mark_accepted ref o = record o {
  external_op = Json.doc ref;
  external_ref = ref_column ref.ref;
  next_attempt_at = none;
}

-- SetExternalRef of the resource, where there is one and the reference is known.
abbrev pub adopt_ref : Option ℕ → Option ExternalRef → Db → Outcome Db
adopt_ref none ref db = ok db
adopt_ref (some id) none db = ok db
adopt_ref (some id) (some r) db = Resources.set_external_ref id r.id (Json.doc r) db

-- TxC.
unfoldable pub accept : World → Operation → OperationRef → Db → Driven
unfolding mark_accepted
accept w op ref db = quiet (
    commit db (
      Operations.transition w.wall op.id OpState.in_flight OpState.external_accepted
        (mark_accepted ref) db
      >>= adopt_ref (if is_create op.kind then op.resource_id else none) ref.ref))

-- Back to `journaled` with a later attempt.
unfoldable pub retry_later : World → Operation → GoError → Db → Driven
retry_later w op cause db = quiet (
    commit db (
      Operations.transition w.wall op.id OpState.in_flight OpState.journaled
        (λ o. set_err cause (record o { next_attempt_at = some (next_attempt w op (some cause)) }))
        db))

-- EffectMaybe: verify before any further mutation.
unfoldable pub verify_later : World → Operation → GoError → Db → Driven
verify_later w op cause db = quiet (
    commit db (
      Operations.transition w.wall op.id OpState.in_flight OpState.verifying
        (λ o. set_err cause (record o { next_attempt_at = some (w.now + 2000) })) db))

abbrev pub is_fatal : ErrorClass → Bool
is_fatal c = class_eq c ErrorClass.invalid || class_eq c ErrorClass.terminal

abbrev pub had_no_effect : SideEffect → Bool
had_no_effect SideEffect.effect_none = true
had_no_effect _ = false

unfoldable pub handle_apply_error : World → Operation → GoError → Db → Driven
unfolding retry_later verify_later
handle_apply_error w op cause db =
    let class = classify cause in
    if is_delete op.kind && class_eq class ErrorClass.not_found
    then succeed_delete w op OpState.in_flight db
    else if is_park_op op.kind && class_eq class ErrorClass.not_found
    then fail_op w op.id OpState.in_flight cause db
    else if is_park_op op.kind && not (is_fatal class)
    then retry_later w op cause db
    else if is_fatal class
    then fail_op w op.id OpState.in_flight cause db
    else if had_no_effect (effect cause)
    then retry_later w op cause db
    else verify_later w op cause db

unfoldable pub on_applied : World → Operation → Db → Reply OperationRef → Driven
unfolding accept handle_apply_error
on_applied w op db (answered ref) = accept w op ref db
on_applied w op db (failed cause) = handle_apply_error w op cause db

-- An answer that proves that the provider was never reached.
abbrev pub without_effect : Reply OperationRef → Bool
without_effect (answered ref) = false
without_effect (failed cause) = had_no_effect (effect cause)

-- Apply, and what follows its answer.
unfoldable pub apply_now : World → Operation → Action → Db → Driven
unfolding on_applied
apply_now w op a db =
    after_call (applied op.id (without_effect (w.apply a))) (on_applied w op db (w.apply a))

abbrev pub past_attempts : Operation → Bool
past_attempts op = is_park_op op.kind && leb max_park_op_attempts op.attempt

-- From the commit of TxB on; a lost race ends the handler.
abbrev pub apply_after : World → Operation → Action → Db → Outcome Db → Driven
apply_after w op a db (err e) = quiet db
apply_after w op a db (ok db1) = apply_now w op a db1

unfoldable pub dispatch_with : World → Operation → Db → Reply Action → Driven
unfolding tx_b apply_now
dispatch_with w op db (failed cause) = fail_op w op.id op.state cause db
dispatch_with w op db (answered a) =
    if past_attempts op
    then fail_op w op.id op.state giving_up db
    else apply_after w op a db (tx_b w op db)

unfoldable pub dispatch : World → Operation → Db → Driven
unfolding dispatch_with
dispatch w op db = dispatch_with w op db (driver_and_action w op db)
