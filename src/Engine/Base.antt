-- ===== src/Engine/Base.antt =====
-- internal/operations/engine.go: what a handler is given, the answers of the provider included,
-- and the helpers that the handlers share.
use fleetplane.Prelude.{
  ℕ, ◌+◌, ◌*◌, ◌/◌, ◌^◌, min, Bool, true, false, ◌||◌, Option, none, some, List, [], ◌∷◌, ◌==◌, ltb,
  if◌then◌else◌,
}
use fleetplane.Prelude.Outcome.{Outcome, ok, err, ◌>>=◌}
use fleetplane.Prelude.Json.{Json}
use fleetplane.Prelude.Int64.{pos, negsuc, wrap_sub}
use fleetplane.Billing.{ms}
use fleetplane.Phase.{Phase}
use fleetplane.Provider.{
  ExternalRef, OperationRef, Action, OperationStatus, ObservedResource, GoError, classify,
  retry_after_of, message_of,
}
use fleetplane.Provider.Errors.{plain}
use fleetplane.Store.{Db, Operation, OpState, OpKind, EventType}
use fleetplane.Store.Resources
use fleetplane.Store.Operations
use fleetplane.Store.Events

-- The answer of a call across the provider interface, or an error.
pub data Reply (A : Type 0) : Type 0 where
  answered : A → Reply A
  failed : GoError → Reply A

-- What one handler reads from outside the database: the two clocks, the configuration after its
-- defaults, the random jitter, the configured providers and their answers.
pub record World : Type 0 where
  pub now : ℕ
  pub wall : ℕ
  pub verify_window : ℕ
  pub backoff_base : ℕ
  pub backoff_cap : ℕ
  pub jitter : ℕ → ℕ
  pub has_instance : ℕ → Bool
  pub has_driver : ℕ → ℕ → Bool
  pub label_discovery : ℕ → Bool
  pub apply : Action → Reply OperationRef
  pub observe : OperationRef → Reply OperationStatus
  pub fetch : ExternalRef → Reply (Unit {0})
  pub discover : ℕ → Reply (List ObservedResource)
  pub probe : ℕ → Bool

-- The calls that a handler makes, in order: mutations and reads at the provider, and the terminal
-- callback, each with the operation's id. Of a mutation it is kept whether the answer proves that
-- nothing happened, of a discovery whether it found nothing once the verification window was over.
pub data Call : Type 0 where
  applied discovered : ℕ → Bool → Call
  observed fetched notified : ℕ → Call

pub record Driven : Type 0 where
  pub db : Db
  pub calls : List Call

abbrev pub quiet : Db → Driven
quiet db = record { db = db; calls = [] }

abbrev pub after_call : Call → Driven → Driven
after_call c d = record { db = d.db; calls = c ∷ d.calls }

-- Tx: commit, or roll back to the state before.
abbrev pub commit : Db → Outcome Db → Db
commit db (ok db') = db'
commit db (err e) = db

abbrev pub committed : Outcome Db → Bool
committed (ok db') = true
committed (err e) = false

-- The terminal callback follows a commit.
unfoldable pub commit_terminal : ℕ → Db → Outcome Db → Driven
commit_terminal id db (ok db') = record { db = db'; calls = notified id ∷ [] }
commit_terminal id db (err e) = record { db = db; calls = [] }

abbrev pub is_delete : OpKind → Bool
is_delete OpKind.delete = true
is_delete _ = false

abbrev pub is_create : OpKind → Bool
is_create OpKind.create = true
is_create _ = false

-- isParkOp.
unfoldable pub is_park_op : OpKind → Bool
is_park_op OpKind.create = false
is_park_op OpKind.delete = false
is_park_op OpKind.stop = true
is_park_op OpKind.start = true

unfoldable pub set_err : GoError → Operation → Operation
set_err cause o = record o {
  error_class = some (classify cause);
  error_detail = some (message_of cause);
}

-- Texts of the engine's own errors.
abbrev pub corrupt_action : GoError
corrupt_action = plain 1

abbrev pub not_configured : GoError
not_configured = plain 2

abbrev pub no_driver : GoError
no_driver = plain 3

abbrev pub giving_up : GoError
giving_up = plain 4

abbrev pub corrupt_ref : GoError
corrupt_ref = plain 5

abbrev pub budget_exhausted : GoError
budget_exhausted = plain 6

abbrev pub no_detail : GoError
no_detail = plain 7

abbrev pub delete_without_ref : GoError
delete_without_ref = plain 8

-- The kind "compute.machine".
abbrev pub compute_machine : ℕ
compute_machine = 1

abbrev pub kind_of : Option ℕ → Db → ℕ
kind_of none db = compute_machine
kind_of (some id) db = elim (Resources.get id db) [ ok r ↦ r.kind | err e ↦ compute_machine ]

-- driverAndAction.
unfoldable pub driver_and_action : World → Operation → Db → Reply Action
driver_and_action w op db = elim op.action [
  | Json.blank ↦ failed corrupt_action
  | Json.garbage ↦ failed corrupt_action
  | Json.doc a ↦
      if w.has_instance op.provider
      then (if w.has_driver op.provider (kind_of op.resource_id db)
          then answered a
          else failed no_driver)
      else failed not_configured
]

-- `base << min(attempt, 16)` in int64, replaced by the cap when it is over it or not positive.
unfoldable pub capped_delay : ℕ → ℕ → ℕ → ℕ
unfolding wrap_sub
capped_delay base cap attempt = elim (wrap_sub (base * 2 ^ min attempt 16) 0) [
  | pos d ↦ if ltb cap d || d == 0 then cap else d
  | negsuc d ↦ cap
]

abbrev pub hint_of : Option GoError → Option ℕ
hint_of none = none
hint_of (some cause) = retry_after_of cause

abbrev pub at_least_hint : ℕ → Option ℕ → ℕ
at_least_hint d none = d
at_least_hint d (some ra) = if ltb d ra then ra else d

-- The delay before the next attempt, in nanoseconds.
unfoldable pub backoff : World → ℕ → Option GoError → ℕ
unfolding capped_delay
backoff w attempt cause =
    let d =
      at_least_hint (w.jitter (capped_delay w.backoff_base w.backoff_cap attempt))
        (hint_of cause) in
    if ltb d (10 * ms) then 10 * ms else d

abbrev pub next_attempt : World → Operation → Option GoError → ℕ
next_attempt w op cause = w.now + backoff w op.attempt cause / ms

abbrev pub set_err_opt : Option GoError → Operation → Operation
set_err_opt none o = o
set_err_opt (some cause) o = set_err cause o

-- reschedule: same state, later attempt.
unfoldable pub reschedule : World → Operation → Option GoError → Db → Driven
reschedule w op cause db = quiet (
    commit db (
      Operations.transition w.wall op.id op.state op.state
        (λ o. set_err_opt cause (record o { next_attempt_at = some (next_attempt w op cause) }))
        db))

-- A compare-and-set whose failure is only logged.
abbrev pub try_cas : Option ℕ → Phase → Phase → ℕ → Db → Db
try_cas none from to at db = db
try_cas (some id) from to at db = commit db (Resources.cas_phase id from to at db)

-- The transaction of failOpPhases, once the operation is read.
unfoldable pub fail_found :
    World → ℕ → OpState → GoError → Phase → Phase → Db → Outcome Operation → Driven
unfolding commit_terminal
fail_found w id from cause res_from res_to db (err e) = quiet db
fail_found w id from cause res_from res_to db (ok op) = commit_terminal id db (
    Operations.transition w.wall id from OpState.failed (set_err cause) db >>= λ db1. ok (
      Events.append w.now EventType.operation_failed op.resource_id (some id)
        (try_cas op.resource_id res_from res_to w.now db1)))

-- failOpPhases.
unfoldable pub fail_op_phases : World → ℕ → OpState → GoError → Phase → Phase → Db → Driven
unfolding fail_found
fail_op_phases w id from cause res_from res_to db =
    fail_found w id from cause res_from res_to db (Operations.get id db)

-- The phase disposition of a failed operation, by kind.
unfoldable pub fail_from : OpKind → Phase
fail_from OpKind.create = Phase.provisioning
fail_from OpKind.delete = Phase.deleting
fail_from OpKind.stop = Phase.parking
fail_from OpKind.start = Phase.starting

unfoldable pub fail_to : OpKind → Phase
fail_to OpKind.create = Phase.failed
fail_to OpKind.delete = Phase.failed
fail_to OpKind.stop = Phase.ready
fail_to OpKind.start = Phase.parked

unfoldable pub fail_kind : World → ℕ → OpState → GoError → Db → Outcome Operation → Driven
unfolding fail_op_phases fail_from fail_to
fail_kind w id from cause db (err e) = quiet db
fail_kind w id from cause db (ok op) =
    fail_op_phases w id from cause (fail_from op.kind) (fail_to op.kind) db

-- failOp.
unfoldable pub fail_op : World → ℕ → OpState → GoError → Db → Driven
unfolding fail_kind
fail_op w id from cause db = fail_kind w id from cause db (Operations.get id db)

-- The tombstone of the resource that an operation is about.
abbrev pub tombstone : Option ℕ → ℕ → Db → Outcome Db
tombstone none at db = ok db
tombstone (some id) at db = Resources.mark_deleted id at db

-- succeedDelete.
unfoldable pub succeed_delete : World → Operation → OpState → Db → Driven
unfolding commit_terminal
succeed_delete w op from db = commit_terminal op.id db (do
  db1 ← Operations.transition w.wall op.id from OpState.succeeded Operations.no_change db
  db2 ← tombstone op.resource_id w.now db1
  ok (Events.append w.now EventType.operation_succeeded op.resource_id (some op.id) db2))
