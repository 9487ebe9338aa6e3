-- ===== src/Machines.antt =====
-- The transactions that journal a stop, a start or a delete of a machine: internal/provision/park.go,
-- internal/reconcile/reconcile.go (journalDelete) and internal/app (deleteGates in service.go, drain,
-- undrain and protection in queries.go). `op` is the fresh operation id.
pub mod Gates
pub mod Row
pub mod Operator
pub mod Retry
use fleetplane.Prelude.{
  ℕ, Bool, true, false, not, ◌&&◌, ◌||◌, Option, none, some, List, [], ◌∷◌, ◌==◌, if◌then◌else◌,
}
use fleetplane.Prelude.Outcome.{
  Outcome, Error, ok, err, not_found, conflict, invalid, park_unsupported, other, guard, ◌>>=◌,
  ◌>>◌,
}
use fleetplane.Prelude.Json.{Json}
use fleetplane.Phase.{Phase, phase_eq, can_transition}
use fleetplane.Provider.{ExternalRef, Action, ActionKind}
use fleetplane.Store.{Db, Resource, Operation, OpKind, OpState, EventType, is_managed}
use fleetplane.Store.Resources
use fleetplane.Store.Resources.{is_none}
use fleetplane.Store.Leases
use fleetplane.Store.Operations
use fleetplane.Store.Events

abbrev pub decoded : Json ExternalRef → ExternalRef
decoded Json.blank = record { id = 0; native = 0 }
decoded Json.garbage = record { id = 0; native = 0 }
decoded (Json.doc r) = r

-- The stored reference, with the external id where it has none.
unfoldable pub ref_for : Resource → ℕ → ExternalRef
ref_for r ext =
    if (decoded r.external_ref).id == 0
    then record { id = ext; native = (decoded r.external_ref).native }
    else decoded r.external_ref

abbrev pub action_of : ℕ → ActionKind → ℕ → ExternalRef → Bool → Action
action_of op kind res ref destructive = record {
  action_id = op;
  kind = kind;
  resource_id = res;
  ref = some ref;
  destructive = destructive;
  payload = 0;
}

abbrev pub journaled_op : ℕ → OpKind → Resource → Action → ℕ → Operation
journaled_op op kind r action now = record {
  id = op;
  parent_id = none;
  idem_scope = none;
  idem_key = none;
  kind = kind;
  resource_id = some r.id;
  pool_id = r.pool_id;
  provider = r.provider;
  action = Json.doc action;
  state = OpState.journaled;
  attempt = 0;
  external_op = Json.blank;
  external_ref = Json.blank;
  error_class = none;
  error_detail = none;
  next_attempt_at = none;
  verify_deadline_at = none;
  created_at = now;
  updated_at = now;
  terminal_at = none;
}

-- The compare-and-set, the operation and the event of a machine that has an external id.
unfoldable pub journal_op :
    ℕ → OpKind → ActionKind → Bool → EventType → Resource → ℕ → ℕ → Phase → Phase → Db → Outcome Db
unfolding ref_for
journal_op op kind action destructive event r ext now from to db = do
  db1 ← Resources.cas_phase r.id from to now db
  db2 ←
      Operations.append
        (journaled_op op kind r (action_of op action r.id (ref_for r ext) destructive) now) db1
  ok (Events.append now event (some r.id) (some op) db2)

-- journalPhaseOp.
unfoldable pub journal_phase_op :
    ℕ → OpKind → ActionKind → EventType → Resource → Option ℕ → ℕ → Phase → Phase → Db → Outcome Db
unfolding journal_op
journal_phase_op op kind action event r none now from to db = err conflict
journal_phase_op op kind action event r (some ext) now from to db =
    journal_op op kind action false event r ext now from to db

abbrev pub in_phase : Resource → Phase → Bool
in_phase r p = is_none r.deleted_at && phase_eq r.phase p && is_managed r.ownership

-- JournalStop; `parking` is the provider's capability for a provider and a kind.
unfoldable pub journal_stop : (ℕ → ℕ → Bool) → ℕ → ℕ → ℕ → Bool → Db → Outcome Db
unfolding journal_phase_op
journal_stop parking op res now require_unprotected db = do
  r ← Resources.get res db
  guard (in_phase r Phase.ready) conflict
  guard (not (require_unprotected && r.delete_protected)) conflict
  guard (parking r.provider r.kind) park_unsupported
  guard (Leases.count_active res db == 0) conflict
  journal_phase_op op OpKind.stop ActionKind.stop_action EventType.resource_stop r r.external_id now
      Phase.ready Phase.parking db

-- JournalStart.
unfoldable pub journal_start : (ℕ → ℕ → Bool) → ℕ → ℕ → ℕ → Db → Outcome Db
unfolding journal_phase_op
journal_start parking op res now db = do
  r ← Resources.get res db
  guard (in_phase r Phase.parked) conflict
  guard (parking r.provider r.kind) park_unsupported
  journal_phase_op op OpKind.start ActionKind.start_action EventType.resource_start r r.external_id
      now Phase.parked Phase.starting db

abbrev pub delete_external : ℕ → Resource → ℕ → Option ℕ → Db → Outcome Db
delete_external op r now none db = Resources.mark_deleted r.id now db
delete_external op r now (some ext) db =
    journal_op op OpKind.delete ActionKind.delete_action true EventType.resource_delete r ext now
      r.phase Phase.deleting db

-- journalDeleteInTx.
unfoldable pub journal_delete_in_tx : ℕ → Resource → ℕ → Db → Outcome Db
unfolding journal_op
journal_delete_in_tx op r now db = do
  guard (is_managed r.ownership && not r.delete_protected) conflict
  guard (Leases.count_active r.id db == 0) conflict
  delete_external op r now r.external_id db

-- journalDelete: from draining or failed only.
unfoldable pub journal_delete : ℕ → ℕ → ℕ → Db → Outcome Db
unfolding journal_delete_in_tx
journal_delete op res now db = do
  r ← Resources.get res db
  guard (is_none r.deleted_at && (phase_eq r.phase Phase.draining || phase_eq r.phase Phase.failed))
      conflict
  journal_delete_in_tx op r now db

-- deleteGates.
unfoldable pub delete_gates : Resource → Db → Outcome (Unit {0})
delete_gates r db = do
  guard (is_none r.deleted_at) not_found
  guard (is_managed r.ownership) invalid
  guard (not r.delete_protected) conflict
  guard (Leases.count_active r.id db == 0) conflict

-- DrainResource.
unfoldable pub drain : ℕ → ℕ → Db → Outcome Db
drain res now db = do
  r ← Resources.get res db
  guard (is_none r.deleted_at) not_found
  guard (can_transition r.phase Phase.draining) conflict
  db1 ← Resources.cas_phase r.id r.phase Phase.draining now db
  ok (Events.append now EventType.resource_drain (some r.id) none db1)

-- UndrainResource; `other` is ErrAlreadyThere.
unfoldable pub undrain : ℕ → ℕ → Db → Outcome Db
undrain res now db = do
  r ← Resources.get res db
  guard (is_none r.deleted_at) not_found
  guard (not (phase_eq r.phase Phase.ready)) other
  guard (phase_eq r.phase Phase.draining) conflict
  db1 ← Resources.cas_phase r.id Phase.draining Phase.ready now db
  ok (Events.append now EventType.resource_undrain (some r.id) none db1)

abbrev same_flag : Bool → Bool → Bool
same_flag true b = b
same_flag false b = not b

abbrev protection_event : Bool → EventType
protection_event true = EventType.resource_protected
protection_event false = EventType.resource_unprotected

-- SetResourceProtected; `other` is ErrAlreadyThere.
unfoldable pub set_protected : ℕ → Bool → ℕ → Db → Outcome Db
set_protected res protected now db = do
  r ← Resources.get res db
  guard (is_none r.deleted_at) not_found
  guard (not (same_flag r.delete_protected protected)) other
  db1 ← Resources.set_delete_protected r.id protected now db
  ok (Events.append now (protection_event protected) (some r.id) none db1)
