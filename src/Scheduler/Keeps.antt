-- ===== src/Scheduler/Keeps.antt =====
-- Every call of the scheduler keeps the tables sound (internal/scheduler/scheduler.go).
use fleetplane.Prelude.{ℕ, ◌≢◌, refl, Bool, true, false, Option, none, some, arith}
use fleetplane.Prelude.Outcome.{
  Outcome, Error, conflict, park_unsupported, guard, OnOk, OnOk-bind, OnOk-of, ◌>>◌,
}
use fleetplane.Phase.{Phase}
use fleetplane.Provider.{ActionKind}
use fleetplane.Store.{Db, Resource, Operation, OpKind, Acquisition, AcqState, EventType}
use fleetplane.Store.Resources
use fleetplane.Store.Acquisitions
use fleetplane.Store.Operations
use fleetplane.Store.Events
use fleetplane.Machines.{
  journal_op, journal_phase_op, journal_start, in_phase, journaled_op, action_of, ref_for,
}
use fleetplane.Service.{journal_create}
use fleetplane.Scheduler.Ranking.{Env}
use fleetplane.Scheduler.Parked.{claim_parked}
use fleetplane.Scheduler.Sound.{
  Sound, same-Sound, OnOk-Sound, acq_transition-same, set_pending-same, cas-Sound, append-Sound,
  insert-Sound,
}

pub event-Sound :
    (ts : ℕ) (e : EventType) (r o : Option ℕ) (db : Db)
    → Sound db
    → Sound (Events.append ts e r o db)
unfolding Events.append
event-Sound ts e r o db s = same-Sound db _ (refl, refl, refl) s

pub acq-Sound :
    (id : ℕ) (from to : AcqState) (at : ℕ) (db : Db)
    → Sound db
    → OnOk Sound (Acquisitions.transition id from to at db)
acq-Sound id from to at db s = OnOk-Sound db _ (acq_transition-same id from to at db) s

-- The operation that takes a machine to another phase than allocated.
pub journal_op-Sound :
    (op : ℕ) (kind : OpKind) (action : ActionKind) (destructive : Bool) (event : EventType)
    (r : Resource) (ext now : ℕ) (from to : Phase) (db : Db)
    → to ≢ Phase.allocated
    → Sound db
    → OnOk Sound (journal_op op kind action destructive event r ext now from to db)
unfolding journal_op
journal_op-Sound op kind action destructive event r ext now from to db ne s =
    let o : Operation =
      journaled_op op kind r (action_of op action r.id (ref_for r ext) destructive) now in
    OnOk-bind Sound Sound (Resources.cas_phase r.id from to now db) _
      (cas-Sound r.id from to now db ne s)
      (λ d _ s1.
        OnOk-bind Sound Sound (Operations.append o d) _ (append-Sound o d s1)
          (λ d2 _ s2. event-Sound now event (some r.id) (some op) d2 s2))

pub journal_phase_op-Sound :
    (op : ℕ) (kind : OpKind) (action : ActionKind) (event : EventType) (r : Resource)
    (ext : Option ℕ) (now : ℕ) (from to : Phase) (db : Db)
    → to ≢ Phase.allocated
    → Sound db
    → OnOk Sound (journal_phase_op op kind action event r ext now from to db)
unfolding journal_phase_op
journal_phase_op-Sound op kind action event r none now from to db ne s = tt
journal_phase_op-Sound op kind action event r (some ext) now from to db ne s =
    journal_op-Sound op kind action false event r ext now from to db ne s

-- A guard that passes.
pub guarded : (b : Bool) (e : Error) (m : Outcome Db) → OnOk Sound m → OnOk Sound (guard b e >> m)
guarded true e m h = h
guarded false e m h = tt

pub journal_start-Sound :
    (parking : ℕ → ℕ → Bool) (op res now : ℕ) (db : Db)
    → Sound db
    → OnOk Sound (journal_start parking op res now db)
unfolding journal_start
journal_start-Sound parking op res now db s =
    OnOk-bind (λ _. Unit {0}) Sound (Resources.get res db) _
      (OnOk-of (λ _. Unit {0}) (Resources.get res db) (λ _ _. tt))
      (λ r _ _. guarded (in_phase r Phase.parked) conflict _ (
        guarded (parking r.provider r.kind) park_unsupported _ (
          journal_phase_op-Sound op OpKind.start ActionKind.start_action EventType.resource_start r
            r.external_id now Phase.parked Phase.starting db (λ e. ground (arith, e)) s)))

pub claim_parked-Sound :
    (e : Env) (i : ℕ) (acq : Acquisition) (res : ℕ) (db : Db)
    → Sound db
    → OnOk Sound (claim_parked e i acq res db)
unfolding claim_parked
claim_parked-Sound e i acq res db s =
    OnOk-bind Sound Sound _ _ (acq-Sound acq.id AcqState.pending AcqState.provisioning e.now db s)
      (λ d _ s1.
        OnOk-bind Sound Sound _ _ (journal_start-Sound e.parking (e.op_ids i) res e.now d s1)
          (λ d2 _ s2. OnOk-Sound d2 _ (set_pending-same acq.id res d2) s2))

pub journal_create-Sound :
    (r : Resource) (o : Operation) (db : Db)
    → r.phase ≢ Phase.allocated
    → Sound db
    → OnOk Sound (journal_create r o db)
unfolding journal_create
journal_create-Sound r o db ne s = OnOk-bind Sound Sound _ _ (insert-Sound r db ne s) (λ d _ s1.
    OnOk-bind Sound Sound _ _ (append-Sound o d s1)
      (λ d2 _ s2. event-Sound r.created_at EventType.resource_create (some r.id) (some o.id) d2 s2))
