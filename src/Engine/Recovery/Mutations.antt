-- ===== src/Engine/Recovery/Mutations.antt =====
-- When a drive mutates at the provider (internal/operations/engine.go, dispatch, poll and verify).
use fleetplane.Prelude.{
  ◌≡◌, inl, inr, refl, Bool, true, false, some, List, [], ◌∷◌, if◌then◌else◌, arith, Bool-cases,
}
use fleetplane.Provider.{Action}
use fleetplane.Store.{Db, Operation, OpState, OpKind}
use fleetplane.Store.Rows.{get_row}
use fleetplane.Store.Operations.{op_id}
use fleetplane.Engine.Base.{
  World, Driven, Reply, answered, failed, Call, applied, discovered, observed, fetched, notified,
  driver_and_action, is_delete, is_park_op,
}
use fleetplane.Engine.Trail.{Edge}
use fleetplane.Engine.Handlers.{Silent}
use fleetplane.Engine.Polling.{poll-Settles}
use fleetplane.Engine.Observing.{on_discovered-Settles, gave_up-Settles, verify_delete-Settles}
use fleetplane.Engine.Poll.{poll}
use fleetplane.Engine.Verify.{
  verify, verify_with, verify_create, discovers, freeze, redispatch, run_now,
}
use fleetplane.Engine.Drive.{drive, by_state}
use fleetplane.Engine.Recovery.{Run, doubt}
use fleetplane.Engine.Recovery.Turns.{IsKnown}
use fleetplane.Engine.Recovery.Runs.{Run-Good}

-- Whether a mutation is among the calls.
abbrev pub mutates : List Call → Bool
mutates [] = false
mutates (applied j clean ∷ cs) = true
mutates (discovered j absent ∷ cs) = mutates cs
mutates (observed j ∷ cs) = mutates cs
mutates (fetched j ∷ cs) = mutates cs
mutates (notified j ∷ cs) = mutates cs

mutates-Silent : (cs : List Call) → Silent cs → mutates cs ≡ false
mutates-Silent [] h = refl
mutates-Silent (applied j clean ∷ cs) h = ground (arith, h.0)
mutates-Silent (discovered j absent ∷ cs) h = mutates-Silent cs h.1
mutates-Silent (observed j ∷ cs) h = mutates-Silent cs h.1
mutates-Silent (fetched j ∷ cs) h = mutates-Silent cs h.1
mutates-Silent (notified j ∷ cs) h = mutates-Silent cs h.1

if-mutates :
    (b : Bool) (x y : Driven)
    → mutates x.calls ≡ false
    → (b ≡ false → mutates y.calls ≡ false)
    → mutates (if b then x else y).calls ≡ false
if-mutates true x y h k = h
if-mutates false x y h k = k refl

module _ (w : World) (op : Operation) (e : op.state ≡ OpState.verifying) (db : Db) where
  verify_create-mutates : mutates (verify_create w op db).calls ≡ false
  unfolding verify_create
  verify_create-mutates =
      if-mutates (discovers w op) _ (freeze w op db)
        (mutates-Silent _
          (on_discovered-Settles Edge w op (λ t x _ _. x) (λ _. Edge.absent) e db (w.discover op.id)
            (λ _. Edge.absent)).1)
        (λ _. refl)

  verify-mutates : (r : Reply Action) → mutates (verify_with w op db r).calls ≡ false
  unfolding verify_with redispatch
  verify-mutates (failed cause) =
      mutates-Silent _ (gave_up-Settles Edge w op (λ t x _ _. x) (λ _. Edge.absent) e cause db).1
  verify-mutates (answered a) =
      if-mutates (is_park_op op.kind) (redispatch w op run_now db) _ refl (λ _.
        elim (Bool-cases (is_delete op.kind)) [
          | inl del ↦ ground (
            arith,
            del,
            mutates-Silent _
                (verify_delete-Settles Edge w op (λ t x _ _. x) (λ _. Edge.absent) e a.ref db
                  del).1,
          )
          | inr n ↦ ground (arith, n, verify_create-mutates)
        ])

by_state-mutates :
    (w : World) (op : Operation) (db : Db) (s : OpState)
    → op.state ≡ s
    → mutates (by_state w op db s).calls ≡ true
    → s ≡ OpState.journaled
unfolding poll verify
by_state-mutates w op db OpState.journaled e h = refl
by_state-mutates w op db OpState.external_accepted e h = ground (
  arith,
  h,
  mutates-Silent _ (poll-Settles Edge w op (λ t x _. x) e db (driver_and_action w op db)).1,
)
by_state-mutates w op db OpState.verifying e h =
    ground (arith, h, verify-mutates w op e db (driver_and_action w op db))
by_state-mutates w op db OpState.in_flight e h = ground arith
by_state-mutates w op db OpState.uncertain e h = ground arith
by_state-mutates w op db OpState.succeeded e h = ground arith
by_state-mutates w op db OpState.failed e h = ground arith
by_state-mutates w op db OpState.aborted e h = ground arith

-- A drive mutates at the provider only for an operation that is journaled.
pub drive-mutates :
    (w : World) (op : Operation) (db : Db)
    → mutates (drive w op db).calls ≡ true
    → op.state ≡ OpState.journaled
unfolding drive
drive-mutates w op db h = by_state-mutates w op db op.state refl h

-- Invariant 7: in every run of the engine, through any number of crashes before or after the
-- provider call, restarts and manual resolutions, a drive sends a journaled create to the provider
-- only when the log leaves no doubt about it: after each earlier attempt the provider was proved
-- not to have been reached, or a discovery by the operation's label found nothing once the
-- verification window was over.
pub Run-create :
    {start db : Db} {log : List Call} (w : World) (op : Operation)
    → Run start log db
    → IsKnown op.id start
    → get_row op_id op.id db.operations ≡ some op
    → op.kind ≡ OpKind.create
    → mutates (drive w op db).calls ≡ true
    → doubt op.id false log ≡ false
Run-create w op run known g k h = (Run-Good op.id run known).1 op g k (drive-mutates w op _ h)
