-- ===== src/Engine/Safety.antt =====
-- Which rows of the operation journal drive and Step (internal/operations/engine.go) keep.
use fleetplane.Prelude.{
  ℕ, ◌≡◌, inl, inr, refl, sym, subst, ◌∙◌, ap, true, some, ◌==◌, arith, Bool-cases,
}
use fleetplane.Store.{Db, Operation, OpState}
use fleetplane.Store.Rows.{get_row}
use fleetplane.Store.Operations
use fleetplane.Store.Operations.{op_id}
use fleetplane.Engine.Base.{World, driver_and_action}
use fleetplane.Engine.Trail.{Edge, Trail, Walk, Trail-other, Trail-Walk}
use fleetplane.Engine.Handlers.{Leaves}
use fleetplane.Engine.Progress.{dispatch-Leaves}
use fleetplane.Engine.Polling.{poll-Settles}
use fleetplane.Engine.Observing.{verify-Leaves}
use fleetplane.Engine.Dispatch.{dispatch}
use fleetplane.Engine.Poll.{poll}
use fleetplane.Engine.Verify.{verify}
use fleetplane.Engine.Drive.{by_state, drive}

by_state-Leaves :
    (w : World) (op : Operation) (db : Db) (s : OpState)
    → op.state ≡ s
    → Leaves Edge op db (by_state w op db s)
unfolding dispatch poll verify
by_state-Leaves w op db OpState.journaled e =
    dispatch-Leaves Edge w op (subst (λ s. Edge s OpState.failed) (sym e) Edge.not_dispatched)
      Edge.dispatched (λ t x _ _. x) Edge.not_reached db (driver_and_action w op db)
by_state-Leaves w op db OpState.external_accepted e =
    (poll-Settles Edge w op (λ t x _. x) e db (driver_and_action w op db)).0
by_state-Leaves w op db OpState.verifying e =
    verify-Leaves Edge w op (λ t x _ _. x) (λ _. Edge.absent) e db (driver_and_action w op db)
by_state-Leaves w op db OpState.in_flight e = Trail.still
by_state-Leaves w op db OpState.uncertain e = Trail.still
by_state-Leaves w op db OpState.succeeded e = Trail.still
by_state-Leaves w op db OpState.failed e = Trail.still
by_state-Leaves w op db OpState.aborted e = Trail.still

pub drive-Leaves : (w : World) (op : Operation) (db : Db) → Leaves Edge op db (drive w op db)
unfolding drive
drive-Leaves w op db = by_state-Leaves w op db op.state refl

num_eq : {a b : ℕ} → (a == b) ≡ true → a ≡ b
num_eq h = ground arith

-- Driving one operation takes every operation along a walk of the state machine.
pub drive-Walk :
    (w : World) (op : Operation) (db : Db) (j : ℕ) (o : Operation)
    → get_row op_id j db.operations ≡ some o
    → (o' : Operation) × (get_row op_id j (drive w op db).db.operations ≡ some o')
      × Walk o.state o'.state
drive-Walk w op db j o g = elim (Bool-cases (op.id == j)) [
  | inl same ↦
      subst
        (λ i.
          (o' : Operation) × (get_row op_id i (drive w op db).db.operations ≡ some o')
          × Walk o.state o'.state)
        (num_eq same)
        (Trail-Walk o (drive-Leaves w op db)
          (ap (λ i. get_row op_id i db.operations) (num_eq same) ∙ g))
  | inr apart ↦ (o, Trail-other j (drive-Leaves w op db) apart ∙ g, Walk.stay)
]
