-- ===== src/Scheduler/Ordered.antt =====
-- The operation behind a pre-bound acquisition: the start or the create that the scheduler journals
-- for it (internal/scheduler/scheduler.go).
use fleetplane.Prelude.{
  ℕ, ◌≡◌, ◌⊎◌, inl, inr, ◌∙◌, ap, subst, Bool, some, ◌∷◌, arith, Option-cases, false,
}
use fleetplane.Prelude.Outcome.{ok, >>=-eq-ok, OnOk}
use fleetplane.Phase.{Phase}
use fleetplane.Provider.{ActionKind}
use fleetplane.Store.{Db, Acquisition, AcqState, Operation, OpKind, OpState, EventType}
use fleetplane.Store.Rows.{get_row-key}
use fleetplane.Store.Resources
use fleetplane.Store.Resources.{res_id}
use fleetplane.Store.Acquisitions
use fleetplane.Store.Operations
use fleetplane.Store.Events
use fleetplane.Machines.{journal_phase_op, journal_start}
use fleetplane.Machines.Gates.{journal_op-IsJournaled}
use fleetplane.Service.{journal_create}
use fleetplane.Provision.{Planner, CreateSpec, Prepared, prepare}
use fleetplane.Scheduler.Ranking.{Env}
use fleetplane.Scheduler.Parked.{claim_parked}
use fleetplane.Scheduler.Ladder.{scale_to}

-- The newest operation in the journal is a start or a create of the machine, not yet sent; the rest
-- of the journal is as it was.
abbrev pub IsOrdered : ℕ → Db → Db → Type 0
IsOrdered res db d =
    (o : Operation) × (d.operations ≡ o ∷ db.operations)
    × (o.resource_id ≡ some res)
    × (o.state ≡ OpState.journaled)
    × ((o.kind ≡ OpKind.start) ⊎ (o.kind ≡ OpKind.create))

transition-operations :
    (id : ℕ) (from to : AcqState) (at : ℕ) (db : Db) {d : Db}
    → Acquisitions.transition id from to at db ≡ ok d
    → d.operations ≡ db.operations
unfolding Acquisitions.transition
transition-operations id from to at db h = ground arith

prebind-operations :
    (id res : ℕ) (db : Db) {d : Db}
    → Acquisitions.set_pending_resource id res db ≡ ok d
    → d.operations ≡ db.operations
unfolding Acquisitions.set_pending_resource
prebind-operations id res db h = ground arith

start-IsOrdered :
    (parking : ℕ → ℕ → Bool) (op res now : ℕ) (db : Db) {d : Db}
    → journal_start parking op res now db ≡ ok d
    → IsOrdered res db d
unfolding journal_start journal_phase_op Resources.get
start-IsOrdered parking op res now db {d} h =
    let (r, g, h1) = >>=-eq-ok (Resources.get res db) _ h in
    let here : r.id ≡ res = get_row-key res_id res db.resources r (ground (arith, g)) in
    elim (Option-cases r.external_id) [
      | inl e ↦ ground (arith, e)
      | inr (ext, e) ↦
          let (j, _) =
            journal_op-IsJournaled op OpKind.start ActionKind.start_action false
              EventType.resource_start r ext now Phase.parked Phase.starting db {db' = d}
              (ground (arith, e)) in
          let (o, ops, _, kind, at, state) = j.1 in
          (o, ops, subst (λ i. o.resource_id ≡ some i) here at, state, inl kind)
    ]

-- A planned operation creates the planned machine.
abbrev pub Plans : Prepared → Type 0
Plans p =
    (p.op.kind ≡ OpKind.create)
    × (p.op.resource_id ≡ some p.resource.id)
    × (p.op.state ≡ OpState.journaled)

pub prepare-Plans :
    (pl : Planner) (cs : CreateSpec) (res op now : ℕ) → OnOk Plans (prepare pl cs res op now)
unfolding prepare
prepare-Plans pl cs res op now = ground arith

create-operations :
    (p : Prepared) (db : Db) {d : Db}
    → journal_create p.resource p.op db ≡ ok d
    → d.operations ≡ p.op ∷ db.operations
unfolding journal_create Resources.insert Operations.append Events.append
create-operations p db h = ground arith

pub claim-IsOrdered :
    (e : Env) (i : ℕ) (acq : Acquisition) (res : ℕ) (db : Db) {d : Db}
    → claim_parked e i acq res db ≡ ok d
    → IsOrdered res db d
unfolding claim_parked
claim-IsOrdered e i acq res db h =
    let (d1, e1, h1) =
      >>=-eq-ok (Acquisitions.transition acq.id AcqState.pending AcqState.provisioning e.now db) _
        h in
    let (d2, e2, h2) = >>=-eq-ok (journal_start e.parking (e.op_ids i) res e.now d1) _ h1 in
    let (o, ops, at, state, kind) = start-IsOrdered e.parking (e.op_ids i) res e.now d1 e2 in
    (
      o,
      prebind-operations acq.id res d2 h2
          ∙ ops
          ∙ ap (λ l. o ∷ l)
              (transition-operations acq.id AcqState.pending AcqState.provisioning e.now db e1),
      at,
      state,
      kind,
    )

pub scale_to-IsOrdered :
    (e : Env) (acq : Acquisition) (p : Prepared) (db : Db) {d : Db}
    → Plans p
    → scale_to e acq p db ≡ ok d
    → IsOrdered p.resource.id db d
unfolding scale_to
scale_to-IsOrdered e acq p db (kind, at, state) h =
    let (d1, e1, h1) =
      >>=-eq-ok (Acquisitions.transition acq.id AcqState.pending AcqState.provisioning e.now db) _
        h in
    let (d2, e2, h2) = >>=-eq-ok (journal_create p.resource p.op d1) _ h1 in
    (
      p.op,
      prebind-operations acq.id p.resource.id d2 h2
          ∙ create-operations p d1 e2
          ∙ ap (λ l. p.op ∷ l)
              (transition-operations acq.id AcqState.pending AcqState.provisioning e.now db e1),
      at,
      state,
      inr kind,
    )
