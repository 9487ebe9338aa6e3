-- ===== src/Scheduler/AcqRows.antt =====
-- The row of an acquisition through the transactions of the scheduler
-- (internal/scheduler/scheduler.go).
use fleetplane.Prelude.{
  ℕ, ◌≡◌, inl, inr, refl, ◌∙◌, ap, Bool, Option, none, some, ◌==◌, arith, Bool-cases,
}
use fleetplane.Prelude.Outcome.{
  Outcome, Error, ok, err, conflict, >>=-eq-ok, OnOk, OnOk-ok, or_fail,
}
use fleetplane.Capacity.{Vector}
use fleetplane.Store.{Db, Acquisition, AcqState}
use fleetplane.Store.Rows.{get_row, put_row, get_row-put_row}
use fleetplane.Store.Resources
use fleetplane.Store.Acquisitions
use fleetplane.Store.Acquisitions.{acq_id}
use fleetplane.Store.Operations
use fleetplane.Store.Events
use fleetplane.Machines.{journal_phase_op, journal_start}
use fleetplane.Service.{journal_create}
use fleetplane.Provision.{Prepared, prepare}
use fleetplane.Reconcile.{Class}
use fleetplane.Scheduler.{reserve}
use fleetplane.Scheduler.Steps.{steps}
use fleetplane.Scheduler.Ranking.{Env}
use fleetplane.Scheduler.Parked.{claim_parked}
use fleetplane.Scheduler.Ordered.{IsOrdered, Plans, prepare-Plans, scale_to-IsOrdered}
use fleetplane.Scheduler.Ladder.{scale_to, scale_class, scale_on_demand, scale_spec}

-- The row of an acquisition, with what it shows.
abbrev pub Row : (Acquisition → Type 0) → ℕ → Db → Type 0
Row P id d = (a : Acquisition) × (get_row acq_id id d.acquisitions ≡ some a) × P a

abbrev pub IsBound : ℕ → Acquisition → Type 0
IsBound lease a = (a.state ≡ AcqState.bound) × (a.lease_id ≡ some lease)

abbrev pub IsPrebound : ℕ → Acquisition → Type 0
IsPrebound res a = (a.state ≡ AcqState.provisioning) × (a.pending_resource_id ≡ some res)

-- A row after an UPDATE of it.
put-Row :
    (id : ℕ) (f : Acquisition → Acquisition) (db d : Db) (a : Acquisition)
    → ((x : Acquisition) → acq_id (f x) ≡ acq_id x)
    → get_row acq_id id db.acquisitions ≡ some a
    → d.acquisitions ≡ put_row acq_id id f db.acquisitions
    → get_row acq_id id d.acquisitions ≡ some (f a)
put-Row id f db d a k g same =
    ap (get_row acq_id id) same
    ∙ get_row-put_row acq_id id id f db.acquisitions k
    ∙ ground (arith, g)

-- A table row that an update needs.
or_fail-some {ℓ} : {A : Type ℓ} (o : Option A) (x : Error) {a : A} → or_fail o x ≡ ok a → o ≡ some a
or_fail-some none x h = cc
or_fail-some (some a) x h = cc

bind-Row :
    (id lease at : ℕ) (db : Db) {d : Db}
    → Acquisitions.bind id lease at db ≡ ok d
    → Row (IsBound lease) id d
unfolding Acquisitions.bind
bind-Row id lease at db {d} h =
    let (a, g, h1) = >>=-eq-ok (or_fail (get_row acq_id id db.acquisitions) conflict) _ h in
    (
      record a {
        state = AcqState.bound;
        lease_id = some lease;
        pending_resource_id = none;
        updated_at = at;
      },
      put-Row id
          (λ x. record x {
            state = AcqState.bound;
            lease_id = some lease;
            pending_resource_id = none;
            updated_at = at;
          })
          db d a (λ _. refl) (or_fail-some _ conflict g) (ground arith),
      (refl, refl),
    )

pub reserve-Row :
    (lease now : ℕ) (acq : Acquisition) (res : ℕ) (want : Vector) (exclusive : Bool) (db : Db)
    {d : Db}
    → reserve lease now acq res want exclusive db ≡ ok d
    → Row (IsBound lease) acq.id d
unfolding Events.append
reserve-Row lease now acq res want exclusive db {d} h =
    let st = steps lease now acq res want exclusive db h in
    let (a, g, b) = bind-Row acq.id lease now st.db2 st.bound in
    (a, ap (λ x. get_row acq_id acq.id x.acquisitions) st.result ∙ g, b)

abbrev moved_to : AcqState → ℕ → Acquisition → Acquisition
moved_to to at x = record x { state = to; updated_at = at }

-- A compare-and-set on the state that succeeds.
pub transition-Row :
    (id : ℕ) (from to : AcqState) (at : ℕ) (db : Db) {d : Db}
    → Acquisitions.transition id from to at db ≡ ok d
    → Row (λ a. a.state ≡ to) id d
unfolding Acquisitions.transition
transition-Row id from to at db {d} h =
    let (a, g, h1) = >>=-eq-ok (or_fail (get_row acq_id id db.acquisitions) conflict) _ h in
    (
      moved_to to at a,
      put-Row id (moved_to to at) db d a (λ _. refl) (or_fail-some _ conflict g) (ground arith),
      refl,
    )

-- The pre-bind of a provisioning acquisition.
prebind-Row :
    (id res : ℕ) (db : Db) {d : Db}
    → Row (λ a. a.state ≡ AcqState.provisioning) id db
    → Acquisitions.set_pending_resource id res db ≡ ok d
    → Row (IsPrebound res) id d
unfolding Acquisitions.set_pending_resource
prebind-Row id res db {d} (a, g, st) h = (
  record a { pending_resource_id = some res },
  put-Row id (λ x. record x { pending_resource_id = some res }) db d a (λ _. refl) g
      (ground (arith, g)),
  (st, refl),
)

-- What leaves the acquisitions alone keeps their rows.
same-Row :
    (P : Acquisition → Type 0) (id : ℕ) (db : Db) (m : Outcome Db) {d : Db}
    → OnOk (λ x. x.acquisitions ≡ db.acquisitions) m
    → m ≡ ok d
    → Row P id db
    → Row P id d
same-Row P id db (ok x) {d} k h (a, g, p) = (a, ap (get_row acq_id id) (ground (arith, k)) ∙ g, p)
same-Row P id db (err x) k h r = cc

start-acquisitions :
    (parking : ℕ → ℕ → Bool) (op res now : ℕ) (db : Db)
    → OnOk (λ x. x.acquisitions ≡ db.acquisitions) (journal_start parking op res now db)
unfolding journal_start journal_phase_op Resources.get Resources.cas_phase Operations.append
    Events.append
start-acquisitions parking op res now db = ground arith

create-acquisitions :
    (p : Prepared) (db : Db)
    → OnOk (λ x. x.acquisitions ≡ db.acquisitions) (journal_create p.resource p.op db)
unfolding journal_create Resources.insert Operations.append Events.append
create-acquisitions p db = ground arith

pub claim-Row :
    (e : Env) (i : ℕ) (acq : Acquisition) (res : ℕ) (db : Db) {d : Db}
    → claim_parked e i acq res db ≡ ok d
    → Row (IsPrebound res) acq.id d
unfolding claim_parked
claim-Row e i acq res db h =
    let (d1, e1, h1) =
      >>=-eq-ok (Acquisitions.transition acq.id AcqState.pending AcqState.provisioning e.now db) _
        h in
    let (d2, e2, h2) = >>=-eq-ok (journal_start e.parking (e.op_ids i) res e.now d1) _ h1 in
    prebind-Row acq.id res d2
      (same-Row (λ a. a.state ≡ AcqState.provisioning) acq.id d1
        (journal_start e.parking (e.op_ids i) res e.now d1)
        (start-acquisitions e.parking (e.op_ids i) res e.now d1) e2
        (transition-Row acq.id AcqState.pending AcqState.provisioning e.now db e1))
      h2

scale_to-Row :
    (e : Env) (acq : Acquisition) (p : Prepared) (db : Db) {d : Db}
    → scale_to e acq p db ≡ ok d
    → Row (IsPrebound p.resource.id) acq.id d
unfolding scale_to
scale_to-Row e acq p db h =
    let (d1, e1, h1) =
      >>=-eq-ok (Acquisitions.transition acq.id AcqState.pending AcqState.provisioning e.now db) _
        h in
    let (d2, e2, h2) = >>=-eq-ok (journal_create p.resource p.op d1) _ h1 in
    prebind-Row acq.id p.resource.id d2
      (same-Row (λ a. a.state ≡ AcqState.provisioning) acq.id d1 (journal_create p.resource p.op d1)
        (create-acquisitions p d1) e2
        (transition-Row acq.id AcqState.pending AcqState.provisioning e.now db e1))
      h2

pub scale-Row :
    (e : Env) (acq : Acquisition) (db : Db) {d : Db}
    → scale_on_demand e acq db ≡ ok d
    → Row (λ a. (res : ℕ) × IsPrebound res a × IsOrdered res db d) acq.id d
unfolding scale_on_demand
scale-Row e acq db {d} h = elim (Bool-cases (acq.class == 0)) [
  | inl y ↦ ground (arith, y)
  | inr n ↦ by_class (e.classes acq.class) (ground (arith, n))
]
  where
    by_class :
        (cls : Option Class)
        → scale_class e acq cls db ≡ ok d
        → Row (λ a. (res : ℕ) × IsPrebound res a × IsOrdered res db d) acq.id d
    by_class none k = cc
    by_class (some cls) k =
        let m = prepare e.planner (scale_spec acq cls) e.resource_id (e.op_ids 0) e.now in
        let (p, e1, k1) = >>=-eq-ok m _ k in
        let planned =
          OnOk-ok Plans m p e1
            (prepare-Plans e.planner (scale_spec acq cls) e.resource_id (e.op_ids 0) e.now) in
        let (a, g, b) = scale_to-Row e acq p db k1 in
        (a, g, (p.resource.id, b, scale_to-IsOrdered e acq p db planned k1))
