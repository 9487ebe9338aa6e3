-- ===== src/Machines/Retry.antt =====
-- The operator's requests can be repeated (internal/app/park.go).
use fleetplane.Prelude.{ℕ, ◌≡◌, inl, inr, subst, Bool, false, not, ◌||◌, some, arith, Option-cases}
use fleetplane.Prelude.Outcome.{ok, err, other, guard, >>=-eq-ok}
use fleetplane.Phase.{Phase, phase_eq}
use fleetplane.Provider.{ActionKind}
use fleetplane.Store.{Db, OpKind, EventType}
use fleetplane.Store.Rows.{get_row, get_row-key}
use fleetplane.Store.Resources
use fleetplane.Store.Resources.{res_id}
use fleetplane.Machines.{journal_op, journal_phase_op, journal_start}
use fleetplane.Machines.Gates.{IsJournaled, journal_op-IsJournaled, journal_stop-IsJournaled}
use fleetplane.Machines.Operator.{park_resource, start_resource}

journal_start-IsJournaled :
    (parking : ℕ → ℕ → Bool) (op res now : ℕ) (db : Db) {db' : Db}
    → journal_start parking op res now db ≡ ok db'
    → IsJournaled op res OpKind.start Phase.starting db db'
unfolding journal_start journal_phase_op Resources.get
journal_start-IsJournaled parking op res now db {db'} h =
    let (r, g, h1) = >>=-eq-ok (Resources.get res db) _ h in
    let row : get_row res_id res db.resources ≡ some r = ground (arith, g) in
    let here : r.id ≡ res = get_row-key res_id res db.resources r row in
    elim (Option-cases r.external_id) [
      | inl e ↦ ground (arith, e)
      | inr (ext, e) ↦
          let done : journal_op op OpKind.start ActionKind.start_action false
                EventType.resource_start r ext now Phase.parked Phase.starting db
              ≡ ok db' =
            ground (arith, e) in
          subst (λ i. IsJournaled op i OpKind.start Phase.starting db db') here
            (journal_op-IsJournaled op OpKind.start ActionKind.start_action false
              EventType.resource_start r ext now Phase.parked Phase.starting db done).0
    ]

-- A request to park or to start a machine that is repeated after it has succeeded changes nothing: it
-- is told that the machine is already there.
pub repeated_request :
    (parking : ℕ → ℕ → Bool) (op res now later_op later : ℕ) (db : Db) {d : Db}
    → (park_resource parking op res now db ≡ ok d
        → park_resource parking later_op res later d ≡ err other)
      × (start_resource parking op res now db ≡ ok d
          → start_resource parking later_op res later d ≡ err other)
unfolding park_resource start_resource Resources.get
repeated_request parking op res now later_op later db {d} = (
  λ h.
      let (r, g, h1) = >>=-eq-ok (Resources.get res db) _ h in
      let (_, p, h2) =
        >>=-eq-ok
          (guard (not (phase_eq r.phase Phase.parking || phase_eq r.phase Phase.parked)) other) _
          h1 in
      let (x, at, to) = (journal_stop-IsJournaled parking op res now false db h2).1.0 in
      ground (arith, at, to),
  λ h.
      let (r, g, h1) = >>=-eq-ok (Resources.get res db) _ h in
      let (_, p, h2) =
        >>=-eq-ok
          (guard
            (not (
              phase_eq r.phase Phase.starting
              || phase_eq r.phase Phase.ready
              || phase_eq r.phase Phase.allocated))
            other)
          _ h1 in
      let ((x, at, to), _) = journal_start-IsJournaled parking op res now db h2 in
      ground (arith, at, to),
)
