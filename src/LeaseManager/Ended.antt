-- ===== src/LeaseManager/Ended.antt =====
-- The tables after the end of a lease (internal/lease/manager.go, endLeaseLocked).
use fleetplane.Prelude.{
  ℕ, ◌≤◌, ◌≡◌, inl, inr, refl, sym, ◌∙◌, ap, subst, true, false, ◌&&◌, some, List, ◌==◌,
  if◌then◌else◌, arith, Bool-cases, Option-cases,
}
use fleetplane.Prelude.Outcome.{Outcome, ok, err, >>=-eq-ok}
use fleetplane.Phase.{Phase, phase_eq}
use fleetplane.Store.{Db, Resource, Lease, LeaseState, Acquisition, AcqState, lease_eq}
use fleetplane.Store.Rows.{get_row, put_row, get_row-put_row, map_row, count_where}
use fleetplane.Store.Resources
use fleetplane.Store.Resources.{is_none, res_id, enter_phase}
use fleetplane.Store.Resources.Phases.{cas_phase-inv}
use fleetplane.Store.Leases
use fleetplane.Store.Leases.{lease_id, holds, holds_exclusive, enter_state}
use fleetplane.Store.Acquisitions
use fleetplane.Scheduler.Reserve.{AllocatedIsHeld}
use fleetplane.LeaseManager.{end_bound, vacate, end_lease}

pub lease-inv :
    (id : ℕ) (to : LeaseState) (at : ℕ) (db : Db) {d : Db}
    → Leases.transition id LeaseState.active to at db ≡ ok d
    → (l : Lease) × (get_row lease_id id db.leases ≡ some l)
      × (lease_eq l.state LeaseState.active ≡ true)
      × (d ≡ record db { leases = put_row lease_id id (enter_state to at) db.leases })
unfolding Leases.transition
lease-inv id to at db h = elim (Option-cases (get_row lease_id id db.leases)) [
  | inl e ↦ ground arith
  | inr (l, e) ↦ (l, e, ground arith, ground arith)
]

pub same_acq :
    (to : AcqState) (now : ℕ) (db : Db) (m : Outcome Acquisition)
    → (end_bound to now db m).leases ≡ db.leases
unfolding Acquisitions.transition
same_acq to now db (err e) = refl
same_acq to now db (ok acq) = ground arith

pub acq_resources :
    (to : AcqState) (now : ℕ) (db : Db) (m : Outcome Acquisition)
    → (end_bound to now db m).resources ≡ db.resources
unfolding Acquisitions.transition
acq_resources to now db (err e) = refl
acq_resources to now db (ok acq) = ground arith

-- The idle clock touches one row, and not its phase.
pub ended-inv :
    (res now : ℕ) (db : Db) {d : Db}
    → Resources.set_last_lease_ended res now db ≡ ok d
    → (d.leases ≡ db.leases)
      × (d.resources
          ≡ put_row res_id res
              (λ x. record x { last_lease_ended_at = some now; updated_at = now })
              db.resources)
unfolding Resources.set_last_lease_ended
ended-inv res now db h = ground arith

phase-kept :
    (res now j : ℕ) (rs : List Resource) (r : Resource)
    → get_row res_id j
        (put_row res_id res (λ x. record x { last_lease_ended_at = some now; updated_at = now }) rs)
      ≡ some r
    → (r0 : Resource) × (get_row res_id j rs ≡ some r0) × (r0.phase ≡ r.phase)
phase-kept res now j rs r g =
    let row =
      sym (
        get_row-put_row res_id res j
          (λ x. record x { last_lease_ended_at = some now; updated_at = now }) rs (λ _. refl))
      ∙ g in
    elim (Option-cases (get_row res_id j rs)) [
      | inl e ↦ ground (arith, row)
      | inr (r0, e) ↦ (r0, e, ground (arith, row))
    ]

num_eq : {a b : ℕ} → (a == b) ≡ true → a ≡ b
num_eq h = ground arith

-- Every allocated machine but one is held.
abbrev HeldBut : ℕ → Db → Type 0
HeldBut res db =
    (j : ℕ) (r : Resource)
    → (res == j) ≡ false
    → get_row res_id j db.resources ≡ some r
    → r.phase ≡ Phase.allocated
    → 1 ≤ count_where (holds j) db.leases

vacate-Held :
    (r : Resource) (res now : ℕ) (db : Db) {d : Db}
    → get_row res_id res db.resources ≡ some r
    → vacate r res now db ≡ ok d
    → HeldBut res db
    → AllocatedIsHeld d
unfolding vacate Leases.count_active enter_phase
vacate-Held r res now db {d} g h held j x gx kx =
    elim (Bool-cases (count_where (holds res) db.leases == 0 && phase_eq r.phase Phase.allocated)) [
      | inr n ↦
          let same : d ≡ db = ground (arith, n) in
          let gx' : get_row res_id j db.resources ≡ some x =
            ap (λ e. get_row res_id j e.resources) (sym same) ∙ gx in
          subst (λ e. 1 ≤ count_where (holds j) e.leases) (sym same)
            (elim (Bool-cases (res == j)) [
              | inr apart ↦ held j x apart gx' kx
              | inl y ↦
                  subst (λ i. 1 ≤ count_where (holds i) db.leases) (num_eq y)
                    (let gr : get_row res_id res db.resources ≡ some x =
                        subst (λ i. get_row res_id i db.resources ≡ some x) (sym (num_eq y)) gx' in
                      ground (arith, n, g, gr, kx))
            ])
      | inl y ↦
          let (p, gp, _, _, same) =
            cas_phase-inv res Phase.allocated Phase.ready now db {db' = d} (ground (arith, y)) in
          let row : (if res == j
                then map_row (enter_phase Phase.allocated Phase.ready now)
                    (get_row res_id j db.resources)
                else get_row res_id j db.resources)
              ≡ some x =
            sym (
              get_row-put_row res_id res j (enter_phase Phase.allocated Phase.ready now)
                db.resources (λ _. refl))
            ∙ ap (λ e. get_row res_id j e.resources) (sym same)
            ∙ gx in
          subst (λ e. 1 ≤ count_where (holds j) e.leases) (sym same)
            (elim (Bool-cases (res == j)) [
              | inr apart ↦ held j x apart (ground (arith, apart, row)) kx
              | inl yes_same ↦ elim (Option-cases (get_row res_id j db.resources)) [
                | inl e ↦ ground (arith, e, row, yes_same)
                | inr (q, e) ↦ ground (arith, e, row, yes_same, kx)
              ]
            ])
    ]

pub end_lease-Held :
    (res now : ℕ) (db : Db) {d : Db}
    → end_lease res now db ≡ ok d
    → HeldBut res db
    → AllocatedIsHeld d
unfolding end_lease Resources.get
end_lease-Held res now db h held =
    let (db1, e1, h1) = >>=-eq-ok (Resources.set_last_lease_ended res now db) _ h in
    let (r, e2, h2) = >>=-eq-ok (Resources.get res db1) _ h1 in
    let (same_l, same_r) = ended-inv res now db e1 in
    vacate-Held r res now db1 (ground (arith, e2)) h2 (λ j x apart g k.
      let (x0, g0, k0) =
        phase-kept res now j db.resources x (ap (get_row res_id j) (sym same_r) ∙ g) in
      subst (λ ls. 1 ≤ count_where (holds j) ls) (sym same_l) (held j x0 apart g0 (k0 ∙ k)))
