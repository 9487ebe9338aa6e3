-- ===== src/LeaseManager/Held.antt =====
-- What the end of a lease guarantees (internal/lease/manager.go).
use fleetplane.Prelude.{ℕ, ◌+◌, ◌≤◌, ◌≡◌, refl, sym, ◌∙◌, ap, subst, true, some, arith}
use fleetplane.Prelude.Outcome.{ok, err, conflict, guard, >>=-eq-ok}
use fleetplane.Store.{Db, Lease, LeaseState, AcqState, EventType, lease_eq}
use fleetplane.Store.Rows.{
  get_row, put_row, get_row-put_row, count_where, get_row-key, count_where-put_row,
}
use fleetplane.Store.Resources
use fleetplane.Store.Resources.{is_none, res_id, enter_phase}
use fleetplane.Store.Leases
use fleetplane.Store.Leases.{lease_id, holds, holds_exclusive, enter_state}
use fleetplane.Store.Acquisitions
use fleetplane.Store.Events
use fleetplane.Scheduler.Reserve.{AllocatedIsHeld}
use fleetplane.LeaseManager.{end_bound, end_acquisition, vacate, end_lease, finish, release}
use fleetplane.LeaseManager.Ended.{acq_resources, end_lease-Held, ended-inv, lease-inv, same_acq}

-- The row of a lease that was read is on the same machine still.
abbrev pub SameMachine : Db → Lease → Type 0
SameMachine db l =
    (l0 : Lease) → get_row lease_id l.id db.leases ≡ some l0 → l0.resource_id ≡ l.resource_id

pub row-SameMachine :
    (db : Db) (l : Lease) → get_row lease_id l.id db.leases ≡ some l → SameMachine db l
row-SameMachine db l g l0 g0 = ground (arith, g, g0)

-- Ending a lease keeps every allocated machine held by an active lease: the machine whose last
-- lease ends goes back to ready in the same transaction.
pub finish-AllocatedIsHeld :
    (l : Lease) (to : LeaseState) (acq_to : AcqState) (event : EventType) (now : ℕ) (db : Db)
    {db' : Db}
    → SameMachine db l
    → finish l to acq_to event now db ≡ ok db'
    → AllocatedIsHeld db
    → AllocatedIsHeld db'
unfolding finish end_acquisition Events.append enter_state
finish-AllocatedIsHeld l to acq_to event now db {db'} g h inv =
    let (db1, e1, h1) = >>=-eq-ok (Leases.transition l.id LeaseState.active to now db) _ h in
    let ended = end_bound acq_to now db1 (Acquisitions.get l.acquisition_id db1) in
    let (d2, e2, h2) = >>=-eq-ok (end_lease l.resource_id now ended) _ h1 in
    let (l0, g0, _, same) = lease-inv l.id to now db e1 in
    let good : AllocatedIsHeld d2 = end_lease-Held l.resource_id now ended e2 (λ j x apart gx kx.
      let before =
        inv j x
          (ap (get_row res_id j) (
              sym (
                acq_resources acq_to now db1 (Acquisitions.get l.acquisition_id db1)
                ∙ ap (λ e. e.resources) same))
            ∙ gx)
          kx in
      subst (λ ls. 1 ≤ count_where (holds j) ls)
        (sym (
          same_acq acq_to now db1 (Acquisitions.get l.acquisition_id db1)
          ∙ ap (λ e. e.leases) same))
        (ground (
          arith,
          before,
          apart,
          g l0 g0,
          count_where-put_row lease_id (holds j) l.id (enter_state to now) db.leases l0 g0,
        ))) in
    let rows : db'.resources ≡ d2.resources = ground arith in
    let held : db'.leases ≡ d2.leases = ground arith in
    λ j r gr k.
      subst (λ ls. 1 ≤ count_where (holds j) ls) (sym held)
        (good j r (ap (get_row res_id j) (sym rows) ∙ gr) k)

-- `release` finds the lease, which is active, and ends it.
release-inv :
    (lease now : ℕ) (db : Db) {db' : Db}
    → release lease now db ≡ ok db'
    → (l : Lease) × (get_row lease_id lease db.leases ≡ some l)
      × (lease_eq l.state LeaseState.active ≡ true)
      × (finish l LeaseState.released AcqState.released EventType.lease_released now db ≡ ok db')
unfolding release Leases.get
release-inv lease now db h =
    let (l, g, h1) = >>=-eq-ok (Leases.get lease db) _ h in
    let (_, live, h2) = >>=-eq-ok (guard (lease_eq l.state LeaseState.active) conflict) _ h1 in
    (l, ground (arith, g), ground (arith, live), h2)

-- A release keeps every allocated machine held by an active lease.
pub release-AllocatedIsHeld :
    (lease now : ℕ) (db : Db) {db' : Db}
    → release lease now db ≡ ok db'
    → AllocatedIsHeld db
    → AllocatedIsHeld db'
release-AllocatedIsHeld lease now db h inv =
    let (l, g, _, h1) = release-inv lease now db h in
    finish-AllocatedIsHeld l LeaseState.released AcqState.released EventType.lease_released now db
      (row-SameMachine db l (
        subst (λ i. get_row lease_id i db.leases ≡ some l)
          (sym (get_row-key lease_id lease db.leases l g)) g))
      h1 inv

end_lease-leases :
    (res now : ℕ) (db : Db) {d : Db} → end_lease res now db ≡ ok d → d.leases ≡ db.leases
unfolding end_lease vacate Resources.cas_phase Resources.set_last_lease_ended Resources.get
end_lease-leases res now db h =
    let (db1, e1, h1) = >>=-eq-ok (Resources.set_last_lease_ended res now db) _ h in
    let (r, e2, h2) = >>=-eq-ok (Resources.get res db1) _ h1 in
    ground (arith, ended-inv res now db e1)

-- The leases after a lease has ended.
pub finish-leases :
    (l : Lease) (to : LeaseState) (acq_to : AcqState) (event : EventType) (now : ℕ) (db : Db)
    {db' : Db}
    → finish l to acq_to event now db ≡ ok db'
    → db'.leases ≡ put_row lease_id l.id (enter_state to now) db.leases
unfolding finish end_acquisition Events.append
finish-leases l to acq_to event now db {db'} h =
    let (db1, e1, h1) = >>=-eq-ok (Leases.transition l.id LeaseState.active to now db) _ h in
    let ended = end_bound acq_to now db1 (Acquisitions.get l.acquisition_id db1) in
    let (d2, e2, h2) = >>=-eq-ok (end_lease l.resource_id now ended) _ h1 in
    let (_, _, _, same) = lease-inv l.id to now db e1 in
    let last : db'.leases ≡ d2.leases = ground arith in
    last
    ∙ end_lease-leases l.resource_id now ended e2
    ∙ same_acq acq_to now db1 (Acquisitions.get l.acquisition_id db1)
    ∙ ap (λ e. e.leases) same

-- A release ends exactly one active lease, on the machine of that lease, and a lease is released
-- once: a second release is a conflict, whatever the clock.
pub release-once :
    (lease now later : ℕ) (db : Db) {db' : Db}
    → release lease now db ≡ ok db'
    → ((l : Lease) × (get_row lease_id lease db.leases ≡ some l)
        × (count_where (holds l.resource_id) db'.leases + 1
            ≡ count_where (holds l.resource_id) db.leases))
      × (release lease later db' ≡ err conflict)
unfolding release Leases.get enter_state
release-once lease now later db {db'} h =
    let (l, g, live, h1) = release-inv lease now db h in
    let at_id = get_row-key lease_id lease db.leases l g in
    let after : db'.leases
        ≡ put_row lease_id lease (enter_state LeaseState.released now) db.leases =
      finish-leases l LeaseState.released AcqState.released EventType.lease_released now db h1
      ∙ ap (λ i. put_row lease_id i (enter_state LeaseState.released now) db.leases) at_id in
    let gone : get_row lease_id lease db'.leases ≡ some (enter_state LeaseState.released now l) =
      ap (get_row lease_id lease) after
      ∙ get_row-put_row lease_id lease lease (enter_state LeaseState.released now) db.leases
          (λ _. refl)
      ∙ ground (arith, g) in
    (
      (
        l,
        g,
        ap (λ ls. count_where (holds l.resource_id) ls + 1) after
            ∙ ground (
              arith,
              live,
              count_where-put_row lease_id (holds l.resource_id) lease
                  (enter_state LeaseState.released now) db.leases l g,
            ),
      ),
      ground (arith, gone),
    )
