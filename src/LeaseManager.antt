-- ===== src/LeaseManager.antt =====
-- internal/lease/manager.go: release, release by acquisition, and the expiry sweep.
pub mod Held
pub mod Sweep
pub mod Ended
use fleetplane.Prelude.{
  ℕ, Bool, true, false, not, ◌&&◌, Option, none, some, List, [], ◌∷◌, ◌==◌, suc, if◌then◌else◌,
}
use fleetplane.Prelude.Outcome.{Outcome, ok, err, conflict, guard, ◌>>=◌, ◌>>◌}
use fleetplane.Phase.{Phase, phase_eq}
use fleetplane.Store.{
  Db, Resource, Lease, LeaseState, Acquisition, AcqState, EventType, lease_eq, acq_eq,
}
use fleetplane.Store.Resources
use fleetplane.Store.Leases
use fleetplane.Store.Acquisitions
use fleetplane.Store.Events

-- A database write whose error is ignored.
abbrev pub attempt : Db → Outcome Db → Db
attempt db (ok d) = d
attempt db (err e) = db

-- The acquisition that is bound to the lease ends with it; any error is ignored.
abbrev pub end_bound : AcqState → ℕ → Db → Outcome Acquisition → Db
end_bound to now db (err e) = db
end_bound to now db (ok acq) =
    if acq_eq acq.state AcqState.bound
    then attempt db (Acquisitions.transition acq.id AcqState.bound to now db)
    else db

unfoldable pub end_acquisition : AcqState → ℕ → ℕ → Db → Db
end_acquisition to acq now db = end_bound to now db (Acquisitions.get acq db)

-- allocated → ready after the last lease.
unfoldable pub vacate : Resource → ℕ → ℕ → Db → Outcome Db
vacate r res now db =
    if Leases.count_active res db == 0 && phase_eq r.phase Phase.allocated
    then Resources.cas_phase res Phase.allocated Phase.ready now db
    else ok db

-- endLeaseLocked: the idle clock, then the phase.
unfoldable pub end_lease : ℕ → ℕ → Db → Outcome Db
unfolding vacate
end_lease res now db = do
  db1 ← Resources.set_last_lease_ended res now db
  r ← Resources.get res db1
  vacate r res now db1

-- The transaction that ends a lease in the state `to`, its acquisition in `acq_to`.
unfoldable pub finish : Lease → LeaseState → AcqState → EventType → ℕ → Db → Outcome Db
unfolding end_acquisition end_lease
finish l to acq_to event now db = do
  db1 ← Leases.transition l.id LeaseState.active to now db
  db2 ← end_lease l.resource_id now (end_acquisition acq_to l.acquisition_id now db1)
  ok (Events.append now event (some l.resource_id) none db2)

-- Release.
unfoldable pub release : ℕ → ℕ → Db → Outcome Db
unfolding finish
release lease now db = do
  l ← Leases.get lease db
  guard (lease_eq l.state LeaseState.active) conflict
  finish l LeaseState.released AcqState.released EventType.lease_released now db

abbrev pub release_bound : Option ℕ → ℕ → Db → Outcome Db
release_bound none now db = err conflict
release_bound (some lease) now db = release lease now db

-- ReleaseAcquisition.
abbrev pub release_in : Acquisition → AcqState → ℕ → Db → Outcome Db
release_in acq AcqState.bound now db = release_bound acq.lease_id now db
release_in acq AcqState.pending now db =
    Acquisitions.transition acq.id AcqState.pending AcqState.released now db
release_in acq AcqState.provisioning now db =
    Acquisitions.transition acq.id AcqState.provisioning AcqState.released now db
release_in acq AcqState.failed now db = err conflict
release_in acq AcqState.released now db = err conflict
release_in acq AcqState.expired now db = err conflict

unfoldable pub release_acquisition : ℕ → ℕ → Db → Outcome Db
unfolding release
release_acquisition acq now db = Acquisitions.get acq db >>= λ a. release_in a a.state now db

abbrev pub sweep_next : (Db → Db × ℕ) → Db → Outcome Db → Db × ℕ
sweep_next rest db (err e) = rest db
sweep_next rest db (ok d) = ((rest d).0, suc (rest d).1)

-- The loop of SweepExpired: a lease whose transaction fails is skipped. The result has the number
-- of leases that were ended.
unfoldable pub sweep_all : List Lease → ℕ → Db → Db × ℕ
unfolding finish
sweep_all [] now db = (db, 0)
sweep_all (l ∷ ls) now db =
    sweep_next (λ d. sweep_all ls now d) db
      (finish l LeaseState.expired AcqState.expired EventType.lease_expired now db)

unfoldable pub sweep_expired : ℕ → Db → Db × ℕ
unfolding sweep_all
sweep_expired now db = sweep_all (Leases.expiring now 100 db) now db
