-- ===== src/Examples/Leasing.antt =====
-- The theorems on leases, machines and idempotency keys at concrete tables.
use fleetplane.Prelude.{
  ℕ, ◌≡◌, ◌+◌, ◌⊎◌, inl, refl, Bool, true, false, not, ◌&&◌, none, some, [], ◌∷◌, arith,
}
use fleetplane.Prelude.Outcome.{ok, err, conflict}
use fleetplane.Prelude.Json.{Json}
use fleetplane.Prelude.Int64.{ℤ, pos, ltb_ℤ, sub64, add64}
use fleetplane.Phase.{Phase, can_transition}
use fleetplane.Capacity.{Vector, parse, fits, add_into, at_dim, lookup_dim}
use fleetplane.Store.{Db, Resource, OpKind, AcqState, Lease, is_managed}
use fleetplane.Store.Rows.{get_row, count_where}
use fleetplane.Store.Resources
use fleetplane.Store.Resources.{res_id, is_none}
use fleetplane.Store.Leases
use fleetplane.Store.Leases.{holds, lease_id}
use fleetplane.Store.Acquisitions
use fleetplane.Store.Operations
use fleetplane.Store.Events
use fleetplane.Store.Operations.Journal.{OneOpen}
use fleetplane.Store.Idempotency.{find, begin, complete, begin_completed}
use fleetplane.Store.Idempotency.Replay.{begin-complete}
use fleetplane.Scheduler.{reserve}
use fleetplane.Scheduler.Reserve.{Alone, AllocatedIsHeld, reserve-fits, reserve-Alone}
use fleetplane.LeaseManager.{release, sweep_expired}
use fleetplane.LeaseManager.Sweep.{sweep_expired-AllocatedIsHeld}
use fleetplane.LeaseManager.Held.{release-AllocatedIsHeld, release-once}
use fleetplane.Machines.{journal_stop, journal_delete, in_phase}
use fleetplane.Machines.Gates.{IsJournaled, journal_stop-IsJournaled, journal_delete-IsJournaled}
use fleetplane.Engine.Base.{commit}
use fleetplane.Examples.{machine, acquisition, lease, tables}

-- A machine of capacity 8 in dimension 7, shared by a lease of 3; an acquisition asks for 4.
abbrev shared : Db
shared =
    tables (machine 1 Phase.allocated (some 9) ∷ []) (lease 10 20 1 ((7, pos 3) ∷ []) ∷ [])
      (acquisition 20 AcqState.bound (some 10) ∷ acquisition 21 AcqState.pending none ∷ []) []

abbrev want : Vector
want = (7, pos 4) ∷ []

abbrev more : Db
more = commit shared (reserve 11 1000 (acquisition 21 AcqState.pending none) 1 want false shared)

reserved : reserve 11 1000 (acquisition 21 AcqState.pending none) 1 want false shared ≡ ok more
unfolding reserve Resources.get Leases.active_by_resource Leases.insert Leases.sum_active
    Acquisitions.bind Events.append Resources.cas_phase fits add_into sub64 add64
reserved = refl

reserve-fits_example :
    (r : Resource) × (total : Vector) × (sum : Vector) × (get_row res_id 1 shared.resources
      ≡ some r)
    × (parse r.capacity ≡ ok total)
    × (Leases.sum_active 1 more ≡ ok sum)
    × ((d : ℕ) (t : ℤ) → lookup_dim d total ≡ some t → ltb_ℤ t (at_dim sum d) ≡ false)
reserve-fits_example =
    reserve-fits 11 1000 (acquisition 21 AcqState.pending none) 1 want false shared reserved

shared-Alone : Alone shared
shared-Alone j = inl (ground arith)

shared-AllocatedIsHeld : AllocatedIsHeld shared
shared-AllocatedIsHeld j r g k = ground arith

reserve-Alone_example : Alone more
reserve-Alone_example =
    reserve-Alone 11 1000 (acquisition 21 AcqState.pending none) 1 want false shared reserved
      shared-Alone

abbrev freed : Db
freed = commit shared (release 10 2000 shared)

released : release 10 2000 shared ≡ ok freed
unfolding release Leases.get Leases.transition Resources.set_last_lease_ended Acquisitions.get
    Acquisitions.transition Resources.get Leases.count_active Resources.cas_phase Events.append
released = refl

release-AllocatedIsHeld_example : AllocatedIsHeld freed
release-AllocatedIsHeld_example =
    release-AllocatedIsHeld 10 2000 shared released shared-AllocatedIsHeld

release-once_example :
    ((l : Lease) × (get_row lease_id 10 shared.leases ≡ some l)
      × (count_where (holds l.resource_id) freed.leases + 1
          ≡ count_where (holds l.resource_id) shared.leases))
    × (release 10 3000 freed ≡ err conflict)
release-once_example = release-once 10 2000 3000 shared released

-- Every provider parks every kind.
abbrev parks : ℕ → ℕ → Bool
parks provider kind = true

abbrev idle : Db
idle = tables (machine 1 Phase.ready (some 9) ∷ machine 2 Phase.draining (some 8) ∷ []) [] [] []

abbrev parked_db : Db
parked_db = commit idle (journal_stop parks 30 1 1000 true idle)

stopped : journal_stop parks 30 1 1000 true idle ≡ ok parked_db
unfolding journal_stop Resources.get Leases.count_active Resources.cas_phase Operations.append
    Events.append
stopped = refl

journal_stop-IsJournaled_example :
    ((r : Resource) × (get_row res_id 1 idle.resources ≡ some r)
      × (in_phase r Phase.ready ≡ true)
      × (parks r.provider r.kind ≡ true)
      × ((true && r.delete_protected) ≡ false)
      × (count_where (holds 1) idle.leases ≡ 0))
    × IsJournaled 30 1 OpKind.stop Phase.parking idle parked_db
    × (OneOpen idle.operations → OneOpen parked_db.operations)
journal_stop-IsJournaled_example = journal_stop-IsJournaled parks 30 1 1000 true idle stopped

abbrev deleting_db : Db
deleting_db = commit idle (journal_delete 31 2 1000 idle)

delete_journaled : journal_delete 31 2 1000 idle ≡ ok deleting_db
unfolding journal_delete Resources.get Leases.count_active Resources.cas_phase Operations.append
    Events.append
delete_journaled = refl

journal_delete-IsJournaled_example :
    (r : Resource) × (get_row res_id 2 idle.resources ≡ some r)
    × (is_none r.deleted_at ≡ true)
    × ((is_managed r.ownership && not r.delete_protected) ≡ true)
    × (count_where (holds 2) idle.leases ≡ 0)
    × (can_transition r.phase Phase.deleting ≡ true)
    × (((r.external_id ≡ none)
          × (deleting_db.operations ≡ idle.operations)
          × (get_row res_id 2 deleting_db.resources
              ≡ some (record r { deleted_at = some 1000; updated_at = 1000 })))
        ⊎ (IsJournaled 31 2 OpKind.delete Phase.deleting idle deleting_db))
journal_delete-IsJournaled_example = journal_delete-IsJournaled 31 2 1000 idle delete_journaled

no_key : find 1 2 idle.idem ≡ none
unfolding find
no_key = refl

begin-complete_example :
    (db2 : Db) × (complete 1 2 201 (Json.doc 55) 1500 9000 (begin 1 2 77 5 1000 idle).db ≡ ok db2)
    × ((begin 1 2 77 6 2000 db2).outcome ≡ begin_completed)
    × ((begin 1 2 77 6 2000 db2).rec.http_status ≡ 201)
    × ((begin 1 2 77 6 2000 db2).rec.result ≡ Json.doc 55)
    × ((begin 1 2 77 6 2000 db2).db ≡ db2)
begin-complete_example =
    begin-complete 1 2 77 77 5 6 1000 1500 2000 9000 201 (Json.doc 55) idle no_key

-- The lease of the shared machine, with an expiry that has passed at 5000.
abbrev overdue_db : Db
overdue_db = record shared {
  leases = record (lease 10 20 1 ((7, pos 3) ∷ [])) { expires_at = some 4000 } ∷ [];
}

overdue-AllocatedIsHeld : AllocatedIsHeld overdue_db
overdue-AllocatedIsHeld j r g k = ground arith

sweep_expired-AllocatedIsHeld_example : AllocatedIsHeld (sweep_expired 5000 overdue_db).0
sweep_expired-AllocatedIsHeld_example =
    sweep_expired-AllocatedIsHeld 5000 overdue_db (refl, tt) overdue-AllocatedIsHeld
