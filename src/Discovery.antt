-- ===== src/Discovery.antt =====
-- internal/reconcile/discovery.go: one sweep over one kind of one provider instance, which refreshes
-- what is known of the machines and resolves orphans, ghosts and lost records.
pub mod Unmatched
pub mod Sweep
pub mod Sights
pub mod Keeps
pub mod Orphans
pub mod Ghosts
use fleetplane.Prelude.{
  ℕ, ◌+◌, Bool, true, false, not, ◌&&◌, ◌||◌, Option, none, some, List, [], ◌∷◌, ltb, ◌==◌,
  if◌then◌else◌,
}
use fleetplane.Prelude.Outcome.{Outcome, ok, err, conflict, guard, ◌>>=◌, ◌>>◌}
use fleetplane.Prelude.Json.{Json}
use fleetplane.Phase.{Phase, phase_eq, can_transition}
use fleetplane.Provider.{
  ExternalRef, ObservedResource, ObservedPhase, GoError, ErrorClass, is_class,
}
use fleetplane.Store.{
  Db, Resource, Operation, OpState, Ownership, MachineSpec, EventType, terminal, op_eq,
}
use fleetplane.Store.Resources
use fleetplane.Store.Resources.{is_none}
use fleetplane.Store.Resources.Listing.{ResourceFilter, every, list}
use fleetplane.Store.Leases
use fleetplane.Store.Operations
use fleetplane.Store.Operations.{names}
use fleetplane.Store.Events
use fleetplane.Machines.{ref_for, journal_delete}
use fleetplane.LeaseManager.{attempt}
use fleetplane.Engine.Poll.{snapshot_of}

-- One object of the provider's listing, with what its labels tell; 0 stands for an absent label.
pub record Observation : Type 0 where
  pub resource : ObservedResource
  pub kind : ℕ
  pub fleetplane_id : ℕ
  pub create_op_id : ℕ
  pub owned : Bool
  pub labels : List (ℕ × ℕ)
  pub name : ℕ
  pub class : ℕ

-- What the sweep reads outside the database: the clock, the configuration, the health of the
-- instance, the driver's answers to Discover and Get (none: the object is there), and fresh ids.
pub record Sight : Type 0 where
  pub now : ℕ
  pub instance_id : ℕ
  pub kind : ℕ
  pub orphan_grace : ℕ
  pub ghost_delete : Bool
  pub adopt_unlabeled : Bool
  pub healthy : Bool
  pub discover : Outcome (List Observation)
  pub get : ExternalRef → Option GoError
  pub parking : ℕ → ℕ → Bool
  pub mint_ids : ℕ → ℕ
  pub op_ids : ℕ → ℕ

abbrev pub ext_id : Observation → ℕ
ext_id obs = obs.resource.ref.id

abbrev pub same_ext : ℕ → Option ℕ → Bool
same_ext ext none = false
same_ext ext (some x) = x == ext

-- The map liveByExt: the last live row with the external id.
abbrev pub live_by_ext : ℕ → List Resource → Option Resource
live_by_ext ext [] = none
live_by_ext ext (r ∷ rs) = elim (live_by_ext ext rs) [
  | some x ↦ some x
  | none ↦ if is_none r.deleted_at && same_ext ext r.external_id then some r else none
]

abbrev pub live_by_id : ℕ → List Resource → Option Resource
live_by_id id [] = none
live_by_id id (r ∷ rs) =
    let rest = live_by_id id rs in if is_none r.deleted_at && r.id == id then some r else rest

-- The map hasOpenOp.
abbrev pub has_open_op : ℕ → List Operation → Bool
has_open_op id [] = false
has_open_op id (o ∷ os) = names o.resource_id id || has_open_op id os

abbrev pub is_running : ObservedPhase → Bool
is_running ObservedPhase.observed_running = true
is_running _ = false

abbrev pub is_stopped : ObservedPhase → Bool
is_stopped ObservedPhase.observed_stopped = true
is_stopped _ = false

-- An orphan that is seen again is alive again.
unfoldable pub revive : Sight → Resource → ObservedPhase → Db → Outcome Db
revive w r p db =
    if phase_eq r.phase Phase.orphaned && is_running p
    then Resources.cas_phase r.id Phase.orphaned Phase.ready w.now db
    else if phase_eq r.phase Phase.orphaned && is_stopped p && w.parking r.provider r.kind
    then Resources.cas_phase r.id Phase.orphaned Phase.parked w.now db
    else ok db

-- refreshObserved.
unfoldable pub refresh : Sight → Resource → Observation → Db → Outcome Db
unfolding revive
refresh w r obs db = do
  db1 ← Resources.put_observed (snapshot_of r.id w.now obs.resource) db
  db2 ← Resources.set_provider_facts r.id obs.resource.extensions obs.resource.capacity w.now db1
  revive w r obs.resource.phase db2
