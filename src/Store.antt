-- ===== src/Store.antt =====
-- internal/storage/types.go: the persisted records and their state vocabularies, and the database
-- as one value. Identifiers ("<prefix>_<ULID>") and names are compared for equality and order only
-- and are numbers; the empty name is 0. Instants are unix milliseconds.
pub mod Rows
pub mod Resources
pub mod Leases
pub mod Acquisitions
pub mod Operations
pub mod Idempotency
pub mod Events
use fleetplane.Prelude.{ℕ, Bool, true, false, ◌||◌, Option, none, some, List, [], ◌==◌}
use fleetplane.Prelude.Json.{Json}
use fleetplane.Phase.{Phase}
use fleetplane.Capacity.{Vector, Request}
use fleetplane.Provider.{ExternalRef, OperationRef, Action, ErrorClass, ObservedPhase}

pub data Ownership : Type 0 where
  managed adopted observed : Ownership

pub data OpState : Type 0 where
  journaled in_flight external_accepted verifying uncertain succeeded failed aborted : OpState

pub data OpKind : Type 0 where
  create delete stop start : OpKind

pub data LeaseState : Type 0 where
  active released expired : LeaseState

pub data AcqState : Type 0 where
  pending provisioning bound failed released expired : AcqState

pub data IdemState : Type 0 where
  in_progress completed failed : IdemState

abbrev pub op_place : OpState → ℕ
op_place OpState.journaled = 0
op_place OpState.in_flight = 1
op_place OpState.external_accepted = 2
op_place OpState.verifying = 3
op_place OpState.uncertain = 4
op_place OpState.succeeded = 5
op_place OpState.failed = 6
op_place OpState.aborted = 7

abbrev pub op_eq : OpState → OpState → Bool
op_eq a b = op_place a == op_place b

abbrev pub lease_place : LeaseState → ℕ
lease_place LeaseState.active = 0
lease_place LeaseState.released = 1
lease_place LeaseState.expired = 2

abbrev pub lease_eq : LeaseState → LeaseState → Bool
lease_eq a b = lease_place a == lease_place b

abbrev pub acq_place : AcqState → ℕ
acq_place AcqState.pending = 0
acq_place AcqState.provisioning = 1
acq_place AcqState.bound = 2
acq_place AcqState.failed = 3
acq_place AcqState.released = 4
acq_place AcqState.expired = 5

abbrev pub acq_eq : AcqState → AcqState → Bool
acq_eq a b = acq_place a == acq_place b

-- `ownership == managed`.
abbrev pub is_managed : Ownership → Bool
is_managed Ownership.managed = true
is_managed _ = false

-- OpState.Terminal.
unfoldable pub terminal : OpState → Bool
terminal s = op_eq s OpState.succeeded || op_eq s OpState.failed || op_eq s OpState.aborted

-- The readiness part of a machine spec that decodes and validates (pkg/kinds/compute): whether a
-- probe is declared and its budget in nanoseconds, 0 when unset.
pub record MachineSpec : Type 0 where
  pub probed : Bool
  pub budget : ℕ

pub record Resource : Type 0 where
  pub id : ℕ
  pub name : ℕ
  pub kind : ℕ
  pub provider : ℕ
  pub class : ℕ
  pub pool_id : Option ℕ
  pub ownership : Ownership
  pub phase : Phase
  pub external_id : Option ℕ
  pub external_ref : Json ExternalRef
  pub generation : ℕ
  pub observed_generation : ℕ
  pub spec : Json MachineSpec
  pub extension : Json ℕ
  pub capacity : Json Vector
  pub exclusive_alloc : Bool
  pub delete_protected : Bool
  pub labels : List (ℕ × ℕ)
  pub ready_at : Option ℕ
  pub last_lease_ended_at : Option ℕ
  pub drain_started_at : Option ℕ
  pub parked_at : Option ℕ
  pub created_at : ℕ
  pub updated_at : ℕ
  pub deleted_at : Option ℕ

pub record Operation : Type 0 where
  pub id : ℕ
  pub parent_id : Option ℕ
  pub idem_scope : Option ℕ
  pub idem_key : Option ℕ
  pub kind : OpKind
  pub resource_id : Option ℕ
  pub pool_id : Option ℕ
  pub provider : ℕ
  pub action : Json Action
  pub state : OpState
  pub attempt : ℕ
  pub external_op : Json OperationRef
  pub external_ref : Json ExternalRef
  pub error_class : Option ErrorClass
  pub error_detail : Option ℕ
  pub next_attempt_at : Option ℕ
  pub verify_deadline_at : Option ℕ
  pub created_at : ℕ
  pub updated_at : ℕ
  pub terminal_at : Option ℕ

pub record Lease : Type 0 where
  pub id : ℕ
  pub acquisition_id : ℕ
  pub resource_id : ℕ
  pub holder : ℕ
  pub capacity : Json Vector
  pub exclusive : Bool
  pub state : LeaseState
  pub expires_at : Option ℕ
  pub created_at : ℕ
  pub ended_at : Option ℕ

pub record Acquisition : Type 0 where
  pub id : ℕ
  pub actor : ℕ
  pub kind : ℕ
  pub class : ℕ
  pub constraints : Json Request
  pub quantity : ℕ
  pub ttl_seconds : ℕ
  pub state : AcqState
  pub lease_id : Option ℕ
  pub pending_resource_id : Option ℕ
  pub created_at : ℕ
  pub updated_at : ℕ

pub record IdemRecord : Type 0 where
  pub scope : ℕ
  pub key : ℕ
  pub request_hash : ℕ
  pub state : IdemState
  pub operation_id : Option ℕ
  pub http_status : ℕ
  pub result : Json ℕ
  pub created_at : ℕ
  pub completed_at : Option ℕ
  pub expires_at : Option ℕ

pub record ObservedSnapshot : Type 0 where
  pub resource_id : ℕ
  pub observed_at : ℕ
  pub provider_phase : ObservedPhase

-- The event types that the modelled code appends.
pub data EventType : Type 0 where
  lease_released lease_expired acquisition_bound acquisition_requested : EventType
  acquisition_queued acquisition_failed acquisition_expired : EventType
  resource_ghost resource_readopted resource_observed : EventType
  resource_orphaned resource_orphan_tombstoned : EventType
  operation_succeeded operation_failed operation_resolve : EventType
  resource_stop resource_start resource_delete resource_create : EventType
  resource_drain resource_undrain resource_protected resource_unprotected : EventType

pub record Event : Type 0 where
  pub ts : ℕ
  pub event_type : EventType
  pub resource_id : Option ℕ
  pub operation_id : Option ℕ

-- The database: its tables, the newest row of `events` first.
pub record Db : Type 0 where
  pub resources : List Resource
  pub leases : List Lease
  pub acquisitions : List Acquisition
  pub operations : List Operation
  pub idem : List IdemRecord
  pub observed : List ObservedSnapshot
  pub events : List Event
