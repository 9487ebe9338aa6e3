-- ===== src/Provider.antt =====
-- pkg/sdk/provider: the typed provider error and its classification (errors.go), the references
-- and reports that a driver returns (provider.go) and the parking capability (parking.go).
-- Drivers are reached through an interface, so their answers are inputs of the model.
pub mod Errors
use fleetplane.Prelude.{ℕ, Bool, true, false, Option, none, some, ltb, if◌then◌else◌, ◌==◌}
use fleetplane.Prelude.Json.{Json}
use fleetplane.Capacity.{Vector}
pub use Errors.{ErrorClass, SideEffect, GoError, ProviderError, class_eq, message_of}
unfoldable pub use Errors.{classify, effect, retry_after_of, is_class}

-- ExternalRef: `id` 0 is the empty string.
pub record ExternalRef : Type 0 where
  pub id : ℕ
  pub native : ℕ

pub record OperationRef : Type 0 where
  pub action_id : ℕ
  pub ref : Option ExternalRef

pub data ActionKind : Type 0 where
  create_action delete_action stop_action start_action : ActionKind

-- provider.Action: the journaled, replayable request; `payload` stands for the desired state.
pub record Action : Type 0 where
  pub action_id : ℕ
  pub kind : ActionKind
  pub resource_id : ℕ
  pub ref : Option ExternalRef
  pub destructive : Bool
  pub payload : ℕ

pub data ObservedPhase : Type 0 where
  observed_pending observed_running observed_stopped observed_deleted observed_unknown :
      ObservedPhase

pub record ObservedResource : Type 0 where
  pub ref : ExternalRef
  pub phase : ObservedPhase
  pub extensions : Json ℕ
  pub capacity : Json Vector

pub data ReportedState : Type 0 where
  reported_pending reported_running reported_succeeded reported_failed reported_unknown :
      ReportedState

pub record OperationStatus : Type 0 where
  pub state : ReportedState
  pub resource : Option ObservedResource
  pub failure : Option ProviderError

pub record ParkPolicy : Type 0 where
  pub supported : Bool
  pub start_estimate : ℕ
