-- ===== src/Reconcile.antt =====
-- internal/reconcile/reconcile.go: the reclaim policies, classes and pools that the reconciler and
-- the scheduler read. Durations are nanoseconds.
pub mod Queue
pub mod Idle
pub mod Backoff
pub mod Pools
pub mod Scaling
pub mod Cycle
pub mod Passes
pub mod Stages
pub mod Budget
pub mod Floors
pub mod Keeps
pub mod Leased
pub mod Poolless
pub mod Swept
use fleetplane.Prelude.{ℕ, Bool, true, false, not, ◌&&◌, Option, none, some, ◌==◌}
use fleetplane.Prelude.Json.{Json}
use fleetplane.Store.{MachineSpec}

pub record ReclaimPolicy : Type 0 where
  pub idle_after : ℕ
  pub park_never : Bool
  pub delete_after : ℕ

-- ParkEnabled of a policy that may be absent: anything but "never" is auto.
abbrev pub park_enabled : Option ReclaimPolicy → Bool
park_enabled none = false
park_enabled (some p) = not p.park_never

pub record Class : Type 0 where
  pub kind : ℕ
  pub provider : ℕ
  pub spec : Json MachineSpec
  pub reclaim : Option ReclaimPolicy
  pub queue_max_wait : ℕ

pub record PoolSpec : Type 0 where
  pub class : ℕ
  pub replicas : ℕ
  pub min_ready : ℕ
  pub min_running : ℕ
  pub max_resources : ℕ
  pub reclaim : Option ReclaimPolicy
  pub machine : Option (Json MachineSpec)
  pub provider : ℕ
  pub kind : ℕ
