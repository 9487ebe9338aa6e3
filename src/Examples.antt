-- ===== src/Examples.antt =====
-- Concrete machines, operations and worlds, shared by the examples of the child modules, in which
-- the theorems are applied to them.
pub mod Recovering
pub mod Leasing
pub mod Paying
pub mod Serving
pub mod Scheduling
pub mod Reconciling
use fleetplane.Prelude.{ℕ, Bool, true, false, Option, none, some, List, [], ◌∷◌}
use fleetplane.Prelude.Json.{Json}
use fleetplane.Prelude.Int64.{pos}
use fleetplane.Phase.{Phase}
use fleetplane.Capacity.{Vector}
use fleetplane.Provider.{
  ExternalRef, OperationRef, Action, ActionKind, GoError, OperationStatus, ReportedState,
}
use fleetplane.Provider.Errors.{plain}
use fleetplane.Store.{
  Db, Resource, Operation, OpState, OpKind, Ownership, Lease, LeaseState, Acquisition, AcqState,
}
use fleetplane.Engine.Base.{World, answered, failed}

abbrev pub machine : ℕ → Phase → Option ℕ → Resource
machine i p ext = record {
  id = i;
  name = 1;
  kind = 1;
  provider = 1;
  class = 0;
  pool_id = none;
  ownership = Ownership.managed;
  phase = p;
  external_id = ext;
  external_ref = Json.blank;
  generation = 1;
  observed_generation = 1;
  spec = Json.blank;
  extension = Json.blank;
  capacity = Json.doc ((7, pos 8) ∷ []);
  exclusive_alloc = false;
  delete_protected = false;
  labels = [];
  ready_at = none;
  last_lease_ended_at = none;
  drain_started_at = none;
  parked_at = none;
  created_at = 0;
  updated_at = 0;
  deleted_at = none;
}

abbrev pub an_action : ℕ → ActionKind → ℕ → Action
an_action op k res = record {
  action_id = op;
  kind = k;
  resource_id = res;
  ref = none;
  destructive = false;
  payload = 0;
}

abbrev pub operation : ℕ → OpKind → OpState → Option ℕ → Operation
operation i k s res = record {
  id = i;
  parent_id = none;
  idem_scope = none;
  idem_key = none;
  kind = k;
  resource_id = res;
  pool_id = none;
  provider = 1;
  action = Json.doc (an_action i ActionKind.create_action 1);
  state = s;
  attempt = 0;
  external_op = Json.blank;
  external_ref = Json.blank;
  error_class = none;
  error_detail = none;
  next_attempt_at = none;
  verify_deadline_at = none;
  created_at = 0;
  updated_at = 0;
  terminal_at = none;
}

abbrev pub acquisition : ℕ → AcqState → Option ℕ → Acquisition
acquisition i s l = record {
  id = i;
  actor = 1;
  kind = 1;
  class = 0;
  constraints = Json.blank;
  quantity = 1;
  ttl_seconds = 60;
  state = s;
  lease_id = l;
  pending_resource_id = none;
  created_at = 0;
  updated_at = 0;
}

abbrev pub lease : ℕ → ℕ → ℕ → Vector → Lease
lease i acq res want = record {
  id = i;
  acquisition_id = acq;
  resource_id = res;
  holder = 1;
  capacity = Json.doc want;
  exclusive = false;
  state = LeaseState.active;
  expires_at = none;
  created_at = 0;
  ended_at = none;
}

abbrev pub tables : List Resource → List Lease → List Acquisition → List Operation → Db
tables rs ls acqs ops = record {
  resources = rs;
  leases = ls;
  acquisitions = acqs;
  operations = ops;
  idem = [];
  observed = [];
  events = [];
}

-- A provider that answers no mutation and of which a discovery finds nothing.
abbrev pub world : ℕ → World
world now = record {
  now = now;
  wall = now;
  verify_window = 120000000000;
  backoff_base = 2000000000;
  backoff_cap = 300000000000;
  jitter = λ d. d;
  has_instance = λ _. true;
  has_driver = λ _ _. true;
  label_discovery = λ _. true;
  apply = λ a. failed (plain 9);
  observe = λ _.
      answered (record { state = ReportedState.reported_running; resource = none; failure = none });
  fetch = λ _. answered tt;
  discover = λ _. answered [];
  probe = λ _. true;
}
