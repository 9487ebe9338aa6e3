-- ===== src/Provision.antt =====
-- internal/provision/provision.go, Prepare: the plan of a create, outside any transaction. The
-- driver's Plan is an input, and so are the ids that are minted.
use fleetplane.Prelude.{ℕ, Bool, Option, some, none, List, [], ◌∷◌, ◌==◌, if◌then◌else◌}
use fleetplane.Prelude.Outcome.{Outcome, ok, err, other, unknown_provider, guard, ◌>>=◌, ◌>>◌}
use fleetplane.Prelude.Json.{Json}
use fleetplane.Phase.{Phase}
use fleetplane.Provider.{Action}
use fleetplane.Store.{Resource, Operation, OpKind, OpState, Ownership, MachineSpec}

pub record CreateSpec : Type 0 where
  pub kind : ℕ
  pub provider : ℕ
  pub name : ℕ
  pub spec : Json MachineSpec
  pub labels : List (ℕ × ℕ)
  pub class : ℕ
  pub pool_id : Option ℕ

-- The configured instances, the kinds that they drive, and the plan that a driver makes for a
-- resource id, a name and a spec.
pub record Planner : Type 0 where
  pub instance_known : ℕ → Bool
  pub drives : ℕ → ℕ → Bool
  pub plan : ℕ → ℕ → ℕ → ℕ → Json MachineSpec → Outcome (List Action)

pub record Prepared : Type 0 where
  pub resource : Resource
  pub op : Operation

-- A create is one action.
abbrev pub single : List Action → Outcome Action
single [] = err other
single (a ∷ []) = ok a
single (a ∷ b ∷ more) = err other

abbrev pub planned_resource : CreateSpec → ℕ → ℕ → Resource
planned_resource cs res now = record {
  id = res;
  name = if cs.name == 0 then res else cs.name;
  kind = cs.kind;
  provider = cs.provider;
  class = cs.class;
  pool_id = cs.pool_id;
  ownership = Ownership.managed;
  phase = Phase.provisioning;
  external_id = none;
  external_ref = Json.blank;
  generation = 0;
  observed_generation = 0;
  spec = cs.spec;
  extension = Json.blank;
  capacity = Json.blank;
  exclusive_alloc = Bool.false;
  delete_protected = Bool.false;
  labels = cs.labels;
  ready_at = none;
  last_lease_ended_at = none;
  drain_started_at = none;
  parked_at = none;
  created_at = now;
  updated_at = now;
  deleted_at = none;
}

abbrev pub planned_op : CreateSpec → ℕ → ℕ → Action → ℕ → Operation
planned_op cs res op action now = record {
  id = op;
  parent_id = none;
  idem_scope = none;
  idem_key = none;
  kind = OpKind.create;
  resource_id = some res;
  pool_id = cs.pool_id;
  provider = cs.provider;
  action = Json.doc (record action { action_id = op });
  state = OpState.journaled;
  attempt = 0;
  external_op = Json.blank;
  external_ref = Json.blank;
  error_class = none;
  error_detail = none;
  next_attempt_at = none;
  verify_deadline_at = none;
  created_at = now;
  updated_at = now;
  terminal_at = none;
}

-- Prepare; `res` and `op` are the fresh ids.
unfoldable pub prepare : Planner → CreateSpec → ℕ → ℕ → ℕ → Outcome Prepared
prepare pl cs res op now = do
  guard (pl.instance_known cs.provider) unknown_provider
  guard (pl.drives cs.provider cs.kind) other
  actions ← pl.plan cs.provider cs.kind res (if cs.name == 0 then res else cs.name) cs.spec
  action ← single actions
  ok (record { resource = planned_resource cs res now; op = planned_op cs res op action now })
