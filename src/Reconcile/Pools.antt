-- ===== src/Reconcile/Pools.antt =====
-- internal/reconcile/reconcile.go: what a cycle over a pool reads, the loop over machines, and the
-- variables of RunOnce.
use fleetplane.Prelude.{
  ℕ, ◌+◌, ◌-◌, Bool, not, ◌||◌, Option, none, some, List, [], ◌∷◌, ◌==◌, if◌then◌else◌, length,
  select,
}
use fleetplane.Prelude.Outcome.{Outcome, ok, err, invalid, unknown_class}
use fleetplane.Prelude.Json.{Json}
use fleetplane.Phase.{Phase, phase_eq}
use fleetplane.Billing.{BillingPolicy}
use fleetplane.Store.{Db, Resource, MachineSpec}
use fleetplane.Provision.{Planner}
use fleetplane.Reconcile.{ReclaimPolicy, Class, PoolSpec}

-- What a cycle reads outside the database: the clock, the budget, the fresh ids (of an operation by
-- its machine, of a create by its place), the classes and the providers.
pub record RecEnv : Type 0 where
  pub now : ℕ
  pub max_mutations : ℕ
  pub interval : ℕ
  pub op_ids : ℕ → ℕ
  pub create_ids : ℕ → ℕ
  pub create_op_ids : ℕ → ℕ
  pub parking : ℕ → ℕ → Bool
  pub billing : ℕ → ℕ → BillingPolicy × Bool
  pub classes : ℕ → Option Class
  pub planner : Planner

pub record Pool : Type 0 where
  pub id : ℕ
  pub name : ℕ
  pub paused : Bool
  pub spec : Json PoolSpec

pub record Template : Type 0 where
  pub kind : ℕ
  pub provider : ℕ
  pub machine : Json MachineSpec
  pub reclaim : Option ReclaimPolicy

abbrev pub or_policy : Option ReclaimPolicy → Option ReclaimPolicy → Option ReclaimPolicy
or_policy none q = q
or_policy (some p) q = some p

abbrev pub class_template : PoolSpec → Option Class → Outcome Template
class_template spec none = err unknown_class
class_template spec (some cls) = ok (record {
  kind = cls.kind;
  provider = cls.provider;
  machine = cls.spec;
  reclaim = or_policy spec.reclaim cls.reclaim;
})

abbrev pub inline_template : PoolSpec → Option (Json MachineSpec) → Outcome Template
inline_template spec none = err invalid
inline_template spec (some m) =
    if spec.provider == 0 || spec.kind == 0
    then err invalid
    else ok
        (record { kind = spec.kind; provider = spec.provider; machine = m; reclaim = spec.reclaim })

-- template.
unfoldable pub template : (ℕ → Option Class) → PoolSpec → Outcome Template
template classes spec =
    if not (spec.class == 0)
    then class_template spec (classes spec.class)
    else inline_template spec spec.machine

-- What a loop has done: the changes that succeeded, and the database.
pub record Tally : Type 0 where
  pub count : ℕ
  pub db : Db

abbrev pub start : Db → Tally
start db = record { count = 0; db = db }

abbrev pub counted : Tally → Outcome Db → Tally
counted t (ok d) = record { count = t.count + 1; db = d }
counted t (err e) = t

-- A loop that breaks by `stop`, given the changes so far, and passes over what fails.
unfoldable pub pass :
    (ℕ → Resource → Bool) → (Resource → Db → Outcome Db) → Tally → List Resource → Tally
pass stop act t [] = t
pass stop act t (r ∷ rs) = if stop t.count r then t else pass stop act (counted t (act r t.db)) rs

abbrev pub of_phase : Phase → List Resource → List Resource
of_phase p all = select (λ r. phase_eq r.phase p) all

abbrev pub number : Phase → List Resource → ℕ
number p all = length (of_phase p all)

-- Delta, the part that reports changes.
pub record Delta : Type 0 where
  pub created : ℕ
  pub drained : ℕ
  pub undrained : ℕ
  pub deleted : ℕ
  pub parked_now : ℕ
  pub started : ℕ

-- The variables of RunOnce.
pub record Cycle : Type 0 where
  pub db : Db
  pub delta : Delta
  pub budget : ℕ
  pub hot : ℕ
  pub deficit : ℕ
  pub surplus : ℕ

abbrev pub counted_now : List Resource → ℕ
counted_now all =
    number Phase.provisioning all
    + number Phase.ready all
    + number Phase.allocated all
    + number Phase.parking all
    + number Phase.parked all
    + number Phase.starting all

abbrev pub hot_now : List Resource → ℕ
hot_now all =
    number Phase.provisioning all
    + number Phase.starting all
    + number Phase.ready all
    + number Phase.allocated all

-- A negative deficit or surplus stops the loops as 0 does.
abbrev pub begin : ℕ → PoolSpec → List Resource → Db → Cycle
begin budget spec all db = record {
  db = db;
  delta = record {
    created = 0;
    drained = 0;
    undrained = 0;
    deleted = 0;
    parked_now = 0;
    started = 0;
  };
  budget = budget;
  hot = hot_now all;
  deficit = spec.replicas - counted_now all;
  surplus = counted_now all - spec.replicas;
}
