-- ===== src/Examples/Reconciling.antt =====
-- The theorems on the pools and on discovery at concrete tables.
use fleetplane.Prelude.{
  List, ◌⊎◌, ℕ, ◌≡◌, ◌+◌, ◌≤◌, inl, refl, true, false, none, some, [], ◌∷◌, arith,
}
use fleetplane.Prelude.Outcome.{ok, OnOk}
use fleetplane.Prelude.Json.{Json}
use fleetplane.Prelude.Int64.{pos}
use fleetplane.Phase.{Phase}
use fleetplane.Provider.{ObservedPhase}
use fleetplane.Store.{Db, Resource, AcqState}
use fleetplane.Store.Rows.{get_row, count_where}
use fleetplane.Store.Resources.{res_id}
use fleetplane.Store.Leases.{holds}
use fleetplane.Reconcile.{PoolSpec}
use fleetplane.Prelude.{◌-◌, ◌+◌}
use fleetplane.Reconcile.Floors.{stages-spare}
use fleetplane.Reconcile.Pools.{Template, begin, number, RecEnv, Pool}
use fleetplane.Reconcile.Cycle.{stages, run_once}
use fleetplane.Reconcile.Poolless.{reclaim_poolless}
use fleetplane.Reconcile.Leased.{kept_or_raised, run_once-leased}
use fleetplane.Reconcile.Budget.{changes, run_once-budget}
use fleetplane.Reconcile.Swept.{reclaim_poolless-Sound}
use fleetplane.Scheduler.Sound.{Sound}
use fleetplane.Discovery.{Sight, Observation}
use fleetplane.Discovery.Sweep.{sweep_kind}
use fleetplane.Discovery.Orphans.{IsLost, sweep_kind-IsLost}
use fleetplane.Discovery.Ghosts.{handle_ghost-stopped}
use fleetplane.Discovery.Unmatched.{mint, handle_ghost}
use fleetplane.LeaseManager.{attempt}
use fleetplane.Store.Operations
use fleetplane.Provider.{ErrorClass, GoError}
use fleetplane.Provider.Errors.{typed, effect_none}
use fleetplane.Store.{Ownership, EventType}
use fleetplane.Examples.{machine, acquisition, lease, tables}
use fleetplane.Examples.Scheduling.{class_of, hourly, market, planner}

abbrev rec_env : RecEnv
rec_env = record {
  now = 9000;
  max_mutations = 3;
  interval = 15000000000;
  op_ids = λ id. 800 + id;
  create_ids = λ i. 900 + i;
  create_op_ids = λ i. 950 + i;
  parking = λ _ _. true;
  billing = λ _ _. (hourly, false);
  classes = class_of;
  planner = planner;
}

abbrev a_spec : PoolSpec
a_spec = record {
  class = 4;
  replicas = 1;
  min_ready = 0;
  min_running = 1;
  max_resources = 5;
  reclaim = none;
  machine = none;
  provider = 0;
  kind = 0;
}

abbrev a_pool : Pool
a_pool = record { id = 6; name = 60; paused = false; spec = Json.doc a_spec }

abbrev pooled : ℕ → Phase → Resource
pooled i p = record (machine i p (some i)) { class = 4; pool_id = some 6 }

-- A pool of one replica with a leased machine, two idle ones and a parked one.
abbrev crowded : Db
crowded =
    tables
      (pooled 1 Phase.allocated
        ∷ pooled 2 Phase.ready
        ∷ pooled 3 Phase.parked
        ∷ pooled 4 Phase.ready
        ∷ [])
      (lease 10 20 1 ((7, pos 3) ∷ []) ∷ []) (acquisition 20 AcqState.bound (some 10) ∷ []) []

run_once-budget_example :
    OnOk (λ c. changes c.delta + c.budget ≤ 3) (run_once rec_env a_pool Json.blank crowded)
run_once-budget_example = run_once-budget rec_env a_pool Json.blank crowded

run_once-leased_example :
    OnOk
      (λ c.
        (c.db.leases ≡ crowded.leases)
        × ((r' : Resource) × (get_row res_id 1 c.db.resources ≡ some r')
            × ((r'.deleted_at ≡ none) × (kept_or_raised Phase.allocated r'.phase ≡ true))))
      (run_once rec_env a_pool Json.blank crowded)
run_once-leased_example =
    run_once-leased rec_env a_pool Json.blank crowded 1 (pooled 1 Phase.allocated) refl
      (omega arith)

-- The same machines without a pool.
abbrev loose : ℕ → Phase → Resource
loose i p = record (machine i p (some i)) { class = 4 }

abbrev scattered : Db
scattered =
    tables
      (loose 1 Phase.allocated
        ∷ loose 2 Phase.ready
        ∷ record (loose 3 Phase.parked) { parked_at = some 100 }
        ∷ loose 4 Phase.draining
        ∷ [])
      (lease 10 20 1 ((7, pos 3) ∷ []) ∷ []) (acquisition 20 AcqState.bound (some 10) ∷ []) []

scattered-Sound : Sound scattered
scattered-Sound = record {
  alone = λ j. inl (ground arith);
  held = λ j r g k. ground arith;
  one_open = λ res. ground arith;
}

reclaim_poolless-Sound_example :
    Sound (reclaim_poolless rec_env [] [] scattered).db
    × ((j : ℕ) (r : Resource)
        → get_row res_id j scattered.resources ≡ some r
        → 1 ≤ count_where (holds j) scattered.leases
        → (r' : Resource) × (get_row res_id j
              (reclaim_poolless rec_env [] [] scattered).db.resources
            ≡ some r')
          × ((r'.deleted_at ≡ r.deleted_at) × (kept_or_raised r.phase r'.phase ≡ true)))
reclaim_poolless-Sound_example = reclaim_poolless-Sound rec_env [] [] scattered scattered-Sound

abbrev an_object : ℕ → ObservedPhase → Observation
an_object ext p = record {
  resource = record {
    ref = record { id = ext; native = 0 };
    phase = p;
    capacity = Json.blank;
    extensions = Json.blank;
  };
  kind = 1;
  fleetplane_id = 0;
  create_op_id = 0;
  owned = true;
  labels = [];
  name = 0;
  class = 0;
}

-- A machine that has a record and one that has none.
abbrev listing : List Observation
listing =
    an_object 9 ObservedPhase.observed_running ∷ an_object 50 ObservedPhase.observed_stopped ∷ []

abbrev sight : Sight
sight = record {
  now = 9000;
  instance_id = 1;
  kind = 1;
  orphan_grace = 600;
  ghost_delete = true;
  adopt_unlabeled = false;
  healthy = true;
  discover = ok (
      an_object 9 ObservedPhase.observed_running
      ∷ an_object 50 ObservedPhase.observed_stopped
      ∷ []);
  get = λ ref. none;
  parking = λ _ _. true;
  mint_ids = λ ext. 1000 + ext;
  op_ids = λ id. 2000 + id;
}

-- An orphan that the provider has lost.
abbrev orphaned : Db
orphaned = tables (machine 5 Phase.orphaned (some 70) ∷ []) [] [] []

abbrev not_there : GoError
not_there = typed (record {
  class = ErrorClass.not_found;
  side_effect = effect_none;
  retry_after = 0;
  message = 0;
})

abbrev lost_sight : Sight
lost_sight = record sight { get = λ ref. some not_there }

sweep_kind-IsLost_example :
    OnOk
      (λ d.
        (d.leases ≡ [])
        × ((r' : Resource) × (get_row res_id 5 d.resources ≡ some r')
            × ((r'.external_id ≡ some 70)
                × ((r'.deleted_at ≡ none)
                    ⊎ IsLost lost_sight listing
                        (Operations.non_terminal orphaned)
                        []
                        5
                        (machine 5 Phase.orphaned (some 70))))))
      (sweep_kind lost_sight orphaned)
sweep_kind-IsLost_example =
    sweep_kind-IsLost lost_sight orphaned 5 70 (machine 5 Phase.orphaned (some 70)) listing refl
      (refl, tt) refl refl refl

handle_ghost-stopped_example :
    handle_ghost sight (an_object 50 ObservedPhase.observed_stopped) market
    ≡ attempt market (
        mint sight
          (an_object 50 ObservedPhase.observed_stopped)
          Ownership.managed
          EventType.resource_ghost
          market)
handle_ghost-stopped_example =
    handle_ghost-stopped sight (an_object 50 ObservedPhase.observed_stopped) market refl

-- The small class as a template, with a spare machine to drain.
abbrev a_template : Template
a_template = record { kind = 1; provider = 1; machine = Json.blank; reclaim = none }

stages-spare_example :
    (stages rec_env a_pool a_spec a_template Json.blank crowded.resources
        (begin 3 a_spec crowded.resources crowded)).delta.drained
      + (stages rec_env a_pool a_spec a_template Json.blank crowded.resources
          (begin 3 a_spec crowded.resources crowded)).delta.parked_now
    ≤ number Phase.ready crowded.resources - 0
stages-spare_example =
    stages-spare rec_env a_spec a_template crowded.resources a_pool Json.blank 3 crowded
