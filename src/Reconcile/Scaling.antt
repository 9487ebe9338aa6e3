-- ===== src/Reconcile/Scaling.antt =====
-- internal/reconcile/reconcile.go, RunOnce: the stages that bring a pool to its number of machines.
use fleetplane.Prelude.{
  ℕ, zero, suc, ◌+◌, ◌-◌, ◌&&◌, ◌||◌, some, List, [], ◌∷◌, ltb, leb, ◌==◌, if◌then◌else◌, length,
  min,
}
use fleetplane.Prelude.Outcome.{Outcome, ok, err, conflict, guard, ◌>>=◌, ◌>>◌}
use fleetplane.Prelude.Json.{Json}
use fleetplane.Phase.{Phase}
use fleetplane.Store.{Db, Resource}
use fleetplane.Store.Resources
use fleetplane.Store.Leases
use fleetplane.Machines.{journal_start}
use fleetplane.Service.{journal_create}
use fleetplane.Provision.{CreateSpec, prepare}
use fleetplane.Reconcile.{PoolSpec}
use fleetplane.Reconcile.Queue.{cost_reclaim}
use fleetplane.Reconcile.Idle.{reclaimable, oldest_parked_first}
use fleetplane.Reconcile.Backoff.{Checkpoint, backoff_until}
use fleetplane.Reconcile.Pools.{Cycle, Pool, RecEnv, Tally, Template, number, of_phase, pass, start}

unfoldable pub undrain_tally : RecEnv → List Resource → Cycle → Tally
undrain_tally e all c =
    pass (λ n r. leb c.deficit n || leb c.budget n)
      (λ r d. Resources.cas_phase r.id Phase.draining Phase.ready e.now d) (start c.db)
      (of_phase Phase.draining all)

unfoldable pub undrain : RecEnv → List Resource → Cycle → Cycle
unfolding undrain_tally
undrain e all c =
    let t = undrain_tally e all c in
    record c {
      db = t.db;
      delta = record c.delta { undrained = c.delta.undrained + t.count };
      budget = c.budget - t.count;
      deficit = c.deficit - t.count;
    }

-- The warm tier: parked machines are started below the hot floor.
unfoldable pub warm_up_tally : RecEnv → PoolSpec → List Resource → Cycle → Tally
warm_up_tally e spec all c =
    pass (λ n r. leb spec.min_running (c.hot + n) || leb c.budget n)
      (λ r d. journal_start e.parking (e.op_ids r.id) r.id e.now d) (start c.db)
      (of_phase Phase.parked all)

unfoldable pub warm_up : RecEnv → PoolSpec → List Resource → Cycle → Cycle
unfolding warm_up_tally
warm_up e spec all c =
    let t = warm_up_tally e spec all c in
    record c {
      db = t.db;
      delta = record c.delta { started = c.delta.started + t.count };
      budget = c.budget - t.count;
      hot = c.hot + t.count;
    }

abbrev pub pool_spec : Pool → PoolSpec → Template → CreateSpec
pool_spec pool spec t = record {
  kind = t.kind;
  provider = t.provider;
  name = 0;
  spec = t.machine;
  labels = (2, pool.name) ∷ [];
  class = spec.class;
  pool_id = some pool.id;
}

-- createOne, the i-th of the cycle.
unfoldable pub create_one : RecEnv → Pool → PoolSpec → Template → ℕ → Db → Outcome Db
create_one e pool spec t i db =
    prepare e.planner (pool_spec pool spec t) (e.create_ids i) (e.create_op_ids i) e.now >>= λ p.
    journal_create p.resource p.op db

abbrev pub created_next : Tally → (Tally → Tally) → Outcome Db → Tally
created_next t rest (err x) = t
created_next t rest (ok d) = rest (record { count = t.count + 1; db = d })

-- The loop of creates, which breaks at the first failure.
unfoldable pub create_all : RecEnv → Pool → PoolSpec → Template → ℕ → Tally → Tally
unfolding create_one
create_all e pool spec tm zero t = t
create_all e pool spec tm (suc n) t =
    created_next t (create_all e pool spec tm n) (create_one e pool spec tm t.count t.db)

-- How many machines may be created.
abbrev pub allowance : PoolSpec → ℕ → ℕ → ℕ → ℕ
allowance spec live deficit budget =
    min
      (if ltb 0 spec.max_resources && ltb spec.max_resources (live + deficit)
        then spec.max_resources - live
        else deficit)
      budget

unfoldable pub scale_up :
    RecEnv → Pool → PoolSpec → Template → Json Checkpoint → List Resource → Cycle → Cycle
unfolding create_all
scale_up e pool spec tm checkpoint all c =
    if ltb e.now (backoff_until checkpoint)
    then c
    else (let t =
          create_all e pool spec tm (allowance spec (length all) c.deficit c.budget) (start c.db) in
        record c {
          db = t.db;
          delta = record c.delta { created = c.delta.created + t.count };
          budget = c.budget - t.count;
        })

-- The parked tier goes first.
unfoldable pub trim_parked_tally : RecEnv → List Resource → Cycle → Tally
unfolding oldest_parked_first
trim_parked_tally e all c =
    pass (λ n r. leb c.surplus n || leb c.budget n)
      (λ r d. cost_reclaim (e.op_ids r.id) r.id e.now Phase.parked d) (start c.db)
      (oldest_parked_first (of_phase Phase.parked all))

unfoldable pub trim_parked : RecEnv → List Resource → Cycle → Cycle
unfolding trim_parked_tally
trim_parked e all c =
    let t = trim_parked_tally e all c in
    record c {
      db = t.db;
      delta = record c.delta { deleted = c.delta.deleted + t.count };
      budget = c.budget - t.count;
      surplus = c.surplus - t.count;
    }

-- A ready machine without leases begins to drain.
unfoldable pub drain_idle : ℕ → Resource → Db → Outcome Db
drain_idle now r db = do
  guard (Leases.count_active r.id db == 0) conflict
  Resources.cas_phase r.id Phase.ready Phase.draining now db

unfoldable pub scale_down_tally : RecEnv → PoolSpec → Template → List Resource → Cycle → Tally
unfolding reclaimable drain_idle
scale_down_tally e spec tm all c =
    pass
      (λ n r.
        leb c.surplus n || leb c.budget n || ltb (number Phase.ready all) (n + 1 + spec.min_ready))
      (drain_idle e.now) (start c.db) (reclaimable (of_phase Phase.ready all) tm.reclaim e.now)

unfoldable pub scale_down : RecEnv → PoolSpec → Template → List Resource → Cycle → Cycle
unfolding scale_down_tally
scale_down e spec tm all c =
    let t = scale_down_tally e spec tm all c in
    record c {
      db = t.db;
      delta = record c.delta { drained = c.delta.drained + t.count };
      budget = c.budget - t.count;
      surplus = c.surplus - t.count;
    }
