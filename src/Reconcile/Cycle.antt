-- ===== src/Reconcile/Cycle.antt =====
-- internal/reconcile/reconcile.go, RunOnce: the deletes, the park pass, and one cycle over one pool. A
-- loop over machines counts the changes that succeed; each changes the database in a transaction of
-- its own.
use fleetplane.Prelude.{
  ◌+◌, ◌-◌, Bool, true, false, not, ◌&&◌, ◌||◌, Option, none, some, List, [], ltb, leb,
  if◌then◌else◌,
}
use fleetplane.Prelude.Outcome.{Outcome, ok, ◌>>=◌}
use fleetplane.Prelude.Json.{Json, unmarshal}
use fleetplane.Phase.{Phase}
use fleetplane.Store.{Db, Resource}
use fleetplane.Store.Resources.Listing.{every, list}
use fleetplane.Machines.{journal_stop, journal_delete}
use fleetplane.Reconcile.{ReclaimPolicy, park_enabled, PoolSpec}
use fleetplane.Reconcile.Idle.{reclaimable}
use fleetplane.Reconcile.Backoff.{Checkpoint}
use fleetplane.Reconcile.Pools.{
  Cycle, Pool, RecEnv, Tally, Template, begin, number, of_phase, pass, start, template,
}
use fleetplane.Reconcile.Scaling.{scale_down, scale_up, trim_parked, undrain, warm_up}

-- The drain pipeline and the cleanup of failed machines.
unfoldable pub delete_all_tally : RecEnv → Phase → List Resource → Cycle → Tally
delete_all_tally e from all c =
    pass (λ n r. leb c.budget n) (λ r d. journal_delete (e.op_ids r.id) r.id e.now d) (start c.db)
      (of_phase from all)

unfoldable pub delete_all : RecEnv → Phase → List Resource → Cycle → Cycle
unfolding delete_all_tally
delete_all e from all c =
    let t = delete_all_tally e from all c in
    record c {
      db = t.db;
      delta = record c.delta { deleted = c.delta.deleted + t.count };
      budget = c.budget - t.count;
    }

-- The park pass: idle ready machines above both floors.
unfoldable pub park_idle_tally : RecEnv → PoolSpec → Template → List Resource → Cycle → Tally
unfolding reclaimable
park_idle_tally e spec tm all c =
    pass
      (λ n r.
        leb c.budget n
        || ltb (number Phase.ready all - c.delta.drained) (n + 1 + spec.min_ready)
        || ltb c.hot (n + 1 + spec.min_running)
        || not (e.parking r.provider r.kind))
      (λ r d. journal_stop e.parking (e.op_ids r.id) r.id e.now true d) (start c.db)
      (reclaimable (of_phase Phase.ready all) tm.reclaim e.now)

unfoldable pub park_idle : RecEnv → PoolSpec → Template → List Resource → Cycle → Cycle
unfolding park_idle_tally
park_idle e spec tm all c =
    let t = park_idle_tally e spec tm all c in
    record c {
      db = t.db;
      delta = record c.delta { parked_now = c.delta.parked_now + t.count };
      budget = c.budget - t.count;
      hot = c.hot - t.count;
    }

-- A stage that runs under a condition.
abbrev pub when : Bool → (Cycle → Cycle) → Cycle → Cycle
when b f c = if b then f c else c

abbrev pub idles : Option ReclaimPolicy → Bool
idles none = false
idles (some p) = ltb 0 p.idle_after

-- With a warm tier, and a policy that parks what has been idle for a while.
abbrev pub parks_idle : PoolSpec → Template → Bool
parks_idle spec tm = ltb 0 spec.min_running && idles tm.reclaim && park_enabled tm.reclaim

-- The stages, in their order.
unfoldable pub stages :
    RecEnv → Pool → PoolSpec → Template → Json Checkpoint → List Resource → Cycle → Cycle
unfolding undrain warm_up scale_up trim_parked scale_down delete_all park_idle
stages e pool spec tm checkpoint all c0 =
    let c1 = undrain e all c0 in
    let c2 =
      when (ltb 0 spec.min_running && ltb c1.hot spec.min_running && ltb 0 c1.budget)
        (warm_up e spec all) c1 in
    let c3 =
      when (ltb 0 c2.deficit && ltb 0 c2.budget) (scale_up e pool spec tm checkpoint all) c2 in
    let c4 = when (ltb 0 c3.surplus && ltb 0 c3.budget) (trim_parked e all) c3 in
    let c5 = when (ltb 0 c4.surplus && ltb 0 c4.budget) (scale_down e spec tm all) c4 in
    let c6 = delete_all e Phase.draining all c5 in
    let c7 = delete_all e Phase.failed all c6 in
    when (parks_idle spec tm && ltb 0 c7.budget) (park_idle e spec tm all) c7

abbrev pub run_spec : RecEnv → Pool → Json Checkpoint → Db → PoolSpec → Outcome Cycle
run_spec e pool checkpoint db spec = template e.classes spec >>= λ tm.
    let all = list (record every { pool_id = some pool.id }) db in
    ok (stages e pool spec tm checkpoint all (begin e.max_mutations spec all db))

abbrev pub no_spec : PoolSpec
no_spec = record {
  class = 0;
  replicas = 0;
  min_ready = 0;
  min_running = 0;
  max_resources = 0;
  reclaim = none;
  machine = none;
  provider = 0;
  kind = 0;
}

-- RunOnce: a paused pool is left alone.
unfoldable pub run_once : RecEnv → Pool → Json Checkpoint → Db → Outcome Cycle
unfolding stages template
run_once e pool checkpoint db =
    if pool.paused
    then ok (begin 0 no_spec [] db)
    else unmarshal pool.spec >>= run_spec e pool checkpoint db
