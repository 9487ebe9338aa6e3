-- ===== src/Reconcile/Stages.antt =====
-- The rule of a cycle: what every stage keeps, RunOnce keeps (internal/reconcile/reconcile.go).
use fleetplane.Prelude.{ℕ, ◌≤◌, some, arith, Bool, true, ◌&&◌, List, [], ltb, length, if-intro}
use fleetplane.Prelude.Outcome.{Outcome, ok, err, OnOk, ◌>>=◌}
use fleetplane.Prelude.Json.{Json, unmarshal}
use fleetplane.Phase.{Phase}
use fleetplane.Store.{Db, Resource}
use fleetplane.Store.Resources
use fleetplane.Store.Resources.Listing.{every, list}
use fleetplane.Machines.{journal_start, journal_stop, journal_delete}
use fleetplane.Reconcile.{PoolSpec}
use fleetplane.Reconcile.Queue.{cost_reclaim}
use fleetplane.Reconcile.Backoff.{Checkpoint, backoff_until}
use fleetplane.Reconcile.Pools.{RecEnv, Pool, Template, Cycle, start, begin, template}
use fleetplane.Reconcile.Scaling.{
  undrain, warm_up, create_one, allowance, scale_up, trim_parked, drain_idle, scale_down,
  undrain_tally, warm_up_tally, trim_parked_tally, scale_down_tally,
}
use fleetplane.Reconcile.Cycle.{
  delete_all, park_idle, when, parks_idle, stages, run_spec, run_once, no_spec, delete_all_tally,
  park_idle_tally,
}
use fleetplane.Reconcile.Passes.{pass-keeps, creates-keeps}

-- What each stage keeps, in a cycle over the machines `all`.
pub record StageRules (Q : Cycle → Type 0) (e : RecEnv) (pool : Pool) (cp : Json Checkpoint)
    (spec : PoolSpec) (tm : Template) (all : List Resource) : Type 0 where
  pub undrains : (c : Cycle) → Q c → Q (undrain e all c)
  pub warms : (c : Cycle) → Q c → Q (warm_up e spec all c)
  pub scales_up : (c : Cycle) → Q c → Q (scale_up e pool spec tm cp all c)
  pub trims : (c : Cycle) → Q c → Q (trim_parked e all c)
  pub scales_down : (c : Cycle) → Q c → Q (scale_down e spec tm all c)
  pub deletes : (from : Phase) (c : Cycle) → Q c → Q (delete_all e from all c)
  pub parks : (c : Cycle) → Q c → Q (park_idle e spec tm all c)

module _ (Q : Cycle → Type 0) (e : RecEnv) (pool : Pool) (cp : Json Checkpoint) where
  stages-rule :
      (spec : PoolSpec) (tm : Template) (all : List Resource)
      → StageRules Q e pool cp spec tm all
      → (c : Cycle) → Q c
      → Q (stages e pool spec tm cp all c)
  unfolding stages
  stages-rule spec tm all rules c0 h0 =
      let c1 : Cycle = undrain e all c0 in
      let b2 : Bool = ltb 0 spec.min_running && ltb c1.hot spec.min_running && ltb 0 c1.budget in
      let c2 : Cycle = when b2 (warm_up e spec all) c1 in
      let b3 : Bool = ltb 0 c2.deficit && ltb 0 c2.budget in
      let c3 : Cycle = when b3 (scale_up e pool spec tm cp all) c2 in
      let b4 : Bool = ltb 0 c3.surplus && ltb 0 c3.budget in
      let c4 : Cycle = when b4 (trim_parked e all) c3 in
      let b5 : Bool = ltb 0 c4.surplus && ltb 0 c4.budget in
      let c5 : Cycle = when b5 (scale_down e spec tm all) c4 in
      let c6 : Cycle = delete_all e Phase.draining all c5 in
      let c7 : Cycle = delete_all e Phase.failed all c6 in
      let b8 : Bool = parks_idle spec tm && ltb 0 c7.budget in
      let h1 : Q c1 = rules.undrains c0 h0 in
      let h2 : Q c2 = if-intro Q b2 (rules.warms c1 h1) h1 in
      let h3 : Q c3 = if-intro Q b3 (rules.scales_up c2 h2) h2 in
      let h4 : Q c4 = if-intro Q b4 (rules.trims c3 h3) h3 in
      let h5 : Q c5 = if-intro Q b5 (rules.scales_down c4 h4) h4 in
      let h6 : Q c6 = rules.deletes Phase.draining c5 h5 in
      let h7 : Q c7 = rules.deletes Phase.failed c6 h6 in if-intro Q b8 (rules.parks c7 h7) h7

  -- A cycle, from the state in which it begins.
  pub run_once-rule :
      ((spec : PoolSpec) (tm : Template) (all : List Resource) → StageRules Q e pool cp spec tm all)
      → (db : Db)
      → ((b : ℕ) (spec : PoolSpec) (all : List Resource)
          → b ≤ e.max_mutations
          → Q (begin b spec all db))
      → OnOk Q (run_once e pool cp db)
  unfolding run_once
  run_once-rule rules db h =
      if-intro (OnOk Q) pool.paused (h 0 no_spec [] (omega arith)) (by_spec (unmarshal pool.spec))
    where
      by_template :
          (spec : PoolSpec) (m : Outcome Template)
          → OnOk Q (
              m >>= λ tm.
              let all = list (record every { pool_id = some pool.id }) db in
              ok (stages e pool spec tm cp all (begin e.max_mutations spec all db)))
      by_template spec (err x) = tt
      by_template spec (ok tm) =
          let all = list (record every { pool_id = some pool.id }) db in
          stages-rule spec tm all (rules spec tm all) (begin e.max_mutations spec all db)
            (h e.max_mutations spec all (omega arith))

      by_spec : (m : Outcome PoolSpec) → OnOk Q (m >>= run_spec e pool cp db)
      by_spec (err x) = tt
      by_spec (ok spec) = by_template spec (template e.classes spec)

-- What each change of a cycle keeps of the database.
pub record ActRules (P : Db → Type 0) (e : RecEnv) (pool : Pool) : Type 0 where
  pub undrains :
      (r : Resource) (d : Db)
      → P d
      → OnOk P (Resources.cas_phase r.id Phase.draining Phase.ready e.now d)
  pub starts :
      (r : Resource) (d : Db) → P d → OnOk P (journal_start e.parking (e.op_ids r.id) r.id e.now d)
  pub creates :
      (spec : PoolSpec) (tm : Template) (i : ℕ) (d : Db)
      → P d
      → OnOk P (create_one e pool spec tm i d)
  pub reclaims :
      (from : Phase) (r : Resource) (d : Db)
      → P d
      → OnOk P (cost_reclaim (e.op_ids r.id) r.id e.now from d)
  pub drains : (r : Resource) (d : Db) → P d → OnOk P (drain_idle e.now r d)
  pub deletes : (r : Resource) (d : Db) → P d → OnOk P (journal_delete (e.op_ids r.id) r.id e.now d)
  pub parks :
      (r : Resource) (d : Db)
      → P d
      → OnOk P (journal_stop e.parking (e.op_ids r.id) r.id e.now true d)

module _ (P : Db → Type 0) (e : RecEnv) (pool : Pool) (cp : Json Checkpoint)
    (acts : ActRules P e pool) where
  act-StageRules :
      (spec : PoolSpec) (tm : Template) (all : List Resource)
      → StageRules (λ c. P c.db) e pool cp spec tm all
  unfolding undrain undrain_tally warm_up warm_up_tally scale_up trim_parked trim_parked_tally
      scale_down scale_down_tally delete_all delete_all_tally park_idle park_idle_tally
  act-StageRules spec tm all = record {
    undrains = λ c h. pass-keeps _ _ P acts.undrains (start c.db) _ h;
    warms = λ c h. pass-keeps _ _ P acts.starts (start c.db) _ h;
    scales_up = λ c h.
        if-intro (λ (x : Cycle). P x.db) (ltb e.now (backoff_until cp)) h
          (creates-keeps e pool spec tm P (acts.creates spec tm)
            (allowance spec (length all) c.deficit c.budget) (start c.db) h);
    trims = λ c h. pass-keeps _ _ P (acts.reclaims Phase.parked) (start c.db) _ h;
    scales_down = λ c h. pass-keeps _ _ P acts.drains (start c.db) _ h;
    deletes = λ from c h. pass-keeps _ _ P acts.deletes (start c.db) _ h;
    parks = λ c h. pass-keeps _ _ P acts.parks (start c.db) _ h;
  }

  -- What each change keeps, a cycle keeps.
  pub run_once-keeps : (db : Db) → P db → OnOk (λ c. P c.db) (run_once e pool cp db)
  run_once-keeps db h = run_once-rule (λ c. P c.db) e pool cp act-StageRules db (λ b spec all _. h)
