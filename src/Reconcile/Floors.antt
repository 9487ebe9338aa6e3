-- ===== src/Reconcile/Floors.antt =====
-- A cycle leaves the ready tier its floor (internal/reconcile/reconcile.go, RunOnce).
use fleetplane.Prelude.{ℕ, ◌+◌, ◌-◌, ◌≡◌, ◌≤◌, refl, Bool, ◌&&◌, List, ltb, if-intro, arith}
use fleetplane.Prelude.Json.{Json}
use fleetplane.Phase.{Phase}
use fleetplane.Store.{Db, Resource}
use fleetplane.Reconcile.{PoolSpec}
use fleetplane.Reconcile.Backoff.{Checkpoint, backoff_until}
use fleetplane.Reconcile.Pools.{RecEnv, Pool, Template, Cycle, start, number, begin}
use fleetplane.Reconcile.Scaling.{
  undrain, warm_up, scale_up, trim_parked, scale_down, scale_down_tally,
}
use fleetplane.Reconcile.Cycle.{delete_all, park_idle, park_idle_tally, when, parks_idle, stages}
use fleetplane.Reconcile.Passes.{pass-le}

module _ (e : RecEnv) (spec : PoolSpec) (tm : Template) (all : List Resource) where
  -- The ready machines above the floor.
  abbrev spare : ℕ
  spare = number Phase.ready all - spec.min_ready

  drains-le : (c : Cycle) → (scale_down_tally e spec tm all c).count ≤ spare
  unfolding scale_down_tally
  drains-le c = pass-le _ _ spare (λ n r k. ground (arith, k)) (start c.db) _ (omega arith)

  parks-le :
      (c : Cycle)
      → c.delta.drained ≤ spare
      → c.delta.drained + (park_idle_tally e spec tm all c).count ≤ spare
  unfolding park_idle_tally
  parks-le c h =
      let b = number Phase.ready all - c.delta.drained - spec.min_ready in
      let t : (park_idle_tally e spec tm all c).count ≤ b =
        pass-le _ _ b (λ n r k. ground (arith, k)) (start c.db) _ (omega arith) in
      omega (arith, h, t)

  Untouched : Cycle → Type 0
  Untouched c = (c.delta.drained ≡ 0) × (c.delta.parked_now ≡ 0)

  Above : Cycle → Type 0
  Above c = (c.delta.drained ≤ spare) × (c.delta.parked_now ≡ 0)

  drained-Above : (c : Cycle) → Untouched c → Above (scale_down e spec tm all c)
  unfolding Untouched Above scale_down
  drained-Above c (d, p) = (omega (arith, d, drains-le c), p)

  parked_spare :
      (c : Cycle)
      → Above c
      → (park_idle e spec tm all c).delta.drained + (park_idle e spec tm all c).delta.parked_now
        ≤ spare
  unfolding Above park_idle
  parked_spare c (d, p) = omega (arith, p, parks-le c d)

  spared :
      (pool : Pool) (cp : Json Checkpoint) (b : ℕ) (db : Db)
      → (stages e pool spec tm cp all (begin b spec all db)).delta.drained
          + (stages e pool spec tm cp all (begin b spec all db)).delta.parked_now
        ≤ number Phase.ready all - spec.min_ready
  unfolding stages undrain warm_up scale_up trim_parked delete_all Untouched Above
  spared pool cp b db =
      let c1 : Cycle = undrain e all (begin b spec all db) in
      let b2 : Bool = ltb 0 spec.min_running && ltb c1.hot spec.min_running && ltb 0 c1.budget in
      let c2 : Cycle = when b2 (warm_up e spec all) c1 in
      let b3 : Bool = ltb 0 c2.deficit && ltb 0 c2.budget in
      let c3 : Cycle = when b3 (scale_up e pool spec tm cp all) c2 in
      let b4 : Bool = ltb 0 c3.surplus && ltb 0 c3.budget in
      let c4 : Cycle = when b4 (trim_parked e all) c3 in
      let b5 : Bool = ltb 0 c4.surplus && ltb 0 c4.budget in
      let c5 : Cycle = when b5 (scale_down e spec tm all) c4 in
      let c7 : Cycle = delete_all e Phase.failed all (delete_all e Phase.draining all c5) in
      let b8 : Bool = parks_idle spec tm && ltb 0 c7.budget in
      let h2 : Untouched c2 = if-intro Untouched b2 (refl, refl) (refl, refl) in
      let h3 : Untouched c3 =
        if-intro Untouched b3 (if-intro Untouched (ltb e.now (backoff_until cp)) h2 h2) h2 in
      let h4 : Untouched c4 = if-intro Untouched b4 h3 h3 in
      let h5 : Above c5 = if-intro Above b5 (drained-Above c4 h4) (omega (arith, h4.0), h4.1) in
      if-intro (λ (c : Cycle). c.delta.drained + c.delta.parked_now ≤ spare) b8 (parked_spare c7 h5)
        (omega (arith, h5.0, h5.1))

-- A cycle takes no more machines out of the ready tier, by drains and parks together, than there are
-- above the pool's minReady when it starts.
pub stages-spare :
    (e : RecEnv) (spec : PoolSpec) (tm : Template) (all : List Resource) (pool : Pool)
    (cp : Json Checkpoint) (b : ℕ) (db : Db)
    → (stages e pool spec tm cp all (begin b spec all db)).delta.drained
        + (stages e pool spec tm cp all (begin b spec all db)).delta.parked_now
      ≤ number Phase.ready all - spec.min_ready
stages-spare e spec tm all pool cp b db = spared e spec tm all pool cp b db
