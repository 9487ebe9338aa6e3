-- ===== src/Reconcile/Budget.antt =====
-- A cycle makes no more changes than its budget (internal/reconcile/reconcile.go, RunOnce).
use fleetplane.Prelude.{
  ℕ, ◌+◌, ◌≤◌, ◌≡◌, Bool, true, ◌||◌, List, ltb, leb, length, arith, if-intro, le→leb,
}
use fleetplane.Prelude.Outcome.{OnOk}
use fleetplane.Prelude.Json.{Json}
use fleetplane.Phase.{Phase}
use fleetplane.Store.{Db, Resource}
use fleetplane.Reconcile.{PoolSpec}
use fleetplane.Reconcile.Backoff.{Checkpoint, backoff_until}
use fleetplane.Reconcile.Pools.{RecEnv, Pool, Template, Delta, Cycle, start}
use fleetplane.Reconcile.Scaling.{
  undrain, warm_up, allowance, scale_up, trim_parked, scale_down, undrain_tally, warm_up_tally,
  trim_parked_tally, scale_down_tally,
}
use fleetplane.Reconcile.Cycle.{delete_all, park_idle, delete_all_tally, park_idle_tally, run_once}
use fleetplane.Reconcile.Stages.{run_once-rule}
use fleetplane.Reconcile.Passes.{pass-le, creates-le}

-- The changes that a cycle reports.
abbrev pub changes : Delta → ℕ
changes d = d.created + d.drained + d.undrained + d.deleted + d.parked_now + d.started

-- What has been spent and what is left.
abbrev Spent : ℕ → Cycle → Type 0
Spent b c = changes c.delta + c.budget ≤ b

or_left : (a b : Bool) → a ≡ true → (a || b) ≡ true
or_left a b h = ground (arith, h)

or_right : (a b : Bool) → b ≡ true → (a || b) ≡ true
or_right a b h = ground (arith, h)

undrain-le :
    (e : RecEnv) (all : List Resource) (c : Cycle) → (undrain_tally e all c).count ≤ c.budget
unfolding undrain_tally
undrain-le e all c =
    pass-le _ _ c.budget
      (λ n r k. or_right (leb c.deficit n) (leb c.budget n) (le→leb c.budget n k)) (start c.db) _
      (omega arith)

warm_up-le :
    (e : RecEnv) (spec : PoolSpec) (all : List Resource) (c : Cycle)
    → (warm_up_tally e spec all c).count ≤ c.budget
unfolding warm_up_tally
warm_up-le e spec all c =
    pass-le _ _ c.budget
      (λ n r k. or_right (leb spec.min_running (c.hot + n)) (leb c.budget n) (le→leb c.budget n k))
      (start c.db) _ (omega arith)

trim_parked-le :
    (e : RecEnv) (all : List Resource) (c : Cycle) → (trim_parked_tally e all c).count ≤ c.budget
unfolding trim_parked_tally
trim_parked-le e all c =
    pass-le _ _ c.budget
      (λ n r k. or_right (leb c.surplus n) (leb c.budget n) (le→leb c.budget n k)) (start c.db) _
      (omega arith)

scale_down-le :
    (e : RecEnv) (spec : PoolSpec) (tm : Template) (all : List Resource) (c : Cycle)
    → (scale_down_tally e spec tm all c).count ≤ c.budget
unfolding scale_down_tally
scale_down-le e spec tm all c =
    pass-le _ _ c.budget (λ n r k. or_left _ _ (or_right _ _ (le→leb c.budget n k))) (start c.db) _
      (omega arith)

delete_all-le :
    (e : RecEnv) (from : Phase) (all : List Resource) (c : Cycle)
    → (delete_all_tally e from all c).count ≤ c.budget
unfolding delete_all_tally
delete_all-le e from all c =
    pass-le _ _ c.budget (λ n r k. le→leb c.budget n k) (start c.db) _ (omega arith)

park_idle-le :
    (e : RecEnv) (spec : PoolSpec) (tm : Template) (all : List Resource) (c : Cycle)
    → (park_idle_tally e spec tm all c).count ≤ c.budget
unfolding park_idle_tally
park_idle-le e spec tm all c =
    pass-le _ _ c.budget (λ n r k. or_left _ _ (or_left _ _ (or_left _ _ (le→leb c.budget n k))))
      (start c.db) _ (omega arith)

scale_up-Spent :
    (b : ℕ) (e : RecEnv) (pool : Pool) (spec : PoolSpec) (tm : Template) (cp : Json Checkpoint)
    (all : List Resource) (c : Cycle)
    → Spent b c
    → Spent b (scale_up e pool spec tm cp all c)
unfolding scale_up
scale_up-Spent b e pool spec tm cp all c h = if-intro (Spent b) (ltb e.now (backoff_until cp)) h (
    let most =
      creates-le e pool spec tm (allowance spec (length all) c.deficit c.budget) (start c.db) in
    ground (arith, most))

undrain-Spent :
    (b : ℕ) (e : RecEnv) (all : List Resource) (c : Cycle) → Spent b c → Spent b (undrain e all c)
unfolding undrain
undrain-Spent b e all c h = omega (arith, undrain-le e all c)

warm_up-Spent :
    (b : ℕ) (e : RecEnv) (spec : PoolSpec) (all : List Resource) (c : Cycle)
    → Spent b c
    → Spent b (warm_up e spec all c)
unfolding warm_up
warm_up-Spent b e spec all c h = omega (arith, warm_up-le e spec all c)

trim_parked-Spent :
    (b : ℕ) (e : RecEnv) (all : List Resource) (c : Cycle)
    → Spent b c
    → Spent b (trim_parked e all c)
unfolding trim_parked
trim_parked-Spent b e all c h = omega (arith, trim_parked-le e all c)

scale_down-Spent :
    (b : ℕ) (e : RecEnv) (spec : PoolSpec) (tm : Template) (all : List Resource) (c : Cycle)
    → Spent b c
    → Spent b (scale_down e spec tm all c)
unfolding scale_down
scale_down-Spent b e spec tm all c h = omega (arith, scale_down-le e spec tm all c)

delete_all-Spent :
    (b : ℕ) (e : RecEnv) (from : Phase) (all : List Resource) (c : Cycle)
    → Spent b c
    → Spent b (delete_all e from all c)
unfolding delete_all
delete_all-Spent b e from all c h = omega (arith, delete_all-le e from all c)

park_idle-Spent :
    (b : ℕ) (e : RecEnv) (spec : PoolSpec) (tm : Template) (all : List Resource) (c : Cycle)
    → Spent b c
    → Spent b (park_idle e spec tm all c)
unfolding park_idle
park_idle-Spent b e spec tm all c h = omega (arith, park_idle-le e spec tm all c)

-- A cycle reports at most as many changes, creates and failed machines' deletes included, as its
-- mutation budget allows.
pub run_once-budget :
    (e : RecEnv) (pool : Pool) (cp : Json Checkpoint) (db : Db)
    → OnOk (λ c. changes c.delta + c.budget ≤ e.max_mutations) (run_once e pool cp db)
run_once-budget e pool cp db =
    run_once-rule (Spent e.max_mutations) e pool cp
      (λ spec tm all. record {
        undrains = λ c h. undrain-Spent e.max_mutations e all c h;
        warms = λ c h. warm_up-Spent e.max_mutations e spec all c h;
        scales_up = λ c h. scale_up-Spent e.max_mutations e pool spec tm cp all c h;
        trims = λ c h. trim_parked-Spent e.max_mutations e all c h;
        scales_down = λ c h. scale_down-Spent e.max_mutations e spec tm all c h;
        deletes = λ from c h. delete_all-Spent e.max_mutations e from all c h;
        parks = λ c h. park_idle-Spent e.max_mutations e spec tm all c h;
      })
      db (λ b spec all h. omega arith)
