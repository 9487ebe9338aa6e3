-- ===== src/Reconcile/Passes.antt =====
-- The rules of the reconciler's loops (internal/reconcile/reconcile.go, RunOnce).
use fleetplane.Prelude.{
  ℕ, zero, suc, ◌+◌, ◌≤◌, ◌≡◌, inl, inr, Bool, true, false, List, [], ◌∷◌, arith, Bool-cases,
  if-intro,
}
use fleetplane.Prelude.Outcome.{Outcome, ok, err, OnOk}
use fleetplane.Store.{Db, Resource}
use fleetplane.Reconcile.{PoolSpec}
use fleetplane.Reconcile.Pools.{Tally, counted, pass, RecEnv, Pool, Template}
use fleetplane.Reconcile.Scaling.{create_all, create_one, created_next}

module _ (stop : ℕ → Resource → Bool) (act : Resource → Db → Outcome Db) where
  -- A loop that stops at the budget makes no more changes than it allows.
  pub pass-le :
      (b : ℕ)
      → ((n : ℕ) (r : Resource) → b ≤ n → stop n r ≡ true)
      → (t : Tally) (rs : List Resource) → t.count ≤ b
      → (pass stop act t rs).count ≤ b
  unfolding pass
  pass-le b stops t [] h = h
  pass-le b stops t (r ∷ rs) h = elim (Bool-cases (stop t.count r)) [
    | inl y ↦ rw y h
    | inr n ↦ rw n (pass-le b stops (counted t (act r t.db)) rs (step n (act r t.db)))
  ]
    where
      step : stop t.count r ≡ false → (m : Outcome Db) → (counted t m).count ≤ b
      step n (err x) = h
      step n (ok d) = ground (arith, n, stops t.count r)

  -- What each change keeps, the loop keeps.
  pub pass-keeps :
      (P : Db → Type 0)
      → ((r : Resource) (d : Db) → P d → OnOk P (act r d))
      → (t : Tally) (rs : List Resource) → P t.db
      → P (pass stop act t rs).db
  unfolding pass
  pass-keeps P keeps t [] h = h
  pass-keeps P keeps t (r ∷ rs) h =
      if-intro (λ (x : Tally). P x.db) (stop t.count r) h
        (pass-keeps P keeps (counted t (act r t.db)) rs (step (act r t.db) (keeps r t.db h)))
    where
      step : (m : Outcome Db) → OnOk P m → P (counted t m).db
      step (err x) k = h
      step (ok d) k = k

module _ (e : RecEnv) (pool : Pool) (spec : PoolSpec) (tm : Template) where
  pub creates-le : (n : ℕ) (t : Tally) → (create_all e pool spec tm n t).count ≤ t.count + n
  unfolding create_all
  creates-le zero t = omega arith
  creates-le (suc n) t = step (create_one e pool spec tm t.count t.db) (creates-le n)
    where
      step :
          (m : Outcome Db)
          → ((u : Tally) → (create_all e pool spec tm n u).count ≤ u.count + n)
          → (created_next t (create_all e pool spec tm n) m).count ≤ t.count + suc n
      step (err x) ih = omega arith
      step (ok d) ih = omega (arith, ih (record { count = t.count + 1; db = d }))

  pub creates-keeps :
      (P : Db → Type 0)
      → ((i : ℕ) (d : Db) → P d → OnOk P (create_one e pool spec tm i d))
      → (n : ℕ) (t : Tally) → P t.db
      → P (create_all e pool spec tm n t).db
  unfolding create_all
  creates-keeps P keeps zero t h = h
  creates-keeps P keeps (suc n) t h =
      step (create_one e pool spec tm t.count t.db) (keeps t.count t.db h) (creates-keeps P keeps n)
    where
      step :
          (m : Outcome Db)
          → OnOk P m
          → ((u : Tally) → P u.db → P (create_all e pool spec tm n u).db)
          → P (created_next t (create_all e pool spec tm n) m).db
      step (err x) k ih = h
      step (ok d) k ih = ih (record { count = t.count + 1; db = d }) k
