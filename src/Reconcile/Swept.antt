-- ===== src/Reconcile/Swept.antt =====
-- What the sweep over the machines without a pool keeps (internal/reconcile/reconcile.go,
-- ReclaimPoolless).
use fleetplane.Prelude.{
  ℕ, ◌+◌, ◌/◌, subst, sym, ◌≤◌, ◌≡◌, inl, inr, refl, true, false, not, ◌&&◌, ◌||◌, Option, none,
  some, List, [], ◌∷◌, ltb, ◌==◌, arith, if-intro, Bool-cases,
}
use fleetplane.Prelude.Outcome.{Outcome, ok, err, OnOk}
use fleetplane.Phase.{Phase, phase_eq}
use fleetplane.Billing.{ms, fine_grained, Window, termination_window, Decision, decide}
use fleetplane.Store.{Db, Resource}
use fleetplane.Store.Resources.Listing.{list}
use fleetplane.Machines.{journal_stop, journal_delete}
use fleetplane.Reconcile.{ReclaimPolicy, park_enabled}
use fleetplane.Reconcile.Queue.{claim_queued, cost_reclaim}
use fleetplane.Reconcile.Idle.{idle_since}
use fleetplane.Prelude.Json.{Json}
use fleetplane.Store.Rows.{get_row, count_where}
use fleetplane.Store.Resources.{res_id}
use fleetplane.Store.Leases.{holds}
use fleetplane.Scheduler.Sound.{Sound}
use fleetplane.Reconcile.Stages.{ActRules}
use fleetplane.Reconcile.Keeps.{act-Sound}
use fleetplane.Reconcile.Leased.{Kept, act-Kept, kept_or_raised}
use fleetplane.Reconcile.Pools.{RecEnv, Pool}
use fleetplane.Reconcile.Poolless.{
  CacheEntry, Sweep, spend_shared, spend_cost, spend_idle, unless_claimed, parked_long,
  delete_parked, dispose, by_decision, by_window, in_window, buffer_of, reclaim_idle, by_policy,
  policy_of, sweep_one, sweep_list, poolless_filter, begin_sweep, reclaim_poolless,
}

-- What each kind of change keeps of the sweep.
pub record SweepRules (Q : Sweep → Type 0) (e : RecEnv) : Type 0 where
  -- The queue, the cache and the missed windows do not matter.
  pub memory :
      (s : Sweep) (s' : Sweep)
      → s'.db ≡ s.db
      → s'.budget ≡ s.budget
      → s'.cost_budget ≡ s.cost_budget
      → s'.n ≡ s.n
      → Q s
      → Q s'
  pub shared :
      (s : Sweep) (r : Resource)
      → (s.budget == 0) ≡ false
      → Q s
      → Q (spend_shared s (journal_delete (e.op_ids r.id) r.id e.now s.db))
  pub cost :
      (s : Sweep) (r : Resource)
      → (s.cost_budget == 0) ≡ false
      → Q s
      → Q (spend_cost s (cost_reclaim (e.op_ids r.id) r.id e.now Phase.parked s.db))
  pub idle :
      (s : Sweep) (r : Resource)
      → (s.cost_budget == 0) ≡ false
      → Q s
      → Q (spend_idle r.id s (cost_reclaim (e.op_ids r.id) r.id e.now Phase.ready s.db))
  pub park :
      (s : Sweep) (r : Resource)
      → (s.cost_budget == 0) ≡ false
      → Q s
      → Q (spend_idle r.id s (journal_stop e.parking (e.op_ids r.id) r.id e.now true s.db))

module _ (Q : Sweep → Type 0) (e : RecEnv) (rules : SweepRules Q e) where
  claim-rule :
      (r : Resource) (f : Sweep → Sweep) (s : Sweep)
      → ((s1 : Sweep) → (s1.cost_budget == 0) ≡ false → Q s1 → Q (f s1))
      → (s.cost_budget == 0) ≡ false
      → Q s
      → Q (unless_claimed r f s)
  claim-rule r f s k left h =
      let s1 : Sweep = record s { queue = (claim_queued s.queue r).queue } in
      let h1 : Q s1 = rules.memory s s1 refl refl refl refl h in
      if-intro Q (claim_queued s.queue r).claimed h1 (k s1 left h1)

  parked-rule :
      (p : ReclaimPolicy) (r : Resource) (s : Sweep)
      → (s.cost_budget == 0) ≡ false
      → Q s
      → Q (delete_parked e p r s)
  unfolding delete_parked
  parked-rule p r s left h =
      if-intro Q (not (parked_long e.now p r.parked_at)) h
        (claim-rule r _ s (λ s1 left1 h1. rules.cost s1 r left1 h1) left h)

  dispose-rule :
      (p : ReclaimPolicy) (r : Resource) (s : Sweep)
      → (s.cost_budget == 0) ≡ false
      → Q s
      → Q (dispose e p r s)
  unfolding dispose
  dispose-rule p r s left h =
      if-intro Q (park_enabled (some p) && e.parking r.provider r.kind) (rules.park s r left h)
        (rules.idle s r left h)

  decision-rule :
      (p : ReclaimPolicy) (r : Resource) (w : Window) (s : Sweep) (d : Decision)
      → (s.cost_budget == 0) ≡ false
      → Q s
      → Q (by_decision e p r w s d)
  decision-rule p r w s Decision.keep left h = h
  decision-rule p r w s Decision.crossed left h =
      rules.memory s (record s { missed = (r.id, w.boundary_ms) ∷ s.missed }) refl refl refl refl h
  decision-rule p r w s Decision.terminate left h = dispose-rule p r s left h

  by_window-rule :
      (p : ReclaimPolicy) (r : Resource) (s : Sweep) (o : Option Window)
      → (s.cost_budget == 0) ≡ false
      → Q s
      → Q (by_window e p r s o)
  by_window-rule p r s none left h = dispose-rule p r s left h
  by_window-rule p r s (some w) left h = decision-rule p r w s (decide w e.now) left h

  window-rule :
      (p : ReclaimPolicy) (r : Resource) (s : Sweep)
      → (s.cost_budget == 0) ≡ false
      → Q s
      → Q (in_window e p r s)
  unfolding in_window
  window-rule p r s left h =
      let pol = (e.billing r.provider r.kind).0 in
      let b = buffer_of e r.provider r.kind pol s in
      if-intro Q (fine_grained pol) (dispose-rule p r s left h) (
        by_window-rule p r (record s { cache = b.cache })
          (termination_window r.created_at pol e.now b.buffer 0) left
          (rules.memory s (record s { cache = b.cache }) refl refl refl refl h))

  policy-rule : (r : Resource) (s : Sweep) (o : Option ReclaimPolicy) → Q s → Q (by_policy e r s o)
  unfolding reclaim_idle
  policy-rule r s none h = h
  policy-rule r s (some p) h = elim (Bool-cases (r.delete_protected || s.cost_budget == 0)) [
    | inl y ↦ rw y h
    | inr n ↦
        let left : (s.cost_budget == 0) ≡ false = ground (arith, n) in
        rw n (
          if-intro Q (phase_eq r.phase Phase.parked) (parked-rule p r s left h) (
            if-intro Q (not (ltb 0 p.idle_after) || ltb e.now (idle_since r + p.idle_after / ms)) h
              (claim-rule r (in_window e p r) s (λ s1 left1 h1. window-rule p r s1 left1 h1) left
                h)))
  ]

  sweep_one-rule : (s : Sweep) (r : Resource) → Q s → Q (sweep_one e s r)
  unfolding sweep_one
  sweep_one-rule s r h =
      if-intro Q (phase_eq r.phase Phase.draining)
        (elim (Bool-cases (s.budget == 0)) [ inl y ↦ rw y h | inr n ↦ rw n (rules.shared s r n h) ])
        (policy-rule r s (policy_of (e.classes r.class)) h)

  -- What each change keeps, the sweep keeps.
  pub sweep_list-rule : (s : Sweep) (rs : List Resource) → Q s → Q (sweep_list e s rs)
  unfolding sweep_list
  sweep_list-rule s [] h = h
  sweep_list-rule s (r ∷ rs) h = sweep_list-rule (sweep_one e s r) rs (sweep_one-rule s r h)

spend_idle-db :
    (P : Db → Type 0) (res : ℕ) (s : Sweep) (m : Outcome Db)
    → P s.db
    → OnOk P m
    → P (spend_idle res s m).db
spend_idle-db P res s (ok d) h k = k
spend_idle-db P res s (err x) h k = h

spend_cost-db :
    (P : Db → Type 0) (s : Sweep) (m : Outcome Db) → P s.db → OnOk P m → P (spend_cost s m).db
spend_cost-db P s (ok d) h k = k
spend_cost-db P s (err x) h k = h

spend_shared-db :
    (P : Db → Type 0) (s : Sweep) (m : Outcome Db) → P s.db → OnOk P m → P (spend_shared s m).db
spend_shared-db P s (ok d) h k = k
spend_shared-db P s (err x) h k = h

-- What each change keeps of the database, the sweep keeps.
sweep-keeps :
    (P : Db → Type 0) (e : RecEnv) (pool : Pool) (missed : List (ℕ × ℕ)) (cache : List CacheEntry)
    (db : Db)
    → ActRules P e pool
    → P db
    → P (reclaim_poolless e missed cache db).db
unfolding reclaim_poolless
sweep-keeps P e pool missed cache db acts h =
    sweep_list-rule (λ s. P s.db) e
      (record {
        memory = λ s s' same _ _ _ k. subst P (sym same) k;
        shared = λ s r _ k. spend_shared-db P s _ k (acts.deletes r s.db k);
        cost = λ s r _ k. spend_cost-db P s _ k (acts.reclaims Phase.parked r s.db k);
        idle = λ s r _ k. spend_idle-db P r.id s _ k (acts.reclaims Phase.ready r s.db k);
        park = λ s r _ k. spend_idle-db P r.id s _ k (acts.parks r s.db k);
      })
      (begin_sweep e missed cache db) (list poolless_filter db) h

-- The rules of a cycle do not look at its pool.
abbrev any_pool : Pool
any_pool = record { id = 0; name = 0; paused = false; spec = Json.blank }

-- The sweep over the machines without a pool keeps the tables sound, and takes no machine from its
-- lease holders: a machine with an active lease stays alive as it was, and in its phase or closer to
-- service.
pub reclaim_poolless-Sound :
    (e : RecEnv) (missed : List (ℕ × ℕ)) (cache : List CacheEntry) (db : Db)
    → Sound db
    → Sound (reclaim_poolless e missed cache db).db
      × ((j : ℕ) (r : Resource)
          → get_row res_id j db.resources ≡ some r
          → 1 ≤ count_where (holds j) db.leases
          → (r' : Resource) × (get_row res_id j (reclaim_poolless e missed cache db).db.resources
              ≡ some r')
            × ((r'.deleted_at ≡ r.deleted_at) × (kept_or_raised r.phase r'.phase ≡ true)))
reclaim_poolless-Sound e missed cache db s = (
  sweep-keeps Sound e any_pool missed cache db (act-Sound e any_pool) s,
  (λ j r g held.
      (sweep-keeps (Kept j r db.leases held) e any_pool missed cache db
        (act-Kept j r db.leases held e any_pool) (refl, (r, g, (refl, ground arith)))).1),
)

abbrev Spent : ℕ → Sweep → Type 0
Spent b s = s.n + s.budget + s.cost_budget ≤ b

spend_shared-Spent :
    (b : ℕ) (s : Sweep) (m : Outcome Db)
    → (s.budget == 0) ≡ false
    → Spent b s
    → Spent b (spend_shared s m)
spend_shared-Spent b s (ok d) n h = ground (arith, n, h)
spend_shared-Spent b s (err x) n h = h

spend_cost-Spent :
    (b : ℕ) (s : Sweep) (m : Outcome Db)
    → (s.cost_budget == 0) ≡ false
    → Spent b s
    → Spent b (spend_cost s m)
spend_cost-Spent b s (ok d) n h = ground (arith, n, h)
spend_cost-Spent b s (err x) n h = h

spend_idle-Spent :
    (b res : ℕ) (s : Sweep) (m : Outcome Db)
    → (s.cost_budget == 0) ≡ false
    → Spent b s
    → Spent b (spend_idle res s m)
spend_idle-Spent b res s (ok d) n h = ground (arith, n, h)
spend_idle-Spent b res s (err x) n h = h

-- The sweep makes at most the cycle's budget of changes and fifty more.
pub reclaim_poolless-budget :
    (e : RecEnv) (missed : List (ℕ × ℕ)) (cache : List CacheEntry) (db : Db)
    → (reclaim_poolless e missed cache db).n ≤ e.max_mutations + 50
unfolding reclaim_poolless
reclaim_poolless-budget e missed cache db =
    let b = e.max_mutations + 50 in
    let spent : Spent b (sweep_list e (begin_sweep e missed cache db) (list poolless_filter db)) =
      sweep_list-rule (Spent b) e
        (record {
          memory = λ s s' _ x y z k. ground (arith, x, y, z, k);
          shared = λ s r n k. spend_shared-Spent b s _ n k;
          cost = λ s r n k. spend_cost-Spent b s _ n k;
          idle = λ s r n k. spend_idle-Spent b r.id s _ n k;
          park = λ s r n k. spend_idle-Spent b r.id s _ n k;
        })
        (begin_sweep e missed cache db) (list poolless_filter db) (omega arith) in
    omega (arith, spent)
