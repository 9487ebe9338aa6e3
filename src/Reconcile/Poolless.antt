-- ===== src/Reconcile/Poolless.antt =====
-- internal/reconcile/reconcile.go, ReclaimPoolless: the sweep over idle machines that belong to no
-- pool and whose class declares a reclaim policy.
use fleetplane.Prelude.{
  ℕ, ◌+◌, ◌-◌, ◌*◌, ◌/◌, Bool, true, false, not, ◌&&◌, ◌||◌, Option, none, some, List, [], ◌∷◌, ltb,
  leb, ◌==◌, if◌then◌else◌, select,
}
use fleetplane.Prelude.Outcome.{Outcome, ok, err}
use fleetplane.Phase.{Phase, phase_eq}
use fleetplane.Billing.{
  ms, second, BillingPolicy, fine_grained, effective_buffer, adaptive_buffer, Window,
  termination_window, Decision, decide,
}
use fleetplane.Store.{Db, Resource, Ownership, Operation, OpKind}
use fleetplane.Store.Operations.{recent_terminal}
use fleetplane.Store.Resources.Listing.{ResourceFilter, every, list}
use fleetplane.Machines.{journal_stop, journal_delete}
use fleetplane.Reconcile.{ReclaimPolicy, Class, park_enabled}
use fleetplane.Reconcile.Queue.{QueuedAcq, queued_acquisitions, claim_queued, cost_reclaim}
use fleetplane.Reconcile.Idle.{idle_since}
use fleetplane.Reconcile.Pools.{RecEnv}

pub record CacheEntry : Type 0 where
  pub provider : ℕ
  pub buffer : ℕ
  pub computed_at : ℕ

-- The database with the reconciler's memory and the counters of the sweep.
pub record Sweep : Type 0 where
  pub db : Db
  pub queue : List QueuedAcq
  pub budget : ℕ
  pub cost_budget : ℕ
  pub n : ℕ
  pub missed : List (ℕ × ℕ)
  pub cache : List CacheEntry

abbrev pub cached : ℕ → List CacheEntry → Option CacheEntry
cached p [] = none
cached p (c ∷ cs) = let rest = cached p cs in if c.provider == p then some c else rest

abbrev pub max_dur : ℕ → ℕ → ℕ
max_dur a b = if ltb b a then a else b

-- The samples of deletes that succeeded at the first attempt.
abbrev pub samples : List Operation → List ℕ
samples [] = []
samples (o ∷ os) =
    let rest = samples os in
    if leb o.attempt 1 then ((o.updated_at - o.created_at) * ms) ∷ rest else rest

abbrev pub observed : Outcome (List Operation) → List ℕ
observed (ok ops) = samples ops
observed (err x) = []

-- A buffer, and the cache after it.
pub record Buffered : Type 0 where
  pub buffer : ℕ
  pub cache : List CacheEntry

abbrev pub computed : RecEnv → ℕ → BillingPolicy → ℕ → Sweep → Buffered
computed e provider pol base s =
    let buf =
      adaptive_buffer (observed (recent_terminal provider OpKind.delete 50 s.db)) base (60 * second)
        (pol.billing_increment / 2) in
    record {
      buffer = max_dur base buf;
      cache = record { provider = provider; buffer = buf; computed_at = e.now } ∷ s.cache;
    }

abbrev pub use_cached : RecEnv → ℕ → BillingPolicy → ℕ → Sweep → Option CacheEntry → Buffered
use_cached e provider pol base s none = computed e provider pol base s
use_cached e provider pol base s (some c) =
    if ltb (e.now - c.computed_at) 60000
    then record { buffer = max_dur base c.buffer; cache = s.cache }
    else computed e provider pol base s

-- effectiveBuffer.
unfoldable pub buffer_of : RecEnv → ℕ → ℕ → BillingPolicy → Sweep → Buffered
unfolding recent_terminal
buffer_of e provider kind pol s =
    let base = effective_buffer pol e.interval in
    if not (e.billing provider kind).1
    then record { buffer = base; cache = s.cache }
    else use_cached e provider pol base s (cached provider s.cache)

-- A delete on the shared budget.
abbrev pub spend_shared : Sweep → Outcome Db → Sweep
spend_shared s (err x) = s
spend_shared s (ok d) = record s { db = d; n = s.n + 1; budget = s.budget - 1 }

-- A change on the budget of cost deletes.
abbrev pub spend_cost : Sweep → Outcome Db → Sweep
spend_cost s (err x) = s
spend_cost s (ok d) = record s { db = d; n = s.n + 1; cost_budget = s.cost_budget - 1 }

-- The same for an idle machine, whose missed window is forgotten.
abbrev pub spend_idle : ℕ → Sweep → Outcome Db → Sweep
spend_idle res s (err x) = s
spend_idle res s (ok d) = record s {
  db = d;
  n = s.n + 1;
  cost_budget = s.cost_budget - 1;
  missed = select (λ m. not (m.0 == res)) s.missed;
}

-- What a request in the queue claims is left alone.
abbrev pub unless_claimed : Resource → (Sweep → Sweep) → Sweep → Sweep
unless_claimed r f s =
    let c = claim_queued s.queue r in
    let s1 = record s { queue = c.queue } in if c.claimed then s1 else f s1

abbrev pub parked_long : ℕ → ReclaimPolicy → Option ℕ → Bool
parked_long now p none = false
parked_long now p (some t) = ltb 0 p.delete_after && leb (t + p.delete_after / ms) now

-- Stage 2: a machine that has been parked for long is deleted.
unfoldable pub delete_parked : RecEnv → ReclaimPolicy → Resource → Sweep → Sweep
delete_parked e p r s =
    if not (parked_long e.now p r.parked_at)
    then s
    else unless_claimed r
        (λ s1. spend_cost s1 (cost_reclaim (e.op_ids r.id) r.id e.now Phase.parked s1.db)) s

-- Stage 1 disposition: park where that is possible, else delete.
unfoldable pub dispose : RecEnv → ReclaimPolicy → Resource → Sweep → Sweep
dispose e p r s =
    if park_enabled (some p) && e.parking r.provider r.kind
    then spend_idle r.id s (journal_stop e.parking (e.op_ids r.id) r.id e.now true s.db)
    else spend_idle r.id s (cost_reclaim (e.op_ids r.id) r.id e.now Phase.ready s.db)

abbrev pub by_decision : RecEnv → ReclaimPolicy → Resource → Window → Sweep → Decision → Sweep
by_decision e p r w s Decision.keep = s
by_decision e p r w s Decision.crossed = record s { missed = (r.id, w.boundary_ms) ∷ s.missed }
by_decision e p r w s Decision.terminate = dispose e p r s

abbrev pub by_window : RecEnv → ReclaimPolicy → Resource → Sweep → Option Window → Sweep
by_window e p r s none = dispose e p r s
by_window e p r s (some w) = by_decision e p r w s (decide w e.now)

-- The billing window of an idle machine.
unfoldable pub in_window : RecEnv → ReclaimPolicy → Resource → Sweep → Sweep
unfolding dispose buffer_of
in_window e p r s =
    let pol = (e.billing r.provider r.kind).0 in
    if fine_grained pol
    then dispose e p r s
    else (let b = buffer_of e r.provider r.kind pol s in
        by_window e p r (record s { cache = b.cache })
          (termination_window r.created_at pol e.now b.buffer 0))

unfoldable pub reclaim_idle : RecEnv → ReclaimPolicy → Resource → Sweep → Sweep
unfolding in_window idle_since
reclaim_idle e p r s =
    if not (ltb 0 p.idle_after) || ltb e.now (idle_since r + p.idle_after / ms)
    then s
    else unless_claimed r (in_window e p r) s

abbrev pub by_policy : RecEnv → Resource → Sweep → Option ReclaimPolicy → Sweep
by_policy e r s none = s
by_policy e r s (some p) =
    if r.delete_protected || s.cost_budget == 0
    then s
    else if phase_eq r.phase Phase.parked
    then delete_parked e p r s
    else reclaim_idle e p r s

abbrev pub policy_of : Option Class → Option ReclaimPolicy
policy_of none = none
policy_of (some c) = c.reclaim

-- One round of the sweep. An explicit drain keeps the two steps and the shared budget.
unfoldable pub sweep_one : RecEnv → Sweep → Resource → Sweep
unfolding delete_parked reclaim_idle
sweep_one e s r =
    if phase_eq r.phase Phase.draining
    then if s.budget == 0
      then s
      else spend_shared s (journal_delete (e.op_ids r.id) r.id e.now s.db)
    else by_policy e r s (policy_of (e.classes r.class))

unfoldable pub sweep_list : RecEnv → Sweep → List Resource → Sweep
unfolding sweep_one
sweep_list e s [] = s
sweep_list e s (r ∷ rs) = sweep_list e (sweep_one e s r) rs

abbrev pub poolless_filter : ResourceFilter
poolless_filter = record every {
  poolless = true;
  phases = Phase.ready ∷ Phase.draining ∷ Phase.parked ∷ [];
  ownership = Ownership.managed ∷ [];
}

abbrev pub begin_sweep : RecEnv → List (ℕ × ℕ) → List CacheEntry → Db → Sweep
begin_sweep e missed cache db = record {
  db = db;
  queue = queued_acquisitions e.now db;
  budget = e.max_mutations;
  cost_budget = 50;
  n = 0;
  missed = missed;
  cache = cache;
}

-- ReclaimPoolless.
unfoldable pub reclaim_poolless : RecEnv → List (ℕ × ℕ) → List CacheEntry → Db → Sweep
unfolding sweep_list
reclaim_poolless e missed cache db =
    sweep_list e (begin_sweep e missed cache db) (list poolless_filter db)
