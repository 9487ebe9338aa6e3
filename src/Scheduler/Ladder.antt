-- ===== src/Scheduler/Ladder.antt =====
-- internal/scheduler/scheduler.go, Satisfy: reuse capacity, start a parked machine, wait in the
-- queue, or scale.
use fleetplane.Prelude.{
  ℕ, suc, ◌+◌, ◌/◌, Bool, true, false, not, ◌&&◌, ◌||◌, Option, none, some, List, [], ◌∷◌, ltb, leb,
  ◌==◌, if◌then◌else◌, take, select,
}
use fleetplane.Prelude.Outcome.{
  Outcome, Error, ok, err, conflict, insufficient, no_capacity, unknown_class, ◌>>=◌,
}
use fleetplane.Capacity.{Vector, Parsed, parse_request}
use fleetplane.Billing.{ms}
use fleetplane.Store.{Db, Acquisition, AcqState, EventType, acq_eq}
use fleetplane.Store.Acquisitions
use fleetplane.Store.Events
use fleetplane.Provision.{Prepared, prepare}
use fleetplane.Reconcile.{Class}
use fleetplane.Service.{journal_create}
use fleetplane.Scheduler.{reserve}
use fleetplane.Scheduler.Ranking.{Env, Candidate, ranked_candidates}
use fleetplane.Scheduler.Parked.{StartFail, start_parked}
use fleetplane.Scheduler.Estimate.{estimate_wait, prebound}

-- The database with the scheduler's memory: the acquisitions that wait in the queue and the failed
-- starts.
pub record Sched : Type 0 where
  pub db : Db
  pub queued : List ℕ
  pub start_fail : List StartFail

abbrev pub is_queued : ℕ → List ℕ → Bool
is_queued id [] = false
is_queued id (q ∷ qs) = q == id || is_queued id qs

pub record Bound : Type 0 where
  pub db : Db
  pub resource : ℕ

abbrev pub next_best : Error → Bool
next_best conflict = true
next_best insufficient = true
next_best _ = false

abbrev pub after_reserve : ℕ → Outcome (Option Bound) → Outcome Db → Outcome (Option Bound)
after_reserve res rest (ok d) = ok (some (record { db = d; resource = res }))
after_reserve res rest (err x) = if next_best x then rest else err x

-- The attempts over the ranked candidates; `ok none` means that none was reserved.
unfoldable pub reserve_first :
    Env → ℕ → Acquisition → Vector → Bool → List Candidate → Db → Outcome (Option Bound)
reserve_first e i acq want exclusive [] db = ok none
reserve_first e i acq want exclusive (c ∷ cs) db =
    after_reserve c.id (reserve_first e (suc i) acq want exclusive cs db)
      (reserve (e.lease_ids i) e.now acq c.id want exclusive db)

-- observeBound: an acquisition that is bound to existing capacity leaves the queue.
abbrev pub observe_bound : Acquisition → ℕ → List ℕ → List ℕ
observe_bound acq res qs =
    if prebound res acq.pending_resource_id then qs else select (λ q. not (q == acq.id)) qs

-- markQueued: the event is written once.
abbrev pub mark_queued : Env → Acquisition → Sched → Sched
mark_queued e acq s = if is_queued acq.id s.queued then s else record s {
  queued = acq.id ∷ s.queued;
  db = Events.append e.now EventType.acquisition_queued none none s.db;
}

abbrev pub scale_spec : Acquisition → Class → fleetplane.Provision.CreateSpec
scale_spec acq cls = record {
  kind = cls.kind;
  provider = cls.provider;
  name = 0;
  spec = cls.spec;
  labels = (1, acq.id) ∷ [];
  class = acq.class;
  pool_id = none;
}

-- The transaction that pre-binds a fresh create to the acquisition.
unfoldable pub scale_to : Env → Acquisition → Prepared → Db → Outcome Db
scale_to e acq p db = do
  db1 ← Acquisitions.transition acq.id AcqState.pending AcqState.provisioning e.now db
  db2 ← journal_create p.resource p.op db1
  Acquisitions.set_pending_resource acq.id p.resource.id db2

abbrev pub scale_class : Env → Acquisition → Option Class → Db → Outcome Db
scale_class e acq none db = err unknown_class
scale_class e acq (some cls) db =
    prepare e.planner (scale_spec acq cls) e.resource_id (e.op_ids 0) e.now >>= λ p.
    scale_to e acq p db

-- scaleOnDemand.
unfoldable pub scale_on_demand : Env → Acquisition → Db → Outcome Db
unfolding scale_to
scale_on_demand e acq db =
    if acq.class == 0 then err no_capacity else scale_class e acq (e.classes acq.class) db

-- The state after a call, with what it returns.
pub record Answered : Type 0 where
  pub state : Sched
  pub result : Outcome Acquisition

-- The acquisition as it is read back.
abbrev pub read_back : Acquisition → Sched → Answered
read_back acq s = record { state = s; result = Acquisitions.get acq.id s.db }

abbrev pub failed_with : Sched → Error → Answered
failed_with s x = record { state = s; result = err x }

abbrev pub after_scale : Acquisition → Sched → Outcome Db → Answered
after_scale acq s (err x) = failed_with s x
after_scale acq s (ok d) = read_back acq (record s { db = d })

abbrev pub in_time : Env → ℕ → Option ℕ → Bool
in_time e deadline none = false
in_time e deadline (some est) = leb (e.now + est / ms) deadline

-- The queue decision.
abbrev pub may_wait : Env → Acquisition → Parsed → Db → Bool
may_wait e acq p db =
    ltb 0 p.request.max_wait_ms
    && ltb e.now (acq.created_at + p.request.max_wait_ms)
    && in_time e (acq.created_at + p.request.max_wait_ms) (estimate_wait e acq p.want db)

abbrev pub queue_or_scale : Env → Acquisition → Parsed → Sched → Answered
queue_or_scale e acq p s =
    if may_wait e acq p s.db
    then record { state = mark_queued e acq s; result = ok acq }
    else after_scale acq s (scale_on_demand e acq s.db)

abbrev pub after_start : Env → Acquisition → Parsed → Sched → Outcome (Option Db) → Answered
after_start e acq p s (err x) = failed_with s x
after_start e acq p s (ok (some d)) = read_back acq (record s { db = d })
after_start e acq p s (ok none) = queue_or_scale e acq p s

abbrev pub after_reuse : Env → Acquisition → Parsed → Sched → Outcome (Option Bound) → Answered
after_reuse e acq p s (err x) = failed_with s x
after_reuse e acq p s (ok (some b)) =
    read_back acq (record s { db = b.db; queued = observe_bound acq b.resource s.queued })
after_reuse e acq p s (ok none) =
    after_start e acq p s (start_parked e acq p.want s.start_fail s.db)

-- The ladder of a pending acquisition.
abbrev pub climb : Env → Acquisition → Sched → Outcome Parsed → Answered
climb e acq s (err x) = failed_with s x
climb e acq s (ok p) = after_reuse e acq p s (
    reserve_first e 0 acq p.want p.exclusive
      (take 3 (ranked_candidates e acq p.want p.exclusive s.db)) s.db)

abbrev pub satisfy_found : Env → Sched → Outcome Acquisition → Answered
satisfy_found e s (err x) = failed_with s x
satisfy_found e s (ok acq) =
    if acq_eq acq.state AcqState.pending
    then climb e acq s (parse_request acq.constraints)
    else record { state = s; result = ok acq }

-- Satisfy.
unfoldable pub satisfy : Env → ℕ → Sched → Answered
satisfy e id s = satisfy_found e s (Acquisitions.get id s.db)
