-- ===== src/Service/Acquire.antt =====
-- internal/app/acquire.go, Acquire: the acquisition is recorded in a transaction with its idempotency
-- key, and then the scheduler satisfies it.
use fleetplane.Prelude.{
  ℕ, ◌-◌, ◌*◌, ◌/◌, Bool, true, false, not, ◌&&◌, ◌||◌, Option, none, some, ltb, ◌==◌,
  if◌then◌else◌,
}
use fleetplane.Prelude.Outcome.{Outcome, ok, invalid, guard, ◌>>=◌, ◌>>◌}
use fleetplane.Prelude.Json.{Json}
use fleetplane.Capacity.{Vector, Request}
use fleetplane.Billing.{ms, second}
use fleetplane.Store.{Db, Acquisition, AcqState, EventType}
use fleetplane.Store.Acquisitions
use fleetplane.Store.Events
use fleetplane.Engine.Base.{compute_machine}
use fleetplane.LeaseManager.{attempt}
use fleetplane.Reconcile.{Class}
use fleetplane.Scheduler.Ranking.{Env}
use fleetplane.Scheduler.Ladder.{Sched, Answered, satisfy}
use fleetplane.Scheduler.Resume.{refused}
use fleetplane.Service.{Key, Answer, Done, Served, keyed_request}

pub record AcquireCmd : Type 0 where
  pub actor : ℕ
  pub kind : ℕ
  pub class : ℕ
  pub constraints : Json Vector
  pub exclusive : Bool
  pub quantity : ℕ
  pub ttl : ℕ
  pub max_wait : ℕ

abbrev pub is_blank : Json Vector → Bool
is_blank Json.blank = true
is_blank _ = false

abbrev pub class_wait : Option Class → ℕ
class_wait none = 0
class_wait (some c) = c.queue_max_wait

abbrev pub wanted_wait : Env → AcquireCmd → ℕ
wanted_wait e cmd =
    if cmd.max_wait == 0 && not (cmd.class == 0)
    then class_wait (e.classes cmd.class)
    else cmd.max_wait

-- The queue budget, ten seconds below the pending timeout (in milliseconds, 0 for none). A timeout
-- below ten seconds leaves no budget.
unfoldable pub effective_wait : ℕ → Env → AcquireCmd → ℕ
effective_wait timeout e cmd =
    let wait = wanted_wait e cmd in
    if ltb 0 timeout && ltb (timeout - 10000) (wait / ms) then (timeout - 10000) * ms else wait

-- The payload that is stored. The constraints are raw JSON out of a decoded body, so encoding them
-- again cannot fail; whether they decode as a vector is seen only when the request is scheduled.
abbrev pub payload : ℕ → AcquireCmd → Request
payload wait cmd = record {
  exclusive = cmd.exclusive;
  constraints = cmd.constraints;
  max_wait_ms = wait / ms;
}

abbrev pub requested : Env → ℕ → AcquireCmd → Request → Acquisition
requested e id cmd req = record {
  id = id;
  actor = cmd.actor;
  kind = if cmd.kind == 0 then compute_machine else cmd.kind;
  class = cmd.class;
  constraints = Json.doc req;
  quantity = 1;
  ttl_seconds = cmd.ttl / second;
  state = AcqState.pending;
  lease_id = none;
  pending_resource_id = none;
  created_at = e.now;
  updated_at = e.now;
}

-- The body of the transaction.
unfoldable pub acquire_work : (Acquisition → ℕ × Json ℕ) → Acquisition → Db → Outcome Done
acquire_work build acq db = Acquisitions.insert acq db >>= λ db1. ok (record {
  db = Events.append acq.created_at EventType.acquisition_requested none none db1;
  status = (build acq).0;
  body = (build acq).1;
})

-- The state after a request, with its answer.
pub record Acquired : Type 0 where
  pub state : Sched
  pub answer : Answer

-- An acquisition that can be satisfied by nothing fails; other errors are only logged.
abbrev pub after_satisfy : Env → ℕ → Answered → Sched
after_satisfy e id a =
    if refused a.result
    then record a.state {
      db =
          attempt a.state.db
            (Acquisitions.transition id AcqState.pending AcqState.failed e.now a.state.db);
    }
    else a.state

-- What follows the transaction; a replayed answer ends the request.
unfoldable pub converge : Env → ℕ → Sched → Served → Acquired
converge e id s d =
    if d.answer.replayed
    then record { state = record s { db = d.db }; answer = d.answer }
    else record {
      state = after_satisfy e id (satisfy e id (record s { db = d.db }));
      answer = d.answer;
    }

-- Acquire; `id` is the fresh id of the acquisition.
unfoldable pub acquire :
    (Acquisition → ℕ × Json ℕ) → Option Key → Env → ℕ → ℕ → AcquireCmd → Sched → Outcome Acquired
unfolding effective_wait acquire_work converge
acquire build k e timeout id cmd s = do
  guard (cmd.quantity == 0 || cmd.quantity == 1) invalid
  guard (not (cmd.class == 0 && is_blank cmd.constraints)) invalid
  d ←
      keyed_request k 0 e.now
        (acquire_work build (requested e id cmd (payload (effective_wait timeout e cmd) cmd))) s.db
  ok (converge e id s d)
