-- ===== src/Examples/Scheduling.antt =====
-- The theorems on the scheduler, the requests and the pacer at concrete tables.
use fleetplane.Prelude.{
  ℕ, ◌≡◌, ◌+◌, ◌<◌, ◌≤◌, Bool, inl, refl, true, false, ◌&&◌, Option, none, some, [], ◌∷◌, ◌==◌,
  if◌then◌else◌, All, arith,
}
use fleetplane.Prelude.Outcome.{ok, is_ok}
use fleetplane.Prelude.Json.{Json}
use fleetplane.Prelude.Int64.{pos, sub64, add64}
use fleetplane.Phase.{Phase}
use fleetplane.Capacity.{Vector, fits, free_after, add_into}
use fleetplane.Billing.{BillingPolicy, fine_grained, next_boundary, paid, effective_buffer}
use fleetplane.Provider.{ActionKind}
use fleetplane.Store.{Db, Resource, Operation, OpKind, OpState, AcqState, Acquisition}
use fleetplane.Store.Resources.{res_id}
use fleetplane.Store.Leases
use fleetplane.Store.Leases.{holds}
use fleetplane.Store.Resources.Listing.{list}
use fleetplane.Provision.{Planner}
use fleetplane.Reconcile.{Class}
use fleetplane.Scheduler.{eligible, admit, in_use}
use fleetplane.Scheduler.Sound.{Sound}
use fleetplane.Scheduler.Ranking.{Env, Candidate, ranked_candidates}
use fleetplane.Scheduler.Parked.{parked_candidate, under_backoff}
use fleetplane.Scheduler.Ladder.{Sched, satisfy}
use fleetplane.Scheduler.Resume.{resume, handle_op_terminal, resolve_pending}
use fleetplane.Scheduler.Satisfied.{satisfy-Sound}
use fleetplane.Scheduler.Resumed.{resume-Sound}
use fleetplane.Scheduler.Answers.{AnswersTo, satisfy_lem}
use fleetplane.Scheduler.AcqRows.{Row}
use fleetplane.Scheduler.Agrees.{lists, serves, ranked_candidates_lem}
use fleetplane.Scheduler.Order.{NoWorse, ranked_candidates-best}
use fleetplane.Scheduler.Retreat.{IsFree, failed_start-backoff, resolve_pending-failed}
use fleetplane.Store.Operations
use fleetplane.Prelude.Outcome.{Outcome, err, other}
use fleetplane.Store.Resources
use fleetplane.Store.Acquisitions
use fleetplane.Store.Events
use fleetplane.Store.Idempotency.{find, begin, complete}
use fleetplane.Engine.Base.{commit}
use fleetplane.Machines.{journal_stop}
use fleetplane.Machines.Operator.{park_resource, start_resource}
use fleetplane.Machines.Retry.{repeated_request}
use fleetplane.Service.{Key, keyed_request}
use fleetplane.Service.Acquire.{AcquireCmd, Acquired}
use fleetplane.Service.Acquire
use fleetplane.Service.Accepts.{acquire-replay}
use fleetplane.Pacing.{acquire, respond_all, new_pacer, headers, too_many, granted, rate_limited}
use fleetplane.Pacing.Recovery.{respond_all-recovers}
use fleetplane.Examples.{machine, an_action, operation, acquisition, lease, tables}

abbrev pub hourly : BillingPolicy
hourly = record { minimum_duration = 0; billing_increment = 3600000000000; termination_buffer = 0 }

abbrev pub small : Class
small = record {
  kind = 1;
  provider = 1;
  spec = Json.blank;
  reclaim = some (record { idle_after = 1000000; park_never = false; delete_after = 5000000 });
  queue_max_wait = 20000000000;
}

abbrev pub class_of : ℕ → Option Class
class_of c = if c == 4 then some small else none

-- A driver that plans one create.
abbrev pub planner : Planner
planner = record {
  instance_known = λ _. true;
  drives = λ _ _. true;
  plan = λ p k res name spec. ok (an_action 0 ActionKind.create_action res ∷ []);
}

abbrev env : Env
env = record {
  now = 1000;
  lease_ids = λ i. 500 + i;
  op_ids = λ i. 600 + i;
  resource_id = 700;
  parking = λ _ _. true;
  start_hint = λ _ _. 0;
  billing = λ _ _. hourly;
  classes = class_of;
  planner = planner;
}

-- A shared machine, an idle one and a parked one; acquisition 21 is pending, and 22 waits for the
-- parked machine.
abbrev pub market : Db
market =
    tables
      (machine 1 Phase.allocated (some 9)
        ∷ machine 2 Phase.ready (some 8)
        ∷ machine 3 Phase.parked (some 7)
        ∷ [])
      (lease 10 20 1 ((7, pos 3) ∷ []) ∷ [])
      (acquisition 20 AcqState.bound (some 10)
        ∷ acquisition 21 AcqState.pending none
        ∷ record (acquisition 22 AcqState.provisioning none) { pending_resource_id = some 3 }
        ∷ [])
      []

pub market-Sound : Sound market
market-Sound = record {
  alone = λ j. inl (ground arith);
  held = λ j r g k. ground arith;
  one_open = λ res. ground arith;
}

abbrev sched : Sched
sched = record { db = market; queued = 21 ∷ []; start_fail = [] }

satisfy-Sound_example : Sound (satisfy env 21 sched).state.db
satisfy-Sound_example = satisfy-Sound env 21 sched market-Sound

satisfy_lem_example :
    AnswersTo env 21 sched (satisfy env 21 sched).state (satisfy env 21 sched).result
satisfy_lem_example = satisfy_lem env 21 sched

resume-Sound_example : Sound (resume (λ id. env) 60000 1000 sched).db
resume-Sound_example = resume-Sound (λ id. env) 60000 1000 sched market-Sound

abbrev want : Vector
want = (7, pos 4) ∷ []

ranked_candidates_lem_example :
    lists 2 (ranked_candidates env (acquisition 21 AcqState.pending none) want false market) ≡ (
      serves (acquisition 21 AcqState.pending none) (machine 2 Phase.ready (some 8))
      && eligible (machine 2 Phase.ready (some 8))
      && is_ok
          (admit (machine 2 Phase.ready (some 8)) (Leases.active_by_resource 2 market) want false))
ranked_candidates_lem_example =
    ranked_candidates_lem env (acquisition 21 AcqState.pending none) want false market
      (machine 2 Phase.ready (some 8)) (refl, (refl, (refl, tt))) refl

-- The shared machine has less room to spare than the idle one.
abbrev tight : Candidate
tight = record { id = 1; score = pos 1; tier = 0; slack = 3504000 }

abbrev roomy : Candidate
roomy = record { id = 2; score = pos 4; tier = 0; slack = 3504000 }

ranked :
    ranked_candidates env (acquisition 21 AcqState.pending none) want false market
    ≡ tight ∷ roomy ∷ []
unfolding ranked_candidates list in_use Leases.active_by_resource fits sub64 add_into add64
    fine_grained next_boundary paid effective_buffer free_after
ranked = refl

ranked_candidates-best_example : All (NoWorse tight) (roomy ∷ [])
ranked_candidates-best_example =
    ranked_candidates-best env (acquisition 21 AcqState.pending none) want false market tight
      (roomy ∷ []) ranked

abbrev failed_start : Operation
failed_start = operation 5 OpKind.start OpState.failed (some 3)

failed_start-backoff_example :
    ((e : Env) (wanted : Vector) (r : Resource)
      → r.id ≡ 3
      → e.now < 1000 + 30000
      → parked_candidate e wanted
          (handle_op_terminal (λ id. env) 1000 failed_start sched).start_fail
          r
        ≡ none)
    × ((t : ℕ)
        → 1000 + 600000 ≤ t
        → under_backoff 3 t (handle_op_terminal (λ id. env) 1000 failed_start sched).start_fail
          ≡ false)
failed_start-backoff_example =
    failed_start-backoff (λ id. env) 1000 failed_start 3 sched refl refl refl

abbrev waiting : Acquisition
waiting = record (acquisition 22 AcqState.provisioning none) { pending_resource_id = some 3 }

resolve_pending-failed_example :
    Row IsFree 22 (resolve_pending env waiting OpKind.start OpState.failed market)
    × Row
        (λ a. a.state ≡ AcqState.failed)
        22
        (resolve_pending env waiting OpKind.create OpState.failed market)
resolve_pending-failed_example = resolve_pending-failed env waiting market refl refl

abbrev cmd : AcquireCmd
cmd = record {
  actor = 1;
  kind = 1;
  class = 4;
  constraints = Json.doc ((7, pos 4) ∷ []);
  exclusive = false;
  quantity = 1;
  ttl = 60000000000;
  max_wait = 0;
}

abbrev a_key : Key
a_key = record { scope = 1; key = 2; request_hash = 77 }

-- Every response has status 202 and the id of the acquisition.
abbrev build : Acquisition → ℕ × Json ℕ
build a = (202, Json.doc a.id)

abbrev acquired_or : Outcome Acquired → Acquired
acquired_or (ok a) = a
acquired_or (err x) = record {
  state = sched;
  answer = record { status = 0; body = Json.blank; replayed = false };
}

abbrev acquired : Acquired
acquired = acquired_or (Acquire.acquire build (some a_key) env 60000 23 cmd sched)

was_acquired : Acquire.acquire build (some a_key) env 60000 23 cmd sched ≡ ok acquired
unfolding Acquire.acquire begin complete Acquisitions.insert keyed_request Events.append
was_acquired = refl

no_key : find 1 2 market.idem ≡ none
unfolding find
no_key = refl

-- Another request, which names only a class.
abbrev other_cmd : AcquireCmd
other_cmd = record cmd { constraints = Json.blank; quantity = 0; ttl = 0; max_wait = 5 }

acquire-replay_example :
    Acquire.acquire build (some a_key) (record env { now = 2000 }) 30000 24 other_cmd acquired.state
    ≡ ok (record { state = acquired.state; answer = record acquired.answer { replayed = true } })
acquire-replay_example =
    acquire-replay build build a_key env (record env { now = 2000 }) 60000 30000 23 24 cmd other_cmd
      sched 77 no_key was_acquired refl refl

abbrev parks : ℕ → ℕ → Bool
parks provider kind = true

abbrev parked_db : Db
parked_db = commit market (park_resource parks 30 2 1000 market)

was_parked : park_resource parks 30 2 1000 market ≡ ok parked_db
unfolding park_resource journal_stop Resources.get Leases.count_active Resources.cas_phase
    Operations.append Events.append
was_parked = refl

repeated_request_example :
    (park_resource parks 30 2 1000 market ≡ ok parked_db
      → park_resource parks 31 2 2000 parked_db ≡ err other)
    × (start_resource parks 30 2 1000 market ≡ ok parked_db
        → start_resource parks 31 2 2000 parked_db ≡ err other)
repeated_request_example = repeated_request parks 30 2 1000 31 2000 market

respond_all-recovers_example :
    ((wall d : ℕ) (slot paced : Bool)
      → (acquire wall slot paced (
          respond_all (headers 900 (pos 0) 4000000000000 ∷ too_many 1000 (pos 3) ∷ []) new_pacer)).1
        ≡ rate_limited d
      → wall + d ≤ 1000 + 60000000000)
    × ((wall : ℕ)
        → 1000 + 60000000000 ≤ wall
        → acquire wall true true
            (respond_all (headers 900 (pos 0) 4000000000000 ∷ too_many 1000 (pos 3) ∷ []) new_pacer)
          ≡ (
            record (respond_all
                (headers 900 (pos 0) 4000000000000 ∷ too_many 1000 (pos 3) ∷ [])
                new_pacer) {
                  held =
                      (respond_all
                        (headers 900 (pos 0) 4000000000000 ∷ too_many 1000 (pos 3) ∷ [])
                        new_pacer).held
                      + 1;
                },
            granted,
          ))
respond_all-recovers_example =
    respond_all-recovers (headers 900 (pos 0) 4000000000000 ∷ too_many 1000 (pos 3) ∷ []) new_pacer
      1000 (omega arith, (omega arith, tt)) (omega arith)
