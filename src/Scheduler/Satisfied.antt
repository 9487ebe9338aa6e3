-- ===== src/Scheduler/Satisfied.antt =====
-- What Satisfy, HandleOpTerminal and Resume keep (internal/scheduler/scheduler.go).
use fleetplane.Prelude.{ℕ, ◌≡◌, Option, none, some, ◌==◌, arith, if-intro}
use fleetplane.Prelude.Outcome.{Outcome, ok, err, OnOk, OnOk-bind, OnOk-ok}
use fleetplane.Phase.{Phase}
use fleetplane.Store.{Db, Acquisition, AcqState, EventType, acq_eq}
use fleetplane.Store.Acquisitions
use fleetplane.Provision.{Planner, CreateSpec, Prepared, prepare}
use fleetplane.Reconcile.{Class}
use fleetplane.Scheduler.{reserve}
use fleetplane.Scheduler.Ranking.{Env}
use fleetplane.Scheduler.Ladder.{
  Sched, Answered, scale_to, scale_class, scale_on_demand, scale_spec, satisfy, satisfy_found,
  mark_queued, is_queued,
}
use fleetplane.Scheduler.Parked.{claim_parked}
use fleetplane.Scheduler.Rungs.{Rungs, climb-rule}
use fleetplane.Scheduler.Sound.{Sound, OnOk-Sound, set_pending-same, reserve-Sound}
use fleetplane.Scheduler.Keeps.{acq-Sound, event-Sound, claim_parked-Sound, journal_create-Sound}

-- A planned resource is provisioning.
abbrev pub IsPlanned : Prepared → Type 0
IsPlanned p = p.resource.phase ≡ Phase.provisioning

pub prepare-IsPlanned :
    (pl : Planner) (cs : CreateSpec) (res op now : ℕ) → OnOk IsPlanned (prepare pl cs res op now)
unfolding prepare
prepare-IsPlanned pl cs res op now = ground arith

scale_to-Sound :
    (e : Env) (acq : Acquisition) (p : Prepared) (db : Db)
    → IsPlanned p
    → Sound db
    → OnOk Sound (scale_to e acq p db)
unfolding scale_to
scale_to-Sound e acq p db planned s =
    OnOk-bind Sound Sound _ _ (acq-Sound acq.id AcqState.pending AcqState.provisioning e.now db s)
      (λ d _ s1.
        OnOk-bind Sound Sound _ _
          (journal_create-Sound p.resource p.op d (λ k. ground (arith, k, planned)) s1)
          (λ d2 _ s2. OnOk-Sound d2 _ (set_pending-same acq.id p.resource.id d2) s2))

scale_class-Sound :
    (e : Env) (acq : Acquisition) (cls : Option Class) (db : Db)
    → Sound db
    → OnOk Sound (scale_class e acq cls db)
scale_class-Sound e acq none db s = tt
scale_class-Sound e acq (some cls) db s =
    OnOk-bind IsPlanned Sound _ _
      (prepare-IsPlanned e.planner (scale_spec acq cls) e.resource_id (e.op_ids 0) e.now)
      (λ p _ planned. scale_to-Sound e acq p db planned s)

scale-Sound :
    (e : Env) (acq : Acquisition) (db : Db) → Sound db → OnOk Sound (scale_on_demand e acq db)
unfolding scale_on_demand
scale-Sound e acq db s =
    if-intro (OnOk Sound) (acq.class == 0) tt (scale_class-Sound e acq (e.classes acq.class) db s)

mark_queued-Sound :
    (e : Env) (acq : Acquisition) (s : Sched) → Sound s.db → Sound (mark_queued e acq s).db
mark_queued-Sound e acq s h =
    if-intro (λ (t : Sched). Sound t.db) (is_queued acq.id s.queued) h
      (event-Sound e.now EventType.acquisition_queued none none s.db h)

Rungs-Sound :
    (e : Env) (acq : Acquisition) (s : Sched) → Sound s.db → Rungs (λ a. Sound a.state.db) e acq s
Rungs-Sound e acq s h = record {
  refused = λ x. h;
  reused = λ p i res d qs k.
      OnOk-ok Sound (reserve (e.lease_ids i) e.now acq res p.want p.exclusive s.db) d k
        (reserve-Sound (e.lease_ids i) e.now acq res p.want p.exclusive s.db h);
  started = λ i res d k.
      OnOk-ok Sound (claim_parked e i acq res s.db) d k (claim_parked-Sound e i acq res s.db h);
  waits = λ p _ _. mark_queued-Sound e acq s h;
  scaled = λ d k. OnOk-ok Sound (scale_on_demand e acq s.db) d k (scale-Sound e acq s.db h);
}

found-Sound :
    (e : Env) (s : Sched) (m : Outcome Acquisition)
    → Sound s.db
    → Sound (satisfy_found e s m).state.db
found-Sound e s (err x) h = h
found-Sound e s (ok acq) h =
    if-intro (λ (t : Answered). Sound t.state.db) (acq_eq acq.state AcqState.pending)
      (climb-rule (λ a. Sound a.state.db) e acq s (Rungs-Sound e acq s h)) h

-- Satisfy, on every rung of its ladder and with whatever it returns, keeps the tables sound:
-- exclusive leases alone, allocated machines held, at most one open operation on a resource.
pub satisfy-Sound : (e : Env) (id : ℕ) (s : Sched) → Sound s.db → Sound (satisfy e id s).state.db
unfolding satisfy
satisfy-Sound e id s h = found-Sound e s (Acquisitions.get id s.db) h
