-- ===== src/Scheduler/Resumed.antt =====
-- What the end of an operation and the sweep over open acquisitions keep
-- (internal/scheduler/scheduler.go, HandleOpTerminal and Resume).
use fleetplane.Prelude.{ℕ, refl, ◌&&◌, ◌||◌, Option, none, some, List, [], ◌∷◌, if-intro}
use fleetplane.Prelude.Outcome.{Outcome, ok, err, OnOk, OnOk-bind}
use fleetplane.Phase.{Phase}
use fleetplane.Capacity.{Parsed, parse_request}
use fleetplane.Store.{
  Db, Resource, Operation, OpKind, OpState, Acquisition, AcqState, EventType, acq_eq,
}
use fleetplane.Store.Resources
use fleetplane.Store.Acquisitions
use fleetplane.LeaseManager.{attempt}
use fleetplane.Scheduler.Ranking.{Env}
use fleetplane.Scheduler.Estimate.{prebound}
use fleetplane.Scheduler.Ladder.{Sched, Answered, satisfy}
use fleetplane.Scheduler.Resume.{
  re_pend, bind_pending, after_failure, is_start, resolve_tx, resolve_pending, resolve_all,
  on_terminal, handle_op_terminal, binds, give_up, expire_read, expire_pending, refused, overdue,
  after_satisfy, expire_provisioning, by_phase, by_machine, recheck, sweep_provisioning, sweep_by,
  sweep_all, resume,
}
use fleetplane.Scheduler.Sound.{Sound, same-Sound, reserve-Sound}
use fleetplane.Scheduler.Keeps.{acq-Sound, event-Sound}
use fleetplane.Scheduler.Satisfied.{satisfy-Sound}

-- An attempt whose error is ignored.
attempt-Sound : (db : Db) (m : Outcome Db) → Sound db → OnOk Sound m → Sound (attempt db m)
attempt-Sound db (ok d) s h = h
attempt-Sound db (err e) s h = s

re_pend-Sound : (now : ℕ) (acq : Acquisition) (db : Db) → Sound db → OnOk Sound (re_pend now acq db)
unfolding re_pend Acquisitions.clear_pending_resource
re_pend-Sound now acq db s =
    OnOk-bind Sound Sound _ _ (acq-Sound acq.id AcqState.provisioning AcqState.pending now db s)
      (λ d _ s1. same-Sound d _ (refl, refl, refl) s1)

bind_pending-Sound :
    (e : Env) (acq : Acquisition) (res : Option ℕ) (db : Db) (m : Outcome Parsed)
    → Sound db
    → OnOk Sound (bind_pending e acq res db m)
bind_pending-Sound e acq none db (err x) s = tt
bind_pending-Sound e acq (some r) db (err x) s = tt
bind_pending-Sound e acq none db (ok p) s = s
bind_pending-Sound e acq (some r) db (ok p) s =
    reserve-Sound (e.lease_ids 0) e.now acq r p.want p.exclusive db s

after_failure-Sound :
    (e : Env) (acq : Acquisition) (kind : OpKind) (db : Db)
    → Sound db
    → OnOk Sound (after_failure e acq kind db)
after_failure-Sound e acq kind db s =
    if-intro (OnOk Sound) (is_start kind) (re_pend-Sound e.now acq db s)
      (acq-Sound acq.id AcqState.provisioning AcqState.failed e.now db s)

resolve_tx-Sound :
    (e : Env) (acq : Acquisition) (kind : OpKind) (state : OpState) (db : Db)
    → Sound db
    → OnOk Sound (resolve_tx e acq kind state db)
unfolding resolve_tx
resolve_tx-Sound e acq kind OpState.succeeded db s =
    bind_pending-Sound e acq acq.pending_resource_id db (parse_request acq.constraints) s
resolve_tx-Sound e acq kind OpState.failed db s = after_failure-Sound e acq kind db s
resolve_tx-Sound e acq kind OpState.aborted db s = after_failure-Sound e acq kind db s
resolve_tx-Sound e acq kind _ db s = s

resolve-Sound :
    (e : Env) (acq : Acquisition) (kind : OpKind) (state : OpState) (db : Db)
    → Sound db
    → Sound (resolve_pending e acq kind state db)
unfolding resolve_pending
resolve-Sound e acq kind state db s =
    attempt-Sound db (resolve_tx e acq kind state db) s (resolve_tx-Sound e acq kind state db s)

resolve_all-Sound :
    (env : ℕ → Env) (res : ℕ) (kind : OpKind) (state : OpState) (acqs : List Acquisition) (db : Db)
    → Sound db
    → Sound (resolve_all env res kind state acqs db)
resolve_all-Sound env res kind state [] db s = s
resolve_all-Sound env res kind state (a ∷ acqs) db s = resolve_all-Sound env res kind state acqs _ (
    if-intro Sound (prebound res a.pending_resource_id) (resolve-Sound (env a.id) a kind state db s)
      s)

terminal-Sound :
    (env : ℕ → Env) (now : ℕ) (op : Operation) (res : Option ℕ) (s : Sched)
    → Sound s.db
    → Sound (on_terminal env now op res s).db
terminal-Sound env now op none s h = h
terminal-Sound env now op (some res) s h =
    if-intro (λ (t : Sched). Sound t.db) (binds op.kind)
      (resolve_all-Sound env res op.kind op.state
        (Acquisitions.list_by_state (λ x. acq_eq x AcqState.provisioning) s.db) s.db h)
      h

-- The end of an operation keeps the tables sound, whether it binds, fails or re-pends the
-- acquisitions that wait for it.
pub handle_op_terminal-Sound :
    (env : ℕ → Env) (now : ℕ) (op : Operation) (s : Sched)
    → Sound s.db
    → Sound (handle_op_terminal env now op s).db
unfolding handle_op_terminal
handle_op_terminal-Sound env now op s h = terminal-Sound env now op op.resource_id s h

give_up-Sound : (now : ℕ) (acq : Acquisition) (db : Db) → Sound db → OnOk Sound (give_up now acq db)
unfolding give_up
give_up-Sound now acq db s =
    OnOk-bind Sound Sound _ _ (acq-Sound acq.id AcqState.pending AcqState.failed now db s)
      (λ d _ s1. event-Sound now EventType.acquisition_failed none none d s1)

expire_read-Sound :
    (timeout now : ℕ) (acq : Acquisition) (db : Db) (m : Outcome Acquisition)
    → Sound db
    → Sound (expire_read timeout now acq db m)
expire_read-Sound timeout now acq db (err x) s = s
expire_read-Sound timeout now acq db (ok cur) s =
    if-intro Sound (acq_eq cur.state AcqState.pending && overdue timeout now cur.created_at)
      (attempt-Sound db _ s (acq-Sound acq.id AcqState.pending AcqState.expired now db s)) s

after_satisfy-Sound :
    (timeout now : ℕ) (acq : Acquisition) (a : Answered)
    → Sound a.state.db
    → Sound (after_satisfy timeout now acq a).db
unfolding after_satisfy expire_pending
after_satisfy-Sound timeout now acq a s =
    if-intro (λ (t : Sched). Sound t.db) (refused a.result)
      (attempt-Sound a.state.db _ s (give_up-Sound now acq a.state.db s))
      (expire_read-Sound timeout now acq a.state.db (Acquisitions.get acq.id a.state.db) s)

by_phase-Sound :
    (e : Env) (acq : Acquisition) (db : Db) (p : Phase) → Sound db → Sound (by_phase e acq db p)
by_phase-Sound e acq db Phase.ready s = resolve-Sound e acq OpKind.create OpState.succeeded db s
by_phase-Sound e acq db Phase.failed s = resolve-Sound e acq OpKind.create OpState.failed db s
by_phase-Sound e acq db Phase.parked s = attempt-Sound db _ s (re_pend-Sound e.now acq db s)
by_phase-Sound e acq db _ s = s

recheck-Sound :
    (e : Env) (acq : Acquisition) (res : Option ℕ) (db : Db)
    → Sound db
    → Sound (recheck e acq res db)
recheck-Sound e acq none db s = s
recheck-Sound e acq (some res) db s = by_read (Resources.get res db)
  where
    by_read : (m : Outcome Resource) → Sound (by_machine e acq db m)
    by_read (err x) = s
    by_read (ok r) = by_phase-Sound e acq db r.phase s

provisioning-Sound :
    (e : Env) (timeout now : ℕ) (acq : Acquisition) (db : Db)
    → Sound db
    → Sound (sweep_provisioning e timeout now acq db)
unfolding sweep_provisioning expire_provisioning
provisioning-Sound e timeout now acq db s =
    if-intro Sound (overdue timeout now acq.updated_at)
      (attempt-Sound db _ s (
        OnOk-bind Sound Sound _ _ (acq-Sound acq.id AcqState.provisioning AcqState.expired now db s)
          (λ d _ s1.
            event-Sound now EventType.acquisition_expired acq.pending_resource_id none d s1)))
      (recheck-Sound e acq acq.pending_resource_id db s)

sweep_by-Sound :
    (e : Env) (timeout now : ℕ) (acq : Acquisition) (s : Sched) (st : AcqState)
    → Sound s.db
    → Sound (sweep_by e timeout now acq s st).db
sweep_by-Sound e timeout now acq s AcqState.pending h =
    after_satisfy-Sound timeout now acq (satisfy e acq.id s) (satisfy-Sound e acq.id s h)
sweep_by-Sound e timeout now acq s AcqState.provisioning h =
    provisioning-Sound e timeout now acq s.db h
sweep_by-Sound e timeout now acq s _ h = h

sweep_all-Sound :
    (env : ℕ → Env) (timeout now : ℕ) (acqs : List Acquisition) (s : Sched)
    → Sound s.db
    → Sound (sweep_all env timeout now acqs s).db
unfolding sweep_all
sweep_all-Sound env timeout now [] s h = h
sweep_all-Sound env timeout now (a ∷ acqs) s h =
    sweep_all-Sound env timeout now acqs (sweep_by (env a.id) timeout now a s a.state)
      (sweep_by-Sound (env a.id) timeout now a s a.state h)

-- A sweep of Resume over all open acquisitions keeps the tables sound, whichever of its transactions
-- fail: exclusive leases alone, allocated machines held, at most one open operation on a resource.
pub resume-Sound :
    (env : ℕ → Env) (timeout now : ℕ) (s : Sched) → Sound s.db → Sound (resume env timeout now s).db
unfolding resume
resume-Sound env timeout now s h =
    sweep_all-Sound env timeout now
      (Acquisitions.list_by_state (λ x. acq_eq x AcqState.pending || acq_eq x AcqState.provisioning)
        s.db)
      s h
