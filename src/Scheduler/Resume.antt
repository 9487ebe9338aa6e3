-- ===== src/Scheduler/Resume.antt =====
-- internal/scheduler/scheduler.go: what becomes of an acquisition when its operation ends
-- (HandleOpTerminal), and the sweep over open acquisitions (Resume).
use fleetplane.Prelude.{
  ℕ, ◌-◌, Bool, true, false, ◌&&◌, ◌||◌, Option, none, some, List, [], ◌∷◌, ltb, if◌then◌else◌,
}
use fleetplane.Prelude.Outcome.{Outcome, Error, ok, err, no_capacity, ◌>>=◌}
use fleetplane.Phase.{Phase}
use fleetplane.Capacity.{Parsed, parse_request}
use fleetplane.Store.{
  Db, Resource, Acquisition, AcqState, EventType, acq_eq, Operation, OpKind, OpState,
}
use fleetplane.Store.Resources
use fleetplane.Store.Acquisitions
use fleetplane.Store.Events
use fleetplane.LeaseManager.{attempt}
use fleetplane.Scheduler.{reserve}
use fleetplane.Scheduler.Ranking.{Env}
use fleetplane.Scheduler.Parked.{StartFail, bump_backoff, clear_backoff}
use fleetplane.Scheduler.Estimate.{prebound}
use fleetplane.Scheduler.Ladder.{Sched, Answered, satisfy}

-- rePend: back to pending without a pre-bind; an error is ignored.
unfoldable pub re_pend : ℕ → Acquisition → Db → Outcome Db
re_pend now acq db =
    Acquisitions.transition acq.id AcqState.provisioning AcqState.pending now db >>= λ db1.
    ok (Acquisitions.clear_pending_resource acq.id db1)

abbrev pub is_start : OpKind → Bool
is_start OpKind.start = true
is_start _ = false

-- The reservation of the pre-bound machine.
abbrev pub bind_pending : Env → Acquisition → Option ℕ → Db → Outcome Parsed → Outcome Db
bind_pending e acq res db (err x) = err x
bind_pending e acq none db (ok p) = ok db
bind_pending e acq (some r) db (ok p) = reserve (e.lease_ids 0) e.now acq r p.want p.exclusive db

abbrev pub after_failure : Env → Acquisition → OpKind → Db → Outcome Db
after_failure e acq kind db =
    if is_start kind
    then re_pend e.now acq db
    else Acquisitions.transition acq.id AcqState.provisioning AcqState.failed e.now db

-- The transaction of resolvePending, by the state in which the operation ended.
unfoldable pub resolve_tx : Env → Acquisition → OpKind → OpState → Db → Outcome Db
unfolding re_pend
resolve_tx e acq kind OpState.succeeded db =
    bind_pending e acq acq.pending_resource_id db (parse_request acq.constraints)
resolve_tx e acq kind OpState.failed db = after_failure e acq kind db
resolve_tx e acq kind OpState.aborted db = after_failure e acq kind db
resolve_tx e acq kind _ db = ok db

-- resolvePending; an error is only logged.
unfoldable pub resolve_pending : Env → Acquisition → OpKind → OpState → Db → Db
unfolding resolve_tx
resolve_pending e acq kind state db = attempt db (resolve_tx e acq kind state db)

abbrev pub resolve_all : (ℕ → Env) → ℕ → OpKind → OpState → List Acquisition → Db → Db
resolve_all env res kind state [] db = db
resolve_all env res kind state (a ∷ acqs) db =
    resolve_all env res kind state acqs (
      if prebound res a.pending_resource_id then resolve_pending (env a.id) a kind state db else db)

-- The backoff of a machine after its start.
abbrev pub note_start : ℕ → ℕ → OpState → List StartFail → List StartFail
note_start res now OpState.succeeded fs = clear_backoff res fs
note_start res now OpState.failed fs = bump_backoff res now fs
note_start res now OpState.aborted fs = bump_backoff res now fs
note_start res now _ fs = fs

abbrev pub binds : OpKind → Bool
binds OpKind.create = true
binds OpKind.start = true
binds _ = false

abbrev pub on_terminal : (ℕ → Env) → ℕ → Operation → Option ℕ → Sched → Sched
on_terminal env now op none s = s
on_terminal env now op (some res) s =
    if binds op.kind
    then record s {
      start_fail =
          if is_start op.kind then note_start res now op.state s.start_fail else s.start_fail;
      db =
          resolve_all env res op.kind op.state
            (Acquisitions.list_by_state (λ x. acq_eq x AcqState.provisioning) s.db) s.db;
    }
    else s

-- HandleOpTerminal; the environment is that of each acquisition.
unfoldable pub handle_op_terminal : (ℕ → Env) → ℕ → Operation → Sched → Sched
unfolding resolve_pending bump_backoff
handle_op_terminal env now op s = on_terminal env now op op.resource_id s

-- Without capacity or a class to scale, a pending acquisition fails.
unfoldable pub give_up : ℕ → Acquisition → Db → Outcome Db
give_up now acq db =
    Acquisitions.transition acq.id AcqState.pending AcqState.failed now db >>= λ db1.
    ok (Events.append now EventType.acquisition_failed none none db1)

abbrev pub overdue : ℕ → ℕ → ℕ → Bool
overdue timeout now since = ltb 0 timeout && ltb timeout (now - since)

abbrev pub expire_read : ℕ → ℕ → Acquisition → Db → Outcome Acquisition → Db
expire_read timeout now acq db (err x) = db
expire_read timeout now acq db (ok cur) =
    if acq_eq cur.state AcqState.pending && overdue timeout now cur.created_at
    then attempt db (Acquisitions.transition acq.id AcqState.pending AcqState.expired now db)
    else db

-- The expiry check that follows Satisfy.
unfoldable pub expire_pending : ℕ → ℕ → Acquisition → Db → Db
expire_pending timeout now acq db = expire_read timeout now acq db (Acquisitions.get acq.id db)

abbrev pub is_no_capacity : Error → Bool
is_no_capacity no_capacity = true
is_no_capacity _ = false

abbrev pub refused : Outcome Acquisition → Bool
refused (ok a) = false
refused (err x) = is_no_capacity x

unfoldable pub after_satisfy : ℕ → ℕ → Acquisition → Answered → Sched
unfolding give_up expire_pending
after_satisfy timeout now acq a =
    if refused a.result
    then record a.state { db = attempt a.state.db (give_up now acq a.state.db) }
    else record a.state { db = expire_pending timeout now acq a.state.db }

-- The timeout of a pre-bound acquisition.
unfoldable pub expire_provisioning : ℕ → Acquisition → Db → Outcome Db
expire_provisioning now acq db =
    Acquisitions.transition acq.id AcqState.provisioning AcqState.expired now db >>= λ db1.
    ok (Events.append now EventType.acquisition_expired acq.pending_resource_id none db1)

-- What the phase of the pre-bound machine tells of an operation whose end was missed.
abbrev pub by_phase : Env → Acquisition → Db → Phase → Db
by_phase e acq db Phase.ready = resolve_pending e acq OpKind.create OpState.succeeded db
by_phase e acq db Phase.failed = resolve_pending e acq OpKind.create OpState.failed db
by_phase e acq db Phase.parked = attempt db (re_pend e.now acq db)
by_phase e acq db _ = db

abbrev pub by_machine : Env → Acquisition → Db → Outcome Resource → Db
by_machine e acq db (err x) = db
by_machine e acq db (ok r) = by_phase e acq db r.phase

abbrev pub recheck : Env → Acquisition → Option ℕ → Db → Db
recheck e acq none db = db
recheck e acq (some res) db = by_machine e acq db (Resources.get res db)

unfoldable pub sweep_provisioning : Env → ℕ → ℕ → Acquisition → Db → Db
unfolding expire_provisioning resolve_pending re_pend
sweep_provisioning e timeout now acq db =
    if overdue timeout now acq.updated_at
    then attempt db (expire_provisioning now acq db)
    else recheck e acq acq.pending_resource_id db

-- One round of Resume, by the state in which the acquisition was listed.
abbrev pub sweep_by : Env → ℕ → ℕ → Acquisition → Sched → AcqState → Sched
sweep_by e timeout now acq s AcqState.pending = after_satisfy timeout now acq (satisfy e acq.id s)
sweep_by e timeout now acq s AcqState.provisioning = record s {
  db = sweep_provisioning e timeout now acq s.db;
}
sweep_by e timeout now acq s _ = s

unfoldable pub sweep_all : (ℕ → Env) → ℕ → ℕ → List Acquisition → Sched → Sched
unfolding after_satisfy sweep_provisioning
sweep_all env timeout now [] s = s
sweep_all env timeout now (a ∷ acqs) s =
    sweep_all env timeout now acqs (sweep_by (env a.id) timeout now a s a.state)

-- Resume.
unfoldable pub resume : (ℕ → Env) → ℕ → ℕ → Sched → Sched
unfolding sweep_all
resume env timeout now s =
    sweep_all env timeout now
      (Acquisitions.list_by_state (λ x. acq_eq x AcqState.pending || acq_eq x AcqState.provisioning)
        s.db)
      s
