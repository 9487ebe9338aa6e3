-- ===== src/Engine/Polling.antt =====
-- The transitions in the journal of poll (internal/operations/engine.go).
use fleetplane.Prelude.{ℕ, ◌≡◌, arith, true, false, refl, sym, subst, Option, none, some}
use fleetplane.Prelude.Json.{Json}
use fleetplane.Prelude.Outcome.{OnOk}
use fleetplane.Phase.{Phase}
use fleetplane.Provider.{
  OperationRef, OperationStatus, Action, ObservedResource, ReportedState, GoError, ErrorClass,
  classify, class_eq,
}
use fleetplane.Store.{Db, Operation, OpState, OpKind}
use fleetplane.Store.Operations
use fleetplane.Store.Operations.Journal.{LeavesState}
use fleetplane.Store.Events
use fleetplane.Engine.Base.{
  World, Reply, answered, failed, reschedule, corrupt_ref, budget_exhausted, is_delete, is_create,
  is_park_op,
}
use fleetplane.Engine.Trail.{Moves, Edge}
use fleetplane.Engine.Handlers.{
  Settles, SameJournal, facts-SameJournal, cas-SameJournal, observed-SameJournal,
  commit-SameJournal, chain-SameJournal, if-Settles, transition-Settles, commit_terminal-Settles,
  fail_op-Settles, fail_op_phases-Settles, succeed_delete-Settles, reschedule-Settles,
}
use fleetplane.Engine.Poll.{
  Gate, passed, waiting, exhausted, note_observed, take_facts, take_snapshot, land_created,
  land_stopped, land_started, snapshot_of, succeed_create, succeed_stop, succeed_start,
  readiness_gate, is_start, is_stop, poll_gated, poll_succeeded, cause_of, on_status,
  verify_vanished, poll_error, on_observed, poll_ref, poll_with,
}

pub no_change-LeavesState : LeavesState Operations.no_change
no_change-LeavesState o = (refl, refl)

note-SameJournal :
    (w : World) (id : ℕ) (r : ObservedResource) (db : Db) → SameJournal db (note_observed w id r db)
note-SameJournal w id r db =
    commit-SameJournal db _ (observed-SameJournal (snapshot_of id w.now r) db)

take_facts-SameJournal :
    (w : World) (id : ℕ) (r : Option ObservedResource) (db : Db)
    → OnOk (SameJournal db) (take_facts w id r db)
take_facts-SameJournal w id none db = refl
take_facts-SameJournal w id (some r) db =
    subst (λ ops. OnOk (λ d'. d'.operations ≡ ops) (take_facts w id (some r) db))
      (note-SameJournal w id r db)
      (facts-SameJournal id r.extensions r.capacity w.now (note_observed w id r db))

take_snapshot-SameJournal :
    (w : World) (id : ℕ) (r : Option ObservedResource) (db : Db)
    → OnOk (SameJournal db) (take_snapshot w id r db)
take_snapshot-SameJournal w id none db = refl
take_snapshot-SameJournal w id (some r) db = note-SameJournal w id r db

land_created-SameJournal :
    (w : World) (id : Option ℕ) (st : OperationStatus) (db : Db)
    → OnOk (SameJournal db) (land_created w id st db)
land_created-SameJournal w none st db = refl
land_created-SameJournal w (some id) st db =
    chain-SameJournal db _ _ (take_facts-SameJournal w id st.resource db)
      (cas-SameJournal id Phase.provisioning Phase.ready w.now)

land_stopped-SameJournal :
    (w : World) (id : Option ℕ) (st : OperationStatus) (db : Db)
    → OnOk (SameJournal db) (land_stopped w id st db)
land_stopped-SameJournal w none st db = refl
land_stopped-SameJournal w (some id) st db =
    chain-SameJournal db _ _ (take_snapshot-SameJournal w id st.resource db)
      (cas-SameJournal id Phase.parking Phase.parked w.now)

land_started-SameJournal :
    (w : World) (id : Option ℕ) (st : OperationStatus) (db : Db)
    → OnOk (SameJournal db) (land_started w id st db)
land_started-SameJournal w none st db = refl
land_started-SameJournal w (some id) st db =
    chain-SameJournal db _ _ (take_facts-SameJournal w id st.resource db)
      (cas-SameJournal id Phase.starting Phase.ready w.now)

only_create : (k : OpKind) → is_delete k ≡ false → is_park_op k ≡ false → is_create k ≡ true
unfolding is_park_op
only_create k n m = ground arith

-- poll, for any transitions among which are the edges out of external_accepted.
module _ (E : Moves) (w : World) (op : Operation)
    (sub : (t : OpState)
      → Edge OpState.external_accepted t
      → (t ≡ OpState.verifying → is_create op.kind ≡ true)
      → E OpState.external_accepted t)
    (e : op.state ≡ OpState.external_accepted) where
  polled :
      {t : OpState}
      → Edge OpState.external_accepted t
      → (t ≡ OpState.verifying → is_create op.kind ≡ true)
      → E op.state t
  polled {t} x k = subst (λ s. E s t) (sym e) (sub _ x k)

  succeed_create-Settles :
      (st : OperationStatus) (db : Db) → Settles E op db (succeed_create w op st db)
  unfolding succeed_create Events.append
  succeed_create-Settles st db =
      commit_terminal-Settles w.wall op op.state OpState.succeeded Operations.no_change db _
        (polled Edge.finished (λ q. ground arith)) no_change-LeavesState
        (λ d.
          chain-SameJournal d (land_created w op.resource_id st d) _
            (land_created-SameJournal w op.resource_id st d) (λ d2. refl))

  succeed_stop-Settles :
      (st : OperationStatus) (db : Db) → Settles E op db (succeed_stop w op st db)
  unfolding succeed_stop Events.append
  succeed_stop-Settles st db =
      commit_terminal-Settles w.wall op op.state OpState.succeeded Operations.no_change db _
        (polled Edge.finished (λ q. ground arith)) no_change-LeavesState
        (λ d.
          chain-SameJournal d (land_stopped w op.resource_id st d) _
            (land_stopped-SameJournal w op.resource_id st d) (λ d2. refl))

  succeed_start-Settles :
      (st : OperationStatus) (db : Db) → Settles E op db (succeed_start w op st db)
  unfolding succeed_start Events.append
  succeed_start-Settles st db =
      commit_terminal-Settles w.wall op op.state OpState.succeeded Operations.no_change db _
        (polled Edge.finished (λ q. ground arith)) no_change-LeavesState
        (λ d.
          chain-SameJournal d (land_started w op.resource_id st d) _
            (land_started-SameJournal w op.resource_id st d) (λ d2. refl))

  again : (cause : Option GoError) (db : Db) → Settles E op db (reschedule w op cause db)
  again cause db =
      reschedule-Settles w op cause db
        (subst (λ s. E s s) (sym e) (sub _ Edge.rescheduled_accepted (λ q. ground arith)))

  poll_gated-Settles :
      (st : OperationStatus) (db : Db) (g : Gate) → Settles E op db (poll_gated w op st db g)
  unfolding poll_gated
  poll_gated-Settles st db exhausted =
      if-Settles op db (is_start op.kind) _ _
        (λ _.
          fail_op_phases-Settles w op OpState.external_accepted budget_exhausted Phase.starting
            Phase.failed db (sub _ Edge.reported_failed (λ q. ground arith)))
        (λ _.
          fail_op-Settles w op OpState.external_accepted budget_exhausted db
            (sub _ Edge.reported_failed (λ q. ground arith)))
  poll_gated-Settles st db waiting = again none db
  poll_gated-Settles st db passed =
      if-Settles op db (is_start op.kind) _ _ (λ _. succeed_start-Settles st db)
        (λ _. succeed_create-Settles st db)

  poll_succeeded-Settles :
      (st : OperationStatus) (db : Db) → Settles E op db (poll_succeeded w op st db)
  unfolding poll_succeeded
  poll_succeeded-Settles st db =
      if-Settles op db (is_delete op.kind) _ _
        (λ _.
          succeed_delete-Settles w op OpState.external_accepted db
            (sub _ Edge.finished (λ q. ground arith)))
        (λ _.
          if-Settles op db (is_stop op.kind) _ _ (λ _. succeed_stop-Settles st db)
            (λ _. poll_gated-Settles st db (readiness_gate w op db)))

  on_status-Settles :
      (st : OperationStatus) (db : Db) (r : ReportedState)
      → Settles E op db (on_status w op st db r)
  on_status-Settles st db ReportedState.reported_succeeded = poll_succeeded-Settles st db
  on_status-Settles st db ReportedState.reported_failed =
      fail_op-Settles w op OpState.external_accepted (cause_of st.failure) db
        (sub _ Edge.reported_failed (λ q. ground arith))
  on_status-Settles st db ReportedState.reported_pending = again none db
  on_status-Settles st db ReportedState.reported_running = again none db
  on_status-Settles st db ReportedState.reported_unknown = again none db

  poll_error-Settles : (cause : GoError) (db : Db) → Settles E op db (poll_error w op cause db)
  unfolding poll_error verify_vanished
  poll_error-Settles cause db =
      if-Settles op db (class_eq (classify cause) ErrorClass.not_found) _ _
        (λ _.
          if-Settles op db (is_delete op.kind) _ _
            (λ _.
              succeed_delete-Settles w op OpState.external_accepted db
                (sub _ Edge.finished (λ q. ground arith)))
            (λ n.
              if-Settles op db (is_park_op op.kind) _ _
                (λ _.
                  fail_op-Settles w op OpState.external_accepted cause db
                    (sub _ Edge.reported_failed (λ q. ground arith)))
                (λ m.
                  transition-Settles w.wall op OpState.external_accepted OpState.verifying _ db
                    (sub _ Edge.vanished (λ _. only_create op.kind n m)) (λ o. (refl, refl)))))
        (λ _. again (some cause) db)

  on_observed-Settles :
      (db : Db) (r : Reply OperationStatus) → Settles E op db (on_observed w op db r)
  unfolding on_observed
  on_observed-Settles db (failed cause) = poll_error-Settles cause db
  on_observed-Settles db (answered st) = on_status-Settles st db st.state

  poll_ref-Settles : (db : Db) (r : Json OperationRef) → Settles E op db (poll_ref w op db r)
  unfolding poll_ref
  poll_ref-Settles db Json.blank =
      fail_op-Settles w op op.state corrupt_ref db (polled Edge.reported_failed (λ q. ground arith))
  poll_ref-Settles db Json.garbage =
      fail_op-Settles w op op.state corrupt_ref db (polled Edge.reported_failed (λ q. ground arith))
  poll_ref-Settles db (Json.doc ref) =
      (let (t, q) = on_observed-Settles db (w.observe ref) in (t, (refl, q)))

  pub poll-Settles : (db : Db) (r : Reply Action) → Settles E op db (poll_with w op db r)
  unfolding poll_with
  poll-Settles db (failed cause) =
      fail_op-Settles w op op.state cause db (polled Edge.reported_failed (λ q. ground arith))
  poll-Settles db (answered a) = poll_ref-Settles db op.external_op
