-- ===== src/Engine/Observing.antt =====
-- The transitions in the journal of verify (internal/operations/engine.go).
use fleetplane.Prelude.{
  ◌≡◌, ◌≢◌, ◌⊎◌, inl, inr, arith, refl, sym, subst, true, Option, none, some, List, [], ◌∷◌,
}
use fleetplane.Provider.{ExternalRef, Action, ObservedResource, GoError, ErrorClass, is_class}
use fleetplane.Store.{Db, Operation, OpState}
use fleetplane.Store.Operations
use fleetplane.Store.Operations.Journal.{LeavesState}
use fleetplane.Engine.Base.{
  World, Reply, answered, failed, reschedule, fail_op, delete_without_ref, is_delete, is_park_op,
}
use fleetplane.Engine.Trail.{Moves, Edge}
use fleetplane.Engine.Handlers.{
  Leaves, Settles, if-Settles, if-Leaves, transition-Settles, commit-Settles, fail_op-Settles,
  succeed_delete-Settles, reschedule-Settles,
}
use fleetplane.Engine.Progress.{adopt_ref-SameJournal, mark_accepted-LeavesState}
use fleetplane.Engine.Verify.{
  run_now, redispatch, on_fetched, verify_delete, found_ref, adopt, freeze, before_deadline,
  on_discovered, proves_absent, discovers, verify_create, verify_with,
}
use fleetplane.Engine.Polling.{no_change-LeavesState}

-- verify, for any transitions among which are the edges out of verifying but for the one back to
-- journaled, which needs that the operation is a stop, a start or a delete, or that a discovery by
-- its label found nothing.
module _ (E : Moves) (w : World) (op : Operation)
    (sub : (t : OpState)
      → Edge OpState.verifying t
      → t ≢ OpState.journaled
      → (t ≡ OpState.succeeded → is_delete op.kind ≡ true)
      → E OpState.verifying t)
    (ret : (is_park_op op.kind ≡ true)
        ⊎ (is_delete op.kind ≡ true)
        ⊎ (proves_absent w op (w.discover op.id) ≡ true)
      → E OpState.verifying OpState.journaled)
    (e : op.state ≡ OpState.verifying) where
  later : (cause : Option GoError) (db : Db) → Settles E op db (reschedule w op cause db)
  later cause db = reschedule-Settles w op cause db (
      subst (λ s. E s s) (sym e)
        (sub _ Edge.rescheduled_verifying (λ q. ground arith) (λ q. ground arith)))

  pub redispatch-Settles :
      (mut : Operation → Operation) (db : Db)
      → LeavesState mut
      → E OpState.verifying OpState.journaled
      → Settles E op db (redispatch w op mut db)
  unfolding redispatch
  redispatch-Settles mut db h x =
      transition-Settles w.wall op OpState.verifying OpState.journaled mut db x h

  on_fetched-Settles :
      (db : Db) (r : Reply (Unit {0}))
      → is_delete op.kind ≡ true
      → Settles E op db (on_fetched w op db r)
  unfolding on_fetched
  on_fetched-Settles db (answered p) k =
      redispatch-Settles Operations.no_change db no_change-LeavesState (ret (inr (inl k)))
  on_fetched-Settles db (failed cause) k =
      if-Settles op db (is_class cause ErrorClass.not_found) _ _
        (λ _.
          succeed_delete-Settles w op OpState.verifying db
            (sub _ Edge.deleted (λ q. ground arith) (λ q. k)))
        (λ _. later (some cause) db)

  pub verify_delete-Settles :
      (ref : Option ExternalRef) (db : Db)
      → is_delete op.kind ≡ true
      → Settles E op db (verify_delete w op ref db)
  unfolding verify_delete
  verify_delete-Settles none db k =
      fail_op-Settles w op OpState.verifying delete_without_ref db
        (sub _ Edge.verify_failed (λ q. ground arith) (λ q. ground arith))
  verify_delete-Settles (some ref) db k =
      (let (t, q) = on_fetched-Settles db (w.fetch ref) k in (t, (refl, q)))

  pub on_discovered-Settles :
      (db : Db) (r : Reply (List ObservedResource))
      → (proves_absent w op r ≡ true → E OpState.verifying OpState.journaled)
      → Settles E op db (on_discovered w op db r)
  unfolding on_discovered adopt
  on_discovered-Settles db (failed cause) x = later (some cause) db
  on_discovered-Settles db (answered (obs ∷ rest)) x =
      commit-Settles w.wall op OpState.verifying OpState.external_accepted _ db _
        (sub _ Edge.found (λ q. ground arith) (λ q. ground arith))
        (mark_accepted-LeavesState (found_ref op obs))
        (λ d. adopt_ref-SameJournal op.resource_id (some obs.ref) d)
  on_discovered-Settles db (answered []) x =
      if-Settles op db (before_deadline w.now op.verify_deadline_at) _ _ (λ _. later none db)
        (λ late. redispatch-Settles run_now db (λ o. (refl, refl)) (x (ground arith)))

  pub freeze-Settles : (db : Db) → Settles E op db (freeze w op db)
  freeze-Settles db =
      transition-Settles w.wall op OpState.verifying OpState.uncertain Operations.no_change db
        (sub _ Edge.frozen (λ q. ground arith) (λ q. ground arith)) no_change-LeavesState

  verify_create-Leaves : (db : Db) → Leaves E op db (verify_create w op db)
  unfolding verify_create
  verify_create-Leaves db =
      if-Leaves op db (discovers w op) _ _
        (λ d. (on_discovered-Settles db (w.discover op.id) (λ f. ret (inr (inr f)))).0)
        (λ _. (freeze-Settles db).0)

  pub gave_up-Settles :
      (cause : GoError) (db : Db) → Settles E op db (fail_op w op.id op.state cause db)
  gave_up-Settles cause db = fail_op-Settles w op op.state cause db (
      subst (λ s. E s OpState.failed) (sym e)
        (sub _ Edge.verify_failed (λ q. ground arith) (λ q. ground arith)))

  pub verify-Leaves : (db : Db) (r : Reply Action) → Leaves E op db (verify_with w op db r)
  unfolding verify_with
  verify-Leaves db (failed cause) = (gave_up-Settles cause db).0
  verify-Leaves db (answered a) =
      if-Leaves op db (is_park_op op.kind) _ _
        (λ k. (redispatch-Settles run_now db (λ o. (refl, refl)) (ret (inl k))).0)
        (λ _.
          if-Leaves op db (is_delete op.kind) _ _ (λ k. (verify_delete-Settles a.ref db k).0)
            (λ _. verify_create-Leaves db))
