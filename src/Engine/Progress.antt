-- ===== src/Engine/Progress.antt =====
-- drive (internal/operations/engine.go) as a whole: the transitions that one drive of an operation
-- makes in the journal.
use fleetplane.Prelude.{
  ℕ, ◌≡◌, ◌≢◌, ◌⊎◌, inl, inr, refl, subst, ap, true, not, ◌&&◌, Option, none, some, arith,
}
use fleetplane.Prelude.Json.{Json}
use fleetplane.Prelude.Outcome.{Outcome, ok, err, OnOk}
use fleetplane.Provider.{
  ExternalRef, OperationRef, Action, GoError, ErrorClass, classify, effect, class_eq,
}
use fleetplane.Store.{Db, Operation, OpState}
use fleetplane.Store.Operations.Journal.{LeavesState, transition-inv}
use fleetplane.Engine.Base.{
  World, Reply, answered, failed, set_err, giving_up, is_delete, is_park_op,
}
use fleetplane.Engine.Trail.{Moves, Edge, Trail}
use fleetplane.Engine.Handlers.{
  Leaves, Settles, SameJournal, ref-SameJournal, if-Settles, if-Leaves, transition-Settles,
  commit-Settles, fail_op-Settles, succeed_delete-Settles,
}
use fleetplane.Engine.Dispatch.{
  mark_in_flight, tx_b, mark_accepted, adopt_ref, accept, retry_later, verify_later,
  handle_apply_error, on_applied, apply_now, apply_after, past_attempts, dispatch_with,
  without_effect, is_fatal, had_no_effect,
}

pub adopt_ref-SameJournal :
    (id : Option ℕ) (ref : Option ExternalRef) (db : Db)
    → OnOk (SameJournal db) (adopt_ref id ref db)
adopt_ref-SameJournal none ref db = refl
adopt_ref-SameJournal (some id) none db = refl
adopt_ref-SameJournal (some id) (some r) db = ref-SameJournal id r.id (Json.doc r) db

pub mark_accepted-LeavesState : (ref : OperationRef) → LeavesState (mark_accepted ref)
unfolding mark_accepted
mark_accepted-LeavesState ref o = (refl, refl)

pub mark_in_flight-LeavesState : (w : World) → LeavesState (mark_in_flight w)
unfolding mark_in_flight
mark_in_flight-LeavesState w o = (refl, refl)

noted-LeavesState :
    (cause : GoError) (n : ℕ)
    → LeavesState (λ o. set_err cause (record o { next_attempt_at = some n }))
unfolding set_err
noted-LeavesState cause n o = (refl, refl)

accept-Settles :
    {E : Moves} (w : World) (op : Operation) (ref : OperationRef) (db : Db)
    → E OpState.in_flight OpState.external_accepted
    → Settles E op db (accept w op ref db)
unfolding accept
accept-Settles w op ref db e =
    commit-Settles w.wall op OpState.in_flight OpState.external_accepted _ db _ e
      (mark_accepted-LeavesState ref) (λ d. adopt_ref-SameJournal _ ref.ref d)

retry_later-Settles :
    {E : Moves} (w : World) (op : Operation) (cause : GoError) (db : Db)
    → E OpState.in_flight OpState.journaled
    → Settles E op db (retry_later w op cause db)
unfolding retry_later
retry_later-Settles w op cause db e =
    transition-Settles w.wall op OpState.in_flight OpState.journaled _ db e
      (noted-LeavesState cause _)

verify_later-Settles :
    {E : Moves} (w : World) (op : Operation) (cause : GoError) (db : Db)
    → E OpState.in_flight OpState.verifying
    → Settles E op db (verify_later w op cause db)
unfolding verify_later
verify_later-Settles w op cause db e =
    transition-Settles w.wall op OpState.in_flight OpState.verifying _ db e
      (noted-LeavesState cause _)

-- What handleApplyError needs of the transitions: those out of in_flight, and the way back to
-- journaled when the provider was not reached or the operation is a stop or a start.
handle_apply_error-Settles :
    {E : Moves} (w : World) (op : Operation) (cause : GoError) (db : Db)
    → ((t : OpState)
        → Edge OpState.in_flight t
        → t ≢ OpState.journaled
        → (t ≡ OpState.succeeded → is_delete op.kind ≡ true)
        → E OpState.in_flight t)
    → ((had_no_effect (effect cause) ≡ true) ⊎ (is_park_op op.kind ≡ true)
        → E OpState.in_flight OpState.journaled)
    → Settles E op db (handle_apply_error w op cause db)
unfolding handle_apply_error
handle_apply_error-Settles w op cause db sub ret =
    if-Settles op db (is_delete op.kind && class_eq (classify cause) ErrorClass.not_found) _ _
      (λ k.
        succeed_delete-Settles w op OpState.in_flight db
          (sub _ Edge.gone (λ q. ground arith) (λ q. ground (arith, k))))
      (λ _.
        if-Settles op db (is_park_op op.kind && class_eq (classify cause) ErrorClass.not_found) _ _
          (λ _.
            fail_op-Settles w op OpState.in_flight cause db
              (sub _ Edge.refused (λ q. ground arith) (λ q. ground arith)))
          (λ _.
            if-Settles op db (is_park_op op.kind && not (is_fatal (classify cause))) _ _
              (λ park. retry_later-Settles w op cause db (ret (inr (ground arith))))
              (λ _.
                if-Settles op db (is_fatal (classify cause)) _ _
                  (λ _.
                    fail_op-Settles w op OpState.in_flight cause db
                      (sub _ Edge.refused (λ q. ground arith) (λ q. ground arith)))
                  (λ _.
                    if-Settles op db (had_no_effect (effect cause)) _ _
                      (λ clean. retry_later-Settles w op cause db (ret (inl clean)))
                      (λ _.
                        verify_later-Settles w op cause db
                          (sub _ Edge.in_doubt (λ q. ground arith) (λ q. ground arith)))))))

pub on_applied-Settles :
    {E : Moves} (w : World) (op : Operation) (db : Db) (r : Reply OperationRef)
    → ((t : OpState)
        → Edge OpState.in_flight t
        → t ≢ OpState.journaled
        → (t ≡ OpState.succeeded → is_delete op.kind ≡ true)
        → E OpState.in_flight t)
    → ((without_effect r ≡ true) ⊎ (is_park_op op.kind ≡ true)
        → E OpState.in_flight OpState.journaled)
    → Settles E op db (on_applied w op db r)
unfolding on_applied
on_applied-Settles w op db (answered ref) sub ret =
    accept-Settles w op ref db (sub _ Edge.accepted (λ q. ground arith) (λ q. ground arith))
on_applied-Settles w op db (failed cause) sub ret = handle_apply_error-Settles w op cause db sub ret

-- dispatch, for any transitions among which are those of a dispatch.
module _ (E : Moves) (w : World) (op : Operation) (fails : E op.state OpState.failed)
    (sends : E OpState.journaled OpState.in_flight)
    (sub : (t : OpState)
      → Edge OpState.in_flight t
      → t ≢ OpState.journaled
      → (t ≡ OpState.succeeded → is_delete op.kind ≡ true)
      → E OpState.in_flight t)
    (ret : E OpState.in_flight OpState.journaled) where
  -- From TxB on.
  apply_after-Leaves :
      (a : Action) (db : Db) (m : Outcome Db)
      → tx_b w op db ≡ m
      → Leaves E op db (apply_after w op a db m)
  unfolding apply_now tx_b
  apply_after-Leaves a db (err e) h = Trail.still
  apply_after-Leaves a db (ok db1) h =
      let (o, g, s, same) =
        transition-inv w.wall op.id OpState.journaled OpState.in_flight (mark_in_flight w) db h in
      Trail.moved OpState.journaled OpState.in_flight w.wall (mark_in_flight w) o sends
        (mark_in_flight-LeavesState w) g s
        (subst (λ ops. Trail E op.id ops (on_applied w op db1 (w.apply a)).db.operations)
          (ap (λ d. d.operations) same) (on_applied-Settles w op db1 (w.apply a) sub (λ _. ret)).0)

  pub dispatch-Leaves : (db : Db) (r : Reply Action) → Leaves E op db (dispatch_with w op db r)
  unfolding dispatch_with
  dispatch-Leaves db (failed cause) = (fail_op-Settles w op op.state cause db fails).0
  dispatch-Leaves db (answered a) =
      if-Leaves op db (past_attempts op) _ _
        (λ _. (fail_op-Settles w op op.state giving_up db fails).0)
        (λ _. apply_after-Leaves a db (tx_b w op db) refl)
