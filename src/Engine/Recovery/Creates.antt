-- ===== src/Engine/Recovery/Creates.antt =====
-- No create is sent to a provider twice without proof that the first had no effect
-- (internal/operations/engine.go, invariant 7 of its package comment).
use fleetplane.Prelude.{
  ℕ, ◌≡◌, ◌⊎◌, inl, inr, refl, ◌∙◌, ap, Bool, true, false, not, ◌&&◌, Option, some, ◌==◌,
  if◌then◌else◌, arith,
}
use fleetplane.Prelude.Outcome.{Outcome, ok, err}
use fleetplane.Provider.{Action, ExternalRef, GoError}
use fleetplane.Store.{Db, Operation, OpState}
use fleetplane.Store.Rows.{get_row}
use fleetplane.Store.Operations
use fleetplane.Store.Operations.{op_id, transition, append, move}
use fleetplane.Store.Operations.Journal.{transition-inv}
use fleetplane.Engine.Base.{
  World, Reply, answered, failed, driver_and_action, is_delete, is_park_op, giving_up, fail_op,
}
use fleetplane.Engine.Trail.{put_self, Only}
use fleetplane.Engine.Handlers.{Settles, transition-Settles, fail_op-Settles}
use fleetplane.Engine.Progress.{on_applied-Settles, mark_in_flight-LeavesState}
use fleetplane.Engine.Polling.{poll-Settles}
use fleetplane.Engine.Observing.{on_discovered-Settles, verify_delete-Settles}
use fleetplane.Engine.Dispatch.{
  dispatch, dispatch_with, apply_after, apply_now, on_applied, past_attempts, tx_b, mark_in_flight,
  without_effect,
}
use fleetplane.Engine.Poll.{poll, poll_with}
use fleetplane.Engine.Verify.{
  verify, freeze, on_discovered, verify_with, verify_create, verify_delete, discovers,
  proves_absent, redispatch, run_now,
}
use fleetplane.Engine.Drive.{drive, by_state}
use fleetplane.Engine.Recovery.{doubt, IsClear}
use fleetplane.Engine.Recovery.Turns.{transition-journaled, Settles-IsClear}
use fleetplane.Engine.Recovery.Reasons.{
  absent_settles, if-Clear, lowered, not_create, polled, settled_by, verifies,
}

-- Driving the operation `op`, which is in the journal as it is.
module _ (w : World) (op : Operation) (db : Db) (j : ℕ) (b : Bool)
    (g : get_row op_id op.id db.operations ≡ some op) (clear : IsClear j db b) where
  fails-IsClear :
      (from : OpState) (cause : GoError)
      → IsClear j
          (fail_op w op.id from cause db).db
          (doubt j b (fail_op w op.id from cause db).calls)
  fails-IsClear from cause =
      Settles-IsClear {P = ⊥} op db (fail_op w op.id from cause db) j b op
        (fail_op-Settles w op from cause db (λ q. ground arith)) g clear (λ x. absurd x)

  begun : Operation
  begun = move OpState.in_flight w.wall (mark_in_flight w) op

  begun-row : (db1 : Db) → tx_b w op db ≡ ok db1 → get_row op_id op.id db1.operations ≡ some begun
  unfolding tx_b begun
  begun-row db1 h =
      let (p, gp, sp, same) =
        transition-inv w.wall op.id OpState.journaled OpState.in_flight (mark_in_flight w) db h in
      ap (λ d. get_row op_id op.id d.operations) same
      ∙ put_self op.id OpState.in_flight w.wall (mark_in_flight w) db.operations op g

  begun-IsClear :
      (db1 : Db) (c : Bool) → tx_b w op db ≡ ok db1 → IsClear j db1 (if op.id == j then c else b)
  unfolding tx_b
  begun-IsClear db1 c h o go k s =
      let (n, before) =
        transition-journaled w.wall op.id OpState.journaled OpState.in_flight (mark_in_flight w) db
          j o (mark_in_flight-LeavesState w) (λ q. ground arith) h go s in
      ap (λ x. if x then c else b) n ∙ clear o before k s

  -- In flight, with the mutation made.
  apply_now-IsClear :
      (db1 : Db) (a : Action)
      → tx_b w op db ≡ ok db1
      → IsClear j (apply_now w op a db1).db (doubt j b (apply_now w op a db1).calls)
  unfolding apply_now begun move mark_in_flight
  apply_now-IsClear db1 a h =
      Settles-IsClear {P = (without_effect (w.apply a) ≡ true) ⊎ (is_park_op op.kind ≡ true)} op db1
        (on_applied w op db1 (w.apply a)) j
        (if op.id == j then not (without_effect (w.apply a)) else b) begun
        (on_applied-Settles w op db1 (w.apply a) (λ t e ne _ q. absurd (ne q)) (λ p q. p))
        (begun-row db1 h) (begun-IsClear db1 (not (without_effect (w.apply a))) h)
        (settled_by op.kind op.id j (without_effect (w.apply a)) b)

  apply_after-IsClear :
      (a : Action) (m : Outcome Db)
      → tx_b w op db ≡ m
      → IsClear j (apply_after w op a db m).db (doubt j b (apply_after w op a db m).calls)
  apply_after-IsClear a (err e) h = clear
  apply_after-IsClear a (ok db1) h = apply_now-IsClear db1 a h

  dispatch-IsClear :
      (r : Reply Action)
      → IsClear j (dispatch_with w op db r).db (doubt j b (dispatch_with w op db r).calls)
  unfolding dispatch_with
  dispatch-IsClear (failed cause) = fails-IsClear op.state cause
  dispatch-IsClear (answered a) =
      if-Clear j b (past_attempts op) (fail_op w op.id op.state giving_up db)
        (apply_after w op a db (tx_b w op db)) (λ _. fails-IsClear op.state giving_up)
        (λ _. apply_after-IsClear a (tx_b w op db) refl)

  poll-IsClear :
      (r : Reply Action)
      → op.state ≡ OpState.external_accepted
      → IsClear j (poll_with w op db r).db (doubt j b (poll_with w op db r).calls)
  poll-IsClear r e =
      Settles-IsClear {P = ⊥} op db (poll_with w op db r) j b op
        (poll-Settles (Only OpState.journaled ⊥) w op (λ t x _. polled t x) e db r) g clear
        (λ x. absurd x)

  -- Why an operation in verification may go back to journaled.
  Absent : Type 0
  Absent =
      (is_park_op op.kind ≡ true)
      ⊎ (is_delete op.kind ≡ true)
      ⊎ (proves_absent w op (w.discover op.id) ≡ true)

  redispatched :
      {P : Type 0} → P → Settles (Only OpState.journaled P) op db (redispatch w op run_now db)
  unfolding redispatch
  redispatched p =
      transition-Settles w.wall op OpState.verifying OpState.journaled run_now db (λ q. p)
        (λ o. (refl, refl))

  deletes :
      op.state ≡ OpState.verifying
      → is_delete op.kind ≡ true
      → (ref : Option ExternalRef)
      → Settles
          (Only OpState.journaled ((is_park_op op.kind ≡ true) ⊎ (is_delete op.kind ≡ true)))
          op
          db
          (verify_delete w op ref db)
  deletes e del ref =
      verify_delete-Settles
        (Only OpState.journaled ((is_park_op op.kind ≡ true) ⊎ (is_delete op.kind ≡ true))) w op
        (λ t x n _. verifies t x n) (λ _ q. inr del) e ref db del

  verify_create-IsClear :
      op.state ≡ OpState.verifying
      → IsClear j (verify_create w op db).db (doubt j b (verify_create w op db).calls)
  unfolding verify_create Absent
  verify_create-IsClear e =
      let found = proves_absent w op (w.discover op.id) in
      if-Clear j b (discovers w op) _ (freeze w op db)
        (λ _.
          Settles-IsClear {P = Absent} op db (on_discovered w op db (w.discover op.id)) j
            (if op.id == j && found then false else b) op
            (on_discovered-Settles (Only OpState.journaled Absent) w op (λ t x n _. verifies t x n)
              (λ p q. p) e db (w.discover op.id) (λ p q. inr (inr p)))
            g (λ o go k s. lowered (op.id == j && found) b (clear o go k s))
            (absent_settles op.kind op.id j found b))
        (λ _.
          Settles-IsClear {P = ⊥} op db (freeze w op db) j b op
            (transition-Settles w.wall op OpState.verifying OpState.uncertain Operations.no_change
              db (λ q. ground arith) (λ o. (refl, refl)))
            g clear (λ x. absurd x))

  verify-IsClear :
      (r : Reply Action)
      → op.state ≡ OpState.verifying
      → IsClear j (verify_with w op db r).db (doubt j b (verify_with w op db r).calls)
  unfolding verify_with Absent
  verify-IsClear (failed cause) e = fails-IsClear op.state cause
  verify-IsClear (answered a) e =
      if-Clear j b (is_park_op op.kind) (redispatch w op run_now db) _
        (λ park.
          Settles-IsClear {P = (is_park_op op.kind ≡ true) ⊎ (is_delete op.kind ≡ true)} op db
            (redispatch w op run_now db) j b op (redispatched (inl park)) g clear
            (λ p q. not_create op.kind b p))
        (λ _.
          if-Clear j b (is_delete op.kind) (verify_delete w op a.ref db) (verify_create w op db)
            (λ del.
              Settles-IsClear {P = (is_park_op op.kind ≡ true) ⊎ (is_delete op.kind ≡ true)} op db
                (verify_delete w op a.ref db) j b op (deletes e del a.ref) g clear
                (λ p q. not_create op.kind b p))
            (λ _. verify_create-IsClear e))

  by_state-IsClear :
      (s : OpState)
      → op.state ≡ s
      → IsClear j (by_state w op db s).db (doubt j b (by_state w op db s).calls)
  unfolding dispatch poll verify
  by_state-IsClear OpState.journaled e = dispatch-IsClear (driver_and_action w op db)
  by_state-IsClear OpState.external_accepted e = poll-IsClear (driver_and_action w op db) e
  by_state-IsClear OpState.verifying e = verify-IsClear (driver_and_action w op db) e
  by_state-IsClear OpState.in_flight e = clear
  by_state-IsClear OpState.uncertain e = clear
  by_state-IsClear OpState.succeeded e = clear
  by_state-IsClear OpState.failed e = clear
  by_state-IsClear OpState.aborted e = clear

  pub drive-IsClear : IsClear j (drive w op db).db (doubt j b (drive w op db).calls)
  unfolding drive
  drive-IsClear = by_state-IsClear op.state refl
