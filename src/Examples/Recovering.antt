-- ===== src/Examples/Recovering.antt =====
-- The engine's theorems at concrete journals: a create whose answer is lost in a crash is verified
-- after the restart and sent again.
use fleetplane.Prelude.{
  ℕ, ◌≡◌, ◌≢◌, ◌≤◌, refl, true, false, Option, none, some, List, [], ◌∷◌, ◌*◌, ◌+◌, ◌++◌, arith,
}
use fleetplane.Phase.{Phase}
use fleetplane.Billing.{ms}
use fleetplane.Store.{Db, Operation, OpState, OpKind, terminal}
use fleetplane.Store.Rows.{get_row}
use fleetplane.Store.Operations.{op_id}
use fleetplane.Store.Operations
use fleetplane.Engine.Base.{
  Call, Driven, commit, backoff, hint_of, at_least_hint, applied, driver_and_action, is_park_op,
}
use fleetplane.Engine.Drive.{drive, step, resume}
use fleetplane.Engine.Dispatch.{tx_b}
use fleetplane.Engine.Recovery.{Run, Turn, doubt}
use fleetplane.Engine.Recovery.Mutations.{Run-create, mutates}
use fleetplane.Engine.Recovery.Scan.{Distinct}
use fleetplane.Engine.Recovery.Total.{IsResumed, resume-total}
use fleetplane.Engine.Moves.{DrivenOnce, step-Next}
use fleetplane.Engine.Pacing.{backoff-bounds}
use fleetplane.Examples.{machine, operation, tables, world}

abbrev create_op : Operation
create_op = operation 5 OpKind.create OpState.journaled (some 1)

abbrev start_db : Db
start_db = tables (machine 1 Phase.provisioning none ∷ []) [] [] (create_op ∷ [])

-- The process dies with Apply made; the restart sends the create to verification; the discovery
-- after the window finds nothing.
abbrev crashed : Db
crashed = commit start_db (tx_b (world 1000) create_op start_db)

abbrev restarted : Db
restarted = (resume 2000 crashed).0

abbrev row_or : Option Operation → Operation
row_or none = create_op
row_or (some o) = o

abbrev verifying_op : Operation
verifying_op = row_or (get_row op_id 5 restarted.operations)

abbrev verified : Driven
verified = drive (world 200000) verifying_op restarted

abbrev again_op : Operation
again_op = row_or (get_row op_id 5 verified.db.operations)

abbrev log : List Call
log = (([] ++ (applied 5 false ∷ [])) ++ []) ++ verified.calls

the-Run : Run start_db log verified.db
unfolding tx_b resume drive Operations.transition Operations.non_terminal terminal driver_and_action
    is_park_op
the-Run =
    Run.then_turn
      (Run.then_turn
        (Run.then_turn Run.begins
          (Turn.dies_after_apply (world 1000) create_op start_db crashed refl))
        (Turn.resumes 2000 crashed))
      (Turn.drives (world 200000) verifying_op restarted refl)

sent_again : mutates (drive (world 200010) again_op verified.db).calls ≡ true
unfolding tx_b resume drive Operations.transition Operations.non_terminal terminal driver_and_action
    is_park_op
sent_again = refl

Run-create_example : doubt 5 false log ≡ false
unfolding tx_b resume drive Operations.transition Operations.non_terminal terminal driver_and_action
    is_park_op
Run-create_example =
    Run-create (world 200010) again_op the-Run (create_op, refl) refl refl sent_again

-- Two operations are open, on different machines; a third has failed.
abbrev failed_op : Operation
failed_op = operation 4 OpKind.delete OpState.failed (some 2)

abbrev busy : Db
busy =
    tables (machine 1 Phase.provisioning none ∷ machine 3 Phase.parking (some 9) ∷ []) [] []
      (create_op ∷ operation 6 OpKind.stop OpState.verifying (some 3) ∷ failed_op ∷ [])

backoff-bounds_example :
    (10 * ms ≤ backoff (world 1000) 20 none)
    × (at_least_hint 0 (hint_of none) ≤ backoff (world 1000) 20 none)
    × (backoff (world 1000) 20 none ≤ at_least_hint 300000000000 (hint_of none))
backoff-bounds_example =
    backoff-bounds (world 1000) 20 none 300000000000 (omega arith) (λ d h. h) (omega arith)

crashed-live :
    (j : ℕ) (o : Operation)
    → get_row op_id j crashed.operations ≡ some o
    → o.state ≡ OpState.in_flight
    → o.terminal_at ≡ none
unfolding tx_b Operations.transition terminal
crashed-live j o g s = ground arith

crashed-Distinct : Distinct crashed.operations
unfolding tx_b Operations.transition terminal
crashed-Distinct = (tt, tt)

resume-total_example :
    ((resume 2000 crashed).1 ≡ none)
    × ((j : ℕ) (o : Operation)
        → get_row op_id j (resume 2000 crashed).0.operations ≡ some o
        → o.state ≢ OpState.in_flight)
    × ((j : ℕ) (o : Operation)
        → get_row op_id j crashed.operations ≡ some o
        → o.state ≡ OpState.in_flight
        → (o' : Operation) × (get_row op_id j (resume 2000 crashed).0.operations ≡ some o')
          × IsResumed 2000 o o')
    × ((j : ℕ) (o : Operation)
        → get_row op_id j crashed.operations ≡ some o
        → o.state ≢ OpState.in_flight
        → get_row op_id j (resume 2000 crashed).0.operations ≡ some o)
resume-total_example = resume-total 2000 crashed crashed-Distinct crashed-live

busy-Distinct : Distinct busy.operations
busy-Distinct = ground arith

step-Next_example :
    (o' : Operation) × (get_row op_id 5 (step 1000 10 (λ i. world (1000 + i)) busy).db.operations
      ≡ some o')
    × DrivenOnce 1000 (λ i. world (1000 + i)) create_op o'
step-Next_example = step-Next 1000 10 (λ i. world (1000 + i)) busy 5 create_op busy-Distinct refl
