-- ===== src/Engine/Recovery.antt =====
-- Crash recovery of the engine (internal/operations/engine.go, the protocol of its package comment):
-- its turns, interrupted ones included, and what the log of provider calls says of a create.
pub mod Turns
pub mod Reasons
pub mod Creates
pub mod Runs
pub mod Mutations
pub mod Restart
pub mod Scan
pub mod Total
use fleetplane.Prelude.{
  ℕ, ◌≡◌, ◌≢◌, ◌⊎◌, inl, inr, refl, sym, subst, ◌∙◌, ap, Bool, true, false, not, ◌&&◌, Option, none,
  some, List, [], ◌∷◌, ◌++◌, ◌==◌, if◌then◌else◌, arith, Bool-cases, Option-cases, All,
}
use fleetplane.Prelude.Outcome.{Outcome, Error, ok, err, ◌>>=◌}
use fleetplane.Provider.{Action}
use fleetplane.Store.{Db, Operation, OpState, OpKind, op_eq}
use fleetplane.Store.Rows.{get_row}
use fleetplane.Store.Operations
use fleetplane.Store.Operations.{op_id}
use fleetplane.Store.Operations.Journal.{transition-inv, op_eq→≡}
use fleetplane.Engine.Base.{
  World, Driven, commit, Reply, answered, failed, Call, applied, discovered, observed, fetched,
  notified, driver_and_action, quiet, is_delete, is_park_op, giving_up, fail_op,
}
use fleetplane.Engine.Trail.{Edge, Trail, Only, Trail-Only, Trail-other}
use fleetplane.Engine.Handlers.{Leaves, Settles, Silent, reads}
use fleetplane.Engine.Safety.{drive-Leaves}
use fleetplane.Engine.Drive.{
  drive, by_state, resume, resume_all, resume_one, ResolveAction, resolve,
}
use fleetplane.Engine.Dispatch.{tx_b}

-- What happens to the database between two turns, and the provider calls made meanwhile.
pub data Turn : Db → List Call → Db → Type 0 where
  -- An operation is driven as it stands in the journal.
  drives :
      (w : World) (op : Operation) (db : Db)
      → get_row op_id op.id db.operations ≡ some op
      → Turn db (drive w op db).calls (drive w op db).db
  -- The process dies after TxB, before Apply.
  dies_before_apply :
      (w : World) (op : Operation) (db db1 : Db) → tx_b w op db ≡ ok db1 → Turn db [] db1
  -- The process dies with Apply made and its answer lost.
  dies_after_apply :
      (w : World) (op : Operation) (db db1 : Db)
      → tx_b w op db ≡ ok db1
      → Turn db (applied op.id false ∷ []) db1
  -- A restart.
  resumes : (wall : ℕ) (db : Db) → Turn db [] (resume wall db).0
  -- A client resolves a frozen operation; a request journals a new one.
  resolves :
      (w : World) (id : ℕ) (a : ResolveAction) (db : Db)
      → Turn db [] (commit db (resolve w id a db))
  journals : (op : Operation) (db db1 : Db) → Operations.append op db ≡ ok db1 → Turn db [] db1

pub data Run (start : Db) : List Call → Db → Type 0 where
  begins : Run start [] start
  then_turn :
      {log calls : List Call} {db db1 : Db}
      → Run start log db
      → Turn db calls db1
      → Run start (log ++ calls) db1

-- Whether the provider may hold an object of the operation that the engine does not know of, by
-- the log: a mutation raises the doubt unless its answer proves that nothing happened; a discovery
-- that finds nothing after the verification window settles it.
abbrev pub doubt : ℕ → Bool → List Call → Bool
doubt id b [] = b
doubt id b (applied j clean ∷ cs) = doubt id (if j == id then not clean else b) cs
doubt id b (discovered j absent ∷ cs) = doubt id (if j == id && absent then false else b) cs
doubt id b (observed j ∷ cs) = doubt id b cs
doubt id b (fetched j ∷ cs) = doubt id b cs
doubt id b (notified j ∷ cs) = doubt id b cs

pub doubt-++ :
    (id : ℕ) (xs ys : List Call) (b : Bool) → doubt id b (xs ++ ys) ≡ doubt id (doubt id b xs) ys
doubt-++ id [] ys b = refl
doubt-++ id (applied j clean ∷ cs) ys b = doubt-++ id cs ys _
doubt-++ id (discovered j absent ∷ cs) ys b = doubt-++ id cs ys _
doubt-++ id (observed j ∷ cs) ys b = doubt-++ id cs ys b
doubt-++ id (fetched j ∷ cs) ys b = doubt-++ id cs ys b
doubt-++ id (notified j ∷ cs) ys b = doubt-++ id cs ys b

pub doubt-Silent : (id : ℕ) (b : Bool) (cs : List Call) → Silent cs → doubt id b cs ≡ b
doubt-Silent id b [] h = refl
doubt-Silent id b (applied j clean ∷ cs) h = ground (arith, h.0)
doubt-Silent id b (discovered j absent ∷ cs) h = ground (arith, h.0)
doubt-Silent id b (observed j ∷ cs) h = doubt-Silent id b cs h.1
doubt-Silent id b (fetched j ∷ cs) h = doubt-Silent id b cs h.1
doubt-Silent id b (notified j ∷ cs) h = doubt-Silent id b cs h.1

-- A create that is journaled is in no doubt.
abbrev pub IsClear : ℕ → Db → Bool → Type 0
IsClear id db b =
    (o : Operation)
    → get_row op_id id db.operations ≡ some o
    → o.kind ≡ OpKind.create
    → o.state ≡ OpState.journaled
    → b ≡ false
