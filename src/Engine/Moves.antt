-- ===== src/Engine/Moves.antt =====
-- The moves of the operation state machine in one step of the engine (internal/operations/engine.go,
-- Step and drive; internal/storage/types.go, OpState).
use fleetplane.Prelude.{
  ℕ, zero, suc, ◌≡◌, ◌⊎◌, inl, inr, refl, sym, subst, ◌∙◌, Bool, true, some, List, [], ◌∷◌, ◌==◌,
  take, select, All, arith, Bool-cases,
}
use fleetplane.Store.{Db, Operation, OpState}
use fleetplane.Store.Rows.{get_row}
use fleetplane.Store.Operations.{op_id, is_due, by_creation, due}
use fleetplane.Engine.Base.{World, driver_and_action, is_create, is_delete, is_park_op}
use fleetplane.Engine.Trail.{Edge, Moves, Trail, Trail-other, Trail-keeps}
use fleetplane.Engine.Handlers.{Leaves}
use fleetplane.Engine.Progress.{dispatch-Leaves}
use fleetplane.Engine.Polling.{poll-Settles}
use fleetplane.Engine.Observing.{verify-Leaves}
use fleetplane.Engine.Dispatch.{dispatch}
use fleetplane.Engine.Poll.{poll}
use fleetplane.Engine.Verify.{verify, proves_absent}
use fleetplane.Engine.Drive.{by_state, drive, drive_all, step}
use fleetplane.Engine.Recovery.Scan.{
  Apart, Distinct, Holds, Distinct-Holds, select-All, by_creation-All, select-Distinct,
  by_creation-Distinct, keep-Holds, id_eq, row_is,
}

-- Why an operation in verification may be sent again: a stop, a start or a delete can be repeated,
-- and of a create the discovery found nothing until its deadline.
abbrev pub MayResend : World → Operation → Type 0
MayResend w op =
    (is_park_op op.kind ≡ true)
    ⊎ (is_delete op.kind ≡ true)
    ⊎ (proves_absent w op (w.discover op.id) ≡ true)

-- The states in which one drive may leave the operation, by the state in which it found it.
pub data Next (w : World) (op : Operation) : OpState → Type 0 where
  unmoved : (t : OpState) → t ≡ op.state → Next w op t
  sent : op.state ≡ OpState.journaled → Next w op OpState.in_flight
  accepted : op.state ≡ OpState.journaled → Next w op OpState.external_accepted
  in_doubt : op.state ≡ OpState.journaled → Next w op OpState.verifying
  gone : op.state ≡ OpState.journaled → is_delete op.kind ≡ true → Next w op OpState.succeeded
  refused : op.state ≡ OpState.journaled → Next w op OpState.failed
  finished : op.state ≡ OpState.external_accepted → Next w op OpState.succeeded
  reported_failed : op.state ≡ OpState.external_accepted → Next w op OpState.failed
  vanished :
      op.state ≡ OpState.external_accepted → is_create op.kind ≡ true → Next w op OpState.verifying
  found : op.state ≡ OpState.verifying → Next w op OpState.external_accepted
  absent : op.state ≡ OpState.verifying → MayResend w op → Next w op OpState.journaled
  deleted : op.state ≡ OpState.verifying → is_delete op.kind ≡ true → Next w op OpState.succeeded
  frozen : op.state ≡ OpState.verifying → Next w op OpState.uncertain
  verify_failed : op.state ≡ OpState.verifying → Next w op OpState.failed

-- The transitions that keep to them.
abbrev Keeps : World → Operation → Moves
Keeps w op a b = Next w op a → Next w op b

after_sending :
    (w : World) (op : Operation)
    → op.state ≡ OpState.journaled
    → (t : OpState) → Edge OpState.in_flight t
    → (t ≡ OpState.succeeded → is_delete op.kind ≡ true)
    → Next w op t
after_sending w op s t Edge.accepted k = accepted s
after_sending w op s t Edge.in_doubt k = in_doubt s
after_sending w op s t Edge.not_reached k = unmoved _ (sym s)
after_sending w op s t Edge.gone k = gone s (k refl)
after_sending w op s t Edge.refused k = refused s

after_polling :
    (w : World) (op : Operation)
    → op.state ≡ OpState.external_accepted
    → (t : OpState) → Edge OpState.external_accepted t
    → (t ≡ OpState.verifying → is_create op.kind ≡ true)
    → Next w op t
after_polling w op s t Edge.finished k = finished s
after_polling w op s t Edge.reported_failed k = reported_failed s
after_polling w op s t Edge.vanished k = vanished s (k refl)
after_polling w op s t Edge.rescheduled_accepted k = unmoved _ (sym s)

after_verifying :
    (w : World) (op : Operation)
    → op.state ≡ OpState.verifying
    → (t : OpState) → Edge OpState.verifying t
    → (t ≡ OpState.journaled → MayResend w op)
    → (t ≡ OpState.succeeded → is_delete op.kind ≡ true)
    → Next w op t
after_verifying w op s t Edge.found r k = found s
after_verifying w op s t Edge.absent r k = absent s (r refl)
after_verifying w op s t Edge.deleted r k = deleted s (k refl)
after_verifying w op s t Edge.frozen r k = frozen s
after_verifying w op s t Edge.verify_failed r k = verify_failed s
after_verifying w op s t Edge.rescheduled_verifying r k = unmoved _ (sym s)

by_state-Keeps :
    (w : World) (op : Operation) (db : Db) (s : OpState)
    → op.state ≡ s
    → Leaves (Keeps w op) op db (by_state w op db s)
unfolding dispatch poll verify
by_state-Keeps w op db OpState.journaled e =
    dispatch-Leaves (Keeps w op) w op (λ _. refused e) (λ _. sent e)
      (λ t x _ k _. after_sending w op e t x k) (λ _. unmoved _ (sym e)) db
      (driver_and_action w op db)
by_state-Keeps w op db OpState.external_accepted e =
    (poll-Settles (Keeps w op) w op (λ t x k _. after_polling w op e t x k) e db
      (driver_and_action w op db)).0
by_state-Keeps w op db OpState.verifying e =
    verify-Leaves (Keeps w op) w op (λ t x n k _. after_verifying w op e t x (λ q. absurd (n q)) k)
      (λ r _. absent e r) e db (driver_and_action w op db)
by_state-Keeps w op db OpState.in_flight e = Trail.still
by_state-Keeps w op db OpState.uncertain e = Trail.still
by_state-Keeps w op db OpState.succeeded e = Trail.still
by_state-Keeps w op db OpState.failed e = Trail.still
by_state-Keeps w op db OpState.aborted e = Trail.still

drive-Keeps : (w : World) (op : Operation) (db : Db) → Leaves (Keeps w op) op db (drive w op db)
unfolding drive
drive-Keeps w op db = by_state-Keeps w op db op.state refl

drive-Next :
    (w : World) (op : Operation) (db : Db)
    → Holds db.operations op
    → (o' : Operation) × (get_row op_id op.id (drive w op db).db.operations ≡ some o')
      × Next w op o'.state
drive-Next w op db g = Trail-keeps (Next w op) op (drive-Keeps w op db) g (unmoved _ refl)

drive_all-Apart :
    (w : ℕ → World) (j : ℕ) (ops : List Operation) (db : Db)
    → All (Apart j) ops
    → get_row op_id j (drive_all w ops db).db.operations ≡ get_row op_id j db.operations
unfolding drive_all
drive_all-Apart w j [] db h = refl
drive_all-Apart w j (op ∷ ops) db h =
    drive_all-Apart w j ops (drive (w op.id) op db).db h.1
    ∙ Trail-other j (drive-Keeps (w op.id) op db) (ground (arith, h.0))

-- An operation is left as it was, or it was due and is where one drive of it may leave it.
abbrev pub DrivenOnce : ℕ → (ℕ → World) → Operation → Operation → Type 0
DrivenOnce now w o o' = (o' ≡ o) ⊎ ((is_due now o ≡ true) × Next (w o.id) o o'.state)

abbrev Due : ℕ → Operation → Type 0
Due now x = is_due now x ≡ true

drive_all-Next :
    (now : ℕ) (w : ℕ → World) (j : ℕ) (ops : List Operation) (db : Db) (o : Operation)
    → Distinct ops
    → All (Holds db.operations) ops
    → All (Due now) ops
    → get_row op_id j db.operations ≡ some o
    → (o' : Operation) × (get_row op_id j (drive_all w ops db).db.operations ≡ some o')
      × DrivenOnce now w o o'
unfolding drive_all
drive_all-Next now w j [] db o h k d g = (o, g, inl refl)
drive_all-Next now w j (op ∷ ops) db o h k d g =
    let db1 = (drive (w op.id) op db).db in
    elim (Bool-cases (op.id == j)) [
      | inl y ↦
          let (o1, g1, n1) = drive-Next (w op.id) op db k.0 in
          let rest = drive_all-Apart w op.id ops db1 h.0 in
          (
            o1,
            subst (λ i. get_row op_id i (drive_all w ops db1).db.operations ≡ some o1) (id_eq y)
                (rest ∙ g1),
            inr (
                subst (λ x. (is_due now x ≡ true) × Next (w x.id) x o1.state)
                  (row_is j op o db.operations y k.0 g) (d.0, n1)),
          )
      | inr n ↦
          drive_all-Next now w j ops db1 o h.1
            (keep-Holds op.id db db1 ops (λ i. Trail-other i (drive-Keeps (w op.id) op db)) h.0 k.1)
            d.1 (Trail-other j (drive-Keeps (w op.id) op db) n ∙ g)
    ]

take-All : (P : Operation → Type 0) (n : ℕ) (ops : List Operation) → All P ops → All P (take n ops)
take-All P zero ops h = tt
take-All P (suc n) [] h = tt
take-All P (suc n) (o ∷ os) h = (h.0, take-All P n os h.1)

take-Distinct : (n : ℕ) (ops : List Operation) → Distinct ops → Distinct (take n ops)
take-Distinct zero ops h = tt
take-Distinct (suc n) [] h = tt
take-Distinct (suc n) (o ∷ os) h = (take-All (Apart o.id) n os h.0, take-Distinct n os h.1)

selected : (p : Operation → Bool) (ops : List Operation) → All (λ o. p o ≡ true) (select p ops)
selected p [] = tt
selected p (o ∷ os) = elim (Bool-cases (p o)) [
  | inl y ↦ ground (arith, y, selected p os)
  | inr n ↦ ground (arith, n, selected p os)
]

-- In a step of the engine, whatever the providers answer, an operation that is not due is left as
-- it is, and one that is due is driven at most once. A journaled operation ends journaled, in
-- flight, accepted, in verification or failed, and succeeded only if it is a delete; an accepted one
-- stays, succeeds or fails, and goes to verification only if it is a create; one in verification
-- stays, is accepted, frozen or failed, succeeds only if it is a delete, and is sent again only if
-- it may be repeated or is proved absent. No other operation moves. The ids are distinct.
pub step-Next :
    (now max_batch : ℕ) (w : ℕ → World) (db : Db) (j : ℕ) (o : Operation)
    → Distinct db.operations
    → get_row op_id j db.operations ≡ some o
    → (o' : Operation) × (get_row op_id j (step now max_batch w db).db.operations ≡ some o')
      × DrivenOnce now w o o'
unfolding step due
step-Next now max_batch w db j o apart g =
    let ready = select (is_due now) db.operations in
    let sorted = by_creation ready in
    drive_all-Next now w j (take max_batch sorted) db o
      (take-Distinct max_batch sorted
        (by_creation-Distinct ready (select-Distinct (is_due now) db.operations apart)))
      (take-All (Holds db.operations) max_batch sorted (
        by_creation-All (Holds db.operations) ready (
          select-All (Holds db.operations) (is_due now) db.operations
            (Distinct-Holds db.operations apart))))
      (take-All (Due now) max_batch sorted
        (by_creation-All (Due now) ready (selected (is_due now) db.operations)))
      g
