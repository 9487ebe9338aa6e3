-- ===== src/Engine/Recovery/Restart.antt =====
-- A restart leaves no operation in flight (internal/operations/engine.go, Resume).
use fleetplane.Prelude.{ℕ, ◌≡◌, ◌≢◌, ◌⊎◌, inl, inr, refl, none, some, List, [], ◌∷◌, select, arith}
use fleetplane.Prelude.Outcome.{Outcome, ok, err}
use fleetplane.Store.{Db, Operation, OpState}
use fleetplane.Store.Rows.{get_row}
use fleetplane.Store.Resources.{is_none}
use fleetplane.Store.Operations.{op_id, by_creation, insert_by_creation, non_terminal}
use fleetplane.Engine.Drive.{resume, resume_all, resume_one, resume_next}
use fleetplane.Engine.Recovery.Turns.{transition-at}

-- An operation with the id `j` that is in flight is in the list.
abbrev pub Scanned : ℕ → List Operation → Type 0
Scanned j [] = ⊥
Scanned j (op ∷ ops) = ((op.id ≡ j) × (op.state ≡ OpState.in_flight)) ⊎ Scanned j ops

pub select-Scanned :
    (j : ℕ) (ops : List Operation) (o : Operation)
    → get_row op_id j ops ≡ some o
    → o.state ≡ OpState.in_flight
    → o.terminal_at ≡ none
    → Scanned j (select (λ p. is_none p.terminal_at) ops)
select-Scanned j [] o g s t = ground arith
select-Scanned j (op ∷ ops) o g s t = ground (arith, select-Scanned j ops o)

insert-Scanned :
    (j : ℕ) (o : Operation) (ops : List Operation)
    → Scanned j (o ∷ ops)
    → Scanned j (insert_by_creation o ops)
insert-Scanned j o [] h = h
insert-Scanned j o (p ∷ ps) h = ground (arith, insert-Scanned j o ps)

pub by_creation-Scanned :
    (j : ℕ) (ops : List Operation) → Scanned j ops → Scanned j (by_creation ops)
unfolding by_creation
by_creation-Scanned j [] h = h
by_creation-Scanned j (o ∷ ops) (inl h) = insert-Scanned j o (by_creation ops) (inl h)
by_creation-Scanned j (o ∷ ops) (inr h) =
    insert-Scanned j o (by_creation ops) (inr (by_creation-Scanned j ops h))

-- The operations in flight are among those still to be scanned.
abbrev Covers : List Operation → Db → Type 0
Covers ops db =
    (j : ℕ) (o : Operation)
    → get_row op_id j db.operations ≡ some o
    → o.state ≡ OpState.in_flight
    → Scanned j ops

skip_one :
    (wall : ℕ) (op : Operation) (ops : List Operation) (db : Db) (s : OpState) {d : Db}
    → op.state ≡ s
    → resume_one wall op db s ≡ ok d
    → Covers (op ∷ ops) db
    → Covers ops d
skip_one wall op ops db OpState.in_flight {d} e h c j o g k =
    let (apart, before) =
      transition-at OpState.in_flight wall op.id OpState.in_flight OpState.verifying _ db {db' = d}
        j o (λ x. (refl, refl)) (λ q. ground arith) h g k in
    ground (arith, c j o before k, apart)
skip_one wall op ops db OpState.journaled e h c j o g k = ground (arith, c j o)
skip_one wall op ops db OpState.external_accepted e h c j o g k = ground (arith, c j o)
skip_one wall op ops db OpState.verifying e h c j o g k = ground (arith, c j o)
skip_one wall op ops db OpState.uncertain e h c j o g k = ground (arith, c j o)
skip_one wall op ops db OpState.succeeded e h c j o g k = ground (arith, c j o)
skip_one wall op ops db OpState.failed e h c j o g k = ground (arith, c j o)
skip_one wall op ops db OpState.aborted e h c j o g k = ground (arith, c j o)

NoneInFlight : Db → Type 0
NoneInFlight db =
    (j : ℕ) (o : Operation) → get_row op_id j db.operations ≡ some o → o.state ≢ OpState.in_flight

next-clears :
    (wall : ℕ) (op : Operation) (ops : List Operation) (db : Db) (m : Outcome Db)
    → resume_one wall op db op.state ≡ m
    → Covers (op ∷ ops) db
    → (resume_next db (λ d. resume_all wall ops d) m).1 ≡ none
    → ((d : Db)
        → Covers ops d
        → (resume_all wall ops d).1 ≡ none
        → NoneInFlight (resume_all wall ops d).0)
    → NoneInFlight (resume_next db (λ d. resume_all wall ops d) m).0
next-clears wall op ops db (err e) eq c none_left rest = ground arith
next-clears wall op ops db (ok d) eq c none_left rest =
    rest d (skip_one wall op ops db op.state refl eq c) none_left

resume_all-clears :
    (wall : ℕ) (ops : List Operation) (db : Db)
    → Covers ops db
    → (resume_all wall ops db).1 ≡ none
    → NoneInFlight (resume_all wall ops db).0
unfolding resume_all NoneInFlight
resume_all-clears wall [] db c h = λ j o g k. absurd (c j o g k)
resume_all-clears wall (op ∷ ops) db c h =
    next-clears wall op ops db (resume_one wall op db op.state) refl c h
      (λ d e f. resume_all-clears wall ops d e f)

-- A Resume that reports no error leaves no operation in flight. The operations in flight before are
-- not stamped terminal.
pub resume-clears :
    (wall : ℕ) (db : Db)
    → ((j : ℕ) (o : Operation)
        → get_row op_id j db.operations ≡ some o
        → o.state ≡ OpState.in_flight
        → o.terminal_at ≡ none)
    → (resume wall db).1 ≡ none
    → (j : ℕ) (o : Operation) → get_row op_id j (resume wall db).0.operations ≡ some o
    → o.state ≢ OpState.in_flight
unfolding resume non_terminal NoneInFlight
resume-clears wall db live h =
    resume_all-clears wall (non_terminal db) db
      (λ j o g s.
        by_creation-Scanned j (select (λ p. is_none p.terminal_at) db.operations)
          (select-Scanned j db.operations o g s (live j o g s)))
      h
