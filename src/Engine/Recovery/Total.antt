-- ===== src/Engine/Recovery/Total.antt =====
-- What Resume makes of a journal with distinct ids (internal/operations/engine.go).
use fleetplane.Prelude.{
  ℕ, ◌≡◌, ◌≢◌, inl, inr, refl, ◌∙◌, ap, subst, Bool, false, if◌then◌else◌, Option, none, some, List,
  [], ◌∷◌, ◌==◌, select, All, arith, Bool-cases,
}
use fleetplane.Store.{Db, Operation, OpState, terminal}
use fleetplane.Store.Rows.{get_row}
use fleetplane.Store.Resources.{is_none}
use fleetplane.Store.Operations.{op_id, move, by_creation, non_terminal}
use fleetplane.Engine.Recovery.Restart.{resume-clears, Scanned, select-Scanned, by_creation-Scanned}
use fleetplane.Engine.Drive.{resume, resume_all, resume_next}
use fleetplane.Engine.Recovery.Scan.{
  Distinct, Holds, select-All, by_creation-All, select-Distinct, by_creation-Distinct, one-total,
  keep-Holds, Distinct-Holds, interrupted, resumed, id_eq, row_is,
}

resume_all-total :
    (wall : ℕ) (ops : List Operation) (db : Db)
    → Distinct ops
    → All (Holds db.operations) ops
    → (resume_all wall ops db).1 ≡ none
unfolding resume_all
resume_all-total wall [] db h k = refl
resume_all-total wall (op ∷ ops) db h k =
    let (d, done, _, same) = one-total wall op db op.state refl k.0 in
    ap (λ m. (resume_next db (λ e. resume_all wall ops e) m).1) done
    ∙ resume_all-total wall ops d h.1 (keep-Holds op.id db d ops same h.0 k.1)

chosen :
    (x y : Operation) {r : Option Operation} {b c : Bool}
    → r ≡ some (if b then x else y)
    → b ≡ c
    → r ≡ some (if c then x else y)
chosen x y {r} q e = subst (λ b. r ≡ some (if b then x else y)) e q

resumed-idle :
    (wall : ℕ) (op : Operation) (s : OpState) → s ≢ OpState.in_flight → resumed wall op s ≡ op
resumed-idle wall op OpState.in_flight n = absurd (n refl)
resumed-idle wall op OpState.journaled n = refl
resumed-idle wall op OpState.external_accepted n = refl
resumed-idle wall op OpState.verifying n = refl
resumed-idle wall op OpState.uncertain n = refl
resumed-idle wall op OpState.succeeded n = refl
resumed-idle wall op OpState.failed n = refl
resumed-idle wall op OpState.aborted n = refl

-- The row `j` after the scan of one operation.
one-row :
    (wall j : ℕ) (op o : Operation) (db d : Db)
    → Holds db.operations op
    → get_row op_id op.id d.operations ≡ some (resumed wall op op.state)
    → ((i : ℕ)
        → (op.id == i) ≡ false
        → get_row op_id i d.operations ≡ get_row op_id i db.operations)
    → get_row op_id j db.operations ≡ some o
    → get_row op_id j d.operations ≡ some (if op.id == j then resumed wall o o.state else o)
one-row wall j op o db d k at same g = elim (Bool-cases (op.id == j)) [
  | inl y ↦ rw y (
      subst (λ x. get_row op_id j d.operations ≡ some (resumed wall x x.state))
        (row_is j op o db.operations y k g)
        (subst (λ i. get_row op_id i d.operations ≡ some (resumed wall op op.state)) (id_eq y) at))
  | inr n ↦ rw n (same j n ∙ g)
]

module _ (wall j : ℕ) where
  resume_all-idle :
      (ops : List Operation) (db : Db) (o : Operation)
      → Distinct ops
      → All (Holds db.operations) ops
      → get_row op_id j db.operations ≡ some o
      → o.state ≢ OpState.in_flight
      → get_row op_id j (resume_all wall ops db).0.operations ≡ some o
  unfolding resume_all
  resume_all-idle [] db o h k g n = g
  resume_all-idle (op ∷ ops) db o h k g n =
      let (d, done, at, same) = one-total wall op db op.state refl k.0 in
      let there = one-row wall j op o db d k.0 at same g in
      let kept : get_row op_id j d.operations ≡ some o = elim (Bool-cases (op.id == j)) [
        | inl y ↦
            chosen (resumed wall o o.state) o there y ∙ ap some (resumed-idle wall o o.state n)
        | inr f ↦ chosen (resumed wall o o.state) o there f
      ] in
      ap (λ m. get_row op_id j (resume_next db (λ e. resume_all wall ops e) m).0.operations) done
      ∙ resume_all-idle ops d o h.1 (keep-Holds op.id db d ops same h.0 k.1) kept n

  resume_all-sent :
      (ops : List Operation) (db : Db) (o : Operation)
      → Distinct ops
      → All (Holds db.operations) ops
      → get_row op_id j db.operations ≡ some o
      → o.state ≡ OpState.in_flight
      → Scanned j ops
      → get_row op_id j (resume_all wall ops db).0.operations ≡ some (interrupted wall o)
  unfolding resume_all move
  resume_all-sent [] db o h k g s c = absurd c
  resume_all-sent (op ∷ ops) db o h k g s c =
      let (d, done, at, same) = one-total wall op db op.state refl k.0 in
      let there = one-row wall j op o db d k.0 at same g in
      let held = keep-Holds op.id db d ops same h.0 k.1 in
      ap (λ m. get_row op_id j (resume_next db (λ e. resume_all wall ops e) m).0.operations) done
      ∙ elim (Bool-cases (op.id == j)) [
        | inl y ↦
            resume_all-idle ops d (interrupted wall o) h.1 held
              (chosen (resumed wall o o.state) o there y ∙ ap (λ x. some (resumed wall o x)) s)
              (λ q. ground arith)
        | inr n ↦
            resume_all-sent ops d o h.1 held (chosen (resumed wall o o.state) o there n) s
              (ground (arith, n, c))
      ]

resume-none : (wall : ℕ) (db : Db) → Distinct db.operations → (resume wall db).1 ≡ none
unfolding resume non_terminal
resume-none wall db h =
    let open_ops = select (λ o. is_none o.terminal_at) db.operations in
    resume_all-total wall (by_creation open_ops) db
      (by_creation-Distinct open_ops (select-Distinct (λ o. is_none o.terminal_at) db.operations h))
      (by_creation-All (Holds db.operations) open_ops (
        select-All (Holds db.operations) (λ o. is_none o.terminal_at) db.operations
          (Distinct-Holds db.operations h)))

resume-rows :
    (wall : ℕ) (db : Db) (j : ℕ) (o : Operation)
    → Distinct db.operations
    → get_row op_id j db.operations ≡ some o
    → ((o.state ≡ OpState.in_flight → o.terminal_at ≡ none)
        → o.state ≡ OpState.in_flight
        → get_row op_id j (resume wall db).0.operations ≡ some (interrupted wall o))
      × (o.state ≢ OpState.in_flight → get_row op_id j (resume wall db).0.operations ≡ some o)
unfolding resume non_terminal
resume-rows wall db j o h g =
    let open_ops = select (λ x. is_none x.terminal_at) db.operations in
    let apart =
      by_creation-Distinct open_ops
        (select-Distinct (λ x. is_none x.terminal_at) db.operations h) in
    let held = by_creation-All (Holds db.operations) open_ops (
      select-All (Holds db.operations) (λ x. is_none x.terminal_at) db.operations
        (Distinct-Holds db.operations h)) in
    (
      λ live s.
          resume_all-sent wall j (by_creation open_ops) db o apart held g s
            (by_creation-Scanned j open_ops (select-Scanned j db.operations o g s (live s))),
      λ n. resume_all-idle wall j (by_creation open_ops) db o apart held g n,
    )

-- The operation `o` as Resume leaves it when it was in flight: in verification, due at once, and in
-- all else the same.
abbrev pub IsResumed : ℕ → Operation → Operation → Type 0
IsResumed wall o o' =
    o' ≡ record o { state = OpState.verifying; next_attempt_at = none; updated_at = wall }

-- A restart completes its scan and leaves no operation in flight: every dispatch that a crash
-- interrupted is in verification, due at once and otherwise unchanged, and never back to be sent
-- again; every other operation is as it was. The operations have distinct ids, and those in flight
-- are not stamped terminal.
pub resume-total :
    (wall : ℕ) (db : Db)
    → Distinct db.operations
    → ((j : ℕ) (o : Operation)
        → get_row op_id j db.operations ≡ some o
        → o.state ≡ OpState.in_flight
        → o.terminal_at ≡ none)
    → ((resume wall db).1 ≡ none)
      × ((j : ℕ) (o : Operation)
          → get_row op_id j (resume wall db).0.operations ≡ some o
          → o.state ≢ OpState.in_flight)
      × ((j : ℕ) (o : Operation)
          → get_row op_id j db.operations ≡ some o
          → o.state ≡ OpState.in_flight
          → (o' : Operation) × (get_row op_id j (resume wall db).0.operations ≡ some o')
            × IsResumed wall o o')
      × ((j : ℕ) (o : Operation)
          → get_row op_id j db.operations ≡ some o
          → o.state ≢ OpState.in_flight
          → get_row op_id j (resume wall db).0.operations ≡ some o)
unfolding move terminal
resume-total wall db h live = (
  resume-none wall db h,
  resume-clears wall db live (resume-none wall db h),
  λ j o g s. (interrupted wall o, (resume-rows wall db j o h g).0 (λ q. live j o g q) s, refl),
  λ j o g n. (resume-rows wall db j o h g).1 n,
)
