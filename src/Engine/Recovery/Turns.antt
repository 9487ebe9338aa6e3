-- ===== src/Engine/Recovery/Turns.antt =====
-- Each turn of the engine keeps a journaled create free of doubt (internal/operations/engine.go).
use fleetplane.Prelude.{
  ℕ, ◌≡◌, ◌≢◌, ◌⊎◌, inl, inr, refl, sym, subst, ◌∙◌, ap, Bool, true, false, Option, none, some,
  List, ◌==◌, if◌then◌else◌, arith, Bool-cases, Option-cases,
}
use fleetplane.Prelude.Outcome.{ok}
use fleetplane.Store.{Db, Operation, OpState, OpKind, op_eq}
use fleetplane.Store.Rows.{get_row, map_row, get_row-put_row}
use fleetplane.Store.Operations.{op_id, move, transition}
use fleetplane.Store.Operations.Journal.{LeavesState, transition-inv, move-state, op_eq→≡}
use fleetplane.Engine.Base.{Driven}
use fleetplane.Engine.Trail.{Moves, Trail, Only, Trail-Only, Trail-other}
use fleetplane.Engine.Handlers.{Settles}
use fleetplane.Engine.Recovery.{doubt, doubt-Silent, IsClear}

Trail-kind :
    {E : Moves} {id : ℕ} {ops ops' : List Operation} (o o' : Operation)
    → Trail E id ops ops'
    → get_row op_id id ops ≡ some o
    → get_row op_id id ops' ≡ some o'
    → o'.kind ≡ o.kind
unfolding move
Trail-kind o o' Trail.still g g' = ap kind_of (sym g' ∙ g)
  where
    kind_of : Option Operation → OpKind
    kind_of none = OpKind.create
    kind_of (some x) = x.kind
Trail-kind {E} {id} o o' (Trail.moved {ops} from to wall mut p e q g0 s t) g g' =
    Trail-kind (move to wall mut o) o' t
      (get_row-put_row op_id id id (move to wall mut) ops (λ _. refl) ∙ ground (arith, g)) g'

-- After a Transition to another state, an operation that is in the state `at` is another one.
pub transition-at :
    (at : OpState) (wall id : ℕ) (from to : OpState) (mut : Operation → Operation) (db : Db)
    {db' : Db} (j : ℕ) (o : Operation)
    → LeavesState mut
    → to ≢ at
    → transition wall id from to mut db ≡ ok db'
    → get_row op_id j db'.operations ≡ some o
    → o.state ≡ at
    → ((id == j) ≡ false) × (get_row op_id j db.operations ≡ some o)
unfolding move
transition-at at wall id from to mut db {db'} j o q ne h g s =
    let (p, g0, s0, same) = transition-inv wall id from to mut db h in
    let row =
      sym (get_row-put_row op_id id j (move to wall mut) db.operations (λ _. refl))
      ∙ ap (get_row op_id j) (sym (ap (λ d. d.operations) same))
      ∙ g in
    by_id (Bool-cases (id == j)) (Option-cases (get_row op_id j db.operations)) row
  where
    by_id :
        ((id == j) ≡ true) ⊎ ((id == j) ≡ false)
        → (get_row op_id j db.operations ≡ none)
          ⊎ ((r : Operation) × (get_row op_id j db.operations ≡ some r))
        → (if id == j
            then map_row (move to wall mut) (get_row op_id j db.operations)
            else get_row op_id j db.operations)
          ≡ some o
        → ((id == j) ≡ false) × (get_row op_id j db.operations ≡ some o)
    by_id (inr n) c row = (n, ground arith)
    by_id (inl y) (inl e) row = ground arith
    by_id (inl y) (inr (r, e)) row = absurd (ne (sym (move-state to wall mut r q) ∙ ground arith))

pub transition-journaled :
    (wall id : ℕ) (from to : OpState) (mut : Operation → Operation) (db : Db) {db' : Db} (j : ℕ)
    (o : Operation)
    → LeavesState mut
    → to ≢ OpState.journaled
    → transition wall id from to mut db ≡ ok db'
    → get_row op_id j db'.operations ≡ some o
    → o.state ≡ OpState.journaled
    → ((id == j) ≡ false) × (get_row op_id j db.operations ≡ some o)
transition-journaled wall id from to mut db j o q ne h g s =
    transition-at OpState.journaled wall id from to mut db j o q ne h g s

-- An operation stays in the journal.
abbrev pub IsKnown : ℕ → Db → Type 0
IsKnown j db = (o : Operation) × (get_row op_id j db.operations ≡ some o)

pub transition-IsKnown :
    (wall id : ℕ) (from to : OpState) (mut : Operation → Operation) (db : Db) {db' : Db} (j : ℕ)
    → transition wall id from to mut db ≡ ok db'
    → IsKnown j db
    → IsKnown j db'
unfolding move
transition-IsKnown wall id from to mut db {db'} j h (o, g) =
    let (p, g0, s0, same) = transition-inv wall id from to mut db h in
    let row =
      ap (λ d. get_row op_id j d.operations) same
      ∙ get_row-put_row op_id id j (move to wall mut) db.operations (λ _. refl) in
    elim (Bool-cases (id == j)) [
      | inl y ↦ (move to wall mut o, row ∙ ground (arith, g, y))
      | inr n ↦ (o, row ∙ ground (arith, g, n))
    ]

-- A handler that makes no mutation and no discovery, and enters journaled only if P.
pub Settles-IsClear :
    {P : Type 0} (op : Operation) (db : Db) (d : Driven) (j : ℕ) (b : Bool) (p : Operation)
    → Settles (Only OpState.journaled P) op db d
    → get_row op_id op.id db.operations ≡ some p
    → IsClear j db b
    → (P → (op.id == j) ≡ true → p.kind ≡ OpKind.create → b ≡ false)
    → IsClear j d.db (doubt j b d.calls)
Settles-IsClear {P} op db d j b p (trail, silent) g clear ret o' g' k s =
    doubt-Silent j b d.calls silent ∙ elim (Bool-cases (op.id == j)) [
      | inr n ↦ clear o' (sym (Trail-other j trail n) ∙ g') k s
      | inl y ↦ elim (Bool-cases (op_eq p.state OpState.journaled)) [
        | inl live ↦ clear p (here y) (kind_p y) (op_eq→≡ p.state OpState.journaled live)
        | inr dead ↦
            ret
              (Trail-Only o' trail (λ o go so. ne_of dead (ap state_or (sym g ∙ go) ∙ so)) (there y)
                s)
              y (kind_p y)
      ]
    ]
  where
    state_or : Option Operation → OpState
    state_or none = OpState.journaled
    state_or (some x) = x.state

    ne_of : {a b : OpState} → op_eq a b ≡ false → a ≢ b
    ne_of h e = ground arith

    num_eq : {a b : ℕ} → (a == b) ≡ true → a ≡ b
    num_eq h = ground arith

    here : (op.id == j) ≡ true → get_row op_id j db.operations ≡ some p
    here y = subst (λ i. get_row op_id i db.operations ≡ some p) (num_eq y) g

    there : (op.id == j) ≡ true → get_row op_id op.id d.db.operations ≡ some o'
    there y = subst (λ i. get_row op_id i d.db.operations ≡ some o') (sym (num_eq y)) g'

    kind_p : (op.id == j) ≡ true → p.kind ≡ OpKind.create
    kind_p y = sym (Trail-kind p o' trail g (there y)) ∙ k
