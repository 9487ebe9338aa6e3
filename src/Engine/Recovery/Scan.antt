-- ===== src/Engine/Recovery/Scan.antt =====
-- The scan of Resume over a journal with distinct ids, and its step on one operation
-- (internal/operations/engine.go).
use fleetplane.Prelude.{
  ℕ, ◌≡◌, inl, inr, refl, ◌∙◌, subst, Bool, true, false, none, some, List, [], ◌∷◌, ◌==◌, leb,
  select, All, arith, Bool-cases,
}
use fleetplane.Prelude.Outcome.{ok}
use fleetplane.Store.{Db, Operation, OpState}
use fleetplane.Store.Rows.{get_row, put_row, get_row-put_row}
use fleetplane.Store.Operations.{op_id, transition, move, by_creation, insert_by_creation}
use fleetplane.Engine.Drive.{resume_one}

-- The ids of the operations are distinct.
abbrev pub Apart : ℕ → Operation → Type 0
Apart i o = (i == o.id) ≡ false

abbrev pub Distinct : List Operation → Type 0
Distinct [] = Unit
Distinct (o ∷ os) = All (Apart o.id) os × Distinct os

module _ (P : Operation → Type 0) where
  pub select-All : (p : Operation → Bool) (ops : List Operation) → All P ops → All P (select p ops)
  select-All p [] h = tt
  select-All p (o ∷ os) h = elim (Bool-cases (p o)) [
    | inl y ↦ ground (arith, y, h.0, select-All p os h.1)
    | inr n ↦ ground (arith, n, select-All p os h.1)
  ]

  insert-All :
      (o : Operation) (ops : List Operation) → P o → All P ops → All P (insert_by_creation o ops)
  insert-All o [] h k = (h, tt)
  insert-All o (p ∷ ps) h k = elim (Bool-cases (leb o.created_at p.created_at)) [
    | inl y ↦ ground (arith, y, h, k.0, k.1)
    | inr n ↦ ground (arith, n, k.0, insert-All o ps h k.1)
  ]

  pub by_creation-All : (ops : List Operation) → All P ops → All P (by_creation ops)
  unfolding by_creation
  by_creation-All [] h = tt
  by_creation-All (o ∷ os) h = insert-All o (by_creation os) h.0 (by_creation-All os h.1)

pub select-Distinct :
    (p : Operation → Bool) (ops : List Operation) → Distinct ops → Distinct (select p ops)
select-Distinct p [] h = tt
select-Distinct p (o ∷ os) h = elim (Bool-cases (p o)) [
  | inl y ↦ ground (arith, y, select-All (Apart o.id) p os h.0, select-Distinct p os h.1)
  | inr n ↦ ground (arith, n, select-Distinct p os h.1)
]

pub Apart-sym : (o p : Operation) → Apart o.id p → Apart p.id o
Apart-sym o p h = ground arith

insert-Distinct :
    (o : Operation) (ops : List Operation)
    → All (Apart o.id) ops
    → Distinct ops
    → Distinct (insert_by_creation o ops)
insert-Distinct o [] h k = (tt, tt)
insert-Distinct o (p ∷ ps) h k = elim (Bool-cases (leb o.created_at p.created_at)) [
  | inl y ↦ ground (arith, y, h.0, h.1, k.0, k.1)
  | inr n ↦
      ground (
        arith,
        n,
        insert-All (Apart p.id) o ps (Apart-sym o p h.0) k.0,
        insert-Distinct o ps h.1 k.1,
      )
]

pub by_creation-Distinct : (ops : List Operation) → Distinct ops → Distinct (by_creation ops)
unfolding by_creation
by_creation-Distinct [] h = tt
by_creation-Distinct (o ∷ os) h =
    insert-Distinct o (by_creation os) (by_creation-All (Apart o.id) os h.0)
      (by_creation-Distinct os h.1)

abbrev pub Holds : List Operation → Operation → Type 0
Holds ops op = get_row op_id op.id ops ≡ some op

weaken-Holds :
    (o : Operation) (ops xs : List Operation)
    → All (Apart o.id) xs
    → All (Holds ops) xs
    → All (Holds (o ∷ ops)) xs
weaken-Holds o ops [] h k = tt
weaken-Holds o ops (x ∷ xs) h k = (ground (arith, h.0, k.0), weaken-Holds o ops xs h.1 k.1)

pub Distinct-Holds : (ops : List Operation) → Distinct ops → All (Holds ops) ops
Distinct-Holds [] h = tt
Distinct-Holds (o ∷ os) h = (ground arith, weaken-Holds o os os h.0 (Distinct-Holds os h.1))

abbrev pub interrupted : ℕ → Operation → Operation
interrupted wall = move OpState.verifying wall (λ o. record o { next_attempt_at = none })

-- The row of the scanned operation afterwards.
abbrev pub resumed : ℕ → Operation → OpState → Operation
resumed wall op OpState.in_flight = interrupted wall op
resumed wall op _ = op

pub one-total :
    (wall : ℕ) (op : Operation) (db : Db) (s : OpState)
    → op.state ≡ s
    → get_row op_id op.id db.operations ≡ some op
    → (d : Db) × (resume_one wall op db s ≡ ok d)
      × (get_row op_id op.id d.operations ≡ some (resumed wall op s))
      × ((j : ℕ)
          → (op.id == j) ≡ false
          → get_row op_id j d.operations ≡ get_row op_id j db.operations)
unfolding transition move
one-total wall op db OpState.in_flight e g = (
  record db { operations = put_row op_id op.id (interrupted wall) db.operations },
  ground (arith, g, e),
  get_row-put_row op_id op.id op.id (interrupted wall) db.operations (λ _. refl)
      ∙ ground (arith, g),
  λ j apart.
      get_row-put_row op_id op.id j (interrupted wall) db.operations (λ _. refl)
      ∙ ground (arith, apart),
)
one-total wall op db OpState.journaled e g = (db, refl, g, λ j _. refl)
one-total wall op db OpState.external_accepted e g = (db, refl, g, λ j _. refl)
one-total wall op db OpState.verifying e g = (db, refl, g, λ j _. refl)
one-total wall op db OpState.uncertain e g = (db, refl, g, λ j _. refl)
one-total wall op db OpState.succeeded e g = (db, refl, g, λ j _. refl)
one-total wall op db OpState.failed e g = (db, refl, g, λ j _. refl)
one-total wall op db OpState.aborted e g = (db, refl, g, λ j _. refl)

pub keep-Holds :
    (i : ℕ) (db d : Db) (xs : List Operation)
    → ((j : ℕ) → (i == j) ≡ false → get_row op_id j d.operations ≡ get_row op_id j db.operations)
    → All (Apart i) xs
    → All (Holds db.operations) xs
    → All (Holds d.operations) xs
keep-Holds i db d [] same h k = tt
keep-Holds i db d (x ∷ xs) same h k = (same x.id h.0 ∙ k.0, keep-Holds i db d xs same h.1 k.1)

pub id_eq : {a b : ℕ} → (a == b) ≡ true → a ≡ b
id_eq e = ground arith

-- A row that a list of the rows names is the row of its id.
pub row_is :
    (j : ℕ) (op o : Operation) (ops : List Operation)
    → (op.id == j) ≡ true
    → Holds ops op
    → get_row op_id j ops ≡ some o
    → op ≡ o
row_is j op o ops same g h =
    ground (arith, subst (λ i. get_row op_id i ops ≡ some op) (id_eq same) g)
