-- ===== src/Store/Operations/Journal.antt =====
-- The journal's compare-and-set (internal/storage/sqlite/operations.go, Transition and Append):
-- what a success tells, what stays unchanged, and the two rules that the indexes keep.
use fleetplane.Prelude.{ℕ, ◌≤◌, ◌≡◌, inl, inr, true, false, not, some, List, arith, Option-cases}
use fleetplane.Prelude.Outcome.{ok}
use fleetplane.Store.{Db, Operation, OpState, op_eq, terminal}
use fleetplane.Store.Rows.{get_row, put_row, count_where, one_if, count_where-put_row}
use fleetplane.Store.Resources.{is_none}
use fleetplane.Store.Operations.{op_id, open_on, move, transition, append, staged}

-- `==` on operation states decides equality.
pub op_eq→≡ : (a b : OpState) → op_eq a b ≡ true → a ≡ b
op_eq→≡ a b h = ground arith

-- What a successful Transition tells: the row was in the expected state, and the database is as it
-- was but for that row.
pub transition-inv :
    (wall id : ℕ) (from to : OpState) (mut : Operation → Operation) (db : Db) {db' : Db}
    → transition wall id from to mut db ≡ ok db'
    → (o : Operation) × (get_row op_id id db.operations ≡ some o)
      × (o.state ≡ from)
      × (db' ≡ record db { operations = put_row op_id id (move to wall mut) db.operations })
unfolding transition
transition-inv wall id from to mut db h = elim (Option-cases (get_row op_id id db.operations)) [
  | inl e ↦ ground arith
  | inr (o, e) ↦ (o, e, op_eq→≡ o.state from (ground arith), ground arith)
]

-- A change that leaves the state machine to Transition: it sets other columns only.
abbrev pub LeavesState : (Operation → Operation) → Type 0
LeavesState mut =
    (o : Operation) → ((mut o).state ≡ o.state) × ((mut o).terminal_at ≡ o.terminal_at)

-- An operation is stamped terminal exactly when its state is terminal.
abbrev pub IsStamped : Operation → Type 0
IsStamped o = is_none o.terminal_at ≡ not (terminal o.state)

pub move-state :
    (to : OpState) (wall : ℕ) (mut : Operation → Operation) (o : Operation)
    → LeavesState mut
    → (move to wall mut o).state ≡ to
unfolding move
move-state to wall mut o h = (h (staged to wall o)).0

pub move-IsStamped :
    (to : OpState) (wall : ℕ) (mut : Operation → Operation) (o : Operation)
    → LeavesState mut
    → terminal o.state ≡ false
    → IsStamped o
    → IsStamped (move to wall mut o)
unfolding move
move-IsStamped to wall mut o h live s = ground (arith, h (staged to wall o))

-- The transition never reopens an operation, nor moves it to another resource.
pub move-open_on :
    (to : OpState) (wall : ℕ) (mut : Operation → Operation) (o : Operation) (res : ℕ)
    → LeavesState mut
    → one_if (open_on res (move to wall mut o)) ≤ one_if (open_on res o)
unfolding move
move-open_on to wall mut o res h = ground (arith, h (staged to wall o))

-- At most one operation is open on each resource.
abbrev pub OneOpen : List Operation → Type 0
OneOpen ops = (res : ℕ) → count_where (open_on res) ops ≤ 1

pub put_row-OneOpen :
    (id : ℕ) (to : OpState) (wall : ℕ) (mut : Operation → Operation) (ops : List Operation)
    (o : Operation)
    → LeavesState mut
    → get_row op_id id ops ≡ some o
    → OneOpen ops
    → OneOpen (put_row op_id id (move to wall mut) ops)
put_row-OneOpen id to wall mut ops o h e inv res = omega (
  arith,
  count_where-put_row op_id (open_on res) id (move to wall mut) ops o e,
  move-open_on to wall mut o res h,
  inv res,
)

-- Append refuses a second open operation on a resource.
pub append-OneOpen :
    (op : Operation) (db : Db) {db' : Db}
    → append op db ≡ ok db'
    → OneOpen db.operations
    → OneOpen db'.operations
unfolding append
append-OneOpen op db h inv res = ground (arith, inv res)
