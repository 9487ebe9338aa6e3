-- ===== src/Store/Operations.antt =====
-- internal/storage/sqlite/operations.go: the operation journal.
pub mod Journal
use fleetplane.Prelude.{
  ℕ, Bool, true, false, not, ◌&&◌, ◌||◌, Option, none, some, List, [], ◌∷◌, ◌==◌, leb,
  if◌then◌else◌, select, take,
}
use fleetplane.Prelude.Outcome.{
  Outcome, ok, err, not_found, conflict, other, guard, or_fail, ◌>>=◌, ◌>>◌,
}
use fleetplane.Store.{Db, Operation, OpState, OpKind, op_eq, terminal}
use fleetplane.Store.Rows.{get_row, put_row, count_where}
use fleetplane.Store.Resources.{is_none, res_id}

abbrev pub op_id : Operation → ℕ
op_id o = o.id

unfoldable pub get : ℕ → Db → Outcome Operation
get id db = or_fail (get_row op_id id db.operations) not_found

abbrev pub names : Option ℕ → ℕ → Bool
names none res = false
names (some r) res = r == res

-- The rows of the unique index op_active_per_resource.
abbrev pub open_on : ℕ → Operation → Bool
open_on res o = is_none o.terminal_at && names o.resource_id res

abbrev pub free_for : Option ℕ → List Operation → Bool
free_for none ops = true
free_for (some res) ops = count_where (open_on res) ops == 0

abbrev resource_exists : Option ℕ → Db → Bool
resource_exists none db = true
resource_exists (some r) db = not (is_none (get_row res_id r db.resources))

-- INSERT: only in state `journaled`, under a fresh id, on an existing resource that no other open
-- operation holds.
unfoldable pub append : Operation → Db → Outcome Db
append op db = do
  guard (op_eq op.state OpState.journaled) conflict
  guard (is_none (get_row op_id op.id db.operations)) conflict
  guard (resource_exists op.resource_id db) conflict
  guard (not (is_none op.terminal_at) || free_for op.resource_id db.operations) conflict
  ok (record db { operations = op ∷ db.operations })

-- The record that Transition hands to the caller's change. `wall` is the wall clock, which the
-- store reads itself.
abbrev pub staged : OpState → ℕ → Operation → Operation
staged to wall old = record old {
  state = to;
  updated_at = wall;
  terminal_at = if terminal to && is_none old.terminal_at then some wall else old.terminal_at;
}

-- What Transition writes: the columns that its UPDATE names, after the caller's change.
unfoldable pub move : OpState → ℕ → (Operation → Operation) → Operation → Operation
move to wall mut old =
    let op = mut (staged to wall old) in
    record old {
      state = op.state;
      attempt = op.attempt;
      external_op = op.external_op;
      external_ref = op.external_ref;
      error_class = op.error_class;
      error_detail = op.error_detail;
      next_attempt_at = op.next_attempt_at;
      verify_deadline_at = op.verify_deadline_at;
      updated_at = op.updated_at;
      terminal_at = op.terminal_at;
    }

unfoldable pub transition : ℕ → ℕ → OpState → OpState → (Operation → Operation) → Db → Outcome Db
unfolding move
transition wall id from to mut db = do
  op ← or_fail (get_row op_id id db.operations) not_found
  guard (op_eq op.state from) conflict
  ok (record db { operations = put_row op_id id (move to wall mut) db.operations })

abbrev pub no_change : Operation → Operation
no_change o = o

abbrev pub runnable : OpState → Bool
runnable s =
    op_eq s OpState.journaled || op_eq s OpState.external_accepted || op_eq s OpState.verifying

abbrev pub attempt_due : Option ℕ → ℕ → Bool
attempt_due none now = true
attempt_due (some t) now = leb t now

-- The WHERE clause of Due.
abbrev pub is_due : ℕ → Operation → Bool
is_due now o = is_none o.terminal_at && runnable o.state && attempt_due o.next_attempt_at now

abbrev pub insert_by_creation : Operation → List Operation → List Operation
insert_by_creation o [] = o ∷ []
insert_by_creation o (p ∷ ps) =
    let rest = insert_by_creation o ps in
    if leb o.created_at p.created_at then o ∷ p ∷ ps else p ∷ rest

-- ORDER BY created_at.
unfoldable pub by_creation : List Operation → List Operation
by_creation [] = []
by_creation (o ∷ os) = insert_by_creation o (by_creation os)

unfoldable pub due : ℕ → ℕ → Db → List Operation
unfolding by_creation
due now limit db = take limit (by_creation (select (is_due now) db.operations))

unfoldable pub non_terminal : Db → List Operation
unfolding by_creation
non_terminal db = by_creation (select (λ o. is_none o.terminal_at) db.operations)

-- RecentTerminal. Its WHERE clause names a column `provider`, which the table does not have, and the
-- database refuses the query.
unfoldable pub recent_terminal : ℕ → OpKind → ℕ → Db → Outcome (List Operation)
recent_terminal provider kind limit db = err other

abbrev pub pool_names : Option ℕ → ℕ → Bool
pool_names none pool = false
pool_names (some p) pool = p == pool

abbrev pub kind_place : OpKind → ℕ
kind_place OpKind.create = 0
kind_place OpKind.delete = 1
kind_place OpKind.stop = 2
kind_place OpKind.start = 3

abbrev pub kind_eq : OpKind → OpKind → Bool
kind_eq a b = kind_place a == kind_place b

unfoldable pub count_pending : ℕ → OpKind → Db → ℕ
count_pending pool kind db =
    count_where (λ o. pool_names o.pool_id pool && kind_eq o.kind kind && is_none o.terminal_at)
      db.operations
