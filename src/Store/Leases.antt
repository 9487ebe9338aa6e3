-- ===== src/Store/Leases.antt =====
-- internal/storage/sqlite/leases.go, the lease table.
use fleetplane.Prelude.{
  ℕ, Bool, true, false, not, ◌&&◌, ◌||◌, Option, none, some, List, [], ◌∷◌, ◌==◌, leb,
  if◌then◌else◌, select, take,
}
use fleetplane.Prelude.Outcome.{Outcome, ok, not_found, conflict, guard, or_fail, ◌>>=◌, ◌>>◌}
use fleetplane.Prelude.Json.{unmarshal}
use fleetplane.Capacity.{Vector, add_into}
use fleetplane.Store.{Db, Lease, LeaseState, lease_eq, Acquisition}
use fleetplane.Store.Rows.{get_row, put_row, count_where}
use fleetplane.Store.Resources.{is_none, res_id}

abbrev pub lease_id : Lease → ℕ
lease_id l = l.id

abbrev acq_key : Acquisition → ℕ
acq_key a = a.id

-- resource_id=? AND state='active'.
abbrev pub holds : ℕ → Lease → Bool
holds res l = l.resource_id == res && lease_eq l.state LeaseState.active

-- … AND exclusive=1, the rows of the unique index lease_exclusive.
abbrev pub holds_exclusive : ℕ → Lease → Bool
holds_exclusive res l = holds res l && l.exclusive

unfoldable pub active_by_resource : ℕ → Db → List Lease
active_by_resource res db = select (holds res) db.leases

unfoldable pub count_active : ℕ → Db → ℕ
count_active res db = count_where (holds res) db.leases

unfoldable pub get : ℕ → Db → Outcome Lease
get id db = or_fail (get_row lease_id id db.leases) not_found

-- INSERT: the primary key, the two foreign keys and the unique index on exclusive holders.
unfoldable pub insert : Lease → Db → Outcome Db
insert l db = do
  guard (is_none (get_row lease_id l.id db.leases)) conflict
  guard (not (is_none (get_row acq_key l.acquisition_id db.acquisitions))) conflict
  guard (not (is_none (get_row res_id l.resource_id db.resources))) conflict
  guard
      (not (holds_exclusive l.resource_id l)
        || count_where (holds_exclusive l.resource_id) db.leases == 0)
      conflict
  ok (record db { leases = l ∷ db.leases })

-- The loop of SumActive: a capacity column that does not decode is an error, a blank one too.
unfoldable pub sum_leases : Vector → List Lease → Outcome Vector
sum_leases sum [] = ok sum
sum_leases sum (l ∷ ls) = unmarshal l.capacity >>= λ c. sum_leases (add_into sum c) ls

unfoldable pub sum_active : ℕ → Db → Outcome Vector
unfolding sum_leases active_by_resource
sum_active res db = sum_leases [] (active_by_resource res db)

abbrev pub ends : LeaseState → Bool
ends LeaseState.active = false
ends LeaseState.released = true
ends LeaseState.expired = true

-- SET state=?, ended_at=COALESCE(?, ended_at).
unfoldable pub enter_state : LeaseState → ℕ → Lease → Lease
enter_state to at l = record l { state = to; ended_at = if ends to then some at else l.ended_at }

unfoldable pub transition : ℕ → LeaseState → LeaseState → ℕ → Db → Outcome Db
unfolding enter_state
transition id from to at db = do
  l ← or_fail (get_row lease_id id db.leases) conflict
  guard (lease_eq l.state from) conflict
  ok (record db { leases = put_row lease_id id (enter_state to at) db.leases })

abbrev pub due : Option ℕ → ℕ → Bool
due none now = false
due (some e) now = leb e now

-- NULLs first.
abbrev pub before : Option ℕ → Option ℕ → Bool
before none b = true
before (some a) none = false
before (some a) (some b) = leb a b

abbrev pub insert_by_expiry : Lease → List Lease → List Lease
insert_by_expiry l [] = l ∷ []
insert_by_expiry l (m ∷ ms) =
    let rest = insert_by_expiry l ms in
    if before l.expires_at m.expires_at then l ∷ m ∷ ms else m ∷ rest

-- ORDER BY expires_at.
unfoldable pub by_expiry : List Lease → List Lease
by_expiry [] = []
by_expiry (l ∷ ls) = insert_by_expiry l (by_expiry ls)

-- The overdue leases, soonest expiry first, at most `limit`.
unfoldable pub expiring : ℕ → ℕ → Db → List Lease
unfolding by_expiry
expiring now limit db =
    take limit (
      by_expiry
        (select (λ l. lease_eq l.state LeaseState.active && due l.expires_at now) db.leases))
