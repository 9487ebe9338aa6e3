-- ===== src/Store/Acquisitions.antt =====
-- internal/storage/sqlite/leases.go, the acquisition table.
use fleetplane.Prelude.{ℕ, Bool, ◌||◌, none, some, List, ◌∷◌, select}
use fleetplane.Prelude.Outcome.{Outcome, ok, not_found, conflict, guard, or_fail, ◌>>=◌, ◌>>◌}
use fleetplane.Store.{Db, Acquisition, AcqState, acq_eq}
use fleetplane.Store.Rows.{get_row, put_row, by_key}
use fleetplane.Store.Resources.{is_none}

abbrev pub acq_id : Acquisition → ℕ
acq_id a = a.id

unfoldable pub get : ℕ → Db → Outcome Acquisition
get id db = or_fail (get_row acq_id id db.acquisitions) not_found

unfoldable pub insert : Acquisition → Db → Outcome Db
insert a db = do
  guard (is_none (get_row acq_id a.id db.acquisitions)) conflict
  ok (record db { acquisitions = a ∷ db.acquisitions })

unfoldable pub transition : ℕ → AcqState → AcqState → ℕ → Db → Outcome Db
transition id from to at db = do
  a ← or_fail (get_row acq_id id db.acquisitions) conflict
  guard (acq_eq a.state from) conflict
  ok (record db {
    acquisitions =
        put_row acq_id id (λ x. record x { state = to; updated_at = at }) db.acquisitions;
  })

-- state IN ('pending','provisioning').
abbrev pub bindable : AcqState → Bool
bindable s = acq_eq s AcqState.pending || acq_eq s AcqState.provisioning

unfoldable pub bind : ℕ → ℕ → ℕ → Db → Outcome Db
bind id lease at db = do
  a ← or_fail (get_row acq_id id db.acquisitions) conflict
  guard (bindable a.state) conflict
  ok (record db {
    acquisitions =
        put_row acq_id id
          (λ x. record x {
            state = AcqState.bound;
            lease_id = some lease;
            pending_resource_id = none;
            updated_at = at;
          })
          db.acquisitions;
  })

unfoldable pub set_pending_resource : ℕ → ℕ → Db → Outcome Db
set_pending_resource id res db = do
  a ← or_fail (get_row acq_id id db.acquisitions) not_found
  ok (record db {
    acquisitions =
        put_row acq_id id (λ x. record x { pending_resource_id = some res }) db.acquisitions;
  })

unfoldable pub clear_pending_resource : ℕ → Db → Db
clear_pending_resource id db = record db {
  acquisitions = put_row acq_id id (λ x. record x { pending_resource_id = none }) db.acquisitions;
}

unfoldable pub list_by_state : (AcqState → Bool) → Db → List Acquisition
list_by_state wanted db = by_key acq_id (select (λ a. wanted a.state) db.acquisitions)
