-- ===== src/Store/Resources/Phases.antt =====
-- The compare-and-set on a resource's phase (internal/storage/sqlite/resources.go, CASPhase).
use fleetplane.Prelude.{ℕ, ◌≡◌, inl, inr, none, some, arith, Option-cases}
use fleetplane.Prelude.Outcome.{ok}
use fleetplane.Phase.{Phase, phase_eq→≡}
use fleetplane.Store.{Db, Resource}
use fleetplane.Store.Rows.{get_row, put_row}
use fleetplane.Store.Resources.{res_id, enter_phase, cas_phase}

-- What a successful compare-and-set tells: the row was live in the expected phase, and the
-- database is as it was but for that row.
pub cas_phase-inv :
    (id : ℕ) (from to : Phase) (at : ℕ) (db : Db) {db' : Db}
    → cas_phase id from to at db ≡ ok db'
    → (r : Resource) × (get_row res_id id db.resources ≡ some r)
      × (r.phase ≡ from)
      × (r.deleted_at ≡ none)
      × (db' ≡ record db { resources = put_row res_id id (enter_phase from to at) db.resources })
unfolding cas_phase
cas_phase-inv id from to at db h = elim (Option-cases (get_row res_id id db.resources)) [
  | inl e ↦ ground arith
  | inr (r, e) ↦ (r, e, phase_eq→≡ r.phase from (ground arith), ground arith, ground arith)
]
