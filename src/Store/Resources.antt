-- ===== src/Store/Resources.antt =====
-- internal/storage/sqlite/resources.go: the resource table. An UPDATE that touches no row is
-- ErrConflict for the compare-and-set and ErrNotFound for the others.
pub mod Phases
pub mod Listing
use fleetplane.Prelude.{
  ℕ, Bool, true, false, not, ◌&&◌, ◌||◌, Option, none, some, List, [], ◌∷◌, ◌==◌, if◌then◌else◌,
}
use fleetplane.Prelude.Outcome.{Outcome, ok, err, not_found, conflict, guard, or_fail, ◌>>=◌, ◌>>◌}
use fleetplane.Prelude.Json.{Json}
use fleetplane.Phase.{Phase, phase_eq}
use fleetplane.Capacity.{Vector}
use fleetplane.Provider.{ExternalRef}
use fleetplane.Store.{Db, Resource, ObservedSnapshot}
use fleetplane.Store.Rows.{get_row, put_row}

abbrev pub is_none {ℓ} : {A : Type ℓ} → Option A → Bool
is_none none = true
is_none (some a) = false

abbrev pub res_id : Resource → ℕ
res_id r = r.id

-- Get reads tombstoned rows too.
unfoldable pub get : ℕ → Db → Outcome Resource
get id db = or_fail (get_row res_id id db.resources) not_found

abbrev pub same_external : ℕ → ℕ → Option ℕ → Bool
same_external provider ext none = false
same_external provider ext (some e) = e == ext

-- The unique index ux_res_ext: another live row with the same provider and external id.
abbrev pub external_taken : ℕ → ℕ → ℕ → List Resource → Bool
external_taken id provider ext [] = false
external_taken id provider ext (r ∷ rs) =
    let rest = external_taken id provider ext rs in
    (not (r.id == id)
      && r.provider == provider
      && is_none r.deleted_at
      && same_external provider ext r.external_id)
    || rest

abbrev taken_by : Resource → List Resource → Bool
taken_by r rs = elim r.external_id [
  | none ↦ false
  | some ext ↦ external_taken r.id r.provider ext rs
]

-- INSERT: the primary key and the unique index on external ids.
unfoldable pub insert : Resource → Db → Outcome Db
insert r db = do
  guard (is_none (get_row res_id r.id db.resources)) conflict
  guard (not (taken_by r db.resources)) conflict
  ok (record db { resources = r ∷ db.resources })

-- The SET clause of CASPhase: the phase and the reclaim-predicate columns.
unfoldable pub enter_phase : Phase → Phase → ℕ → Resource → Resource
enter_phase from to at r = record r {
  phase = to;
  updated_at = at;
  ready_at =
      if phase_eq to Phase.ready && not (phase_eq from Phase.allocated)
      then some at
      else r.ready_at;
  drain_started_at = if phase_eq to Phase.draining then some at else r.drain_started_at;
  parked_at =
      if phase_eq to Phase.parked
      then some at
      else if phase_eq to Phase.ready
      then none
      else r.parked_at;
}

unfoldable pub cas_phase : ℕ → Phase → Phase → ℕ → Db → Outcome Db
unfolding enter_phase
cas_phase id from to at db = do
  r ← or_fail (get_row res_id id db.resources) conflict
  guard (phase_eq r.phase from && is_none r.deleted_at) conflict
  ok (record db { resources = put_row res_id id (enter_phase from to at) db.resources })

-- execOne: an UPDATE by id that is ErrNotFound when it touches no row.
abbrev pub exec_one : ℕ → (Resource → Bool) → (Resource → Resource) → Db → Outcome Db
exec_one id live f db = do
  r ← or_fail (get_row res_id id db.resources) not_found
  guard (live r) not_found
  ok (record db { resources = put_row res_id id f db.resources })

abbrev pub any_row : Resource → Bool
any_row r = true

abbrev pub live_row : Resource → Bool
live_row r = is_none r.deleted_at

unfoldable pub set_external_ref : ℕ → ℕ → Json ExternalRef → Db → Outcome Db
set_external_ref id ext ref db = do
  r ← or_fail (get_row res_id id db.resources) not_found
  guard (not (is_none r.deleted_at) || not (external_taken id r.provider ext db.resources)) conflict
  ok (record db {
    resources =
        put_row res_id id (λ x. record x { external_id = some ext; external_ref = ref })
          db.resources;
  })

-- COALESCE(?, column): an absent value keeps the column.
abbrev pub coalesce {ℓ} : {A : Type ℓ} → Json A → Json A → Json A
coalesce Json.blank old = old
coalesce Json.garbage old = Json.garbage
coalesce (Json.doc a) old = Json.doc a

unfoldable pub set_provider_facts : ℕ → Json ℕ → Json Vector → ℕ → Db → Outcome Db
set_provider_facts id ext cap at db =
    exec_one id any_row
      (λ x. record x {
        extension = coalesce ext x.extension;
        capacity = coalesce cap x.capacity;
        updated_at = at;
      })
      db

unfoldable pub set_last_lease_ended : ℕ → ℕ → Db → Outcome Db
set_last_lease_ended id at db =
    exec_one id any_row (λ x. record x { last_lease_ended_at = some at; updated_at = at }) db

unfoldable pub set_delete_protected : ℕ → Bool → ℕ → Db → Outcome Db
set_delete_protected id protected at db =
    exec_one id live_row (λ x. record x { delete_protected = protected; updated_at = at }) db

-- The tombstone.
unfoldable pub mark_deleted : ℕ → ℕ → Db → Outcome Db
mark_deleted id at db =
    exec_one id live_row (λ x. record x { deleted_at = some at; updated_at = at }) db

abbrev snapshot_id : ObservedSnapshot → ℕ
snapshot_id s = s.resource_id

-- The upsert of the latest observation; the resource must exist.
unfoldable pub put_observed : ObservedSnapshot → Db → Outcome Db
put_observed snap db = do
  guard (not (is_none (get_row res_id snap.resource_id db.resources))) conflict
  ok (record db {
    observed =
        if is_none (get_row snapshot_id snap.resource_id db.observed)
        then snap ∷ db.observed
        else put_row snapshot_id snap.resource_id (λ _. snap) db.observed;
  })
