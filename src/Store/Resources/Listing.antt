-- ===== src/Store/Resources/Listing.antt =====
-- internal/storage/sqlite/resources.go, List: the rows that a filter selects, in the order of their
-- ids.
use fleetplane.Prelude.{
  ℕ, Bool, true, false, not, ◌&&◌, ◌||◌, Option, none, some, List, [], ◌∷◌, ◌==◌, select,
}
use fleetplane.Phase.{Phase, phase_in}
use fleetplane.Store.{Db, Resource, Ownership}
use fleetplane.Store.Rows.{by_key}
use fleetplane.Store.Resources.{is_none, res_id}

-- ResourceFilter. A name of 0 and an empty list select everything.
pub record ResourceFilter : Type 0 where
  pub kind : ℕ
  pub provider : ℕ
  pub pool_id : Option ℕ
  pub poolless : Bool
  pub class : ℕ
  pub phases : List Phase
  pub ownership : List Ownership
  pub labels : List (ℕ × ℕ)
  pub include_deleted : Bool

abbrev pub every : ResourceFilter
every = record {
  kind = 0;
  provider = 0;
  pool_id = none;
  poolless = false;
  class = 0;
  phases = [];
  ownership = [];
  labels = [];
  include_deleted = false;
}

abbrev pub name_matches : ℕ → ℕ → Bool
name_matches wanted x = wanted == 0 || x == wanted

abbrev pub is_pool : Option ℕ → ℕ → Bool
is_pool none p = false
is_pool (some q) p = q == p

abbrev pub pool_matches : Option ℕ → Option ℕ → Bool
pool_matches none q = true
pool_matches (some p) q = is_pool q p

abbrev pub phase_matches : List Phase → Phase → Bool
phase_matches [] p = true
phase_matches (q ∷ qs) p = phase_in p (q ∷ qs)

abbrev pub owner_place : Ownership → ℕ
owner_place Ownership.managed = 0
owner_place Ownership.adopted = 1
owner_place Ownership.observed = 2

abbrev pub owner_in : List Ownership → Ownership → Bool
owner_in [] o = false
owner_in (p ∷ ps) o = owner_place o == owner_place p || owner_in ps o

abbrev pub owner_matches : List Ownership → Ownership → Bool
owner_matches [] o = true
owner_matches (p ∷ ps) o = owner_in (p ∷ ps) o

abbrev pub has_label : ℕ → ℕ → List (ℕ × ℕ) → Bool
has_label k v [] = false
has_label k v ((j, w) ∷ ls) = (j == k && w == v) || has_label k v ls

abbrev pub labels_match : List (ℕ × ℕ) → List (ℕ × ℕ) → Bool
labels_match [] ls = true
labels_match ((k, v) ∷ wanted) ls = has_label k v ls && labels_match wanted ls

-- The WHERE clause.
unfoldable pub matches : ResourceFilter → Resource → Bool
matches f r =
    (f.include_deleted || is_none r.deleted_at)
    && name_matches f.kind r.kind
    && name_matches f.provider r.provider
    && pool_matches f.pool_id r.pool_id
    && (not f.poolless || is_none r.pool_id)
    && name_matches f.class r.class
    && phase_matches f.phases r.phase
    && owner_matches f.ownership r.ownership
    && labels_match f.labels r.labels

unfoldable pub list : ResourceFilter → Db → List Resource
unfolding matches
list f db = by_key res_id (select (matches f) db.resources)
