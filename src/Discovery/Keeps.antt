-- ===== src/Discovery/Keeps.antt =====
-- What a discovery sweep writes of an observation (internal/storage, PutObserved and
-- SetProviderFacts).
use fleetplane.Prelude.{ℕ, ◌≡◌, arith}
use fleetplane.Prelude.Outcome.{ok, OnOk}
use fleetplane.Prelude.Json.{Json}
use fleetplane.Capacity.{Vector}
use fleetplane.Store.{Db, Resource, ObservedSnapshot}
use fleetplane.Store.Rows.{put_row}
use fleetplane.Store.Resources
use fleetplane.Store.Resources.{res_id, coalesce}
use fleetplane.Scheduler.Sound.{SameTables}

pub put_observed-same :
    (snap : ObservedSnapshot) (db : Db) → OnOk (SameTables db) (Resources.put_observed snap db)
unfolding Resources.put_observed
put_observed-same snap db = ground arith

abbrev pub with_facts : Json ℕ → Json Vector → ℕ → Resource → Resource
with_facts ext cap_ at x = record x {
  extension = coalesce ext x.extension;
  capacity = coalesce cap_ x.capacity;
  updated_at = at;
}

pub facts-inv :
    (id : ℕ) (ext : Json ℕ) (cap_ : Json Vector) (at : ℕ) (db : Db) {d : Db}
    → Resources.set_provider_facts id ext cap_ at db ≡ ok d
    → d ≡ record db { resources = put_row res_id id (with_facts ext cap_ at) db.resources }
unfolding Resources.set_provider_facts
facts-inv id ext cap_ at db h = ground arith
