-- ===== src/Store/Events.antt =====
-- internal/storage/sqlite/misc.go, the append-only event table; the event id is minted fresh.
use fleetplane.Prelude.{ℕ, Option, ◌∷◌}
use fleetplane.Store.{Db, EventType}

unfoldable pub append : ℕ → EventType → Option ℕ → Option ℕ → Db → Db
append ts type res op db = record db {
  events = record { ts = ts; event_type = type; resource_id = res; operation_id = op } ∷ db.events;
}
