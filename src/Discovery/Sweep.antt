-- ===== src/Discovery/Sweep.antt =====
-- internal/reconcile/discovery.go: records that no object stands for (confirmOrphan), and the sweep of
-- one kind (sweepKind).
use fleetplane.Prelude.{
  ℕ, ◌+◌, Bool, true, false, not, ◌||◌, Option, none, some, List, [], ◌∷◌, ltb, ◌==◌, if◌then◌else◌,
}
use fleetplane.Prelude.Outcome.{Outcome, ok, conflict, guard, ◌>>=◌, ◌>>◌}
use fleetplane.Phase.{Phase, phase_eq, can_transition}
use fleetplane.Provider.{GoError, ErrorClass, is_class}
use fleetplane.Store.{Db, Resource, Operation, EventType}
use fleetplane.Store.Resources
use fleetplane.Store.Resources.{is_none}
use fleetplane.Store.Resources.Listing.{ResourceFilter, every, list}
use fleetplane.Store.Leases
use fleetplane.Store.Operations
use fleetplane.Store.Operations.{names}
use fleetplane.Store.Events
use fleetplane.Machines.{ref_for}
use fleetplane.LeaseManager.{attempt}
use fleetplane.Discovery.{Observation, Sight, ext_id, has_open_op}
use fleetplane.Discovery.Unmatched.{see_all}

abbrev pub is_seen : ℕ → List Observation → Bool
is_seen ext [] = false
is_seen ext (obs ∷ os) = ext_id obs == ext || is_seen ext os

abbrev pub was_seen : Option ℕ → List Observation → Bool
was_seen none os = false
was_seen (some ext) os = is_seen ext os

-- The tombstone of an orphan, which no active lease may hold.
unfoldable pub tombstone_orphan : Sight → Resource → Db → Outcome Db
tombstone_orphan w r db = do
  guard (Leases.count_active r.id db == 0) conflict
  db1 ← Resources.mark_deleted r.id w.now db
  ok (Events.append w.now EventType.resource_orphan_tombstoned (some r.id) none db1)

unfoldable pub mark_orphan : Sight → Resource → Db → Outcome Db
mark_orphan w r db = Resources.cas_phase r.id r.phase Phase.orphaned w.now db >>= λ db1.
    ok (Events.append w.now EventType.resource_orphaned (some r.id) none db1)

-- What follows when the provider says that the object is not there.
unfoldable pub orphan_step : Sight → Resource → Db → Db
unfolding tombstone_orphan mark_orphan
orphan_step w r db =
    if phase_eq r.phase Phase.orphaned
    then if ltb w.now (r.updated_at + w.orphan_grace)
      then db
      else attempt db (tombstone_orphan w r db)
    else if not (can_transition r.phase Phase.orphaned)
    then db
    else attempt db (mark_orphan w r db)

abbrev pub is_gone : Option GoError → Bool
is_gone none = false
is_gone (some e) = is_class e ErrorClass.not_found

-- confirmOrphan: only a direct Get that answers `not found` is evidence.
abbrev pub confirm_orphan : Sight → Resource → ℕ → Db → Db
confirm_orphan w r ext db = if is_gone (w.get (ref_for r ext)) then orphan_step w r db else db

abbrev pub confirm : Sight → List Observation → List Operation → Resource → Option ℕ → Db → Db
confirm w os ops r none db = db
confirm w os ops r (some ext) db =
    if not (is_none r.deleted_at) || is_seen ext os || has_open_op r.id ops
    then db
    else confirm_orphan w r ext db

unfoldable pub confirm_all : Sight → List Observation → List Operation → List Resource → Db → Db
unfolding orphan_step ref_for
confirm_all w os ops [] db = db
confirm_all w os ops (r ∷ rs) db = confirm_all w os ops rs (confirm w os ops r r.external_id db)

abbrev pub of_instance : Sight → ResourceFilter
of_instance w = record every { provider = w.instance_id; kind = w.kind; include_deleted = true }

-- sweepKind.
unfoldable pub sweep_kind : Sight → Db → Outcome Db
unfolding see_all confirm_all
sweep_kind w db = w.discover >>= λ os.
    let all = list (of_instance w) db in
    let ops = Operations.non_terminal db in
    let seen = see_all w all ops os db in
    ok (if w.healthy then confirm_all w os ops all seen else seen)
