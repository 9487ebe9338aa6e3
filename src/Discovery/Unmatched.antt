-- ===== src/Discovery/Unmatched.antt =====
-- internal/reconcile/discovery.go: objects that no record stands for (resolveOwnedUnmatched,
-- handleGhost, readopt, adoptObserved, mintRecord), and the loop over the listing.
use fleetplane.Prelude.{
  ℕ, Bool, false, not, ◌&&◌, ◌||◌, Option, none, some, List, [], ◌∷◌, ◌==◌, if◌then◌else◌,
}
use fleetplane.Prelude.Outcome.{Outcome, ok, err, ◌>>=◌}
use fleetplane.Prelude.Json.{Json}
use fleetplane.Phase.{Phase}
use fleetplane.Store.{Db, Resource, Operation, OpState, Ownership, EventType, terminal, op_eq}
use fleetplane.Store.Resources
use fleetplane.Store.Resources.{is_none}
use fleetplane.Store.Operations
use fleetplane.Store.Operations.{names}
use fleetplane.Store.Events
use fleetplane.Machines.{journal_delete}
use fleetplane.LeaseManager.{attempt}
use fleetplane.Discovery.{
  Observation, Sight, ext_id, has_open_op, is_stopped, live_by_ext, live_by_id, refresh, same_ext,
}

-- The initial phase follows the observation.
abbrev pub minted_parked : Sight → Observation → Bool
minted_parked w obs = is_stopped obs.resource.phase && w.parking w.instance_id obs.kind

abbrev pub minted : Sight → Observation → Ownership → Resource
minted w obs owner = record {
  id = w.mint_ids (ext_id obs);
  name = obs.name;
  kind = obs.kind;
  provider = w.instance_id;
  class = obs.class;
  pool_id = none;
  ownership = owner;
  phase = if minted_parked w obs then Phase.parked else Phase.ready;
  external_id = some (ext_id obs);
  external_ref = Json.doc obs.resource.ref;
  generation = 0;
  observed_generation = 0;
  spec = Json.doc (record { probed = false; budget = 0 });
  extension = obs.resource.extensions;
  capacity = obs.resource.capacity;
  exclusive_alloc = false;
  delete_protected = false;
  labels = obs.labels;
  ready_at = none;
  last_lease_ended_at = none;
  drain_started_at = none;
  parked_at = if minted_parked w obs then some w.now else none;
  created_at = w.now;
  updated_at = w.now;
  deleted_at = none;
}

-- The transaction of mintRecord.
unfoldable pub mint : Sight → Observation → Ownership → EventType → Db → Outcome Db
mint w obs owner event db = Resources.insert (minted w obs owner) db >>= λ db1.
    ok (Events.append w.now event (some (minted w obs owner).id) none db1)

-- The two transactions that reclaim a ghost, each of which may fail.
unfoldable pub reclaim_ghost : Sight → ℕ → Db → Db
reclaim_ghost w id db = elim (Resources.cas_phase id Phase.ready Phase.draining w.now db) [
  | err x ↦ db
  | ok d ↦ attempt d (journal_delete (w.op_ids id) id w.now d)
]

abbrev pub after_mint : Sight → ℕ → Db → Outcome Db → Db
after_mint w id db (err x) = db
after_mint w id db (ok d) = if w.ghost_delete then reclaim_ghost w id d else d

-- handleGhost.
unfoldable pub handle_ghost : Sight → Observation → Db → Db
unfolding mint reclaim_ghost
handle_ghost w obs db =
    after_mint w (w.mint_ids (ext_id obs)) db
      (mint w obs Ownership.managed EventType.resource_ghost db)

-- readopt, and adoptObserved.
unfoldable pub adopt : Sight → Observation → Ownership → EventType → Db → Db
unfolding mint
adopt w obs owner event db = attempt db (mint w obs owner event db)

abbrev pub bound_to_other : ℕ → Option Resource → Bool
bound_to_other ext none = false
bound_to_other ext (some r) = not (is_none r.external_id) && not (same_ext ext r.external_id)

abbrev pub of_resource : Option ℕ → List Resource → Option Resource
of_resource none all = none
of_resource (some id) all = live_by_id id all

-- The create succeeded for another object, or did not succeed.
abbrev pub is_ghost : Observation → List Resource → Operation → Bool
is_ghost obs all op =
    (op_eq op.state OpState.succeeded
      && bound_to_other (ext_id obs) (of_resource op.resource_id all))
    || op_eq op.state OpState.failed
    || op_eq op.state OpState.aborted

abbrev pub readopt : Sight → Observation → Db → Db
readopt w obs db = adopt w obs Ownership.managed EventType.resource_readopted db

abbrev pub by_evidence : Sight → Observation → List Resource → Db → Outcome Operation → Db
by_evidence w obs all db (err x) = readopt w obs db
by_evidence w obs all db (ok op) =
    if not (terminal op.state)
    then db
    else if is_ghost obs all op
    then handle_ghost w obs db
    else readopt w obs db

-- A record whose create is still open belongs to the verifier.
abbrev pub is_being_created : List Operation → Option Resource → Bool
is_being_created ops none = false
is_being_created ops (some r) = is_none r.external_id && has_open_op r.id ops

-- resolveOwnedUnmatched.
unfoldable pub resolve_owned : Sight → Observation → List Resource → List Operation → Db → Db
unfolding handle_ghost adopt
resolve_owned w obs all ops db =
    if not (obs.fleetplane_id == 0) && is_being_created ops (live_by_id obs.fleetplane_id all)
    then db
    else if obs.create_op_id == 0
    then readopt w obs db
    else by_evidence w obs all db (Operations.get obs.create_op_id db)

abbrev pub unmatched : Sight → Observation → List Resource → List Operation → Db → Db
unmatched w obs all ops db =
    if obs.owned
    then resolve_owned w obs all ops db
    else if w.adopt_unlabeled
    then adopt w obs Ownership.observed EventType.resource_observed db
    else db

abbrev pub see : Sight → Observation → List Resource → List Operation → Db → Option Resource → Db
see w obs all ops db (some r) = attempt db (refresh w r obs db)
see w obs all ops db none = unmatched w obs all ops db

-- The loop over the listing, against the rows and the open operations of its start.
unfoldable pub see_all : Sight → List Resource → List Operation → List Observation → Db → Db
unfolding refresh resolve_owned
see_all w all ops [] db = db
see_all w all ops (obs ∷ os) db =
    see_all w all ops os (see w obs all ops db (live_by_ext (ext_id obs) all))
