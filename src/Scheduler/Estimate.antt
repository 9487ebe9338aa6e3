-- ===== src/Scheduler/Estimate.antt =====
-- internal/scheduler/scheduler.go, estimateWait: when compatible capacity is expected to be free. The
-- estimates are durations in nanoseconds; no estimate is none.
use fleetplane.Prelude.{
  ℕ, ◌+◌, ◌-◌, ◌*◌, ◌/◌, Bool, false, not, ◌||◌, Option, none, some, List, [], ◌∷◌, ltb, leb, ◌==◌,
  if◌then◌else◌, length, get_elem?,
}
use fleetplane.Prelude.Outcome.{Outcome, ok, err}
use fleetplane.Phase.{Phase, phase_eq}
use fleetplane.Capacity.{Vector, parse, fits}
use fleetplane.Billing.{ms, second, sort}
use fleetplane.Store.{
  Db, Resource, Ownership, Lease, Acquisition, AcqState, acq_eq, Operation, OpKind,
}
use fleetplane.Store.Leases
use fleetplane.Store.Acquisitions
use fleetplane.Store.Operations.{recent_terminal}
use fleetplane.Store.Resources.Listing.{ResourceFilter, every, list}
use fleetplane.Scheduler.Ranking.{Env}

abbrev pub or_else : Option ℕ → ℕ → ℕ
or_else none d = d
or_else (some x) d = x

abbrev pub took : Operation → ℕ
took o = (o.updated_at - o.created_at) * ms

abbrev pub durations : List Operation → List ℕ
durations [] = []
durations (o ∷ os) = took o ∷ durations os

-- The median of the samples, `ds[len(ds)/2]`; the fallback without samples.
unfoldable pub median_or : ℕ → Outcome (List Operation) → ℕ
median_or fallback (err e) = fallback
median_or fallback (ok []) = fallback
median_or fallback (ok (o ∷ os)) =
    or_else (get_elem? (sort (durations (o ∷ os))) (length (o ∷ os) / 2)) fallback

-- startEstimate: the driver's hint, or a minute, without samples.
unfoldable pub start_estimate : Env → ℕ → ℕ → Db → ℕ
unfolding median_or recent_terminal
start_estimate e provider kind db =
    median_or
      (if ltb 0 (e.start_hint provider kind) then e.start_hint provider kind else 60 * second)
      (recent_terminal provider OpKind.start 20 db)

-- provisioningEstimate: 90 seconds without samples.
unfoldable pub provisioning_estimate : ℕ → Db → ℕ
unfolding median_or recent_terminal
provisioning_estimate provider db =
    median_or (90 * second) (recent_terminal provider OpKind.create 20 db)

abbrev pub prebound : ℕ → Option ℕ → Bool
prebound res none = false
prebound res (some p) = p == res

-- How long the first acquisition that is pre-bound to the machine holds it, in milliseconds; none
-- for an unbounded hold, 0 when nothing is pre-bound.
abbrev pub hold_of : ℕ → List Acquisition → Option ℕ
hold_of res [] = some 0
hold_of res (a ∷ acqs) =
    let rest = hold_of res acqs in
    if prebound res a.pending_resource_id
    then if leb a.ttl_seconds 0 then none else some (a.ttl_seconds * 1000)
    else rest

-- A machine on its way: only for a class, whose shape is known.
abbrev pub arriving : Acquisition → Resource → List Acquisition → ℕ → Option ℕ
arriving acq r provisioning estimate =
    if acq.class == 0 || not (r.class == acq.class)
    then none
    else elim (hold_of r.id provisioning) [ none ↦ none | some hold ↦ some (estimate + hold * ms) ]

-- The latest expiry of the active leases; none when one of them has no expiry.
abbrev pub later_of : ℕ → ℕ → ℕ
later_of a b = if ltb a b then b else a

unfoldable pub free_at : ℕ → List Lease → Option ℕ
free_at t [] = some t
free_at t (l ∷ ls) = elim l.expires_at [ none ↦ none | some x ↦ free_at (later_of t x) ls ]

abbrev pub wait_until : ℕ → Option ℕ → Option ℕ
wait_until now none = none
wait_until now (some t) = some ((t - now) * ms)

abbrev pub leased_wait : Env → Vector → List Lease → Outcome Vector → Option ℕ
leased_wait e want active (err x) = none
leased_wait e want [] (ok total) = none
leased_wait e want (l ∷ ls) (ok total) =
    if fits total [] want then wait_until e.now (free_at 0 (l ∷ ls)) else none

-- What one machine of the list adds.
unfoldable pub wait_for : Env → Acquisition → Vector → List Acquisition → Db → Resource → Option ℕ
unfolding free_at
wait_for e acq want provisioning db r =
    if phase_eq r.phase Phase.starting
    then arriving acq r provisioning (start_estimate e r.provider r.kind db)
    else if phase_eq r.phase Phase.provisioning
    then arriving acq r provisioning (provisioning_estimate r.provider db)
    else leased_wait e want (Leases.active_by_resource r.id db) (parse r.capacity)

abbrev pub better : Option ℕ → Option ℕ → Option ℕ
better best none = best
better none (some d) = some d
better (some b) (some d) = if ltb d b then some d else some b

abbrev pub best_wait :
    Env → Acquisition → Vector → List Acquisition → Db → Option ℕ → List Resource → Option ℕ
best_wait e acq want provisioning db best [] = best
best_wait e acq want provisioning db best (r ∷ rs) =
    best_wait e acq want provisioning db (better best (wait_for e acq want provisioning db r)) rs

abbrev pub freeing : Acquisition → ResourceFilter
freeing acq = record every {
  kind = acq.kind;
  class = acq.class;
  phases = Phase.ready ∷ Phase.allocated ∷ Phase.provisioning ∷ Phase.starting ∷ [];
  ownership = Ownership.managed ∷ [];
}

unfoldable pub estimate_wait : Env → Acquisition → Vector → Db → Option ℕ
unfolding wait_for
estimate_wait e acq want db =
    best_wait e acq want (Acquisitions.list_by_state (λ s. acq_eq s AcqState.provisioning) db) db
      none (list (freeing acq) db)
