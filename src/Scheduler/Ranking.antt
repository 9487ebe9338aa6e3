-- ===== src/Scheduler/Ranking.antt =====
-- internal/scheduler/scheduler.go, rankedCandidates: the machines that could host a request, filtered
-- and ordered on a read snapshot.
use fleetplane.Prelude.{
  ℕ, ◌+◌, ◌-◌, ◌*◌, ◌/◌, Bool, not, ◌&&◌, ◌||◌, Option, none, some, List, [], ◌∷◌, ltb, leb, ◌==◌,
  if◌then◌else◌,
}
use fleetplane.Prelude.Outcome.{Outcome, ok, err}
use fleetplane.Prelude.Int64.{ℤ, ltb_ℤ}
use fleetplane.Phase.{Phase}
use fleetplane.Capacity.{Vector, parse, fits, free_after}
use fleetplane.Billing.{BillingPolicy, ms, second, fine_grained, next_boundary, effective_buffer}
use fleetplane.Store.{Db, Resource, Ownership, Acquisition, Lease}
use fleetplane.Store.Leases
use fleetplane.Store.Resources.Listing.{ResourceFilter, every, list}
use fleetplane.Provision.{Planner}
use fleetplane.Reconcile.{Class}
use fleetplane.Scheduler.{in_use, no_leases}

-- What the scheduler reads outside the database: the clock, the ids that it mints, by attempt, the
-- class resolver and the providers' policies.
pub record Env : Type 0 where
  pub now : ℕ
  pub lease_ids : ℕ → ℕ
  pub op_ids : ℕ → ℕ
  pub resource_id : ℕ
  pub parking : ℕ → ℕ → Bool
  pub start_hint : ℕ → ℕ → ℕ
  pub billing : ℕ → ℕ → BillingPolicy
  pub classes : ℕ → Option Class
  pub planner : Planner

pub record Candidate : Type 0 where
  pub id : ℕ
  pub score : ℤ
  pub tier : ℕ
  pub slack : ℕ

abbrev pub unfavoured : ℕ → ℤ → Candidate
unfavoured id score = record { id = id; score = score; tier = 2; slack = 0 }

-- The tier by the end of the lease, the safe point and the boundary.
abbrev pub placed : Candidate → ℕ → ℕ → ℕ → Candidate
placed c lease_end safe boundary =
    if leb lease_end safe
    then record c { tier = 0; slack = safe - lease_end }
    else if leb lease_end boundary
    then record c { tier = 1 }
    else c

abbrev pub at_boundary : Candidate → ℕ → ℕ → Option ℕ → Candidate
at_boundary c lease_end buffer none = c
at_boundary c lease_end buffer (some b) = placed c lease_end (b - buffer / ms) b

-- The billing tier; the floor of the buffer is that of a sweep every 15 seconds.
unfoldable pub tiered : Env → Acquisition → Resource → Candidate → Candidate
tiered e acq r c =
    let pol = e.billing r.provider r.kind in
    if ltb 0 acq.ttl_seconds && not (fine_grained pol)
    then at_boundary c (e.now + acq.ttl_seconds * 1000) (effective_buffer pol (15 * second))
        (next_boundary r.created_at pol e.now)
    else c

abbrev pub when_fits : Vector → Vector → Resource → Outcome Vector → Option Candidate
when_fits total want r (err x) = none
when_fits total want r (ok used) =
    if fits total used want then some (unfavoured r.id (free_after total used want)) else none

abbrev pub with_total : List Lease → Vector → Bool → Resource → Outcome Vector → Option Candidate
with_total active want exclusive r (err x) = none
with_total active want exclusive r (ok total) =
    if exclusive && not (no_leases active) then none else when_fits total want r (in_use [] active)

-- One round of the loop: none where it continues.
unfoldable pub candidate : List Lease → Vector → Bool → Resource → Option Candidate
candidate active want exclusive r = with_total active want exclusive r (parse r.capacity)

abbrev pub map_candidate :
    (Candidate → Candidate) → Option Candidate → List Candidate → List Candidate
map_candidate f none cs = cs
map_candidate f (some c) cs = f c ∷ cs

unfoldable pub candidates : Env → Acquisition → Vector → Bool → Db → List Resource → List Candidate
unfolding candidate tiered
candidates e acq want exclusive db [] = []
candidates e acq want exclusive db (r ∷ rs) =
    map_candidate (tiered e acq r) (candidate (Leases.active_by_resource r.id db) want exclusive r)
      (candidates e acq want exclusive db rs)

-- The order of the placements: billing tier, paid-window best fit within tier 0, capacity best fit,
-- then the id.
unfoldable pub precedes : Candidate → Candidate → Bool
precedes a b =
    if not (a.tier == b.tier)
    then ltb a.tier b.tier
    else if a.tier == 0 && not (a.slack == b.slack)
    then ltb a.slack b.slack
    else if ltb_ℤ a.score b.score || ltb_ℤ b.score a.score
    then ltb_ℤ a.score b.score
    else ltb a.id b.id

abbrev pub insert_ranked : Candidate → List Candidate → List Candidate
insert_ranked c [] = c ∷ []
insert_ranked c (d ∷ ds) =
    let rest = insert_ranked c ds in if precedes d c then d ∷ rest else c ∷ d ∷ ds

-- sort.Slice by the order.
unfoldable pub rank : List Candidate → List Candidate
unfolding precedes
rank [] = []
rank (c ∷ cs) = insert_ranked c (rank cs)

abbrev pub hosts : Acquisition → ResourceFilter
hosts acq = record every {
  kind = acq.kind;
  class = acq.class;
  phases = Phase.ready ∷ Phase.allocated ∷ [];
  ownership = Ownership.managed ∷ [];
}

unfoldable pub ranked_candidates : Env → Acquisition → Vector → Bool → Db → List Candidate
unfolding candidates rank
ranked_candidates e acq want exclusive db =
    rank (candidates e acq want exclusive db (list (hosts acq) db))
