-- ===== src/Scheduler.antt =====
-- internal/scheduler/scheduler.go, reserve: the transaction that binds an acquisition to a machine
-- and its lease, the only writer of new leases.
pub mod Reserve
pub mod Steps
pub mod Ranking
pub mod Parked
pub mod Estimate
pub mod Ladder
pub mod Resume
pub mod Sound
pub mod Keeps
pub mod Rungs
pub mod Satisfied
pub mod Resumed
pub mod Ordered
pub mod AcqRows
pub mod Answers
pub mod Agrees
pub mod Order
pub mod Retreat
use fleetplane.Prelude.{
  ℕ, ◌+◌, ◌*◌, Bool, true, false, not, ◌&&◌, ◌||◌, Option, none, some, List, [], ◌∷◌, ltb,
  if◌then◌else◌,
}
use fleetplane.Prelude.Outcome.{Outcome, ok, err, conflict, insufficient, guard, ◌>>=◌, ◌>>◌}
use fleetplane.Prelude.Json.{Json}
use fleetplane.Prelude.Int64.{ltb_ℤ}
use fleetplane.Phase.{Phase, phase_eq}
use fleetplane.Capacity.{Vector, parse, fits, at_dim, add_into}
use fleetplane.Store.{Db, Resource, Lease, LeaseState, Acquisition, EventType, is_managed}
use fleetplane.Store.Resources
use fleetplane.Store.Resources.{is_none}
use fleetplane.Store.Leases
use fleetplane.Store.Acquisitions
use fleetplane.Store.Events

abbrev pub eligible : Resource → Bool
eligible r =
    is_none r.deleted_at
    && (phase_eq r.phase Phase.ready || phase_eq r.phase Phase.allocated)
    && is_managed r.ownership

-- The capacity of a lease, nothing when it does not decode.
abbrev pub parsed : Outcome Vector → Vector
parsed (ok c) = c
parsed (err e) = []

-- The loop over the active leases: an exclusive one refuses, the others add to `used`.
unfoldable pub in_use : Vector → List Lease → Outcome Vector
in_use used [] = ok used
in_use used (l ∷ ls) =
    let rest = in_use (add_into used (parsed (parse l.capacity))) ls in
    if l.exclusive then err insufficient else rest

abbrev pub no_leases : List Lease → Bool
no_leases [] = true
no_leases (l ∷ ls) = false

-- The checks before the lease is written; the result is the machine's total capacity.
unfoldable pub admit : Resource → List Lease → Vector → Bool → Outcome Vector
unfolding in_use
admit r active want exclusive = do
  guard (eligible r) conflict
  total ← parse r.capacity
  guard (not (exclusive && not (no_leases active))) insufficient
  used ← in_use [] active
  guard (fits total used want) insufficient
  ok total

-- `for dim, t := range total { if sum[dim] > t { … } }`.
abbrev pub over_allocated : Vector → Vector → Bool
over_allocated sum [] = false
over_allocated sum ((d, t) ∷ total) = ltb_ℤ t (at_dim sum d) || over_allocated sum total

-- The check after the lease is written, against the stored leases.
unfoldable pub confirm : Vector → Outcome Vector → Outcome (Unit {0})
confirm total sum = sum >>= λ s. guard (not (over_allocated s total)) conflict

abbrev pub expiry : ℕ → ℕ → Option ℕ
expiry now ttl = if ltb 0 ttl then some (now + ttl * 1000) else none

abbrev pub new_lease : ℕ → ℕ → Acquisition → ℕ → Vector → Bool → Lease
new_lease id now acq res want exclusive = record {
  id = id;
  acquisition_id = acq.id;
  resource_id = res;
  holder = acq.actor;
  capacity = Json.doc want;
  exclusive = exclusive;
  state = LeaseState.active;
  expires_at = expiry now acq.ttl_seconds;
  created_at = now;
  ended_at = none;
}

-- ready → allocated; an allocated machine stays allocated.
unfoldable pub occupy : Resource → ℕ → ℕ → Db → Outcome Db
occupy r res now db =
    if phase_eq r.phase Phase.ready
    then Resources.cas_phase res Phase.ready Phase.allocated now db
    else ok db

-- reserve; `lease` is the fresh lease id.
unfoldable pub reserve : ℕ → ℕ → Acquisition → ℕ → Vector → Bool → Db → Outcome Db
unfolding admit confirm occupy
reserve lease now acq res want exclusive db = do
  r ← Resources.get res db
  total ← admit r (Leases.active_by_resource res db) want exclusive
  db1 ← Leases.insert (new_lease lease now acq res want exclusive) db
  confirm total (Leases.sum_active res db1)
  db2 ← occupy r res now db1
  db3 ← Acquisitions.bind acq.id lease now db2
  ok (Events.append now EventType.acquisition_bound (some res) none db3)
