-- ===== src/Scheduler/Parked.antt =====
-- internal/scheduler/scheduler.go, startParked: an acquisition claims a parked machine, and the
-- backoff that keeps the ladder off a machine whose start keeps failing.
use fleetplane.Prelude.{
  ℕ, suc, ◌+◌, ◌-◌, ◌*◌, ◌/◌, ◌^◌, Bool, true, false, not, Option, none, some, List, [], ◌∷◌, ltb,
  ◌==◌, if◌then◌else◌, take, select, min,
}
use fleetplane.Prelude.Outcome.{Outcome, Error, ok, err, conflict, ◌>>=◌}
use fleetplane.Phase.{Phase}
use fleetplane.Capacity.{Vector, parse, fits, free_after}
use fleetplane.Billing.{ms, second}
use fleetplane.Store.{Db, Resource, Ownership, Acquisition, AcqState}
use fleetplane.Store.Acquisitions
use fleetplane.Store.Resources.Listing.{ResourceFilter, every, list}
use fleetplane.Machines.{journal_start}
use fleetplane.Scheduler.Ranking.{Env, Candidate, unfavoured, rank, map_candidate}

pub record StartFail : Type 0 where
  pub resource : ℕ
  pub until_ms : ℕ
  pub attempts : ℕ

-- `s.startFail[id]`, zero when absent.
abbrev pub fail_of : ℕ → List StartFail → StartFail
fail_of id [] = record { resource = id; until_ms = 0; attempts = 0 }
fail_of id (f ∷ fs) = let rest = fail_of id fs in if f.resource == id then f else rest

-- underStartBackoff.
abbrev pub under_backoff : ℕ → ℕ → List StartFail → Bool
under_backoff id now fs = ltb now (fail_of id fs).until_ms

-- clearStartBackoff.
abbrev pub clear_backoff : ℕ → List StartFail → List StartFail
clear_backoff id fs = select (λ f. not (f.resource == id)) fs

-- `(30 * time.Second) << min(attempts-1, 5)`, at most ten minutes.
unfoldable pub start_delay : ℕ → ℕ
start_delay attempts =
    let delay = 30 * second * 2 ^ min (attempts - 1) 5 in
    if ltb (600 * second) delay then 600 * second else delay

-- bumpStartBackoff.
unfoldable pub bump_backoff : ℕ → ℕ → List StartFail → List StartFail
unfolding start_delay
bump_backoff id now fs =
    let attempts = (fail_of id fs).attempts + 1 in
    record { resource = id; until_ms = now + start_delay attempts / ms; attempts = attempts }
    ∷ clear_backoff id fs

abbrev pub parked_for : Acquisition → ResourceFilter
parked_for acq = record every {
  kind = acq.kind;
  class = acq.class;
  phases = Phase.parked ∷ [];
  ownership = Ownership.managed ∷ [];
}

abbrev pub parked_fits : Vector → Resource → Outcome Vector → Option Candidate
parked_fits want r (err x) = none
parked_fits want r (ok total) =
    if fits total [] want then some (unfavoured r.id (free_after total [] want)) else none

-- One round of the loop over the parked machines.
unfoldable pub parked_candidate : Env → Vector → List StartFail → Resource → Option Candidate
parked_candidate e want fails r =
    if under_backoff r.id e.now fails
    then none
    else if not (e.parking r.provider r.kind)
    then none
    else parked_fits want r (parse r.capacity)

abbrev pub parked_candidates : Env → Vector → List StartFail → List Resource → List Candidate
parked_candidates e want fails [] = []
parked_candidates e want fails (r ∷ rs) =
    map_candidate (λ c. c) (parked_candidate e want fails r) (parked_candidates e want fails rs)

-- The transaction that claims a machine.
unfoldable pub claim_parked : Env → ℕ → Acquisition → ℕ → Db → Outcome Db
claim_parked e i acq res db = do
  db1 ← Acquisitions.transition acq.id AcqState.pending AcqState.provisioning e.now db
  db2 ← journal_start e.parking (e.op_ids i) res e.now db1
  Acquisitions.set_pending_resource acq.id res db2

abbrev pub is_conflict : Error → Bool
is_conflict conflict = true
is_conflict _ = false

-- A conflict goes on to the next candidate; `ok none` means that none was claimed.
abbrev pub after_claim : Outcome (Option Db) → Outcome Db → Outcome (Option Db)
after_claim rest (ok d) = ok (some d)
after_claim rest (err x) = if is_conflict x then rest else err x

unfoldable pub claim_first : Env → ℕ → Acquisition → List Candidate → Db → Outcome (Option Db)
unfolding claim_parked
claim_first e i acq [] db = ok none
claim_first e i acq (c ∷ cs) db =
    after_claim (claim_first e (suc i) acq cs db) (claim_parked e i acq c.id db)

unfoldable pub start_parked : Env → Acquisition → Vector → List StartFail → Db → Outcome (Option Db)
unfolding claim_first parked_candidate
start_parked e acq want fails db =
    claim_first e 0 acq (take 3 (rank (parked_candidates e want fails (list (parked_for acq) db))))
      db
