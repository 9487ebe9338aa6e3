-- ===== src/Scheduler/Retreat.antt =====
-- What becomes of an acquisition whose pre-bound machine fails it, and how long a machine is left alone
-- after its start has failed (internal/scheduler/scheduler.go, resolvePending and bumpStartBackoff).
use fleetplane.Prelude.{
  ℕ, zero, suc, ◌+◌, ◌-◌, ◌*◌, ◌^◌, ◌≤◌, ◌<◌, ◌≡◌, refl, ◌∙◌, true, false, none, some, List, ltb,
  arith, min,
}
use fleetplane.Prelude.Outcome.{ok}
use fleetplane.Billing.{second}
use fleetplane.Store.{Db, Resource, Operation, OpKind, OpState, Acquisition, AcqState}
use fleetplane.Capacity.{Vector}
use fleetplane.Scheduler.Ranking.{Env}
use fleetplane.Scheduler.Parked.{
  StartFail, start_delay, bump_backoff, fail_of, under_backoff, parked_candidate,
}
use fleetplane.Scheduler.Ladder.{Sched}
use fleetplane.Store.Rows.{get_row, put_row, get_row-put_row}
use fleetplane.Store.Acquisitions
use fleetplane.Store.Acquisitions.{acq_id}
use fleetplane.LeaseManager.{attempt}
use fleetplane.Scheduler.AcqRows.{Row}
use fleetplane.Scheduler.Resume.{resolve_pending, re_pend, handle_op_terminal}

pow-pos : (k : ℕ) → 1 ≤ 2 ^ k
pow-pos zero = omega arith
pow-pos (suc k) = ground (arith, pow-pos k)

lt→ltb : {a b : ℕ} → a < b → ltb a b ≡ true
lt→ltb h = ground arith

-- Half a minute to ten minutes.
start_delay_bounds : (n : ℕ) → (30 * second ≤ start_delay n) × (start_delay n ≤ 600 * second)
unfolding start_delay
start_delay_bounds n = ground (arith, pow-pos (min (n - 1) 5))

fails_after :
    (env : ℕ → Env) (now : ℕ) (op : Operation) (res : ℕ) (s : Sched)
    → op.kind ≡ OpKind.start
    → op.state ≡ OpState.failed
    → op.resource_id ≡ some res
    → (handle_op_terminal env now op s).start_fail ≡ bump_backoff res now s.start_fail
unfolding handle_op_terminal
fails_after env now op res s k st r = rw (r, k, st)

until_bump :
    (res now : ℕ) (fs : List StartFail)
    → (now + 30000 ≤ (fail_of res (bump_backoff res now fs)).until_ms)
      × ((fail_of res (bump_backoff res now fs)).until_ms ≤ now + 600000)
unfolding bump_backoff
until_bump res now fs = ground (arith, start_delay_bounds ((fail_of res fs).attempts + 1))

-- After a start that failed at the instant `now`, the machine is no candidate for another start for
-- half a minute, and its backoff is over after ten minutes.
pub failed_start-backoff :
    (env : ℕ → Env) (now : ℕ) (op : Operation) (res : ℕ) (s : Sched)
    → op.kind ≡ OpKind.start
    → op.state ≡ OpState.failed
    → op.resource_id ≡ some res
    → ((e : Env) (want : Vector) (r : Resource)
        → r.id ≡ res
        → e.now < now + 30000
        → parked_candidate e want (handle_op_terminal env now op s).start_fail r ≡ none)
      × ((t : ℕ)
          → now + 600000 ≤ t
          → under_backoff res t (handle_op_terminal env now op s).start_fail ≡ false)
unfolding handle_op_terminal parked_candidate
failed_start-backoff env now op res s k st r =
    let after = fails_after env now op res s k st r in
    let until = until_bump res now s.start_fail in
    (
      (λ e want x same early.
          let under : under_backoff x.id e.now (handle_op_terminal env now op s).start_fail ≡ true =
            rw (after, same) (lt→ltb (ground (arith, until.0))) in
          ground (arith, under)),
      (λ t late. rw after (ground (arith, until.1))),
    )

-- The row of an acquisition whose pre-bound start failed: pending, with no machine.
abbrev pub IsFree : Acquisition → Type 0
IsFree a = (a.state ≡ AcqState.pending) × (a.pending_resource_id ≡ none)

abbrev enters : AcqState → ℕ → Acquisition → Acquisition
enters to at x = record x { state = to; updated_at = at }

-- A compare-and-set from the state that the row is in.
transition-ok :
    (acq : Acquisition) (to : AcqState) (at : ℕ) (db : Db)
    → get_row acq_id acq.id db.acquisitions ≡ some acq
    → acq.state ≡ AcqState.provisioning
    → Acquisitions.transition acq.id AcqState.provisioning to at db
      ≡ ok (record db { acquisitions = put_row acq_id acq.id (enters to at) db.acquisitions })
unfolding Acquisitions.transition
transition-ok acq to at db g st = ground (arith, g, st)

re_pend-IsFree :
    (now : ℕ) (acq : Acquisition) (db : Db)
    → get_row acq_id acq.id db.acquisitions ≡ some acq
    → acq.state ≡ AcqState.provisioning
    → Row IsFree acq.id (attempt db (re_pend now acq db))
unfolding re_pend Acquisitions.clear_pending_resource
re_pend-IsFree now acq db g st =
    let rows = put_row acq_id acq.id (enters AcqState.pending now) db.acquisitions in
    let moved : get_row acq_id acq.id rows ≡ some (enters AcqState.pending now acq) =
      get_row-put_row acq_id acq.id acq.id (enters AcqState.pending now) db.acquisitions (λ _. refl)
      ∙ ground (arith, g) in
    rw (transition-ok acq AcqState.pending now db g st) (
      record (enters AcqState.pending now acq) { pending_resource_id = none },
      get_row-put_row acq_id acq.id acq.id (λ x. record x { pending_resource_id = none }) rows
            (λ _. refl)
          ∙ ground (arith, moved),
      (refl, refl),
    )

create-failed :
    (now : ℕ) (acq : Acquisition) (db : Db)
    → get_row acq_id acq.id db.acquisitions ≡ some acq
    → acq.state ≡ AcqState.provisioning
    → Row
        (λ a. a.state ≡ AcqState.failed)
        acq.id
        (attempt db (Acquisitions.transition acq.id AcqState.provisioning AcqState.failed now db))
create-failed now acq db g st = rw (transition-ok acq AcqState.failed now db g st) (
  enters AcqState.failed now acq,
  get_row-put_row acq_id acq.id acq.id (enters AcqState.failed now) db.acquisitions (λ _. refl)
      ∙ ground (arith, g),
  refl,
)

-- When the operation of its pre-bound machine fails, a provisioning acquisition goes back to pending
-- without a machine if the operation was a start, and fails if it was a create.
pub resolve_pending-failed :
    (e : Env) (acq : Acquisition) (db : Db)
    → get_row acq_id acq.id db.acquisitions ≡ some acq
    → acq.state ≡ AcqState.provisioning
    → Row IsFree acq.id (resolve_pending e acq OpKind.start OpState.failed db)
      × Row
          (λ a. a.state ≡ AcqState.failed)
          acq.id
          (resolve_pending e acq OpKind.create OpState.failed db)
unfolding resolve_pending
resolve_pending-failed e acq db g st =
    (re_pend-IsFree e.now acq db g st, create-failed e.now acq db g st)
