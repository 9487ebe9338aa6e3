-- ===== src/Reconcile/Queue.antt =====
-- internal/reconcile/reconcile.go: the queued acquisitions that protect a machine, and costReclaim,
-- which deletes one in a single transaction.
use fleetplane.Prelude.{
  ℕ, ◌+◌, Bool, true, false, not, ◌&&◌, ◌||◌, List, [], ◌∷◌, ltb, leb, ◌==◌, if◌then◌else◌,
}
use fleetplane.Prelude.Outcome.{Outcome, ok, err, conflict, guard, ◌>>=◌, ◌>>◌}
use fleetplane.Phase.{Phase, phase_eq}
use fleetplane.Capacity.{Vector, Parsed, parse, parse_request, fits}
use fleetplane.Store.{Db, Resource, Ownership, Acquisition, AcqState, acq_eq}
use fleetplane.Store.Rows.{count_where}
use fleetplane.Store.Resources
use fleetplane.Store.Resources.{is_none}
use fleetplane.Store.Resources.Listing.{ResourceFilter, every, list}
use fleetplane.Store.Acquisitions
use fleetplane.Machines.{journal_delete_in_tx}

-- satisfiable.
unfoldable pub satisfiable : Acquisition → Vector → Resource → Vector → Bool
satisfiable acq want r total =
    acq.kind == r.kind && (acq.class == 0 || acq.class == r.class) && fits total [] want

-- A request whose queue deadline has not passed.
abbrev pub in_deadline : ℕ → Acquisition → Parsed → Bool
in_deadline now acq p =
    not (ltb 0 p.request.max_wait_ms && ltb (acq.created_at + p.request.max_wait_ms) now)

pub record QueuedAcq : Type 0 where
  pub acq : Acquisition
  pub want : Vector
  pub matched : Bool

abbrev pub queue_one : ℕ → Acquisition → Outcome Parsed → List QueuedAcq → List QueuedAcq
queue_one now acq (err x) qs = qs
queue_one now acq (ok p) qs =
    if in_deadline now acq p then record { acq = acq; want = p.want; matched = false } ∷ qs else qs

abbrev pub queue_all : ℕ → List Acquisition → List QueuedAcq
queue_all now [] = []
queue_all now (a ∷ acqs) = queue_one now a (parse_request a.constraints) (queue_all now acqs)

-- queuedAcquisitions.
unfoldable pub queued_acquisitions : ℕ → Db → List QueuedAcq
queued_acquisitions now db =
    queue_all now (Acquisitions.list_by_state (λ s. acq_eq s AcqState.pending) db)

-- The queue after a machine has been offered to it, and whether a request claims the machine.
pub record Claim : Type 0 where
  pub queue : List QueuedAcq
  pub claimed : Bool

abbrev pub after_skip : QueuedAcq → Claim → Claim
after_skip q c = record c { queue = q ∷ c.queue }

unfoldable pub claim_from : Resource → Vector → List QueuedAcq → Claim
unfolding satisfiable
claim_from r total [] = record { queue = []; claimed = false }
claim_from r total (q ∷ qs) =
    let rest = after_skip q (claim_from r total qs) in
    if not q.matched && satisfiable q.acq q.want r total
    then record { queue = record q { matched = true } ∷ qs; claimed = true }
    else rest

abbrev pub claim_total : List QueuedAcq → Resource → Outcome Vector → Claim
claim_total qs r (err x) = record { queue = qs; claimed = false }
claim_total qs r (ok total) = claim_from r total qs

-- claimQueued: the first unmatched request that fits protects the machine.
unfoldable pub claim_queued : List QueuedAcq → Resource → Claim
unfolding claim_from
claim_queued qs r = claim_total qs r (parse r.capacity)

abbrev pub or_empty : Outcome Vector → Vector
or_empty (err x) = []
or_empty (ok v) = v

abbrev pub wants : ℕ → Resource → Vector → Acquisition → Outcome Parsed → Bool
wants now r total acq (err x) = false
wants now r total acq (ok p) = in_deadline now acq p && satisfiable acq p.want r total

-- The number of queued requests that the machine could serve.
unfoldable pub count_wanting : ℕ → Resource → Db → ℕ
unfolding satisfiable
count_wanting now r db =
    count_where (λ a. wants now r (or_empty (parse r.capacity)) a (parse_request a.constraints))
      (Acquisitions.list_by_state (λ s. acq_eq s AcqState.pending) db)

abbrev pub ready_like : Resource → ResourceFilter
ready_like r = record every {
  kind = r.kind;
  class = r.class;
  phases = Phase.ready ∷ [];
  ownership = Ownership.managed ∷ [];
}

-- The ready machines of the kind and class that would remain.
unfoldable pub count_remaining : Resource → Db → ℕ
count_remaining r db =
    count_where (λ o. not (o.id == r.id) && is_none o.deleted_at) (list (ready_like r) db)

-- costReclaim; `op` is the fresh operation id.
unfoldable pub cost_reclaim : ℕ → ℕ → ℕ → Phase → Db → Outcome Db
unfolding count_wanting count_remaining
cost_reclaim op res now from db = do
  r ← Resources.get res db
  guard (is_none r.deleted_at && phase_eq r.phase from) conflict
  guard (count_wanting now r db == 0 || leb (count_wanting now r db) (count_remaining r db))
      conflict
  journal_delete_in_tx op r now db
