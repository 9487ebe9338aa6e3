-- ===== src/Scheduler/Rungs.antt =====
-- The rule of the ladder: what every rung of Satisfy establishes, Satisfy establishes
-- (internal/scheduler/scheduler.go).
use fleetplane.Prelude.{
  ℕ, suc, ◌≡◌, inl, inr, refl, Bool, true, Option, none, some, List, [], ◌∷◌, take, Bool-cases,
  if-intro,
}
use fleetplane.Prelude.Outcome.{Outcome, Error, ok, err, OnOk, OnOk-of}
use fleetplane.Capacity.{Vector, Parsed, parse_request}
use fleetplane.Store.{Db, Acquisition}
use fleetplane.Store.Resources.Listing.{list}
use fleetplane.Scheduler.{reserve}
use fleetplane.Scheduler.Ranking.{Env, Candidate, rank, ranked_candidates}
use fleetplane.Scheduler.Parked.{
  claim_parked, claim_first, after_claim, is_conflict, start_parked, parked_candidates, parked_for,
}
use fleetplane.Scheduler.Ladder.{
  Sched, Bound, Answered, after_reserve, reserve_first, next_best, scale_on_demand, climb,
  after_reuse, after_start, queue_or_scale, after_scale, mark_queued, may_wait, read_back,
  failed_with, observe_bound,
}

-- Of the database that a search returns, if it returns one.
abbrev OnSome : (Db → Type 0) → Option Db → Type 0
OnSome P none = Unit
OnSome P (some d) = P d

abbrev OnBound : (Db → Type 0) → Option Bound → Type 0
OnBound P none = Unit
OnBound P (some b) = P b.db

module _ (P : Db → Type 0) where
  after_claim-each :
      (rest : Outcome (Option Db)) (m : Outcome Db)
      → OnOk (OnSome P) rest
      → OnOk P m
      → OnOk (OnSome P) (after_claim rest m)
  after_claim-each rest (ok d) h k = k
  after_claim-each rest (err x) h k = if-intro (OnOk (OnSome P)) (is_conflict x) h tt

  after_reserve-each :
      (res : ℕ) (rest : Outcome (Option Bound)) (m : Outcome Db)
      → OnOk (OnBound P) rest
      → OnOk P m
      → OnOk (OnBound P) (after_reserve res rest m)
  after_reserve-each res rest (ok d) h k = k
  after_reserve-each res rest (err x) h k = if-intro (OnOk (OnBound P)) (next_best x) h tt

module _ (P : Db → Type 0) (e : Env) (acq : Acquisition) (db : Db) where
  claim_first-each :
      ((i res : ℕ) (d : Db) → claim_parked e i acq res db ≡ ok d → P d)
      → (i : ℕ) (cs : List Candidate) → OnOk (OnSome P) (claim_first e i acq cs db)
  unfolding claim_first
  claim_first-each k i [] = tt
  claim_first-each k i (c ∷ cs) =
      after_claim-each P (claim_first e (suc i) acq cs db) (claim_parked e i acq c.id db)
        (claim_first-each k (suc i) cs) (OnOk-of P (claim_parked e i acq c.id db) (k i c.id))

  reserve_first-each :
      (want : Vector) (exclusive : Bool)
      → ((i res : ℕ) (d : Db)
          → reserve (e.lease_ids i) e.now acq res want exclusive db ≡ ok d
          → P d)
      → (i : ℕ) (cs : List Candidate)
      → OnOk (OnBound P) (reserve_first e i acq want exclusive cs db)
  unfolding reserve_first
  reserve_first-each want exclusive k i [] = tt
  reserve_first-each want exclusive k i (c ∷ cs) =
      after_reserve-each P c.id (reserve_first e (suc i) acq want exclusive cs db)
        (reserve (e.lease_ids i) e.now acq c.id want exclusive db)
        (reserve_first-each want exclusive k (suc i) cs)
        (OnOk-of P (reserve (e.lease_ids i) e.now acq c.id want exclusive db) (k i c.id))

-- What each rung establishes of the answer.
pub record Rungs (Q : Answered → Type 0) (e : Env) (acq : Acquisition) (s : Sched) : Type 0 where
  pub refused : (x : Error) → Q (failed_with s x)
  pub reused :
      (p : Parsed) (i res : ℕ) (d : Db) (qs : List ℕ)
      → reserve (e.lease_ids i) e.now acq res p.want p.exclusive s.db ≡ ok d
      → Q (read_back acq (record s { db = d; queued = qs }))
  pub started :
      (i res : ℕ) (d : Db)
      → claim_parked e i acq res s.db ≡ ok d
      → Q (read_back acq (record s { db = d }))
  pub waits :
      (p : Parsed)
      → parse_request acq.constraints ≡ ok p
      → may_wait e acq p s.db ≡ true
      → Q (record { state = mark_queued e acq s; result = ok acq })
  pub scaled :
      (d : Db) → scale_on_demand e acq s.db ≡ ok d → Q (read_back acq (record s { db = d }))

module _ (Q : Answered → Type 0) (e : Env) (acq : Acquisition) (s : Sched)
    (rungs : Rungs Q e acq s) where
  scale-rung : (m : Outcome Db) → scale_on_demand e acq s.db ≡ m → Q (after_scale acq s m)
  scale-rung (err x) h = rungs.refused x
  scale-rung (ok d) h = rungs.scaled d h

  queue-rung : (p : Parsed) → parse_request acq.constraints ≡ ok p → Q (queue_or_scale e acq p s)
  queue-rung p parsed = elim (Bool-cases (may_wait e acq p s.db)) [
    | inl y ↦ rw y (rungs.waits p parsed y)
    | inr n ↦ rw n (scale-rung (scale_on_demand e acq s.db) refl)
  ]

  -- The rung after the search over the parked machines.
  start-rung :
      (p : Parsed) (m : Outcome (Option Db))
      → parse_request acq.constraints ≡ ok p
      → OnOk (OnSome (λ d. Q (read_back acq (record s { db = d })))) m
      → Q (after_start e acq p s m)
  start-rung p (err x) parsed h = rungs.refused x
  start-rung p (ok (some d)) parsed h = h
  start-rung p (ok none) parsed h = queue-rung p parsed

  OfQueues : Db → Type 0
  OfQueues d = (qs : List ℕ) → Q (read_back acq (record s { db = d; queued = qs }))

  reuse-rung :
      (p : Parsed) (m : Outcome (Option Bound))
      → parse_request acq.constraints ≡ ok p
      → OnOk (OnBound OfQueues) m
      → Q (after_reuse e acq p s m)
  unfolding start_parked OfQueues
  reuse-rung p (err x) parsed h = rungs.refused x
  reuse-rung p (ok (some b)) parsed h = h (observe_bound acq b.resource s.queued)
  reuse-rung p (ok none) parsed h =
      start-rung p (start_parked e acq p.want s.start_fail s.db) parsed (
        claim_first-each (λ d. Q (read_back acq (record s { db = d }))) e acq s.db rungs.started 0
          (take 3 (rank (parked_candidates e p.want s.start_fail (list (parked_for acq) s.db)))))

  parsed-rung : (m : Outcome Parsed) → parse_request acq.constraints ≡ m → Q (climb e acq s m)
  unfolding OfQueues
  parsed-rung (err x) parsed = rungs.refused x
  parsed-rung (ok p) parsed =
      let best = take 3 (ranked_candidates e acq p.want p.exclusive s.db) in
      reuse-rung p (reserve_first e 0 acq p.want p.exclusive best s.db) parsed (
        reserve_first-each OfQueues e acq s.db p.want p.exclusive
          (λ i res d h qs. rungs.reused p i res d qs h) 0 best)

  -- The ladder of a pending acquisition.
  pub climb-rule : Q (climb e acq s (parse_request acq.constraints))
  climb-rule = parsed-rung (parse_request acq.constraints) refl
