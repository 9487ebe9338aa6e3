-- ===== src/Scheduler/Answers.antt =====
-- What Satisfy answers (internal/scheduler/scheduler.go).
use fleetplane.Prelude.{
  ℕ, ◌+◌, ◌<◌, ◌≡◌, inl, inr, refl, ◌∙◌, ap, subst, true, false, Option, none, some, arith, Bool,
  Bool-cases, List, ◌∷◌,
}
use fleetplane.Prelude.Outcome.{Outcome, ok, err, not_found, or_fail}
use fleetplane.Capacity.{Vector, Parsed, parse_request}
use fleetplane.Store.{Db, Acquisition, AcqState, Resource, Lease, LeaseState, acq_eq}
use fleetplane.Store.Rows.{get_row, get_row-key}
use fleetplane.Store.Acquisitions
use fleetplane.Store.Acquisitions.{acq_id}
use fleetplane.Store.Events
use fleetplane.Store.Leases
use fleetplane.Store.Leases.{lease_id}
use fleetplane.Store.Resources
use fleetplane.Scheduler.{reserve, occupy, new_lease}
use fleetplane.Scheduler.Steps.{steps}
use fleetplane.Scheduler.Ranking.{Env}
use fleetplane.Scheduler.Ordered.{IsOrdered, claim-IsOrdered}
use fleetplane.Scheduler.Ladder.{Sched, satisfy, satisfy_found, climb, mark_queued}
use fleetplane.Scheduler.Rungs.{Rungs, climb-rule}
use fleetplane.Scheduler.AcqRows.{IsBound, IsPrebound, Row, claim-Row, reserve-Row, scale-Row}

-- An acquisition that waits: its request has a queue budget that has not run out.
abbrev pub Waits : Env → Acquisition → Type 0
Waits e a =
    (p : Parsed) × (parse_request a.constraints ≡ ok p)
    × (a.state ≡ AcqState.pending)
    × (e.now < a.created_at + p.request.max_wait_ms)

-- The lease is in the table, active and on the machine.
abbrev pub IsLeased : ℕ → ℕ → Db → Type 0
IsLeased lease res db =
    (l : Lease) × (get_row lease_id lease db.leases ≡ some l)
    × (l.state ≡ LeaseState.active)
    × (l.resource_id ≡ res)

-- How an acquisition that was stored as `before` stands as `a` after Satisfy, which took the state
-- `s` to `s'`.
pub data Stands (e : Env) (s s' : Sched) (before a : Acquisition) : Type 0 where
  settled :
      acq_eq before.state AcqState.pending ≡ false → s' ≡ s → a ≡ before → Stands e s s' before a
  reused :
      acq_eq before.state AcqState.pending ≡ true
      → (lease res : ℕ) → IsBound lease a
      → IsLeased lease res s'.db
      → Stands e s s' before a
  prebound :
      acq_eq before.state AcqState.pending ≡ true
      → (res : ℕ) → IsPrebound res a
      → IsOrdered res s.db s'.db
      → Stands e s s' before a
  waiting :
      acq_eq before.state AcqState.pending ≡ true → a ≡ before → Waits e a → Stands e s s' before a

-- What a call from the state `s` gives: the row as it is stored, which stands so after the row
-- stored before, or an error and no change.
abbrev pub AnswersTo : Env → ℕ → Sched → Sched → Outcome Acquisition → Type 0
AnswersTo e id s s' (err x) = s' ≡ s
AnswersTo e id s s' (ok a) =
    (get_row acq_id id s'.db.acquisitions ≡ some a)
    × (before : Acquisition) × (get_row acq_id id s.db.acquisitions ≡ some before)
    × Stands e s s' before a

read-Answers :
    (e : Env) (id : ℕ) (s s' : Sched) (before : Acquisition)
    → get_row acq_id id s.db.acquisitions ≡ some before
    → Row (Stands e s s' before) id s'.db
    → AnswersTo e id s s' (Acquisitions.get id s'.db)
unfolding Acquisitions.get
read-Answers e id s s' before g0 (a, g, st) = rw g (g, before, g0, st)

insert-leases :
    (l : Lease) (db : Db) {d : Db} → Leases.insert l db ≡ ok d → d.leases ≡ l ∷ db.leases
unfolding Leases.insert
insert-leases l db h = ground arith

occupy-leases :
    (r : Resource) (res now : ℕ) (db : Db) {d : Db}
    → occupy r res now db ≡ ok d
    → d.leases ≡ db.leases
unfolding occupy Resources.cas_phase
occupy-leases r res now db h = ground arith

bind-leases :
    (id lease at : ℕ) (db : Db) {d : Db}
    → Acquisitions.bind id lease at db ≡ ok d
    → d.leases ≡ db.leases
unfolding Acquisitions.bind
bind-leases id lease at db h = ground arith

newest : (l : Lease) (ls : List Lease) → get_row lease_id l.id (l ∷ ls) ≡ some l
newest l ls = ground arith

-- The reservation leaves its lease in the table, active.
reserve-IsLeased :
    (lease now : ℕ) (acq : Acquisition) (res : ℕ) (want : Vector) (exclusive : Bool) (db : Db)
    {d : Db}
    → reserve lease now acq res want exclusive db ≡ ok d
    → IsLeased lease res d
unfolding Events.append
reserve-IsLeased lease now acq res want exclusive db h =
    let st = steps lease now acq res want exclusive db h in
    let l = new_lease lease now acq res want exclusive in
    (
      l,
      ap (get_row lease_id lease) (
            ap (λ x. x.leases) st.result
            ∙ bind-leases acq.id lease now st.db2 st.bound
            ∙ occupy-leases st.r res now st.db1 st.occupied
            ∙ insert-leases l db st.inserted)
          ∙ newest l db.leases,
      refl,
      refl,
    )

queued-acquisitions :
    (e : Env) (acq : Acquisition) (s : Sched)
    → (mark_queued e acq s).db.acquisitions ≡ s.db.acquisitions
unfolding Events.append
queued-acquisitions e acq s = ground arith

Rungs-Answers :
    (e : Env) (acq : Acquisition) (s : Sched)
    → get_row acq_id acq.id s.db.acquisitions ≡ some acq
    → acq_eq acq.state AcqState.pending ≡ true
    → Rungs (λ t. AnswersTo e acq.id s t.state t.result) e acq s
Rungs-Answers e acq s g pend = record {
  refused = λ x. refl;
  reused = λ p i res d qs h.
      let (a, r, b) = reserve-Row (e.lease_ids i) e.now acq res p.want p.exclusive s.db h in
      let leased = reserve-IsLeased (e.lease_ids i) e.now acq res p.want p.exclusive s.db h in
      read-Answers e acq.id s (record s { db = d; queued = qs }) acq g
        (a, r, reused pend (e.lease_ids i) res b leased);
  started = λ i res d h.
      let (a, r, b) = claim-Row e i acq res s.db h in
      read-Answers e acq.id s (record s { db = d }) acq g
        (a, r, prebound pend res b (claim-IsOrdered e i acq res s.db h));
  waits = λ p parsed y. (
    ap (get_row acq_id acq.id) (queued-acquisitions e acq s) ∙ g,
    acq,
    g,
    waiting pend refl (p, parsed, ground arith, ground arith),
  );
  scaled = λ d h.
      let (a, r, (res, b, ordered)) = scale-Row e acq s.db h in
      read-Answers e acq.id s (record s { db = d }) acq g (a, r, prebound pend res b ordered);
}

found-Answers :
    (e : Env) (id : ℕ) (s : Sched) (o : Option Acquisition)
    → get_row acq_id id s.db.acquisitions ≡ o
    → AnswersTo e id s
        (satisfy_found e s (or_fail o not_found)).state
        (satisfy_found e s (or_fail o not_found)).result
found-Answers e id s none g = refl
found-Answers e id s (some acq) g =
    let here : acq.id ≡ id = get_row-key acq_id id s.db.acquisitions acq g in
    elim (Bool-cases (acq_eq acq.state AcqState.pending)) [
      | inl y ↦ rw y (
          subst
            (λ i.
              AnswersTo e i s (climb e acq s (parse_request acq.constraints)).state
                (climb e acq s (parse_request acq.constraints)).result)
            here
            (climb-rule (λ t. AnswersTo e acq.id s t.state t.result) e acq s
              (Rungs-Answers e acq s (ap (λ i. get_row acq_id i s.db.acquisitions) here ∙ g) y)))
      | inr n ↦ rw n (g, acq, g, settled n refl refl)
    ]

-- Satisfy answers with the acquisition as it is stored then. One that was not pending before the
-- call is as it was, and so is the whole state. One that was pending is now bound to a lease that is
-- active in the table, or it is provisioning and pre-bound to a machine of which the newest operation
-- in the journal is the start or the create, or its row is unchanged and it waits, with a queue
-- budget that has not run out. An error leaves the state as it was.
pub satisfy_lem :
    (e : Env) (id : ℕ) (s : Sched) → AnswersTo e id s (satisfy e id s).state (satisfy e id s).result
unfolding satisfy Acquisitions.get
satisfy_lem e id s = found-Answers e id s (get_row acq_id id s.db.acquisitions) refl
