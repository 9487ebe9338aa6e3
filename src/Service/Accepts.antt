-- ===== src/Service/Accepts.antt =====
-- An acquisition with an idempotency key is requested once (internal/app/acquire.go).
use fleetplane.Prelude.{
  ℕ, ◌≡◌, refl, subst, sym, ◌∙◌, ap, Bool, true, false, Option, none, some, ◌==◌, if◌then◌else◌,
  if-intro, arith, not, ◌&&◌, ◌||◌,
}
use fleetplane.Prelude.Outcome.{
  Outcome, ok, err, invalid, guard, OnOk, OnOk-of, OnOk-ok, OnOk-bind, >>=-eq-ok, idem_mismatch,
  ◌>>=◌,
}
use fleetplane.Prelude.Json.{Json}
use fleetplane.Capacity.{Vector}
use fleetplane.Store.{Db, Resource, Operation, Acquisition, Lease, AcqState, acq_eq}
use fleetplane.Store.Resources
use fleetplane.Store.Acquisitions
use fleetplane.Store.Operations
use fleetplane.Store.Leases
use fleetplane.Store.Events
use fleetplane.Store.Idempotency.{find}
use fleetplane.LeaseManager.{attempt}
use fleetplane.Machines.{journal_start}
use fleetplane.Provision.{prepare}
use fleetplane.Reconcile.{Class}
use fleetplane.Scheduler.{reserve, occupy}
use fleetplane.Scheduler.Steps.{steps}
use fleetplane.Scheduler.Ranking.{Env}
use fleetplane.Scheduler.Parked.{claim_parked}
use fleetplane.Scheduler.Ladder.{
  Sched, Answered, scale_to, scale_class, scale_on_demand, scale_spec, satisfy, satisfy_found,
  is_queued,
}
use fleetplane.Scheduler.Rungs.{Rungs, climb-rule}
use fleetplane.Scheduler.Resume.{refused}
use fleetplane.Service.{Key, Answer, Served, keyed_request, journal_create}
use fleetplane.Service.Replays.{KeepsIdem, keyed_request-replay}
use fleetplane.Service.Acquire.{
  AcquireCmd, Acquired, acquire, acquire_work, after_satisfy, converge, effective_wait, is_blank,
  payload, requested,
}

-- The idempotency records stay as they are.
abbrev SameIdem : Db → Db → Type 0
SameIdem db d = d.idem ≡ db.idem

insert-SameIdem : (l : Lease) (db : Db) {d : Db} → Leases.insert l db ≡ ok d → SameIdem db d
unfolding Leases.insert
insert-SameIdem l db h = ground arith

occupy-SameIdem :
    (r : Resource) (res now : ℕ) (db : Db) {d : Db} → occupy r res now db ≡ ok d → SameIdem db d
unfolding occupy Resources.cas_phase
occupy-SameIdem r res now db h = ground arith

bind-SameIdem :
    (id l now : ℕ) (db : Db) {d : Db} → Acquisitions.bind id l now db ≡ ok d → SameIdem db d
unfolding Acquisitions.bind
bind-SameIdem id l now db h = ground arith

reserve-SameIdem :
    (lease now : ℕ) (acq : Acquisition) (res : ℕ) (want : Vector) (exclusive : Bool) (db : Db)
    {d : Db}
    → reserve lease now acq res want exclusive db ≡ ok d
    → SameIdem db d
unfolding Events.append
reserve-SameIdem lease now acq res want exclusive db h =
    let st = steps lease now acq res want exclusive db h in
    ap (λ e. e.idem) st.result
    ∙ bind-SameIdem acq.id lease now st.db2 st.bound
    ∙ occupy-SameIdem st.r res now st.db1 st.occupied
    ∙ insert-SameIdem _ db st.inserted

transition-SameIdem :
    (id : ℕ) (from to : AcqState) (at : ℕ) (db : Db)
    → OnOk (SameIdem db) (Acquisitions.transition id from to at db)
unfolding Acquisitions.transition
transition-SameIdem id from to at db = ground arith

prebind-SameIdem :
    (id res : ℕ) (db : Db) → OnOk (SameIdem db) (Acquisitions.set_pending_resource id res db)
unfolding Acquisitions.set_pending_resource
prebind-SameIdem id res db = ground arith

start-SameIdem :
    (parking : ℕ → ℕ → Bool) (op res now : ℕ) (db : Db) {d : Db}
    → journal_start parking op res now db ≡ ok d
    → SameIdem db d
unfolding journal_start Resources.get Resources.cas_phase Operations.append Events.append
start-SameIdem parking op res now db h = ground arith

create-SameIdem :
    (r : Resource) (o : Operation) (db : Db) {d : Db} → journal_create r o db ≡ ok d → SameIdem db d
unfolding journal_create Resources.insert Operations.append Events.append
create-SameIdem r o db h = ground arith

-- The change of an acquisition, a journaled operation and the pre-bind.
between :
    (id : ℕ) (now res : ℕ) (work : Db → Outcome Db) (db : Db)
    → ((d d' : Db) → work d ≡ ok d' → SameIdem d d')
    → OnOk (SameIdem db) (
        Acquisitions.transition id AcqState.pending AcqState.provisioning now db >>= λ db1.
        work db1 >>= λ db2. Acquisitions.set_pending_resource id res db2)
between id now res work db keeps =
    OnOk-bind (SameIdem db) (SameIdem db) _ _
      (transition-SameIdem id AcqState.pending AcqState.provisioning now db)
      (λ d1 _ e1.
        OnOk-bind (SameIdem db) (SameIdem db) (work d1) _
          (OnOk-of (SameIdem db) (work d1) (λ d2 h. keeps d1 d2 h ∙ e1))
          (λ d2 _ e2. OnOk-of (SameIdem db) (Acquisitions.set_pending_resource id res d2) (λ d3 h.
            OnOk-ok (SameIdem d2) (Acquisitions.set_pending_resource id res d2) d3 h
              (prebind-SameIdem id res d2)
            ∙ e2)))

claim-SameIdem :
    (e : Env) (i : ℕ) (acq : Acquisition) (res : ℕ) (db : Db)
    → OnOk (SameIdem db) (claim_parked e i acq res db)
unfolding claim_parked
claim-SameIdem e i acq res db =
    between acq.id e.now res (λ d. journal_start e.parking (e.op_ids i) res e.now d) db
      (λ d d' h. start-SameIdem e.parking (e.op_ids i) res e.now d h)

scale_class-SameIdem :
    (e : Env) (acq : Acquisition) (cls : Option Class) (db : Db)
    → OnOk (SameIdem db) (scale_class e acq cls db)
unfolding scale_to
scale_class-SameIdem e acq none db = tt
scale_class-SameIdem e acq (some cls) db =
    OnOk-bind (λ _. Unit {0}) (SameIdem db)
      (prepare e.planner (scale_spec acq cls) e.resource_id (e.op_ids 0) e.now) _
      (OnOk-of (λ _. Unit {0}) _ (λ _ _. tt))
      (λ p _ _.
        between acq.id e.now p.resource.id (λ d. journal_create p.resource p.op d) db
          (λ d d' h. create-SameIdem p.resource p.op d h))

scale-SameIdem :
    (e : Env) (acq : Acquisition) (db : Db) → OnOk (SameIdem db) (scale_on_demand e acq db)
unfolding scale_on_demand
scale-SameIdem e acq db =
    if-intro (OnOk (SameIdem db)) (acq.class == 0) tt
      (scale_class-SameIdem e acq (e.classes acq.class) db)

Rungs-SameIdem :
    (e : Env) (acq : Acquisition) (s : Sched) → Rungs (λ a. SameIdem s.db a.state.db) e acq s
unfolding Events.append
Rungs-SameIdem e acq s = record {
  refused = λ x. refl;
  reused =
      λ p i res d qs k. reserve-SameIdem (e.lease_ids i) e.now acq res p.want p.exclusive s.db k;
  started = λ i res d k.
      OnOk-ok (SameIdem s.db) (claim_parked e i acq res s.db) d k (claim-SameIdem e i acq res s.db);
  waits =
      λ p _ _. if-intro (λ (t : Sched). SameIdem s.db t.db) (is_queued acq.id s.queued) refl refl;
  scaled =
      λ d k. OnOk-ok (SameIdem s.db) (scale_on_demand e acq s.db) d k (scale-SameIdem e acq s.db);
}

found-SameIdem :
    (e : Env) (s : Sched) (m : Outcome Acquisition) → SameIdem s.db (satisfy_found e s m).state.db
found-SameIdem e s (err x) = refl
found-SameIdem e s (ok acq) =
    if-intro (λ (a : Answered). SameIdem s.db a.state.db) (acq_eq acq.state AcqState.pending)
      (climb-rule (λ a. SameIdem s.db a.state.db) e acq s (Rungs-SameIdem e acq s)) refl

attempt-SameIdem : (d : Db) (m : Outcome Db) → OnOk (SameIdem d) m → SameIdem d (attempt d m)
attempt-SameIdem d (ok x) h = h
attempt-SameIdem d (err x) h = refl

satisfied-SameIdem :
    (e : Env) (id : ℕ) (s : Sched) → SameIdem s.db (after_satisfy e id (satisfy e id s)).db
unfolding satisfy
satisfied-SameIdem e id s =
    let a = satisfy e id s in
    let kept = found-SameIdem e s (Acquisitions.get id s.db) in
    if-intro (λ (t : Sched). SameIdem s.db t.db) (refused a.result)
      (attempt-SameIdem a.state.db
          (Acquisitions.transition id AcqState.pending AcqState.failed e.now a.state.db)
          (transition-SameIdem id AcqState.pending AcqState.failed e.now a.state.db)
        ∙ kept)
      kept

acquire_work-KeepsIdem :
    (build : Acquisition → ℕ × Json ℕ) (acq : Acquisition) → KeepsIdem (acquire_work build acq)
unfolding acquire_work Acquisitions.insert Events.append
acquire_work-KeepsIdem build acq db = OnOk-of (λ d. d.db.idem ≡ db.idem) _ (λ d h. ground arith)

converge-SameIdem :
    (e : Env) (id : ℕ) (s : Sched) (d : Served) → SameIdem d.db (converge e id s d).state.db
unfolding converge
converge-SameIdem e id s d =
    if-intro (λ (a : Acquired). SameIdem d.db a.state.db) d.answer.replayed refl
      (satisfied-SameIdem e id (record s { db = d.db }))

converge-answer :
    (e : Env) (id : ℕ) (s : Sched) (d : Served) → (converge e id s d).answer ≡ d.answer
unfolding converge
converge-answer e id s d =
    if-intro (λ (a : Acquired). a.answer ≡ d.answer) d.answer.replayed refl refl

-- A replayed answer ends the request.
replayed_request :
    (e : Env) (id : ℕ) (s : Sched) (answer : Answer) (b : Bool)
    → ((if b
          then ok (record { db = s.db; answer = record answer { replayed = true } })
          else err idem_mismatch)
        >>= λ d. ok (converge e id s d))
      ≡ (if b
          then ok (record { state = s; answer = record answer { replayed = true } })
          else err idem_mismatch)
unfolding converge
replayed_request e id s answer true = refl
replayed_request e id s answer false = refl

-- An acquisition with a fresh idempotency key that is accepted is requested once, whatever the
-- scheduler made of it. A later request of the client under the key, at any time and with any
-- contents that name an admissible quantity and a class or constraints, changes nothing: with the
-- same request hash it gets the same status and body, marked as replayed, and with another hash it is
-- refused.
pub acquire-replay :
    (build later_build : Acquisition → ℕ × Json ℕ) (k : Key) (e later : Env)
    (timeout later_timeout id later_id : ℕ) (cmd later_cmd : AcquireCmd) (s : Sched) {a : Acquired}
    (hash : ℕ)
    → find k.scope k.key s.db.idem ≡ none
    → acquire build (some k) e timeout id cmd s ≡ ok a
    → (later_cmd.quantity == 0 || later_cmd.quantity == 1) ≡ true
    → (later_cmd.class == 0 && is_blank later_cmd.constraints) ≡ false
    → acquire later_build
        (some (record k { request_hash = hash }))
        later
        later_timeout
        later_id
        later_cmd
        a.state
      ≡ (if k.request_hash == hash
          then ok (record { state = a.state; answer = record a.answer { replayed = true } })
          else err idem_mismatch)
unfolding acquire
acquire-replay build later_build k e later timeout later_timeout id later_id cmd later_cmd s {a}
      hash none_yet h quantity asks =
    let (_, g1, h1) = >>=-eq-ok (guard (cmd.quantity == 0 || cmd.quantity == 1) invalid) _ h in
    let (_, g2, h2) =
      >>=-eq-ok (guard (not (cmd.class == 0 && is_blank cmd.constraints)) invalid) _ h1 in
    let acq = requested e id cmd (payload (effective_wait timeout e cmd) cmd) in
    let acq2 =
      requested later later_id later_cmd
        (payload (effective_wait later_timeout later later_cmd) later_cmd) in
    let (d, kd, h3) =
      >>=-eq-ok (keyed_request (some k) 0 e.now (acquire_work build acq) s.db) _ h2 in
    let same_end : converge e id s d ≡ a = cc in
    let same = ap (λ (x : Acquired). x.state.db.idem) (sym same_end) ∙ converge-SameIdem e id s d in
    let again =
      keyed_request-replay k 0 e.now (acquire_work build acq) s.db hash 0 later.now
        (acquire_work later_build acq2) a.state.db (acquire_work-KeepsIdem build acq) none_yet kd
        same in
    rw (quantity, asks, again)
      (subst
        (λ x.
          ((if k.request_hash == hash
              then ok (record { db = a.state.db; answer = record x { replayed = true } })
              else err idem_mismatch)
            >>= λ q. ok (converge later later_id a.state q))
          ≡ (if k.request_hash == hash
              then ok (record { state = a.state; answer = record a.answer { replayed = true } })
              else err idem_mismatch))
        (ap (λ (x : Acquired). x.answer) (sym same_end) ∙ converge-answer e id s d)
        (replayed_request later later_id a.state a.answer (k.request_hash == hash)))
