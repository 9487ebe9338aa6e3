-- ===== src/Reconcile/Leased.antt =====
-- A cycle takes no machine from its lease holder (internal/reconcile/reconcile.go, RunOnce).
use fleetplane.Prelude.{
  ℕ, ◌≤◌, ◌≡◌, ◌⊎◌, inl, inr, refl, sym, subst, ap, ◌∙◌, Bool, true, false, not, ◌&&◌, ◌||◌, Option,
  none, some, List, leb, ◌==◌, arith, Bool-cases,
}
use fleetplane.Prelude.Outcome.{
  Outcome, ok, err, conflict, park_unsupported, OnOk, OnOk-bind, OnOk-of, ◌>>=◌,
}
use fleetplane.Prelude.Json.{Json}
use fleetplane.Phase.{Phase, phase_eq}
use fleetplane.Provider.{ActionKind}
use fleetplane.Store.{Db, Resource, Lease, OpKind, EventType, is_managed}
use fleetplane.Store.Rows.{get_row, count_where}
use fleetplane.Store.Resources
use fleetplane.Store.Resources.{is_none, res_id, enter_phase}
use fleetplane.Store.Leases
use fleetplane.Store.Leases.{holds}
use fleetplane.Store.Operations
use fleetplane.Store.Events
use fleetplane.Machines.{
  in_phase, journal_start, journal_stop, journal_delete, journal_delete_in_tx, delete_external,
}
use fleetplane.Machines.Row.{
  OnRow, Enters, same-OnRow, put-OnRow, cas-OnRow, append-OnRow, journal_op-OnRow, phase_op-OnRow,
  guarded, reading, insert-OnRow,
}
use fleetplane.Service.{journal_create}
use fleetplane.Provision.{Prepared, prepare}
use fleetplane.Scheduler.Steps.{num_eq}
use fleetplane.Reconcile.{PoolSpec}
use fleetplane.Reconcile.Queue.{cost_reclaim, count_wanting, count_remaining}
use fleetplane.Reconcile.Backoff.{Checkpoint}
use fleetplane.Reconcile.Pools.{RecEnv, Pool, Template}
use fleetplane.Reconcile.Scaling.{create_one, drain_idle, pool_spec}
use fleetplane.Reconcile.Cycle.{run_once}
use fleetplane.Reconcile.Stages.{ActRules, run_once-keeps}
use fleetplane.Reconcile.Keeps.{tombstoned, mark_deleted-inv}

-- The phase changes that bring a machine closer to service.
abbrev pub rises : Phase → Phase → Bool
rises p q =
    (phase_eq p Phase.draining && phase_eq q Phase.ready)
    || (phase_eq p Phase.parked && phase_eq q Phase.starting)

abbrev pub kept_or_raised : Phase → Phase → Bool
kept_or_raised p q = phase_eq p q || rises p q

raise :
    (p from to : Phase)
    → kept_or_raised p from ≡ true
    → rises from to ≡ true
    → kept_or_raised p to ≡ true
raise p from to h k = ground (arith, h, k)

-- The machine `j`, whose row was `r0` when the leases were `ls`.
module _ (j : ℕ) (r0 : Resource) (ls : List Lease) (held : 1 ≤ count_where (holds j) ls) where
  -- The machine is alive as it was and no further from service.
  abbrev pub InService : Resource → Type 0
  InService r = (r.deleted_at ≡ r0.deleted_at) × (kept_or_raised r0.phase r.phase ≡ true)

  -- And the leases are as they were.
  abbrev pub Kept : Db → Type 0
  Kept = OnRow j ls InService

  -- A machine without active leases is another one.
  other_machine :
      (id : ℕ) (d : Db) → Kept d → (Leases.count_active id d == 0) ≡ true → (id == j) ≡ false
  unfolding Leases.count_active
  other_machine id d (k, rest) z = elim (Bool-cases (id == j)) [
    | inr n ↦ n
    | inl y ↦ absurd (
        let n : 1 ≤ count_where (holds j) d.leases =
          subst (λ x. 1 ≤ count_where (holds j) x) (sym k) held in
        ground
          (arith, n, z, subst (λ i. (count_where (holds i) d.leases == 0) ≡ true) (num_eq y) z))
  ]

  -- Another machine, or a change that brings the machine closer to service.
  entering :
      (id : ℕ) (from to : Phase) (at : ℕ)
      → ((id == j) ≡ false) ⊎ (rises from to ≡ true)
      → Enters j ls InService id from to at
  unfolding enter_phase
  entering id from to at (inl n) r y p v = ground (arith, n, y)
  entering id from to at (inr up) r y p (a, u) =
      (a, raise r0.phase from to (ground (arith, u, p)) up)

  start-Kept :
      (parking : ℕ → ℕ → Bool) (op res now : ℕ) (d : Db)
      → Kept d
      → OnOk Kept (journal_start parking op res now d)
  unfolding journal_start
  start-Kept parking op res now d h = reading j ls InService res d _ (λ r _ _.
      guarded j ls InService (in_phase r Phase.parked) conflict _ (λ _.
        guarded j ls InService (parking r.provider r.kind) park_unsupported _ (λ _.
          phase_op-OnRow j ls InService op OpKind.start ActionKind.start_action
            EventType.resource_start r r.external_id now Phase.parked Phase.starting d
            (entering r.id Phase.parked Phase.starting now (inr refl)) h)))

  stop-Kept :
      (parking : ℕ → ℕ → Bool) (op res now : ℕ) (unprotected : Bool) (d : Db)
      → Kept d
      → OnOk Kept (journal_stop parking op res now unprotected d)
  unfolding journal_stop
  stop-Kept parking op res now unprotected d h = reading j ls InService res d _ (λ r _ same.
      guarded j ls InService (in_phase r Phase.ready) conflict _ (λ _.
        guarded j ls InService (not (unprotected && r.delete_protected)) conflict _ (λ _.
          guarded j ls InService (parking r.provider r.kind) park_unsupported _ (λ _.
            guarded j ls InService (Leases.count_active res d == 0) conflict _ (λ z.
              phase_op-OnRow j ls InService op OpKind.stop ActionKind.stop_action
                EventType.resource_stop r r.external_id now Phase.ready Phase.parking d
                (entering r.id Phase.ready Phase.parking now
                  (inl (ap (λ i. i == j) same ∙ other_machine res d h z)))
                h)))))

  mark-Kept :
      (id at : ℕ) (d : Db) → (id == j) ≡ false → Kept d → OnOk Kept (Resources.mark_deleted id at d)
  mark-Kept id at d n h = OnOk-of Kept (Resources.mark_deleted id at d) (λ d' k.
      put-OnRow j ls InService id (tombstoned at) d d' (λ _. refl) (λ r y _ _. ground (arith, n, y))
        (mark_deleted-inv id at d k) h)

  external-Kept :
      (op : ℕ) (r : Resource) (now : ℕ) (ext : Option ℕ) (d : Db)
      → (r.id == j) ≡ false
      → Kept d
      → OnOk Kept (delete_external op r now ext d)
  external-Kept op r now none d n h = mark-Kept r.id now d n h
  external-Kept op r now (some x) d n h =
      journal_op-OnRow j ls InService op OpKind.delete ActionKind.delete_action true
        EventType.resource_delete r x now r.phase Phase.deleting d
        (entering r.id r.phase Phase.deleting now (inl n)) h

  delete_in_tx-Kept :
      (op : ℕ) (r : Resource) (now : ℕ) (d : Db)
      → Kept d
      → OnOk Kept (journal_delete_in_tx op r now d)
  unfolding journal_delete_in_tx
  delete_in_tx-Kept op r now d h =
      guarded j ls InService (is_managed r.ownership && not r.delete_protected) conflict _ (λ _.
        guarded j ls InService (Leases.count_active r.id d == 0) conflict _
          (λ z. external-Kept op r now r.external_id d (other_machine r.id d h z) h))

  delete-Kept : (op res now : ℕ) (d : Db) → Kept d → OnOk Kept (journal_delete op res now d)
  unfolding journal_delete
  delete-Kept op res now d h = reading j ls InService res d _ (λ r _ _.
      guarded j ls InService
        (is_none r.deleted_at && (phase_eq r.phase Phase.draining || phase_eq r.phase Phase.failed))
        conflict _ (λ _. delete_in_tx-Kept op r now d h))

  reclaim-Kept :
      (op res now : ℕ) (from : Phase) (d : Db) → Kept d → OnOk Kept (cost_reclaim op res now from d)
  unfolding cost_reclaim
  reclaim-Kept op res now from d h = reading j ls InService res d _ (λ r _ _.
      guarded j ls InService (is_none r.deleted_at && phase_eq r.phase from) conflict _ (λ _.
        guarded j ls InService
          (count_wanting now r d == 0 || leb (count_wanting now r d) (count_remaining r d)) conflict
          _ (λ _. delete_in_tx-Kept op r now d h)))

  drain-Kept : (now : ℕ) (r : Resource) (d : Db) → Kept d → OnOk Kept (drain_idle now r d)
  unfolding drain_idle
  drain-Kept now r d h = guarded j ls InService (Leases.count_active r.id d == 0) conflict _ (λ z.
      cas-OnRow j ls InService r.id Phase.ready Phase.draining now d
        (entering r.id Phase.ready Phase.draining now (inl (other_machine r.id d h z))) h)

  create-Kept :
      (e : RecEnv) (pool : Pool) (spec : PoolSpec) (tm : Template) (i : ℕ) (d : Db)
      → Kept d
      → OnOk Kept (create_one e pool spec tm i d)
  unfolding create_one journal_create Events.append
  create-Kept e pool spec tm i d h =
      by_plan
        (prepare e.planner (pool_spec pool spec tm) (e.create_ids i) (e.create_op_ids i) e.now)
    where
      by_plan : (m : Outcome Prepared) → OnOk Kept (m >>= λ p. journal_create p.resource p.op d)
      by_plan (err x) = tt
      by_plan (ok p) =
          OnOk-bind Kept Kept (Resources.insert p.resource d) _
            (insert-OnRow j ls InService p.resource d h)
            (λ d1 _ h1.
              OnOk-bind Kept Kept (Operations.append p.op d1) _
                (append-OnRow j ls InService p.op d1 h1)
                (λ d2 _ h2.
                  same-OnRow j ls InService d2
                    (Events.append p.resource.created_at EventType.resource_create
                      (some p.resource.id) (some p.op.id) d2)
                    refl refl h2))

  pub act-Kept : (e : RecEnv) (pool : Pool) → ActRules Kept e pool
  act-Kept e pool = record {
    undrains = λ r d h.
        cas-OnRow j ls InService r.id Phase.draining Phase.ready e.now d
          (entering r.id Phase.draining Phase.ready e.now (inr refl)) h;
    starts = λ r d h. start-Kept e.parking (e.op_ids r.id) r.id e.now d h;
    creates = λ spec tm i d h. create-Kept e pool spec tm i d h;
    reclaims = λ from r d h. reclaim-Kept (e.op_ids r.id) r.id e.now from d h;
    drains = λ r d h. drain-Kept e.now r d h;
    deletes = λ r d h. delete-Kept (e.op_ids r.id) r.id e.now d h;
    parks = λ r d h. stop-Kept e.parking (e.op_ids r.id) r.id e.now true d h;
  }

-- A cycle takes no machine from its lease holders: whatever the pool's spec, a machine with an active
-- lease stays alive as it was and in its phase, unless it goes from draining back to ready or from
-- parked to starting; and the leases stay as they are.
pub run_once-leased :
    (e : RecEnv) (pool : Pool) (cp : Json Checkpoint) (db : Db) (j : ℕ) (r : Resource)
    → get_row res_id j db.resources ≡ some r
    → 1 ≤ count_where (holds j) db.leases
    → OnOk
        (λ c.
          (c.db.leases ≡ db.leases)
          × ((r' : Resource) × (get_row res_id j c.db.resources ≡ some r')
              × ((r'.deleted_at ≡ r.deleted_at) × (kept_or_raised r.phase r'.phase ≡ true))))
        (run_once e pool cp db)
run_once-leased e pool cp db j r g held =
    run_once-keeps (Kept j r db.leases held) e pool cp (act-Kept j r db.leases held e pool) db
      (refl, (r, g, (refl, ground arith)))
