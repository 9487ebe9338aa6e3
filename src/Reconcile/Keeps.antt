-- ===== src/Reconcile/Keeps.antt =====
-- Every change of a cycle keeps the tables sound (internal/reconcile/reconcile.go).
use fleetplane.Prelude.{
  ℕ, ◌≡◌, refl, Bool, true, not, ◌&&◌, ◌||◌, Option, none, some, leb, ◌==◌, arith,
}
use fleetplane.Prelude.Outcome.{
  Outcome, ok, err, conflict, park_unsupported, OnOk, OnOk-bind, OnOk-of, ◌>>=◌,
}
use fleetplane.Phase.{Phase, phase_eq}
use fleetplane.Provider.{ActionKind}
use fleetplane.Store.{Db, Resource, OpKind, EventType, is_managed}
use fleetplane.Store.Resources
use fleetplane.Store.Resources.{is_none, res_id}
use fleetplane.Store.Rows.{put_row}
use fleetplane.Store.Leases
use fleetplane.Store.Leases.{holds}
use fleetplane.Machines.{
  in_phase, journal_stop, journal_delete, journal_delete_in_tx, delete_external,
}
use fleetplane.Scheduler.Sound.{Sound, cas-Sound, update-Sound}
use fleetplane.Scheduler.Keeps.{
  guarded, journal_op-Sound, journal_phase_op-Sound, journal_start-Sound, journal_create-Sound,
}
use fleetplane.Scheduler.Satisfied.{IsPlanned, prepare-IsPlanned}
use fleetplane.Reconcile.{PoolSpec}
use fleetplane.Reconcile.Queue.{cost_reclaim, count_wanting, count_remaining}
use fleetplane.Reconcile.Pools.{RecEnv, Pool, Template}
use fleetplane.Reconcile.Scaling.{create_one, drain_idle, pool_spec}
use fleetplane.Reconcile.Stages.{ActRules}

abbrev pub tombstoned : ℕ → Resource → Resource
tombstoned at r = record r { deleted_at = some at; updated_at = at }

pub mark_deleted-inv :
    (id at : ℕ) (db : Db) {d : Db}
    → Resources.mark_deleted id at db ≡ ok d
    → d ≡ record db { resources = put_row res_id id (tombstoned at) db.resources }
unfolding Resources.mark_deleted
mark_deleted-inv id at db h = ground arith

-- A tombstone leaves phases, leases and operations as they are.
pub mark-Sound : (id at : ℕ) (db : Db) → Sound db → OnOk Sound (Resources.mark_deleted id at db)
mark-Sound id at db s = OnOk-of Sound (Resources.mark_deleted id at db) (λ d h.
    update-Sound id (tombstoned at) db d (λ _. refl) (λ _. refl) (mark_deleted-inv id at db h) s)

-- What a read begins.
reading :
    (m : Outcome Resource) (f : Resource → Outcome Db)
    → ((r : Resource) → OnOk Sound (f r))
    → OnOk Sound (m >>= f)
reading (ok r) f h = h r
reading (err x) f h = tt

external-Sound :
    (op : ℕ) (r : Resource) (now : ℕ) (ext : Option ℕ) (db : Db)
    → Sound db
    → OnOk Sound (delete_external op r now ext db)
external-Sound op r now none db s = mark-Sound r.id now db s
external-Sound op r now (some x) db s =
    journal_op-Sound op OpKind.delete ActionKind.delete_action true EventType.resource_delete r x
      now r.phase Phase.deleting db (λ e. ground (arith, e)) s

pub delete_in_tx-Sound :
    (op : ℕ) (r : Resource) (now : ℕ) (db : Db)
    → Sound db
    → OnOk Sound (journal_delete_in_tx op r now db)
unfolding journal_delete_in_tx
delete_in_tx-Sound op r now db s =
    guarded (is_managed r.ownership && not r.delete_protected) conflict _ (
      guarded (Leases.count_active r.id db == 0) conflict _
        (external-Sound op r now r.external_id db s))

pub journal_delete-Sound :
    (op res now : ℕ) (db : Db) → Sound db → OnOk Sound (journal_delete op res now db)
unfolding journal_delete
journal_delete-Sound op res now db s = reading (Resources.get res db) _ (λ r.
    guarded
      (is_none r.deleted_at && (phase_eq r.phase Phase.draining || phase_eq r.phase Phase.failed))
      conflict _ (delete_in_tx-Sound op r now db s))

pub cost_reclaim-Sound :
    (op res now : ℕ) (from : Phase) (db : Db)
    → Sound db
    → OnOk Sound (cost_reclaim op res now from db)
unfolding cost_reclaim
cost_reclaim-Sound op res now from db s = reading (Resources.get res db) _ (λ r.
    guarded (is_none r.deleted_at && phase_eq r.phase from) conflict _ (
      guarded (count_wanting now r db == 0 || leb (count_wanting now r db) (count_remaining r db))
        conflict _ (delete_in_tx-Sound op r now db s)))

pub journal_stop-Sound :
    (parking : ℕ → ℕ → Bool) (op res now : ℕ) (unprotected : Bool) (db : Db)
    → Sound db
    → OnOk Sound (journal_stop parking op res now unprotected db)
unfolding journal_stop
journal_stop-Sound parking op res now unprotected db s = reading (Resources.get res db) _ (λ r.
    guarded (in_phase r Phase.ready) conflict _ (
      guarded (not (unprotected && r.delete_protected)) conflict _ (
        guarded (parking r.provider r.kind) park_unsupported _ (
          guarded (Leases.count_active res db == 0) conflict _ (
            journal_phase_op-Sound op OpKind.stop ActionKind.stop_action EventType.resource_stop r
              r.external_id now Phase.ready Phase.parking db (λ e. ground (arith, e)) s)))))

create_one-Sound :
    (e : RecEnv) (pool : Pool) (spec : PoolSpec) (tm : Template) (i : ℕ) (db : Db)
    → Sound db
    → OnOk Sound (create_one e pool spec tm i db)
unfolding create_one
create_one-Sound e pool spec tm i db s =
    OnOk-bind IsPlanned Sound _ _
      (prepare-IsPlanned e.planner (pool_spec pool spec tm) (e.create_ids i) (e.create_op_ids i)
        e.now)
      (λ p _ planned. journal_create-Sound p.resource p.op db (λ k. ground (arith, k, planned)) s)

drain_idle-Sound : (now : ℕ) (r : Resource) (db : Db) → Sound db → OnOk Sound (drain_idle now r db)
unfolding drain_idle
drain_idle-Sound now r db s =
    guarded (Leases.count_active r.id db == 0) conflict _
      (cas-Sound r.id Phase.ready Phase.draining now db (λ e. ground (arith, e)) s)

pub act-Sound : (e : RecEnv) (pool : Pool) → ActRules Sound e pool
act-Sound e pool = record {
  undrains = λ r d h. cas-Sound r.id Phase.draining Phase.ready e.now d (λ k. ground (arith, k)) h;
  starts = λ r d h. journal_start-Sound e.parking (e.op_ids r.id) r.id e.now d h;
  creates = λ spec tm i d h. create_one-Sound e pool spec tm i d h;
  reclaims = λ from r d h. cost_reclaim-Sound (e.op_ids r.id) r.id e.now from d h;
  drains = λ r d h. drain_idle-Sound e.now r d h;
  deletes = λ r d h. journal_delete-Sound (e.op_ids r.id) r.id e.now d h;
  parks = λ r d h. journal_stop-Sound e.parking (e.op_ids r.id) r.id e.now true d h;
}
