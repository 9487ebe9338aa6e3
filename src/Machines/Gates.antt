-- ===== src/Machines/Gates.antt =====
-- What a journaled stop, start or delete guarantees (internal/provision/park.go and
-- internal/reconcile/reconcile.go).
use fleetplane.Prelude.{
  ℕ, ◌≡◌, ◌⊎◌, inl, inr, refl, sym, ◌∙◌, ap, subst, Bool, true, false, not, ◌&&◌, ◌||◌, none, some,
  ◌∷◌, ◌==◌, arith, Option-cases,
}
use fleetplane.Prelude.Outcome.{ok, conflict, guard, >>=-eq-ok}
use fleetplane.Phase.{Phase, phase_eq, can_transition}
use fleetplane.Provider.{ActionKind}
use fleetplane.Store.{Db, Resource, Operation, OpKind, OpState, EventType, is_managed}
use fleetplane.Store.Rows.{get_row, get_row-put_row, get_row-key, count_where}
use fleetplane.Store.Resources
use fleetplane.Store.Resources.{is_none, res_id, enter_phase}
use fleetplane.Store.Resources.Phases.{cas_phase-inv}
use fleetplane.Store.Leases
use fleetplane.Store.Leases.{holds}
use fleetplane.Store.Operations
use fleetplane.Store.Operations.Journal.{OneOpen, append-OneOpen}
use fleetplane.Store.Events
use fleetplane.Machines.{
  in_phase, journal_op, journal_phase_op, journal_stop, journal_delete_in_tx, journal_delete,
  journaled_op, action_of, ref_for,
}

-- The steps of a journaled operation.
journal_op-inv :
    (op : ℕ) (kind : OpKind) (action : ActionKind) (destructive : Bool) (event : EventType)
    (r : Resource) (ext now : ℕ) (from to : Phase) (db : Db) {db' : Db}
    → journal_op op kind action destructive event r ext now from to db ≡ ok db'
    → (db1 : Db) × (Resources.cas_phase r.id from to now db ≡ ok db1)
      × (Operations.append
            (journaled_op op kind r (action_of op action r.id (ref_for r ext) destructive) now)
            db1
          ≡ ok (record db1 { operations = db'.operations }))
      × (db'.resources ≡ db1.resources)
      × (db'.leases ≡ db1.leases)
unfolding journal_op Events.append Operations.append
journal_op-inv op kind action destructive event r ext now from to db h =
    let (db1, e1, h1) = >>=-eq-ok (Resources.cas_phase r.id from to now db) _ h in
    let (db2, e2, h2) =
      >>=-eq-ok
        (Operations.append
          (journaled_op op kind r (action_of op action r.id (ref_for r ext) destructive) now) db1)
        _ h1 in
    (db1, e1, ground arith, ground arith, ground arith)

-- What a journaled stop, start or delete of the machine `r` leaves behind: the machine is in the
-- phase of the operation, and the operation is the newest in the journal, not yet sent.
abbrev pub IsJournaled : ℕ → ℕ → OpKind → Phase → Db → Db → Type 0
IsJournaled op res kind to db db' =
    ((r : Resource) × (get_row res_id res db'.resources ≡ some r) × (r.phase ≡ to))
    × ((o : Operation) × (db'.operations ≡ o ∷ db.operations)
        × (o.id ≡ op)
        × (o.kind ≡ kind)
        × (o.resource_id ≡ some res)
        × (o.state ≡ OpState.journaled))

cas-operations :
    (id : ℕ) (from to : Phase) (now : ℕ) (db : Db) {d : Db}
    → Resources.cas_phase id from to now db ≡ ok d
    → d.operations ≡ db.operations
unfolding Resources.cas_phase
cas-operations id from to now db h = ground arith

pub journal_op-IsJournaled :
    (op : ℕ) (kind : OpKind) (action : ActionKind) (destructive : Bool) (event : EventType)
    (r : Resource) (ext now : ℕ) (from to : Phase) (db : Db) {db' : Db}
    → journal_op op kind action destructive event r ext now from to db ≡ ok db'
    → IsJournaled op r.id kind to db db' × (OneOpen db.operations → OneOpen db'.operations)
unfolding enter_phase Operations.append
journal_op-IsJournaled op kind action destructive event r ext now from to db {db'} h =
    let (db1, e1, e2, rows, _) =
      journal_op-inv op kind action destructive event r ext now from to db h in
    let (x, gx, _, _, same) = cas_phase-inv r.id from to now db e1 in
    let at : get_row res_id r.id db'.resources ≡ some (enter_phase from to now x) =
      ap (get_row res_id r.id) (rows ∙ ap (λ d. d.resources) same)
      ∙ get_row-put_row res_id r.id r.id (enter_phase from to now) db.resources (λ _. refl)
      ∙ ground (arith, gx) in
    (
      (
        (enter_phase from to now x, at, refl),
        (
          journaled_op op kind r (action_of op action r.id (ref_for r ext) destructive) now,
          ground (arith, e2, cas-operations r.id from to now db e1),
          refl,
          refl,
          refl,
          refl,
        ),
      ),
      λ inv.
          append-OneOpen
            (journaled_op op kind r (action_of op action r.id (ref_for r ext) destructive) now) db1
            e2 (subst OneOpen (sym (cas-operations r.id from to now db e1)) inv),
    )

-- A stop that is journaled took a live, managed machine that was ready, that no active lease holds
-- and that its provider can park, and moved it to parking with the operation that will stop it; the
-- journal still has at most one open operation on each machine.
pub journal_stop-IsJournaled :
    (parking : ℕ → ℕ → Bool) (op res now : ℕ) (unprotected : Bool) (db : Db) {db' : Db}
    → journal_stop parking op res now unprotected db ≡ ok db'
    → ((r : Resource) × (get_row res_id res db.resources ≡ some r)
        × (in_phase r Phase.ready ≡ true)
        × (parking r.provider r.kind ≡ true)
        × ((unprotected && r.delete_protected) ≡ false)
        × (count_where (holds res) db.leases ≡ 0))
      × IsJournaled op res OpKind.stop Phase.parking db db'
      × (OneOpen db.operations → OneOpen db'.operations)
unfolding journal_stop journal_phase_op Leases.count_active Resources.get
journal_stop-IsJournaled parking op res now unprotected db {db'} h =
    let (r, g, h1) = >>=-eq-ok (Resources.get res db) _ h in
    let row : get_row res_id res db.resources ≡ some r = ground (arith, g) in
    let here : r.id ≡ res = get_row-key res_id res db.resources r row in
    elim (Option-cases r.external_id) [
      | inl e ↦ ground (arith, e)
      | inr (ext, e) ↦
          let done : journal_op op OpKind.stop ActionKind.stop_action false EventType.resource_stop
                r ext now Phase.ready Phase.parking db
              ≡ ok db' =
            ground (arith, e) in
          let (j, one) =
            journal_op-IsJournaled op OpKind.stop ActionKind.stop_action false
              EventType.resource_stop r ext now Phase.ready Phase.parking db done in
          (
            (r, row, ground arith, ground arith, ground arith, ground arith),
            subst (λ i. IsJournaled op i OpKind.stop Phase.parking db db') here j,
            one,
          )
    ]

mark_deleted-row :
    (id at : ℕ) (db : Db) (r : Resource) {d : Db}
    → get_row res_id id db.resources ≡ some r
    → Resources.mark_deleted id at db ≡ ok d
    → (d.operations ≡ db.operations)
      × (get_row res_id id d.resources ≡ some (record r { deleted_at = some at; updated_at = at }))
unfolding Resources.mark_deleted
mark_deleted-row id at db r g h =
    let stamp : Resource → Resource = λ x. record x { deleted_at = some at; updated_at = at } in
    (
      ground arith,
      ap (get_row res_id id) (ground arith)
          ∙ get_row-put_row res_id id id stamp db.resources (λ _. refl)
          ∙ ground (arith, g),
    )

-- A delete that the reconciler journals took a live, managed and unprotected machine that was
-- draining or failed and that no active lease holds; it moved the machine to deleting, a legal
-- transition, with the operation that will delete it, unless the machine never came to exist at
-- the provider, when its record is tombstoned at once and the journal is unchanged.
pub journal_delete-IsJournaled :
    (op res now : ℕ) (db : Db) {db' : Db}
    → journal_delete op res now db ≡ ok db'
    → (r : Resource) × (get_row res_id res db.resources ≡ some r)
      × (is_none r.deleted_at ≡ true)
      × ((is_managed r.ownership && not r.delete_protected) ≡ true)
      × (count_where (holds res) db.leases ≡ 0)
      × (can_transition r.phase Phase.deleting ≡ true)
      × (((r.external_id ≡ none)
            × (db'.operations ≡ db.operations)
            × (get_row res_id res db'.resources
                ≡ some (record r { deleted_at = some now; updated_at = now })))
          ⊎ (IsJournaled op res OpKind.delete Phase.deleting db db'))
unfolding journal_delete journal_delete_in_tx Leases.count_active Resources.get can_transition
journal_delete-IsJournaled op res now db {db'} h =
    let (r, g, h1) = >>=-eq-ok (Resources.get res db) _ h in
    let (_, p, h2) =
      >>=-eq-ok
        (guard
          (is_none r.deleted_at
            && (phase_eq r.phase Phase.draining || phase_eq r.phase Phase.failed))
          conflict)
        _ h1 in
    let (_, q, h3) =
      >>=-eq-ok (guard (is_managed r.ownership && not r.delete_protected) conflict) _ h2 in
    let (_, l, h4) = >>=-eq-ok (guard (Leases.count_active r.id db == 0) conflict) _ h3 in
    let row : get_row res_id res db.resources ≡ some r = ground (arith, g) in
    let here : r.id ≡ res = get_row-key res_id res db.resources r row in
    let free : count_where (holds r.id) db.leases ≡ 0 = ground (arith, l) in
    (
      r,
      row,
      ground (arith, p),
      ground (arith, q),
      subst (λ i. count_where (holds i) db.leases ≡ 0) here free,
      ground (arith, p),
      elim (Option-cases r.external_id) [
        | inl e ↦
            let (same, there) =
              mark_deleted-row r.id now db r {d = db'}
                (ap (λ i. get_row res_id i db.resources) here ∙ row) (ground (arith, e)) in
            inl (
              e,
              same,
              subst
                  (λ i.
                    get_row res_id i db'.resources
                    ≡ some (record r { deleted_at = some now; updated_at = now }))
                  here there,
            )
        | inr (ext, e) ↦ inr (
            subst (λ i. IsJournaled op i OpKind.delete Phase.deleting db db') here
              (journal_op-IsJournaled op OpKind.delete ActionKind.delete_action true
                EventType.resource_delete r ext now r.phase Phase.deleting db {db' = db'}
                (ground (arith, e))).0)
      ],
    )
