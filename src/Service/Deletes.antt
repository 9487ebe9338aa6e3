-- ===== src/Service/Deletes.antt =====
-- The operator's delete (internal/app/service.go, DeleteResource): of a machine that never came to
-- exist at the provider, and of one in use (invariant 3 of internal/lease).
use fleetplane.Prelude.{
  ℕ, ◌≤◌, ◌≡◌, refl, ◌∙◌, ap, subst, sym, inl, inr, Bool, true, false, Option, none, some, arith,
  Option-cases,
}
use fleetplane.Prelude.Outcome.{ok, is_ok}
use fleetplane.Prelude.Json.{Json}
use fleetplane.Store.{Db, Resource, is_managed}
use fleetplane.Store.Rows.{get_row, put_row, get_row-put_row, get_row-key, count_where}
use fleetplane.Store.Resources
use fleetplane.Store.Resources.{is_none, res_id}
use fleetplane.Store.Leases
use fleetplane.Store.Leases.{holds}
use fleetplane.Machines.{delete_gates, journal_stop, journal_delete, journal_delete_in_tx}
use fleetplane.Machines.Operator.{park_resource}
use fleetplane.Service.{Key, Done, delete_work}

-- A live, managed and unprotected machine without an external id that no active lease holds is
-- tombstoned at once: the delete succeeds whatever operations are open, and leaves them open.
pub delete_work-tombstones :
    (build : Resource → ℕ × Json ℕ) (k : Option Key) (op now res : ℕ) (db : Db) (r : Resource)
    → get_row res_id res db.resources ≡ some r
    → r.deleted_at ≡ none
    → is_managed r.ownership ≡ true
    → r.delete_protected ≡ false
    → count_where (holds res) db.leases ≡ 0
    → r.external_id ≡ none
    → (d : Done) × (delete_work build k op now res db ≡ ok d)
      × (d.db.operations ≡ db.operations)
      × ((r' : Resource) × (get_row res_id res d.db.resources ≡ some r')
          × (r'.deleted_at ≡ some now))
unfolding delete_work delete_gates Resources.get Resources.mark_deleted Leases.count_active
delete_work-tombstones build k op now res db r g live managed open_ free ext =
    let here : r.id ≡ res = get_row-key res_id res db.resources r g in
    let stamp : Resource → Resource = λ x. record x { deleted_at = some now; updated_at = now } in
    let held : count_where (holds r.id) db.leases ≡ 0 =
      ap (λ i. count_where (holds i) db.leases) here ∙ free in
    let again : get_row res_id r.id db.resources ≡ some r =
      ap (λ i. get_row res_id i db.resources) here ∙ g in
    (
      record {
        db = record db { resources = put_row res_id r.id stamp db.resources };
        status = (build r).0;
        body = (build r).1;
      },
      ground (arith, g, live, managed, open_, held, ext, again),
      refl,
      (
        stamp r,
        ap (λ i. get_row res_id res (put_row res_id i stamp db.resources)) here
            ∙ get_row-put_row res_id res res stamp db.resources (λ _. refl)
            ∙ ground (arith, g),
        refl,
      ),
    )

-- A machine that an active lease holds can be neither stopped nor deleted: the stop that the
-- reconciler or the operator asks for, the reconciler's delete and the operator's delete are all
-- refused.
pub leased-refused :
    (build : Resource → ℕ × Json ℕ) (k : Option Key) (parking : ℕ → ℕ → Bool) (op res now : ℕ)
    (unprotected : Bool) (db : Db)
    → 1 ≤ count_where (holds res) db.leases
    → (is_ok (journal_stop parking op res now unprotected db) ≡ false)
      × (is_ok (park_resource parking op res now db) ≡ false)
      × (is_ok (journal_delete op res now db) ≡ false)
      × (is_ok (delete_work build k op now res db) ≡ false)
unfolding journal_stop journal_delete journal_delete_in_tx Leases.count_active Resources.get
    delete_work delete_gates park_resource
leased-refused build k parking op res now unprotected db h =
    elim (Option-cases (get_row res_id res db.resources)) [
      | inl e ↦ (ground (arith, e), ground (arith, e), ground (arith, e), ground (arith, e))
      | inr (r, e) ↦
          let here : r.id ≡ res = get_row-key res_id res db.resources r e in
          let held : 1 ≤ count_where (holds r.id) db.leases =
            subst (λ i. 1 ≤ count_where (holds i) db.leases) (sym here) h in
          (
            ground (arith, e, h),
            ground (arith, e, h),
            ground (arith, e, held),
            ground (arith, e, held),
          )
    ]
