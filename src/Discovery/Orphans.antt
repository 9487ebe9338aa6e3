-- ===== src/Discovery/Orphans.antt =====
-- Which machines a discovery sweep gives up (internal/reconcile/discovery.go, confirmOrphan).
use fleetplane.Prelude.{
  ℕ, ◌+◌, ◌≤◌, ◌≡◌, ◌⊎◌, inl, inr, refl, sym, subst, ap, ◌∙◌, true, false, not, ◌&&◌, ◌||◌, Option,
  none, some, List, ◌==◌, ltb, if◌then◌else◌, if-intro, if-cases, arith, Bool-cases, All,
  All-select, select,
}
use fleetplane.Prelude.Outcome.{Outcome, ok, conflict, OnOk, OnOk-bind, OnOk-of, OnOk-ok, ◌>>=◌}
use fleetplane.Phase.{Phase, phase_eq, phase_eq→≡, can_transition}
use fleetplane.Provider.{ActionKind}
use fleetplane.Store.{Db, Resource, Lease, Operation, OpKind, Ownership, EventType, is_managed}
use fleetplane.Store.Rows.{get_row, count_where, All-by_key}
use fleetplane.Store.Resources
use fleetplane.Store.Resources.{is_none, res_id, enter_phase}
use fleetplane.Store.Resources.Listing.{list, matches}
use fleetplane.Store.Leases
use fleetplane.Store.Leases.{holds}
use fleetplane.Store.Operations
use fleetplane.Store.Events
use fleetplane.Engine.Poll.{snapshot_of}
use fleetplane.Machines.{journal_delete, journal_delete_in_tx, delete_external}
use fleetplane.Machines.Row.{
  OnRow, same-OnRow, put-OnRow, cas-OnRow, journal_op-OnRow, guarded, reading, insert-OnRow,
}
use fleetplane.Scheduler.Steps.{num_eq}
use fleetplane.Scheduler.Sound.{SameTables}
use fleetplane.Scheduler.Agrees.{Keyed}
use fleetplane.Reconcile.Keeps.{tombstoned, mark_deleted-inv}
use fleetplane.Discovery.{Observation, Sight, is_running, is_stopped, revive, refresh}
use fleetplane.Discovery.Unmatched.{minted, mint, see_all}
use fleetplane.Discovery.Sweep.{
  tombstone_orphan, mark_orphan, orphan_step, confirm_all, of_instance, sweep_kind,
}
use fleetplane.Discovery.Sights.{SightRules, Missing, attempt-keeps, see_all-rule, confirm_all-rule}
use fleetplane.Discovery.Keeps.{put_observed-same, with_facts, facts-inv}

-- A machine that is lost for good: its healthy provider does not list it and answers that it is not
-- there, it had been orphaned for at least the grace, no operation on it is open, and no active lease
-- holds it.
abbrev pub IsLost : Sight → List Observation → List Operation → List Lease → ℕ → Resource → Type 0
IsLost w os ops ls j r =
    (w.healthy ≡ true)
    × (r.phase ≡ Phase.orphaned)
    × (r.updated_at + w.orphan_grace ≤ w.now)
    × (count_where (holds j) ls ≡ 0)
    × Missing w os ops r

-- The machine `j` with the external id `ext`, which may be tombstoned only for the reason `E`.
module _ (j ext : ℕ) (ls : List Lease) (E : Type 0) where
  abbrev pub Stays : Resource → Type 0
  Stays r = (r.external_id ≡ some ext) × ((r.deleted_at ≡ none) ⊎ E)

  cas-Stays :
      (id : ℕ) (from to : Phase) (at : ℕ) (d : Db)
      → OnRow j ls Stays d
      → OnOk (OnRow j ls Stays) (Resources.cas_phase id from to at d)
  unfolding enter_phase
  cas-Stays id from to at d h = cas-OnRow j ls Stays id from to at d (λ r y p v. v) h

  refresh-Stays :
      (w : Sight) (r : Resource) (obs : Observation) (d : Db)
      → OnRow j ls Stays d
      → OnOk (OnRow j ls Stays) (refresh w r obs d)
  unfolding refresh revive
  refresh-Stays w r obs d h =
      let On = OnRow j ls Stays in
      OnOk-bind On On _ _
        (OnOk-of On (Resources.put_observed (snapshot_of r.id w.now obs.resource) d) (λ d1 k.
          let (rs, l, _) =
            OnOk-ok (SameTables d) (Resources.put_observed (snapshot_of r.id w.now obs.resource) d)
              d1 k (put_observed-same (snapshot_of r.id w.now obs.resource) d) in
          same-OnRow j ls Stays d d1 l (ap (get_row res_id j) rs) h))
        (λ d1 _ h1.
          OnOk-bind On On _ _
            (OnOk-of On
              (Resources.set_provider_facts r.id obs.resource.extensions obs.resource.capacity w.now
                d1)
              (λ d2 k.
                put-OnRow j ls Stays r.id
                  (with_facts obs.resource.extensions obs.resource.capacity w.now) d1 d2 (λ _. refl)
                  (λ _ _ _ v. v)
                  (facts-inv r.id obs.resource.extensions obs.resource.capacity w.now d1 k) h1))
            (λ d2 _ h2.
              if-intro (OnOk On) (phase_eq r.phase Phase.orphaned && is_running obs.resource.phase)
                (cas-Stays r.id Phase.orphaned Phase.ready w.now d2 h2)
                (if-intro (OnOk On)
                  (phase_eq r.phase Phase.orphaned
                    && is_stopped obs.resource.phase
                    && w.parking r.provider r.kind)
                  (cas-Stays r.id Phase.orphaned Phase.parked w.now d2 h2) h2)))

  mint-Stays :
      (w : Sight) (obs : Observation) (owner : Ownership) (event : EventType) (d : Db)
      → OnRow j ls Stays d
      → OnOk (OnRow j ls Stays) (mint w obs owner event d)
  unfolding mint Events.append
  mint-Stays w obs owner event d h =
      OnOk-bind (OnRow j ls Stays) (OnRow j ls Stays) _ _
        (insert-OnRow j ls Stays (minted w obs owner) d h)
        (λ d1 _ h1.
          same-OnRow j ls Stays d1
            (Events.append w.now event (some (minted w obs owner).id) none d1) refl refl h1)

  -- A delete tombstones only a machine that never came to exist.
  external-Stays :
      (op : ℕ) (r : Resource) (now : ℕ) (o : Option ℕ) (d : Db)
      → r.external_id ≡ o
      → get_row res_id r.id d.resources ≡ some r
      → OnRow j ls Stays d
      → OnOk (OnRow j ls Stays) (delete_external op r now o d)
  unfolding enter_phase
  external-Stays op r now none d e g h =
      OnOk-of (OnRow j ls Stays) (Resources.mark_deleted r.id now d) (λ d1 k.
        put-OnRow j ls Stays r.id (tombstoned now) d d1 (λ _. refl)
          (λ x y gx v. absurd (ground (arith, g, gx, e, v.0))) (mark_deleted-inv r.id now d k) h)
  external-Stays op r now (some x) d e g h =
      journal_op-OnRow j ls Stays op OpKind.delete ActionKind.delete_action true
        EventType.resource_delete r x now r.phase Phase.deleting d (λ _ _ _ v. v) h

  delete-Stays :
      (op res now : ℕ) (d : Db)
      → OnRow j ls Stays d
      → OnOk (OnRow j ls Stays) (journal_delete op res now d)
  unfolding journal_delete journal_delete_in_tx
  delete-Stays op res now d h = reading j ls Stays res d _ (λ r g same.
      guarded j ls Stays
        (is_none r.deleted_at && (phase_eq r.phase Phase.draining || phase_eq r.phase Phase.failed))
        conflict _
        (λ _. guarded j ls Stays (is_managed r.ownership && not r.delete_protected) conflict _ (λ _.
          guarded j ls Stays (Leases.count_active r.id d == 0) conflict _ (λ _.
            external-Stays op r now r.external_id d refl
              (ap (λ i. get_row res_id i d.resources) same ∙ g) h))))

  pub sight-Stays : (w : Sight) → SightRules (OnRow j ls Stays) w
  sight-Stays w = record {
    refreshes = λ r obs d h. refresh-Stays w r obs d h;
    mints = λ obs owner event d h. mint-Stays w obs owner event d h;
    drains = λ id d h. cas-Stays id Phase.ready Phase.draining w.now d h;
    deletes = λ id d h. delete-Stays (w.op_ids id) id w.now d h;
  }

-- The confirmation of a machine that is missing, in a sweep over the rows of `db`.
module _ (w : Sight) (db : Db) (j ext : ℕ) (r0 : Resource) (os : List Observation)
    (row : get_row res_id j db.resources ≡ some r0) (ref : r0.external_id ≡ some ext)
    (healthy : w.healthy ≡ true) where
  Lost : Type 0
  Lost = IsLost w os (Operations.non_terminal db) db.leases j r0

  Here : Db → Type 0
  Here = OnRow j db.leases (Stays j ext db.leases Lost)

  IsRow : Resource → Type 0
  IsRow r = get_row res_id r.id db.resources ≡ some r

  -- The tombstone of the machine, once its grace is over.
  tombstone-Here :
      (r : Resource) (d : Db)
      → IsRow r
      → Missing w os (Operations.non_terminal db) r
      → r.phase ≡ Phase.orphaned
      → ltb w.now (r.updated_at + w.orphan_grace) ≡ false
      → Here d
      → OnOk Here (tombstone_orphan w r d)
  unfolding Here Lost IsRow tombstone_orphan Events.append Leases.count_active
  tombstone-Here r d at miss orphaned late h =
      let V = Stays j ext db.leases Lost in
      guarded j db.leases V (Leases.count_active r.id d == 0) conflict _ (λ z.
        OnOk-bind Here Here (Resources.mark_deleted r.id w.now d) _
          (OnOk-of Here (Resources.mark_deleted r.id w.now d) (λ d1 k.
            put-OnRow j db.leases V r.id (tombstoned w.now) d d1 (λ _. refl)
              (λ x y gx v.
                let mine : r ≡ r0 = same_row r at y in
                let none_left : count_where (holds j) db.leases ≡ 0 = ground (
                  arith,
                  subst (λ i. (count_where (holds i) d.leases == 0) ≡ true) (num_eq y) z,
                  subst (λ l. count_where (holds j) l ≡ count_where (holds j) db.leases) (sym h.0)
                      refl,
                ) in
                (
                  v.0,
                  inr (
                      subst (λ q. IsLost w os (Operations.non_terminal db) db.leases j q) mine
                        (healthy, orphaned, ground (arith, late), none_left, miss)),
                ))
              (mark_deleted-inv r.id w.now d k) h))
          (λ d1 _ h1.
            same-OnRow j db.leases V d1
              (Events.append w.now EventType.resource_orphan_tombstoned (some r.id) none d1) refl
              refl h1))
    where
      same_row : (r : Resource) → IsRow r → (r.id == j) ≡ true → r ≡ r0
      same_row r at y =
          let both = sym at ∙ ap (λ i. get_row res_id i db.resources) (num_eq y) ∙ row in cc

  mark-Here : (r : Resource) (d : Db) → Here d → OnOk Here (mark_orphan w r d)
  unfolding Here mark_orphan Events.append
  mark-Here r d h =
      OnOk-bind Here Here _ _ (cas-Stays j ext db.leases Lost r.id r.phase Phase.orphaned w.now d h)
        (λ d1 _ h1.
          same-OnRow j db.leases (Stays j ext db.leases Lost) d1
            (Events.append w.now EventType.resource_orphaned (some r.id) none d1) refl refl h1)

  step-Here :
      (r : Resource) (d : Db)
      → IsRow r
      → Missing w os (Operations.non_terminal db) r
      → Here d
      → Here (orphan_step w r d)
  unfolding orphan_step
  step-Here r d at miss h = elim (Bool-cases (phase_eq r.phase Phase.orphaned)) [
    | inl y ↦ rw y (elim (Bool-cases (ltb w.now (r.updated_at + w.orphan_grace))) [
      | inl early ↦ rw early h
      | inr late ↦ rw late (
          attempt-keeps Here d (tombstone_orphan w r d) h
            (tombstone-Here r d at miss (phase_eq→≡ r.phase Phase.orphaned y) late h))
    ])
    | inr n ↦ rw n (
        if-intro Here (not (can_transition r.phase Phase.orphaned)) h
          (attempt-keeps Here d (mark_orphan w r d) h (mark-Here r d h)))
  ]

  -- The rows that the sweep lists are rows of the table.
  listed_rows : Keyed db.resources → All IsRow (list (of_instance w) db)
  unfolding IsRow list
  listed_rows keyed =
      All-by_key res_id (λ r. get_row res_id r.id db.resources ≡ some r)
        (select (matches (of_instance w)) db.resources)
        (All-select (λ r. get_row res_id r.id db.resources ≡ some r) (matches (of_instance w))
          db.resources keyed)

  confirmed-Here :
      (d : Db)
      → Keyed db.resources
      → Here d
      → Here (confirm_all w os (Operations.non_terminal db) (list (of_instance w) db) d)
  confirmed-Here d keyed h =
      confirm_all-rule Here IsRow w os (Operations.non_terminal db) step-Here
        (list (of_instance w) db) d (listed_rows keyed) h

  swept :
      Keyed db.resources
      → r0.deleted_at ≡ none
      → Here (
          confirm_all w os
            (Operations.non_terminal db)
            (list (of_instance w) db)
            (see_all w (list (of_instance w) db) (Operations.non_terminal db) os db))
  unfolding Here Lost
  swept keyed alive =
      confirmed-Here (see_all w (list (of_instance w) db) (Operations.non_terminal db) os db) keyed
        (see_all-rule (OnRow j db.leases (Stays j ext db.leases Lost)) w
          (sight-Stays j ext db.leases Lost w) (list (of_instance w) db)
          (Operations.non_terminal db) os db (refl, (r0, row, (ref, inl alive))))

-- A sweep tombstones a machine that is known at the provider only when it is lost for good: the
-- provider is healthy, does not list it and answers that it is not there, it had been orphaned for at
-- least the grace, no operation on it is open and no active lease holds it. Whatever else the sweep
-- does, the machine keeps its external id, and the leases stay as they are. Each resource is the row
-- of its id.
pub sweep_kind-IsLost :
    (w : Sight) (db : Db) (j ext : ℕ) (r : Resource) (os : List Observation)
    → w.discover ≡ ok os
    → Keyed db.resources
    → get_row res_id j db.resources ≡ some r
    → r.external_id ≡ some ext
    → r.deleted_at ≡ none
    → OnOk
        (λ d.
          (d.leases ≡ db.leases)
          × ((r' : Resource) × (get_row res_id j d.resources ≡ some r')
              × ((r'.external_id ≡ some ext)
                  × ((r'.deleted_at ≡ none)
                      ⊎ IsLost w os (Operations.non_terminal db) db.leases j r))))
        (sweep_kind w db)
unfolding sweep_kind swept Here Lost
sweep_kind-IsLost w db j ext r os listed keyed row ref alive = by_listing w.discover listed
  where
    Found : Db → Type 0
    Found =
        OnRow j db.leases
          (Stays j ext db.leases (IsLost w os (Operations.non_terminal db) db.leases j r))

    by_listing :
        (m : Outcome (List Observation))
        → m ≡ ok os
        → OnOk Found (
            m >>= λ os'.
            let all = list (of_instance w) db in
            let ops = Operations.non_terminal db in
            let seen = see_all w all ops os' db in
            ok (if w.healthy then confirm_all w os' ops all seen else seen))
    by_listing m e =
        subst
          (λ x. OnOk Found (
            x >>= λ os'.
            let all = list (of_instance w) db in
            let ops = Operations.non_terminal db in
            let seen = see_all w all ops os' db in
            ok (if w.healthy then confirm_all w os' ops all seen else seen)))
          (sym e)
          (if-cases Found w.healthy (λ y. swept w db j ext r os row ref y keyed alive)
            (λ _.
              see_all-rule Found w
                (sight-Stays j ext db.leases
                  (IsLost w os (Operations.non_terminal db) db.leases j r) w)
                (list (of_instance w) db) (Operations.non_terminal db) os db
                (refl, (r, row, (ref, inl alive)))))
