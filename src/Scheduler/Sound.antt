-- ===== src/Scheduler/Sound.antt =====
-- The invariant of the tables that the scheduler's transactions keep (internal/scheduler/scheduler.go,
-- internal/provision).
use fleetplane.Prelude.{
  ℕ, ◌≡◌, ◌≢◌, ◌≤◌, ◌⊎◌, inl, inr, refl, sym, ◌∙◌, ap, subst, Bool, ◌∷◌, ◌==◌, arith, Bool-cases,
  Option-cases,
}
use fleetplane.Prelude.Outcome.{Outcome, ok, err, OnOk, OnOk-of, OnOk-ok}
use fleetplane.Phase.{Phase}
use fleetplane.Capacity.{Vector}
use fleetplane.Store.{Db, Resource, Lease, Operation, Acquisition, AcqState}
use fleetplane.Store.Rows.{get_row, put_row, get_row-put_row, count_where}
use fleetplane.Store.Resources
use fleetplane.Store.Resources.{res_id, enter_phase, is_none}
use fleetplane.Store.Resources.Phases.{cas_phase-inv}
use fleetplane.Store.Leases.{holds, holds_exclusive}
use fleetplane.Store.Acquisitions
use fleetplane.Store.Operations
use fleetplane.Store.Operations.Journal.{OneOpen, append-OneOpen}
use fleetplane.Store.Events
use fleetplane.Store.Leases
use fleetplane.Scheduler.{occupy, reserve}
use fleetplane.Scheduler.Steps.{steps}
use fleetplane.Scheduler.Reserve.{Alone, AllocatedIsHeld, reserve-Alone, reserve-AllocatedIsHeld}

-- Exclusive leases are alone on their machines, allocated machines are held, and no resource has two
-- open operations.
pub record Sound (db : Db) : Type 0 where
  pub alone : Alone db
  pub held : AllocatedIsHeld db
  pub one_open : OneOpen db.operations

-- The tables that the invariant is about.
abbrev pub SameTables : Db → Db → Type 0
SameTables db d =
    (d.resources ≡ db.resources) × (d.leases ≡ db.leases) × (d.operations ≡ db.operations)

pub same-Sound : (db d : Db) → SameTables db d → Sound db → Sound d
same-Sound db d (r, l, o) s = record {
  alone = λ j.
      subst (λ ls. (count_where (holds_exclusive j) ls ≡ 0) ⊎ (count_where (holds j) ls ≤ 1))
        (sym l) (s.alone j);
  held = λ j x g k.
      subst (λ ls. 1 ≤ count_where (holds j) ls) (sym l)
        (s.held j x (ap (get_row res_id j) (sym r) ∙ g) k);
  one_open = subst OneOpen (sym o) s.one_open;
}

-- A call that leaves those tables alone keeps the invariant.
pub OnOk-Sound : (db : Db) (m : Outcome Db) → OnOk (SameTables db) m → Sound db → OnOk Sound m
OnOk-Sound db (ok d) h s = same-Sound db d h s
OnOk-Sound db (err e) h s = tt

pub acq_transition-same :
    (id : ℕ) (from to : AcqState) (at : ℕ) (db : Db)
    → OnOk (SameTables db) (Acquisitions.transition id from to at db)
unfolding Acquisitions.transition
acq_transition-same id from to at db = ground arith

pub set_pending-same :
    (id res : ℕ) (db : Db) → OnOk (SameTables db) (Acquisitions.set_pending_resource id res db)
unfolding Acquisitions.set_pending_resource
set_pending-same id res db = ground arith

cas-held :
    (id : ℕ) (from to : Phase) (at : ℕ) (db : Db) {d : Db}
    → to ≢ Phase.allocated
    → Resources.cas_phase id from to at db ≡ ok d
    → AllocatedIsHeld db
    → AllocatedIsHeld d
unfolding enter_phase
cas-held id from to at db {d} ne h inv j r g k =
    let (r0, g0, _, _, same) = cas_phase-inv id from to at db h in
    let leases : db.leases ≡ d.leases = ap (λ e. e.leases) (sym same) in
    let row =
      sym (get_row-put_row res_id id j (enter_phase from to at) db.resources (λ _. refl))
      ∙ ap (λ e. get_row res_id j e.resources) (sym same)
      ∙ g in
    subst (λ ls. 1 ≤ count_where (holds j) ls) leases
      (elim (Bool-cases (id == j)) [
        | inl y ↦ absurd (ne (ground (arith, y, row, k)))
        | inr n ↦ inv j r (ground (arith, n, row)) k
      ])

-- A compare-and-set to another phase than allocated.
pub cas-Sound :
    (id : ℕ) (from to : Phase) (at : ℕ) (db : Db)
    → to ≢ Phase.allocated
    → Sound db
    → OnOk Sound (Resources.cas_phase id from to at db)
cas-Sound id from to at db ne s = OnOk-of Sound (Resources.cas_phase id from to at db) (λ d h.
    let (_, _, _, _, same) = cas_phase-inv id from to at db h in
    record {
      alone = subst Alone (sym same) s.alone;
      held = cas-held id from to at db ne h s.held;
      one_open = subst (λ e. OneOpen e.operations) (sym same) s.one_open;
    })

append-tables :
    (o : Operation) (db : Db)
    → OnOk (λ d. (d.resources ≡ db.resources) × (d.leases ≡ db.leases)) (Operations.append o db)
unfolding Operations.append
append-tables o db = ground arith

pub append-Sound : (o : Operation) (db : Db) → Sound db → OnOk Sound (Operations.append o db)
append-Sound o db s = OnOk-of Sound (Operations.append o db) (λ d h.
    let (r, l) =
      OnOk-ok (λ e. (e.resources ≡ db.resources) × (e.leases ≡ db.leases)) (Operations.append o db)
        d h (append-tables o db) in
    let moved = same-Sound db (record d { operations = db.operations }) (r, l, refl) s in
    record { alone = moved.alone; held = moved.held; one_open = append-OneOpen o db h s.one_open })

insert-inv :
    (r : Resource) (db : Db) {d : Db}
    → Resources.insert r db ≡ ok d
    → d ≡ record db { resources = r ∷ db.resources }
unfolding Resources.insert
insert-inv r db h = ground arith

-- A new resource that is not allocated.
pub insert-Sound :
    (r : Resource) (db : Db)
    → r.phase ≢ Phase.allocated
    → Sound db
    → OnOk Sound (Resources.insert r db)
insert-Sound r db ne s = OnOk-of Sound (Resources.insert r db) (λ d h.
    subst Sound (sym (insert-inv r db h)) (record {
      alone = s.alone;
      held = λ j x g k. elim (Bool-cases (r.id == j)) [
        | inl y ↦ absurd (ne (ground (arith, y, g, k)))
        | inr n ↦ s.held j x (ground (arith, n, g)) k
      ];
      one_open = s.one_open;
    }))

insert_lease-operations :
    (l : Lease) (db : Db) {d : Db} → Leases.insert l db ≡ ok d → d.operations ≡ db.operations
unfolding Leases.insert
insert_lease-operations l db h = ground arith

occupy-operations :
    (r : Resource) (res now : ℕ) (db : Db) {d : Db}
    → occupy r res now db ≡ ok d
    → d.operations ≡ db.operations
unfolding occupy Resources.cas_phase
occupy-operations r res now db h = ground arith

bind-operations :
    (id l now : ℕ) (db : Db) {d : Db}
    → Acquisitions.bind id l now db ≡ ok d
    → d.operations ≡ db.operations
unfolding Acquisitions.bind
bind-operations id l now db h = ground arith

pub reserve-Sound :
    (lease now : ℕ) (acq : Acquisition) (res : ℕ) (want : Vector) (exclusive : Bool) (db : Db)
    → Sound db
    → OnOk Sound (reserve lease now acq res want exclusive db)
unfolding Events.append
reserve-Sound lease now acq res want exclusive db s =
    OnOk-of Sound (reserve lease now acq res want exclusive db) (λ d h.
      let st = steps lease now acq res want exclusive db h in
      let ops : d.operations ≡ db.operations =
        ap (λ e. e.operations) st.result
        ∙ bind-operations acq.id lease now st.db2 st.bound
        ∙ occupy-operations st.r res now st.db1 st.occupied
        ∙ insert_lease-operations _ db st.inserted in
      record {
        alone = reserve-Alone lease now acq res want exclusive db h s.alone;
        held = reserve-AllocatedIsHeld lease now acq res want exclusive db h s.held;
        one_open = subst OneOpen (sym ops) s.one_open;
      })

-- An UPDATE of a machine that leaves its phase alone.
pub update-Sound :
    (id : ℕ) (f : Resource → Resource) (db d : Db)
    → ((r : Resource) → res_id (f r) ≡ res_id r)
    → ((r : Resource) → (f r).phase ≡ r.phase)
    → d ≡ record db { resources = put_row res_id id f db.resources }
    → Sound db
    → Sound d
update-Sound id f db d key same eq s = subst Sound (sym eq) (record {
  alone = s.alone;
  held = λ j r g k.
      let row = sym (get_row-put_row res_id id j f db.resources key) ∙ g in
      elim (Option-cases (get_row res_id j db.resources)) [
        | inl n ↦ ground (arith, n, row)
        | inr (x, y) ↦ s.held j x y (ground (arith, y, row, k, same x))
      ];
  one_open = s.one_open;
})
