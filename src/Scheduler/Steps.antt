-- ===== src/Scheduler/Steps.antt =====
-- The steps of a successful reservation (internal/scheduler/scheduler.go, reserve), and the tables
-- after each.
use fleetplane.Prelude.{
  ℕ, ◌≡◌, inl, inr, refl, ◌∙◌, ap, subst, Bool, true, false, none, some, List, [], ◌∷◌, ◌==◌,
  select, arith, Bool-cases,
}
use fleetplane.Prelude.Outcome.{ok, >>=-eq-ok}
use fleetplane.Prelude.Int64.{ℤ, ltb_ℤ}
use fleetplane.Capacity.{Vector, parse, at_dim, add_into, lookup_dim}
use fleetplane.Store.{Db, Resource, Lease, Acquisition, EventType}
use fleetplane.Store.Rows.{count_where}
use fleetplane.Store.Resources
use fleetplane.Store.Resources.{is_none, res_id, enter_phase}
use fleetplane.Store.Leases
use fleetplane.Store.Leases.{holds, holds_exclusive}
use fleetplane.Store.Acquisitions
use fleetplane.Store.Events
use fleetplane.Scheduler.{
  admit, confirm, occupy, reserve, new_lease, in_use, over_allocated, no_leases, parsed,
}

-- The steps that a successful reservation went through.
pub record Steps (lease now : ℕ) (acq : Acquisition) (res : ℕ) (want : Vector) (exclusive : Bool)
    (db db' : Db) : Type 0 where
  pub r : Resource
  pub total : Vector
  pub db1 : Db
  pub db2 : Db
  pub db3 : Db
  pub found : Resources.get res db ≡ ok r
  pub admitted : admit r (Leases.active_by_resource res db) want exclusive ≡ ok total
  pub inserted : Leases.insert (new_lease lease now acq res want exclusive) db ≡ ok db1
  pub confirmed : confirm total (Leases.sum_active res db1) ≡ ok tt
  pub occupied : occupy r res now db1 ≡ ok db2
  pub bound : Acquisitions.bind acq.id lease now db2 ≡ ok db3
  pub result : db' ≡ Events.append now EventType.acquisition_bound (some res) none db3

pub reserve-inv :
    (lease now : ℕ) (acq : Acquisition) (res : ℕ) (want : Vector) (exclusive : Bool) (db : Db)
    {db' : Db}
    → reserve lease now acq res want exclusive db ≡ ok db'
    → Steps lease now acq res want exclusive db db'
unfolding reserve
reserve-inv lease now acq res want exclusive db h =
    let (r, found, h1) = >>=-eq-ok (Resources.get res db) _ h in
    let (total, admitted, h2) =
      >>=-eq-ok (admit r (Leases.active_by_resource res db) want exclusive) _ h1 in
    let (db1, inserted, h3) =
      >>=-eq-ok (Leases.insert (new_lease lease now acq res want exclusive) db) _ h2 in
    let (u, confirmed, h4) = >>=-eq-ok (confirm total (Leases.sum_active res db1)) _ h3 in
    let (db2, occupied, h5) = >>=-eq-ok (occupy r res now db1) _ h4 in
    let (db3, bound, h6) = >>=-eq-ok (Acquisitions.bind acq.id lease now db2) _ h5 in
    record {
      r = r;
      total = total;
      db1 = db1;
      db2 = db2;
      db3 = db3;
      found = found;
      admitted = admitted;
      inserted = inserted;
      confirmed = confirmed;
      occupied = occupied;
      bound = bound;
      result = ground arith;
    }

pub num_eq : {a b : ℕ} → (a == b) ≡ true → a ≡ b
num_eq h = ground arith

pub over-lookup :
    (sum total : Vector) (d : ℕ) (t : ℤ)
    → over_allocated sum total ≡ false
    → lookup_dim d total ≡ some t
    → ltb_ℤ t (at_dim sum d) ≡ false
over-lookup sum [] d t h k = ground arith
over-lookup sum ((e, v) ∷ total) d t h k = elim (Bool-cases (e == d)) [
  | inl y ↦ subst (λ x. ltb_ℤ t (at_dim sum x) ≡ false) (num_eq y) (ground (arith, y))
  | inr n ↦ over-lookup sum total d t (ground arith) (ground (arith, n))
]

insert-leases :
    (l : Lease) (db : Db) {d : Db} → Leases.insert l db ≡ ok d → d.leases ≡ l ∷ db.leases
unfolding Leases.insert
insert-leases l db h = ground arith

pub insert-resources :
    (l : Lease) (db : Db) {d : Db} → Leases.insert l db ≡ ok d → d.resources ≡ db.resources
unfolding Leases.insert
insert-resources l db h = ground arith

occupy-leases :
    (r : Resource) (res now : ℕ) (db : Db) {d : Db}
    → occupy r res now db ≡ ok d
    → d.leases ≡ db.leases
unfolding occupy Resources.cas_phase
occupy-leases r res now db h = ground arith

bind-leases :
    (id l now : ℕ) (db : Db) {d : Db} → Acquisitions.bind id l now db ≡ ok d → d.leases ≡ db.leases
unfolding Acquisitions.bind
bind-leases id l now db h = ground arith

pub bind-resources :
    (id l now : ℕ) (db : Db) {d : Db}
    → Acquisitions.bind id l now db ≡ ok d
    → d.resources ≡ db.resources
unfolding Acquisitions.bind
bind-resources id l now db h = ground arith

module _ (lease now : ℕ) (acq : Acquisition) (res : ℕ) (want : Vector) (exclusive : Bool) (db : Db)
    {db' : Db} (h : reserve lease now acq res want exclusive db ≡ ok db') where
  pub steps : Steps lease now acq res want exclusive db db'
  steps = reserve-inv lease now acq res want exclusive db h

  pub leases-same : db'.leases ≡ steps.db1.leases
  unfolding Events.append
  leases-same =
      ap (λ d. d.leases) steps.result
      ∙ bind-leases acq.id lease now steps.db2 steps.bound
      ∙ occupy-leases steps.r res now steps.db1 steps.occupied

  pub leases-after : db'.leases ≡ new_lease lease now acq res want exclusive ∷ db.leases
  leases-after = leases-same ∙ insert-leases _ db steps.inserted

pub no_leases-count :
    (res : ℕ) (ls : List Lease)
    → no_leases (select (holds res) ls) ≡ true
    → count_where (holds res) ls ≡ 0
no_leases-count res [] h = refl
no_leases-count res (l ∷ ls) h = ground (arith, no_leases-count res ls)

pub in_use-count :
    (res : ℕ) (ls : List Lease) (used : Vector) {u : Vector}
    → in_use used (select (holds res) ls) ≡ ok u
    → count_where (holds_exclusive res) ls ≡ 0
unfolding in_use
in_use-count res [] used h = refl
in_use-count res (l ∷ ls) used {u} h = elim (Bool-cases (holds res l)) [
  | inl y ↦
      let rest : in_use (add_into used (parsed (parse l.capacity))) (select (holds res) ls) ≡ ok u =
        ground (arith, y) in
      ground (arith, y, in_use-count res ls (add_into used (parsed (parse l.capacity))) rest)
  | inr n ↦
      let rest : in_use used (select (holds res) ls) ≡ ok u = ground (arith, n) in
      ground (arith, n, in_use-count res ls used rest)
]
