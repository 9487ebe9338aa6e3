-- ===== src/Scheduler/Reserve.antt =====
-- What a successful reservation guarantees (internal/scheduler/scheduler.go, reserve).
use fleetplane.Prelude.{
  ℕ, ◌≤◌, ◌≡◌, ◌⊎◌, inl, inr, refl, sym, ◌∙◌, ap, subst, Bool, true, false, not, ◌&&◌, some, List,
  [], ◌∷◌, ◌==◌, if◌then◌else◌, select, arith, Bool-cases,
}
use fleetplane.Prelude.Outcome.{ok, conflict, insufficient, guard, >>=-eq-ok}
use fleetplane.Prelude.Int64.{ℤ, ltb_ℤ}
use fleetplane.Phase.{Phase, phase_eq}
use fleetplane.Capacity.{Vector, parse, fits, at_dim, lookup_dim}
use fleetplane.Store.{Db, Resource, Lease, Acquisition}
use fleetplane.Store.Rows.{get_row, get_row-put_row, map_row, count_where}
use fleetplane.Store.Resources
use fleetplane.Store.Resources.{is_none, res_id, enter_phase}
use fleetplane.Store.Resources.Phases.{cas_phase-inv}
use fleetplane.Store.Leases
use fleetplane.Store.Leases.{holds, holds_exclusive}
use fleetplane.Store.Events
use fleetplane.Scheduler.{admit, confirm, occupy, reserve, new_lease, in_use, eligible, no_leases}
use fleetplane.Scheduler.Steps.{
  steps, leases-same, leases-after, bind-resources, in_use-count, insert-resources, no_leases-count,
  num_eq, over-lookup,
}

-- An exclusive lease is the only active one on its machine.
abbrev pub Alone : Db → Type 0
Alone db =
    (j : ℕ)
    → (count_where (holds_exclusive j) db.leases ≡ 0) ⊎ (count_where (holds j) db.leases ≤ 1)

-- An allocated machine has an active lease.
abbrev pub AllocatedIsHeld : Db → Type 0
AllocatedIsHeld db =
    (j : ℕ) (r : Resource)
    → get_row res_id j db.resources ≡ some r
    → r.phase ≡ Phase.allocated
    → 1 ≤ count_where (holds j) db.leases

admit-inv :
    (r : Resource) (active : List Lease) (want : Vector) (exclusive : Bool) {total : Vector}
    → admit r active want exclusive ≡ ok total
    → (eligible r ≡ true)
      × (parse r.capacity ≡ ok total)
      × ((exclusive && not (no_leases active)) ≡ false)
      × ((u : Vector) × (in_use [] active ≡ ok u) × (fits total u want ≡ true))
unfolding admit
admit-inv r active want exclusive {total} h =
    let (_, _, h1) = >>=-eq-ok (guard (eligible r) conflict) _ h in
    let (t, pt, h2) = >>=-eq-ok (parse r.capacity) _ h1 in
    let (_, alone, h3) =
      >>=-eq-ok (guard (not (exclusive && not (no_leases active))) insufficient) _ h2 in
    let (u, pu, h4) = >>=-eq-ok (in_use [] active) _ h3 in
    (ground arith, ground arith, ground arith, (u, pu, ground arith))

-- No over-allocation: after a reservation the leases that are active on the machine add up, in
-- every dimension of its capacity, to at most that capacity.
pub reserve-fits :
    (lease now : ℕ) (acq : Acquisition) (res : ℕ) (want : Vector) (exclusive : Bool) (db : Db)
    {db' : Db}
    → reserve lease now acq res want exclusive db ≡ ok db'
    → (r : Resource) × (total : Vector) × (sum : Vector) × (get_row res_id res db.resources
        ≡ some r)
      × (parse r.capacity ≡ ok total)
      × (Leases.sum_active res db' ≡ ok sum)
      × ((d : ℕ) (t : ℤ) → lookup_dim d total ≡ some t → ltb_ℤ t (at_dim sum d) ≡ false)
unfolding confirm Leases.sum_active Leases.active_by_resource Resources.get
reserve-fits lease now acq res want exclusive db {db'} h =
    let s = steps lease now acq res want exclusive db h in
    let (sum, sums, h1) = >>=-eq-ok (Leases.sum_active res s.db1) _ s.confirmed in
    let same : Leases.sum_active res db' ≡ ok sum =
      ap (λ ls. Leases.sum_leases [] (select (holds res) ls))
        (leases-same lease now acq res want exclusive db h)
      ∙ sums in
    (
      s.r,
      s.total,
      sum,
      ground (arith, s.found),
      (admit-inv s.r _ want exclusive s.admitted).1,
      same,
      λ d t k. over-lookup sum s.total d t (ground arith) k,
    )

-- A reservation keeps exclusive leases alone on their machines: an exclusive lease is granted only
-- where none is active, and no lease is granted beside an exclusive one.
pub reserve-Alone :
    (lease now : ℕ) (acq : Acquisition) (res : ℕ) (want : Vector) (exclusive : Bool) (db : Db)
    {db' : Db}
    → reserve lease now acq res want exclusive db ≡ ok db'
    → Alone db
    → Alone db'
unfolding Leases.active_by_resource
reserve-Alone lease now acq res want exclusive db {db'} h inv j =
    let s = steps lease now acq res want exclusive db h in
    let (_, _, alone, (u, pu, _)) = admit-inv s.r _ want exclusive s.admitted in
    let after = leases-after lease now acq res want exclusive db h in
    subst (λ ls. (count_where (holds_exclusive j) ls ≡ 0) ⊎ (count_where (holds j) ls ≤ 1))
      (sym after)
      (elim (Bool-cases (res == j)) [
        | inr n ↦ ground (arith, n, inv j)
        | inl y ↦
            subst
              (λ i.
                (count_where (holds_exclusive i)
                    (new_lease lease now acq res want exclusive ∷ db.leases)
                  ≡ 0)
                ⊎ (count_where (holds i) (new_lease lease now acq res want exclusive ∷ db.leases)
                    ≤ 1))
              (num_eq y)
              (ground
                (arith, in_use-count res db.leases [] pu, no_leases-count res db.leases, alone))
      ])

occupy-other :
    (r : Resource) (res now : ℕ) (db : Db) {d : Db} (j : ℕ)
    → occupy r res now db ≡ ok d
    → (res == j) ≡ false
    → get_row res_id j d.resources ≡ get_row res_id j db.resources
unfolding occupy enter_phase
occupy-other r res now db {d} j h n = elim (Bool-cases (phase_eq r.phase Phase.ready)) [
  | inl y ↦
      let (x, g, _, _, same) =
        cas_phase-inv res Phase.ready Phase.allocated now db {db' = d} (ground (arith, y)) in
      ap (λ e. get_row res_id j e.resources) same
      ∙ get_row-put_row res_id res j (enter_phase Phase.ready Phase.allocated now) db.resources
          (λ _. refl)
      ∙ ap
          (λ b.
            if b
            then map_row (enter_phase Phase.ready Phase.allocated now)
                (get_row res_id j db.resources)
            else get_row res_id j db.resources)
          n
  | inr m ↦ ground (arith, m)
]

-- A reservation keeps every allocated machine held by an active lease, the one it allocates
-- included.
pub reserve-AllocatedIsHeld :
    (lease now : ℕ) (acq : Acquisition) (res : ℕ) (want : Vector) (exclusive : Bool) (db : Db)
    {db' : Db}
    → reserve lease now acq res want exclusive db ≡ ok db'
    → AllocatedIsHeld db
    → AllocatedIsHeld db'
unfolding Events.append
reserve-AllocatedIsHeld lease now acq res want exclusive db {db'} h inv j r g k =
    let s = steps lease now acq res want exclusive db h in
    let after = leases-after lease now acq res want exclusive db h in
    subst (λ ls. 1 ≤ count_where (holds j) ls) (sym after)
      (elim (Bool-cases (res == j)) [
        | inl y ↦ ground (arith, y)
        | inr n ↦
            let same : get_row res_id j db'.resources ≡ get_row res_id j db.resources =
              ap (λ d. get_row res_id j d.resources) s.result
              ∙ ap (get_row res_id j) (bind-resources acq.id lease now s.db2 s.bound)
              ∙ occupy-other s.r res now s.db1 j s.occupied n
              ∙ ap (get_row res_id j) (insert-resources _ db s.inserted) in
            let before = inv j r (sym same ∙ g) k in ground (arith, before)
      ])
