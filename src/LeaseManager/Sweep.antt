-- ===== src/LeaseManager/Sweep.antt =====
-- What the expiry sweep guarantees (internal/lease/manager.go, SweepExpired).
use fleetplane.Prelude.{
  ℕ, suc, zero, ◌≡◌, refl, sym, ◌∙◌, ap, inl, inr, Bool, ◌&&◌, some, List, [], ◌∷◌, select, take,
  All, arith, Bool-cases, Option-cases,
}
use fleetplane.Prelude.Outcome.{Outcome, ok, err}
use fleetplane.Store.{Db, Lease, LeaseState, AcqState, EventType, lease_eq}
use fleetplane.Store.Rows.{get_row, get_row-put_row}
use fleetplane.Store.Leases
use fleetplane.Store.Leases.{lease_id, enter_state, by_expiry, insert_by_expiry, before, expiring}
use fleetplane.Scheduler.Reserve.{AllocatedIsHeld}
use fleetplane.LeaseManager.{finish, sweep_all, sweep_next, sweep_expired}
use fleetplane.LeaseManager.Held.{
  SameMachine, row-SameMachine, finish-AllocatedIsHeld, finish-leases,
}

module _ (P : Lease → Type 0) where
  select-All : (p : Lease → Bool) (ls : List Lease) → All P ls → All P (select p ls)
  select-All p [] h = tt
  select-All p (l ∷ ls) h = elim (Bool-cases (p l)) [
    | inl y ↦ ground (arith, y, h.0, select-All p ls h.1)
    | inr n ↦ ground (arith, n, select-All p ls h.1)
  ]

  take-All : (n : ℕ) (ls : List Lease) → All P ls → All P (take n ls)
  take-All zero ls h = tt
  take-All (suc n) [] h = tt
  take-All (suc n) (l ∷ ls) h = (h.0, take-All n ls h.1)

  insert-All : (l : Lease) (ls : List Lease) → P l → All P ls → All P (insert_by_expiry l ls)
  insert-All l [] h k = (h, tt)
  insert-All l (m ∷ ms) h k = elim (Bool-cases (before l.expires_at m.expires_at)) [
    | inl y ↦ ground (arith, y, h, k.0, k.1)
    | inr n ↦ ground (arith, n, k.0, insert-All l ms h k.1)
  ]

  by_expiry-All : (ls : List Lease) → All P ls → All P (by_expiry ls)
  unfolding by_expiry
  by_expiry-All [] h = tt
  by_expiry-All (l ∷ ls) h = insert-All l (by_expiry ls) h.0 (by_expiry-All ls h.1)

finish-SameMachine :
    (l : Lease) (to : LeaseState) (acq_to : AcqState) (event : EventType) (now : ℕ) (db : Db)
    {db' : Db} (m : Lease)
    → finish l to acq_to event now db ≡ ok db'
    → SameMachine db m
    → SameMachine db' m
unfolding enter_state
finish-SameMachine l to acq_to event now db m h same m0 g =
    let row =
      sym (get_row-put_row lease_id l.id m.id (enter_state to now) db.leases (λ _. refl))
      ∙ ap (get_row lease_id m.id) (sym (finish-leases l to acq_to event now db h))
      ∙ g in
    elim (Option-cases (get_row lease_id m.id db.leases)) [
      | inl e ↦ ground (arith, e, row)
      | inr (m1, e) ↦ ground (arith, e, row, same m1 e)
    ]

finish-AllSame :
    (l : Lease) (to : LeaseState) (acq_to : AcqState) (event : EventType) (now : ℕ) (db : Db)
    {db' : Db} (ls : List Lease)
    → finish l to acq_to event now db ≡ ok db'
    → All (SameMachine db) ls
    → All (SameMachine db') ls
finish-AllSame l to acq_to event now db [] h k = tt
finish-AllSame l to acq_to event now db (m ∷ ms) h k = (
  finish-SameMachine l to acq_to event now db m h k.0,
  finish-AllSame l to acq_to event now db ms h k.1,
)

next-Held :
    (l : Lease) (ls : List Lease) (now : ℕ) (db : Db) (m : Outcome Db)
    → finish l LeaseState.expired AcqState.expired EventType.lease_expired now db ≡ m
    → All (SameMachine db) (l ∷ ls)
    → AllocatedIsHeld db
    → ((d : Db)
        → All (SameMachine d) ls
        → AllocatedIsHeld d
        → AllocatedIsHeld (sweep_all ls now d).0)
    → AllocatedIsHeld (sweep_next (λ d. sweep_all ls now d) db m).0
next-Held l ls now db (err e) eq same held rest = rest db same.1 held
next-Held l ls now db (ok d) eq same held rest =
    rest d
      (finish-AllSame l LeaseState.expired AcqState.expired EventType.lease_expired now db ls eq
        same.1)
      (finish-AllocatedIsHeld l LeaseState.expired AcqState.expired EventType.lease_expired now db
        same.0 eq held)

sweep_all-Held :
    (ls : List Lease) (now : ℕ) (db : Db)
    → All (SameMachine db) ls
    → AllocatedIsHeld db
    → AllocatedIsHeld (sweep_all ls now db).0
unfolding sweep_all
sweep_all-Held [] now db same held = held
sweep_all-Held (l ∷ ls) now db same held =
    next-Held l ls now db
      (finish l LeaseState.expired AcqState.expired EventType.lease_expired now db) refl same held
      (λ d s h. sweep_all-Held ls now d s h)

keyed-SameMachine :
    (db : Db) (ls : List Lease)
    → All (λ l. get_row lease_id l.id db.leases ≡ some l) ls
    → All (SameMachine db) ls
keyed-SameMachine db [] h = tt
keyed-SameMachine db (l ∷ ls) h = (row-SameMachine db l h.0, keyed-SameMachine db ls h.1)

-- The expiry sweep, whichever of its transactions fail, keeps every allocated machine held by an
-- active lease. Each lease is the row of its id.
pub sweep_expired-AllocatedIsHeld :
    (now : ℕ) (db : Db)
    → All (λ l. get_row lease_id l.id db.leases ≡ some l) db.leases
    → AllocatedIsHeld db
    → AllocatedIsHeld (sweep_expired now db).0
unfolding sweep_expired expiring
sweep_expired-AllocatedIsHeld now db keyed held =
    let due : Lease → Bool =
      λ l. lease_eq l.state LeaseState.active && Leases.due l.expires_at now in
    sweep_all-Held (expiring now 100 db) now db
      (take-All (SameMachine db) 100 (by_expiry (select due db.leases)) (
        by_expiry-All (SameMachine db) (select due db.leases)
          (select-All (SameMachine db) due db.leases (keyed-SameMachine db db.leases keyed))))
      held
