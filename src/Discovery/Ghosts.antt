-- ===== src/Discovery/Ghosts.antt =====
-- What becomes of a ghost that is stopped (internal/reconcile/discovery.go, handleGhost and
-- mintRecord).
use fleetplane.Prelude.{ℕ, ◌≡◌, refl, true, if-intro, arith}
use fleetplane.Prelude.Outcome.{Outcome, ok, err, conflict}
use fleetplane.Phase.{Phase}
use fleetplane.Store.{Db, Ownership, EventType}
use fleetplane.Store.Resources
use fleetplane.Store.Events
use fleetplane.LeaseManager.{attempt}
use fleetplane.Discovery.{Observation, Sight, ext_id}
use fleetplane.Discovery.Unmatched.{minted_parked, mint, reclaim_ghost, after_mint, handle_ghost}

-- The record of a stopped ghost is not ready, so that it cannot be drained.
cas-parked :
    (w : Sight) (obs : Observation) (owner : Ownership) (event : EventType) (db : Db) {d : Db}
    → minted_parked w obs ≡ true
    → mint w obs owner event db ≡ ok d
    → Resources.cas_phase (w.mint_ids (ext_id obs)) Phase.ready Phase.draining w.now d
      ≡ err conflict
unfolding mint Resources.insert Resources.cas_phase Events.append
cas-parked w obs owner event db p h = ground (arith, p, h)

refused_stays :
    (w : Sight) (id : ℕ) (d : Db)
    → Resources.cas_phase id Phase.ready Phase.draining w.now d ≡ err conflict
    → reclaim_ghost w id d ≡ d
unfolding reclaim_ghost
refused_stays w id d h = rw (h, reclaim_ghost) refl

-- A ghost that the provider reports as stopped, where machines can be parked, is only recorded,
-- whatever the policy on ghosts: no delete of it is journaled.
pub handle_ghost-stopped :
    (w : Sight) (obs : Observation) (db : Db)
    → minted_parked w obs ≡ true
    → handle_ghost w obs db ≡ attempt db (mint w obs Ownership.managed EventType.resource_ghost db)
unfolding handle_ghost
handle_ghost-stopped w obs db p =
    by_mint (mint w obs Ownership.managed EventType.resource_ghost db) refl
  where
    id : ℕ
    id = w.mint_ids (ext_id obs)

    by_mint :
        (m : Outcome Db)
        → mint w obs Ownership.managed EventType.resource_ghost db ≡ m
        → after_mint w id db m ≡ attempt db m
    by_mint (err x) e = refl
    by_mint (ok d) e =
        if-intro (λ x. x ≡ d) w.ghost_delete
          (refused_stays w id d
            (cas-parked w obs Ownership.managed EventType.resource_ghost db p e))
          refl
