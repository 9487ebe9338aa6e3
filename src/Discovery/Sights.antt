-- ===== src/Discovery/Sights.antt =====
-- The rule of a sweep: what every transaction of a discovery sweep keeps, the sweep keeps
-- (internal/reconcile/discovery.go).
use fleetplane.Prelude.{
  ℕ, ◌≡◌, inl, inr, refl, true, false, not, ◌&&◌, ◌||◌, Option, none, some, List, [], ◌∷◌, ◌==◌,
  if-intro, Bool-cases, All, arith,
}
use fleetplane.Prelude.Outcome.{Outcome, ok, err, OnOk}
use fleetplane.Phase.{Phase}
use fleetplane.Store.{Db, Resource, Operation, Ownership, EventType, terminal}
use fleetplane.Store.Resources
use fleetplane.Store.Resources.{is_none}
use fleetplane.Store.Operations
use fleetplane.Machines.{ref_for, journal_delete}
use fleetplane.LeaseManager.{attempt}
use fleetplane.Discovery.{Observation, Sight, ext_id, live_by_ext, live_by_id, has_open_op, refresh}
use fleetplane.Discovery.Unmatched.{
  mint, reclaim_ghost, after_mint, handle_ghost, adopt, is_ghost, by_evidence, is_being_created,
  resolve_owned, see, see_all,
}
use fleetplane.Discovery.Sweep.{is_seen, orphan_step, is_gone, confirm, confirm_all}

-- What each transaction over the listing keeps.
pub record SightRules (P : Db → Type 0) (w : Sight) : Type 0 where
  pub refreshes : (r : Resource) (obs : Observation) (d : Db) → P d → OnOk P (refresh w r obs d)
  pub mints :
      (obs : Observation) (owner : Ownership) (event : EventType) (d : Db)
      → P d
      → OnOk P (mint w obs owner event d)
  pub drains :
      (id : ℕ) (d : Db) → P d → OnOk P (Resources.cas_phase id Phase.ready Phase.draining w.now d)
  pub deletes : (id : ℕ) (d : Db) → P d → OnOk P (journal_delete (w.op_ids id) id w.now d)

-- A transaction whose error is ignored.
pub attempt-keeps : (P : Db → Type 0) (d : Db) (m : Outcome Db) → P d → OnOk P m → P (attempt d m)
attempt-keeps P d (ok x) h k = k
attempt-keeps P d (err e) h k = h

module _ (P : Db → Type 0) (w : Sight) (rules : SightRules P w) where
  ghost-rule : (id : ℕ) (d : Db) → P d → P (reclaim_ghost w id d)
  unfolding reclaim_ghost
  ghost-rule id d h =
      by_cas (Resources.cas_phase id Phase.ready Phase.draining w.now d) (rules.drains id d h)
    where
      by_cas :
          (m : Outcome Db)
          → OnOk P m
          → P (elim m [ err x ↦ d | ok d1 ↦ attempt d1 (journal_delete (w.op_ids id) id w.now d1) ])
      by_cas (err x) k = h
      by_cas (ok d1) k =
          attempt-keeps P d1 (journal_delete (w.op_ids id) id w.now d1) k (rules.deletes id d1 k)

  minted-rule : (id : ℕ) (d : Db) (m : Outcome Db) → P d → OnOk P m → P (after_mint w id d m)
  minted-rule id d (err x) h k = h
  minted-rule id d (ok d1) h k = if-intro P w.ghost_delete (ghost-rule id d1 k) k

  adopt-rule :
      (obs : Observation) (owner : Ownership) (event : EventType) (d : Db)
      → P d
      → P (adopt w obs owner event d)
  unfolding adopt
  adopt-rule obs owner event d h =
      attempt-keeps P d (mint w obs owner event d) h (rules.mints obs owner event d h)

  evidence-rule :
      (obs : Observation) (all : List Resource) (d : Db) (m : Outcome Operation)
      → P d
      → P (by_evidence w obs all d m)
  unfolding handle_ghost
  evidence-rule obs all d (err x) h =
      adopt-rule obs Ownership.managed EventType.resource_readopted d h
  evidence-rule obs all d (ok op) h = if-intro P (not (terminal op.state)) h (
      if-intro P (is_ghost obs all op)
        (minted-rule (w.mint_ids (ext_id obs)) d
          (mint w obs Ownership.managed EventType.resource_ghost d) h
          (rules.mints obs Ownership.managed EventType.resource_ghost d h))
        (adopt-rule obs Ownership.managed EventType.resource_readopted d h))

  owned-rule :
      (obs : Observation) (all : List Resource) (ops : List Operation) (d : Db)
      → P d
      → P (resolve_owned w obs all ops d)
  unfolding resolve_owned
  owned-rule obs all ops d h =
      if-intro P
        (not (obs.fleetplane_id == 0) && is_being_created ops (live_by_id obs.fleetplane_id all)) h
        (if-intro P (obs.create_op_id == 0)
          (adopt-rule obs Ownership.managed EventType.resource_readopted d h)
          (evidence-rule obs all d (Operations.get obs.create_op_id d) h))

  see-rule :
      (obs : Observation) (all : List Resource) (ops : List Operation) (d : Db)
      (o : Option Resource)
      → P d
      → P (see w obs all ops d o)
  see-rule obs all ops d (some r) h =
      attempt-keeps P d (refresh w r obs d) h (rules.refreshes r obs d h)
  see-rule obs all ops d none h = if-intro P obs.owned (owned-rule obs all ops d h) (
      if-intro P w.adopt_unlabeled
        (adopt-rule obs Ownership.observed EventType.resource_observed d h) h)

  pub see_all-rule :
      (all : List Resource) (ops : List Operation) (os : List Observation) (d : Db)
      → P d
      → P (see_all w all ops os d)
  unfolding see_all
  see_all-rule all ops [] d h = h
  see_all-rule all ops (obs ∷ os) d h =
      see_all-rule all ops os (see w obs all ops d (live_by_ext (ext_id obs) all))
        (see-rule obs all ops d (live_by_ext (ext_id obs) all) h)

-- A row that the confirmation acts on: alive in the snapshot, absent from the listing and from the
-- provider, and without an open operation.
abbrev pub Missing : Sight → List Observation → List Operation → Resource → Type 0
Missing w os ops r =
    (ext : ℕ) × (r.external_id ≡ some ext)
    × (r.deleted_at ≡ none)
    × (is_seen ext os ≡ false)
    × (has_open_op r.id ops ≡ false)
    × (is_gone (w.get (ref_for r ext)) ≡ true)

none_of : {A : Type 0} (o : Option A) → not (is_none o) ≡ false → o ≡ none
none_of none h = refl
none_of (some a) h = cc

-- The confirmation keeps what its steps on missing rows keep; `K` holds of the rows of the snapshot.
module _ (P : Db → Type 0) (K : Resource → Type 0) (w : Sight) (os : List Observation)
    (ops : List Operation)
    (step : (r : Resource) (d : Db) → K r → Missing w os ops r → P d → P (orphan_step w r d)) where
  confirm-rule :
      (r : Resource) (ext : Option ℕ) (d : Db)
      → K r
      → r.external_id ≡ ext
      → P d
      → P (confirm w os ops r ext d)
  confirm-rule r none d s e h = h
  confirm-rule r (some ext) d s e h =
      elim (Bool-cases (not (is_none r.deleted_at) || is_seen ext os || has_open_op r.id ops)) [
        | inl y ↦ rw y h
        | inr n ↦ rw n (elim (Bool-cases (is_gone (w.get (ref_for r ext)))) [
          | inl g ↦ rw g (
              step r d s
                (
                  ext,
                  e,
                  none_of r.deleted_at (ground (arith, n)),
                  ground (arith, n),
                  ground (arith, n),
                  g,
                )
                h)
          | inr m ↦ rw m h
        ])
      ]

  pub confirm_all-rule :
      (rs : List Resource) (d : Db) → All K rs → P d → P (confirm_all w os ops rs d)
  unfolding confirm_all
  confirm_all-rule [] d s h = h
  confirm_all-rule (r ∷ rs) d s h =
      confirm_all-rule rs (confirm w os ops r r.external_id d) s.1
        (confirm-rule r r.external_id d s.0 refl h)
