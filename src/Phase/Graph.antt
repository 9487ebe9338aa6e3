-- ===== src/Phase/Graph.antt =====
-- The legal-transition table read as a graph (internal/phase/phase.go, `transitions`).
use fleetplane.Prelude.{◌≡◌, refl, ◌⊎◌, inl, true, arith}
use fleetplane.Phase.{
  Phase, unknown, provisioning, ready, allocated, draining, deleting, failed, orphaned, parking,
  parked, starting, valid, can_transition,
}

-- A walk through the table.
pub data Walk : Phase → Phase → Type 0 where
  stay : {p : Phase} → Walk p p
  go : {p q r : Phase} → can_transition p q ≡ true → Walk q r → Walk p r

-- Every phase is known to `Valid`.
pub valid_all : (p : Phase) → valid p ≡ true
unfolding valid
valid_all p = ground arith

-- From every phase the table leads on to `deleting`, so that no phase traps a resource.
pub Walk-deleting : (p : Phase) → Walk p deleting
unfolding can_transition
Walk-deleting unknown = go {q = deleting} refl stay
Walk-deleting provisioning = go {q = failed} refl (go {q = deleting} refl stay)
Walk-deleting ready = go {q = deleting} refl stay
Walk-deleting allocated = go {q = draining} refl (go {q = deleting} refl stay)
Walk-deleting draining = go {q = deleting} refl stay
Walk-deleting deleting = stay
Walk-deleting failed = go {q = deleting} refl stay
Walk-deleting orphaned = go {q = parked} refl (go {q = deleting} refl stay)
Walk-deleting parking = go {q = parked} refl (go {q = deleting} refl stay)
Walk-deleting parked = go {q = deleting} refl stay
Walk-deleting starting = go {q = failed} refl (go {q = deleting} refl stay)

-- A walk that has reached `deleting` or `failed` stays in these two.
Walk-doomed :
    {p q : Phase} → Walk p q → (p ≡ deleting) ⊎ (p ≡ failed) → (q ≡ deleting) ⊎ (q ≡ failed)
unfolding can_transition
Walk-doomed stay h = h
Walk-doomed (go {p} {q} e w) h = Walk-doomed w (ground arith)

-- Nothing in the table leads back from `deleting`: whatever follows is a retry of the deletion
-- (`failed`, then `deleting` again), never a usable phase.
pub deleting_final : {q : Phase} → Walk deleting q → (q ≡ deleting) ⊎ (q ≡ failed)
deleting_final w = Walk-doomed w (inl refl)

-- `allocated` is entered from `ready` only: a lease is never granted on a machine that is still
-- being provisioned, started, parked or deleted.
pub allocated_from_ready : (p : Phase) → can_transition p allocated ≡ true → p ≡ ready
unfolding can_transition
allocated_from_ready p h = ground arith
