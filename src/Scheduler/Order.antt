-- ===== src/Scheduler/Order.antt =====
-- The order of the candidates (internal/scheduler/scheduler.go, rankedCandidates).
use fleetplane.Prelude.{
  ◌≡◌, inl, inr, subst, Bool, true, false, ◌&&◌, List, [], ◌∷◌, ◌==◌, ltb, All, arith, Bool-cases,
  if-intro, ◌<◌, ◌⊎◌, ltb→lt,
}
use fleetplane.Prelude.Int64.{◌≤ℤ◌}
use fleetplane.Capacity.{Vector}
use fleetplane.Store.{Db, Acquisition}
use fleetplane.Store.Resources.Listing.{list}
use fleetplane.Scheduler.Ranking.{
  Env, Candidate, precedes, insert_ranked, rank, candidates, hosts, ranked_candidates,
}

-- No later candidate precedes an earlier one.
abbrev pub Ranked : List Candidate → Type 0
Ranked [] = Unit
Ranked (c ∷ cs) = All (λ d. precedes d c ≡ false) cs × Ranked cs

precedes-asym : (c d : Candidate) → precedes c d ≡ true → precedes d c ≡ false
unfolding precedes
precedes-asym c d h = ground (arith, h)

precedes_trans :
    (c d e : Candidate) → precedes d c ≡ false → precedes e d ≡ false → precedes e c ≡ false
unfolding precedes
precedes_trans c d e h k = ground (arith, h, k)

precedes-total : (c d : Candidate) → precedes c d ≡ false → precedes d c ≡ false → c.id ≡ d.id
unfolding precedes
precedes-total c d h k = ground (arith, h, k)

All-insert :
    (P : Candidate → Type 0) (c : Candidate) (cs : List Candidate)
    → P c
    → All P cs
    → All P (insert_ranked c cs)
All-insert P c [] h k = (h, tt)
All-insert P c (d ∷ ds) h k = if-intro (All P) (precedes d c) (k.0, All-insert P c ds h k.1) (h, k)

-- What does not precede the earlier candidate does not precede a candidate that it is ahead of.
weaken :
    (c d : Candidate) (cs : List Candidate)
    → precedes d c ≡ false
    → All (λ x. precedes x d ≡ false) cs
    → All (λ x. precedes x c ≡ false) cs
weaken c d [] h k = tt
weaken c d (x ∷ xs) h k = (precedes_trans c d x h k.0, weaken c d xs h k.1)

insert-Ranked : (c : Candidate) (cs : List Candidate) → Ranked cs → Ranked (insert_ranked c cs)
insert-Ranked c [] h = (tt, tt)
insert-Ranked c (d ∷ ds) h = elim (Bool-cases (precedes d c)) [
  | inl y ↦ rw y (
    All-insert (λ x. precedes x d ≡ false) c ds (precedes-asym d c y) h.0,
    insert-Ranked c ds h.1,
  )
  | inr n ↦ rw n ((n, weaken c d ds n h.0), h)
]

pub rank-Ranked : (cs : List Candidate) → Ranked (rank cs)
unfolding rank
rank-Ranked [] = tt
rank-Ranked (c ∷ cs) = insert-Ranked c (rank cs) (rank-Ranked cs)

-- The first of two candidates is in a lower billing tier, or in the same tier with less slack in the
-- paid window, or as good in both and with no more capacity left free.
abbrev pub NoWorse : Candidate → Candidate → Type 0
NoWorse c d =
    (c.tier < d.tier)
    ⊎ ((c.tier ≡ d.tier)
        × (((c.tier ≡ 0) × (c.slack < d.slack))
            ⊎ (((c.tier ≡ 0 → c.slack ≡ d.slack)) × (c.score ≤ℤ d.score))))

no_worse : (c d : Candidate) → precedes d c ≡ false → NoWorse c d
unfolding precedes
no_worse c d h = elim (Bool-cases (ltb c.tier d.tier)) [
  | inl y ↦ inl (ltb→lt c.tier d.tier y)
  | inr n ↦ elim (Bool-cases (c.tier == 0 && ltb c.slack d.slack)) [
    | inl z ↦ inr (ground arith, inl (ground arith, ground arith))
    | inr m ↦ inr (ground arith, inr (λ t. ground (arith, t), ground arith))
  ]
]

All-NoWorse :
    (c : Candidate) (cs : List Candidate) → All (λ d. precedes d c ≡ false) cs → All (NoWorse c) cs
All-NoWorse c [] h = tt
All-NoWorse c (d ∷ ds) h = (no_worse c d h.0, All-NoWorse c ds h.1)

-- The candidate that is tried first is the best of all: it is in the lowest billing tier, within tier
-- 0 it leaves the least of the paid window unused, and at equal placement it leaves the least
-- capacity free.
pub ranked_candidates-best :
    (e : Env) (acq : Acquisition) (want : Vector) (exclusive : Bool) (db : Db) (c : Candidate)
    (cs : List Candidate)
    → ranked_candidates e acq want exclusive db ≡ c ∷ cs
    → All (NoWorse c) cs
unfolding ranked_candidates
ranked_candidates-best e acq want exclusive db c cs h =
    let ranked : Ranked (c ∷ cs) =
      subst Ranked h (rank-Ranked (candidates e acq want exclusive db (list (hosts acq) db))) in
    All-NoWorse c cs ranked.0
