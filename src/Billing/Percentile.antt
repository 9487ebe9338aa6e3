-- ===== src/Billing/Percentile.antt =====
-- The adaptive buffer over the 95th percentile of the observed durations
-- (internal/billing/billing.go, AdaptiveBuffer).
use fleetplane.Prelude.{
  ℕ, ◌+◌, ◌*◌, ◌≤◌, ◌<◌, ◌≡◌, ◌⊎◌, inl, inr, sym, subst, some, List, [], ◌∷◌, arith, length, leb,
  ltb, ◌&&◌, Bool-cases, if◌then◌else◌,
}
use fleetplane.Billing.{sort, p95, adaptive_buffer, raise_to}
use fleetplane.Billing.Ranks.{count, count_mono, p95-rank, p95_total}

-- A buffer that is at least the floor and, where there are samples, leaves the margin after more than
-- 95 in a hundred of them.
abbrev pub IsEnough : List ℕ → ℕ → ℕ → ℕ → Type 0
IsEnough observed floor margin n =
    (floor ≤ n)
    × (0 < length observed → length observed * 95 < count (λ x. leb (x + margin) n) observed * 100)

abbrev IsLeast : List ℕ → ℕ → ℕ → ℕ → Type 0
IsLeast observed floor margin u =
    IsEnough observed floor margin u × ((n : ℕ) → IsEnough observed floor margin n → u ≤ n)

-- The buffer before its cap.
raised-IsLeast :
    (observed : List ℕ) (floor margin : ℕ)
    → IsLeast observed floor margin (raise_to floor margin (p95 observed))
unfolding p95 sort
raised-IsLeast [] floor margin = ((omega arith, λ h. absurd (omega arith)), λ n h. h.0)
raised-IsLeast (s ∷ ss) floor margin =
    let xs : List ℕ = s ∷ ss in
    let (q, e) = p95_total s ss in
    let (more, less) = p95-rank xs q e in
    subst (λ o. IsLeast xs floor margin (raise_to floor margin o)) (sym e)
      (sampled floor margin q xs more less (omega arith))
  where
    sampled :
        (floor margin q : ℕ) (xs : List ℕ)
        → length xs * 95 < count (λ x. leb x q) xs * 100
        → count (λ x. ltb x q) xs * 100 ≤ length xs * 95
        → 0 < length xs
        → IsLeast xs floor margin (raise_to floor margin (some q))
    sampled floor margin q xs more less some_sample =
        let u = raise_to floor margin (some q) in
        let over : q + margin ≤ u = ground arith in
        let base : floor ≤ u = ground arith in
        let either : (u ≡ floor) ⊎ (u ≡ q + margin) = ground arith in
        (
          (
            base,
            λ _. omega (
              arith,
              more,
              count_mono (λ x. leb x q) (λ x. leb (x + margin) u) (λ x h. ground arith) xs,
            ),
          ),
          λ n enough. elim (Bool-cases (leb (q + margin) n)) [
            | inl y ↦ ground (arith, y, enough.0, either)
            | inr f ↦ absurd (
                omega (
                  arith,
                  less,
                  enough.1 some_sample,
                  count_mono (λ x. leb (x + margin) n) (λ x. ltb x q) (λ x h. ground (arith, f, h))
                      xs,
                ))
          ],
        )

-- The cap.
capped :
    (cap u : ℕ)
    → let b = if ltb 0 cap && ltb cap u then cap else u in
      (cap ≡ 0 → b ≡ u) × (u ≤ cap → b ≡ u) × (0 < cap → b ≤ cap) × ((b ≡ u) ⊎ (b ≡ cap))
capped cap u = (λ h. ground arith, λ h. ground arith, λ h. ground arith, ground arith)

uncapped :
    (cap u n b : ℕ) → (cap ≡ 0 → b ≡ u) → (u ≤ cap → b ≡ u) → u ≤ n → (cap ≡ 0) ⊎ (n ≤ cap) → b ≡ u
uncapped cap u n b free within l (inl z) = free z
uncapped cap u n b free within l (inr k) = within (omega arith)

or_capped : (P : ℕ → Type 0) (b u cap : ℕ) → P u → (b ≡ u) ⊎ (b ≡ cap) → P b ⊎ (b ≡ cap)
or_capped P b u cap h (inl e) = inl (subst P (sym e) h)
or_capped P b u cap h (inr e) = inr e

-- The adaptive buffer is the least that is at least the floor and leaves the margin after more than
-- 95 in a hundred of the observed durations, if there are any; a cap of 0 is none, and a positive cap
-- is never passed: where what is enough lies beyond it, the buffer is the cap.
pub adaptive_buffer-least :
    (observed : List ℕ) (floor margin cap : ℕ)
    → let buf = adaptive_buffer observed floor margin cap in
      ((n : ℕ)
        → IsEnough observed floor margin n
        → (cap ≡ 0) ⊎ (n ≤ cap)
        → IsEnough observed floor margin buf × (buf ≤ n))
      × (cap ≡ 0 → IsEnough observed floor margin buf)
      × (0 < cap → (buf ≤ cap) × (IsEnough observed floor margin buf ⊎ (buf ≡ cap)))
unfolding adaptive_buffer
adaptive_buffer-least observed floor margin cap =
    let u = raise_to floor margin (p95 observed) in
    let (enough, least) = raised-IsLeast observed floor margin in
    let (free, within, below, either) = capped cap u in
    (
      λ n h k.
          let same = uncapped cap u n _ free within (least n h) k in
          (
            subst (IsEnough observed floor margin) (sym same) enough,
            subst (λ b. b ≤ n) (sym same) (least n h),
          ),
      λ z. subst (IsEnough observed floor margin) (sym (free z)) enough,
      λ pos. (below pos, or_capped (IsEnough observed floor margin) _ u cap enough either),
    )
