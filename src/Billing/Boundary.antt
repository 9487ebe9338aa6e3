-- ===== src/Billing/Boundary.antt =====
-- `NextBoundary` (internal/billing/billing.go): the loop ends, and what it finds is the next
-- instant at which the bill rises.
use fleetplane.Prelude.{
  ℕ, zero, suc, ◌+◌, ◌-◌, ◌*◌, ◌/◌, ◌≤◌, ◌<◌, max, ◌≡◌, refl, sym, ap, ◌∙◌, arith, inl, inr, ◌⊎◌,
  Bool-cases, ltb, Bool, true, false, Option, some,
}
use native.Mathlib.Nat.{div-add-mod', mod-lt, lt_of_mul-lt-mul_left, mul-le-mul_right}
use fleetplane.Billing.{
  BillingPolicy, ms, paid, boundary_from, boundary_fuel, at_instant, next_boundary,
}
use fleetplane.Billing.Paid.{paid_at, paid_covers, paid_mono, index, index_lem}

-- At the end of increment k the bill is that of k increments, or the minimum.
paid_end :
    (p : BillingPolicy) (k : ℕ)
    → 0 < k
    → 0 < p.billing_increment
    → paid (k * p.billing_increment) p ≡ max p.minimum_duration (k * p.billing_increment)
paid_end p zero hk hi = absurd (omega arith)
paid_end p (suc k) hk hi = omega (
  arith,
  paid_at p (suc k * p.billing_increment) k p.billing_increment (omega arith) hi (omega arith),
)

-- The loop's test at the end of increment k: the bill rises there exactly when the next increment
-- passes the minimum.
module _ (p : BillingPolicy) (k : ℕ) (hk : 0 < k) (h : ms ≤ p.billing_increment) where
  open p use {billing_increment as inc, minimum_duration as least}

  paid_after : paid (k * inc + ms) p ≡ max least ((k + 1) * inc)
  paid_after = paid_at p _ k ms refl (omega arith) h

  paid_before : paid (k * inc - ms) p ≤ max least (k * inc)
  paid_before =
      omega
        (arith, paid_mono (k * inc - ms) (k * inc) p (omega arith), paid_end p k hk (omega arith))

  rises : ltb (paid (k * inc - ms) p) (paid (k * inc + ms) p) ≡ true → least < (k + 1) * inc
  rises e = ground (arith, paid_after, (paid_covers (k * inc - ms) p).1)

  flat : ltb (paid (k * inc - ms) p) (paid (k * inc + ms) p) ≡ false → (k + 1) * inc ≤ least
  flat e = ground (arith, paid_after, paid_before)

-- What the loop finds when it starts at increment k.
abbrev Found : BillingPolicy → ℕ → Option ℕ → Type 0
Found p k r =
    (j : ℕ) × (r ≡ some (j * p.billing_increment))
    × (k ≤ j)
    × (p.minimum_duration < (j + 1) * p.billing_increment)
    × ((j ≡ k) ⊎ (j * p.billing_increment ≤ p.minimum_duration))

abbrev test : BillingPolicy → ℕ → Bool
test p k = ltb (paid (k * p.billing_increment - ms) p) (paid (k * p.billing_increment + ms) p)

stop_here :
    (fuel : ℕ) (p : BillingPolicy) (k : ℕ)
    → test p k ≡ true
    → boundary_from (suc fuel) p k ≡ some (k * p.billing_increment)
unfolding boundary_from
stop_here fuel p k up = rw up

-- The second exit of the loop, past the minimum and one increment, is never taken.
go_on :
    (fuel : ℕ) (p : BillingPolicy) (k : ℕ)
    → test p k ≡ false
    → (k + 1) * p.billing_increment ≤ p.minimum_duration
    → boundary_from (suc fuel) p k ≡ boundary_from fuel p (k + 1)
unfolding boundary_from
go_on fuel p k level l = rw level (ground arith)

boundary_from-Found :
    (fuel : ℕ) (p : BillingPolicy) (k : ℕ)
    → 0 < k
    → ms ≤ p.billing_increment
    → p.minimum_duration < (k + fuel + 1) * p.billing_increment
    → Found p k (boundary_from (suc fuel) p k)
boundary_from-Found zero p k hk h enough = elim (Bool-cases (test p k)) [
  | inl up ↦ (k, stop_here zero p k up, omega arith, rises p k hk h up, inl refl)
  | inr level ↦ absurd (omega (arith, flat p k hk h level))
]
boundary_from-Found (suc fuel) p k hk h enough = elim (Bool-cases (test p k)) [
  | inl up ↦ (k, stop_here (suc fuel) p k up, omega arith, rises p k hk h up, inl refl)
  | inr level ↦
      let l = flat p k hk h level in
      let (j, found, after, jump, waited) =
        boundary_from-Found fuel p (k + 1) (omega arith) h (omega arith) in
      (
        j,
        go_on (suc fuel) p k level l ∙ found,
        omega arith,
        jump,
        elim waited [ inl next ↦ inr (rw next l) | inr under ↦ inr under ],
      )
]

-- An instant in milliseconds, as a duration since the creation.
abbrev pub elapsed : ℕ → ℕ → ℕ
elapsed created now = (now - created) * ms

enough_fuel :
    (p : BillingPolicy) (k : ℕ)
    → 0 < k
    → 0 < p.billing_increment
    → p.minimum_duration
      < (k + (p.minimum_duration / p.billing_increment + 2) + 1) * p.billing_increment
enough_fuel p k hk hi =
    omega (arith, div-add-mod' p.minimum_duration p.billing_increment, mod-lt p.minimum_duration hi)

-- Between now and the boundary the bill does not change.
same_bill :
    (p : BillingPolicy) (e q j l : ℕ)
    → 0 < p.billing_increment
    → q * p.billing_increment ≤ e
    → q + 1 ≤ j
    → (j ≡ q + 1) ⊎ (j * p.billing_increment ≤ p.minimum_duration)
    → e < l
    → l ≤ j * p.billing_increment
    → paid l p ≡ paid (j * p.billing_increment) p
same_bill p e q j l hi he hkj waited hl hlt =
    let (s, hs, si, el) = index_lem l p.billing_increment (omega arith) hi in
    let i = index l p.billing_increment in
    let below : i < j = lt_of_mul-lt-mul_left p.billing_increment (omega arith) in
    let above : q < i + 1 = lt_of_mul-lt-mul_left p.billing_increment (omega arith) in
    let cover = mul-le-mul_right p.billing_increment below in
    let here = paid_at p l i s el hs si in
    let there = paid_end p j (omega arith) hi in
    elim waited [
      | inl same ↦
          (let e' : i + 1 ≡ j = omega arith in
            here ∙ ap (λ x. max p.minimum_duration (x * p.billing_increment)) e' ∙ sym there)
      | inr under ↦ omega arith
    ]

-- The bill rises at the end of increment j once the next increment passes the minimum.
bill_rises :
    (p : BillingPolicy) (j : ℕ)
    → 0 < j
    → 0 < p.billing_increment
    → p.minimum_duration < (j + 1) * p.billing_increment
    → paid (j * p.billing_increment) p < paid (j * p.billing_increment + 1) p
bill_rises p j hj hi jump =
    omega
      (arith, paid_end p j hj hi, paid_at p (j * p.billing_increment + 1) j 1 refl (omega arith) hi)

next_boundary-boundary_from :
    (created now : ℕ) (p : BillingPolicy) (j : ℕ)
    → 0 < p.billing_increment
    → boundary_from (boundary_fuel p) p (elapsed created now / p.billing_increment + 1)
      ≡ some (j * p.billing_increment)
    → next_boundary created p now ≡ some (created + j * p.billing_increment / ms)
unfolding next_boundary
next_boundary-boundary_from created now p j hi e =
    let coarse : ltb 0 p.billing_increment ≡ true = ground arith in
    rw coarse (ap (at_instant created) e)

-- With a billing increment of at least a millisecond NextBoundary finds a boundary: a duration t
-- after the creation, later than now, at which the bill rises, and up to which it does not change
-- from now on.
pub next_boundary_lem :
    (created now : ℕ) (p : BillingPolicy)
    → ms ≤ p.billing_increment
    → (t : ℕ) × (next_boundary created p now ≡ some (created + t / ms))
      × (elapsed created now < t)
      × (paid t p < paid (t + 1) p)
      × ((l : ℕ) → elapsed created now < l → l ≤ t → paid l p ≡ paid t p)
next_boundary_lem created now p h =
    let e = elapsed created now in
    let k = e / p.billing_increment + 1 in
    let hi : 0 < p.billing_increment = omega arith in
    let hk : 0 < k = omega arith in
    let start = div-add-mod' e p.billing_increment in
    let rest = mod-lt e hi in
    let (j, found, hkj, jump, waited) =
      boundary_from-Found (p.minimum_duration / p.billing_increment + 2) p k hk h
        (enough_fuel p k hk hi) in
    let cover = mul-le-mul_right p.billing_increment hkj in
    (
      j * p.billing_increment,
      next_boundary-boundary_from created now p j hi found,
      omega arith,
      bill_rises p j (omega arith) hi jump,
      λ l hl hlt. same_bill p e (e / p.billing_increment) j l hi (omega arith) hkj waited hl hlt,
    )
