-- ===== src/Billing/Paid.antt =====
-- The laws of `Paid` (internal/billing/billing.go).
use fleetplane.Prelude.{
  ℕ, zero, suc, ◌+◌, ◌-◌, ◌*◌, ◌/◌, ◌%◌, ◌≤◌, ◌<◌, max, ◌≡◌, refl, sym, arith, inl, inr, ◌==◌,
  Bool-cases, ltb, ltb→lt,
}
use native.Mathlib.Nat.{div-add-mod', mod-lt, lt_of_mul-lt-mul_left, mul-le-mul_right}
use fleetplane.Billing.{BillingPolicy, started, increments, paid}

-- Of two numbers in mixed radix the greater has no smaller leading digit.
le_of_digits : (inc a b x y : ℕ) → a * inc + x ≡ b * inc + y → y < inc → a ≤ b
le_of_digits inc a b x y e h =
    let strict : a < b + 1 = lt_of_mul-lt-mul_left inc (omega arith) in omega arith

-- A lifetime that ends inside increment j + 1, or at its end, has started j + 1 increments.
started_inside :
    (l q r inc j s : ℕ)
    → r < inc
    → l ≡ q * inc + r
    → 0 < s
    → s ≤ inc
    → l ≡ j * inc + s
    → started l q r ≡ j + 1
unfolding started
started_inside l q r inc j s hr el hs hi ej = elim (Bool-cases (r == 0)) [
  | inl whole ↦ ground (
    arith,
    le_of_digits inc q (j + 1) (inc - s) 0 (ground arith) (omega arith),
    le_of_digits inc (j + 1) q 0 (inc - s) (ground arith) (omega arith),
  )
  | inr part ↦ ground (
    arith,
    le_of_digits inc q j (r - 1) (s - 1) (ground arith) (omega arith),
    le_of_digits inc j q (s - 1) (r - 1) (ground arith) (omega arith),
  )
]

increments_inside : (inc j s : ℕ) → 0 < s → s ≤ inc → increments (j * inc + s) inc ≡ j + 1
unfolding increments
increments_inside inc j s hs hi =
    started_inside (j * inc + s) _ _ inc j s (mod-lt (j * inc + s) (omega arith))
      (sym (div-add-mod' (j * inc + s) inc)) hs hi refl

-- Inside increment j + 1, its end included, the bill is that of j + 1 increments, or the minimum.
pub paid_inside :
    (p : BillingPolicy) (j s : ℕ)
    → 0 < s
    → s ≤ p.billing_increment
    → paid (j * p.billing_increment + s) p ≡ max p.minimum_duration ((j + 1) * p.billing_increment)
unfolding paid
paid_inside p j s hs hi = ground (arith, increments_inside p.billing_increment j s hs hi)

pub paid_at :
    (p : BillingPolicy) (l j s : ℕ)
    → l ≡ j * p.billing_increment + s
    → 0 < s
    → s ≤ p.billing_increment
    → paid l p ≡ max p.minimum_duration ((j + 1) * p.billing_increment)
paid_at p l j s e hs hi = rw e (paid_inside p j s hs hi)

-- Every lifetime but 0 lies in some increment.
abbrev pub index : ℕ → ℕ → ℕ
index l inc = (l - 1) / inc

pub index_lem :
    (l inc : ℕ) → 0 < l → 0 < inc → (s : ℕ) × (0 < s) × (s ≤ inc) × (l ≡ index l inc * inc + s)
index_lem l inc hl hi =
    let split = div-add-mod' (l - 1) inc in
    let small = mod-lt (l - 1) hi in ((l - 1) % inc + 1, omega arith, omega arith, omega arith)

started_zero : (inc : ℕ) → 0 < inc → increments 0 inc ≡ 1
unfolding increments started
started_zero inc h = ground (arith, div-add-mod' 0 inc, mod-lt 0 h)

paid_zero :
    (p : BillingPolicy)
    → 0 < p.billing_increment
    → paid 0 p ≡ max p.minimum_duration p.billing_increment
unfolding paid
paid_zero p h = ground (arith, div-add-mod' 0 p.billing_increment, opened)
  where
    opened : increments 0 p.billing_increment ≡ 1
    opened = started_zero p.billing_increment h

-- With a billing increment the bill is the minimum duration or a whole number of increments,
-- whichever is greater, and the number is the least positive one that covers the lifetime.
pub paid_least :
    (l : ℕ) (p : BillingPolicy)
    → 0 < p.billing_increment
    → (n : ℕ) × (paid l p ≡ max p.minimum_duration (n * p.billing_increment))
      × (0 < n)
      × (l ≤ n * p.billing_increment)
      × ((m : ℕ) → 0 < m → l ≤ m * p.billing_increment → n ≤ m)
paid_least zero p h =
    (1, ground (arith, paid_zero p h), omega arith, omega arith, λ m hm _. omega arith)
paid_least (suc l) p h =
    let (s, hs, hi, e) = index_lem (suc l) p.billing_increment (omega arith) h in
    let j = index (suc l) p.billing_increment in
    (
      j + 1,
      paid_at p (suc l) j s e hs hi,
      omega arith,
      omega arith,
      λ m _ cover. least j s hs hi e m cover,
    )
  where
    least :
        (j s : ℕ)
        → 0 < s
        → s ≤ p.billing_increment
        → suc l ≡ j * p.billing_increment + s
        → (m : ℕ) → suc l ≤ m * p.billing_increment
        → j + 1 ≤ m
    least j s hs hi e m cover =
        let strict : j < m = lt_of_mul-lt-mul_left p.billing_increment (omega arith) in omega arith

-- With no billing increment the bill is the lifetime, or the minimum duration.
pub paid_fine :
    (l : ℕ) (p : BillingPolicy) → p.billing_increment ≡ 0 → paid l p ≡ max p.minimum_duration l
unfolding paid
paid_fine l p h = ground arith

-- A longer lifetime never costs less.
pub paid_mono : (l k : ℕ) (p : BillingPolicy) → l ≤ k → paid l p ≤ paid k p
paid_mono l k p h = elim (Bool-cases (ltb 0 p.billing_increment)) [
  | inl coarse ↦
      let (n, en, hn, _, least) = paid_least l p (ltb→lt _ _ coarse) in
      let (m, em, hm, cover, _) = paid_least k p (ltb→lt _ _ coarse) in
      let below = mul-le-mul_right p.billing_increment (least m hm (omega arith)) in omega arith
  | inr fine ↦ ground (arith, paid_fine l p (ground arith), paid_fine k p (ground arith))
]

-- The bill covers the lifetime and the minimum, at every policy.
pub paid_covers : (l : ℕ) (p : BillingPolicy) → (l ≤ paid l p) × (p.minimum_duration ≤ paid l p)
paid_covers l p = elim (Bool-cases (ltb 0 p.billing_increment)) [
  | inl coarse ↦ let (n, en, hn, cover, _) = paid_least l p (ltb→lt _ _ coarse) in omega arith
  | inr fine ↦ ground (arith, paid_fine l p (ground arith))
]
