-- ===== src/Billing.antt =====
-- internal/billing/billing.go and pkg/sdk/provider/billing.go: the paid(t) function, its
-- boundaries, the termination window and the adaptive buffer. Durations are nanoseconds and
-- instants unix milliseconds, as natural numbers: a negative lifetime, elapsed time or policy
-- field is clamped or ignored by the code just as 0 is, and truncated subtraction gives that 0.
pub mod Paid
pub mod Boundary
pub mod Termination
pub mod Ranks
pub mod Percentile
use fleetplane.Prelude.{
  ℕ, zero, suc, ◌+◌, ◌-◌, ◌*◌, ◌/◌, ◌%◌, Bool, true, false, not, ◌&&◌, ◌||◌, Option, none, some,
  List, [], ◌∷◌, ltb, leb, ◌==◌, if◌then◌else◌, length, get_elem?,
}

-- time.Millisecond, time.Second.
abbrev pub ms : ℕ
ms = 1000000

abbrev pub second : ℕ
second = 1000000000

pub record BillingPolicy : Type 0 where
  pub minimum_duration : ℕ
  pub billing_increment : ℕ
  pub termination_buffer : ℕ

unfoldable pub fine_grained : BillingPolicy → Bool
fine_grained p = leb p.minimum_duration 0 && leb p.billing_increment 0

-- The count of started increments, from the quotient and the remainder of the lifetime.
unfoldable pub started : ℕ → ℕ → ℕ → ℕ
started lifetime quotient remainder =
    let n = if lifetime == 0 || not (remainder == 0) then quotient + 1 else quotient in
    if n == 0 then 1 else n

unfoldable pub increments : ℕ → ℕ → ℕ
unfolding started
increments lifetime inc = started lifetime (lifetime / inc) (lifetime % inc)

unfoldable pub paid : ℕ → BillingPolicy → ℕ
unfolding increments
paid lifetime p =
    let billed =
      if ltb 0 p.billing_increment
      then increments lifetime p.billing_increment * p.billing_increment
      else lifetime in
    if ltb billed p.minimum_duration then p.minimum_duration else billed

-- The loop `for k := …; ; k++` of NextBoundary; `none` means that the fuel ran out.
unfoldable pub boundary_from : ℕ → BillingPolicy → ℕ → Option ℕ
boundary_from zero p k = none
boundary_from (suc fuel) p k =
    let rest = boundary_from fuel p (k + 1) in
    let t = k * p.billing_increment in
    if ltb (paid (t - ms) p) (paid (t + ms) p)
    then some t
    else if ltb (p.minimum_duration + p.billing_increment) t
    then some t
    else rest

-- Enough rounds for the loop: past the minimum and one increment it stops.
abbrev pub boundary_fuel : BillingPolicy → ℕ
boundary_fuel p = suc (p.minimum_duration / p.billing_increment + 2)

abbrev pub at_instant : ℕ → Option ℕ → Option ℕ
at_instant created none = none
at_instant created (some t) = some (created + t / ms)

unfoldable pub next_boundary : ℕ → BillingPolicy → ℕ → Option ℕ
unfolding boundary_from
next_boundary created p now =
    let elapsed = (now - created) * ms in
    if ltb 0 p.billing_increment
    then at_instant created (boundary_from (boundary_fuel p) p (elapsed / p.billing_increment + 1))
    else if ltb 0 p.minimum_duration && ltb elapsed p.minimum_duration
    then some (created + p.minimum_duration / ms)
    else none

unfoldable pub effective_buffer : BillingPolicy → ℕ → ℕ
effective_buffer p sweep_interval =
    let floor = 2 * sweep_interval + 5 * second in
    if ltb floor p.termination_buffer then p.termination_buffer else floor

pub record Window : Type 0 where
  pub boundary_ms : ℕ
  pub start_ms : ℕ
  pub cutoff_ms : ℕ

-- A start or cutoff before the epoch is 0 here: `Decide` compares them with an instant only.
unfoldable pub window_before : ℕ → ℕ → ℕ → Window
window_before b buffer cutoff =
    let cutoff' = if leb cutoff 0 || ltb buffer cutoff then buffer / 2 else cutoff in
    record { boundary_ms = b; start_ms = b - buffer / ms; cutoff_ms = b - cutoff' / ms }

unfoldable pub termination_window : ℕ → BillingPolicy → ℕ → ℕ → ℕ → Option Window
unfolding window_before
termination_window created p now buffer cutoff = elim (next_boundary created p now) [
  | none ↦ none
  | some b ↦ some (window_before b buffer cutoff)
]

pub data Decision : Type 0 where
  keep terminate crossed : Decision

unfoldable pub decide : Window → ℕ → Decision
decide w now =
    if ltb now w.start_ms then keep else if leb now w.cutoff_ms then terminate else crossed

-- sort.Slice by `<`, as insertion into the sorted rest.
unfoldable pub insert_sorted : ℕ → List ℕ → List ℕ
insert_sorted x [] = x ∷ []
insert_sorted x (y ∷ ys) = let rest = insert_sorted x ys in if ltb y x then y ∷ rest else x ∷ y ∷ ys

unfoldable pub sort : List ℕ → List ℕ
unfolding insert_sorted
sort [] = []
sort (x ∷ xs) = insert_sorted x (sort xs)

abbrev pub raise_to : ℕ → ℕ → Option ℕ → ℕ
raise_to floor margin none = floor
raise_to floor margin (some p95) = if ltb floor (p95 + margin) then p95 + margin else floor

-- `s[(len(s)*95)/100]`; `none` would be an index out of range.
unfoldable pub p95 : List ℕ → Option ℕ
unfolding sort
p95 observed = get_elem? (sort observed) ((length (sort observed) * 95) / 100)

unfoldable pub adaptive_buffer : List ℕ → ℕ → ℕ → ℕ → ℕ
unfolding p95
adaptive_buffer observed floor margin cap =
    let buf = raise_to floor margin (p95 observed) in if ltb 0 cap && ltb cap buf then cap else buf
