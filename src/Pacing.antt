-- ===== src/Pacing.antt =====
-- providers/pacing/pacer.go: how the calls to a provider slow down when its rate limit runs low.
-- Instants are unix nanoseconds, 0 the zero time. Of the limiter and the semaphore, which are other
-- packages', the model keeps the limit that is set, the slots that are held, and whether each lets a
-- call pass. A count of remaining requests is an integer within the range of its header.
pub mod Recovery
use fleetplane.Prelude.{
  ℕ, suc, ◌+◌, ◌-◌, ◌*◌, Bool, true, false, not, ◌||◌, List, [], ◌∷◌, ltb, ◌==◌, if◌then◌else◌,
}
use fleetplane.Prelude.Int64.{ℤ, pos, negsuc, ltb_ℤ}
use fleetplane.Billing.{second}

-- The two rates that SetLimit is called with: one request a second, and the configured one.
pub data Rate : Type 0 where
  refill_rate base_rate : Rate

pub record Pacer : Type 0 where
  pub limit : Rate
  pub parked : ℕ
  pub held : ℕ

abbrev pub low_water : ℤ
low_water = pos 20

abbrev pub high_water : ℤ
high_water = pos 100

abbrev pub park_cap : ℕ
park_cap = 60 * second

-- New.
abbrev pub new_pacer : Pacer
new_pacer = record { limit = base_rate; parked = 0; held = 0 }

pub record Pace : Type 0 where
  pub park : ℕ
  pub limit : Rate

abbrev pub is_zero : ℤ → Bool
is_zero (pos n) = n == 0
is_zero (negsuc n) = false

-- The end of a park: the reset, within the cap.
abbrev pub park_until : ℕ → ℕ → ℕ
park_until reset now = if ltb (now + park_cap) reset || reset == 0 then now + park_cap else reset

-- DecidePace.
unfoldable pub decide_pace : ℤ → ℕ → ℕ → Pace
decide_pace remaining reset now =
    if is_zero remaining
    then record { park = park_until reset now; limit = refill_rate }
    else if ltb_ℤ remaining low_water
    then record { park = 0; limit = refill_rate }
    else if not (ltb_ℤ remaining high_water)
    then record { park = 0; limit = base_rate }
    else record { park = 0; limit = refill_rate }

-- Observe.
unfoldable pub observe : ℤ → ℕ → ℕ → Pacer → Pacer
unfolding decide_pace
observe remaining reset now p =
    let d = decide_pace remaining reset now in
    record p { parked = if d.park == 0 then p.parked else d.park; limit = d.limit }

-- `LowWater - remaining` seconds, at least one and at most the cap.
unfoldable pub park_time : ℤ → ℕ
park_time (pos n) = if ltb (20 - n) 1 then second else (20 - n) * second
park_time (negsuc n) =
    if ltb park_cap ((20 + suc n) * second) then park_cap else (20 + suc n) * second

-- On429.
unfoldable pub on_429 : ℤ → ℕ → Pacer → Pacer
unfolding park_time
on_429 remaining now p = record p { parked = now + park_time remaining }

-- What a call is told.
pub data Gate : Type 0 where
  granted cancelled : Gate
  rate_limited : ℕ → Gate

-- Acquire, at an instant of the wall clock; `slot` and `paced` tell whether the semaphore and the
-- limiter let the call pass before its context ends.
unfoldable pub acquire : ℕ → Bool → Bool → Pacer → Pacer × Gate
acquire wall slot paced p =
    if ltb wall p.parked
    then (p, rate_limited (p.parked - wall))
    else if not slot
    then (p, cancelled)
    else if not paced
    then (record p { held = p.held + 1 - 1 }, cancelled)
    else (record p { held = p.held + 1 }, granted)

-- A response, at its instant: one with the headers of the limit, or a 429.
pub data Response : Type 0 where
  headers : ℕ → ℤ → ℕ → Response
  too_many : ℕ → ℤ → Response

abbrev pub at_instant : Response → ℕ
at_instant (headers now remaining reset) = now
at_instant (too_many now remaining) = now

abbrev pub respond : Response → Pacer → Pacer
respond (headers now remaining reset) p = observe remaining reset now p
respond (too_many now remaining) p = on_429 remaining now p

abbrev pub respond_all : List Response → Pacer → Pacer
respond_all [] p = p
respond_all (r ∷ rs) p = respond_all rs (respond r p)
