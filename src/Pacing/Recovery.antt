-- ===== src/Pacing/Recovery.antt =====
-- A pacer recovers (providers/pacing/pacer.go).
use fleetplane.Prelude.{ℕ, ◌+◌, ◌≡◌, ◌≤◌, Bool, true, List, [], ◌∷◌, All, arith}
use fleetplane.Prelude.Int64.{ℤ, pos, negsuc}
use fleetplane.Pacing.{
  Pacer, Response, headers, too_many, at_instant, respond, respond_all, observe, on_429, park_time,
  decide_pace, acquire, granted, rate_limited,
}

park_time-le : (remaining : ℤ) → park_time remaining ≤ 60000000000
unfolding park_time
park_time-le (pos n) = ground arith
park_time-le (negsuc n) = ground arith

-- A response parks the pacer for at most a minute.
respond-le :
    (r : Response) (p : Pacer) (t : ℕ)
    → at_instant r ≤ t
    → p.parked ≤ t + 60000000000
    → (respond r p).parked ≤ t + 60000000000
unfolding observe decide_pace on_429
respond-le (headers now remaining reset) p t le h = ground (arith, le, h)
respond-le (too_many now remaining) p t le h = ground (arith, le, park_time-le remaining)

respond_all-le :
    (rs : List Response) (p : Pacer) (t : ℕ)
    → All (λ r. at_instant r ≤ t) rs
    → p.parked ≤ t + 60000000000
    → (respond_all rs p).parked ≤ t + 60000000000
respond_all-le [] p t le h = h
respond_all-le (r ∷ rs) p t le h = respond_all-le rs (respond r p) t le.1 (respond-le r p t le.0 h)

-- A pacer never stays parked: whatever the responses up to the instant `t` reported, a call that is
-- refused is told to wait until a minute after `t` at most, and from then on a call that the semaphore
-- and the limiter let pass is granted, with one slot.
pub respond_all-recovers :
    (rs : List Response) (p : Pacer) (t : ℕ)
    → All (λ r. at_instant r ≤ t) rs
    → p.parked ≤ t + 60000000000
    → ((wall d : ℕ) (slot paced : Bool)
        → (acquire wall slot paced (respond_all rs p)).1 ≡ rate_limited d
        → wall + d ≤ t + 60000000000)
      × ((wall : ℕ)
          → t + 60000000000 ≤ wall
          → acquire wall true true (respond_all rs p)
            ≡ (record (respond_all rs p) { held = (respond_all rs p).held + 1 }, granted))
unfolding acquire
respond_all-recovers rs p t le h =
    let bound = respond_all-le rs p t le h in
    (
      λ wall d slot paced told. ground (arith, bound, told),
      λ wall late. ground (arith, bound, late),
    )
