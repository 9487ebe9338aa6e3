-- ===== src/Billing/Termination.antt =====
-- The termination window (internal/billing/billing.go): a delete that the window
-- allows is dispatched before the boundary, and a periodic sweep cannot miss the window.
use fleetplane.Prelude.{ℕ, ◌+◌, ◌*◌, ◌/◌, ◌≤◌, ◌<◌, ◌≡◌, ◌≢◌, arith}
use fleetplane.Billing.{
  BillingPolicy, keep, terminate, crossed, ms, effective_buffer, window_before, decide,
}

-- The decision at an instant, for a buffer of at least twice the sweep interval and five seconds:
-- a sweep that still keeps the resource is followed, at most one sweep interval later, by one that
-- keeps or deletes it, as long as the boundary is the same. The window is never jumped over.
pub window_hit :
    (b : ℕ) (p : BillingPolicy) (sweep now later : ℕ)
    → now ≤ later
    → later ≤ now + sweep / ms
    → let w = window_before b (effective_buffer p sweep) 0 in
      decide w now ≡ keep → decide w later ≢ crossed
unfolding window_before effective_buffer decide
window_hit b p sweep now later h l k = ground arith

-- A delete is dispatched only inside the window, at least the cutoff before the boundary; the
-- window ends before the boundary when half the buffer is a millisecond or more.
pub terminate-before :
    (b buffer now : ℕ)
    → buffer / ms ≤ b
    → 2 * ms ≤ buffer
    → decide (window_before b buffer 0) now ≡ terminate
    → (b ≤ now + buffer / ms) × (now + buffer / 2 / ms ≤ b) × (now < b)
unfolding window_before decide
terminate-before b buffer now hb h e = ground arith
