-- ===== src/Reconcile/Idle.antt =====
-- internal/reconcile/reconcile.go: how long a machine has been idle, and the machines that a policy
-- lets go, longest idle first.
use fleetplane.Prelude.{
  ℕ, ◌+◌, ◌/◌, Bool, not, ◌&&◌, Option, none, some, List, [], ◌∷◌, ltb, leb, ◌==◌, if◌then◌else◌,
  select,
}
use fleetplane.Billing.{ms}
use fleetplane.Store.{Resource}
use fleetplane.Reconcile.{ReclaimPolicy}

abbrev pub or_instant : Option ℕ → ℕ → ℕ
or_instant none d = d
or_instant (some t) d = t

abbrev pub later : Option ℕ → ℕ → ℕ
later none s = s
later (some t) s = if ltb s t then t else s

-- idleSinceOf.
unfoldable pub idle_since : Resource → ℕ
idle_since r = later r.last_lease_ended_at (or_instant r.ready_at r.created_at)

abbrev pub idle_budget : Option ReclaimPolicy → ℕ
idle_budget none = 0
idle_budget (some p) = p.idle_after / ms

abbrev pub is_reclaimable : Option ReclaimPolicy → ℕ → Resource → Bool
is_reclaimable policy now r = not r.delete_protected && leb (idle_since r + idle_budget policy) now

abbrev pub insert_idle : Resource → List Resource → List Resource
insert_idle r [] = r ∷ []
insert_idle r (s ∷ ss) =
    let rest = insert_idle r ss in
    if ltb (idle_since s) (idle_since r) then s ∷ rest else r ∷ s ∷ ss

-- The insertion sort, which keeps equals in their order.
unfoldable pub longest_idle_first : List Resource → List Resource
unfolding idle_since
longest_idle_first [] = []
longest_idle_first (r ∷ rs) = insert_idle r (longest_idle_first rs)

unfoldable pub reclaimable : List Resource → Option ReclaimPolicy → ℕ → List Resource
unfolding longest_idle_first idle_since
reclaimable ready policy now = longest_idle_first (select (is_reclaimable policy now) ready)

abbrev pub parked_before : Resource → Resource → Bool
parked_before a b =
    if or_instant a.parked_at 0 == or_instant b.parked_at 0
    then ltb a.id b.id
    else ltb (or_instant a.parked_at 0) (or_instant b.parked_at 0)

abbrev pub insert_parked : Resource → List Resource → List Resource
insert_parked r [] = r ∷ []
insert_parked r (s ∷ ss) =
    let rest = insert_parked r ss in if parked_before s r then s ∷ rest else r ∷ s ∷ ss

-- parkedOldestFirst.
unfoldable pub oldest_parked_first : List Resource → List Resource
oldest_parked_first [] = []
oldest_parked_first (r ∷ rs) = insert_parked r (oldest_parked_first rs)
