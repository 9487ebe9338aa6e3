-- ===== src/Capacity/Fit.antt =====
-- What `Fits`, the accumulation of lease capacities and `ParseRequest` guarantee
-- (internal/capacity/capacity.go).
use mathlib.Core.List.{Memᴰ}
use fleetplane.Prelude.{
  ℕ, ◌+◌, ◌≤◌, ◌||◌, ◌<◌, ◌≡◌, refl, inl, inr, Bool, true, false, Option, none, some, [], ◌∷◌, ◌==◌,
  if◌then◌else◌, arith, Bool-cases, All,
}
use fleetplane.Prelude.Int64.{ℤ, pos, ltb_ℤ, sub64, add64, i64_half}
use fleetplane.Prelude.Outcome.{ok, invalid, OnOk, OnOk-ok, OnOk-guard, OnOk-bind, OnOk-and}
use fleetplane.Prelude.Json.{Json}
use fleetplane.Capacity.{
  Vector, lookup_dim, or_zero, at_dim, add_want, want_entries, fits_dim, fits, bump, add_into,
  Parsed, parse_request, want_from_constraints, is_empty,
}

-- One dimension that fits leaves room: what is used and what is wanted stay within the total.
fits_dim_room :
    (o : Option ℤ) (x : ℤ) (t u w : ℕ)
    → or_zero o ≡ pos t
    → x ≡ pos u
    → t < i64_half
    → u < i64_half
    → fits_dim o x (pos w) ≡ true
    → (o ≡ some (pos t)) × (u + w ≤ t)
unfolding sub64
fits_dim_room none x t u w et eu ht hu h = cc
fits_dim_room (some a) x t u w et eu ht hu h = ground arith

-- A request that fits is tracked by the resource and leaves room in every dimension: the total is
-- known there, and what is used and what is wanted stay within it. The amounts are non-negative
-- and within int64.
pub fits_room :
    (total used want : Vector) (d t u w : ℕ)
    → fits total used want ≡ true
    → lookup_dim d want ≡ some (pos w)
    → at_dim used d ≡ pos u
    → at_dim total d ≡ pos t
    → t < i64_half
    → u < i64_half
    → (lookup_dim d total ≡ some (pos t)) × (u + w ≤ t)
unfolding fits
fits_room total used [] d t u w h e eu et ht hu = cc
fits_room total used ((k, v) ∷ want) d t u w h e eu et ht hu = ground (
  arith,
  fits_dim_room (lookup_dim d total) (at_dim used d) t u w,
  fits_room total used want d t u w,
)

-- A request that does not fit names a dimension that is untracked or short of room.
pub fits_refused :
    (total used want : Vector)
    → fits total used want ≡ false
    → (d : ℕ) × (w : ℤ) × Memᴰ (d, w) want
      × (fits_dim (lookup_dim d total) (at_dim used d) w ≡ false)
unfolding fits
fits_refused total used [] h = cc
fits_refused total used ((k, v) ∷ want) h =
    elim (Bool-cases (fits_dim (lookup_dim k total) (at_dim used k) v)) [
      | inl here ↦
          let (d, w, m, no_room) = fits_refused total used want (ground arith) in
          (d, w, Memᴰ.tail m, no_room)
      | inr short ↦ (k, v, Memᴰ.head refl, short)
    ]

-- After `used[k] += v` the entry of `k` has grown by `v` and the others are as they were.
pub at_dim-bump :
    (k : ℕ) (v : ℤ) (m : Vector) (d : ℕ)
    → at_dim (bump k v m) d ≡ (if k == d then add64 (at_dim m k) v else at_dim m d)
unfolding bump
at_dim-bump k v [] d = ground arith
at_dim-bump k v ((j, w) ∷ m) d = ground (arith, at_dim-bump k v m d)

-- The keys of a Go map are distinct.
abbrev pub DistinctKeys : Vector → Type 0
DistinctKeys [] = Unit
DistinctKeys ((k, v) ∷ m) = (lookup_dim k m ≡ none) × DistinctKeys m

-- Adding a lease's capacity adds, in each dimension, what the lease holds there.
pub at_dim-add_into :
    (used c : Vector) (d : ℕ)
    → DistinctKeys c
    → at_dim (add_into used c) d
      ≡ elim (lookup_dim d c) [ none ↦ at_dim used d | some v ↦ add64 (at_dim used d) v ]
unfolding add_into
at_dim-add_into used [] d h = refl
at_dim-add_into used ((k, v) ∷ c) d h =
    ground (arith, at_dim-add_into (bump k v used) c d h.1, at_dim-bump k v used d)

-- Every entry of a request is a positive amount.
abbrev pub IsPositive : ℕ × ℤ → Type 0
IsPositive e = ltb_ℤ (pos 0) e.1 ≡ true

add_want-IsPositive :
    (d : ℕ) (m : ℤ) (w : Vector) → All IsPositive w → OnOk (All IsPositive) (add_want d m w)
unfolding add_want
add_want-IsPositive d m w h = ground arith

want_entries-IsPositive : (c : Vector) → OnOk (All IsPositive) (want_entries c)
unfolding want_entries
want_entries-IsPositive [] = tt
want_entries-IsPositive ((d, m) ∷ c) = OnOk-guard (All IsPositive) _ invalid _ (λ _.
    OnOk-bind (All IsPositive) (All IsPositive) (want_entries c) (add_want d m)
      (want_entries-IsPositive c) (λ w _. add_want-IsPositive d m w))

-- What a successful reading of the constraints requests in one dimension.
abbrev pub requested : Option ℤ → Option ℤ
requested none = none
requested (some m) = if ltb_ℤ (pos 0) m then some m else none

abbrev pub Requests : Vector → Vector → Type 0
Requests c w = (d : ℕ) → lookup_dim d w ≡ requested (lookup_dim d c)

add_want-Requests :
    (d : ℕ) (m : ℤ) (c w : Vector)
    → lookup_dim d c ≡ none
    → Requests c w
    → OnOk (Requests ((d, m) ∷ c)) (add_want d m w)
unfolding add_want
add_want-Requests d m c w new h = elim (Bool-cases (ltb_ℤ (pos 0) m)) [
  | inl positive ↦ rw positive (λ j. ground (arith, h j))
  | inr zero_min ↦ rw zero_min (λ j. ground (arith, h j))
]

want_entries-Requests : (c : Vector) → DistinctKeys c → OnOk (Requests c) (want_entries c)
unfolding want_entries
want_entries-Requests [] h = λ d. refl
want_entries-Requests ((d, m) ∷ c) h = OnOk-guard (Requests ((d, m) ∷ c)) _ invalid _ (λ _.
    OnOk-bind (Requests c) (Requests ((d, m) ∷ c)) (want_entries c) (add_want d m)
      (want_entries-Requests c h.1) (λ w _. add_want-Requests d m c w h.0))

is_empty_exclusive : (b : Bool) (w : Vector) → w ≡ [] → (b || is_empty w) ≡ true
is_empty_exclusive b [] h = ground arith
is_empty_exclusive b (x ∷ w) h = cc

abbrev Asks : Vector → Vector → Type 0
Asks c w = Requests c w × All IsPositive w

-- A request that is accepted: constraints with distinct dimensions become a vector that asks, in
-- each dimension, for the constraint's minimum where that is positive and for nothing elsewhere;
-- every entry is positive; and a request for no dimension is for the whole machine.
pub parse_request_lem :
    (b : Bool) (c : Vector) (n : ℕ) (p : Parsed)
    → DistinctKeys c
    → parse_request (Json.doc (record { exclusive = b; constraints = Json.doc c; max_wait_ms = n }))
      ≡ ok p
    → Requests c p.want × All IsPositive p.want × (p.want ≡ [] → p.exclusive ≡ true)
unfolding parse_request want_from_constraints
parse_request_lem b c n p distinct h = OnOk-ok Good _ p h (
    OnOk-bind (Asks c) Good (want_entries c) _
      (OnOk-and (Requests c) (All IsPositive) (want_entries c) (want_entries-Requests c distinct)
        (want_entries-IsPositive c))
      (λ w _ a. (a.0, a.1, is_empty_exclusive b w)))
  where
    Good : Parsed → Type 0
    Good q = Requests c q.want × All IsPositive q.want × (q.want ≡ [] → q.exclusive ≡ true)
