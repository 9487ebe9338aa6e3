-- ===== src/Capacity.antt =====
-- internal/capacity/capacity.go: capacity vectors and the request shape. Dimension names are
-- compared for equality only and are numbers here; a Go map is a list of its entries, and a
-- missing key reads as 0. Amounts are int64 and wrap.
pub mod Fit
use fleetplane.Prelude.{
  ℕ, ◌≡◌, Bool, true, false, ◌&&◌, ◌||◌, Option, none, some, List, [], ◌∷◌, ◌==◌, if◌then◌else◌,
}
use fleetplane.Prelude.Int64.{ℤ, pos, negsuc, ltb_ℤ, add64, sub64}
use fleetplane.Prelude.Outcome.{Outcome, ok, err, invalid, ◌>>=◌}
use fleetplane.Prelude.Json.{Json, unmarshal_or}

abbrev pub Vector : Type 0
Vector = List (ℕ × ℤ)

-- `v, tracked := m[dim]`.
abbrev pub lookup_dim : ℕ → Vector → Option ℤ
lookup_dim d [] = none
lookup_dim d ((k, v) ∷ m) = let rest = lookup_dim d m in if k == d then some v else rest

abbrev pub or_zero : Option ℤ → ℤ
or_zero none = pos 0
or_zero (some v) = v

-- `m[dim]`.
abbrev pub at_dim : Vector → ℕ → ℤ
at_dim m d = or_zero (lookup_dim d m)

abbrev pub parse : Json Vector → Outcome Vector
parse raw = unmarshal_or [] raw

-- The loop of WantFromConstraints over the entries of the constraints: a negative minimum is
-- refused, a zero minimum requests nothing.
unfoldable pub add_want : ℕ → ℤ → Vector → Outcome Vector
add_want d m w = if ltb_ℤ (pos 0) m then ok ((d, m) ∷ w) else ok w

unfoldable pub want_entries : Vector → Outcome Vector
unfolding add_want
want_entries [] = ok []
want_entries ((d, m) ∷ c) =
    let rest = want_entries c in if ltb_ℤ m (pos 0) then err invalid else rest >>= add_want d m

unfoldable pub want_from_constraints : Json Vector → Outcome Vector
unfolding want_entries
want_from_constraints raw = unmarshal_or [] raw >>= λ c. want_entries c

-- `t, tracked := total[dim]; if !tracked { return false }; if t-used[dim] < w { return false }`.
abbrev pub fits_dim : Option ℤ → ℤ → ℤ → Bool
fits_dim none used w = false
fits_dim (some t) used w = if ltb_ℤ (sub64 t used) w then false else true

unfoldable pub fits : Vector → Vector → Vector → Bool
fits total used [] = true
fits total used ((d, w) ∷ want) =
    let rest = fits total used want in
    if fits_dim (lookup_dim d total) (at_dim used d) w then rest else false

unfoldable pub free_after_from : ℤ → Vector → Vector → Vector → ℤ
free_after_from free [] used want = free
free_after_from free ((d, t) ∷ total) used want =
    free_after_from (add64 free (sub64 (sub64 t (at_dim used d)) (at_dim want d))) total used want

unfoldable pub free_after : Vector → Vector → Vector → ℤ
unfolding free_after_from
free_after total used want = free_after_from (pos 0) total used want

-- `used[k] += v`.
unfoldable pub bump : ℕ → ℤ → Vector → Vector
bump k v [] = (k, add64 (pos 0) v) ∷ []
bump k v ((j, w) ∷ m) =
    let rest = bump k v m in if j == k then (j, add64 w v) ∷ m else (j, w) ∷ rest

-- `for k, v := range c { used[k] += v }`.
unfoldable pub add_into : Vector → Vector → Vector
unfolding bump
add_into used [] = used
add_into used ((k, v) ∷ c) = add_into (bump k v used) c

pub record Request : Type 0 where
  pub exclusive : Bool
  pub constraints : Json Vector
  pub max_wait_ms : ℕ

abbrev pub zero_request : Request
zero_request = record { exclusive = false; constraints = Json.blank; max_wait_ms = 0 }

pub record Parsed : Type 0 where
  pub request : Request
  pub want : Vector
  pub exclusive : Bool

abbrev pub is_empty : Vector → Bool
is_empty [] = true
is_empty (_ ∷ _) = false

-- No dimensioned request means the whole machine.
unfoldable pub parse_request : Json Request → Outcome Parsed
unfolding want_from_constraints
parse_request raw = do
  req ← unmarshal_or zero_request raw
  want ← want_from_constraints req.constraints
  ok (record { request = req; want = want; exclusive = req.exclusive || is_empty want })
