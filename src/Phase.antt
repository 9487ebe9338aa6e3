-- ===== src/Phase.antt =====
-- internal/phase/phase.go: the orchestration phase of a resource and the legal-transition table.
pub mod Graph
use fleetplane.Prelude.{
  ℕ, ◌≡◌, refl, Bool, true, false, ◌||◌, List, [], ◌∷◌, ◌==◌, if◌then◌else◌, arith,
}

pub data Phase : Type 0 where
  unknown provisioning ready allocated draining deleting failed orphaned : Phase
  parking parked starting : Phase

-- The place of a phase in `All`; two phases are equal when their places are.
abbrev pub place : Phase → ℕ
place unknown = 0
place provisioning = 1
place ready = 2
place allocated = 3
place draining = 4
place deleting = 5
place failed = 6
place orphaned = 7
place parking = 8
place parked = 9
place starting = 10

-- `p == q` of the Go strings.
abbrev pub phase_eq : Phase → Phase → Bool
phase_eq p q = place p == place q

-- `All`, in the order of the storage CHECK constraint.
abbrev pub all_phases : List Phase
all_phases =
    unknown ∷ provisioning ∷ ready ∷ allocated ∷ draining ∷ deleting ∷ failed ∷ orphaned ∷ parking
    ∷ parked ∷ starting ∷ []

-- The loop of `Valid` and `CanTransition`.
abbrev pub phase_in : Phase → List Phase → Bool
phase_in p [] = false
phase_in p (q ∷ qs) = let rest = phase_in p qs in if phase_eq p q then true else rest

unfoldable pub valid : Phase → Bool
valid p = phase_in p all_phases

-- The map `transitions`; a phase with no entry has none.
unfoldable pub transitions : Phase → List Phase
transitions unknown = ready ∷ orphaned ∷ deleting ∷ []
transitions provisioning = ready ∷ failed ∷ orphaned ∷ []
transitions ready = allocated ∷ draining ∷ orphaned ∷ deleting ∷ parking ∷ []
transitions allocated = ready ∷ draining ∷ orphaned ∷ []
transitions draining = ready ∷ deleting ∷ []
transitions deleting = failed ∷ []
transitions failed = deleting ∷ []
transitions orphaned = ready ∷ parked ∷ []
transitions parking = parked ∷ ready ∷ []
transitions parked = starting ∷ deleting ∷ orphaned ∷ []
transitions starting = ready ∷ parked ∷ failed ∷ []

unfoldable pub can_transition : Phase → Phase → Bool
unfolding transitions
can_transition from to = phase_in to (transitions from)

-- `==` on phases decides equality.
pub phase_eq→≡ : (p q : Phase) → phase_eq p q ≡ true → p ≡ q
phase_eq→≡ p q h = ground arith

pub phase_eq_refl : (p : Phase) → phase_eq p p ≡ true
phase_eq_refl p = ground arith
