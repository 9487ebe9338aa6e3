-- ===== src/Scheduler/Agrees.antt =====
-- The candidates of the snapshot and the check of the reservation agree
-- (internal/scheduler/scheduler.go, rankedCandidates and reserve).
use fleetplane.Prelude.{
  ℕ, ◌≡◌, inl, inr, refl, sym, ◌∙◌, ap, Bool, true, false, ◌&&◌, ◌||◌, Option, none, some, List, [],
  ◌∷◌, ◌==◌, select, All, arith, Bool-cases, Option-cases,
}
use fleetplane.Prelude.Outcome.{is_ok}
use fleetplane.Capacity.{Vector}
use fleetplane.Store.{Db, Resource, Lease, Acquisition}
use fleetplane.Store.Rows.{get_row, by_key, insert_by_key}
use fleetplane.Store.Resources.{res_id}
use fleetplane.Store.Leases
use fleetplane.Store.Resources.Listing.{matches, list, name_matches}
use fleetplane.Scheduler.{admit, eligible}
use fleetplane.Scheduler.Steps.{num_eq}
use fleetplane.Scheduler.Ranking.{
  Env, Candidate, candidate, candidates, tiered, insert_ranked, rank, hosts, ranked_candidates,
}

abbrev pub lists : ℕ → List Candidate → Bool
lists id [] = false
lists id (c ∷ cs) = c.id == id || lists id cs

-- A row of the id that passes a test.
abbrev pub found : ℕ → (Resource → Bool) → List Resource → Bool
found id p [] = false
found id p (r ∷ rs) = (r.id == id && p r) || found id p rs

lists-insert :
    (id : ℕ) (c : Candidate) (cs : List Candidate)
    → lists id (insert_ranked c cs) ≡ (c.id == id || lists id cs)
lists-insert id c [] = refl
lists-insert id c (d ∷ ds) = ground (arith, lists-insert id c ds)

lists-rank : (id : ℕ) (cs : List Candidate) → lists id (rank cs) ≡ lists id cs
unfolding rank
lists-rank id [] = refl
lists-rank id (c ∷ cs) = ground (arith, lists-insert id c (rank cs), lists-rank id cs)

tiered-id :
    (e : Env) (acq : Acquisition) (r : Resource) (c : Candidate) → (tiered e acq r c).id ≡ c.id
unfolding tiered
tiered-id e acq r c = ground arith

abbrev is_some : Option Candidate → Bool
is_some none = false
is_some (some c) = true

-- A listed machine is a candidate exactly when the reservation would admit it.
candidate-admit :
    (active : List Lease) (want : Vector) (exclusive : Bool) (r : Resource)
    → eligible r ≡ true
    → is_some (candidate active want exclusive r) ≡ is_ok (admit r active want exclusive)
unfolding candidate admit
candidate-admit active want exclusive r h = ground (arith, h)

candidate-id :
    (active : List Lease) (want : Vector) (exclusive : Bool) (r : Resource) (c : Candidate)
    → candidate active want exclusive r ≡ some c
    → c.id ≡ r.id
unfolding candidate
candidate-id active want exclusive r c h = ground (arith, h)

abbrev admits : Vector → Bool → Db → Resource → Bool
admits want exclusive db r = is_ok (admit r (Leases.active_by_resource r.id db) want exclusive)

-- The kind and the class of a request; a name of 0 fits any.
abbrev pub serves : Acquisition → Resource → Bool
serves acq r = name_matches acq.kind r.kind && name_matches acq.class r.class

hosts-eligible :
    (acq : Acquisition) (r : Resource) → matches (hosts acq) r ≡ (serves acq r && eligible r)
unfolding matches
hosts-eligible acq r = ground arith

lists-candidates :
    (e : Env) (acq : Acquisition) (want : Vector) (exclusive : Bool) (db : Db) (id : ℕ)
    (rs : List Resource)
    → lists id (candidates e acq want exclusive db rs)
      ≡ found id (λ r. is_some (candidate (Leases.active_by_resource r.id db) want exclusive r)) rs
unfolding candidates
lists-candidates e acq want exclusive db id [] = refl
lists-candidates e acq want exclusive db id (r ∷ rs) =
    let ih = lists-candidates e acq want exclusive db id rs in
    elim (Option-cases (candidate (Leases.active_by_resource r.id db) want exclusive r)) [
      | inl n ↦ ground (arith, n, ih)
      | inr (c, y) ↦
          let same = tiered-id e acq r c ∙ candidate-id _ want exclusive r c y in
          ground (arith, y, ih, same)
    ]

found-insert :
    (id : ℕ) (p : Resource → Bool) (r : Resource) (rs : List Resource)
    → found id p (insert_by_key res_id r rs) ≡ ((r.id == id && p r) || found id p rs)
found-insert id p r [] = refl
found-insert id p r (s ∷ ss) = ground (arith, found-insert id p r ss)

found-by_key :
    (id : ℕ) (p : Resource → Bool) (rs : List Resource)
    → found id p (by_key res_id rs) ≡ found id p rs
found-by_key id p [] = refl
found-by_key id p (r ∷ rs) =
    ground (arith, found-insert id p r (by_key res_id rs), found-by_key id p rs)

found-select :
    (id : ℕ) (p q : Resource → Bool) (rs : List Resource)
    → found id p (select q rs) ≡ found id (λ r. q r && p r) rs
found-select id p q [] = refl
found-select id p q (r ∷ rs) = ground (arith, found-select id p q rs)

-- Two tests that agree on every row.
found-agree :
    (id : ℕ) (p q : Resource → Bool) (rs : List Resource)
    → ((r : Resource) → p r ≡ q r)
    → found id p rs ≡ found id q rs
found-agree id p q [] h = refl
found-agree id p q (r ∷ rs) h = ground (arith, h r, found-agree id p q rs h)

-- The table has one row of each id.
abbrev pub Keyed : List Resource → Type 0
Keyed rs = All (λ r. get_row res_id r.id rs ≡ some r) rs

row-found :
    (id : ℕ) (p : Resource → Bool) (rs : List Resource) (r : Resource)
    → get_row res_id id rs ≡ some r
    → p r ≡ true
    → found id p rs ≡ true
row-found id p [] r g y = cc
row-found id p (s ∷ rs) r g y = ground (arith, y, row-found id p rs r)

found-row :
    (id : ℕ) (p : Resource → Bool) (table rs : List Resource) (r : Resource)
    → All (λ s. get_row res_id s.id table ≡ some s) rs
    → get_row res_id id table ≡ some r
    → p r ≡ false
    → found id p rs ≡ false
found-row id p table [] r keyed g n = refl
found-row id p table (s ∷ rs) r keyed g n = elim (Bool-cases (s.id == id)) [
  | inl y ↦
      let row : get_row res_id s.id table ≡ get_row res_id id table =
        ap (λ i. get_row res_id i table) (num_eq y) in
      let same : s ≡ r = some-inj (sym keyed.0 ∙ row ∙ g) in
      ground (arith, y, found-row id p table rs r keyed.1 g n, ap p same ∙ n)
  | inr m ↦ ground (arith, m, found-row id p table rs r keyed.1 g n)
]
  where
    some-inj : {a b : Resource} → some a ≡ some b → a ≡ b
    some-inj h = cc

found-Keyed :
    (id : ℕ) (p : Resource → Bool) (rs : List Resource) (r : Resource)
    → Keyed rs
    → get_row res_id id rs ≡ some r
    → found id p rs ≡ p r
found-Keyed id p rs r keyed g = elim (Bool-cases (p r)) [
  | inl y ↦ row-found id p rs r g y ∙ sym y
  | inr n ↦ found-row id p rs rs r keyed g n ∙ sym n
]

agree_on :
    (acq : Acquisition) (want : Vector) (exclusive : Bool) (db : Db) (r : Resource)
    → (matches (hosts acq) r
        && is_some (candidate (Leases.active_by_resource r.id db) want exclusive r))
      ≡ (serves acq r && eligible r && admits want exclusive db r)
agree_on acq want exclusive db r =
    let same = hosts-eligible acq r in
    elim (Bool-cases (eligible r)) [
      | inl y ↦
          ground
            (arith, y, same, candidate-admit (Leases.active_by_resource r.id db) want exclusive r y)
      | inr n ↦ ground (arith, n, same)
    ]

-- The ranked candidates are exactly the live, managed machines of the request's kind and class, ready
-- or allocated, for which the checks inside the reservation succeed on the same database. Each
-- resource is the row of its id.
pub ranked_candidates_lem :
    (e : Env) (acq : Acquisition) (want : Vector) (exclusive : Bool) (db : Db) (r : Resource)
    → Keyed db.resources
    → get_row res_id r.id db.resources ≡ some r
    → lists r.id (ranked_candidates e acq want exclusive db) ≡ (
        serves acq r
        && eligible r
        && is_ok (admit r (Leases.active_by_resource r.id db) want exclusive))
unfolding ranked_candidates list
ranked_candidates_lem e acq want exclusive db r keyed g =
    let passes : Resource → Bool =
      λ s. is_some (candidate (Leases.active_by_resource s.id db) want exclusive s) in
    lists-rank r.id (candidates e acq want exclusive db (list (hosts acq) db))
    ∙ lists-candidates e acq want exclusive db r.id (list (hosts acq) db)
    ∙ found-by_key r.id passes (select (matches (hosts acq)) db.resources)
    ∙ found-select r.id passes (matches (hosts acq)) db.resources
    ∙ found-Keyed r.id (λ s. matches (hosts acq) s && passes s) db.resources r keyed g
    ∙ agree_on acq want exclusive db r
