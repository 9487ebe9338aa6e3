-- ===== src/Billing/Ranks.antt =====
-- The sorted durations and their 95th percentile, by its rank among them (internal/billing/billing.go,
-- p95).
use fleetplane.Prelude.{
  ℕ, zero, suc, ◌*◌, ◌/◌, ◌≤◌, ◌<◌, ◌≡◌, inl, inr, refl, subst, Bool, true, some, List, [], ◌∷◌,
  arith, length, get_elem?, leb, ltb, All, Bool-cases, if◌then◌else◌,
}
use fleetplane.Billing.{insert_sorted, sort, p95}

-- How many satisfy a test.
abbrev pub count : (ℕ → Bool) → List ℕ → ℕ
count p [] = 0
count p (x ∷ xs) = let rest = count p xs in if p x then suc rest else rest

abbrev AllAbove : ℕ → List ℕ → Type 0
AllAbove x = All (λ y. x ≤ y)

abbrev IsSorted : List ℕ → Type 0
IsSorted [] = Unit
IsSorted (x ∷ xs) = AllAbove x xs × IsSorted xs

weaken-AllAbove : (x y : ℕ) (ys : List ℕ) → x ≤ y → AllAbove y ys → AllAbove x ys
weaken-AllAbove x y [] l h = tt
weaken-AllAbove x y (z ∷ zs) l h = (ground (arith, l, h.0), weaken-AllAbove x y zs l h.1)

insert-AllAbove : (b x : ℕ) (ys : List ℕ) → b ≤ x → AllAbove b ys → AllAbove b (insert_sorted x ys)
unfolding insert_sorted
insert-AllAbove b x [] l h = (l, tt)
insert-AllAbove b x (y ∷ ys) l h = elim (Bool-cases (ltb y x)) [
  | inl t ↦ ground (arith, t, h.0, insert-AllAbove b x ys l h.1)
  | inr f ↦ ground (arith, f, l, h.0, h.1)
]

insert-IsSorted : (x : ℕ) (ys : List ℕ) → IsSorted ys → IsSorted (insert_sorted x ys)
unfolding insert_sorted
insert-IsSorted x [] h = (tt, tt)
insert-IsSorted x (y ∷ ys) h = elim (Bool-cases (ltb y x)) [
  | inl t ↦
      let l : y ≤ x = ground (arith, t) in
      ground (arith, t, insert-AllAbove y x ys l h.0, insert-IsSorted x ys h.1)
  | inr f ↦
      let l : x ≤ y = ground (arith, f) in
      ground (arith, f, l, weaken-AllAbove x y ys l h.0, h.0, h.1)
]

sort-IsSorted : (xs : List ℕ) → IsSorted (sort xs)
unfolding sort
sort-IsSorted [] = tt
sort-IsSorted (x ∷ xs) = insert-IsSorted x (sort xs) (sort-IsSorted xs)

count-insert_sorted :
    (p : ℕ → Bool) (x : ℕ) (ys : List ℕ) → count p (insert_sorted x ys) ≡ count p (x ∷ ys)
unfolding insert_sorted
count-insert_sorted p x [] = refl
count-insert_sorted p x (y ∷ ys) = ground (arith, count-insert_sorted p x ys)

count-sort : (p : ℕ → Bool) (xs : List ℕ) → count p (sort xs) ≡ count p xs
unfolding sort
count-sort p [] = refl
count-sort p (x ∷ xs) = ground (arith, count-insert_sorted p x (sort xs), count-sort p xs)

-- The order statistic at an index: more values than the index are at most it, and no more than the
-- index are below it.
count-below : (x : ℕ) (ys : List ℕ) → AllAbove x ys → count (λ y. ltb y x) ys ≡ 0
count-below x [] h = refl
count-below x (y ∷ ys) h = ground (arith, h.0, count-below x ys h.1)

elem-AllAbove : (x i q : ℕ) (ys : List ℕ) → AllAbove x ys → get_elem? ys i ≡ some q → x ≤ q
elem-AllAbove x i q [] h g = ground arith
elem-AllAbove x zero q (y ∷ ys) h g = ground (arith, h.0, g)
elem-AllAbove x (suc i) q (y ∷ ys) h g = elem-AllAbove x i q ys h.1 g

rank :
    (xs : List ℕ) (i q : ℕ)
    → IsSorted xs
    → get_elem? xs i ≡ some q
    → (i < count (λ x. leb x q) xs) × (count (λ x. ltb x q) xs ≤ i)
rank [] i q h g = ground arith
rank (x ∷ xs) zero q h g =
    let same : x ≡ q = ground arith in
    subst (λ v. (0 < count (λ y. leb y v) (x ∷ xs)) × (count (λ y. ltb y v) (x ∷ xs) ≤ 0)) same
      (ground arith, ground (arith, count-below x xs h.0))
rank (x ∷ xs) (suc i) q h g =
    let (more, less) = rank xs i q h.1 g in
    let l = elem-AllAbove x i q xs h.0 g in (ground (arith, more, l), ground (arith, less, l))

length-insert_sorted : (x : ℕ) (ys : List ℕ) → length (insert_sorted x ys) ≡ suc (length ys)
unfolding insert_sorted
length-insert_sorted x [] = refl
length-insert_sorted x (y ∷ ys) = ground (arith, length-insert_sorted x ys)

length-sort : (xs : List ℕ) → length (sort xs) ≡ length xs
unfolding sort
length-sort [] = refl
length-sort (x ∷ xs) = omega (arith, length-sort xs, length-insert_sorted x (sort xs))

get_elem?-some : (xs : List ℕ) (i : ℕ) → i < length xs → (x : ℕ) × (get_elem? xs i ≡ some x)
get_elem?-some [] i h = absurd (omega arith)
get_elem?-some (x ∷ xs) zero h = (x, refl)
get_elem?-some (x ∷ xs) (suc i) h = get_elem?-some xs i (omega arith)

-- The index of the 95th percentile is in range as soon as there is a sample.
pub p95_total : (x : ℕ) (xs : List ℕ) → (y : ℕ) × (p95 (x ∷ xs) ≡ some y)
unfolding p95
p95_total x xs = get_elem?-some (sort (x ∷ xs)) _ (omega (arith, length-sort (x ∷ xs)))

-- The percentile by its rank among the samples: more than 95 in a hundred are at most it, and no
-- more than 95 in a hundred are below it.
pub p95-rank :
    (xs : List ℕ) (q : ℕ)
    → p95 xs ≡ some q
    → (length xs * 95 < count (λ x. leb x q) xs * 100)
      × (count (λ x. ltb x q) xs * 100 ≤ length xs * 95)
unfolding p95
p95-rank xs q h =
    let (more, less) = rank (sort xs) (length (sort xs) * 95 / 100) q (sort-IsSorted xs) h in
    (
      omega (arith, more, length-sort xs, count-sort (λ x. leb x q) xs),
      omega (arith, less, length-sort xs, count-sort (λ x. ltb x q) xs),
    )

-- A test that implies another holds no more often.
pub count_mono :
    (p q : ℕ → Bool) → ((x : ℕ) → p x ≡ true → q x ≡ true) → (xs : List ℕ) → count p xs ≤ count q xs
count_mono p q h [] = omega arith
count_mono p q h (x ∷ xs) = ground (arith, h x, count_mono p q h xs)
