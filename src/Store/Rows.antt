-- ===== src/Store/Rows.antt =====
-- Tables with a primary key: lookup, the UPDATE of one row, and counting.
use fleetplane.Prelude.{
  ℕ, ◌+◌, ◌≡◌, Bool, true, false, Option, none, some, List, [], ◌∷◌, ◌==◌, leb, if◌then◌else◌, All,
  if-intro, arith,
}

-- SELECT … WHERE id=?.
abbrev pub get_row : {R : Type 0} → (R → ℕ) → ℕ → List R → Option R
get_row key i [] = none
get_row key i (r ∷ rs) = let rest = get_row key i rs in if key r == i then some r else rest

-- UPDATE … WHERE id=?, with `f` for the SET clause.
abbrev pub put_row : {R : Type 0} → (R → ℕ) → ℕ → (R → R) → List R → List R
put_row key i f [] = []
put_row key i f (r ∷ rs) =
    let rest = put_row key i f rs in if key r == i then f r ∷ rs else r ∷ rest

abbrev pub map_row : {R : Type 0} → (R → R) → Option R → Option R
map_row f none = none
map_row f (some r) = some (f r)

abbrev pub one_if : Bool → ℕ
one_if true = 1
one_if false = 0

-- SELECT count(*) … WHERE p.
abbrev pub count_where : {R : Type 0} → (R → Bool) → List R → ℕ
count_where p [] = 0
count_where p (r ∷ rs) = one_if (p r) + count_where p rs

abbrev pub insert_by_key : {R : Type 0} → (R → ℕ) → R → List R → List R
insert_by_key key r [] = r ∷ []
insert_by_key key r (s ∷ ss) =
    let rest = insert_by_key key r ss in if leb (key r) (key s) then r ∷ s ∷ ss else s ∷ rest

-- ORDER BY a column.
abbrev pub by_key : {R : Type 0} → (R → ℕ) → List R → List R
by_key key [] = []
by_key key (r ∷ rs) = insert_by_key key r (by_key key rs)

module _ {R : Type 0} (key : R → ℕ) where
  All-insert_by_key :
      (P : R → Type 0) (r : R) (rs : List R) → P r → All P rs → All P (insert_by_key key r rs)
  All-insert_by_key P r [] h k = (h, tt)
  All-insert_by_key P r (s ∷ ss) h k =
      if-intro (All P) (leb (key r) (key s)) (h, k) (k.0, All-insert_by_key P r ss h k.1)

  pub All-by_key : (P : R → Type 0) (rs : List R) → All P rs → All P (by_key key rs)
  All-by_key P [] h = tt
  All-by_key P (r ∷ rs) h = All-insert_by_key P r (by_key key rs) h.0 (All-by_key P rs h.1)

  pub get_row-put_row :
      (i j : ℕ) (f : R → R) (rs : List R)
      → ((r : R) → key (f r) ≡ key r)
      → get_row key j (put_row key i f rs)
        ≡ (if i == j then map_row f (get_row key j rs) else get_row key j rs)
  get_row-put_row i j f [] k = ground arith
  get_row-put_row i j f (r ∷ rs) k = ground (arith, k r, get_row-put_row i j f rs k)

  pub get_row-key : (i : ℕ) (rs : List R) (r : R) → get_row key i rs ≡ some r → key r ≡ i
  get_row-key i [] r h = cc
  get_row-key i (x ∷ rs) r h = ground (arith, get_row-key i rs r)

  -- Changing one row moves the count by that row alone.
  pub count_where-put_row :
      (p : R → Bool) (i : ℕ) (f : R → R) (rs : List R) (r : R)
      → get_row key i rs ≡ some r
      → count_where p (put_row key i f rs) + one_if (p r) ≡ count_where p rs + one_if (p (f r))
  count_where-put_row p i f [] r h = cc
  count_where-put_row p i f (x ∷ rs) r h = ground (arith, count_where-put_row p i f rs r)
