-- ===== src/Median/Sorted.antt =====
-- Sorted lists of integers, and the sort of src/util.h.
use montecoin.Prelude.{
  ℕ, sym, zero, suc, ◌+◌, ◌≤◌, ◌≡◌, refl, Bool, true, false, List, [], ◌∷◌, length, get_elem?,
  arith, Bool-cases, inl, inr, some_inj, some,
}
use mathlib.Core.Path.{subst}
use montecoin.Prelude.Int.{ℤ, leb_ℤ, ltb_ℤ}
use montecoin.Median.{insert_sorted, sort}

abbrev pub one_if : Bool → ℕ
one_if true = 1
one_if false = 0

-- How many values are below, and above, a given one.
abbrev pub below : ℤ → List ℤ → ℕ
below m [] = 0
below m (x ∷ xs) = one_if (ltb_ℤ x m) + below m xs

abbrev pub above : ℤ → List ℤ → ℕ
above m [] = 0
above m (x ∷ xs) = one_if (ltb_ℤ m x) + above m xs

abbrev pub AllFrom : ℤ → List ℤ → Type 0
AllFrom x [] = Unit {0}
AllFrom x (y ∷ ys) = (leb_ℤ x y ≡ true) × AllFrom x ys

abbrev pub IsSorted : List ℤ → Type 0
IsSorted [] = Unit {0}
IsSorted (x ∷ xs) = AllFrom x xs × IsSorted xs

insert_sorted-counts :
    (m x : ℤ) (xs : List ℤ)
    → (below m (insert_sorted x xs) ≡ one_if (ltb_ℤ x m) + below m xs)
      × (above m (insert_sorted x xs) ≡ one_if (ltb_ℤ m x) + above m xs)
      × (length (insert_sorted x xs) ≡ suc (length xs))
unfolding insert_sorted
insert_sorted-counts m x [] = (refl, refl, refl)
insert_sorted-counts m x (y ∷ ys) =
    let ih = insert_sorted-counts m x ys in
    elim (Bool-cases (leb_ℤ x y)) [
      | inl e ↦ rw e (refl, refl, refl)
      | inr e ↦ rw e (omega (arith, ih.0), omega (arith, ih.1), omega (arith, ih.2))
    ]

-- A sort keeps how many values there are below and above any value.
pub sort-counts :
    (m : ℤ) (xs : List ℤ)
    → (below m (sort xs) ≡ below m xs)
      × (above m (sort xs) ≡ above m xs)
      × (length (sort xs) ≡ length xs)
unfolding sort
sort-counts m [] = (refl, refl, refl)
sort-counts m (x ∷ xs) =
    let a = insert_sorted-counts m x (sort xs) in
    let b = sort-counts m xs in
    (omega (arith, a.0, b.0), omega (arith, a.1, b.1), omega (arith, a.2, b.2))

AllFrom-trans : (x y : ℤ) (ys : List ℤ) → leb_ℤ x y ≡ true → AllFrom y ys → AllFrom x ys
AllFrom-trans x y [] h a = tt
AllFrom-trans x y (z ∷ zs) h a = (ground (arith, h, a.0), AllFrom-trans x y zs h a.1)

AllFrom-insert_sorted :
    (x y : ℤ) (ys : List ℤ) → leb_ℤ x y ≡ true → AllFrom x ys → AllFrom x (insert_sorted y ys)
unfolding insert_sorted
AllFrom-insert_sorted x y [] h a = (h, tt)
AllFrom-insert_sorted x y (z ∷ zs) h a = elim (Bool-cases (leb_ℤ y z)) [
  | inl e ↦ rw e (h, a)
  | inr e ↦ rw e (a.0, AllFrom-insert_sorted x y zs h a.1)
]

insert_sorted-IsSorted : (x : ℤ) (xs : List ℤ) → IsSorted xs → IsSorted (insert_sorted x xs)
unfolding insert_sorted
insert_sorted-IsSorted x [] s = (tt, tt)
insert_sorted-IsSorted x (y ∷ ys) s = elim (Bool-cases (leb_ℤ x y)) [
  | inl e ↦ rw e ((e, AllFrom-trans x y ys e s.0), s)
  | inr e ↦
      rw e (AllFrom-insert_sorted y x ys (ground (arith, e)) s.0, insert_sorted-IsSorted x ys s.1)
]

pub sort-IsSorted : (xs : List ℤ) → IsSorted (sort xs)
unfolding sort
sort-IsSorted [] = tt
sort-IsSorted (x ∷ xs) = insert_sorted-IsSorted x (sort xs) (sort-IsSorted xs)

AllFrom-below : (m : ℤ) (xs : List ℤ) → AllFrom m xs → below m xs ≡ 0
AllFrom-below m [] a = refl
AllFrom-below m (x ∷ xs) a =
    let ih = AllFrom-below m xs a.1 in
    let n : ltb_ℤ x m ≡ false = ground (arith, a.0) in rw (n, ih) refl

above_le : (m : ℤ) (xs : List ℤ) → above m xs ≤ length xs
above_le m [] = omega arith
above_le m (x ∷ xs) = ground (arith, above_le m xs)

AllFrom-get_elem? :
    (x : ℤ) (xs : List ℤ) (i : ℕ) {m : ℤ}
    → AllFrom x xs
    → get_elem? xs i ≡ some m
    → leb_ℤ x m ≡ true
AllFrom-get_elem? x [] i a h = cc
AllFrom-get_elem? x (y ∷ ys) zero {m} a h = let same : y ≡ m = some_inj h in rw (← same) a.0
AllFrom-get_elem? x (y ∷ ys) (suc i) a h = AllFrom-get_elem? x ys i a.1 h

-- In a sorted list, at most `i` values are below the one at index `i`, and at most those after it are
-- above it.
pub middle_counts :
    (xs : List ℤ) (i : ℕ) {m : ℤ}
    → IsSorted xs
    → get_elem? xs i ≡ some m
    → (below m xs ≤ i) × (above m xs + i + 1 ≤ length xs)
middle_counts [] i s h = cc
middle_counts (x ∷ xs) zero {m} s h =
    let same : x ≡ m = some_inj h in
    let b = AllFrom-below m xs (subst (λ u. AllFrom u xs) same s.0) in
    let l = above_le m xs in
    let irr : ltb_ℤ m m ≡ false = ground arith in
    let n₁ : ltb_ℤ x m ≡ false = subst (λ u. ltb_ℤ u m ≡ false) (sym same) irr in
    let n₂ : ltb_ℤ m x ≡ false = subst (λ u. ltb_ℤ m u ≡ false) (sym same) irr in
    (rw n₁ (omega (arith, b)), rw n₂ (omega (arith, l)))
middle_counts (x ∷ xs) (suc i) {m} s h =
    let ih = middle_counts xs i s.1 h in
    let le = AllFrom-get_elem? x xs i s.0 h in
    let n : ltb_ℤ m x ≡ false = ground (arith, le) in
    let o : one_if (ltb_ℤ x m) ≤ 1 = ground arith in
    (omega (arith, ih.0, o), rw n (omega (arith, ih.1)))
