-- ===== src/Kernel/Sorted.antt =====
-- The candidates of src/kernel.cpp, reversed and sorted: the same candidates, in the order of time.
use montecoin.Prelude.{ℕ, ◌≤◌, ◌≢◌, sym, List, [], ◌∷◌, arith, Bool-cases, inl, inr}
use mathlib.Core.List.{reverse, reverse_aux}
use montecoin.Kernel.{pair_leb, insert_by_time, sort_by_timestamp}

abbrev pub All : {A : Type 0} → (A → Type 0) → List A → Type 0
All P [] = Unit {0}
All P (x ∷ xs) = P x × All P xs

-- No hash is there twice.
abbrev pub DistinctHashes : List (ℕ × ℕ) → Type 0
DistinctHashes [] = Unit {0}
DistinctHashes (x ∷ xs) = All (λ y. x.1 ≢ y.1) xs × DistinctHashes xs

-- The times ascend.
abbrev pub Ascending : List (ℕ × ℕ) → Type 0
Ascending [] = Unit {0}
Ascending (x ∷ xs) = All (λ y. x.0 ≤ y.0) xs × Ascending xs

pub All-map :
    {A : Type 0} (P Q : A → Type 0) (xs : List A) → ((x : A) → P x → Q x) → All P xs → All Q xs
All-map P Q [] f a = tt
All-map P Q (x ∷ xs) f a = (f x a.0, All-map P Q xs f a.1)

module _ (P : ℕ × ℕ → Type 0) where
  insert_by_time-All :
      (x : ℕ × ℕ) (xs : List (ℕ × ℕ)) → P x → All P xs → All P (insert_by_time x xs)
  unfolding insert_by_time
  insert_by_time-All x [] p a = (p, tt)
  insert_by_time-All x (y ∷ ys) p a = elim (Bool-cases (pair_leb x y)) [
    | inl b ↦ rw b (p, a)
    | inr b ↦ rw b (a.0, insert_by_time-All x ys p a.1)
  ]

  pub sort-All : (xs : List (ℕ × ℕ)) → All P xs → All P (sort_by_timestamp xs)
  unfolding sort_by_timestamp
  sort-All [] a = tt
  sort-All (x ∷ xs) a = insert_by_time-All x (sort_by_timestamp xs) a.0 (sort-All xs a.1)

  pub reverse_aux-All : (xs ys : List (ℕ × ℕ)) → All P xs → All P ys → All P (reverse_aux xs ys)
  reverse_aux-All [] ys a b = b
  reverse_aux-All (x ∷ xs) ys a b = reverse_aux-All xs (x ∷ ys) a.1 (a.0, b)

insert_by_time-DistinctHashes :
    (x : ℕ × ℕ) (xs : List (ℕ × ℕ))
    → All (λ y. x.1 ≢ y.1) xs
    → DistinctHashes xs
    → DistinctHashes (insert_by_time x xs)
unfolding insert_by_time
insert_by_time-DistinctHashes x [] a d = (tt, tt)
insert_by_time-DistinctHashes x (y ∷ ys) a d = elim (Bool-cases (pair_leb x y)) [
  | inl b ↦ rw b (a, d)
  | inr b ↦ rw b (
    insert_by_time-All (λ z. y.1 ≢ z.1) x ys (λ e. a.0 (sym e)) d.0,
    insert_by_time-DistinctHashes x ys a.1 d.1,
  )
]

pub sort-DistinctHashes :
    (xs : List (ℕ × ℕ)) → DistinctHashes xs → DistinctHashes (sort_by_timestamp xs)
unfolding sort_by_timestamp
sort-DistinctHashes [] d = tt
sort-DistinctHashes (x ∷ xs) d =
    insert_by_time-DistinctHashes x (sort_by_timestamp xs) (sort-All (λ y. x.1 ≢ y.1) xs d.0)
      (sort-DistinctHashes xs d.1)

-- The hashes of two lists have none in common.
abbrev Apart : List (ℕ × ℕ) → List (ℕ × ℕ) → Type 0
Apart xs ys = All (λ x. All (λ y. x.1 ≢ y.1) ys) xs

Apart-push :
    (x : ℕ × ℕ) (xs ys : List (ℕ × ℕ)) → All (λ y. x.1 ≢ y.1) xs → Apart xs ys → Apart xs (x ∷ ys)
Apart-push x [] ys a b = tt
Apart-push x (z ∷ xs) ys a b = ((λ e. a.0 (sym e), b.0), Apart-push x xs ys a.1 b.1)

reverse_aux-DistinctHashes :
    (xs ys : List (ℕ × ℕ))
    → DistinctHashes xs
    → DistinctHashes ys
    → Apart xs ys
    → DistinctHashes (reverse_aux xs ys)
reverse_aux-DistinctHashes [] ys d d' a = d'
reverse_aux-DistinctHashes (x ∷ xs) ys d d' a =
    reverse_aux-DistinctHashes xs (x ∷ ys) d.1 (a.0, d') (Apart-push x xs ys d.0 a.1)

Apart-nil : (xs : List (ℕ × ℕ)) → Apart xs []
Apart-nil [] = tt
Apart-nil (x ∷ xs) = (tt, Apart-nil xs)

pub reverse-DistinctHashes : (xs : List (ℕ × ℕ)) → DistinctHashes xs → DistinctHashes (reverse xs)
reverse-DistinctHashes xs d = reverse_aux-DistinctHashes xs [] d tt (Apart-nil xs)

insert_by_time-Ascending :
    (x : ℕ × ℕ) (xs : List (ℕ × ℕ)) → Ascending xs → Ascending (insert_by_time x xs)
unfolding insert_by_time
insert_by_time-Ascending x [] a = (tt, tt)
insert_by_time-Ascending x (y ∷ ys) a = elim (Bool-cases (pair_leb x y)) [
  | inl b ↦
      let le : x.0 ≤ y.0 = ground (arith, b) in
      rw b ((le, All-map (λ z. y.0 ≤ z.0) (λ z. x.0 ≤ z.0) ys (λ z h. omega (arith, le, h)) a.0), a)
  | inr b ↦ rw b (
    insert_by_time-All (λ z. y.0 ≤ z.0) x ys (ground (arith, b)) a.0,
    insert_by_time-Ascending x ys a.1,
  )
]

pub sort-Ascending : (xs : List (ℕ × ℕ)) → Ascending (sort_by_timestamp xs)
unfolding sort_by_timestamp
sort-Ascending [] = tt
sort-Ascending (x ∷ xs) = insert_by_time-Ascending x (sort_by_timestamp xs) (sort-Ascending xs)
