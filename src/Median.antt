-- ===== src/Median.antt =====
-- The filter that takes the median of the last values, the class CMedianFilter of src/util.h, at the
-- type int64. `std::sort` is an insertion sort.
pub mod Sorted
pub mod Middle
mod Tests
use montecoin.Prelude.{
  ℕ, suc, ◌+◌, ◌-◌, ◌*◌, ◌/◌, ◌%◌, Bool, true, false, List, [], ◌∷◌, ◌++◌, Option, none, some,
  length, drop, get_elem?, ◌==◌, if◌then◌else◌,
}
use montecoin.Prelude.Int.{ℤ, leb_ℤ}
use montecoin.Prelude.Int64
use montecoin.Reward.{tdiv}

pub record MedianFilter : Type 0 where
  pub v_values : List ℤ
  pub v_sorted : List ℤ
  pub n_size : ℕ

unfoldable pub insert_sorted : ℤ → List ℤ → List ℤ
insert_sorted x [] = x ∷ []
insert_sorted x (y ∷ ys) = if leb_ℤ x y then x ∷ y ∷ ys else y ∷ insert_sorted x ys

unfoldable pub sort : List ℤ → List ℤ
sort [] = []
sort (x ∷ xs) = insert_sorted x (sort xs)

unfoldable pub new : ℕ → ℤ → MedianFilter
new size initial_value = record {
  v_values = initial_value ∷ [];
  v_sorted = initial_value ∷ [];
  n_size = size;
}

unfoldable pub input : ℤ → MedianFilter → MedianFilter
input value f =
    let kept = (if length f.v_values == f.n_size then drop 1 f.v_values else f.v_values) in
    record f { v_values = kept ++ value ∷ []; v_sorted = sort (kept ++ value ∷ []) }

-- `none` is the failure of the assertion.
unfoldable pub median : MedianFilter → Option ℤ
median f =
    let size = length f.v_sorted in
    if size == 0
    then none
    else if size % 2 == 1
    then get_elem? f.v_sorted (size / 2)
    else elim (get_elem? f.v_sorted (size / 2 - 1)) [
      | none ↦ none
      | some a ↦ elim (get_elem? f.v_sorted (size / 2)) [
        | none ↦ none
        | some b ↦ some (tdiv (Int64.add a b) 2)
      ]
    ]
