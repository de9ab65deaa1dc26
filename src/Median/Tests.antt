-- ===== src/Median/Tests.antt =====
-- The filter of the heights that five peers tell.
use montecoin.Prelude.{◌*◌, ◌<◌, ◌≡◌, refl, [], ◌∷◌, ◌++◌, some, drop, arith}
use montecoin.Prelude.Int.{ℤ, pos}
use montecoin.Median.{MedianFilter, sort, insert_sorted, input, median}
use montecoin.Median.Sorted.{below, above}
use montecoin.Median.Middle.{IsValid, input-IsValid, median_middle}

abbrev heights : MedianFilter
heights = record {
  v_values = pos 9 ∷ pos 2 ∷ pos 7 ∷ pos 5 ∷ pos 7 ∷ [];
  v_sorted = pos 2 ∷ pos 5 ∷ pos 7 ∷ pos 7 ∷ pos 9 ∷ [];
  n_size = 5;
}

heights-IsValid : IsValid heights
unfolding sort insert_sorted
heights-IsValid = record { some_values = omega arith; not_too_many = omega arith; sorted = refl }

input-IsValid_example :
    IsValid (input (pos 1) heights)
    × ((input (pos 1) heights).n_size ≡ 5)
    × ((input (pos 1) heights).v_values ≡ drop 1 (heights.v_values ++ pos 1 ∷ []))
input-IsValid_example = input-IsValid (pos 1) heights heights-IsValid

median_middle_example :
    (m : ℤ) × (median heights ≡ some m)
    × (2 * below m heights.v_values < 5)
    × (2 * above m heights.v_values < 5)
median_middle_example = median_middle heights heights-IsValid refl
