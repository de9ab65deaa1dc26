-- ===== src/Median/Middle.antt =====
-- What the filter of src/util.h holds, and where its median lies.
use montecoin.Prelude.{
  ◌+◌, ◌-◌, ◌*◌, ◌/◌, ◌%◌, ◌≤◌, ◌<◌, ◌≡◌, refl, sym, ap, ◌∙◌, true, false, List, [], ◌∷◌, ◌++◌,
  some, length, drop, ◌==◌, arith, Bool-cases, inl, inr, length-append, length-drop, get_elem?-some,
}
use mathlib.Core.Path.{subst}
use montecoin.Prelude.Int
use montecoin.Prelude.Int.{ℤ}
use montecoin.Median.{MedianFilter, sort, input, median}
use montecoin.Median.Sorted.{IsSorted, below, above, sort-counts, sort-IsSorted, middle_counts}

-- There are between one value and the size of the filter, and the sorted values are these in order.
pub record IsValid (f : MedianFilter) : Type 0 where
  pub some_values : 1 ≤ length f.v_values
  pub not_too_many : length f.v_values ≤ f.n_size
  pub sorted : f.v_sorted ≡ sort f.v_values

drop_first : (xs : List ℤ) (x : ℤ) → 1 ≤ length xs → drop 1 xs ++ x ∷ [] ≡ drop 1 (xs ++ x ∷ [])
drop_first [] x h = absurd (omega arith)
drop_first (y ∷ ys) x h = refl

-- An input into a valid filter leaves a valid one of the same size, which holds the last values: all that
-- it held and the new one, without the oldest if it was full.
pub input-IsValid :
    (value : ℤ) (f : MedianFilter)
    → IsValid f
    → IsValid (input value f)
      × ((input value f).n_size ≡ f.n_size)
      × ((input value f).v_values
          ≡ drop (length f.v_values + 1 - f.n_size) (f.v_values ++ value ∷ []))
unfolding input
input-IsValid value f v = elim (Bool-cases (length f.v_values == f.n_size)) [
  | inl e ↦
      let full : length f.v_values + 1 - f.n_size ≡ 1 = ground (arith, e) in
      rw (e, full)
        (
          record {
            some_values = omega (arith, length-append (drop 1 f.v_values) (value ∷ []));
            not_too_many =
                let e' : length f.v_values ≡ f.n_size = ground (arith, e) in
                omega (
                  arith,
                  e',
                  v.some_values,
                  length-append (drop 1 f.v_values) (value ∷ []),
                  length-drop 1 f.v_values,
                );
            sorted = refl;
          },
          refl,
          drop_first f.v_values value v.some_values,
        )
  | inr e ↦
      let room : length f.v_values + 1 - f.n_size ≡ 0 = ground (arith, e, v.not_too_many) in
      rw (e, room)
        (
          record {
            some_values = omega (arith, length-append f.v_values (value ∷ []));
            not_too_many =
                let less : length f.v_values + 1 ≤ f.n_size = ground (arith, e, v.not_too_many) in
                omega (arith, less, length-append f.v_values (value ∷ []));
            sorted = refl;
          },
          refl,
          refl,
        )
]

-- Of an odd number of values in a valid filter, the median is one with less than half of them below
-- it and less than half above.
pub median_middle :
    (f : MedianFilter)
    → IsValid f
    → length f.v_values % 2 ≡ 1
    → (m : ℤ) × (median f ≡ some m)
      × (2 * below m f.v_values < length f.v_values)
      × (2 * above m f.v_values < length f.v_values)
unfolding median
median_middle f v odd =
    let len : length f.v_sorted ≡ length f.v_values =
      ap length v.sorted ∙ (sort-counts (Int.pos 0) f.v_values).2 in
    let (m, at) = get_elem?-some f.v_sorted (length f.v_sorted / 2) (ground (arith, len, odd)) in
    let full : (length f.v_sorted == 0) ≡ false = ground (arith, len, odd) in
    let odd' : (length f.v_sorted % 2 == 1) ≡ true = ground (arith, len, odd) in
    let s = subst IsSorted (sym v.sorted) (sort-IsSorted f.v_values) in
    let c = middle_counts f.v_sorted (length f.v_sorted / 2) s at in
    let b : below m f.v_sorted ≡ below m f.v_values =
      ap (below m) v.sorted ∙ (sort-counts m f.v_values).0 in
    let a : above m f.v_sorted ≡ above m f.v_values =
      ap (above m) v.sorted ∙ (sort-counts m f.v_values).1 in
    (m, rw (full, odd') at, omega (arith, c.0, b, len, odd), omega (arith, c.1, a, len, odd))
