-- ===== src/Chain/Tests.antt =====
-- Small chains, and the theorems at them.
use montecoin.Prelude.{
  ℕ, ◌*◌, ◌^◌, ◌≡◌, refl, sym, ap, ◌∙◌, inl, inr, true, false, [], ◌∷◌, ◌++◌, some, arith,
}
use montecoin.Prelude.Int.{ℤ, pos, pos_part, ◌≤ℤ◌, ◌-ℤ◌, ◌+ℤ◌, ◌*ℤ◌}
use montecoin.Prelude.Int64
use Prim.Native.Nat.{min}
use montecoin.Chain.{
  BlockIndex, Chain, find_fork, go_down, list_above, is_super_majority, get_median_time_past,
  locator_set, locator_loop,
}
use montecoin.Chain.Target.{compute_max_bits, max_loop, at_most, days_of, compute_max_bits_lem}
use montecoin.Chain.Retarget.{
  Rule, back_loop, moved_target, from_two, from_last, get_next_target_required,
  get_next_target_required_bounds,
}
use montecoin.Chain.Suffix.{IsSuffix}
use montecoin.Chain.Fork.{HasHeights, Agree, IsFork, find_fork_lem}

abbrev at : ℕ → ℕ → BlockIndex
at hash height = record {
  hash_block = hash;
  n_height = height;
  n_version = pos height;
  n_time = 100 * height;
  n_bits = 0;
  is_proof_of_stake = false;
}

-- Two blocks over the first, and another one over it.
abbrev test_best : Chain
test_best = at 3 1 ∷ at 1 0 ∷ []

abbrev test_new : Chain
test_new = at 5 2 ∷ at 4 1 ∷ at 1 0 ∷ []

fork_is_first : find_fork test_best test_new ≡ some (at 1 0 ∷ [])
unfolding find_fork go_down
fork_is_first = refl

to_connect : list_above (at 1 0 ∷ []) test_new ≡ at 5 2 ∷ at 4 1 ∷ []
unfolding list_above
to_connect = refl

-- Of an even number of times the later one of the two in the middle.
median_of_three : get_median_time_past test_new ≡ pos 100
unfolding get_median_time_past montecoin.Median.sort montecoin.Median.insert_sorted
median_of_three = refl

locator_of_three : locator_set 1 test_new ≡ 5 ∷ 4 ∷ 1 ∷ 1 ∷ []
unfolding locator_set locator_loop
locator_of_three = refl

test_best-HasHeights : HasHeights test_best
unfolding HasHeights
test_best-HasHeights = (refl, (refl, tt))

test_new-HasHeights : HasHeights test_new
unfolding HasHeights
test_new-HasHeights = (refl, (refl, (refl, tt)))

abbrev hash_of : Chain → ℕ
hash_of [] = 0
hash_of (b ∷ c) = b.hash_block

-- Two chains with heads of different hashes.
apart : (c d s t : Chain) → c ≡ s → d ≡ t → hash_of c ≡ hash_of d → (hash_of s ≡ hash_of t)
apart c d s t p q e = sym (ap hash_of p) ∙ e ∙ ap hash_of q

test-Agree : Agree test_best test_new
unfolding Agree IsSuffix
test-Agree a b c d (inl p) (inl q) e = absurd (omega (arith, apart _ _ _ _ p q e))
test-Agree a b c d (inl p) (inr (inl q)) e = absurd (omega (arith, apart _ _ _ _ p q e))
test-Agree a b c d (inl p) (inr (inr (inl q))) e = absurd (omega (arith, apart _ _ _ _ p q e))
test-Agree a b c d (inl p) (inr (inr (inr q))) e = cc
test-Agree a b c d (inr (inl p)) (inl q) e = absurd (omega (arith, apart _ _ _ _ p q e))
test-Agree a b c d (inr (inl p)) (inr (inl q)) e = absurd (omega (arith, apart _ _ _ _ p q e))
test-Agree a b c d (inr (inl p)) (inr (inr (inl q))) e = p ∙ sym q
test-Agree a b c d (inr (inl p)) (inr (inr (inr q))) e = cc
test-Agree a b c d (inr (inr p)) q e = cc

test_best-IsSuffix : IsSuffix (at 1 0 ∷ []) test_best
unfolding IsSuffix
test_best-IsSuffix = inr (inl refl)

test_new-IsSuffix : IsSuffix (at 1 0 ∷ []) test_new
unfolding IsSuffix
test_new-IsSuffix = inr (inr (inl refl))

find_fork_lem_example :
    (fork : Chain) × (find_fork test_best test_new ≡ some fork)
    × IsFork test_best test_new fork
    × (list_above fork test_best ++ fork ≡ test_best)
    × (list_above fork test_new ++ fork ≡ test_new)
find_fork_lem_example =
    find_fork_lem test_best test_new (at 1 0) test_best-HasHeights test_new-HasHeights test-Agree
      test_best-IsSuffix test_new-IsSuffix

two_of_three : is_super_majority (pos 1) test_new 2 3 ≡ true
unfolding is_super_majority montecoin.Chain.majority_loop
two_of_three = refl

-- Numbers stand for their own bits.
two_days : compute_max_bits (λ n. pos n) pos_part (pos 1_000) 5 (pos 100_000) ≡ some 40
unfolding compute_max_bits max_loop Int64.sub Int64.wrap ◌-ℤ◌
two_days = refl

-- Three rounds are enough for two days.
compute_max_bits_lem_example :
    (r : ℤ) × (max_loop 3 (pos 1_000) (pos 100_000) (pos 10) ≡ some r)
    × (at_most (pos 1_000) r ≡ pos (min 1_000 (5 * 2 * 2 ^ days_of (pos 100_000))))
    × (compute_max_bits (λ n. pos n) pos_part (pos 1_000) 5 (pos 100_000)
        ≡ some (min 1_000 (5 * 2 * 2 ^ days_of (pos 100_000))))
compute_max_bits_lem_example =
    compute_max_bits_lem (λ n. pos n) pos_part 1_000 5 5 3 (pos 100_000) refl (omega arith)
      (omega arith)

abbrev test_rule : Rule
test_rule = record {
  target_limit = pos 1_000_000;
  n_target_timespan = 18_000;
  n_target_spacing = 120;
  set_compact = λ n. pos n;
  get_compact = pos_part;
}

-- Blocks that come every 100 seconds, with a target of 5 000.
abbrev block_at : ℕ → BlockIndex
block_at height = record (at height height) { n_bits = 5_000 }

target_falls :
    get_next_target_required test_rule false
      (block_at 3 ∷ block_at 2 ∷ block_at 1 ∷ block_at 0 ∷ [])
    ≡ 4_988
unfolding get_next_target_required montecoin.Chain.get_last_block_index from_last from_two back_loop
    moved_target Int64.sub Int64.add Int64.mul Int64.wrap ◌-ℤ◌ ◌+ℤ◌ ◌*ℤ◌
target_falls = refl

get_next_target_required_bounds_example :
    (target : ℤ) × (get_next_target_required test_rule false
        (block_at 3 ∷ block_at 2 ∷ block_at 1 ∷ block_at 0 ∷ [])
      ≡ pos_part target)
    × (pos 1 ≤ℤ target)
    × (target ≤ℤ pos 1_000_000)
get_next_target_required_bounds_example =
    get_next_target_required_bounds test_rule false
      (block_at 3 ∷ block_at 2 ∷ block_at 1 ∷ block_at 0 ∷ []) (omega arith)
