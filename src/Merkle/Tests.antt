-- ===== src/Merkle/Tests.antt =====
-- A tree of three leaves, and the theorem about branches at it.
use montecoin.Prelude.{ℕ, ◌+◌, ◌*◌, ◌≡◌, refl, [], ◌∷◌, arith}
use montecoin.Prelude.Int.{pos}
use montecoin.Merkle.{
  root, build_merkle_tree, push_levels, push_pairs, check_merkle_branch, get_merkle_branch,
  branch_loop,
}
use montecoin.Merkle.Branch.{check_merkle_branch-get_merkle_branch}

-- Not symmetric, so that the order of a pair is seen.
abbrev toy_hash : ℕ → ℕ → ℕ
toy_hash a b = 10 * a + 3 * b + 1

-- The last node of an odd level is paired with itself.
tree_of_three : build_merkle_tree toy_hash (4 ∷ 5 ∷ 6 ∷ []) ≡ 4 ∷ 5 ∷ 6 ∷ 56 ∷ 79 ∷ 798 ∷ []
unfolding build_merkle_tree push_levels push_pairs
tree_of_three = refl

branch_of_third : get_merkle_branch toy_hash (4 ∷ 5 ∷ 6 ∷ []) [] 2 ≡ 6 ∷ 56 ∷ []
unfolding get_merkle_branch branch_loop build_merkle_tree push_levels push_pairs
branch_of_third = refl

check_merkle_branch-get_merkle_branch_example :
    (check_merkle_branch toy_hash 6 (get_merkle_branch toy_hash (4 ∷ 5 ∷ 6 ∷ []) [] 2) (pos 2)
      ≡ root (build_merkle_tree toy_hash (4 ∷ 5 ∷ 6 ∷ [])))
    × (check_merkle_branch toy_hash 6
          (get_merkle_branch toy_hash
            (4 ∷ 5 ∷ 6 ∷ [])
            (build_merkle_tree toy_hash (4 ∷ 5 ∷ 6 ∷ []))
            2)
          (pos 2)
        ≡ root (build_merkle_tree toy_hash (4 ∷ 5 ∷ 6 ∷ [])))
check_merkle_branch-get_merkle_branch_example =
    check_merkle_branch-get_merkle_branch toy_hash (4 ∷ 5 ∷ 6 ∷ []) 2 (omega arith)
