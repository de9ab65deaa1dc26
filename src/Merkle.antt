-- ===== src/Merkle.antt =====
-- The Merkle tree of a block: `CBlock::BuildMerkleTree`, `GetMerkleBranch` and `CheckMerkleBranch` of
-- src/main.h. The hash of a pair of nodes is a parameter. A read out of bounds gives 0; the theorems
-- are about reads in bounds.
pub mod Tree
pub mod Branch
mod Tests
use montecoin.Prelude.{
  ℕ, zero, suc, ◌+◌, ◌-◌, ◌*◌, ◌/◌, ◌%◌, ◌≡◌, Bool, true, false, not, List, [], ◌∷◌, ◌++◌, length,
  get_or, ltb, ◌==◌, if◌then◌else◌,
}
use montecoin.Prelude.Int.{ℤ, pos, negsuc}
use Prim.Native.Nat.{min}

-- The last element of the tree, or 0.
abbrev pub root : List ℕ → ℕ
root tree = get_or tree (length tree - 1) 0

abbrev pub is_odd : ℤ → Bool
is_odd (pos n) = n % 2 == 1
is_odd (negsuc n) = n % 2 == 0

-- `nIndex >>= 1`
abbrev pub half : ℤ → ℤ
half (pos n) = pos (n / 2)
half (negsuc n) = negsuc (n / 2)

-- `nIndex ^ 1`, for an index that is not negative.
abbrev pub sibling : ℕ → ℕ
sibling n = if n % 2 == 0 then n + 1 else n - 1

module _ (hash : ℕ → ℕ → ℕ) where
  -- The inner loop of `BuildMerkleTree`, from `i` on, on fuel.
  unfoldable pub push_pairs : ℕ → ℕ → ℕ → ℕ → List ℕ → List ℕ
  push_pairs zero j n_size i tree = tree
  push_pairs (suc fuel) j n_size i tree =
      let i2 = min (i + 1) (n_size - 1) in
      let rest =
        push_pairs fuel j n_size (i + 2)
          (tree ++ hash (get_or tree (j + i) 0) (get_or tree (j + i2) 0) ∷ []) in
      if ltb i n_size then rest else tree

  -- The outer loop, on fuel.
  unfoldable pub push_levels : ℕ → ℕ → ℕ → List ℕ → List ℕ
  push_levels zero n_size j tree = tree
  push_levels (suc fuel) n_size j tree =
      let rest =
        push_levels fuel ((n_size + 1) / 2) (j + n_size) (push_pairs n_size j n_size 0 tree) in
      if ltb 1 n_size then rest else tree

  -- The tree of the hashes of the transactions, which is left in `vMerkleTree`.
  unfoldable pub build_merkle_tree : List ℕ → List ℕ
  build_merkle_tree hashes = push_levels (length hashes) (length hashes) 0 hashes

  -- The loop of `CheckMerkleBranch`.
  unfoldable pub check_loop : ℕ → List ℕ → ℤ → ℕ
  check_loop h [] n_index = h
  check_loop h (other ∷ branch) n_index =
      check_loop (if is_odd n_index then hash other h else hash h other) branch (half n_index)

  unfoldable pub check_merkle_branch : ℕ → List ℕ → ℤ → ℕ
  check_merkle_branch h branch (negsuc zero) = 0
  check_merkle_branch h branch (negsuc (suc n)) = check_loop h branch (negsuc (suc n))
  check_merkle_branch h branch (pos n) = check_loop h branch (pos n)

-- The loop of `GetMerkleBranch`, on fuel.
unfoldable pub branch_loop : List ℕ → ℕ → ℕ → ℕ → ℕ → List ℕ
branch_loop tree zero n_size j n_index = []
branch_loop tree (suc fuel) n_size j n_index =
    let rest = branch_loop tree fuel ((n_size + 1) / 2) (j + n_size) (n_index / 2) in
    if ltb 1 n_size then get_or tree (j + min (sibling n_index) (n_size - 1)) 0 ∷ rest else []

-- `tree` is `vMerkleTree`, which is built if it is empty; `hashes` are those of the transactions.
unfoldable pub get_merkle_branch : (ℕ → ℕ → ℕ) → List ℕ → List ℕ → ℕ → List ℕ
get_merkle_branch hash hashes tree n_index =
    let tree' = (if length tree == 0 then build_merkle_tree hash hashes else tree) in
    branch_loop tree' (length hashes) (length hashes) 0 n_index
