-- ===== src/Merkle/Branch.antt =====
-- The branch of a leaf leads to the root: `GetMerkleBranch` and `CheckMerkleBranch` of src/main.h.
use montecoin.Prelude.{
  ℕ, zero, suc, ◌+◌, ◌-◌, ◌*◌, ◌/◌, ◌%◌, ◌≤◌, ◌<◌, ◌≡◌, refl, sym, ap, ◌∙◌, Bool, true, false, List,
  [], ◌∷◌, length, get_or, ltb, ◌==◌, if◌then◌else◌, arith, Bool-cases, inl, inr,
}
use montecoin.Prelude.Int.{pos}
use montecoin.Merkle.{
  root, is_odd, sibling, build_merkle_tree, push_levels, check_loop, check_merkle_branch,
  branch_loop, get_merkle_branch,
}
use montecoin.Merkle.Tree.{HasPairs, IsTree, push_levels_lem}
use Prim.Native.Nat.{min}

module _ (hash : ℕ → ℕ → ℕ) where
  -- A node and its sibling give the node above them, in the order that the index tells.
  climb :
      (tree : List ℕ) (j n_size i : ℕ)
      → ltb 1 n_size ≡ true
      → i < n_size
      → HasPairs hash tree j n_size 0
      → (if is_odd (pos i)
          then hash (get_or tree (j + min (sibling i) (n_size - 1)) 0) (get_or tree (j + i) 0)
          else hash (get_or tree (j + i) 0) (get_or tree (j + min (sibling i) (n_size - 1)) 0))
        ≡ get_or tree (j + n_size + i / 2) 0
  climb tree j n_size i c b p = elim (Bool-cases (i % 2 == 1)) [
    | inl odd ↦
        let e₁ : min (sibling i) (n_size - 1) ≡ 2 * (i / 2) = ground arith in
        let e₂ : i ≡ min (2 * (i / 2) + 1) (n_size - 1) = ground arith in
        rw odd (sym (up (min (sibling i) (n_size - 1)) i e₁ e₂))
    | inr even ↦
        let e₁ : min (sibling i) (n_size - 1) ≡ min (2 * (i / 2) + 1) (n_size - 1) = ground arith in
        let e₂ : i ≡ 2 * (i / 2) = ground arith in
        rw even (sym (up i (min (sibling i) (n_size - 1)) e₂ e₁))
  ]
    where
      up :
          (x y : ℕ)
          → x ≡ 2 * (i / 2)
          → y ≡ min (2 * (i / 2) + 1) (n_size - 1)
          → get_or tree (j + n_size + i / 2) 0
            ≡ hash (get_or tree (j + x) 0) (get_or tree (j + y) 0)
      up x y ex ey = rw (ex, ey) (p (i / 2) (omega arith) (omega arith))

  check_loop-branch_loop :
      (tree : List ℕ) (fuel n_size j i : ℕ)
      → n_size ≤ fuel
      → i < n_size
      → IsTree hash tree fuel n_size j
      → check_loop hash (get_or tree (j + i) 0) (branch_loop tree fuel n_size j i) (pos i)
        ≡ root tree
  unfolding check_loop branch_loop
  check_loop-branch_loop tree zero n_size j i f b t = absurd (omega arith)
  check_loop-branch_loop tree (suc fuel) n_size j i f b t = elim (Bool-cases (ltb 1 n_size)) [
    | inl e ↦
        let s = t.0 e in
        let ih =
          check_loop-branch_loop tree fuel ((n_size + 1) / 2) (j + n_size) (i / 2) (ground arith)
            (ground arith) s.1 in
        let rest = branch_loop tree fuel ((n_size + 1) / 2) (j + n_size) (i / 2) in
        let first : branch_loop tree (suc fuel) n_size j i
            ≡ get_or tree (j + min (sibling i) (n_size - 1)) 0 ∷ rest =
          rw e refl in
        ap (λ x. check_loop hash (get_or tree (j + i) 0) x (pos i)) first
        ∙ ap (λ x. check_loop hash x rest (pos (i / 2))) (climb tree j n_size i e b s.0)
        ∙ ih
    | inr e ↦
        let l = t.1 e in
        let at : j + i ≡ length tree - 1 = ground (arith, l, e) in
        rw e (ap (λ x. get_or tree x 0) at)
  ]

  -- For every transaction of a block, the hashes that `GetMerkleBranch` gives lead `CheckMerkleBranch`
  -- from the hash of the transaction to the root that `BuildMerkleTree` returns, whatever the hash of
  -- a pair is, and whether the tree was built before or not.
  pub check_merkle_branch-get_merkle_branch :
      (hashes : List ℕ) (i : ℕ)
      → i < length hashes
      → (check_merkle_branch hash (get_or hashes i 0) (get_merkle_branch hash hashes [] i) (pos i)
          ≡ root (build_merkle_tree hash hashes))
        × (check_merkle_branch hash
              (get_or hashes i 0)
              (get_merkle_branch hash hashes (build_merkle_tree hash hashes) i)
              (pos i)
            ≡ root (build_merkle_tree hash hashes))
  unfolding check_merkle_branch get_merkle_branch build_merkle_tree
  check_merkle_branch-get_merkle_branch hashes i b =
      let l = push_levels_lem hash (length hashes) (length hashes) 0 hashes (omega arith) in
      let t = push_levels hash (length hashes) (length hashes) 0 hashes in
      let start : check_loop hash (get_or t (0 + i) 0)
            (branch_loop t (length hashes) (length hashes) 0 i) (pos i)
          ≡ root t =
        check_loop-branch_loop t (length hashes) (length hashes) 0 i (omega arith) b l.1 in
      let zero_plus : 0 + i ≡ i = omega arith in
      let r = rw (zero_plus, l.0 i b) at start in (r, rw (if_same (length t == 0) t) r)
    where
      if_same : (c : Bool) (x : List ℕ) → (if c then x else x) ≡ x
      if_same true x = refl
      if_same false x = refl
