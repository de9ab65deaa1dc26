-- ===== src/Chain/Majority.antt =====
-- `CBlockIndex::IsSuperMajority` of src/main.cpp stops early and answers all the same.
use montecoin.Prelude.{
  ℕ, zero, suc, ◌+◌, ◌≡◌, [], ◌∷◌, take, ltb, leb, if◌then◌else◌, arith, Bool-cases, inl, inr,
}
use montecoin.Prelude.Int.{ℤ, leb_ℤ}
use montecoin.Chain.{Chain, majority_loop, is_super_majority}

-- The number of blocks of a version or above.
unfoldable pub count_versions : ℤ → Chain → ℕ
count_versions v [] = 0
count_versions v (b ∷ c) =
    if leb_ℤ v b.n_version then count_versions v c + 1 else count_versions v c

majority_loop_lem :
    (v : ℤ) (r n k : ℕ) (c : Chain)
    → leb r (majority_loop v r n k c) ≡ leb r (k + count_versions v (take n c))
unfolding majority_loop count_versions
majority_loop_lem v r zero k c = ground arith
majority_loop_lem v r (suc n) k [] = ground arith
majority_loop_lem v r (suc n) k (b ∷ c) =
    let old = majority_loop_lem v r n k c in
    let new = majority_loop_lem v r n (k + 1) c in
    elim (Bool-cases (ltb k r)) [
      | inr p ↦ elim (Bool-cases (leb_ℤ v b.n_version)) [
        | inl q ↦ rw (p, q) (ground (arith, p))
        | inr q ↦ rw (p, q) (ground (arith, p))
      ]
      | inl p ↦ elim (Bool-cases (leb_ℤ v b.n_version)) [
        | inl q ↦ rw (p, q) (ground (arith, new))
        | inr q ↦ rw (p, q) old
      ]
    ]

-- The test holds exactly if, of the last blocks that are to be looked at, at least the required number
-- has the version or a higher one.
is_super_majority_lem :
    (v : ℤ) (pstart : Chain) (n_required n_to_check : ℕ)
    → is_super_majority v pstart n_required n_to_check
      ≡ leb n_required (count_versions v (take n_to_check pstart))
unfolding is_super_majority
is_super_majority_lem v c r n = let e = majority_loop_lem v r n 0 c in ground (arith, e)
