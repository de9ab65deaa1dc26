-- ===== src/Kernel/Modifier.antt =====
-- `ComputeNextStakeModifier` of src/kernel.cpp as a whole.
use montecoin.Prelude.{
  ℕ, ◌/◌, ◌≡◌, ◌≢◌, refl, Bool, true, false, List, [], ◌∷◌, some, length, leb, arith, Bool-cases,
  inl, inr,
}
use mathlib.Core.List.{reverse}
use Prim.Native.Nat.{min}
use montecoin.Prelude.Int.{ℤ, pos, leb_ℤ}
use montecoin.Kernel.{
  KernelBlock, KernelEnv, get_last_stake_modifier, sort_by_timestamp, candidates, selection_start,
  new_stake_modifier, compute_next_stake_modifier,
}
use montecoin.Kernel.Sorted.{
  All, DistinctHashes, sort-All, reverse_aux-All, sort-DistinctHashes, reverse-DistinctHashes,
}
use montecoin.Kernel.Select.{Indexed}
use montecoin.Kernel.Rounds.{unselected-nil, round_loop_total}

-- The blocks of a chain have different hashes.
abbrev pub DistinctBlocks : List KernelBlock → Type 0
DistinctBlocks [] = Unit {0}
DistinctBlocks (b ∷ chain) = All (λ c. b.hash_block ≢ c.hash_block) chain × DistinctBlocks chain

module _ (env : KernelEnv) where
  -- The blocks are in the index under their hashes.
  abbrev pub InIndex : List KernelBlock → Type 0
  InIndex chain = All (λ b. env.map_block_index b.hash_block ≡ some b) chain

  candidates-Indexed :
      (start : ℤ) (chain : List KernelBlock)
      → InIndex chain
      → All (Indexed env) (candidates start chain)
  unfolding candidates
  candidates-Indexed start [] i = tt
  candidates-Indexed start (b ∷ chain) i = elim (Bool-cases (leb_ℤ start (pos b.n_time))) [
    | inl c ↦ rw c ((b, i.0, refl, refl), candidates-Indexed start chain i.1)
    | inr c ↦ rw c tt
  ]

  candidates-apart :
      (start : ℤ) (h : ℕ) (chain : List KernelBlock)
      → All (λ c. h ≢ c.hash_block) chain
      → All (λ y. h ≢ y.1) (candidates start chain)
  unfolding candidates
  candidates-apart start h [] a = tt
  candidates-apart start h (b ∷ chain) a = elim (Bool-cases (leb_ℤ start (pos b.n_time))) [
    | inl c ↦ rw c (a.0, candidates-apart start h chain a.1)
    | inr c ↦ rw c tt
  ]

  candidates-DistinctHashes :
      (start : ℤ) (chain : List KernelBlock)
      → DistinctBlocks chain
      → DistinctHashes (candidates start chain)
  unfolding candidates
  candidates-DistinctHashes start [] d = tt
  candidates-DistinctHashes start (b ∷ chain) d = elim (Bool-cases (leb_ℤ start (pos b.n_time))) [
    | inl c ↦
        rw c
          (candidates-apart start b.hash_block chain d.0, candidates-DistinctHashes start chain d.1)
    | inr c ↦ rw c tt
  ]

  new_stake_modifier_total :
      (b : KernelBlock) (chain : List KernelBlock) (prev : ℕ)
      → InIndex (b ∷ chain)
      → DistinctBlocks (b ∷ chain)
      → (m : ℕ) × (new_stake_modifier env b chain prev ≡ some m)
  unfolding new_stake_modifier
  new_stake_modifier_total b chain prev i d =
      let start = selection_start env b.n_time in
      let found = candidates start (b ∷ chain) in
      let sorted = sort_by_timestamp (reverse found) in
      let all =
        sort-All (Indexed env) (reverse found)
          (reverse_aux-All (Indexed env) found [] (candidates-Indexed start (b ∷ chain) i) tt) in
      let distinct =
        sort-DistinctHashes (reverse found)
          (reverse-DistinctHashes found (candidates-DistinctHashes start (b ∷ chain) d)) in
      round_loop_total env sorted prev (min 64 (length sorted)) 0 start [] 0 all distinct
        (rw (unselected-nil sorted) (omega arith))

  -- The next modifier is found for every chain with a block that has generated one, whose blocks are in
  -- the index and have different hashes: no round is without a block to select.
  pub compute_next_stake_modifier_total :
      (b : KernelBlock) (chain : List KernelBlock) (last : ℕ × ℕ)
      → InIndex (b ∷ chain)
      → DistinctBlocks (b ∷ chain)
      → get_last_stake_modifier (b ∷ chain) ≡ some last
      → (m : ℕ) × (f : Bool) × (compute_next_stake_modifier env (b ∷ chain) ≡ some (m, f))
  unfolding compute_next_stake_modifier
  compute_next_stake_modifier_total b chain last i d h =
      let (m, e) = new_stake_modifier_total b chain last.0 i d in
      elim (Bool-cases
        (leb (b.n_time / env.n_modifier_interval) (last.1 / env.n_modifier_interval))) [
          | inl c ↦ (last.0, false, rw (h, c) refl)
          | inr c ↦ (m, true, rw (h, c, e) refl)
        ]
