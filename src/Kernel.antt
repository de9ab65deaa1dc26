-- ===== src/Kernel.antt =====
-- The stake modifier of src/kernel.cpp: `GetLastStakeModifier`, `SelectBlockFromCandidates`,
-- `ComputeNextStakeModifier` and `GetKernelStakeModifier`. A pointer to a block of the index is the list
-- of the blocks from there back to the first.
pub mod Sorted
pub mod Select
pub mod Rounds
pub mod Modifier
pub mod Bits
mod Tests
use montecoin.Prelude.{
  ℕ, zero, suc, ◌+◌, ◌-◌, ◌*◌, ◌/◌, ◌%◌, ◌^◌, Bool, true, false, not, ◌&&◌, ◌||◌, List, [], ◌∷◌,
  Option, none, some, length, ltb, leb, ◌==◌, if◌then◌else◌, nat_key,
}
use mathlib.Core.List.{reverse}
use montecoin.Prelude.Int.{ℤ, pos, ltb_ℤ, leb_ℤ}
use montecoin.Prelude.Int64
use montecoin.Prelude.Dict
use montecoin.Prelude.Dict.{Dict}
use Prim.Native.Nat.{bit_or, min}

-- The fields of `CBlockIndex` that are read here; `stake_entropy_bit` is `GetStakeEntropyBit`.
pub record KernelBlock : Type 0 where
  pub hash_block : ℕ
  pub n_height : ℕ
  pub n_time : ℕ
  pub n_stake_modifier : ℕ
  pub generated_stake_modifier : Bool
  pub is_proof_of_stake : Bool
  pub hash_proof_of_stake : ℕ
  pub stake_entropy_bit : Bool

-- The parameters of the network, the map of blocks by their hash, and the hash of a proof with a
-- modifier (`Hash` on the two serialized).
pub record KernelEnv : Type 0 where
  pub n_modifier_interval : ℕ
  pub map_block_index : ℕ → Option KernelBlock
  pub hash_with : ℕ → ℕ → ℕ

abbrev pub modifier_interval_ratio : ℕ
modifier_interval_ratio = 3

-- `GetLastStakeModifier`: the modifier and the time of the block that generated it; the loop stops at
-- the first block of the chain.
unfoldable pub get_last_stake_modifier : List KernelBlock → Option (ℕ × ℕ)
get_last_stake_modifier [] = none
get_last_stake_modifier (b ∷ []) =
    if b.generated_stake_modifier then some (b.n_stake_modifier, b.n_time) else none
get_last_stake_modifier (b ∷ p ∷ chain) =
    let rest = get_last_stake_modifier (p ∷ chain) in
    if b.generated_stake_modifier then some (b.n_stake_modifier, b.n_time) else rest

-- `GetStakeModifierSelectionIntervalSection`, for sections below 64, as an unsigned int.
abbrev pub selection_interval_section : ℕ → ℕ → ℕ
selection_interval_section interval n_section =
    interval * 63 % 2 ^ 32 / (63 + (63 - n_section) * (modifier_interval_ratio - 1))

-- The loop of `GetStakeModifierSelectionInterval`, over the sections below `n`.
unfoldable pub sum_sections : ℕ → ℕ → ℕ
sum_sections interval zero = 0
sum_sections interval (suc n) = sum_sections interval n + selection_interval_section interval n

abbrev pub selection_interval : ℕ → ℕ
selection_interval interval = sum_sections interval 64

-- The hash that a candidate is selected by, which proof of stake makes smaller by 32 bits.
abbrev pub hash_selection : KernelEnv → ℕ → KernelBlock → ℕ
hash_selection env n_stake_modifier_prev b =
    if b.is_proof_of_stake
    then env.hash_with b.hash_proof_of_stake n_stake_modifier_prev / 2 ^ 32
    else env.hash_with b.hash_block n_stake_modifier_prev

-- The better one of the block that is selected so far and a candidate.
abbrev pub better : KernelEnv → ℕ → Option KernelBlock → KernelBlock → KernelBlock
better env prev none b = b
better env prev (some best) b =
    if ltb (hash_selection env prev b) (hash_selection env prev best) then b else best

-- Whether the loop ends before a candidate: one is selected, and this one is too late.
abbrev pub stops : ℤ → Option KernelBlock → KernelBlock → Bool
stops stop none b = false
stops stop (some best) b = ltb_ℤ stop (pos b.n_time)

abbrev pub with_block : {A : Type 0} → Option KernelBlock → (KernelBlock → Option A) → Option A
with_block none k = none
with_block (some b) k = k b

-- The loop of `SelectBlockFromCandidates`: `none` is `false`, where a candidate is not in the index or
-- none is selected.
unfoldable pub select_loop :
    KernelEnv → Dict ℕ KernelBlock → ℤ → ℕ → List (ℕ × ℕ) → Option KernelBlock → Option KernelBlock
select_loop env selected stop prev [] best = best
select_loop env selected stop prev ((time, hash) ∷ items) best =
    with_block (env.map_block_index hash) (λ b.
      if stops stop best b
      then best
      else if Dict.contains b.hash_block selected
      then select_loop env selected stop prev items best
      else select_loop env selected stop prev items (some (better env prev best b)))

unfoldable pub select_block_from_candidates :
    KernelEnv → List (ℕ × ℕ) → Dict ℕ KernelBlock → ℤ → ℕ → Option KernelBlock
select_block_from_candidates env sorted selected stop prev =
    select_loop env selected stop prev sorted none

-- `std::sort` on the pairs of times and hashes.
abbrev pub pair_leb : ℕ × ℕ → ℕ × ℕ → Bool
pair_leb a b = ltb a.0 b.0 || a.0 == b.0 && leb a.1 b.1

unfoldable pub insert_by_time : ℕ × ℕ → List (ℕ × ℕ) → List (ℕ × ℕ)
insert_by_time x [] = x ∷ []
insert_by_time x (y ∷ ys) = if pair_leb x y then x ∷ y ∷ ys else y ∷ insert_by_time x ys

unfoldable pub sort_by_timestamp : List (ℕ × ℕ) → List (ℕ × ℕ)
sort_by_timestamp [] = []
sort_by_timestamp (x ∷ xs) = insert_by_time x (sort_by_timestamp xs)

-- The loop that lists the candidates: the blocks back to the first one that is too early.
unfoldable pub candidates : ℤ → List KernelBlock → List (ℕ × ℕ)
candidates start [] = []
candidates start (b ∷ chain) =
    let rest = candidates start chain in
    if leb_ℤ start (pos b.n_time) then (b.n_time, b.hash_block) ∷ rest else []

-- The entropy bit of a block, shifted to the place of a round.
abbrev pub entropy_at : ℕ → KernelBlock → ℕ
entropy_at n_round b = (if b.stake_entropy_bit then 1 else 0) * 2 ^ n_round % 2 ^ 64

module _ (env : KernelEnv) where
  -- The loop over the rounds; the first argument is the number of rounds that are left.
  unfoldable pub round_loop : List (ℕ × ℕ) → ℕ → ℕ → ℕ → ℤ → Dict ℕ KernelBlock → ℕ → Option ℕ
  round_loop sorted prev zero n_round stop selected n_stake_modifier_new = some n_stake_modifier_new
  round_loop sorted prev (suc left) n_round stop selected n_stake_modifier_new =
      let section = selection_interval_section env.n_modifier_interval n_round in
      let stop' = Int64.add stop (pos section) in
      with_block (select_block_from_candidates env sorted selected stop' prev) (λ b.
        round_loop sorted prev left (suc n_round) stop' (Dict.insert b.hash_block b selected)
          (bit_or n_stake_modifier_new (entropy_at n_round b)))

  abbrev pub generated : Option ℕ → Option (ℕ × Bool)
  generated none = none
  generated (some n_stake_modifier) = some (n_stake_modifier, true)

  abbrev pub selection_start : ℕ → ℤ
  selection_start n_time =
      Int64.sub (pos (n_time / env.n_modifier_interval * env.n_modifier_interval))
        (pos (selection_interval env.n_modifier_interval))

  -- The part behind the test of the time, for the block before and its chain.
  unfoldable pub new_stake_modifier : KernelBlock → List KernelBlock → ℕ → Option ℕ
  new_stake_modifier b chain prev =
      let start = selection_start b.n_time in
      let sorted = sort_by_timestamp (reverse (candidates start (b ∷ chain))) in
      round_loop sorted prev (min 64 (length sorted)) 0 start [] 0

  abbrev pub next_from : KernelBlock → List KernelBlock → Option (ℕ × ℕ) → Option (ℕ × Bool)
  next_from b chain none = none
  next_from b chain (some (n_stake_modifier, n_modifier_time)) =
      if leb (b.n_time / env.n_modifier_interval) (n_modifier_time / env.n_modifier_interval)
      then some (n_stake_modifier, false)
      else generated (new_stake_modifier b chain n_stake_modifier)

  -- `ComputeNextStakeModifier`: the modifier, and whether it is a new one.
  unfoldable pub compute_next_stake_modifier : List KernelBlock → Option (ℕ × Bool)
  compute_next_stake_modifier [] = some (0, true)
  compute_next_stake_modifier (b ∷ chain) = next_from b chain (get_last_stake_modifier (b ∷ chain))

-- The modifier of a kernel, with its height and its time.
pub record KernelModifier : Type 0 where
  pub n_stake_modifier : ℕ
  pub n_height : ℕ
  pub n_time : ℕ

abbrev pub seen_at : KernelBlock → ℕ → ℕ → KernelModifier
seen_at b n_height n_time = record {
  n_stake_modifier = b.n_stake_modifier;
  n_height = n_height;
  n_time = n_time;
}

-- The loop of `GetKernelStakeModifier` along `pnext`, until a time; `none` is `false`.
unfoldable pub kernel_loop : ℕ → KernelBlock → ℕ → ℕ → List KernelBlock → Option KernelModifier
kernel_loop until b n_height n_time [] =
    if ltb n_time until then none else some (seen_at b n_height n_time)
kernel_loop until b n_height n_time (p ∷ next) =
    let n_height' = (if p.generated_stake_modifier then p.n_height else n_height) in
    let n_time' = (if p.generated_stake_modifier then p.n_time else n_time) in
    let rest = kernel_loop until p n_height' n_time' next in
    if ltb n_time until then rest else some (seen_at b n_height n_time)

-- `GetKernelStakeModifier`, for a block with the blocks that follow it in the chain.
unfoldable pub get_kernel_stake_modifier :
    KernelEnv → Option (KernelBlock × List KernelBlock) → Option KernelModifier
get_kernel_stake_modifier env none = none
get_kernel_stake_modifier env (some (from, next)) =
    kernel_loop (from.n_time + selection_interval env.n_modifier_interval) from from.n_height
      from.n_time next
