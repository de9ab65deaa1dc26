-- ===== src/Kernel/Tests.antt =====
-- A chain of three blocks, and the theorems about its stake modifier.
use montecoin.Prelude.{
  ℕ, ◌+◌, ◌*◌, ◌≡◌, refl, Bool, true, false, List, [], length, ◌∷◌, Option, none, some, ◌==◌,
  if◌then◌else◌, arith, nat_key,
}
use Prim.Native.Nat.{min}
use mathlib.Core.List.{reverse}
use montecoin.Prelude.Int.{pos}
use montecoin.Prelude.Dict
use montecoin.Kernel.{
  KernelBlock, KernelEnv, get_last_stake_modifier, select_loop, select_block_from_candidates,
  new_stake_modifier, compute_next_stake_modifier, candidates, selection_start, sort_by_timestamp,
}
use montecoin.Kernel.Select.{IsNew, Beats, select_block_from_candidates_least}
use montecoin.Kernel.Sorted.{All}
use montecoin.Kernel.Modifier.{compute_next_stake_modifier_total}
use montecoin.Kernel.Bits.{Selects, number_of, new_stake_modifier_bits}

abbrev block_at : ℕ → ℕ → Bool → Bool → KernelBlock
block_at hash time generated bit = record {
  hash_block = hash;
  n_height = hash;
  n_time = time;
  n_stake_modifier = 5;
  generated_stake_modifier = generated;
  is_proof_of_stake = false;
  hash_proof_of_stake = 0;
  stake_entropy_bit = bit;
}

abbrev first : KernelBlock
first = block_at 1 100 true true

abbrev second : KernelBlock
second = block_at 2 200 false false

abbrev third : KernelBlock
third = block_at 3 300 false true

abbrev env : KernelEnv
env = record {
  n_modifier_interval = 30;
  map_block_index = λ h.
      if h == 1
      then some first
      else if h == 2
      then some second
      else if h == 3
      then some third
      else none;
  hash_with = λ a b. 100 * b + (if a == 1 then 9 else a);
}

second_selected :
    select_block_from_candidates env ((100, 1) ∷ (200, 2) ∷ (300, 3) ∷ []) [] (pos 400) 5
    ≡ some second
unfolding select_block_from_candidates select_loop Dict.contains Dict.lookup
second_selected = refl

select_block_from_candidates_least_example :
    IsNew env [] (pos 400) 5 ((100, 1) ∷ (200, 2) ∷ (300, 3) ∷ []) second
    × All (Beats env [] (pos 400) 5 second) ((100, 1) ∷ (200, 2) ∷ (300, 3) ∷ [])
select_block_from_candidates_least_example =
    select_block_from_candidates_least env [] (pos 400) 5 ((100, 1) ∷ (200, 2) ∷ (300, 3) ∷ [])
      second
      ((first, refl, refl, refl), ((second, refl, refl, refl), ((third, refl, refl, refl), tt)))
      ((omega arith, (omega arith, tt)), ((omega arith, tt), (tt, tt))) second_selected

last_modifier : get_last_stake_modifier (third ∷ second ∷ first ∷ []) ≡ some (5, 100)
unfolding get_last_stake_modifier
last_modifier = refl

compute_next_stake_modifier_total_example :
    (m : ℕ) × (f : Bool) × (compute_next_stake_modifier env (third ∷ second ∷ first ∷ [])
      ≡ some (m, f))
compute_next_stake_modifier_total_example =
    compute_next_stake_modifier_total env third (second ∷ first ∷ []) (5, 100)
      (refl, (refl, (refl, tt)))
      (
        (λ e. omega (arith, e), (λ e. omega (arith, e), tt)),
        ((λ e. omega (arith, e), tt), (tt, tt)),
      )
      last_modifier

new_modifier : new_stake_modifier env third (second ∷ first ∷ []) 5 ≡ some 5
unfolding new_stake_modifier montecoin.Kernel.round_loop montecoin.Kernel.sort_by_timestamp
    montecoin.Kernel.insert_by_time montecoin.Kernel.candidates montecoin.Prelude.Int64.sub
    montecoin.Prelude.Int64.add montecoin.Prelude.Int64.wrap montecoin.Prelude.Int.◌+ℤ◌
    montecoin.Prelude.Int.◌-ℤ◌ montecoin.Kernel.sum_sections select_block_from_candidates
    select_loop Dict.contains Dict.lookup Dict.insert
new_modifier = refl

new_stake_modifier_bits_example :
    (bs : List KernelBlock) × (length bs
      ≡ min 64 (length (candidates (selection_start env 300) (third ∷ second ∷ first ∷ []))))
    × Selects env
        (sort_by_timestamp
          (reverse (candidates (selection_start env 300) (third ∷ second ∷ first ∷ []))))
        5
        0
        (selection_start env 300)
        []
        bs
    × (5 ≡ number_of bs)
new_stake_modifier_bits_example =
    new_stake_modifier_bits env third (second ∷ first ∷ []) 5 5 new_modifier
