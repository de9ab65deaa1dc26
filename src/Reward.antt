-- ===== src/Reward.antt =====
-- What a block may create: `GetProofOfWorkReward` and `GetProofOfStakeReward` of src/main.cpp. The
-- products with a decimal fraction are written as the whole numbers that they round to.
use montecoin.Prelude.{
  ℕ, ◌≤◌, ◌<◌, ◌^◌, ◌+◌, ◌-◌, ◌*◌, ◌/◌, arith, ltb, if◌then◌else◌, Bool-cases, inl, inr,
}
use montecoin.Prelude.Int64.{mul_range, mul_le}
use montecoin.Prelude.Int.{pos_part, neg_part, ℤ, pos, negsuc, ltb_ℤ, leb_ℤ, ◌≤ℤ◌}
use montecoin.Prelude.Int64
use montecoin.Tx.Money.{coin, max_money}

-- `MINT_PROOF_OF_STAKE_L1`
abbrev pub mint_proof_of_stake_l1 : ℕ
mint_proof_of_stake_l1 = coin / 10_000

-- The division of C++, which rounds towards zero.
abbrev pub tdiv : ℤ → ℕ → ℤ
tdiv (pos n) d = pos (n / d)
tdiv (negsuc n) d = if ltb (n + 1) d then pos 0 else negsuc ((n + 1) / d - 1)

-- `n_money_supply` is `pindexBest->nMoneySupply`.
unfoldable pub get_proof_of_work_reward : ℤ → ℤ → ℤ → ℤ
get_proof_of_work_reward n_money_supply n_pow_height n_fees =
    let subsidy =
      (if leb_ℤ n_pow_height (pos 1)
        then pos (35_000_000 * coin)
        else if leb_ℤ n_pow_height (pos 518_400)
        then pos (15 * coin / 100)
        else pos (33 * coin / 10)) in
    Int64.add (if ltb_ℤ (pos max_money) n_money_supply then pos 0 else subsidy) n_fees

unfoldable pub get_proof_of_stake_reward : ℤ → ℤ → ℤ
get_proof_of_stake_reward n_money_supply n_coin_age =
    if ltb_ℤ n_money_supply (pos max_money)
    then tdiv (Int64.mul n_coin_age (pos mint_proof_of_stake_l1)) 365
    else pos 0

-- A stake reward is far from the ends of the range of an int64.
pub get_proof_of_stake_reward_small :
    (n_money_supply n_coin_age : ℤ)
    → (pos_part (get_proof_of_stake_reward n_money_supply n_coin_age) ≤ 2 ^ 62)
      × (neg_part (get_proof_of_stake_reward n_money_supply n_coin_age) ≤ 2 ^ 62)
unfolding get_proof_of_stake_reward
get_proof_of_stake_reward_small n_money_supply n_coin_age =
    small (Int64.mul n_coin_age (pos mint_proof_of_stake_l1)) (mul_range n_coin_age _)
  where
    small :
        (z : ℤ)
        → (pos_part z < 2 ^ 63) × (neg_part z ≤ 2 ^ 63)
        → (pos_part (if ltb_ℤ n_money_supply (pos max_money) then tdiv z 365 else pos 0) ≤ 2 ^ 62)
          × (neg_part (if ltb_ℤ n_money_supply (pos max_money) then tdiv z 365 else pos 0) ≤ 2 ^ 62)
    small (pos n) h = ground arith
    small (negsuc n) h = ground arith

tdiv_le : (z : ℤ) (n : ℕ) → z ≤ℤ pos n → tdiv z 365 ≤ℤ pos (n / 365)
tdiv_le (pos k) n h = omega (arith, h)
tdiv_le (negsuc k) n h = ground arith

-- The reward for an age that is not negative is at most what the formula gives with no bound on numbers.
pub get_proof_of_stake_reward_le :
    (n_money_supply : ℤ) (n_coin_age : ℕ)
    → get_proof_of_stake_reward n_money_supply (pos n_coin_age)
      ≤ℤ pos (
          if ltb_ℤ n_money_supply (pos max_money)
          then n_coin_age * mint_proof_of_stake_l1 / 365
          else 0)
unfolding get_proof_of_stake_reward
get_proof_of_stake_reward_le n_money_supply n_coin_age =
    let le =
      tdiv_le (Int64.mul (pos n_coin_age) (pos mint_proof_of_stake_l1))
        (n_coin_age * mint_proof_of_stake_l1) (mul_le n_coin_age mint_proof_of_stake_l1) in
    elim (Bool-cases (ltb_ℤ n_money_supply (pos max_money))) [
      | inl e ↦ rw e le
      | inr e ↦ rw e (omega arith)
    ]
