-- ===== src/Inputs/Balance.antt =====
-- What a transaction that `ConnectInputs` accepts pays and earns.
use montecoin.Prelude.{
  ℕ, ◌*◌, ◌/◌, ◌^◌, ◌<◌, ◌≤◌, ◌≡◌, refl, ap, ◌∙◌, Bool, true, false, List, some, arith, nat_key,
  Option-cases, inl, inr, if◌then◌else◌,
}
use montecoin.Prelude.Int.{ℤ, pos, negsuc, ◌≤ℤ◌, ◌+ℤ◌, ◌-ℤ◌, int_laws, ltb_ℤ, pos_part, neg_part}
use montecoin.Prelude.Int64
use montecoin.Prelude.Int64.{sub_fits, add_fits}
use montecoin.Prelude.Dict.{Dict}
use montecoin.Tx.{TxOut, Transaction, is_coin_base, is_coin_stake}
use montecoin.Tx.Money.{max_money, min_tx_fee}
use montecoin.Tx.Fee.{gmf_block, get_min_fee_default}
use montecoin.Tx.Value.{
  total, AllInRange, get_value_out, get_value_out-some_iff, total_nonneg, sub_in_range,
}
use montecoin.Reward.{
  get_proof_of_stake_reward, get_proof_of_stake_reward_small, get_proof_of_stake_reward_le,
  mint_proof_of_stake_l1,
}
use montecoin.Inputs.{TxIndex}
use montecoin.Inputs.Connect.{
  MapPrevTx, ok, refuse_if, Env, Mode, get_value_in, check_stake, check_fee, settle, connect_inputs,
}
use montecoin.Inputs.Value.{Spends, get_value_in-check_loop}
use montecoin.Inputs.Outcome.{connect_inputs-ok}

-- A fee that is not below the least one.
enough : (v out : ℤ) → ltb_ℤ (v -ℤ out) (pos min_tx_fee) ≡ false → out +ℤ pos min_tx_fee ≤ℤ v
unfolding ◌-ℤ◌ ◌+ℤ◌
enough v out h = ground arith

check_fee_ok :
    (mode : Mode) (tx : Transaction) (v : ℤ)
    → (pos 0 ≤ℤ v) × (v ≤ℤ pos max_money)
    → check_fee mode tx v ≡ ok tt
    → (out : ℤ) × (get_value_out tx.vout ≡ some out) × (out +ℤ pos min_tx_fee ≤ℤ v)
unfolding check_fee
check_fee_ok mode tx v r h = elim (Option-cases (get_value_out tx.vout)) [
  | inl miss ↦ absurd (ground arith)
  | inr (out, e) ↦
      let b = (get_value_out-some_iff tx.vout out).0 e in
      let n : pos 0 ≤ℤ out = rw b.0 (total_nonneg tx.vout b.1) in
      let s = sub_in_range v out r (n, b.2) in
      let f = (get_min_fee_default tx.vout gmf_block).0 in
      (out, e, enough v out (ground (arith, s, f)))
]

fits_minus_fee :
    (r : ℤ)
    → (pos_part r ≤ 2 ^ 62) × (neg_part r ≤ 2 ^ 62)
    → (pos_part (r -ℤ pos min_tx_fee) < 2 ^ 63) × (neg_part (r -ℤ pos min_tx_fee) ≤ 2 ^ 63)
unfolding ◌-ℤ◌
fits_minus_fee (pos n) h = ground arith
fits_minus_fee (negsuc n) h = ground arith

at_most : (out v r : ℤ) → ltb_ℤ r (out -ℤ v) ≡ false → out ≤ℤ v +ℤ r
unfolding ◌-ℤ◌ ◌+ℤ◌
at_most out v r h = ground arith

back : (r : ℤ) → r -ℤ pos min_tx_fee +ℤ pos min_tx_fee ≡ r
back r = omega int_laws

-- The fee that is taken off a stake's reward and put on again cancels.
stake_limit :
    (r : ℤ)
    → (pos_part r ≤ 2 ^ 62) × (neg_part r ≤ 2 ^ 62)
    → Int64.add (Int64.sub r (pos min_tx_fee)) (pos min_tx_fee) ≡ r
stake_limit r h =
    let p : pos_part (r -ℤ pos min_tx_fee +ℤ pos min_tx_fee) < 2 ^ 63 =
      rw (back r) (omega (arith, h.0)) in
    let n : neg_part (r -ℤ pos min_tx_fee +ℤ pos min_tx_fee) ≤ 2 ^ 63 =
      rw (back r) (omega (arith, h.1)) in
    rw (sub_fits r (pos min_tx_fee) (fits_minus_fee r h).0 (fits_minus_fee r h).1)
      (add_fits (r -ℤ pos min_tx_fee) (pos min_tx_fee) p n ∙ back r)

refuse_if_passed : (c : Bool) (n : ℕ) → refuse_if c n ≡ ok tt → c ≡ false
refuse_if_passed true n h = cc
refuse_if_passed false n h = refl

check_stake_ok :
    (env : Env) (tx : Transaction) (v : ℤ)
    → (pos 0 ≤ℤ v) × (v ≤ℤ pos max_money)
    → check_stake env tx v ≡ ok tt
    → (age : ℤ) × (out : ℤ) × (env.get_coin_age tx ≡ some age)
      × (get_value_out tx.vout ≡ some out)
      × (out ≤ℤ v +ℤ get_proof_of_stake_reward env.n_money_supply age)
unfolding check_stake
check_stake_ok env tx v r h = elim (Option-cases (env.get_coin_age tx)) [
  | inl miss ↦ absurd (ground arith)
  | inr (age, a) ↦ elim (Option-cases (get_value_out tx.vout)) [
    | inl miss ↦ absurd (ground arith)
    | inr (out, e) ↦
        let b = (get_value_out-some_iff tx.vout out).0 e in
        let n : pos 0 ≤ℤ out = rw b.0 (total_nonneg tx.vout b.1) in
        let s = sub_in_range out v (n, b.2) r in
        let f = (get_min_fee_default tx.vout gmf_block).0 in
        let l =
          stake_limit (get_proof_of_stake_reward env.n_money_supply age)
            (get_proof_of_stake_reward_small env.n_money_supply age) in
        let g : refuse_if (ltb_ℤ (get_proof_of_stake_reward env.n_money_supply age) (out -ℤ v)) 100
            ≡ ok tt =
          rw (a, e, s, f, l) at h in
        (
          age,
          out,
          a,
          e,
          at_most out v (get_proof_of_stake_reward env.n_money_supply age)
              (refuse_if_passed _ 100 g),
        )
  ]
]

nonneg : (a : ℤ) → pos 0 ≤ℤ a → a ≡ pos (pos_part a)
nonneg (pos n) h = refl
nonneg (negsuc n) h = absurd (omega (arith, h))

-- The reward in a bound may be put as one with no bound on numbers.
stake_le :
    (supply age out sum : ℤ)
    → pos 0 ≤ℤ age
    → out ≤ℤ sum +ℤ get_proof_of_stake_reward supply age
    → out
      ≤ℤ sum
        +ℤ pos (
            if ltb_ℤ supply (pos max_money) then pos_part age * mint_proof_of_stake_l1 / 365 else 0)
stake_le supply (pos age) out sum p h =
    let r = get_proof_of_stake_reward_le supply age in omega (int_laws, h, r)
stake_le supply (negsuc age) out sum p h = absurd (omega (arith, p))

settle_fee :
    (env : Env) (mode : Mode) (tx : Transaction) (v : ℤ)
    → is_coin_stake tx ≡ false
    → settle env mode tx v ≡ ok tt
    → check_fee mode tx v ≡ ok tt
unfolding settle
settle_fee env mode tx v n h = rw n at h

settle_stake :
    (env : Env) (mode : Mode) (tx : Transaction) (v : ℤ)
    → is_coin_stake tx ≡ true
    → settle env mode tx v ≡ ok tt
    → check_stake env tx v ≡ ok tt
unfolding settle
settle_stake env mode tx v n h = rw n at h

-- A transaction that `ConnectInputs` accepts, and that is neither a coinbase nor a coinstake, spends
-- outputs that are there, each of them an amount in range, as is their sum. Its own outputs and the least
-- fee are worth at most that sum. The sums have no bound: none of them wraps around.
pub connect_inputs_fee :
    (env : Env) (mode : Mode) (tx : Transaction) (inputs : MapPrevTx) (pool pool' : Dict ℕ TxIndex)
    → is_coin_base tx ≡ false
    → is_coin_stake tx ≡ false
    → connect_inputs env mode tx inputs pool ≡ ok pool'
    → (outs : List TxOut) × Spends inputs tx.vin outs
      × AllInRange outs
      × (get_value_in inputs tx ≡ ok (total outs))
      × (get_value_out tx.vout ≡ some (total tx.vout))
      × (total outs ≤ℤ pos max_money)
      × (total tx.vout +ℤ pos min_tx_fee ≤ℤ total outs)
connect_inputs_fee env mode tx inputs pool pool' nb ns h =
    let (v, s, e₁, e₂, e₃, e₄) = connect_inputs-ok env mode tx inputs pool nb h in
    let (outs, spent, each, value, sum, low, high) = get_value_in-check_loop env inputs tx nb e₁ in
    let (out, e, le) = check_fee_ok mode tx v (low, high) (settle_fee env mode tx v ns e₃) in
    let same = ((get_value_out-some_iff tx.vout out).0 e).0 in
    (outs, spent, each, rw (← sum) value, rw (← same) e, rw (← sum) high, rw (← same, ← sum) le)

-- A coinstake that `ConnectInputs` accepts, where the coin age is not negative, spends outputs that are
-- there, each of them an amount in range, and its own outputs are worth at most theirs and the reward for
-- the age of its coins, which is nothing where the money supply is at its limit. The sums and the reward
-- have no bound: none of them wraps around.
pub connect_inputs_stake :
    (env : Env) (mode : Mode) (tx : Transaction) (inputs : MapPrevTx) (pool pool' : Dict ℕ TxIndex)
    → is_coin_base tx ≡ false
    → is_coin_stake tx ≡ true
    → ((n_coin_age : ℤ) → env.get_coin_age tx ≡ some n_coin_age → pos 0 ≤ℤ n_coin_age)
    → connect_inputs env mode tx inputs pool ≡ ok pool'
    → (outs : List TxOut) × (age : ℕ) × Spends inputs tx.vin outs
      × AllInRange outs
      × (env.get_coin_age tx ≡ some (pos age))
      × (total tx.vout
          ≤ℤ total outs
            +ℤ pos (
                if ltb_ℤ env.n_money_supply (pos max_money)
                then age * mint_proof_of_stake_l1 / 365
                else 0))
connect_inputs_stake env mode tx inputs pool pool' nb ns old h =
    let (v, s, e₁, e₂, e₃, e₄) = connect_inputs-ok env mode tx inputs pool nb h in
    let (outs, spent, each, value, sum, low, high) = get_value_in-check_loop env inputs tx nb e₁ in
    let (age, out, a, e, le) =
      check_stake_ok env tx v (low, high) (settle_stake env mode tx v ns e₃) in
    let same = ((get_value_out-some_iff tx.vout out).0 e).0 in
    let le' = stake_le env.n_money_supply age out v (old age a) le in
    (outs, pos_part age, spent, each, a ∙ ap some (nonneg age (old age a)), rw (← same, ← sum) le')
