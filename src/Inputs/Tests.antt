-- ===== src/Inputs/Tests.antt =====
-- Runs of `ConnectInputs` and `DisconnectInputs`, and the theorems at concrete inputs.
use montecoin.Prelude.{
  ℕ, ◌*◌, ◌/◌, ◌≡◌, refl, true, false, List, [], ◌∷◌, some, arith, nat_key, if◌then◌else◌,
}
use montecoin.Prelude.Int.{ℤ, pos, ◌+ℤ◌, ◌-ℤ◌, ◌*ℤ◌, ◌≤ℤ◌}
use montecoin.Prelude.Int64
use montecoin.Prelude.Dict
use montecoin.Prelude.Dict.{Dict, lookup-insert, lookup-erase}
use montecoin.Tx.{
  OutPoint, TxIn, TxOut, Transaction, is_null, is_empty, is_coin_base, is_coin_stake,
}
use montecoin.Tx.Money.{money_range, max_money, min_tx_fee}
use montecoin.Tx.Fee.{get_min_fee, gmf_relay, dust_fee, cap_fee, get_min_fee_lem, min_fee}
use montecoin.Tx.Value.{total, AllInRange, get_value_out, value_out_loop}
use montecoin.Tx.Check.Duplicates.{DistinctPrevouts}
use montecoin.Reward.{get_proof_of_stake_reward, mint_proof_of_stake_l1}
use montecoin.Inputs.{
  DiskTxPos, TxIndex, null_pos, new_tx_index, disconnect_input, disconnect_loop, disconnect_inputs,
}
use montecoin.Inputs.Memory.{memory}
use montecoin.Inputs.Connect.{
  MapPrevTx, ok, Env, Mode, get_value_in, check_input, check_loop, check_signature, spend_input,
  spend_loop, check_stake, check_fee, settle, connect_inputs,
}
use montecoin.Inputs.Value.{Spends}
use montecoin.Inputs.Balance.{connect_inputs_fee, connect_inputs_stake}
use montecoin.Inputs.Marks.{mark, spends, spends_from}
use montecoin.Inputs.Spend.{spent_at, AllUnspent}
use montecoin.Inputs.Pool.{connect_inputs_marks}

abbrev spend : ℕ → ℕ → TxIn
spend hash n = record {
  prevout = record { hash = hash; n = n };
  script_sig = 1 ∷ [];
  n_sequence = 0;
}

abbrev pay : ℕ → TxOut
pay v = record { n_value = pos v; script_pub_key = 3 ∷ [] }

-- A transaction with three outputs, one of them spent already.
abbrev earlier : Transaction
earlier = record {
  n_version = pos 1;
  n_time = 1_000;
  vin = spend 5 0 ∷ [];
  vout = pay 10_000_000 ∷ pay 20_000_000 ∷ pay 30_000_000 ∷ [];
  n_lock_time = 0;
}

abbrev here : DiskTxPos
here = record { n_file = 1; n_block_pos = 2; n_tx_pos = 3 }

abbrev there : DiskTxPos
there = record { n_file = 1; n_block_pos = 9; n_tx_pos = 40 }

abbrev earlier_index : TxIndex
earlier_index = record { pos_on_disk = here; v_spent = null_pos ∷ null_pos ∷ here ∷ [] }

abbrev inputs : MapPrevTx
inputs = (77, (earlier_index, earlier)) ∷ []

-- It spends the two outputs that are left.
abbrev payment : Transaction
payment = record earlier {
  n_time = 2_000;
  vin = spend 77 0 ∷ spend 77 1 ∷ [];
  vout = pay 29_000_000 ∷ [];
}

-- The first output is empty, and more is paid out than was spent.
abbrev stake : Transaction
stake = record payment {
  vout = record { n_value = pos 0; script_pub_key = [] } ∷ pay 30_000_001 ∷ [];
}

abbrev env : Env
env = record {
  chain = [];
  n_coinbase_maturity = 20;
  n_best_height = pos 7;
  total_blocks_estimate = pos 0;
  n_money_supply = pos 0;
  verify_signature = λ tx_prev tx i strict. true;
  get_coin_age = λ tx. some (pos 1_000_000);
}

abbrev in_block : Mode
in_block = record { pos_this_tx = there; f_block = true; f_miner = false; f_strict = true }

abbrev changed : Dict ℕ TxIndex
changed = (77, record earlier_index { v_spent = there ∷ there ∷ here ∷ [] }) ∷ []

payment_no_coin_base : is_coin_base payment ≡ false
unfolding is_coin_base
payment_no_coin_base = refl

payment_connects : connect_inputs env in_block payment inputs [] ≡ ok changed
unfolding connect_inputs check_loop check_input spend_loop spend_input check_signature settle
    check_fee get_value_out value_out_loop money_range Int64.add Int64.sub Int64.mul Int64.wrap ◌+ℤ◌
    ◌-ℤ◌ ◌*ℤ◌ get_min_fee dust_fee cap_fee is_coin_base is_coin_stake is_null is_empty Dict.lookup
    Dict.insert
payment_connects = refl

stake_connects : connect_inputs env in_block stake inputs [] ≡ ok changed
unfolding connect_inputs check_loop check_input spend_loop spend_input check_signature settle
    check_stake get_value_out value_out_loop money_range Int64.add Int64.sub Int64.mul Int64.wrap
    ◌+ℤ◌ ◌-ℤ◌ ◌*ℤ◌ get_min_fee dust_fee cap_fee is_coin_base is_coin_stake is_null is_empty
    Dict.lookup Dict.insert get_proof_of_stake_reward
stake_connects = refl

connect_inputs_fee_example :
    (outs : List TxOut) × Spends inputs payment.vin outs
    × AllInRange outs
    × (get_value_in inputs payment ≡ ok (total outs))
    × (get_value_out payment.vout ≡ some (total payment.vout))
    × (total outs ≤ℤ pos max_money)
    × (total payment.vout +ℤ pos min_tx_fee ≤ℤ total outs)
unfolding is_coin_stake
connect_inputs_fee_example =
    connect_inputs_fee env in_block payment inputs [] changed payment_no_coin_base refl
      payment_connects

-- The coin age is a million.
age_nonneg : (n_coin_age : ℤ) → some (pos 1_000_000) ≡ some n_coin_age → pos 0 ≤ℤ n_coin_age
age_nonneg n_coin_age e = ground (arith, e)

connect_inputs_stake_example :
    (outs : List TxOut) × (age : ℕ) × Spends inputs stake.vin outs
    × AllInRange outs
    × (some (pos 1_000_000) ≡ some (pos age))
    × (total stake.vout ≤ℤ total outs +ℤ pos (age * mint_proof_of_stake_l1 / 365))
unfolding is_coin_base is_coin_stake is_null is_empty
connect_inputs_stake_example =
    connect_inputs_stake env in_block stake inputs [] changed refl refl age_nonneg stake_connects

connect_inputs_marks_example :
    AllUnspent inputs payment.vin
    × DistinctPrevouts payment.vin
    × ((r : OutPoint)
        → mark (Dict.lookup r.hash changed) r.n ≡ (
            if spends payment.vin r
            then some there
            else if spends_from payment.vin r.hash
            then spent_at inputs r
            else mark (Dict.lookup {V = TxIndex} r.hash []) r.n))
connect_inputs_marks_example =
    connect_inputs_marks env in_block payment inputs [] changed payment_no_coin_base refl refl
      payment_connects

abbrev before : Dict ℕ TxIndex
before = (77, record earlier_index { v_spent = null_pos ∷ null_pos ∷ here ∷ [] }) ∷ []

abbrev after : Dict ℕ TxIndex
after =
    (77, record earlier_index { v_spent = there ∷ there ∷ here ∷ [] })
    ∷ (88, new_tx_index there 1)
    ∷ []

payment_disconnects : disconnect_inputs memory after 88 payment ≡ (before, true)
unfolding disconnect_inputs disconnect_loop disconnect_input is_coin_base Dict.lookup Dict.insert
    Dict.erase
payment_disconnects = refl

get_min_fee_lem_example :
    get_min_fee payment.vout 1 gmf_relay 2_500 ≡ pos (min_fee 1 gmf_relay 2_500)
get_min_fee_lem_example = get_min_fee_lem payment.vout 1 gmf_relay 2_500 (omega arith)
