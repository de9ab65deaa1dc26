-- ===== src/Inputs/Connect.antt =====
-- `ConnectInputs`, `GetOutputFor` and `GetValueIn` of src/main.cpp: the checks of a transaction
-- against the transactions that it spends, and the marking of their outputs.
use montecoin.Prelude.{
  ℕ, ◌+◌, Bool, true, false, not, ◌&&◌, ◌||◌, List, [], ◌∷◌, Option, none, some, length, set,
  get_elem?, ltb, leb, ◌==◌, if◌then◌else◌, nat_key,
}
use montecoin.Prelude.Int.{ℤ, pos, ltb_ℤ}
use montecoin.Prelude.Int64
use montecoin.Prelude.Dict
use montecoin.Prelude.Dict.{Dict}
use montecoin.Reward.{get_proof_of_stake_reward}
use montecoin.Tx.{TxIn, TxOut, Transaction, is_coin_base, is_coin_stake}
use montecoin.Tx.Fee.{get_min_fee, gmf_block}
use montecoin.Tx.Money.{money_range, min_tx_fee}
use montecoin.Tx.Value.{get_value_out}
use montecoin.Inputs.{DiskTxPos, TxIndex, is_null_pos}

-- `MapPrevTx`
abbrev pub MapPrevTx : Type 0
MapPrevTx = Dict ℕ (TxIndex × Transaction)

-- How a call ends: with a value, with `false` and the score that `DoS` adds (0 without `DoS`), with an
-- exception of `GetValueOut` or `GetOutputFor`, or at an `assert` or an access out of bounds.
pub data Outcome (A : Type 0) : Type 0 where
  ok : A → Outcome A
  refused : ℕ → Outcome A
  thrown : Outcome A
  aborted : Outcome A

infixl 5 ◌>>=◌ ◌>>◌
abbrev pub ◌>>=◌ : {A B : Type 0} → Outcome A → (A → Outcome B) → Outcome B
ok a >>= f = f a
refused n >>= f = refused n
thrown >>= f = thrown
aborted >>= f = aborted

abbrev pub ◌>>◌ : {B : Type 0} → Outcome (Unit {0}) → Outcome B → Outcome B
m >> k = m >>= λ _. k

abbrev pub refuse_if : Bool → ℕ → Outcome (Unit {0})
refuse_if true n = refused n
refuse_if false n = ok tt

abbrev pub or_else : {A : Type 0} → Outcome A → Option A → Outcome A
or_else e none = e
or_else e (some a) = ok a

-- A block of the chain that ends at `pindexBlock`, as far as it is read here.
pub record ChainBlock : Type 0 where
  pub n_height : ℕ
  pub n_file : ℕ
  pub n_block_pos : ℕ

-- What `ConnectInputs` takes from the rest of the program: the chain from `pindexBlock` down, global
-- variables, the check of signatures (src/script.cpp) and the coin age.
pub record Env : Type 0 where
  pub chain : List ChainBlock
  pub n_coinbase_maturity : ℕ
  pub n_best_height : ℤ
  pub total_blocks_estimate : ℤ
  pub n_money_supply : ℤ
  pub verify_signature : Transaction → Transaction → ℕ → Bool → Bool
  pub get_coin_age : Transaction → Option ℤ

-- `ConnectInputs`' arguments that do not change.
pub record Mode : Type 0 where
  pub pos_this_tx : DiskTxPos
  pub f_block : Bool
  pub f_miner : Bool
  pub f_strict : Bool

unfoldable pub get_output_for : MapPrevTx → TxIn → Outcome TxOut
get_output_for inputs txin = do
  e ← or_else thrown (Dict.lookup txin.prevout.hash inputs)
  or_else thrown (get_elem? e.1.vout txin.prevout.n)

unfoldable pub value_in_loop : MapPrevTx → ℤ → List TxIn → Outcome ℤ
value_in_loop inputs n_result [] = ok n_result
value_in_loop inputs n_result (txin ∷ vin) = do
  txout ← get_output_for inputs txin
  value_in_loop inputs (Int64.add n_result txout.n_value) vin

unfoldable pub get_value_in : MapPrevTx → Transaction → Outcome ℤ
get_value_in inputs tx = if is_coin_base tx then ok (pos 0) else value_in_loop inputs (pos 0) tx.vin

-- The loop over the chain: whether an unripe block, `top` being the highest, holds the transaction.
unfoldable pub is_immature : ℕ → ℕ → DiskTxPos → List ChainBlock → Bool
is_immature maturity top p [] = false
is_immature maturity top p (b ∷ chain) =
    let rest = is_immature maturity top p chain in
    if ltb top (b.n_height + maturity)
    then (if b.n_block_pos == p.n_block_pos && b.n_file == p.n_file then true else rest)
    else false

abbrev pub top_height : List ChainBlock → ℕ
top_height [] = 0
top_height (b ∷ chain) = b.n_height

-- One round of the first loop: the checks of one input that cost little.
unfoldable pub check_input : Env → MapPrevTx → Transaction → ℤ → TxIn → Outcome ℤ
check_input env inputs tx n_value_in txin = do
  (txindex, tx_prev) ← or_else aborted (Dict.lookup txin.prevout.hash inputs)
  refuse_if
      (leb (length tx_prev.vout) txin.prevout.n || leb (length txindex.v_spent) txin.prevout.n) 100
  refuse_if
      ((is_coin_base tx_prev || is_coin_stake tx_prev)
        && is_immature env.n_coinbase_maturity (top_height env.chain) txindex.pos_on_disk env.chain)
      0
  refuse_if (ltb tx.n_time tx_prev.n_time) 100
  txout ← or_else aborted (get_elem? tx_prev.vout txin.prevout.n)
  let n_value_in' = Int64.add n_value_in txout.n_value
  refuse_if (not (money_range txout.n_value) || not (money_range n_value_in')) 100
  ok n_value_in'

unfoldable pub check_loop : Env → MapPrevTx → Transaction → ℤ → List TxIn → Outcome ℤ
check_loop env inputs tx n_value_in [] = ok n_value_in
check_loop env inputs tx n_value_in (txin ∷ vin) = do
  n_value_in' ← check_input env inputs tx n_value_in txin
  check_loop env inputs tx n_value_in' vin

-- The check of a signature, with its second try without strict pay-to-script-hash.
unfoldable pub check_signature : Env → Mode → Transaction → Transaction → ℕ → Outcome (Unit {0})
check_signature env mode tx_prev tx i =
    if not (mode.f_block && ltb_ℤ env.n_best_height env.total_blocks_estimate)
    then (if env.verify_signature tx_prev tx i mode.f_strict
        then ok tt
        else if mode.f_strict && env.verify_signature tx_prev tx i false
        then refused 0
        else refused 100)
    else ok tt

-- One round of the second loop, on `inputs` and `mapTestPool`: the mark of a spent output.
unfoldable pub spend_input :
    Env
    → Mode
    → Transaction
    → ℕ
    → TxIn
    → MapPrevTx × Dict ℕ TxIndex
    → Outcome (MapPrevTx × Dict ℕ TxIndex)
spend_input env mode tx i txin (inputs, map_test_pool) = do
  (txindex, tx_prev) ← or_else aborted (Dict.lookup txin.prevout.hash inputs)
  spent ← or_else aborted (get_elem? txindex.v_spent txin.prevout.n)
  refuse_if (not (is_null_pos spent)) 0
  check_signature env mode tx_prev tx i
  let txindex' = record txindex { v_spent = set txindex.v_spent txin.prevout.n mode.pos_this_tx }
  ok (
    Dict.insert txin.prevout.hash (txindex', tx_prev) inputs,
    (if mode.f_block || mode.f_miner
        then Dict.insert txin.prevout.hash txindex' map_test_pool
        else map_test_pool),
  )

unfoldable pub spend_loop :
    Env
    → Mode
    → Transaction
    → ℕ
    → List TxIn
    → MapPrevTx × Dict ℕ TxIndex
    → Outcome (MapPrevTx × Dict ℕ TxIndex)
spend_loop env mode tx i [] s = ok s
spend_loop env mode tx i (txin ∷ vin) s = do
  s' ← spend_input env mode tx i txin s
  spend_loop env mode tx (i + 1) vin s'

-- The balance of a coinstake, and of any other transaction.
unfoldable pub check_stake : Env → Transaction → ℤ → Outcome (Unit {0})
check_stake env tx n_value_in = do
  n_coin_age ← or_else (refused 0) (env.get_coin_age tx)
  value_out ← or_else thrown (get_value_out tx.vout)
  let reward = get_proof_of_stake_reward env.n_money_supply n_coin_age
  refuse_if
      (ltb_ℤ (Int64.add (Int64.sub reward (get_min_fee tx.vout 1 gmf_block 0)) (pos min_tx_fee))
        (Int64.sub value_out n_value_in))
      100

unfoldable pub check_fee : Mode → Transaction → ℤ → Outcome (Unit {0})
check_fee mode tx n_value_in = do
  value_out ← or_else thrown (get_value_out tx.vout)
  refuse_if (ltb_ℤ n_value_in value_out) 100
  let n_tx_fee = Int64.sub n_value_in value_out
  refuse_if (ltb_ℤ n_tx_fee (pos 0)) 100
  refuse_if (ltb_ℤ n_tx_fee (get_min_fee tx.vout 1 gmf_block 0)) (if mode.f_block then 100 else 0)
  refuse_if (not (money_range (Int64.add (pos 0) n_tx_fee))) 100

unfoldable pub settle : Env → Mode → Transaction → ℤ → Outcome (Unit {0})
settle env mode tx n_value_in =
    if is_coin_stake tx then check_stake env tx n_value_in else check_fee mode tx n_value_in

-- The map of pending changes comes back; where the call does not end well, the callers discard it.
unfoldable pub connect_inputs :
    Env → Mode → Transaction → MapPrevTx → Dict ℕ TxIndex → Outcome (Dict ℕ TxIndex)
connect_inputs env mode tx inputs map_test_pool = if is_coin_base tx then ok map_test_pool else (do
  n_value_in ← check_loop env inputs tx (pos 0) tx.vin
  s ← spend_loop env mode tx 0 tx.vin (inputs, map_test_pool)
  settle env mode tx n_value_in
  ok s.1)
