-- ===== src/Tx/Check.antt =====
-- The checks of a transaction that need no context: `CTransaction::CheckTransaction` of src/main.cpp.
pub mod Duplicates
pub mod WellFormed
use montecoin.Prelude.{
  ℕ, ◌+◌, Bool, true, false, not, ◌&&◌, ◌||◌, List, [], ◌∷◌, length, ltb, leb, ◌==◌, if◌then◌else◌,
}
use montecoin.Prelude.Int.{ℤ, pos, ltb_ℤ}
use montecoin.Prelude.Int64
use montecoin.Prelude.OrderedSet
use montecoin.Serialize.{Codec}
use montecoin.Tx.Codec.{transaction_codec}
use montecoin.Tx.Money.{money_range, max_money}
use montecoin.Tx.{
  OutPoint, TxIn, TxOut, Transaction, is_null, is_empty, is_coin_base, is_coin_stake, out_point_key,
}

abbrev pub max_block_size : ℕ
max_block_size = 1_000_000

-- `true`, or `false` with the score that `DoS` adds (0 where the source returns `false` alone).
pub data Verdict : Type 0 where
  valid : Verdict
  invalid : ℕ → Verdict

-- The loop over the outputs, where `user` is `!IsCoinBase() && !IsCoinStake()`.
unfoldable pub check_outputs : Bool → ℤ → List TxOut → Verdict
check_outputs user n_value_out [] = valid
check_outputs user n_value_out (txout ∷ vout) =
    let n_value_out' = Int64.add n_value_out txout.n_value in
    let rest = check_outputs user n_value_out' vout in
    if is_empty txout && user
    then invalid 100
    else if ltb_ℤ txout.n_value (pos 0)
    then invalid 100
    else if ltb_ℤ (pos max_money) txout.n_value
    then invalid 100
    else if not (money_range n_value_out')
    then invalid 100
    else rest

-- The loop with the set `vInOutPoints`: whether an outpoint is spent twice.
unfoldable pub has_duplicate : List OutPoint → List TxIn → Bool
has_duplicate v_in_out_points [] = false
has_duplicate v_in_out_points (txin ∷ vin) =
    let rest = has_duplicate (OrderedSet.insert txin.prevout v_in_out_points) vin in
    if OrderedSet.contains txin.prevout v_in_out_points then true else rest

unfoldable pub coin_base_script_size : List TxIn → ℕ
coin_base_script_size [] = 0
coin_base_script_size (txin ∷ vin) = length txin.script_sig

unfoldable pub has_null_prevout : List TxIn → Bool
has_null_prevout [] = false
has_null_prevout (txin ∷ vin) = if is_null txin.prevout then true else has_null_prevout vin

-- The checks after the loops.
unfoldable pub check_inputs : Transaction → Verdict
unfolding coin_base_script_size has_null_prevout
check_inputs tx =
    if has_duplicate [] tx.vin
    then invalid 0
    else if is_coin_base tx
    then (if ltb (coin_base_script_size tx.vin) 2 || ltb 100 (coin_base_script_size tx.vin)
        then invalid 100
        else valid)
    else if has_null_prevout tx.vin
    then invalid 10
    else valid

abbrev pub and_then : Verdict → Verdict → Verdict
and_then valid w = w
and_then (invalid n) w = invalid n

unfoldable pub check_transaction : Transaction → Verdict
unfolding check_inputs
check_transaction tx =
    if length tx.vin == 0
    then invalid 10
    else if length tx.vout == 0
    then invalid 10
    else if ltb max_block_size (transaction_codec.get_serialize_size tx)
    then invalid 100
    else and_then (check_outputs (not (is_coin_base tx) && not (is_coin_stake tx)) (pos 0) tx.vout)
        (check_inputs tx)
