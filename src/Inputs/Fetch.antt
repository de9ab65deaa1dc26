-- ===== src/Inputs/Fetch.antt =====
-- `FetchInputs` of src/main.cpp: the transactions that a transaction spends, from the transaction index
-- and the disk, or from the memory pool.
use montecoin.Prelude.{
  ℕ, Bool, ◌||◌, List, [], ◌∷◌, Option, none, some, length, replicate, leb, if◌then◌else◌, nat_key,
}
use montecoin.Prelude.Dict
use montecoin.Prelude.Dict.{Dict}
use montecoin.Tx.{TxIn, Transaction, is_coin_base}
use montecoin.Inputs.{DiskTxPos, TxIndex, null_pos, disk_tx_pos_eq}
use montecoin.Inputs.Connect.{MapPrevTx}

-- `CDiskTxPos(1,1,1)`, the position of a transaction that is in no block.
abbrev pub pool_pos : DiskTxPos
pool_pos = record { n_file = 1; n_block_pos = 1; n_tx_pos = 1 }

-- How the call ends: `invalid` is `fInvalid`, with the score that `DoS` adds; `missing` is `false`
-- without it.
pub data Fetched : Type 0 where
  fetched : MapPrevTx → Fetched
  missing : Fetched
  invalid : ℕ → Fetched
  aborted : Fetched

-- What the call reads: the index, the blocks on disk, and the memory pool's transactions.
pub record Sources : Type 0 where
  pub read_tx_index : ℕ → Option TxIndex
  pub read_from_disk : DiskTxPos → Option Transaction
  pub pool : Dict ℕ Transaction

abbrev pub first_found : Bool → Option TxIndex → Option TxIndex → Option TxIndex
first_found f_ours none on_disk = on_disk
first_found f_ours (some txindex) on_disk = if f_ours then some txindex else on_disk

-- The index entry of a spent transaction, if it is found.
unfoldable pub find_index : Sources → Bool → Dict ℕ TxIndex → ℕ → Option TxIndex
find_index s f_ours map_test_pool hash =
    first_found f_ours (Dict.lookup hash map_test_pool) (s.read_tx_index hash)

abbrev pub with_index : TxIndex → Option Transaction → Option (TxIndex × Transaction)
with_index txindex none = none
with_index txindex (some tx) = some (txindex, tx)

-- An entry that is not found gets a mark for each output.
abbrev pub with_new_index : Option Transaction → Option (TxIndex × Transaction)
with_new_index none = none
with_new_index (some tx) =
    some (record { pos_on_disk = null_pos; v_spent = replicate (length tx.vout) null_pos }, tx)

abbrev pub fetch_entry : Sources → Bool → ℕ → Option TxIndex → Option (TxIndex × Transaction)
fetch_entry s f_ours hash none = if f_ours then none else with_new_index (Dict.lookup hash s.pool)
fetch_entry s f_ours hash (some txindex) =
    if disk_tx_pos_eq txindex.pos_on_disk pool_pos
    then with_index txindex (Dict.lookup hash s.pool)
    else with_index txindex (s.read_from_disk txindex.pos_on_disk)

-- One round of the first loop: the entry for a hash, if there is one.
unfoldable pub fetch_input : Sources → Bool → Dict ℕ TxIndex → ℕ → Option (TxIndex × Transaction)
fetch_input s f_ours map_test_pool hash =
    fetch_entry s f_ours hash (find_index s f_ours map_test_pool hash)

abbrev pub when_found :
    Option (TxIndex × Transaction) → (TxIndex × Transaction → Option MapPrevTx) → Option MapPrevTx
when_found none k = none
when_found (some e) k = k e

unfoldable pub fetch_loop :
    Sources → Bool → Dict ℕ TxIndex → List TxIn → MapPrevTx → Option MapPrevTx
fetch_loop s f_ours map_test_pool [] inputs_ret = some inputs_ret
fetch_loop s f_ours map_test_pool (txin ∷ vin) inputs_ret =
    if Dict.contains txin.prevout.hash inputs_ret
    then fetch_loop s f_ours map_test_pool vin inputs_ret
    else when_found (fetch_input s f_ours map_test_pool txin.prevout.hash)
        (λ e. fetch_loop s f_ours map_test_pool vin (Dict.insert txin.prevout.hash e inputs_ret))

abbrev pub in_range : Option (TxIndex × Transaction) → ℕ → Fetched → Fetched
in_range none n rest = aborted
in_range (some e) n rest =
    if leb (length e.1.vout) n || leb (length e.0.v_spent) n then invalid 100 else rest

-- The second loop: whether the outputs that are spent are in range.
unfoldable pub range_loop : MapPrevTx → List TxIn → Fetched
range_loop inputs_ret [] = fetched inputs_ret
range_loop inputs_ret (txin ∷ vin) =
    in_range (Dict.lookup txin.prevout.hash inputs_ret) txin.prevout.n (range_loop inputs_ret vin)

abbrev pub with_range : Option MapPrevTx → List TxIn → Fetched
with_range none vin = missing
with_range (some inputs_ret) vin = range_loop inputs_ret vin

unfoldable pub fetch_inputs : Sources → Dict ℕ TxIndex → Bool → Bool → Transaction → Fetched
fetch_inputs s map_test_pool f_block f_miner tx =
    if is_coin_base tx
    then fetched []
    else with_range (fetch_loop s (f_block || f_miner) map_test_pool tx.vin []) tx.vin
