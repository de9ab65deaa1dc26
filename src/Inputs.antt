-- ===== src/Inputs.antt =====
-- How a transaction takes over the outputs that it spends: `CTxIndex` of src/main.h, the transaction
-- index of src/db.cpp, and `DisconnectInputs`, `FetchInputs`, `GetOutputFor`, `GetValueIn` and
-- `ConnectInputs` of src/main.cpp.
pub mod Connect
pub mod Outcome
pub mod Value
pub mod Balance
pub mod Fetch
pub mod Current
pub mod Marks
pub mod Spend
pub mod Pool
pub mod View
pub mod Ordered
pub mod Disconnect
pub mod Memory
mod Tests
use montecoin.Prelude.{
  ℕ, zero, suc, ◌+◌, ◌-◌, ◌*◌, ◌^◌, ◌≤◌, ◌≡◌, refl, Bool, true, false, not, ◌&&◌, ◌||◌, List, [],
  ◌∷◌, Option, none, some, length, set, get_elem?, replicate, ltb, leb, ◌==◌, if◌then◌else◌,
  nat_key, arith,
}
use montecoin.Prelude.Int.{ℤ, pos, ltb_ℤ, ◌+ℤ◌, ◌-ℤ◌}
use montecoin.Prelude.Int64
use montecoin.Prelude.Dict
use montecoin.Prelude.Dict.{Dict}
use montecoin.Reward.{get_proof_of_stake_reward}
use montecoin.Tx.{OutPoint, TxIn, TxOut, Transaction, uint_max, is_coin_base, is_coin_stake}
use montecoin.Tx.Fee.{get_min_fee, gmf_block}
use montecoin.Tx.Money.{money_range, min_tx_fee}
use montecoin.Tx.Value.{get_value_out}

-- `CDiskTxPos`
pub record DiskTxPos : Type 0 where
  pub n_file : ℕ
  pub n_block_pos : ℕ
  pub n_tx_pos : ℕ

abbrev pub null_pos : DiskTxPos
null_pos = record { n_file = uint_max; n_block_pos = 0; n_tx_pos = 0 }

abbrev pub is_null_pos : DiskTxPos → Bool
is_null_pos p = p.n_file == uint_max

abbrev pub disk_tx_pos_eq : DiskTxPos → DiskTxPos → Bool
disk_tx_pos_eq a b =
    a.n_file == b.n_file && a.n_block_pos == b.n_block_pos && a.n_tx_pos == b.n_tx_pos

-- `CTxIndex`
pub record TxIndex : Type 0 where
  pub pos_on_disk : DiskTxPos
  pub v_spent : List DiskTxPos

-- `CTxIndex(posIn, nOutputs)`
unfoldable pub new_tx_index : DiskTxPos → ℕ → TxIndex
new_tx_index pos_in n_outputs = record {
  pos_on_disk = pos_in;
  v_spent = replicate n_outputs null_pos;
}

-- The transaction index: `CTxDB::ReadTxIndex`, `UpdateTxIndex` and `EraseTxIndex` over the key-value
-- store (Berkeley DB) that the program links. A write or a deletion can fail; what was written is
-- what is read.
pub record TxDb : Type 1 where
  pub Db : Type 0
  pub read_tx_index : Db → ℕ → Option TxIndex
  pub update_tx_index : Db → ℕ → TxIndex → Option Db
  pub erase_tx_index : Db → ℕ → Option Db
  pub read-update :
      (db db' : Db) (k j : ℕ) (v : TxIndex)
      → update_tx_index db k v ≡ some db'
      → read_tx_index db' j ≡ (if k == j then some v else read_tx_index db j)
  pub read-erase :
      (db db' : Db) (k j : ℕ)
      → erase_tx_index db k ≡ some db'
      → read_tx_index db' j ≡ (if k == j then none else read_tx_index db j)

-- A round that goes on if the one before did not fail.
abbrev pub or_stop : {A : Type 0} → A → Option A → (A → A × Bool) → A × Bool
or_stop a none k = (a, false)
or_stop a (some b) k = k b

abbrev pub or_same : {A : Type 0} → A → Option A → A
or_same a none = a
or_same a (some b) = b

-- The loop of `DisconnectInputs`; the flag is the result.
module _ (t : TxDb) where
  open t use {Db, read_tx_index, update_tx_index, erase_tx_index}

  -- The rest of a round: clear the mark of an output in the entry that was read.
  abbrev pub clear_mark : Db → OutPoint → Option TxIndex → Option Db
  clear_mark db prevout none = none
  clear_mark db prevout (some txindex) =
      if leb (length txindex.v_spent) prevout.n
      then none
      else update_tx_index db prevout.hash
          (record txindex { v_spent = set txindex.v_spent prevout.n null_pos })

  unfoldable pub disconnect_input : Db → OutPoint → Option Db
  disconnect_input db prevout = clear_mark db prevout (read_tx_index db prevout.hash)

  unfoldable pub disconnect_loop : Db → List TxIn → Db × Bool
  disconnect_loop db [] = (db, true)
  disconnect_loop db (txin ∷ vin) =
      or_stop db (disconnect_input db txin.prevout) (λ db'. disconnect_loop db' vin)

  -- The result of the final deletion is ignored. `hash` is `GetHash()`.
  unfoldable pub disconnect_inputs : Db → ℕ → Transaction → Db × Bool
  disconnect_inputs db hash tx =
      let (db', done) = (if not (is_coin_base tx) then disconnect_loop db tx.vin else (db, true)) in
      if done then (or_same db' (erase_tx_index db' hash), true) else (db', false)
