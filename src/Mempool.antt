-- ===== src/Mempool.antt =====
-- The memory pool of transactions that are in no block: `CTxMemPool` of src/main.h and src/main.cpp.
-- A pointer into `mapTx` is the key that it points at. `GetHash` is a parameter.
pub mod Next
pub mod Consistent
pub mod Accept
pub mod Safe
mod Tests
use montecoin.Prelude.{
  ℕ, ◌+◌, Bool, true, false, List, [], ◌∷◌, Option, none, some, map, if◌then◌else◌, nat_key,
}
use montecoin.Prelude.Dict
use montecoin.Prelude.Dict.{Dict}
use montecoin.Tx.{OutPoint, TxIn, Transaction, out_point_key}

-- `CInPoint`
pub record InPoint : Type 0 where
  pub ptx : ℕ
  pub n : ℕ

pub record TxMemPool : Type 0 where
  pub map_tx : Dict ℕ Transaction
  pub map_next_tx : Dict OutPoint InPoint
  pub n_transactions_updated : ℕ

-- The loop of `addUnchecked`, from input `i` on.
unfoldable pub add_inputs : ℕ → ℕ → List TxIn → Dict OutPoint InPoint → Dict OutPoint InPoint
add_inputs hash i [] m = m
add_inputs hash i (txin ∷ vin) m =
    add_inputs hash (i + 1) vin (Dict.insert txin.prevout (record { ptx = hash; n = i }) m)

-- The counter is an unsigned int that is only compared with former values of it.
unfoldable pub add_unchecked : ℕ → Transaction → TxMemPool → TxMemPool
add_unchecked hash tx pool = record {
  map_tx = Dict.insert hash tx pool.map_tx;
  map_next_tx = add_inputs hash 0 tx.vin pool.map_next_tx;
  n_transactions_updated = pool.n_transactions_updated + 1;
}

-- The loop of `remove`.
unfoldable pub erase_inputs : List TxIn → Dict OutPoint InPoint → Dict OutPoint InPoint
erase_inputs [] m = m
erase_inputs (txin ∷ vin) m = erase_inputs vin (Dict.erase txin.prevout m)

abbrev pub removed : ℕ → Transaction → TxMemPool → TxMemPool
removed hash tx pool = record {
  map_tx = Dict.erase hash pool.map_tx;
  map_next_tx = erase_inputs tx.vin pool.map_next_tx;
  n_transactions_updated = pool.n_transactions_updated + 1;
}

unfoldable pub remove : (Transaction → ℕ) → Transaction → TxMemPool → TxMemPool
remove get_hash tx pool =
    if Dict.contains (get_hash tx) pool.map_tx then removed (get_hash tx) tx pool else pool

unfoldable pub clear : TxMemPool → TxMemPool
clear pool = record {
  map_tx = [];
  map_next_tx = [];
  n_transactions_updated = pool.n_transactions_updated + 1;
}

unfoldable pub query_hashes : TxMemPool → List ℕ
query_hashes pool = map (λ (e : ℕ × Transaction). e.0) pool.map_tx

unfoldable pub exists : ℕ → TxMemPool → Bool
exists hash pool = Dict.contains hash pool.map_tx
