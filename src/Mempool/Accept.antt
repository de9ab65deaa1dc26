-- ===== src/Mempool/Accept.antt =====
-- `CTxMemPool::accept` of src/main.cpp. What follows the first `return false` in the search for
-- conflicts is not reached, so `ptxOld` stays null.
use montecoin.Prelude.{
  ℕ, ◌-◌, ◌^◌, Bool, true, false, not, ◌&&◌, ◌||◌, List, [], ◌∷◌, Option, ltb, if◌then◌else◌,
  nat_key,
}
use montecoin.Prelude.Int.{pos, ltb_ℤ}
use montecoin.Prelude.Int64
use montecoin.Prelude.Dict
use montecoin.Tx.{TxIn, Transaction, is_coin_base, is_coin_stake, out_point_key}
use montecoin.Tx.Money.{min_relay_tx_fee}
use montecoin.Tx.Check.{Verdict, valid, invalid, check_transaction}
use montecoin.Tx.Fee.{get_min_fee, gmf_relay}
use montecoin.Tx.Value.{get_value_out}
use montecoin.Inputs.{DiskTxPos, TxIndex}
use montecoin.Inputs.Connect.{
  MapPrevTx, Outcome, ok, refused, thrown, aborted, ◌>>=◌, ◌>>◌, refuse_if, or_else, Env, Mode,
  get_value_in, connect_inputs,
}
use montecoin.Inputs.Fetch
use montecoin.Inputs.Fetch.{Fetched, Sources, fetch_inputs, pool_pos}
use montecoin.Mempool.{TxMemPool, add_unchecked, exists}

-- What `accept` takes from the rest of the program: `ConnectInputs`' part, the hash of a transaction,
-- the index and the disk, the standard forms of scripts (src/script.cpp), and the limit on free
-- transactions, a window of time in floating point.
pub record PoolEnv : Type 0 where
  pub env : Env
  pub get_hash : Transaction → ℕ
  pub f_test_net : Bool
  pub is_standard : Transaction → Bool
  pub contains_tx : ℕ → Bool
  pub read_tx_index : ℕ → Option TxIndex
  pub read_from_disk : DiskTxPos → Option Transaction
  pub are_inputs_standard : Transaction → MapPrevTx → Bool
  pub rate_limited : Transaction → Bool

abbrev pub from_verdict : Verdict → Outcome (Unit {0})
from_verdict valid = ok tt
from_verdict (invalid n) = refused n

unfoldable pub has_conflict : TxMemPool → List TxIn → Bool
has_conflict pool [] = false
has_conflict pool (txin ∷ vin) =
    Dict.contains txin.prevout pool.map_next_tx || has_conflict pool vin

-- The checks that come before the inputs are fetched.
unfoldable pub check_new : PoolEnv → TxMemPool → Transaction → Bool → Outcome (Unit {0})
check_new e pool tx f_check_inputs = do
  from_verdict (check_transaction tx)
  refuse_if (is_coin_base tx) 100
  refuse_if (is_coin_stake tx) 100
  refuse_if (ltb (2 ^ 31 - 1) tx.n_lock_time) 0
  refuse_if (not e.f_test_net && not (e.is_standard tx)) 0
  refuse_if (exists (e.get_hash tx) pool) 0
  refuse_if (f_check_inputs && e.contains_tx (e.get_hash tx)) 0
  refuse_if (has_conflict pool tx.vin) 0

abbrev pub loose : Mode
loose = record { pos_this_tx = pool_pos; f_block = false; f_miner = false; f_strict = true }

-- The checks of the fee, against the fetched inputs.
unfoldable pub check_fees : PoolEnv → Transaction → MapPrevTx → Outcome (Unit {0})
check_fees e tx inputs = do
  refuse_if (not (e.are_inputs_standard tx inputs) && not e.f_test_net) 0
  value_in ← get_value_in inputs tx
  value_out ← or_else thrown (get_value_out tx.vout)
  let n_fees = Int64.sub value_in value_out
  refuse_if (ltb_ℤ n_fees (get_min_fee tx.vout 1000 gmf_relay 0)) 0
  refuse_if (ltb_ℤ n_fees (pos min_relay_tx_fee) && e.rate_limited tx) 0

unfoldable pub check_funds : PoolEnv → Transaction → MapPrevTx → Outcome (Unit {0})
check_funds e tx inputs = do
  check_fees e tx inputs
  changed ← connect_inputs e.env loose tx inputs []
  ok tt

abbrev pub store : PoolEnv → TxMemPool → Transaction → Outcome TxMemPool
store e pool tx = ok (add_unchecked (e.get_hash tx) tx pool)

abbrev pub sources : PoolEnv → TxMemPool → Sources
sources e pool = record {
  read_tx_index = e.read_tx_index;
  read_from_disk = e.read_from_disk;
  pool = pool.map_tx;
}

-- With what was fetched; the flag is `*pfMissingInputs`.
unfoldable pub accept_fetched :
    PoolEnv → TxMemPool → Transaction → Fetched → Bool × Outcome TxMemPool
accept_fetched e pool tx (Fetch.fetched inputs) =
    (false, check_funds e tx inputs >> store e pool tx)
accept_fetched e pool tx Fetch.missing = (true, refused 0)
accept_fetched e pool tx (Fetch.invalid n) = (false, refused n)
accept_fetched e pool tx Fetch.aborted = (false, aborted)

abbrev pub accept_rest :
    PoolEnv → TxMemPool → Transaction → Bool → Outcome (Unit {0}) → Bool × Outcome TxMemPool
accept_rest e pool tx f_check_inputs (ok u) =
    if f_check_inputs
    then accept_fetched e pool tx (fetch_inputs (sources e pool) [] false false tx)
    else (false, store e pool tx)
accept_rest e pool tx f_check_inputs (refused n) = (false, refused n)
accept_rest e pool tx f_check_inputs thrown = (false, thrown)
accept_rest e pool tx f_check_inputs aborted = (false, aborted)

-- The pool that comes back where the call returns `true`; otherwise the pool stays what it was.
unfoldable pub accept : PoolEnv → TxMemPool → Transaction → Bool → Bool × Outcome TxMemPool
accept e pool tx f_check_inputs =
    accept_rest e pool tx f_check_inputs (check_new e pool tx f_check_inputs)
