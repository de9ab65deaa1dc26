-- ===== src/Mempool/Tests.antt =====
-- A run of the memory pool, and its theorems at concrete inputs.
use montecoin.Prelude.{
  ℕ, ◌≡◌, refl, true, false, List, [], ◌∷◌, none, some, nat_key, ◌==◌, if◌then◌else◌,
}
use montecoin.Prelude.Int.{pos, ◌+ℤ◌, ◌-ℤ◌, ◌*ℤ◌, ◌≤ℤ◌}
use montecoin.Prelude.Int64
use montecoin.Prelude.Dict
use montecoin.Prelude.OrderedSet
use montecoin.Serialize.CompactSize.{get_size_of_compact_size}
use montecoin.Serialize.Vector.{vector_codec, bytes_codec, sum_sizes}
use montecoin.Tx.{
  TxIn, TxOut, Transaction, is_null, is_empty, is_coin_base, is_coin_stake, out_point_key,
}
use montecoin.Tx.Codec.{
  transaction_codec, int_codec, int64_codec, uint_codec, tx_in_codec, tx_out_codec, out_point_codec,
}
use montecoin.Tx.Check.{
  check_transaction, check_outputs, check_inputs, has_duplicate, has_null_prevout,
}
use montecoin.Tx.Check.WellFormed.{IsWellFormed}
use montecoin.Tx.Money.{money_range, max_money, min_tx_fee}
use montecoin.Tx.Fee.{get_min_fee, dust_fee, cap_fee}
use montecoin.Tx.Value.{total, AllInRange, get_value_out, value_out_loop}
use montecoin.Inputs.{DiskTxPos, null_pos}
use montecoin.Inputs.Connect.{
  MapPrevTx, ok, get_output_for, value_in_loop, get_value_in, check_input, check_loop,
  check_signature, spend_input, spend_loop, check_fee, settle, connect_inputs,
}
use montecoin.Inputs.Value.{Spends}
use montecoin.Inputs.Fetch.{fetched, find_index, fetch_input, fetch_loop, range_loop, fetch_inputs}
use montecoin.Mempool.{TxMemPool, add_inputs, add_unchecked, remove, exists}
use montecoin.Mempool.Next.{in_point}
use montecoin.Mempool.Consistent.{IsConsistent, NoConflict, remove-IsConsistent}
use montecoin.Mempool.Accept.{
  PoolEnv, has_conflict, check_new, check_fees, check_funds, accept_fetched, accept, sources,
}
use montecoin.Mempool.Safe.{accept-IsConsistent, accept_fee}

abbrev spend : ℕ → ℕ → TxIn
spend hash n = record {
  prevout = record { hash = hash; n = n };
  script_sig = 1 ∷ [];
  n_sequence = 0;
}

abbrev pay : ℕ → TxOut
pay v = record { n_value = pos v; script_pub_key = 3 ∷ [] }

abbrev earlier : Transaction
earlier = record {
  n_version = pos 1;
  n_time = 1_000;
  vin = spend 5 0 ∷ [];
  vout = pay 10_000_000 ∷ pay 20_000_000 ∷ [];
  n_lock_time = 0;
}

abbrev payment : Transaction
payment = record earlier {
  n_time = 2_000;
  vin = spend 77 0 ∷ spend 77 1 ∷ [];
  vout = pay 29_000_000 ∷ [];
}

abbrev here : DiskTxPos
here = record { n_file = 1; n_block_pos = 2; n_tx_pos = 3 }

-- The index holds the earlier transaction under 77; a transaction's time stands for its hash.
abbrev pool_env : PoolEnv
pool_env = record {
  env = record {
    chain = [];
    n_coinbase_maturity = 20;
    n_best_height = pos 7;
    total_blocks_estimate = pos 0;
    n_money_supply = pos 0;
    verify_signature = λ tx_prev tx i strict. true;
    get_coin_age = λ tx. none;
  };
  get_hash = λ tx. tx.n_time;
  f_test_net = false;
  is_standard = λ tx. true;
  contains_tx = λ hash. false;
  read_tx_index = λ hash.
      if hash == 77
      then some (record { pos_on_disk = here; v_spent = null_pos ∷ null_pos ∷ [] })
      else none;
  read_from_disk = λ p. some earlier;
  are_inputs_standard = λ tx inputs. true;
  rate_limited = λ tx. false;
}

abbrev empty_pool : TxMemPool
empty_pool = record { map_tx = []; map_next_tx = []; n_transactions_updated = 1 }

abbrev one_tx : TxMemPool
one_tx = record {
  map_tx = (2_000, payment) ∷ [];
  map_next_tx =
      (record { hash = 77; n = 0 }, in_point 2_000 0)
      ∷ (record { hash = 77; n = 1 }, in_point 2_000 1)
      ∷ [];
  n_transactions_updated = 2;
}

empty_pool-IsConsistent : IsConsistent (λ tx. tx.n_time) empty_pool
unfolding Dict.lookup
empty_pool-IsConsistent = record {
  hashed = λ h tx e. cc;
  entered = λ h tx k txin e at. cc;
  backed = λ p q e. cc;
}

payment_accepted : accept pool_env empty_pool payment true ≡ (false, ok one_tx)
unfolding accept check_new accept_fetched check_fees check_funds has_conflict exists add_unchecked
    add_inputs fetch_inputs fetch_loop range_loop fetch_input find_index get_value_in value_in_loop
    get_output_for connect_inputs check_loop check_input spend_loop spend_input check_signature
    settle check_fee get_value_out value_out_loop money_range Int64.add Int64.sub Int64.mul
    Int64.wrap ◌+ℤ◌ ◌-ℤ◌ ◌*ℤ◌ get_min_fee dust_fee cap_fee is_coin_base is_coin_stake is_null
    is_empty Dict.lookup Dict.contains Dict.insert check_transaction check_outputs check_inputs
    has_duplicate has_null_prevout transaction_codec get_size_of_compact_size vector_codec sum_sizes
    bytes_codec OrderedSet.contains OrderedSet.insert int_codec int64_codec uint_codec tx_in_codec
    tx_out_codec out_point_codec
payment_accepted = refl

one_tx-IsConsistent : IsConsistent (λ tx. tx.n_time) one_tx
one_tx-IsConsistent =
    (accept-IsConsistent pool_env empty_pool payment true false one_tx empty_pool-IsConsistent
      payment_accepted).0

accept-IsConsistent_example :
    IsConsistent (λ tx. tx.n_time) one_tx
    × IsWellFormed payment
    × (Dict.lookup {K = ℕ} {V = Transaction} 2_000 [] ≡ none)
    × NoConflict empty_pool payment.vin
    × ((h : ℕ)
        → Dict.lookup h one_tx.map_tx
          ≡ (if 2_000 == h then some payment else Dict.lookup {K = ℕ} h []))
accept-IsConsistent_example =
    accept-IsConsistent pool_env empty_pool payment true false one_tx empty_pool-IsConsistent
      payment_accepted

accept_fee_example :
    (inputs : MapPrevTx) × (outs : List TxOut) × (fetch_inputs
        (sources pool_env empty_pool)
        []
        false
        false
        payment
      ≡ fetched inputs)
    × Spends inputs payment.vin outs
    × AllInRange outs
    × (get_value_in inputs payment ≡ ok (total outs))
    × (get_value_out payment.vout ≡ some (total payment.vout))
    × (total outs ≤ℤ pos max_money)
    × (total payment.vout +ℤ pos min_tx_fee ≤ℤ total outs)
accept_fee_example = accept_fee pool_env empty_pool payment false one_tx payment_accepted

remove-IsConsistent_example :
    IsConsistent (λ tx. tx.n_time) (remove (λ tx. tx.n_time) payment one_tx)
    × ((h : ℕ)
        → Dict.lookup h (remove (λ tx. tx.n_time) payment one_tx).map_tx
          ≡ (if 2_000 == h then none else Dict.lookup h one_tx.map_tx))
unfolding Dict.lookup
remove-IsConsistent_example =
    remove-IsConsistent (λ tx. tx.n_time) one_tx payment one_tx-IsConsistent refl
