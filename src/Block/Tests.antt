-- ===== src/Block/Tests.antt =====
-- A block with one transaction, and the theorem about its check.
use montecoin.Prelude.{
  some, none, sym, ap, nat_key, ℕ, ◌+◌, ◌*◌, ◌≡◌, ◌↔◌, refl, true, [], ◌∷◌, ltb,
}
use montecoin.Prelude.Int.{pos}
use montecoin.Tx.{
  TxIn, TxOut, Transaction, null_out_point, is_null, is_empty, is_coin_base, is_coin_stake,
}
use montecoin.Tx.Check.{valid, invalid}
use montecoin.Block.{Block, Env, check_block, block_size}
use montecoin.Inputs.{
  DiskTxPos, TxIndex, null_pos, new_tx_index, disconnect_input, disconnect_loop, disconnect_inputs,
}
use montecoin.Inputs.Memory.{some_eq, memory}
use montecoin.Prelude.Dict
use montecoin.Prelude.Dict.{Dict}
use montecoin.Block.Disconnect.{disconnect_all, disconnect_block, AllOut, disconnect_block-absent}
use montecoin.Block.WellFormed.{IsWellFormed, check_block-valid_iff}

abbrev test_env : Env
test_env = record {
  get_hash = λ tx. tx.n_time;
  hash_pair = λ a b. 10 * a + b;
  check_proof_of_work = λ b. ltb b.n_nonce 10;
  check_block_signature = λ b. true;
  adjusted_time = 1000;
}

abbrev test_coin_base : Transaction
test_coin_base = record {
  n_version = pos 1;
  n_time = 900;
  vin = record { prevout = null_out_point; script_sig = 1 ∷ 2 ∷ []; n_sequence = 0 } ∷ [];
  vout = record { n_value = pos 5; script_pub_key = 0xac ∷ [] } ∷ [];
  n_lock_time = 0;
}

-- A block with this root and this nonce.
abbrev test_block : ℕ → ℕ → Block
test_block merkle_root nonce = record {
  n_version = pos 5;
  hash_prev_block = 0;
  hash_merkle_root = merkle_root;
  n_time = 950;
  n_bits = 0;
  n_nonce = nonce;
  vtx = test_coin_base ∷ [];
  vch_block_sig = [];
}

wrong_work : check_block test_env true true (test_block 900 11) ≡ invalid 50
unfolding check_block block_size is_coin_base is_coin_stake is_null
    montecoin.Serialize.Vector.vector_codec montecoin.Serialize.Vector.bytes_codec
    montecoin.Serialize.Vector.sum_sizes montecoin.Tx.Codec.transaction_codec
    montecoin.Tx.Codec.int_codec montecoin.Serialize.CompactSize.get_size_of_compact_size
    montecoin.Tx.Codec.uint_codec montecoin.Tx.Codec.tx_in_codec montecoin.Tx.Codec.out_point_codec
    montecoin.Tx.Codec.tx_out_codec montecoin.Tx.Codec.int64_codec
wrong_work = refl

check_block-valid_iff_example :
    (check_block test_env true true (test_block 900 9) ≡ valid)
    ↔ IsWellFormed test_env true true (test_block 900 9)
check_block-valid_iff_example = check_block-valid_iff test_env true true (test_block 900 9)

-- A block with a payment, of which the index knows both transactions and the one that is spent.
abbrev test_payment : Transaction
test_payment = record {
  n_version = pos 1;
  n_time = 88;
  vin = record { prevout = record { hash = 77; n = 0 }; script_sig = []; n_sequence = 0 } ∷ [];
  vout = record { n_value = pos 5; script_pub_key = [] } ∷ [];
  n_lock_time = 0;
}

abbrev test_pos : DiskTxPos
test_pos = record { n_file = 1; n_block_pos = 2; n_tx_pos = 3 }

abbrev connected : Dict ℕ TxIndex
connected =
    (77, record { pos_on_disk = test_pos; v_spent = test_pos ∷ [] })
    ∷ (88, new_tx_index test_pos 1)
    ∷ (900, new_tx_index test_pos 1)
    ∷ []

abbrev disconnected : Dict ℕ TxIndex
disconnected = (77, record { pos_on_disk = test_pos; v_spent = null_pos ∷ [] }) ∷ []

block_disconnects :
    disconnect_block memory test_env.get_hash
      (λ db. some db)
      true
      connected
      (test_coin_base ∷ test_payment ∷ [])
    ≡ (disconnected, true)
unfolding disconnect_block disconnect_all disconnect_inputs disconnect_loop disconnect_input
    is_coin_base is_null Dict.lookup Dict.insert Dict.erase
block_disconnects = refl

disconnect_block-absent_example :
    AllOut memory test_env.get_hash disconnected (test_coin_base ∷ test_payment ∷ [])
    × ((k : ℕ) → Dict.lookup k connected ≡ none → Dict.lookup k disconnected ≡ none)
disconnect_block-absent_example =
    disconnect_block-absent memory test_env.get_hash (λ db. some db) true connected disconnected
      (test_coin_base ∷ test_payment ∷ []) (λ d hash. (Dict.erase hash d, refl))
      (λ d d' e k. ap (λ (x : Dict ℕ TxIndex). Dict.lookup k x) (sym (some_eq e))) block_disconnects
