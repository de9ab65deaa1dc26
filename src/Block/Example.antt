-- ===== src/Block/Example.antt =====
-- A block with a payment that `ConnectBlock` of src/main.cpp connects to an index in memory.
use montecoin.Prelude.{
  ℕ, ◌+◌, ◌*◌, ◌==◌, if◌then◌else◌, ◌≡◌, refl, sym, ap, true, false, [], ◌∷◌, none, some, nat_key,
}
use montecoin.Prelude.Int.{ℤ, pos, negsuc, ◌+ℤ◌, ◌-ℤ◌, ◌*ℤ◌}
use montecoin.Prelude.Dict
use montecoin.Prelude.Dict.{Dict}
use montecoin.Tx.{OutPoint, TxIn, TxOut, Transaction, null_out_point}
use montecoin.Inputs.{DiskTxPos, TxIndex, null_pos}
use montecoin.Inputs.Connect.{ok}
use montecoin.Inputs.Memory.{memory}
use montecoin.Block.{Block}
use montecoin.Block.Connect.{ConnectEnv}
use montecoin.Block.Finish.{Connected, connect_block}

abbrev pub spend : ℕ → ℕ → TxIn
spend hash n = record { prevout = record { hash = hash; n = n }; script_sig = []; n_sequence = 0 }

abbrev pub pay : ℕ → TxOut
pay v = record { n_value = pos v; script_pub_key = [] }

-- The transaction that the index has under 77.
abbrev pub earlier : Transaction
earlier = record {
  n_version = pos 1;
  n_time = 77;
  vin = spend 5 0 ∷ [];
  vout = pay 10_000_000 ∷ pay 20_000_000 ∷ [];
  n_lock_time = 0;
}

abbrev pub coin_base : Transaction
coin_base = record {
  n_version = pos 1;
  n_time = 900;
  vin = record { prevout = null_out_point; script_sig = 1 ∷ 2 ∷ []; n_sequence = 0 } ∷ [];
  vout = pay 1_000_000 ∷ [];
  n_lock_time = 0;
}

-- A payment, and one that spends it.
abbrev pub payment : Transaction
payment = record earlier {
  n_time = 88;
  vin = spend 77 0 ∷ spend 77 1 ∷ [];
  vout = pay 29_000_000 ∷ [];
}

abbrev pub next_payment : Transaction
next_payment = record earlier { n_time = 99; vin = spend 88 0 ∷ []; vout = pay 28_000_000 ∷ [] }

abbrev pub here : DiskTxPos
here = record { n_file = 1; n_block_pos = 2; n_tx_pos = 3 }

-- A position in the block that is connected.
abbrev pub there : ℕ → DiskTxPos
there n = record { n_file = 1; n_block_pos = 300; n_tx_pos = n }

-- A transaction's time stands for its hash.
abbrev pub env : ConnectEnv
env = record {
  check = record {
    get_hash = λ tx. tx.n_time;
    hash_pair = λ a b. 10 * a + b;
    check_proof_of_work = λ b. true;
    check_block_signature = λ b. true;
    adjusted_time = 1000;
  };
  inputs = record {
    chain = [];
    n_coinbase_maturity = 20;
    n_best_height = pos 7;
    total_blocks_estimate = pos 0;
    n_money_supply = pos 0;
    verify_signature = λ tx_prev tx i strict. true;
    get_coin_age = λ tx. none;
  };
  read_from_disk = λ p. if p.n_tx_pos == 3 then some earlier else some payment;
  pool = [];
  n_file = 1;
  n_block_pos = 300;
  n_pow_height = pos 5;
  prev_supply = some (pos 35_000_000);
  is_genesis = false;
}

abbrev pub block : Block
block = record {
  n_version = pos 5;
  hash_prev_block = 0;
  hash_merkle_root = 91_969;
  n_time = 950;
  n_bits = 0;
  n_nonce = 0;
  vtx = coin_base ∷ payment ∷ next_payment ∷ [];
  vch_block_sig = [];
}

abbrev pub before : Dict ℕ TxIndex
before = (77, record { pos_on_disk = here; v_spent = null_pos ∷ null_pos ∷ [] }) ∷ []

abbrev pub after : Dict ℕ TxIndex
after =
    (77, record { pos_on_disk = here; v_spent = there 447 ∷ there 447 ∷ [] })
    ∷ (88, record { pos_on_disk = there 447; v_spent = there 552 ∷ [] })
    ∷ (99, record { pos_on_disk = there 552; v_spent = null_pos ∷ [] })
    ∷ (900, record { pos_on_disk = there 381; v_spent = null_pos ∷ [] })
    ∷ []

pub block_connects :
    connect_block memory env (λ db mint supply. some db) (λ db. some db) false block before
    ≡ ok (record { db = after; n_mint = pos 1_000_000; n_money_supply = pos 34_000_000 })
unfolding connect_block montecoin.Block.check_block montecoin.Block.block_size
    montecoin.Block.check_transactions montecoin.Block.check_rest montecoin.Block.insert_all
    montecoin.Block.block_sig_ops montecoin.Block.get_legacy_sig_op_count montecoin.Block.sig_ops_in
    montecoin.Block.sig_ops_out montecoin.Tx.Codec.int_codec montecoin.Tx.Codec.transaction_codec
    montecoin.Tx.Codec.uint_codec montecoin.Tx.Codec.tx_in_codec montecoin.Tx.Codec.out_point_codec
    montecoin.Tx.Codec.tx_out_codec montecoin.Tx.Codec.int64_codec
    montecoin.Serialize.Vector.vector_codec montecoin.Serialize.Vector.bytes_codec
    montecoin.Serialize.Vector.sum_sizes montecoin.Serialize.CompactSize.get_size_of_compact_size
    montecoin.Tx.is_coin_stake montecoin.Tx.is_coin_base montecoin.Tx.is_null montecoin.Tx.is_empty
    montecoin.Tx.Check.check_transaction montecoin.Tx.Check.check_outputs
    montecoin.Tx.Check.check_inputs montecoin.Tx.Check.has_duplicate
    montecoin.Tx.Check.has_null_prevout montecoin.Prelude.OrderedSet.contains
    montecoin.Prelude.OrderedSet.insert montecoin.Prelude.Dict.lookup montecoin.Prelude.Dict.insert
    montecoin.Prelude.Dict.contains montecoin.Prelude.Int64.add montecoin.Prelude.Int64.sub
    montecoin.Prelude.Int64.mul montecoin.Prelude.Int64.wrap montecoin.Prelude.Int.◌+ℤ◌
    montecoin.Prelude.Int.◌-ℤ◌ montecoin.Prelude.Int.◌*ℤ◌ montecoin.Tx.Money.money_range
    montecoin.Tx.Fee.get_min_fee montecoin.Tx.Fee.dust_fee montecoin.Tx.Fee.cap_fee
    montecoin.Tx.Value.get_value_out montecoin.Tx.Value.value_out_loop
    montecoin.Reward.get_proof_of_work_reward montecoin.Merkle.build_merkle_tree
    montecoin.Inputs.new_tx_index montecoin.Inputs.Connect.get_output_for
    montecoin.Inputs.Connect.value_in_loop montecoin.Inputs.Connect.get_value_in
    montecoin.Inputs.Connect.check_input montecoin.Inputs.Connect.check_loop
    montecoin.Inputs.Connect.check_signature montecoin.Inputs.Connect.spend_input
    montecoin.Inputs.Connect.spend_loop montecoin.Inputs.Connect.check_fee
    montecoin.Inputs.Connect.settle montecoin.Inputs.Connect.connect_inputs
    montecoin.Inputs.Fetch.find_index montecoin.Inputs.Fetch.fetch_input
    montecoin.Inputs.Fetch.fetch_loop montecoin.Inputs.Fetch.range_loop
    montecoin.Inputs.Fetch.fetch_inputs montecoin.Script.get_sig_op_count
    montecoin.Script.sig_op_loop montecoin.Script.get_op montecoin.Script.sig_ops_of
    montecoin.Script.is_pay_to_script_hash montecoin.Script.operand_size
    montecoin.Block.Connect.p2sh_loop montecoin.Block.Connect.p2sh_sig_op_count
    montecoin.Block.Connect.count_payment montecoin.Block.Connect.connect_payment
    montecoin.Block.Connect.connect_coin_base montecoin.Block.Connect.begin_tx
    montecoin.Block.Connect.connect_tx montecoin.Block.Connect.connect_loop
    montecoin.Block.Finish.first_tx_pos montecoin.Block.Finish.check_reward
    montecoin.Block.Finish.update_all montecoin.Block.Finish.write_changes
    montecoin.Block.Finish.connect_rest montecoin.Script.read_operand montecoin.Serialize.read
    montecoin.Merkle.push_levels montecoin.Merkle.push_pairs
block_connects = refl
