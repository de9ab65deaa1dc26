-- ===== src/BestChain/Example.antt =====
-- Changes of the best chain of src/main.cpp with an index in memory: a block with two payments follows the
-- best one, and is then disconnected for another block.
use montecoin.Prelude.{
  ℕ, ◌==◌, ◌∙◌, inl, inr, if◌then◌else◌, ◌≡◌, refl, sym, ap, true, false, List, map, [], ◌∷◌,
  Option, none, some, nat_key, arith,
}
use montecoin.Prelude.Int.{ℤ, pos}
use montecoin.Prelude.Dict
use montecoin.Prelude.Dict.{Dict}
use montecoin.Tx.{OutPoint, Transaction}
use montecoin.Inputs.{TxIndex, null_pos}
use montecoin.Inputs.Connect.{Outcome, ok, ◌>>=◌}
use montecoin.Inputs.Memory.{some_eq, memory}
use montecoin.Block.{Block}
use montecoin.Block.Example.{
  coin_base, payment, next_payment, here, there, env, block, before, after, block_connects,
}
use montecoin.Block.Connect.{unscored}
use montecoin.Block.Finish.{Connected}
use montecoin.Chain.{BlockIndex, Chain, find_fork}
use montecoin.Mempool.{TxMemPool}
use montecoin.BestChain.{
  ChainEnv, State, block_hash, pointers_above, reorganize, set_best_chain_inner,
}
use montecoin.BestChain.Reorganized.{Sound}

abbrev pub entry : ℕ → ℕ → BlockIndex
entry hash height = record {
  hash_block = hash;
  n_height = height;
  n_version = pos 5;
  n_time = 950;
  n_bits = 0;
  is_proof_of_stake = false;
}

abbrev pub genesis : Chain
genesis = entry 1 0 ∷ []

abbrev pub best : Chain
best = entry 2 1 ∷ genesis

abbrev pub new : Chain
new = entry 3 1 ∷ genesis

abbrev pub new_coin_base : Transaction
new_coin_base = record coin_base { n_time = 901 }

abbrev pub new_block : Block
new_block = record block { hash_merkle_root = 901; vtx = new_coin_base ∷ [] }

abbrev pub chain_env : ChainEnv memory
chain_env = record {
  check = env.check;
  env_for = λ pindex db. env;
  pool_env = λ db. record {
    env = env.inputs;
    get_hash = env.check.get_hash;
    f_test_net = false;
    is_standard = λ tx. true;
    contains_tx = λ h. Dict.contains h db;
    read_tx_index = λ h. Dict.lookup h db;
    read_from_disk = env.read_from_disk;
    are_inputs_standard = λ tx inputs. true;
    rate_limited = λ tx. false;
  };
  read_from_disk = λ pindex. if block_hash pindex == 2 then some block else some new_block;
  write_index = λ pindex db mint supply. some db;
  write_hash_next = λ pindex k db. some db;
  write_hash_best_chain = λ k db. some db;
  commit = λ db. some db;
}

abbrev pub old_state : State (Dict ℕ TxIndex)
old_state = record {
  db = after;
  n_money_supply = (1, pos 35_000_000) ∷ (2, pos 34_000_000) ∷ [];
  p_next = (1, 2) ∷ [];
  pool = record { map_tx = []; map_next_tx = []; n_transactions_updated = 4 };
}

-- The payments are in the memory pool again.
abbrev pub new_state : State (Dict ℕ TxIndex)
new_state = record {
  db =
      (77, record { pos_on_disk = here; v_spent = null_pos ∷ null_pos ∷ [] })
      ∷ (901, record { pos_on_disk = there 381; v_spent = null_pos ∷ [] })
      ∷ [];
  n_money_supply = (1, pos 35_000_000) ∷ (2, pos 34_000_000) ∷ (3, pos 36_000_000) ∷ [];
  p_next = (1, 3) ∷ [];
  pool = record {
    map_tx = (88, payment) ∷ (99, next_payment) ∷ [];
    map_next_tx =
        (record { hash = 77; n = 0 }, record { ptx = 88; n = 0 })
        ∷ (record { hash = 77; n = 1 }, record { ptx = 88; n = 1 })
        ∷ (record { hash = 88; n = 0 }, record { ptx = 99; n = 0 })
        ∷ [];
    n_transactions_updated = 6;
  };
}

pub reorganized : reorganize memory chain_env best new old_state ≡ ok new_state
unfolding montecoin.Block.Finish.connect_block montecoin.Block.check_block
    montecoin.Block.block_size montecoin.Block.check_transactions montecoin.Block.check_rest
    montecoin.Block.insert_all montecoin.Block.block_sig_ops montecoin.Block.get_legacy_sig_op_count
    montecoin.Block.sig_ops_in montecoin.Block.sig_ops_out montecoin.Tx.Codec.int_codec
    montecoin.Tx.Codec.transaction_codec montecoin.Tx.Codec.uint_codec
    montecoin.Tx.Codec.tx_in_codec montecoin.Tx.Codec.out_point_codec
    montecoin.Tx.Codec.tx_out_codec montecoin.Tx.Codec.int64_codec
    montecoin.Serialize.Vector.vector_codec montecoin.Serialize.Vector.bytes_codec
    montecoin.Serialize.Vector.sum_sizes montecoin.Serialize.CompactSize.get_size_of_compact_size
    montecoin.Tx.is_coin_stake montecoin.Tx.is_coin_base montecoin.Tx.is_null montecoin.Tx.is_empty
    montecoin.Tx.Check.check_transaction montecoin.Tx.Check.check_outputs
    montecoin.Tx.Check.check_inputs montecoin.Tx.Check.has_duplicate
    montecoin.Tx.Check.has_null_prevout montecoin.Prelude.OrderedSet.contains
    montecoin.Prelude.OrderedSet.insert montecoin.Prelude.Dict.lookup montecoin.Prelude.Dict.insert
    montecoin.Prelude.Dict.contains montecoin.Prelude.Int64.add montecoin.Prelude.Int64.sub
    montecoin.Prelude.Int64.mul montecoin.Prelude.Int64.wrap montecoin.Prelude.Int.◌+ℤ◌
    montecoin.Prelude.Int.◌-ℤ◌ montecoin.Prelude.Int.◌*ℤ◌ montecoin.Tx.Money.money_range
    montecoin.Tx.Fee.get_min_fee montecoin.Tx.Fee.dust_fee montecoin.Tx.Fee.cap_fee
    montecoin.Tx.Value.get_value_out montecoin.Tx.Value.value_out_loop
    montecoin.Reward.get_proof_of_work_reward montecoin.Merkle.build_merkle_tree
    montecoin.Inputs.new_tx_index montecoin.Inputs.Connect.get_output_for
    montecoin.Inputs.Connect.value_in_loop montecoin.Inputs.Connect.get_value_in
    montecoin.Inputs.Connect.check_input montecoin.Inputs.Connect.check_loop
    montecoin.Inputs.Connect.check_signature montecoin.Inputs.Connect.spend_input
    montecoin.Inputs.Connect.spend_loop montecoin.Inputs.Connect.check_fee
    montecoin.Inputs.Connect.settle montecoin.Inputs.Connect.connect_inputs
    montecoin.Inputs.Fetch.find_index montecoin.Inputs.Fetch.fetch_input
    montecoin.Inputs.Fetch.fetch_loop montecoin.Inputs.Fetch.range_loop
    montecoin.Inputs.Fetch.fetch_inputs montecoin.Script.get_sig_op_count
    montecoin.Script.sig_op_loop montecoin.Script.get_op montecoin.Script.sig_ops_of
    montecoin.Script.is_pay_to_script_hash montecoin.Script.operand_size
    montecoin.Block.Connect.p2sh_loop montecoin.Block.Connect.p2sh_sig_op_count
    montecoin.Block.Connect.count_payment montecoin.Block.Connect.connect_payment
    montecoin.Block.Connect.connect_coin_base montecoin.Block.Connect.begin_tx
    montecoin.Block.Connect.connect_tx montecoin.Block.Connect.connect_loop
    montecoin.Block.Finish.first_tx_pos montecoin.Block.Finish.check_reward
    montecoin.Block.Finish.update_all montecoin.Block.Finish.write_changes
    montecoin.Block.Finish.connect_rest montecoin.Script.read_operand montecoin.Serialize.read
    montecoin.Merkle.push_levels montecoin.Merkle.push_pairs montecoin.BestChain.pointers_above
    montecoin.BestChain.to_resurrect montecoin.BestChain.disconnect_next
    montecoin.BestChain.connect_next montecoin.BestChain.resurrect montecoin.BestChain.remove_all
    montecoin.BestChain.disconnect_branch montecoin.BestChain.connect_at
    montecoin.BestChain.connect_branch montecoin.BestChain.write_best
    montecoin.BestChain.switch_branch montecoin.BestChain.reorganize
    montecoin.Block.Disconnect.disconnect_all montecoin.Block.Disconnect.disconnect_block
    montecoin.Inputs.disconnect_input montecoin.Inputs.disconnect_loop
    montecoin.Inputs.disconnect_inputs montecoin.Chain.go_down montecoin.Chain.find_fork
    montecoin.Mempool.remove montecoin.Mempool.add_unchecked montecoin.Mempool.add_inputs
    montecoin.Mempool.erase_inputs montecoin.Mempool.exists montecoin.Mempool.Accept.check_new
    montecoin.Mempool.Accept.has_conflict montecoin.Mempool.Accept.accept
    montecoin.Prelude.Dict.erase
reorganized = refl

pub chain_env-Sound : Sound memory chain_env
chain_env-Sound = record {
  erases = λ d k. (Dict.erase k d, refl);
  index_keeps = λ p m s d d' e k. kept d d' k e;
  next_keeps = λ p n d d' e k. kept d d' k e;
  best_keeps = λ n d d' e k. kept d d' k e;
  commit_keeps = λ d d' e k. kept d d' k e;
  in_file = λ p d. refl;
}
  where
    kept : (d d' : Dict ℕ TxIndex) (k : ℕ) → some d ≡ some d' → Dict.lookup k d' ≡ Dict.lookup k d
    kept d d' k e = ap (λ (x : Dict ℕ TxIndex). Dict.lookup k x) (sym (some_eq e))

-- The payments leave the memory pool when their block follows the best one.
abbrev pub before_block : State (Dict ℕ TxIndex)
before_block = record {
  db = before;
  n_money_supply = (1, pos 35_000_000) ∷ [];
  p_next = [];
  pool = record new_state.pool { n_transactions_updated = 2 };
}

pub followed : set_best_chain_inner memory chain_env best block before_block ≡ ok old_state
unfolding set_best_chain_inner montecoin.BestChain.connect_at montecoin.BestChain.write_best
    montecoin.BestChain.remove_all montecoin.Mempool.remove montecoin.Mempool.erase_inputs
    montecoin.Prelude.Dict.erase montecoin.Prelude.Dict.contains montecoin.Prelude.Dict.lookup
    montecoin.Prelude.Dict.insert
followed =
    ap
      (λ (x : Outcome (Connected (Dict ℕ TxIndex))).
        (unscored x >>= λ c. ok (c.db, Dict.insert 2 c.n_money_supply before_block.n_money_supply))
        >>= λ (c : Dict ℕ TxIndex × Dict ℕ ℤ).
            ok (record old_state { db = c.0; n_money_supply = c.1 }))
      block_connects
