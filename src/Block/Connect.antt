-- ===== src/Block/Connect.antt =====
-- `ConnectBlock` of src/main.cpp, with `GetP2SHSigOpCount`: a block's transactions are connected one
-- after the other, and the changes of the index are queued and written at the end.
use montecoin.Prelude.{
  ℕ, ◌+◌, ◌%◌, ◌^◌, Bool, true, false, ◌||◌, List, [], ◌∷◌, Option, none, some, length, ltb,
  if◌then◌else◌, nat_key,
}
use montecoin.Prelude.Int.{ℤ}
use montecoin.Prelude.Int64
use montecoin.Prelude.Dict
use montecoin.Prelude.Dict.{Dict}
use montecoin.Script.{is_pay_to_script_hash, get_p2sh_sig_op_count}
use montecoin.Tx.{TxIn, Transaction, is_coin_base, is_coin_stake}
use montecoin.Tx.Check.{Verdict, valid, invalid}
use montecoin.Tx.Codec.{transaction_codec}
use montecoin.Tx.Value.{get_value_out}
use montecoin.Inputs.{DiskTxPos, TxIndex, is_null_pos, new_tx_index}
use montecoin.Inputs.Connect.{
  MapPrevTx, Outcome, ok, refused, thrown, aborted, ◌>>=◌, ◌>>◌, refuse_if, or_else, Mode,
  get_output_for, get_value_in, connect_inputs,
}
use montecoin.Inputs.Connect
use montecoin.Inputs.Fetch.{Fetched, fetched, missing, Sources, fetch_inputs}
use montecoin.Inputs.Fetch
use montecoin.Block.{Env, max_block_sigops, get_legacy_sig_op_count}

-- What the call takes from the rest of the program: what the checks of the block and of the inputs
-- take, the blocks on disk and the memory pool, and the block's entry `pindex` in the index of blocks,
-- with the money supply of the block before if there is one.
pub record ConnectEnv : Type 0 where
  pub check : Env
  pub inputs : Connect.Env
  pub read_from_disk : DiskTxPos → Option Transaction
  pub pool : Dict ℕ Transaction
  pub n_file : ℕ
  pub n_block_pos : ℕ
  pub n_pow_height : ℤ
  pub prev_supply : Option ℤ
  pub is_genesis : Bool

-- The variables of the loop; `queued` is `mapQueuedChanges`.
pub record Queue : Type 0 where
  pub queued : Dict ℕ TxIndex
  pub n_fees : ℤ
  pub n_value_in : ℤ
  pub n_value_out : ℤ
  pub n_sig_ops : ℕ
  pub n_tx_pos : ℕ

-- The loop over the inputs in `GetP2SHSigOpCount`.
unfoldable pub p2sh_loop : MapPrevTx → ℕ → List TxIn → Outcome ℕ
p2sh_loop inputs n_sig_ops [] = ok n_sig_ops
p2sh_loop inputs n_sig_ops (txin ∷ vin) = do
  prevout ← get_output_for inputs txin
  p2sh_loop inputs
      (if is_pay_to_script_hash prevout.script_pub_key
        then (n_sig_ops + get_p2sh_sig_op_count prevout.script_pub_key txin.script_sig) % 2 ^ 32
        else n_sig_ops)
      vin

unfoldable pub p2sh_sig_op_count : MapPrevTx → Transaction → Outcome ℕ
p2sh_sig_op_count inputs tx = if is_coin_base tx then ok 0 else p2sh_loop inputs 0 tx.vin

-- The block is refused without a score of its own where a transaction is refused with one.
abbrev pub unscored : {A : Type 0} → Outcome A → Outcome A
unscored (ok a) = ok a
unscored (refused n) = refused 0
unscored thrown = thrown
unscored aborted = aborted

abbrev pub when_fetched : Fetched → Outcome MapPrevTx
when_fetched (fetched inputs) = ok inputs
when_fetched missing = refused 0
when_fetched (Fetch.invalid n) = refused 0
when_fetched Fetch.aborted = aborted

abbrev pub when_valid : Verdict → Outcome (Unit {0})
when_valid valid = ok tt
when_valid (invalid n) = refused n

-- Whether an output of the transaction with this hash is not spent: the check of BIP 30.
abbrev pub has_null_mark : List DiskTxPos → Bool
has_null_mark [] = false
has_null_mark (p ∷ v_spent) = is_null_pos p || has_null_mark v_spent

abbrev pub overwrites : Option TxIndex → Bool
overwrites none = false
overwrites (some txindex_old) = has_null_mark txindex_old.v_spent

module _ (e : ConnectEnv) (read_tx_index : ℕ → Option TxIndex) where
  -- What `FetchInputs` reads.
  abbrev pub sources : Sources
  sources = record {
    read_tx_index = read_tx_index;
    read_from_disk = e.read_from_disk;
    pool = e.pool;
  }

  abbrev pub tx_pos : ℕ → DiskTxPos
  tx_pos n_tx_pos = record { n_file = e.n_file; n_block_pos = e.n_block_pos; n_tx_pos = n_tx_pos }

  -- The mode in which a block's inputs are connected.
  abbrev pub block_mode : ℕ → Mode
  block_mode n_tx_pos = record {
    pos_this_tx = tx_pos n_tx_pos;
    f_block = true;
    f_miner = false;
    f_strict = true;
  }

  -- What a transaction that is not a coinbase adds to the counts and the sums.
  unfoldable pub count_payment : Transaction → MapPrevTx → Queue → Outcome Queue
  count_payment tx inputs q = do
    n_p2sh ← p2sh_sig_op_count inputs tx
    let n_sig_ops' = (q.n_sig_ops + n_p2sh) % 2 ^ 32
    refuse_if (ltb max_block_sigops n_sig_ops') 100
    n_tx_value_in ← get_value_in inputs tx
    n_tx_value_out ← or_else thrown (get_value_out tx.vout)
    ok (record q {
      n_sig_ops = n_sig_ops';
      n_value_in = Int64.add q.n_value_in n_tx_value_in;
      n_value_out = Int64.add q.n_value_out n_tx_value_out;
      n_fees =
          (if is_coin_stake tx
            then q.n_fees
            else Int64.add q.n_fees (Int64.sub n_tx_value_in n_tx_value_out));
    })

  abbrev pub with_queued : Queue → Outcome (Dict ℕ TxIndex) → Outcome Queue
  with_queued q m = m >>= λ queued'. ok (record q { queued = queued' })

  -- The part of a round for a transaction that is not a coinbase.
  unfoldable pub connect_payment : Transaction → ℕ → Queue → Outcome Queue
  connect_payment tx n_tx_pos q = do
    inputs ← when_fetched (fetch_inputs sources q.queued true false tx)
    q' ← count_payment tx inputs q
    with_queued q' (unscored (connect_inputs e.inputs (block_mode n_tx_pos) tx inputs q.queued))

  unfoldable pub connect_coin_base : Transaction → Queue → Outcome Queue
  connect_coin_base tx q = do
    n_tx_value_out ← or_else thrown (get_value_out tx.vout)
    ok (record q { n_value_out = Int64.add q.n_value_out n_tx_value_out })

  -- The checks that a round begins with, and the counts that they change.
  unfoldable pub begin_tx : Bool → Transaction → Queue → Outcome Queue
  begin_tx f_just_check tx q = do
    refuse_if (overwrites (read_tx_index (e.check.get_hash tx))) 0
    let n_sig_ops' = (q.n_sig_ops + get_legacy_sig_op_count tx) % 2 ^ 32
    refuse_if (ltb max_block_sigops n_sig_ops') 100
    let n_tx_pos' =
        (if f_just_check
          then q.n_tx_pos
          else (q.n_tx_pos + transaction_codec.get_serialize_size tx) % 2 ^ 32)
    ok (record q { n_sig_ops = n_sig_ops'; n_tx_pos = n_tx_pos' })

  -- `mapQueuedChanges[hashTx] = CTxIndex(posThisTx, tx.vout.size())`
  abbrev pub queue_tx : Transaction → ℕ → Queue → Queue
  queue_tx tx n_tx_pos q = record q {
    queued =
        Dict.insert (e.check.get_hash tx) (new_tx_index (tx_pos n_tx_pos) (length tx.vout))
          q.queued;
  }

  -- One round of the loop over the transactions.
  unfoldable pub connect_tx : Bool → Transaction → Queue → Outcome Queue
  connect_tx f_just_check tx q = do
    q' ← begin_tx f_just_check tx q
    q'' ← (if is_coin_base tx then connect_coin_base tx q' else connect_payment tx q.n_tx_pos q')
    ok (queue_tx tx q.n_tx_pos q'')

  unfoldable pub connect_loop : Bool → List Transaction → Queue → Outcome Queue
  connect_loop f_just_check [] q = ok q
  connect_loop f_just_check (tx ∷ vtx) q = do
    q' ← connect_tx f_just_check tx q
    connect_loop f_just_check vtx q'
