-- ===== src/Block/Finish.antt =====
-- `ConnectBlock` of src/main.cpp around its loop over the transactions: the checks before, and the writes
-- and the check of the reward behind.
use montecoin.Prelude.{
  ℕ, ◌+◌, ◌-◌, ◌*◌, ◌%◌, ◌^◌, Bool, true, false, not, List, [], ◌∷◌, Option, none, some, length,
  if◌then◌else◌, nat_key,
}
use montecoin.Prelude.Int.{ℤ, pos, ltb_ℤ}
use montecoin.Prelude.Int64
use montecoin.Prelude.Dict.{Dict}
use montecoin.Serialize.CompactSize.{get_size_of_compact_size}
use montecoin.Reward.{get_proof_of_work_reward}
use montecoin.Tx.{Transaction}
use montecoin.Tx.Value.{get_value_out}
use montecoin.Inputs.{TxIndex, TxDb}
use montecoin.Inputs.Connect.{
  Outcome, ok, refused, thrown, aborted, ◌>>=◌, ◌>>◌, refuse_if, or_else,
}
use montecoin.Block.{Block, block_size, check_block}
use montecoin.Block.Connect.{ConnectEnv, Queue, when_valid, connect_loop}

-- `CBlock()`, of which only the size is used.
abbrev pub null_block : Block
null_block = record {
  n_version = pos 5;
  hash_prev_block = 0;
  hash_merkle_root = 0;
  n_time = 0;
  n_bits = 0;
  n_nonce = 0;
  vtx = [];
  vch_block_sig = [];
}

-- The position of the first transaction; a block that is only checked is not on disk.
unfoldable pub first_tx_pos : ConnectEnv → Bool → List Transaction → ℕ
first_tx_pos e f_just_check vtx =
    if f_just_check
    then 1
    else (e.n_block_pos
        + block_size null_block
        - 2 * get_size_of_compact_size 0
        + get_size_of_compact_size (length vtx))
      % 2 ^ 32

abbrev pub start : ConnectEnv → Bool → List Transaction → Queue
start e f_just_check vtx = record {
  queued = [];
  n_fees = pos 0;
  n_value_in = pos 0;
  n_value_out = pos 0;
  n_sig_ops = 0;
  n_tx_pos = first_tx_pos e f_just_check vtx;
}

-- `pindex->nMint` and `pindex->nMoneySupply`.
abbrev pub mint : Queue → ℤ
mint q = Int64.add (Int64.sub q.n_value_out q.n_value_in) q.n_fees

abbrev pub or_zero : Option ℤ → ℤ
or_zero none = pos 0
or_zero (some z) = z

abbrev pub money_supply : ConnectEnv → Queue → ℤ
money_supply e q = Int64.sub (Int64.add (or_zero e.prev_supply) q.n_value_out) q.n_value_in

abbrev pub has_prev : ConnectEnv → Bool
has_prev e = is_there e.prev_supply
  where
    is_there : Option ℤ → Bool
    is_there none = false
    is_there (some z) = true

abbrev pub value_of_first : List Transaction → Outcome ℤ
value_of_first [] = aborted
value_of_first (tx ∷ vtx) = or_else thrown (get_value_out tx.vout)

-- The coinbase pays at most the reward and the fees.
unfoldable pub check_reward : ConnectEnv → List Transaction → ℤ → Outcome (Unit {0})
check_reward e vtx n_fees = if e.is_genesis then ok tt else (do
  n_value ← value_of_first vtx
  refuse_if (ltb_ℤ (get_proof_of_work_reward e.inputs.n_money_supply e.n_pow_height n_fees) n_value)
      0)

-- The block's new entry in the index of blocks goes with the store.
pub record Connected (Db : Type 0) : Type 0 where
  pub db : Db
  pub n_mint : ℤ
  pub n_money_supply : ℤ

-- `write_index` writes the block's entry with these two values to the index of blocks, and
-- `write_prev` that of the block before with its `hashNext`; either can fail.
module _ (t : TxDb) (e : ConnectEnv) where
  open t use {Db, read_tx_index, update_tx_index}

  -- The loop that writes the queued changes.
  unfoldable pub update_all : Db → Dict ℕ TxIndex → Outcome Db
  update_all db [] = ok db
  update_all db ((hash, txindex) ∷ queued) = do
    db' ← or_else (refused 0) (update_tx_index db hash txindex)
    update_all db' queued

  -- What is done with a block that is not only checked: the changes are written, the reward is checked,
  -- and the block before is written.
  unfoldable pub write_changes : (Db → Option Db) → List Transaction → Queue → Db → Outcome Db
  write_changes write_prev vtx q db = do
    db' ← update_all db q.queued
    check_reward e vtx q.n_fees
    if has_prev e then or_else (refused 0) (write_prev db') else ok db'

  abbrev pub connected : Queue → Outcome Db → Outcome (Connected Db)
  connected q m =
      m >>= λ db. ok (record { db = db; n_mint = mint q; n_money_supply = money_supply e q })

  -- What follows the loop over the transactions.
  unfoldable pub connect_rest :
      (Db → ℤ → ℤ → Option Db)
      → (Db → Option Db)
      → Bool
      → List Transaction
      → Db
      → Queue
      → Outcome (Connected Db)
  connect_rest write_index write_prev f_just_check vtx db q = do
    db' ← or_else (refused 0) (write_index db (mint q) (money_supply e q))
    connected q (if f_just_check then ok db' else write_changes write_prev vtx q db')

  unfoldable pub connect_block :
      (Db → ℤ → ℤ → Option Db) → (Db → Option Db) → Bool → Block → Db → Outcome (Connected Db)
  connect_block write_index write_prev f_just_check b db = do
    when_valid (check_block e.check (not f_just_check) (not f_just_check) b)
    q ← connect_loop e (read_tx_index db) f_just_check b.vtx (start e f_just_check b.vtx)
    connect_rest write_index write_prev f_just_check b.vtx db q
