-- ===== src/BestChain.antt =====
-- How the best chain changes: `Reorganize` and `CBlock::SetBestChainInner` of src/main.cpp. Pointers to
-- blocks of the index are chains, as in Chain.antt.
pub mod Reorganized
pub mod Followed
pub mod Above
pub mod Current
pub mod Example
mod Tests
use mathlib.Core.List.{reverse}
use montecoin.Prelude.{
  ℕ, Bool, true, false, not, ◌||◌, List, [], ◌∷◌, ◌++◌, Option, none, some, if◌then◌else◌, nat_key,
}
use montecoin.Prelude.Int.{ℤ, pos}
use montecoin.Prelude.Dict
use montecoin.Prelude.Dict.{Dict}
use montecoin.Tx.{Transaction, is_coin_base, is_coin_stake}
use montecoin.Inputs.{TxDb}
use montecoin.Inputs.Connect.{Outcome, ok, refused, thrown, aborted, ◌>>=◌, or_else}
use montecoin.Block.{Block, Env}
use montecoin.Block.Disconnect.{disconnect_block}
use montecoin.Block.Connect.{ConnectEnv, unscored}
use montecoin.Block.Finish.{connect_block}
use montecoin.Chain.{BlockIndex, Chain, same_block, find_fork}
use montecoin.Mempool.{TxMemPool, remove}
use montecoin.Mempool.Accept.{PoolEnv, accept}

-- What the calls take from the rest of the program: the blocks on disk (`ReadFromDisk`), what a block is
-- connected with, and the writes to the store of src/db.cpp, which can fail: the entry of a block with
-- its two values, the entry of the block before with its `hashNext`, the hash of the best block, and the
-- end of the transaction of the store.
pub record ChainEnv (t : TxDb) : Type 0 where
  pub check : Env
  pub env_for : Chain → t.Db → ConnectEnv
  pub pool_env : t.Db → PoolEnv
  pub read_from_disk : Chain → Option Block
  pub write_index : Chain → t.Db → ℤ → ℤ → Option t.Db
  pub write_hash_next : Chain → ℕ → t.Db → Option t.Db
  pub write_hash_best_chain : ℕ → t.Db → Option t.Db
  pub commit : t.Db → Option t.Db

-- The store, the memory pool, and two fields of the blocks of the index, by hash: `nMoneySupply` and
-- `pnext`, which is null where it is missing.
pub record State (Db : Type 0) : Type 0 where
  pub db : Db
  pub n_money_supply : Dict ℕ ℤ
  pub p_next : Dict ℕ ℕ
  pub pool : TxMemPool

abbrev pub block_hash : Chain → ℕ
block_hash [] = 0
block_hash (b ∷ c) = b.hash_block

abbrev pub p_prev : Chain → Chain
p_prev [] = []
p_prev (b ∷ c) = c

-- The pointers that the loops from a block back to the fork list.
unfoldable pub pointers_above : Chain → Chain → List Chain
pointers_above pfork [] = []
pointers_above pfork (b ∷ pindex) =
    let rest = pointers_above pfork pindex in
    if same_block (b ∷ pindex) pfork then [] else (b ∷ pindex) ∷ rest

abbrev pub is_some_block : Chain → Bool
is_some_block [] = false
is_some_block (b ∷ c) = true

-- `nMoneySupply` of the block before, if there is one.
abbrev pub supply_of : Option ℤ → Option ℤ
supply_of none = some (pos 0)
supply_of (some n) = some n

abbrev pub prev_supply : Dict ℕ ℤ → Chain → Option ℤ
prev_supply supplies [] = none
prev_supply supplies (p ∷ c) = supply_of (Dict.lookup p.hash_block supplies)

abbrev pub from_flag : {Db : Type 0} → Db × Bool → Outcome Db
from_flag (db, true) = ok db
from_flag (db, false) = refused 0

-- `vResurrect` gets the transactions of a block but its coinbase and its coinstake.
unfoldable pub to_resurrect : List Transaction → List Transaction
to_resurrect [] = []
to_resurrect (tx ∷ vtx) =
    let rest = to_resurrect vtx in if is_coin_base tx || is_coin_stake tx then rest else tx ∷ rest

-- The loops over `pnext`.
unfoldable pub disconnect_next : List Chain → Dict ℕ ℕ → Dict ℕ ℕ
disconnect_next [] next = next
disconnect_next (pindex ∷ v) next =
    disconnect_next v
      (if is_some_block (p_prev pindex) then Dict.erase (block_hash (p_prev pindex)) next else next)

unfoldable pub connect_next : List Chain → Dict ℕ ℕ → Dict ℕ ℕ
connect_next [] next = next
connect_next (pindex ∷ v) next = connect_next v (
    if is_some_block (p_prev pindex)
    then Dict.insert (block_hash (p_prev pindex)) (block_hash pindex) next
    else next)

-- The result of `AcceptToMemoryPool` is ignored.
abbrev pub or_unchanged : TxMemPool → Outcome TxMemPool → Outcome TxMemPool
or_unchanged pool (ok pool') = ok pool'
or_unchanged pool (refused n) = ok pool
or_unchanged pool thrown = thrown
or_unchanged pool aborted = aborted

unfoldable pub resurrect : PoolEnv → List Transaction → TxMemPool → Outcome TxMemPool
resurrect e [] pool = ok pool
resurrect e (tx ∷ v) pool = do
  pool' ← or_unchanged pool ((accept e pool tx false).1)
  resurrect e v pool'

unfoldable pub remove_all : (Transaction → ℕ) → List Transaction → TxMemPool → TxMemPool
remove_all get_hash [] pool = pool
remove_all get_hash (tx ∷ v) pool = remove_all get_hash v (remove get_hash tx pool)

module _ (t : TxDb) (e : ChainEnv t) where
  open t use {Db}

  abbrev pub connect_env : Chain → Dict ℕ ℤ → Db → ConnectEnv
  connect_env pindex supplies db = record (e.env_for pindex db) {
    check = e.check;
    prev_supply = prev_supply supplies (p_prev pindex);
  }

  -- The loop that disconnects the shorter branch, with `vResurrect`.
  unfoldable pub disconnect_branch :
      List Chain → Db → List Transaction → Outcome (Db × List Transaction)
  disconnect_branch [] db v_resurrect = ok (db, v_resurrect)
  disconnect_branch (pindex ∷ v) db v_resurrect = do
    block ← or_else (refused 0) (e.read_from_disk pindex)
    db' ← from_flag (
        disconnect_block t e.check.get_hash (e.write_hash_next pindex 0)
          (is_some_block (p_prev pindex)) db block.vtx)
    disconnect_branch v db' (v_resurrect ++ to_resurrect block.vtx)

  -- `CBlock::ConnectBlock`, with the entry of the block in the index.
  unfoldable pub connect_at : Chain → Block → Db → Dict ℕ ℤ → Outcome (Db × Dict ℕ ℤ)
  connect_at pindex block db supplies = do
    c ← unscored (
        connect_block t (connect_env pindex supplies db) (e.write_index pindex)
          (e.write_hash_next pindex (block_hash pindex)) false block db)
    ok (c.db, Dict.insert (block_hash pindex) c.n_money_supply supplies)

  -- The loop that connects the longer branch, with `vDelete`.
  unfoldable pub connect_branch :
      List Chain → Db → Dict ℕ ℤ → List Transaction → Outcome (Db × Dict ℕ ℤ × List Transaction)
  connect_branch [] db supplies v_delete = ok (db, supplies, v_delete)
  connect_branch (pindex ∷ v) db supplies v_delete = do
    block ← or_else (refused 0) (e.read_from_disk pindex)
    c ← connect_at pindex block db supplies
    connect_branch v c.0 c.1 (v_delete ++ block.vtx)

  -- The two writes that end a change of the best chain.
  unfoldable pub write_best : ℕ → Db → Outcome Db
  write_best hash db = do
    db' ← or_else (refused 0) (e.write_hash_best_chain hash db)
    or_else (refused 0) (e.commit db')

  -- What follows the search for the fork. The transaction of the store is given up by the caller where the
  -- call does not go well.
  unfoldable pub switch_branch : List Chain → List Chain → ℕ → State Db → Outcome (State Db)
  switch_branch v_disconnect v_connect hash s = do
    d ← disconnect_branch v_disconnect s.db []
    c ← connect_branch v_connect d.0 s.n_money_supply []
    db' ← write_best hash c.0
    pool' ← resurrect (e.pool_env db') d.1 s.pool
    ok (record {
      db = db';
      n_money_supply = c.1;
      p_next = connect_next v_connect (disconnect_next v_disconnect s.p_next);
      pool = remove_all e.check.get_hash c.2 pool';
    })

  unfoldable pub reorganize : Chain → Chain → State Db → Outcome (State Db)
  reorganize pindex_best pindex_new s = do
    pfork ← or_else (refused 0) (find_fork pindex_best pindex_new)
    switch_branch (pointers_above pfork pindex_best) (reverse (pointers_above pfork pindex_new))
        (block_hash pindex_new) s

  -- `SetBestChainInner` of a block that follows the best one. Where it does not go well, it gives the
  -- transaction of the store up and notes the chain as invalid.
  unfoldable pub set_best_chain_inner : Chain → Block → State Db → Outcome (State Db)
  set_best_chain_inner pindex_new block s = do
    c ← connect_at pindex_new block s.db s.n_money_supply
    db' ← write_best (block_hash pindex_new) c.0
    ok (record {
      db = db';
      n_money_supply = c.1;
      p_next = Dict.insert (block_hash (p_prev pindex_new)) (block_hash pindex_new) s.p_next;
      pool = remove_all e.check.get_hash block.vtx s.pool;
    })
