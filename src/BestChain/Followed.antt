-- ===== src/BestChain/Followed.antt =====
-- What `SetBestChainInner` of src/main.cpp leaves behind a block that follows the best one.
use montecoin.Prelude.{
  ℕ, ◌≡◌, refl, ◌∙◌, Bool, true, false, List, [], ◌∷◌, map, Option, none, some, ◌==◌, if◌then◌else◌,
  nat_key, arith, Bool-cases, ==-cases, inl, inr,
}
use montecoin.Prelude.Dict
use montecoin.Prelude.Dict.{Dict, lookup-insert, lookup-erase, contains-false}
use montecoin.Tx.{Transaction}
use montecoin.Inputs.{TxDb}
use montecoin.Inputs.Connect.{ok}
use montecoin.Inputs.Outcome.{bind-ok}
use montecoin.Inputs.Spend.{ok_inj}
use montecoin.Block.{Block}
use montecoin.Block.Distinct.{Distinct}
use montecoin.Block.Unspent.{unspent, Accepts}
use montecoin.Chain.{Chain}
use montecoin.Mempool.{TxMemPool, remove}
use montecoin.BestChain.{
  ChainEnv, State, block_hash, p_prev, remove_all, connect_at, write_best, set_best_chain_inner,
}
use montecoin.BestChain.Reorganized.{Sound, connect_at-Accepts, write_best_same}

module _ (get_hash : Transaction → ℕ) where
  -- The pool has a transaction under none of these hashes.
  abbrev pub AllGone : TxMemPool → List Transaction → Type 0
  AllGone pool [] = Unit {0}
  AllGone pool (tx ∷ vtx) = (Dict.lookup (get_hash tx) pool.map_tx ≡ none) × AllGone pool vtx

  remove-lookup :
      (tx : Transaction) (pool : TxMemPool) (k : ℕ)
      → Dict.lookup k (remove get_hash tx pool).map_tx
        ≡ (if get_hash tx == k then none else Dict.lookup k pool.map_tx)
  unfolding remove
  remove-lookup tx pool k = elim (Bool-cases (Dict.contains (get_hash tx) pool.map_tx)) [
    | inl c ↦ rw c (lookup-erase (get_hash tx) k pool.map_tx)
    | inr c ↦
        let n = contains-false (get_hash tx) pool.map_tx c in
        elim (==-cases (get_hash tx) k) [
          | inl (same, b) ↦ rw (c, b, ← same) n
          | inr b ↦ rw (c, b) refl
        ]
  ]

  remove_all_absent :
      (v : List Transaction) (pool : TxMemPool) (k : ℕ)
      → Dict.lookup k pool.map_tx ≡ none
      → Dict.lookup k (remove_all get_hash v pool).map_tx ≡ none
  unfolding remove_all
  remove_all_absent [] pool k h = h
  remove_all_absent (tx ∷ v) pool k h =
      remove_all_absent v (remove get_hash tx pool) k
        (remove-lookup tx pool k ∙ none_still (get_hash tx == k) (Dict.lookup k pool.map_tx) h)
    where
      none_still : (b : Bool) (o : Option Transaction) → o ≡ none → (if b then none else o) ≡ none
      none_still true o h = refl
      none_still false o h = h

  remove_all-AllGone :
      (v : List Transaction) (pool : TxMemPool) → AllGone (remove_all get_hash v pool) v
  unfolding remove_all
  remove_all-AllGone [] pool = tt
  remove_all-AllGone (tx ∷ v) pool = (
    remove_all_absent v (remove get_hash tx pool) (get_hash tx)
        (remove-lookup tx pool (get_hash tx) ∙ ground arith),
    remove_all-AllGone v (remove get_hash tx pool),
  )

-- A block that follows the best one, when all goes well, leads from the unspent outputs of the index
-- before to those of the index behind it, its transactions have different hashes, and the memory pool
-- holds none of them. The block before is linked to it. Deletions work, the other writes leave the index
-- of transactions as it is, and the blocks' files have numbers other than the one that stands for none.
pub set_best_chain_inner-Accepts :
    (t : TxDb) (e : ChainEnv t) (pindex_new : Chain) (b : Block) (s s' : State t.Db)
    → Sound t e
    → set_best_chain_inner t e pindex_new b s ≡ ok s'
    → Distinct (map e.check.get_hash b.vtx)
      × Accepts e.check.get_hash
          (unspent (t.read_tx_index s.db))
          (unspent (t.read_tx_index s.db))
          b.vtx
          (unspent (t.read_tx_index s'.db))
      × AllGone e.check.get_hash s'.pool b.vtx
      × (Dict.lookup (block_hash (p_prev pindex_new)) s'.p_next ≡ some (block_hash pindex_new))
unfolding set_best_chain_inner
set_best_chain_inner-Accepts t e pindex_new b s s' sound h =
    let get_hash = e.check.get_hash in
    let (c, e₁, h₁) = bind-ok (connect_at t e pindex_new b s.db s.n_money_supply) _ h in
    let (db', e₂, h₂) = bind-ok (write_best t e (block_hash pindex_new) c.0) _ h₁ in
    let (d, a) = connect_at-Accepts t e pindex_new b s.db s.n_money_supply c sound e₁ in
    let last = write_best_same t e (block_hash pindex_new) c.0 db' sound e₂ in
    let a' : Accepts get_hash (unspent (t.read_tx_index s.db)) (unspent (t.read_tx_index s.db))
        b.vtx (unspent (t.read_tx_index db')) =
      rw (← last) at a in
    let k = block_hash (p_prev pindex_new) in
    let linked = lookup-insert k k (block_hash pindex_new) s.p_next in
    rw (← ok_inj h₂) (d, a', remove_all-AllGone get_hash b.vtx s.pool, linked ∙ ground arith)
