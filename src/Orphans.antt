-- ===== src/Orphans.antt =====
-- The transactions that wait for transactions that they spend: `AddOrphanTx`, `EraseOrphanTx` and
-- `LimitOrphanTxSize` of src/main.cpp. A stored stream is its bytes; `GetHash` is a parameter.
pub mod Listed
pub mod Limit
mod Tests
use montecoin.Prelude.{
  ℕ, zero, suc, ◌+◌, Bool, true, false, List, [], ◌∷◌, Option, none, some, length, ltb,
  if◌then◌else◌, nat_key,
}
use montecoin.Prelude.Dict
use montecoin.Prelude.Dict.{Dict}
use montecoin.Serialize.{Codec}
use montecoin.Tx.{TxIn, Transaction}
use montecoin.Tx.Codec.{transaction_codec}

abbrev pub ByPrev : Type 0
ByPrev = Dict ℕ (Dict ℕ (List ℕ))

pub record Orphans : Type 0 where
  pub map_orphan_transactions : Dict ℕ (List ℕ)
  pub map_orphan_transactions_by_prev : ByPrev

abbrev pub or_empty : Option (Dict ℕ (List ℕ)) → Dict ℕ (List ℕ)
or_empty none = []
or_empty (some m) = m

-- `mapOrphanTransactionsByPrev[prev]`
abbrev pub at : ℕ → ByPrev → Dict ℕ (List ℕ)
at prev m = or_empty (Dict.lookup prev m)

-- The loop of `AddOrphanTx`.
unfoldable pub add_by_prev : ℕ → List ℕ → List TxIn → ByPrev → ByPrev
add_by_prev hash msg [] m = m
add_by_prev hash msg (txin ∷ vin) m =
    add_by_prev hash msg vin
      (Dict.insert txin.prevout.hash (Dict.insert hash msg (at txin.prevout.hash m)) m)

abbrev pub is_empty_dict : Dict ℕ (List ℕ) → Bool
is_empty_dict [] = true
is_empty_dict (e ∷ m) = false

-- The loop of `EraseOrphanTx`.
unfoldable pub erase_by_prev : ℕ → List TxIn → ByPrev → ByPrev
erase_by_prev hash [] m = m
erase_by_prev hash (txin ∷ vin) m =
    let inner = Dict.erase hash (at txin.prevout.hash m) in
    erase_by_prev hash vin (
      if is_empty_dict inner
      then Dict.erase txin.prevout.hash m
      else Dict.insert txin.prevout.hash inner m)

module _ (get_hash : Transaction → ℕ) where
  abbrev pub add_read : List ℕ → Orphans → Option (Transaction × List ℕ) → Option (Orphans × Bool)
  add_read msg s none = none
  add_read msg s (some (tx, rest)) =
      if Dict.contains (get_hash tx) s.map_orphan_transactions
      then some (s, false)
      else if ltb 5000 (length msg)
      then some (s, false)
      else some (
        record {
          map_orphan_transactions = Dict.insert (get_hash tx) msg s.map_orphan_transactions;
          map_orphan_transactions_by_prev =
              add_by_prev (get_hash tx) msg tx.vin s.map_orphan_transactions_by_prev;
        },
        true,
      )

  -- `none` is the exception of a stream that Holds no transaction.
  unfoldable pub add_orphan_tx : List ℕ → Orphans → Option (Orphans × Bool)
  add_orphan_tx msg s = add_read msg s (transaction_codec.unserialize msg)

abbrev pub erase_read : ℕ → Orphans → Option (Transaction × List ℕ) → Option Orphans
erase_read hash s none = none
erase_read hash s (some (tx, rest)) = some (record {
  map_orphan_transactions = Dict.erase hash s.map_orphan_transactions;
  map_orphan_transactions_by_prev = erase_by_prev hash tx.vin s.map_orphan_transactions_by_prev;
})

abbrev pub erase_found : ℕ → Orphans → Option (List ℕ) → Option Orphans
erase_found hash s none = some s
erase_found hash s (some msg) = erase_read hash s (transaction_codec.unserialize msg)

unfoldable pub erase_orphan_tx : ℕ → Orphans → Option Orphans
erase_orphan_tx hash s = erase_found hash s (Dict.lookup hash s.map_orphan_transactions)

-- `mapOrphanTransactions.lower_bound(hash)`, a key of the map.
unfoldable pub lower_bound : ℕ → Dict ℕ (List ℕ) → Option ℕ
lower_bound hash [] = none
lower_bound hash ((k, msg) ∷ m) = if ltb k hash then lower_bound hash m else some k

abbrev pub first_key : Dict ℕ (List ℕ) → Option ℕ
first_key [] = none
first_key ((k, msg) ∷ m) = some k

abbrev pub or_first : Option ℕ → Dict ℕ (List ℕ) → Option ℕ
or_first none m = first_key m
or_first (some k) m = some k

abbrev pub and_then : {A B : Type 0} → Option A → (A → Option B) → Option B
and_then none f = none
and_then (some a) f = f a

-- The loop of `LimitOrphanTxSize`, on fuel; `get_rand_hash` gives the number that each call of
-- `GetRandHash` returns.
unfoldable pub limit_loop : (ℕ → ℕ) → ℕ → ℕ → ℕ → Orphans → Option (Orphans × ℕ)
limit_loop get_rand_hash zero n_max_orphans n_evicted s = some (s, n_evicted)
limit_loop get_rand_hash (suc fuel) n_max_orphans n_evicted s =
    if ltb n_max_orphans (length s.map_orphan_transactions)
    then and_then
        (or_first (lower_bound (get_rand_hash n_evicted) s.map_orphan_transactions)
          s.map_orphan_transactions)
        (λ k.
          and_then (erase_orphan_tx k s)
            (λ s'. limit_loop get_rand_hash fuel n_max_orphans (n_evicted + 1) s'))
    else some (s, n_evicted)

-- As many rounds as there are orphans.
unfoldable pub limit_orphan_tx_size : (ℕ → ℕ) → ℕ → Orphans → Option (Orphans × ℕ)
limit_orphan_tx_size get_rand_hash n_max_orphans s =
    limit_loop get_rand_hash (length s.map_orphan_transactions) n_max_orphans 0 s
