-- ===== src/Block/ConnectTests.antt =====
-- The theorems about `ConnectBlock` and `DisconnectBlock` of src/main.cpp, at a block.
use montecoin.Prelude.{ℕ, ◌≡◌, refl, sym, ap, true, false, some, nat_key}
use montecoin.Prelude.Int.{pos}
use montecoin.Prelude.Dict
use montecoin.Prelude.Dict.{Dict}
use montecoin.Tx.{OutPoint}
use montecoin.Tx.Check.Duplicates.{DistinctPrevouts}
use montecoin.Inputs.{TxIndex}
use montecoin.Inputs.Memory.{some_eq, memory}
use montecoin.Block.Unspent.{unspent, Accepts, all_spent}
use montecoin.Block.Disconnect.{disconnect_block}
use montecoin.Block.Connected.{connect_block-distinct, connect_block-Accepts}
use montecoin.Block.Undone.{disconnect_block-connect_block}
use montecoin.Block.Example.{env, block, before, after, block_connects}

connect_block-distinct_example : DistinctPrevouts (all_spent block.vtx)
connect_block-distinct_example =
    connect_block-distinct memory env (λ db mint supply. some db) (λ db. some db) false block before
      (record { db = after; n_mint = pos 1_000_000; n_money_supply = pos 34_000_000 }) refl
      block_connects

connect_block-Accepts_example :
    Accepts env.check.get_hash
      (unspent (λ k. Dict.lookup k before))
      (unspent (λ k. Dict.lookup k before))
      block.vtx
      (unspent (λ k. Dict.lookup k after))
connect_block-Accepts_example =
    connect_block-Accepts memory env (λ db mint supply. some db) (λ db. some db) block before
      (record { db = after; n_mint = pos 1_000_000; n_money_supply = pos 34_000_000 }) refl
      (λ m s d d' e k. ap (λ (x : Dict ℕ TxIndex). Dict.lookup k x) (sym (some_eq e)))
      (λ d d' e k. ap (λ (x : Dict ℕ TxIndex). Dict.lookup k x) (sym (some_eq e))) block_connects

disconnect_block-connect_block_example :
    (db' : Dict ℕ TxIndex) × (disconnect_block memory env.check.get_hash
        (λ db. some db)
        true
        after
        block.vtx
      ≡ (db', true))
    × ((r : OutPoint) → unspent (λ k. Dict.lookup k db') r ≡ unspent (λ k. Dict.lookup k before) r)
disconnect_block-connect_block_example =
    disconnect_block-connect_block memory env (λ db mint supply. some db) (λ db. some db)
      (λ db. some db) true block before
      (record { db = after; n_mint = pos 1_000_000; n_money_supply = pos 34_000_000 }) refl
      (λ m s d d' e k. ap (λ (x : Dict ℕ TxIndex). Dict.lookup k x) (sym (some_eq e)))
      (λ d d' e k. ap (λ (x : Dict ℕ TxIndex). Dict.lookup k x) (sym (some_eq e)))
      (λ d k v. (Dict.insert k v d, refl)) (λ d k. (Dict.erase k d, refl))
      (λ d. (d, refl, λ k. refl)) block_connects
