-- ===== src/Inputs/Memory.antt =====
-- A transaction index in memory: an association list in place of the key-value store of src/db.cpp, to
-- run the model on.
use montecoin.Prelude.{ℕ, ◌≡◌, some, nat_key}
use montecoin.Prelude.Dict
use montecoin.Prelude.Dict.{Dict, lookup-insert, lookup-erase}
use montecoin.Inputs.{TxIndex, TxDb}

pub some_eq : {A : Type 0} {a b : A} → some a ≡ some b → a ≡ b
some_eq h = cc

-- A store in memory, whose writes do not fail.
abbrev pub memory : TxDb
memory = record {
  Db = Dict ℕ TxIndex;
  read_tx_index = λ db k. Dict.lookup k db;
  update_tx_index = λ db k v. some (Dict.insert k v db);
  erase_tx_index = λ db k. some (Dict.erase k db);
  read-update = λ db db' k j v h. rw (← some_eq h) (lookup-insert k j v db);
  read-erase = λ db db' k j h. rw (← some_eq h) (lookup-erase k j db);
}
