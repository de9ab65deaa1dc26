-- ===== src/Block.antt =====
-- The class CBlock of src/main.h, with `CheckBlock` of src/main.cpp, `GetLegacySigOpCount` of
-- src/main.cpp and `CheckCoinStakeTimestamp` of src/kernel.cpp.
pub mod Distinct
pub mod WellFormed
pub mod Disconnect
pub mod Connect
pub mod Finish
pub mod Unspent
pub mod Undo
pub mod Restore
pub mod Known
pub mod Order
pub mod Undone
pub mod Round
pub mod Accepted
pub mod Connected
pub mod Example
mod Tests
mod ConnectTests
use montecoin.Prelude.{
  ℕ, zero, suc, ◌+◌, ◌*◌, ◌/◌, ◌%◌, ◌^◌, ◌≡◌, Bool, true, false, not, ◌&&◌, ◌||◌, List, [], ◌∷◌,
  map, length, ltb, leb, ◌==◌, if◌then◌else◌, nat_key,
}
use montecoin.Prelude.Int.{ℤ}
use montecoin.Prelude.OrderedSet.{insert}
use montecoin.Serialize.{Codec}
use montecoin.Serialize.Vector.{vector_codec, bytes_codec}
use montecoin.Tx.{TxIn, TxOut, Transaction, is_empty, is_coin_base, is_coin_stake}
use montecoin.Tx.Codec.{transaction_codec, int_codec, uint_codec}
use montecoin.Tx.Check.{Verdict, valid, invalid, max_block_size, check_transaction, and_then}
use montecoin.Merkle.{root, build_merkle_tree}
use montecoin.Script.{get_sig_op_count}

pub record Block : Type 0 where
  pub n_version : ℤ
  pub hash_prev_block : ℕ
  pub hash_merkle_root : ℕ
  pub n_time : ℕ
  pub n_bits : ℕ
  pub n_nonce : ℕ
  pub vtx : List Transaction
  pub vch_block_sig : List ℕ

-- What a block is checked with: the hash of a transaction and of a pair of hashes, the target of the
-- proof of work and the signature of a block (OpenSSL), and the clock that the peers agree on.
pub record Env : Type 0 where
  pub get_hash : Transaction → ℕ
  pub hash_pair : ℕ → ℕ → ℕ
  pub check_proof_of_work : Block → Bool
  pub check_block_signature : Block → Bool
  pub adjusted_time : ℕ

abbrev pub max_block_sigops : ℕ
max_block_sigops = max_block_size / 50

abbrev pub n_max_clock_drift : ℕ
n_max_clock_drift = 2 * 60 * 60

-- `::GetSerializeSize(*this)`: the header, the transactions and the signature.
unfoldable pub block_size : Block → ℕ
block_size b =
    (int_codec.get_serialize_size b.n_version
      + 32
      + 32
      + 4
      + 4
      + 4
      + (vector_codec transaction_codec).get_serialize_size b.vtx
      + bytes_codec.get_serialize_size b.vch_block_sig)
    % 2 ^ 32

-- The two transactions that a block has first, where they are there.
abbrev pub first_is : (Transaction → Bool) → List Transaction → Bool
first_is p [] = false
first_is p (tx ∷ vtx) = p tx

abbrev pub rest_of : List Transaction → List Transaction
rest_of [] = []
rest_of (tx ∷ vtx) = vtx

abbrev pub is_proof_of_stake : Block → Bool
is_proof_of_stake b = first_is is_coin_stake (rest_of b.vtx)

-- The loop from the second transaction on.
abbrev pub has_coin_base : List Transaction → Bool
has_coin_base [] = false
has_coin_base (tx ∷ vtx) = is_coin_base tx || has_coin_base vtx

-- The one output of the coinbase is empty.
abbrev pub has_empty_output : Transaction → Bool
has_empty_output tx = only_empty tx.vout
  where
    only_empty : List TxOut → Bool
    only_empty [] = false
    only_empty (txout ∷ []) = is_empty txout
    only_empty (txout ∷ o ∷ vout) = false

abbrev pub check_coin_stake_timestamp : ℕ → ℕ → Bool
check_coin_stake_timestamp n_time_block n_time_tx = n_time_block == n_time_tx

-- The loop over the transactions.
unfoldable pub check_transactions : ℕ → List Transaction → Verdict
check_transactions n_time [] = valid
check_transactions n_time (tx ∷ vtx) =
    and_then (check_transaction tx)
      (if ltb n_time tx.n_time then invalid 50 else check_transactions n_time vtx)

-- `uniqueTx`
unfoldable pub insert_all : List ℕ → List ℕ → List ℕ
insert_all unique_tx [] = unique_tx
insert_all unique_tx (hash ∷ hashes) = insert_all (insert hash unique_tx) hashes

-- The counts are added as an unsigned int.
unfoldable pub sig_ops_in : ℕ → List TxIn → ℕ
sig_ops_in n_sig_ops [] = n_sig_ops
sig_ops_in n_sig_ops (txin ∷ vin) =
    sig_ops_in ((n_sig_ops + get_sig_op_count false txin.script_sig) % 2 ^ 32) vin

unfoldable pub sig_ops_out : ℕ → List TxOut → ℕ
sig_ops_out n_sig_ops [] = n_sig_ops
sig_ops_out n_sig_ops (txout ∷ vout) =
    sig_ops_out ((n_sig_ops + get_sig_op_count false txout.script_pub_key) % 2 ^ 32) vout

unfoldable pub get_legacy_sig_op_count : Transaction → ℕ
get_legacy_sig_op_count tx = sig_ops_out (sig_ops_in 0 tx.vin) tx.vout

unfoldable pub block_sig_ops : ℕ → List Transaction → ℕ
block_sig_ops n_sig_ops [] = n_sig_ops
block_sig_ops n_sig_ops (tx ∷ vtx) =
    block_sig_ops ((n_sig_ops + get_legacy_sig_op_count tx) % 2 ^ 32) vtx

-- The checks behind the loop over the transactions.
unfoldable pub check_rest : Env → Bool → Block → Verdict
check_rest env f_check_merkle_root b =
    let hashes = map env.get_hash b.vtx in
    if not (length (insert_all [] hashes) == length b.vtx)
    then invalid 100
    else if ltb max_block_sigops (block_sig_ops 0 b.vtx)
    then invalid 100
    else if f_check_merkle_root
        && not (b.hash_merkle_root == root (build_merkle_tree env.hash_pair hashes))
    then invalid 100
    else if not (env.check_block_signature b)
    then invalid 100
    else valid

-- The checks of the header and of the first transactions, then the loop, then the rest.
unfoldable pub check_block : Env → Bool → Bool → Block → Verdict
check_block env f_check_pow f_check_merkle_root b =
    if length b.vtx == 0 || ltb max_block_size (length b.vtx) || ltb max_block_size (block_size b)
    then invalid 100
    else if f_check_pow && not (is_proof_of_stake b) && not (env.check_proof_of_work b)
    then invalid 50
    else if ltb (env.adjusted_time + n_max_clock_drift) b.n_time
    then invalid 0
    else if length b.vtx == 0 || not (first_is is_coin_base b.vtx)
    then invalid 100
    else if has_coin_base (rest_of b.vtx)
    then invalid 100
    else if is_proof_of_stake b && not (first_is has_empty_output b.vtx)
    then invalid 0
    else if is_proof_of_stake b
        && not (first_is (λ tx. check_coin_stake_timestamp b.n_time tx.n_time) (rest_of b.vtx))
    then invalid 50
    else and_then (check_transactions b.n_time b.vtx) (check_rest env f_check_merkle_root b)
