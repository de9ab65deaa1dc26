-- ===== src/Tx/Tests.antt =====
-- Runs of the checks on transactions, and their theorems at concrete inputs.
use montecoin.Prelude.{ℕ, ◌≡◌, ◌++◌, refl, [], ◌∷◌, some, arith}
use montecoin.Prelude.Int.{pos, ◌+ℤ◌}
use montecoin.Prelude.Int64
use montecoin.Prelude.OrderedSet
use montecoin.Serialize.{Codec, le_bytes}
use montecoin.Serialize.CompactSize.{
  read_compact_size, read_compact_size-write, write_compact_size, get_size_of_compact_size,
}
use montecoin.Serialize.Vector.{vector_codec, bytes_codec, sum_sizes, read_blocks}
use montecoin.Serialize.Blocks.{read_blocks-read}
use montecoin.Serialize
use montecoin.Tx.{TxIn, TxOut, Transaction, out_point_key, is_coin_base, is_coin_stake}
use montecoin.Tx.Value.{get_value_out, get_value_out-some_iff}
use montecoin.Tx.Codec.{
  transaction_codec, int_codec, int64_codec, uint_codec, tx_in_codec, tx_out_codec, out_point_codec,
}
use montecoin.Tx.Money.{money_range}
use montecoin.Tx.Codec.RoundTrip.{TransactionFits, unserialize-serialize}
use montecoin.Tx.Check.{check_transaction, check_outputs, has_duplicate, valid}
use montecoin.Tx.Check.WellFormed.{IsWellFormed, check_transaction-valid_iff}

abbrev spend : ℕ → ℕ → TxIn
spend n sequence = record {
  prevout = record { hash = 77; n = n };
  script_sig = 1 ∷ 2 ∷ [];
  n_sequence = sequence;
}

abbrev pay : ℕ → TxOut
pay v = record { n_value = pos v; script_pub_key = 3 ∷ [] }

-- Two inputs and two outputs, locked until block 100.
abbrev payment : Transaction
payment = record {
  n_version = pos 1;
  n_time = 1_500_000_000;
  vin = spend 0 5 ∷ spend 1 9 ∷ [];
  vout = pay 40 ∷ pay 60 ∷ [];
  n_lock_time = 100;
}

-- The same spends with a lower sequence number.
abbrev replaced : Transaction
replaced = record payment { vin = spend 0 3 ∷ spend 1 9 ∷ [] }

payment-fits : TransactionFits payment
payment-fits = record {
  version_fits = (omega arith, omega arith);
  time_fits = omega arith;
  vin_fits = (
    record {
      prevout_fits = record { hash_fits = omega arith; n_fits = omega arith };
      script_fits = omega arith;
      sequence_fits = omega arith;
    },
    (
      record {
        prevout_fits = record { hash_fits = omega arith; n_fits = omega arith };
        script_fits = omega arith;
        sequence_fits = omega arith;
      },
      tt,
    ),
  );
  vin_size = omega arith;
  vout_fits = (
    record { value_fits = (omega arith, omega arith); script_fits = omega arith },
    (record { value_fits = (omega arith, omega arith); script_fits = omega arith }, tt),
  );
  vout_size = omega arith;
  lock_time_fits = omega arith;
}

unserialize-serialize_example :
    transaction_codec.unserialize (transaction_codec.serialize payment ++ 9 ∷ [])
    ≡ some (payment, 9 ∷ [])
unserialize-serialize_example = unserialize-serialize payment payment-fits (9 ∷ [])

read_compact_size-write_example :
    read_compact_size (write_compact_size 1000 ++ 9 ∷ []) ≡ some (1000, 9 ∷ [])
read_compact_size-write_example = read_compact_size-write 1000 (9 ∷ []) (omega arith)

read_blocks-read_example : read_blocks 4 3 (5 ∷ 6 ∷ []) ≡ Serialize.read 3 (5 ∷ 6 ∷ [])
read_blocks-read_example = read_blocks-read 4 3 (5 ∷ 6 ∷ []) (omega arith)

get_value_out-some_iff_example : get_value_out payment.vout ≡ some (pos 100)
unfolding ◌+ℤ◌
get_value_out-some_iff_example =
    (get_value_out-some_iff payment.vout (pos 100)).1 (refl, ground arith, omega arith)

payment_checks : check_transaction payment ≡ valid
unfolding check_transaction check_outputs has_duplicate is_coin_base is_coin_stake transaction_codec
    money_range get_size_of_compact_size vector_codec sum_sizes bytes_codec OrderedSet.contains
    OrderedSet.insert Int64.add int_codec int64_codec uint_codec tx_in_codec tx_out_codec
    out_point_codec
payment_checks = refl

check_transaction-valid_iff_example : IsWellFormed payment
check_transaction-valid_iff_example = (check_transaction-valid_iff payment).0 payment_checks
