-- ===== src/Orphans/Tests.antt =====
-- Two orphans, stored and evicted.
use montecoin.Prelude.{
  ℕ, ◌+◌, ◌≤◌, ◌≡◌, refl, true, false, ◌&&◌, List, [], ◌∷◌, ◌++◌, some, length, ltb, if◌then◌else◌,
  ◌==◌, nat_key, arith, ==-cases, some_inj, inl, inr,
}
use mathlib.Core.Path.{subst}
use montecoin.Prelude.Int.{pos}
use montecoin.Prelude.Dict
use montecoin.Tx.{Transaction}
use montecoin.Tx.Codec.{
  transaction_codec, int_codec, uint_codec, int64_codec, tx_in_codec, tx_out_codec, out_point_codec,
}
use montecoin.Serialize.Vector.{vector_codec, bytes_codec, write_items}
use montecoin.Serialize.CompactSize.{write_compact_size}
use montecoin.Serialize.{le_bytes}
use montecoin.Tx.Codec.RoundTrip.{TransactionFits, unserialize-serialize}
use montecoin.Inputs.Marks.{spends_from}
use montecoin.Orphans.{Orphans, add_orphan_tx, limit_orphan_tx_size}
use montecoin.Orphans.Listed.{listed, Holds, add_orphan_tx-listed}
use montecoin.Orphans.Limit.{AllReadable, limit_orphan_tx_size_ends}

abbrev orphan : Transaction
orphan = record {
  n_version = pos 1;
  n_time = 5;
  vin = record { prevout = record { hash = 77; n = 0 }; script_sig = []; n_sequence = 0 } ∷ [];
  vout = [];
  n_lock_time = 0;
}

orphan-fits : TransactionFits orphan
orphan-fits = record {
  version_fits = (omega arith, omega arith);
  time_fits = omega arith;
  vin_fits = (
    record {
      prevout_fits = record { hash_fits = omega arith; n_fits = omega arith };
      script_fits = omega arith;
      sequence_fits = omega arith;
    },
    tt,
  );
  vin_size = omega arith;
  vout_fits = tt;
  vout_size = omega arith;
  lock_time_fits = omega arith;
}

-- The toy hash of a transaction is its time.
abbrev toy_hash : Transaction → ℕ
toy_hash tx = tx.n_time

abbrev nobody : Orphans
nobody = record { map_orphan_transactions = []; map_orphan_transactions_by_prev = [] }

abbrev message : List ℕ
message = transaction_codec.serialize orphan ++ []

message-Holds : Holds message orphan
message-Holds = ([], unserialize-serialize orphan orphan-fits [])

abbrev somebody : Orphans
somebody = record {
  map_orphan_transactions = (5, message) ∷ [];
  map_orphan_transactions_by_prev = (77, (5, message) ∷ []) ∷ [];
}

somebody-stored :
    (h : ℕ) (msg : List ℕ) → Dict.lookup h ((5, message) ∷ []) ≡ some msg → message ≡ msg
unfolding Dict.lookup
somebody-stored h msg e = elim (==-cases 5 h) [
  | inl (eq, b) ↦ some_inj (rw b at e)
  | inr b ↦ absurd (ground (arith, e, b))
]

message-small : ltb 5000 (length message) ≡ false
unfolding transaction_codec vector_codec bytes_codec write_items write_compact_size le_bytes
    int_codec uint_codec int64_codec tx_in_codec tx_out_codec out_point_codec
message-small = refl

add_orphan_tx-listed_example :
    (s' : Orphans) × (add_orphan_tx toy_hash message nobody ≡ some (s', true))
    × ((j : ℕ)
        → Dict.lookup j s'.map_orphan_transactions
          ≡ (if 5 == j then some message else Dict.lookup {K = ℕ} {V = List ℕ} j []))
    × ((p j : ℕ)
        → listed p j s'.map_orphan_transactions_by_prev
          ≡ (if spends_from orphan.vin p && (5 == j) then some message else listed p j []))
unfolding Dict.contains Dict.lookup
add_orphan_tx-listed_example =
    add_orphan_tx-listed toy_hash message orphan nobody message-Holds refl message-small

limit_orphan_tx_size_ends_example :
    (s' : Orphans) × (n : ℕ) × (limit_orphan_tx_size (λ i. i) 0 somebody ≡ some (s', n))
    × (length s'.map_orphan_transactions ≤ 0)
    × (n + length s'.map_orphan_transactions ≤ 1)
    × AllReadable s'.map_orphan_transactions
limit_orphan_tx_size_ends_example =
    limit_orphan_tx_size_ends (λ i. i) 0 somebody
      (λ h msg e. (orphan, subst (λ m. Holds m orphan) (somebody-stored h msg e) message-Holds))
