-- ===== src/Tx/Codec.antt =====
-- How transactions are written to the network, to disk and to the hash: the `IMPLEMENT_SERIALIZE`
-- members of `COutPoint`, `CTxIn`, `CTxOut` and `CTransaction` in src/main.h.
pub mod RoundTrip
use mathlib.Core.List.{append_assoc}
use montecoin.Prelude.{
  ℕ, ◌+◌, ◌-◌, ◌*◌, ◌%◌, ◌/◌, ◌^◌, ◌≤◌, ◌<◌, ◌≡◌, refl, sym, ap, ◌∙◌, List, [], ◌∷◌, ◌++◌, Option,
  none, some, length, arith, length-append, ltb, if◌then◌else◌,
}
use montecoin.Prelude.Int.{ℤ, pos, negsuc, pos_part, neg_part}
use montecoin.Prelude.Int64
use montecoin.Prelude.Int64.{to_word, from_word, wrap_fits}
use montecoin.Serialize.{Reader, ◌>>=◌, pure, le_bytes, read_uint, Codec, bind-some}
use montecoin.Serialize.Bytes.{IsRight, read_uint-le_bytes, length-le_bytes}
use montecoin.Serialize.CompactSize.{max_size}
use montecoin.Serialize.Vector.{bytes_codec, vector_codec}
use montecoin.Serialize.Blocks.{bytes_codec-IsRight, vector_codec-IsRight, AllRight}
use montecoin.Tx.{OutPoint, TxIn, TxOut, Transaction}

-- An `int`: 32 bits.
abbrev pub to_word32 : ℤ → ℕ
to_word32 (pos n) = n % 2 ^ 32
to_word32 (negsuc n) = 2 ^ 32 - 1 - n % 2 ^ 32

abbrev pub from_word32 : ℕ → ℤ
from_word32 w = if ltb w (2 ^ 31) then pos w else negsuc (2 ^ 32 - 1 - w)

unfoldable pub int_codec : Codec ℤ
int_codec = record {
  get_serialize_size = λ v. 4;
  serialize = λ v. le_bytes 4 (to_word32 v);
  unserialize = (do w ← read_uint 4; pure (from_word32 w));
}

unfoldable pub int64_codec : Codec ℤ
int64_codec = record {
  get_serialize_size = λ v. 8;
  serialize = λ v. le_bytes 8 (to_word v);
  unserialize = (do w ← read_uint 8; pure (from_word w));
}

unfoldable pub uint_codec : ℕ → Codec ℕ
uint_codec k = record {
  get_serialize_size = λ n. k;
  serialize = λ n. le_bytes k n;
  unserialize = read_uint k;
}

-- `FLATDATA`: the 32 bytes of the hash and the 4 of the index.
unfoldable pub out_point_codec : Codec OutPoint
out_point_codec = record {
  get_serialize_size =
      λ p. (uint_codec 32).get_serialize_size p.hash + (uint_codec 4).get_serialize_size p.n;
  serialize = λ p. (uint_codec 32).serialize p.hash ++ (uint_codec 4).serialize p.n;
  unserialize = (do
    hash ← (uint_codec 32).unserialize
    n ← (uint_codec 4).unserialize
    pure (record { hash = hash; n = n }));
}

unfoldable pub tx_in_codec : Codec TxIn
tx_in_codec = record {
  get_serialize_size = λ i.
      out_point_codec.get_serialize_size i.prevout
      + bytes_codec.get_serialize_size i.script_sig
      + (uint_codec 4).get_serialize_size i.n_sequence;
  serialize = λ i.
      out_point_codec.serialize i.prevout
      ++ (bytes_codec.serialize i.script_sig ++ (uint_codec 4).serialize i.n_sequence);
  unserialize = (do
    prevout ← out_point_codec.unserialize
    script_sig ← bytes_codec.unserialize
    n_sequence ← (uint_codec 4).unserialize
    pure (record { prevout = prevout; script_sig = script_sig; n_sequence = n_sequence }));
}

unfoldable pub tx_out_codec : Codec TxOut
tx_out_codec = record {
  get_serialize_size = λ o.
      int64_codec.get_serialize_size o.n_value + bytes_codec.get_serialize_size o.script_pub_key;
  serialize = λ o. int64_codec.serialize o.n_value ++ bytes_codec.serialize o.script_pub_key;
  unserialize = (do
    n_value ← int64_codec.unserialize
    script_pub_key ← bytes_codec.unserialize
    pure (record { n_value = n_value; script_pub_key = script_pub_key }));
}

-- The sizes are added as an unsigned int.
unfoldable pub transaction_codec : Codec Transaction
transaction_codec = record {
  get_serialize_size = λ tx.
      (int_codec.get_serialize_size tx.n_version
        + (uint_codec 4).get_serialize_size tx.n_time
        + (vector_codec tx_in_codec).get_serialize_size tx.vin
        + (vector_codec tx_out_codec).get_serialize_size tx.vout
        + (uint_codec 4).get_serialize_size tx.n_lock_time)
      % 2 ^ 32;
  serialize = λ tx.
      int_codec.serialize tx.n_version
      ++ ((uint_codec 4).serialize tx.n_time
          ++ ((vector_codec tx_in_codec).serialize tx.vin
              ++ ((vector_codec tx_out_codec).serialize tx.vout
                  ++ (uint_codec 4).serialize tx.n_lock_time)));
  unserialize = (do
    n_version ← int_codec.unserialize
    n_time ← (uint_codec 4).unserialize
    vin ← (vector_codec tx_in_codec).unserialize
    vout ← (vector_codec tx_out_codec).unserialize
    n_lock_time ← (uint_codec 4).unserialize
    pure (record {
      n_version = n_version;
      n_time = n_time;
      vin = vin;
      vout = vout;
      n_lock_time = n_lock_time;
    }));
}
