-- ===== src/Tx/Codec/RoundTrip.antt =====
-- A transaction is read back as it was written, and has the announced size.
use mathlib.Core.List.{append_assoc}
use montecoin.Prelude.{
  ℕ, ◌%◌, ◌^◌, ◌≤◌, ◌<◌, ◌≡◌, ap, ◌∙◌, List, [], ◌∷◌, ◌++◌, some, length, arith, length-append,
}
use montecoin.Prelude.Int.{ℤ, pos, negsuc, pos_part, neg_part}
use montecoin.Prelude.Int64
use montecoin.Prelude.Int64.{to_word, from_word, wrap_fits}
use montecoin.Serialize.{Reader, ◌>>=◌, read_uint, Codec, bind-some}
use montecoin.Serialize.Bytes.{IsRight, Fits, read_uint-le_bytes, length-le_bytes}
use montecoin.Serialize.CompactSize.{max_size}
use montecoin.Serialize.Vector.{bytes_codec, vector_codec}
use montecoin.Serialize.Blocks.{bytes_codec-IsRight, vector_codec-IsRight, AllRight}
use montecoin.Tx.{OutPoint, TxIn, TxOut, Transaction}
use montecoin.Tx.Codec.{
  int_codec, int64_codec, uint_codec, out_point_codec, tx_in_codec, tx_out_codec, transaction_codec,
  to_word32, from_word32,
}

-- One step of reading a record: a field, with more fields behind it.
read_field :
    {A B : Type 0} {c : Codec A} {a : A} (r : IsRight c a) (f : A → Reader B) (more rest : List ℕ)
    → (c.unserialize >>= f) ((c.serialize a ++ more) ++ rest) ≡ f a (more ++ rest)
read_field {c} {a} r f more rest =
    rw (append_assoc (c.serialize a) more rest)
      (bind-some c.unserialize f _ (r.unserialize-serialize (more ++ rest)))

read_last :
    {A B : Type 0} {c : Codec A} {a : A} (r : IsRight c a) (f : A → Reader B) (rest : List ℕ)
    → (c.unserialize >>= f) (c.serialize a ++ rest) ≡ f a rest
read_last {c} {a} r f rest = bind-some c.unserialize f _ (r.unserialize-serialize rest)

uint_codec-IsRight : (k n : ℕ) → Fits k n → IsRight (uint_codec k) n
unfolding uint_codec
uint_codec-IsRight k n h = record {
  unserialize-serialize = λ rest. read_uint-le_bytes k n rest h;
  size = length-le_bytes k n;
}

-- An int64.
abbrev pub IsInt64 : ℤ → Type 0
IsInt64 v = (pos_part v < 2 ^ 63) × (neg_part v ≤ 2 ^ 63)

int64_codec-IsRight : (v : ℤ) → IsInt64 v → IsRight int64_codec v
unfolding int64_codec Int64.wrap
int64_codec-IsRight v h = record {
  unserialize-serialize = λ rest.
      bind-some (read_uint 8) _ _ (read_uint-le_bytes 8 (to_word v) rest (fits v))
      ∙ ap (λ z. some (z, rest)) (wrap_fits v h.0 h.1);
  size = length-le_bytes 8 (to_word v);
}
  where
    fits : (v : ℤ) → Fits 8 (to_word v)
    fits (pos n) = omega arith
    fits (negsuc n) = omega arith

abbrev pub IsInt : ℤ → Type 0
IsInt v = (pos_part v < 2 ^ 31) × (neg_part v ≤ 2 ^ 31)

int_codec-IsRight : (v : ℤ) → IsInt v → IsRight int_codec v
unfolding int_codec
int_codec-IsRight v h = record {
  unserialize-serialize = λ rest.
      bind-some (read_uint 4) _ _ (read_uint-le_bytes 4 (to_word32 v) rest (fits v))
      ∙ ap (λ z. some (z, rest)) (back v h);
  size = length-le_bytes 4 (to_word32 v);
}
  where
    fits : (v : ℤ) → Fits 4 (to_word32 v)
    fits (pos n) = omega arith
    fits (negsuc n) = omega arith

    back : (v : ℤ) → IsInt v → from_word32 (to_word32 v) ≡ v
    back (pos n) h = ground arith
    back (negsuc n) h = ground arith

pub record OutPointFits (p : OutPoint) : Type 0 where
  pub hash_fits : p.hash < 2 ^ 256
  pub n_fits : p.n < 2 ^ 32

out_point_codec-IsRight : (p : OutPoint) → OutPointFits p → IsRight out_point_codec p
unfolding out_point_codec
out_point_codec-IsRight p h = record {
  unserialize-serialize = λ rest. read_field rh _ _ rest ∙ read_last rn _ rest;
  size = omega (
    arith,
    length-append ((uint_codec 32).serialize p.hash) ((uint_codec 4).serialize p.n),
    rh.size,
    rn.size,
  );
}
  where
    rh : IsRight (uint_codec 32) p.hash
    rh = uint_codec-IsRight 32 p.hash (omega (arith, h.hash_fits))

    rn : IsRight (uint_codec 4) p.n
    rn = uint_codec-IsRight 4 p.n (omega (arith, h.n_fits))

pub record TxInFits (i : TxIn) : Type 0 where
  pub prevout_fits : OutPointFits i.prevout
  pub script_fits : length i.script_sig ≤ max_size
  pub sequence_fits : i.n_sequence < 2 ^ 32

tx_in_codec-IsRight : (i : TxIn) → TxInFits i → IsRight tx_in_codec i
unfolding tx_in_codec
tx_in_codec-IsRight i h = record {
  unserialize-serialize =
      λ rest. read_field rp _ _ rest ∙ read_field rs _ _ rest ∙ read_last rn _ rest;
  size = omega (
    arith,
    length-append (out_point_codec.serialize i.prevout)
        (bytes_codec.serialize i.script_sig ++ (uint_codec 4).serialize i.n_sequence),
    length-append (bytes_codec.serialize i.script_sig) ((uint_codec 4).serialize i.n_sequence),
    rp.size,
    rs.size,
    rn.size,
  );
}
  where
    rp : IsRight out_point_codec i.prevout
    rp = out_point_codec-IsRight i.prevout h.prevout_fits

    rs : IsRight bytes_codec i.script_sig
    rs = bytes_codec-IsRight i.script_sig h.script_fits

    rn : IsRight (uint_codec 4) i.n_sequence
    rn = uint_codec-IsRight 4 i.n_sequence (omega (arith, h.sequence_fits))

pub record TxOutFits (o : TxOut) : Type 0 where
  pub value_fits : IsInt64 o.n_value
  pub script_fits : length o.script_pub_key ≤ max_size

tx_out_codec-IsRight : (o : TxOut) → TxOutFits o → IsRight tx_out_codec o
unfolding tx_out_codec
tx_out_codec-IsRight o h = record {
  unserialize-serialize = λ rest. read_field rv _ _ rest ∙ read_last rs _ rest;
  size = omega (
    arith,
    length-append (int64_codec.serialize o.n_value) (bytes_codec.serialize o.script_pub_key),
    rv.size,
    rs.size,
  );
}
  where
    rv : IsRight int64_codec o.n_value
    rv = int64_codec-IsRight o.n_value h.value_fits

    rs : IsRight bytes_codec o.script_pub_key
    rs = bytes_codec-IsRight o.script_pub_key h.script_fits

abbrev pub AllFit : {A : Type 0} → (A → Type 0) → List A → Type 0
AllFit P [] = Unit {0}
AllFit P (a ∷ v) = P a × AllFit P v

all_right :
    {A : Type 0} (c : Codec A) (P : A → Type 0)
    → ((a : A) → P a → IsRight c a)
    → (v : List A) → AllFit P v
    → AllRight c v
all_right c P r [] h = tt
all_right c P r (a ∷ v) h = (r a h.0, all_right c P r v h.1)

-- Every field of a transaction is a value of its C++ type, and no vector is above the size limit.
pub record TransactionFits (tx : Transaction) : Type 0 where
  pub version_fits : IsInt tx.n_version
  pub time_fits : tx.n_time < 2 ^ 32
  pub vin_fits : AllFit TxInFits tx.vin
  pub vin_size : length tx.vin ≤ max_size
  pub vout_fits : AllFit TxOutFits tx.vout
  pub vout_size : length tx.vout ≤ max_size
  pub lock_time_fits : tx.n_lock_time < 2 ^ 32

module _ (tx : Transaction) (h : TransactionFits tx) where
  version-IsRight : IsRight int_codec tx.n_version
  version-IsRight = int_codec-IsRight tx.n_version h.version_fits

  time-IsRight : IsRight (uint_codec 4) tx.n_time
  time-IsRight = uint_codec-IsRight 4 tx.n_time (omega (arith, h.time_fits))

  vin-IsRight : IsRight (vector_codec tx_in_codec) tx.vin
  vin-IsRight =
      vector_codec-IsRight tx_in_codec tx.vin
        (all_right tx_in_codec TxInFits tx_in_codec-IsRight tx.vin h.vin_fits) h.vin_size

  vout-IsRight : IsRight (vector_codec tx_out_codec) tx.vout
  vout-IsRight =
      vector_codec-IsRight tx_out_codec tx.vout
        (all_right tx_out_codec TxOutFits tx_out_codec-IsRight tx.vout h.vout_fits) h.vout_size

  lock_time-IsRight : IsRight (uint_codec 4) tx.n_lock_time
  lock_time-IsRight = uint_codec-IsRight 4 tx.n_lock_time (omega (arith, h.lock_time_fits))

  -- A transaction whose fields fit their types is read back from its bytes, whatever follows them.
  pub unserialize-serialize :
      (rest : List ℕ)
      → transaction_codec.unserialize (transaction_codec.serialize tx ++ rest) ≡ some (tx, rest)
  unfolding transaction_codec
  unserialize-serialize rest =
      read_field version-IsRight _ _ rest
      ∙ read_field time-IsRight _ _ rest
      ∙ read_field vin-IsRight _ _ rest
      ∙ read_field vout-IsRight _ _ rest
      ∙ read_last lock_time-IsRight _ rest

  -- The size that it announces is the number of its bytes, as an unsigned int.
  get_serialize_size-length :
      transaction_codec.get_serialize_size tx ≡ length (transaction_codec.serialize tx) % 2 ^ 32
  unfolding transaction_codec
  get_serialize_size-length = omega (
    arith,
    length-append (int_codec.serialize tx.n_version) _,
    length-append ((uint_codec 4).serialize tx.n_time) _,
    length-append ((vector_codec tx_in_codec).serialize tx.vin) _,
    length-append ((vector_codec tx_out_codec).serialize tx.vout)
        ((uint_codec 4).serialize tx.n_lock_time),
    version-IsRight.size,
    time-IsRight.size,
    vin-IsRight.size,
    vout-IsRight.size,
    lock_time-IsRight.size,
  )
