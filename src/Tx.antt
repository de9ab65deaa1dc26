-- ===== src/Tx.antt =====
-- The transaction types of src/main.h. A hash is a number below 2 ^ 256, an unsigned int a number
-- below 2 ^ 32, an int64 an integer, a script the list of its bytes.
mod Tests
pub mod Money
pub mod Value
pub mod Codec
pub mod Check
pub mod Fee
pub mod Lock
pub mod Newer
use montecoin.Prelude.{
  ℕ, suc, ◌+◌, ◌-◌, ◌*◌, ◌%◌, ◌^◌, ◌≤◌, ◌≡◌, ◌↔◌, ◌⊎◌, refl, Bool, true, false, not, ◌&&◌, ◌||◌,
  List, [], ◌∷◌, Key, arith, length, ltb, leb, ◌==◌, if◌then◌else◌,
}
use montecoin.Prelude.Int.{ℤ, pos, negsuc}

abbrev pub uint_max : ℕ
uint_max = 2 ^ 32 - 1

-- `COutPoint`
pub record OutPoint : Type 0 where
  pub hash : ℕ
  pub n : ℕ

abbrev pub null_out_point : OutPoint
null_out_point = record { hash = 0; n = uint_max }

unfoldable pub is_null : OutPoint → Bool
is_null p = p.hash == 0 && p.n == uint_max

-- `operator<` and `operator==` of `COutPoint`
abbrev pub out_point_before : OutPoint → OutPoint → Bool
out_point_before a b = ltb a.hash b.hash || (a.hash == b.hash && ltb a.n b.n)

abbrev pub out_point_eq : OutPoint → OutPoint → Bool
out_point_eq a b = a.hash == b.hash && a.n == b.n

pub out_point_eq_iff : (a b : OutPoint) → (out_point_eq a b ≡ true) ↔ (a ≡ b)
out_point_eq_iff a b = ground arith

instance abbrev pub out_point_key : Key OutPoint
out_point_key = record { before = out_point_before; beq = out_point_eq; beq_iff = out_point_eq_iff }

-- `CTxIn`
pub record TxIn : Type 0 where
  pub prevout : OutPoint
  pub script_sig : List ℕ
  pub n_sequence : ℕ

-- `CTxOut`
pub record TxOut : Type 0 where
  pub n_value : ℤ
  pub script_pub_key : List ℕ

abbrev pub is_nil {ℓ} : {A : Type ℓ} → List A → Bool
is_nil [] = true
is_nil (x ∷ xs) = false

abbrev pub is_zero : ℤ → Bool
is_zero (pos n) = n == 0
is_zero (negsuc n) = false

unfoldable pub is_empty : TxOut → Bool
is_empty o = is_zero o.n_value && is_nil o.script_pub_key

-- `CTransaction`, without the DoS score, which the checks return
pub record Transaction : Type 0 where
  pub n_version : ℤ
  pub n_time : ℕ
  pub vin : List TxIn
  pub vout : List TxOut
  pub n_lock_time : ℕ

abbrev first_prevout_null : List TxIn → Bool
unfolding is_null
first_prevout_null [] = false
first_prevout_null (i ∷ is) = is_null i.prevout

abbrev first_output_empty : List TxOut → Bool
unfolding is_empty
first_output_empty [] = false
first_output_empty (o ∷ os) = is_empty o

-- `vin.size() == 1 && vin[0].prevout.IsNull() && vout.size() >= 1`
unfoldable pub is_coin_base : Transaction → Bool
unfolding is_null
is_coin_base tx = length tx.vin == 1 && first_prevout_null tx.vin && leb 1 (length tx.vout)

-- `vin.size() > 0 && !vin[0].prevout.IsNull() && vout.size() >= 2 && vout[0].IsEmpty()`
unfoldable pub is_coin_stake : Transaction → Bool
unfolding is_null is_empty
is_coin_stake tx =
    ltb 0 (length tx.vin)
    && not (first_prevout_null tx.vin)
    && leb 2 (length tx.vout)
    && first_output_empty tx.vout
