-- ===== src/Script/Number.antt =====
-- Numbers and truth values of scripts: `CastToBigNum` and `CastToBool` of src/script.cpp, and
-- `setvch`, `getvch` and `getint` of src/bignum.h over the two conversions of OpenSSL that they call.
use montecoin.Prelude.{
  ◌+◌, ◌-◌, ◌/◌, ◌%◌, ◌^◌, Bool, true, false, not, ◌&&◌, [], ◌∷◌, Option, none, some, length, drop,
  ltb, leb, ◌==◌, if◌then◌else◌,
}
use montecoin.Prelude.Int.{ℤ, pos, negsuc, leb_ℤ}
use montecoin.Script.{Bytes}
use mathlib.Core.List.{reverse}

-- `BN_mpi2bn` and `BN_bn2mpi`: a number as its size in four bytes, the highest first, and its bytes
-- with the sign in the highest bit.
pub record Mpi : Type 0 where
  pub mpi2bn : Bytes → ℤ
  pub bn2mpi : ℤ → Bytes

unfoldable pub setvch : Mpi → Bytes → ℤ
setvch m vch =
    let n_size = length vch % 2 ^ 32 in
    m.mpi2bn (
      n_size / 2 ^ 24 % 256
      ∷ n_size / 2 ^ 16 % 256
      ∷ n_size / 2 ^ 8 % 256
      ∷ n_size % 256
      ∷ reverse vch)

unfoldable pub getvch : Mpi → ℤ → Bytes
getvch m bn = let vch = m.bn2mpi bn in if leb (length vch) 4 then [] else reverse (drop 4 vch)

-- `none` is the exception of a number of more than four bytes.
unfoldable pub cast_to_big_num : Mpi → Bytes → Option ℤ
cast_to_big_num m vch =
    if ltb 4 (length vch) then none else some (setvch m (getvch m (setvch m vch)))

-- `getint`, which stops at the ends of the type int.
unfoldable pub getint : ℤ → ℤ
getint (pos n) = if ltb (2 ^ 31 - 1) n then pos (2 ^ 31 - 1) else pos n
getint (negsuc n) = if ltb (2 ^ 31 - 1) (n + 1) then negsuc (2 ^ 31 - 1) else negsuc n

-- Any byte but 0 makes a value true, except that the last may be a negative zero.
unfoldable pub cast_to_bool : Bytes → Bool
cast_to_bool [] = false
cast_to_bool (b ∷ vch) = if b == 0 then cast_to_bool vch else not (length vch == 0 && b == 0x80)

abbrev pub vch_true : Bytes
vch_true = 1 ∷ []

abbrev pub vch_false : Bytes
vch_false = []

abbrev pub from_bool : Bool → Bytes
from_bool true = vch_true
from_bool false = vch_false

abbrev pub eq_ℤ : ℤ → ℤ → Bool
eq_ℤ a b = leb_ℤ a b && leb_ℤ b a

abbrev pub num : Bool → ℤ
num true = pos 1
num false = pos 0
