-- ===== src/Serialize.antt =====
-- src/serialize.h: the basic types, compact sizes and vectors on a byte stream (`CDataStream`), and
-- the size that each takes. A stream is the list of the bytes that are left; `none` is the exception
-- `ios_base::failure`. Integers are stored in little-endian order, as on the platforms built for.
pub mod Bytes
pub mod CompactSize
pub mod Vector
pub mod Blocks
use montecoin.Prelude.{
  ◌≡◌, ℕ, zero, suc, ◌+◌, ◌*◌, ◌/◌, ◌%◌, List, [], ◌∷◌, Option, none, some, Bool, true, false,
  length, take, drop, ltb, if◌then◌else◌,
}

abbrev pub Reader : Type 0 → Type 0
Reader A = List ℕ → Option (A × List ℕ)

infixl 5 ◌>>=◌
abbrev pub ◌>>=◌ : {A B : Type 0} → Reader A → (A → Reader B) → Reader B
◌>>=◌ m f s = elim (m s) [ none ↦ none | some (a, s') ↦ f a s' ]

abbrev pub pure : {A : Type 0} → A → Reader A
pure a s = some (a, s)

abbrev pub fail : {A : Type 0} → Reader A
fail s = none

-- A chain of reads goes on with what the first one gives, or stops with it.
pub bind-some :
    {A B : Type 0} (m : Reader A) (f : A → Reader B) (s : List ℕ) {a : A} {s' : List ℕ}
    → m s ≡ some (a, s')
    → (m >>= f) s ≡ f a s'
bind-some m f s h = rw (h, ◌>>=◌)

pub bind-none :
    {A B : Type 0} (m : Reader A) (f : A → Reader B) (s : List ℕ) → m s ≡ none → (m >>= f) s ≡ none
bind-none m f s h = rw (h, ◌>>=◌)

-- `CDataStream::read`: `n` bytes, or an exception at the end of the data.
unfoldable pub read : ℕ → Reader (List ℕ)
read n s = if ltb (length s) n then none else some (take n s, drop n s)

-- The `k` bytes of an integer, and the integer that bytes stand for.
unfoldable pub le_bytes : ℕ → ℕ → List ℕ
le_bytes zero n = []
le_bytes (suc k) n = n % 256 ∷ le_bytes k (n / 256)

unfoldable pub le_value : List ℕ → ℕ
le_value [] = 0
le_value (b ∷ bs) = b + 256 * le_value bs

-- `READDATA` of an unsigned integer of `k` bytes.
unfoldable pub read_uint : ℕ → Reader ℕ
read_uint k = do bs ← read k; pure (le_value bs)

-- What a type needs to be serialized: `GetSerializeSize`, `Serialize` and `Unserialize`.
pub record Codec (A : Type 0) : Type 0 where
  pub get_serialize_size : A → ℕ
  pub serialize : A → List ℕ
  pub unserialize : Reader A
