-- ===== src/Serialize/CompactSize.antt =====
-- Compact sizes: `GetSizeOfCompactSize`, `WriteCompactSize` and `ReadCompactSize` of src/serialize.h.
use montecoin.Prelude.{
  ℕ, ◌+◌, ◌^◌, ◌-◌, ◌<◌, ◌≡◌, List, [], ◌++◌, none, some, length, ltb, leb, ◌==◌, if◌then◌else◌,
  arith, Bool-cases, inl, inr, ◌∙◌,
}
use montecoin.Serialize.{bind-some, Reader, ◌>>=◌, le_bytes, read_uint}
use mathlib.Core.List.{append_assoc, append-nil}
use montecoin.Serialize.Bytes.{read_uint-le_bytes}

abbrev pub max_size : ℕ
max_size = 0x0200_0000

unfoldable pub get_size_of_compact_size : ℕ → ℕ
get_size_of_compact_size n_size =
    if ltb n_size 253
    then 1
    else if leb n_size (2 ^ 16 - 1)
    then 1 + 2
    else if leb n_size (2 ^ 32 - 1)
    then 1 + 4
    else 1 + 8

unfoldable pub write_compact_size : ℕ → List ℕ
write_compact_size n_size =
    if ltb n_size 253
    then le_bytes 1 n_size
    else if leb n_size (2 ^ 16 - 1)
    then le_bytes 1 253 ++ le_bytes 2 n_size
    else if leb n_size (2 ^ 32 - 1)
    then le_bytes 1 254 ++ le_bytes 4 n_size
    else le_bytes 1 255 ++ le_bytes 8 n_size

-- The number that follows the first byte.
unfoldable pub read_size_after : ℕ → Reader ℕ
read_size_after ch_size s =
    if ltb ch_size 253
    then some (ch_size, s)
    else if ch_size == 253
    then read_uint 2 s
    else if ch_size == 254
    then read_uint 4 s
    else read_uint 8 s

-- The check against `MAX_SIZE`, which throws.
unfoldable pub check_max_size : ℕ → Reader ℕ
check_max_size n_size_ret s = if ltb max_size n_size_ret then none else some (n_size_ret, s)

unfoldable pub read_compact_size : Reader ℕ
unfolding read_size_after check_max_size
read_compact_size = do
  ch_size ← read_uint 1
  n_size_ret ← read_size_after ch_size
  check_max_size n_size_ret

-- The announced size is the number of bytes written.
pub length-write_compact_size : (n : ℕ) → length (write_compact_size n) ≡ get_size_of_compact_size n
unfolding write_compact_size get_size_of_compact_size le_bytes
length-write_compact_size n = ground arith

-- A first byte and the number behind it.
first_byte :
    (t n : ℕ) (bs rest : List ℕ)
    → t < 256
    → read_size_after t (bs ++ rest) ≡ some (n, rest)
    → read_compact_size ((le_bytes 1 t ++ bs) ++ rest) ≡ check_max_size n rest
unfolding read_compact_size
first_byte t n bs rest ht h = rw (append_assoc (le_bytes 1 t) bs rest) (
    bind-some (read_uint 1) _ _ (read_uint-le_bytes 1 t (bs ++ rest) (omega arith))
    ∙ bind-some (read_size_after t) _ (bs ++ rest) h)

-- Reading back a compact size gives it, whatever follows, or throws if it is above the limit.
pub read_compact_size-write :
    (n : ℕ) (rest : List ℕ)
    → n < 2 ^ 64
    → read_compact_size (write_compact_size n ++ rest)
      ≡ (if ltb max_size n then none else some (n, rest))
unfolding write_compact_size check_max_size read_size_after
read_compact_size-write n rest h = elim (Bool-cases (ltb n 253)) [
  | inl a ↦ rw a (rw append-nil at (first_byte n n [] rest (ground arith) (rw a)))
  | inr a ↦ elim (Bool-cases (leb n (2 ^ 16 - 1))) [
    | inl b ↦
        rw (a, b)
          (first_byte 253 n (le_bytes 2 n) rest (omega arith)
            (read_uint-le_bytes 2 n rest (ground arith)))
    | inr b ↦ elim (Bool-cases (leb n (2 ^ 32 - 1))) [
      | inl c ↦
          rw (a, b, c)
            (first_byte 254 n (le_bytes 4 n) rest (omega arith)
              (read_uint-le_bytes 4 n rest (ground arith)))
      | inr c ↦
          rw (a, b, c)
            (first_byte 255 n (le_bytes 8 n) rest (omega arith)
              (read_uint-le_bytes 8 n rest (omega arith)))
    ]
  ]
]
