-- ===== src/Serialize/Bytes.antt =====
-- Reading back what was written, at the level of bytes and of integers.
use montecoin.Prelude.{
  ℕ, zero, suc, ◌/◌, ◌≡◌, refl, ap, ◌∙◌, List, [], ◌∷◌, ◌++◌, some, false, length, take, drop, ltb,
  arith, length-append,
}
use montecoin.Serialize.{bind-some, read, le_bytes, le_value, read_uint, Codec}

-- `n` has at most `k` bytes.
abbrev pub Fits : ℕ → ℕ → Type 0
Fits zero n = n ≡ 0
Fits (suc k) n = Fits k (n / 256)

pub length-le_bytes : (k n : ℕ) → length (le_bytes k n) ≡ k
unfolding le_bytes
length-le_bytes zero n = refl
length-le_bytes (suc k) n = ap suc (length-le_bytes k (n / 256))

pub le_value-le_bytes : (k n : ℕ) → Fits k n → le_value (le_bytes k n) ≡ n
unfolding le_bytes le_value
le_value-le_bytes zero n h = omega arith
le_value-le_bytes (suc k) n h = omega (arith, le_value-le_bytes k (n / 256) h)

pub take_prefix : (xs rest : List ℕ) → take (length xs) (xs ++ rest) ≡ xs
take_prefix [] rest = refl
take_prefix (x ∷ xs) rest = ap (◌∷◌ x) (take_prefix xs rest)

drop_prefix : (xs rest : List ℕ) → drop (length xs) (xs ++ rest) ≡ rest
drop_prefix [] rest = refl
drop_prefix (x ∷ xs) rest = drop_prefix xs rest

pub read_prefix : (xs rest : List ℕ) → read (length xs) (xs ++ rest) ≡ some (xs, rest)
unfolding read
read_prefix xs rest =
    let e : ltb (length (xs ++ rest)) (length xs) ≡ false = ground (arith, length-append xs rest) in
    rw (e, take_prefix xs rest, drop_prefix xs rest)

pub read_uint-le_bytes :
    (k n : ℕ) (rest : List ℕ) → Fits k n → read_uint k (le_bytes k n ++ rest) ≡ some (n, rest)
unfolding read_uint
read_uint-le_bytes k n rest h =
    let r = read_prefix (le_bytes k n) rest in
    let r' : read k (le_bytes k n ++ rest) ≡ some (le_bytes k n, rest) =
      rw (length-le_bytes k n) at r in
    bind-some (read k) _ (le_bytes k n ++ rest) r' ∙ rw (le_value-le_bytes k n h)

-- A codec is right at a value if reading gives back what was written, whatever follows, and the
-- announced size is the number of bytes.
pub record IsRight {A : Type 0} (c : Codec A) (a : A) : Type 0 where
  pub unserialize-serialize :
      (rest : List ℕ) → c.unserialize (c.serialize a ++ rest) ≡ some (a, rest)
  pub size : length (c.serialize a) ≡ c.get_serialize_size a
