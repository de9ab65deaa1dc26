-- ===== src/Serialize/Blocks.antt =====
-- Reading in blocks is reading at once, and vectors are read back as they were written.
use Prim.Native.Nat.{min}
use mathlib.Core.List.{append_assoc}
use montecoin.Prelude.{
  ℕ, zero, suc, ◌+◌, ◌-◌, ◌≤◌, ◌<◌, ◌≡◌, refl, sym, ap, ◌∙◌, List, [], ◌∷◌, ◌++◌, none, some, true,
  false, length, take, drop, ltb, ◌==◌, arith, length-append, length-drop, Bool-cases, inl, inr,
}
use montecoin.Serialize.{Reader, ◌>>=◌, pure, read, Codec, bind-some, bind-none}
use montecoin.Serialize.Bytes.{IsRight, read_prefix}
use montecoin.Serialize.CompactSize.{
  write_compact_size, read_compact_size, max_size, length-write_compact_size,
  read_compact_size-write,
}
use montecoin.Serialize.Vector.{
  read_blocks, bytes_codec, sum_sizes, write_items, read_items, vector_codec,
}

take-nil : (b : ℕ) → ◌≡◌ {A = List ℕ} [] (take b [])
take-nil zero = refl
take-nil (suc b) = refl

drop-nil : (b : ℕ) → ◌≡◌ {A = List ℕ} [] (drop b [])
drop-nil zero = refl
drop-nil (suc b) = refl

take-add : (a b : ℕ) (s : List ℕ) → take (a + b) s ≡ take a s ++ take b (drop a s)
take-add zero b s = let e : 0 + b ≡ b = omega arith in rw e
take-add (suc a) b [] = let e : suc a + b ≡ suc (a + b) = omega arith in rw e (take-nil b)
take-add (suc a) b (x ∷ s) =
    let e : suc a + b ≡ suc (a + b) = omega arith in rw e (ap (◌∷◌ x) (take-add a b s))

drop-add : (a b : ℕ) (s : List ℕ) → drop (a + b) s ≡ drop b (drop a s)
drop-add zero b s = let e : 0 + b ≡ b = omega arith in rw e
drop-add (suc a) b [] = let e : suc a + b ≡ suc (a + b) = omega arith in rw e (drop-nil b)
drop-add (suc a) b (x ∷ s) = let e : suc a + b ≡ suc (a + b) = omega arith in rw e (drop-add a b s)

read_enough : (n : ℕ) (s : List ℕ) → n ≤ length s → read n s ≡ some (take n s, drop n s)
unfolding read
read_enough n s h = let e : ltb (length s) n ≡ false = ground arith in rw e

read_short : (n : ℕ) (s : List ℕ) → length s < n → read n s ≡ none
unfolding read
read_short n s h = let e : ltb (length s) n ≡ true = ground arith in rw e

-- Two reads in a row, with their results joined, are one.
read_split :
    (m : Reader (List ℕ)) (a b : ℕ) (s : List ℕ)
    → m (drop a s) ≡ read b (drop a s)
    → (do xs ← read a; ys ← m; pure (xs ++ ys)) s ≡ read (a + b) s
read_split m a b s h = elim (Bool-cases (ltb (length s) a)) [
  | inl short ↦
      bind-none (read a) _ s (read_short a s (ground arith))
      ∙ sym (read_short (a + b) s (ground arith))
  | inr first ↦
      bind-some (read a) _ s (read_enough a s (ground arith))
      ∙ elim (Bool-cases (ltb (length (drop a s)) b)) [
        | inl short ↦
            bind-none m _ (drop a s) (h ∙ read_short b (drop a s) (ground arith))
            ∙ sym (read_short (a + b) s (ground (arith, length-drop a s)))
        | inr rest ↦
            bind-some m _ (drop a s) (h ∙ read_enough b (drop a s) (ground arith))
            ∙ rw (← take-add a b s, ← drop-add a b s)
                (sym (read_enough (a + b) s (ground (arith, length-drop a s))))
      ]
]

-- With more rounds than bytes, reading in blocks gives what one read gives, an exception included.
pub read_blocks-read : (fuel n : ℕ) (s : List ℕ) → n < fuel → read_blocks fuel n s ≡ read n s
unfolding read_blocks
read_blocks-read zero n s h = absurd (omega arith)
read_blocks-read (suc fuel) n s h = elim (Bool-cases (n == 0)) [
  | inl e ↦
      rw (e, read_blocks)
        (let z : n ≡ 0 = ground arith in rw z (sym (read_enough 0 s (omega arith))))
  | inr e ↦
      rw (e, read_blocks)
        (let blk : ℕ = min n 5_000_000 in
          let pos : n - blk < fuel = ground arith in
          let r =
            read_split (read_blocks fuel (n - blk)) blk (n - blk) s
              (read_blocks-read fuel (n - blk) (drop blk s) pos) in
          let t : blk + (n - blk) ≡ n = omega arith in r ∙ rw t)
]

abbrev pub AllRight : {A : Type 0} → Codec A → List A → Type 0
AllRight c [] = Unit {0}
AllRight c (a ∷ v) = IsRight c a × AllRight c v

-- A vector of bytes up to the size limit is read back as it was written.
pub bytes_codec-IsRight : (v : List ℕ) → length v ≤ max_size → IsRight bytes_codec v
unfolding bytes_codec
bytes_codec-IsRight v h = record {
  unserialize-serialize = λ rest.
      let k : ltb max_size (length v) ≡ false = ground arith in
      rw (append_assoc (write_compact_size (length v)) v rest) (
        bind-some read_compact_size _ _
          (read_compact_size-write (length v) (v ++ rest) (omega arith) ∙ rw k)
        ∙ read_blocks-read (suc (length v)) (length v) (v ++ rest) (omega arith)
        ∙ read_prefix v rest);
  size = omega (
    arith,
    length-append (write_compact_size (length v)) v,
    length-write_compact_size (length v),
  );
}

module _ {A : Type 0} (c : Codec A) where
  length-write_items : (v : List A) → AllRight c v → length (write_items c v) ≡ sum_sizes c v
  unfolding write_items sum_sizes
  length-write_items [] h = refl
  length-write_items (a ∷ v) h =
      omega
        (arith, length-append (c.serialize a) (write_items c v), h.0.size, length-write_items v h.1)

  read_items-write_items :
      (v : List A) (rest : List ℕ)
      → AllRight c v
      → read_items c (length v) (write_items c v ++ rest) ≡ some (v, rest)
  unfolding read_items write_items
  read_items-write_items [] rest h = refl
  read_items-write_items (a ∷ v) rest h = rw (append_assoc (c.serialize a) (write_items c v) rest) (
      bind-some c.unserialize _ _ (h.0.unserialize-serialize (write_items c v ++ rest))
      ∙ bind-some (read_items c (length v)) _ _ (read_items-write_items v rest h.1))

  -- So is a vector whose elements are.
  pub vector_codec-IsRight :
      (v : List A) → AllRight c v → length v ≤ max_size → IsRight (vector_codec c) v
  unfolding vector_codec
  vector_codec-IsRight v r h = record {
    unserialize-serialize = λ rest.
        let k : ltb max_size (length v) ≡ false = ground arith in
        rw (append_assoc (write_compact_size (length v)) (write_items c v) rest) (
          bind-some read_compact_size _ _
            (read_compact_size-write (length v) (write_items c v ++ rest) (omega arith) ∙ rw k)
          ∙ read_items-write_items v rest r);
    size = omega (
      arith,
      length-append (write_compact_size (length v)) (write_items c v),
      length-write_compact_size (length v),
      length-write_items v r,
    );
  }
