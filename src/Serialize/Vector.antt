-- ===== src/Serialize/Vector.antt =====
-- Vectors on a stream: the templates `Serialize_impl` and `Unserialize_impl` of src/serialize.h, for
-- bytes (read in blocks) and for other types (read one by one).
use Prim.Native.Nat.{min}
use montecoin.Prelude.{ℕ, zero, suc, ◌+◌, ◌-◌, List, [], ◌∷◌, ◌++◌, none, true, false, length, ◌==◌}
use montecoin.Serialize.{Reader, ◌>>=◌, pure, read, Codec}
use montecoin.Serialize.CompactSize.{
  get_size_of_compact_size, write_compact_size, read_compact_size,
}

-- The loop over blocks of at most 5000000 bytes, with `n` bytes left to read. It runs on fuel.
unfoldable pub read_blocks : ℕ → ℕ → Reader (List ℕ)
read_blocks zero n = λ s. none
read_blocks (suc fuel) n = elim (n == 0) [
  | true ↦ pure []
  | false ↦ do
    let blk = min n 5_000_000
    xs ← read blk
    ys ← read_blocks fuel (n - blk)
    pure (xs ++ ys)
]

-- `std::vector<unsigned char>`, and so `CScript`. A block has a byte at least, so that as many rounds
-- as bytes, and one to leave the loop, are enough.
unfoldable pub bytes_codec : Codec (List ℕ)
bytes_codec = record {
  get_serialize_size = λ v. get_size_of_compact_size (length v) + length v;
  serialize = λ v. write_compact_size (length v) ++ v;
  unserialize = (do n_size ← read_compact_size; read_blocks (suc n_size) n_size);
}

module _ {A : Type 0} (c : Codec A) where
  unfoldable pub sum_sizes : List A → ℕ
  sum_sizes [] = 0
  sum_sizes (a ∷ v) = c.get_serialize_size a + sum_sizes v

  unfoldable pub write_items : List A → List ℕ
  write_items [] = []
  write_items (a ∷ v) = c.serialize a ++ write_items v

  -- The source reads the same elements in the same order, in batches that bound the allocation.
  unfoldable pub read_items : ℕ → Reader (List A)
  read_items zero = pure []
  read_items (suc n) = do a ← c.unserialize; v ← read_items n; pure (a ∷ v)

  unfoldable pub vector_codec : Codec (List A)
  unfolding sum_sizes write_items read_items
  vector_codec = record {
    get_serialize_size = λ v. get_size_of_compact_size (length v) + sum_sizes v;
    serialize = λ v. write_compact_size (length v) ++ write_items v;
    unserialize = (do n_size ← read_compact_size; read_items n_size);
  }
