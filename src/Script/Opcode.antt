-- ===== src/Script/Opcode.antt =====
-- The opcodes that src/script.cpp evaluates, by what they work on, and the byte of each
-- (`opcodetype` of src/script.h).
use montecoin.Prelude.{
  ℕ, ◌-◌, Bool, true, false, ◌&&◌, ◌||◌, List, [], ◌∷◌, leb, ◌==◌, if◌then◌else◌,
}
use montecoin.Prelude.Int.{ℤ, pos, negsuc}

-- Branches.
pub data Branch : Type 0 where
  op_if op_notif op_else op_endif : Branch

-- Operations on the two stacks.
pub data StackOp : Type 0 where
  op_toaltstack op_fromaltstack op_2drop op_2dup op_3dup op_2over op_2rot op_2swap : StackOp
  op_ifdup op_depth op_drop op_dup op_nip op_over op_rot op_swap op_tuck op_size : StackOp
  op_pick op_roll : StackOp

-- Operations on one number, and on two.
pub data UnaryOp : Type 0 where
  op_1add op_1sub op_negate op_abs op_not op_0notequal : UnaryOp

pub data BinaryOp : Type 0 where
  op_add op_sub op_booland op_boolor op_numequal op_numnotequal : BinaryOp
  op_lessthan op_greaterthan op_lessthanorequal op_greaterthanorequal op_min op_max : BinaryOp

pub data HashOp : Type 0 where
  op_ripemd160 op_sha1 op_sha256 op_hash160 op_hash256 : HashOp

-- The flag of an operation tells its variant that ends in VERIFY.
pub data Opcode : Type 0 where
  small : ℤ → Opcode
  op_nop op_verify op_return op_within op_codeseparator : Opcode
  branch : Branch → Opcode
  stack_op : StackOp → Opcode
  equal : Bool → Opcode
  unary : UnaryOp → Opcode
  binary : BinaryOp → Opcode
  numequal_verify : Opcode
  hash_op : HashOp → Opcode
  checksig checkmultisig : Bool → Opcode
  unknown : Opcode

unfoldable pub opcode_table : List (ℕ × Opcode)
opcode_table =
    (0x4f, small (negsuc 0))
    ∷ (0x61, op_nop)
    ∷ (0x63, branch op_if)
    ∷ (0x64, branch op_notif)
    ∷ (0x67, branch op_else)
    ∷ (0x68, branch op_endif)
    ∷ (0x69, op_verify)
    ∷ (0x6a, op_return)
    ∷ (0x6b, stack_op op_toaltstack)
    ∷ (0x6c, stack_op op_fromaltstack)
    ∷ (0x6d, stack_op op_2drop)
    ∷ (0x6e, stack_op op_2dup)
    ∷ (0x6f, stack_op op_3dup)
    ∷ (0x70, stack_op op_2over)
    ∷ (0x71, stack_op op_2rot)
    ∷ (0x72, stack_op op_2swap)
    ∷ (0x73, stack_op op_ifdup)
    ∷ (0x74, stack_op op_depth)
    ∷ (0x75, stack_op op_drop)
    ∷ (0x76, stack_op op_dup)
    ∷ (0x77, stack_op op_nip)
    ∷ (0x78, stack_op op_over)
    ∷ (0x79, stack_op op_pick)
    ∷ (0x7a, stack_op op_roll)
    ∷ (0x7b, stack_op op_rot)
    ∷ (0x7c, stack_op op_swap)
    ∷ (0x7d, stack_op op_tuck)
    ∷ (0x82, stack_op op_size)
    ∷ (0x87, equal false)
    ∷ (0x88, equal true)
    ∷ (0x8b, unary op_1add)
    ∷ (0x8c, unary op_1sub)
    ∷ (0x8f, unary op_negate)
    ∷ (0x90, unary op_abs)
    ∷ (0x91, unary op_not)
    ∷ (0x92, unary op_0notequal)
    ∷ (0x93, binary op_add)
    ∷ (0x94, binary op_sub)
    ∷ (0x9a, binary op_booland)
    ∷ (0x9b, binary op_boolor)
    ∷ (0x9c, binary op_numequal)
    ∷ (0x9d, numequal_verify)
    ∷ (0x9e, binary op_numnotequal)
    ∷ (0x9f, binary op_lessthan)
    ∷ (0xa0, binary op_greaterthan)
    ∷ (0xa1, binary op_lessthanorequal)
    ∷ (0xa2, binary op_greaterthanorequal)
    ∷ (0xa3, binary op_min)
    ∷ (0xa4, binary op_max)
    ∷ (0xa5, op_within)
    ∷ (0xa6, hash_op op_ripemd160)
    ∷ (0xa7, hash_op op_sha1)
    ∷ (0xa8, hash_op op_sha256)
    ∷ (0xa9, hash_op op_hash160)
    ∷ (0xaa, hash_op op_hash256)
    ∷ (0xab, op_codeseparator)
    ∷ (0xac, checksig false)
    ∷ (0xad, checksig true)
    ∷ (0xae, checkmultisig false)
    ∷ (0xaf, checkmultisig true)
    ∷ []

unfoldable pub find_opcode : ℕ → List (ℕ × Opcode) → Opcode
find_opcode opcode [] = unknown
find_opcode opcode ((k, o) ∷ table) = if k == opcode then o else find_opcode opcode table

-- OP_1 to OP_16, and OP_NOP1 to OP_NOP10, are two ranges.
unfoldable pub decode : ℕ → Opcode
decode opcode =
    if leb 0x51 opcode && leb opcode 0x60
    then small (pos (opcode - 0x50))
    else if leb 0xb0 opcode && leb opcode 0xb9
    then op_nop
    else find_opcode opcode opcode_table

-- The opcodes that end the evaluation wherever they stand: OP_CAT to OP_RIGHT, OP_INVERT to OP_XOR,
-- OP_2MUL, OP_2DIV and OP_MUL to OP_RSHIFT.
unfoldable pub is_disabled : ℕ → Bool
is_disabled opcode =
    opcode == 0x7e
    || opcode == 0x7f
    || opcode == 0x80
    || opcode == 0x81
    || opcode == 0x83
    || opcode == 0x84
    || opcode == 0x85
    || opcode == 0x86
    || opcode == 0x8d
    || opcode == 0x8e
    || opcode == 0x95
    || opcode == 0x96
    || opcode == 0x97
    || opcode == 0x98
    || opcode == 0x99
