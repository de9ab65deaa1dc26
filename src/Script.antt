-- ===== src/Script.antt =====
-- Scripts as bytes: the class CScript of src/script.h, with `GetOp2`, `operator<<`, `FindAndDelete`,
-- `IsPushOnly`, `IsPayToScriptHash` and `GetSigOpCount` of src/script.h and src/script.cpp.
pub mod Opcode
pub mod Number
pub mod Vm
pub mod Eval
pub mod Solver
pub mod Push
pub mod Branches
pub mod Effect
pub mod Static
pub mod Fuel
pub mod Run
pub mod Trace
pub mod Pushes
pub mod HashRun
pub mod Destination
pub mod KeyRun
pub mod PubKeyHash
pub mod Template
pub mod ScriptHash
pub mod SigOps
pub mod Multisig
mod Tests
use montecoin.Prelude.{
  ℕ, zero, suc, ◌+◌, ◌-◌, ◌*◌, ◌<◌, ◌≡◌, Bool, true, false, not, ◌&&◌, ◌||◌, List, [], ◌∷◌, ◌++◌,
  Option, none, some, length, take, drop, get_elem?, ltb, leb, ◌==◌, if◌then◌else◌,
}
use montecoin.Serialize.{Reader, read, read_uint, le_bytes}

abbrev pub Bytes : Type 0
Bytes = List ℕ

-- A chain of steps that may each fail.
infixl 5 ◌>>=◌ ◌>>◌
abbrev pub ◌>>=◌ : {A B : Type 0} → Option A → (A → Option B) → Option B
none >>= f = none
some a >>= f = f a

abbrev pub ◌>>◌ : {B : Type 0} → Option (Unit {0}) → Option B → Option B
m >> k = m >>= λ _. k

abbrev pub holds : {A : Type 0} → Option A → (A → Bool) → Bool
holds none f = false
holds (some a) f = f a

abbrev pub or_else : {A : Type 0} → ℕ → Option A → (A → ℕ) → ℕ
or_else n none f = n
or_else n (some a) f = f a

abbrev pub require : Bool → Option (Unit {0})
require true = some tt
require false = none

-- Some of `opcodetype`; the others stand in Script.Opcode.
abbrev pub op_pushdata1 : ℕ
op_pushdata1 = 0x4c

abbrev pub op_pushdata2 : ℕ
op_pushdata2 = 0x4d

abbrev pub op_pushdata4 : ℕ
op_pushdata4 = 0x4e

abbrev pub op_1 : ℕ
op_1 = 0x51

abbrev pub op_16 : ℕ
op_16 = 0x60

abbrev pub op_equal : ℕ
op_equal = 0x87

abbrev pub op_hash160 : ℕ
op_hash160 = 0xa9

abbrev pub op_invalidopcode : ℕ
op_invalidopcode = 0xff

-- The size of the operand that follows an opcode up to `OP_PUSHDATA4`.
unfoldable pub operand_size : ℕ → Reader ℕ
operand_size opcode pc =
    if ltb opcode op_pushdata1
    then some (opcode, pc)
    else if opcode == op_pushdata1
    then read_uint 1 pc
    else if opcode == op_pushdata2
    then read_uint 2 pc
    else read_uint 4 pc

unfoldable pub read_operand : ℕ → Reader (ℕ × Bytes)
read_operand opcode pc = do
  (n_size, pc') ← operand_size opcode pc
  (vch, rest) ← read n_size pc'
  some ((opcode, vch), rest)

-- `GetOp2`: the opcode, its operand and the rest of the script.
unfoldable pub get_op : Reader (ℕ × Bytes)
get_op [] = none
get_op (opcode ∷ pc) =
    if leb opcode op_pushdata4 then read_operand opcode pc else some ((opcode, []), pc)

-- What `operator<<` writes for the bytes `b`: the size, then the bytes.
unfoldable pub push_size : ℕ → Bytes
push_size n_size =
    if ltb n_size op_pushdata1
    then n_size ∷ []
    else if leb n_size 0xff
    then op_pushdata1 ∷ n_size ∷ []
    else if leb n_size 0xffff
    then op_pushdata2 ∷ le_bytes 2 n_size
    else op_pushdata4 ∷ le_bytes 4 n_size

unfoldable pub push_data : Bytes → Bytes
push_data b = push_size (length b) ++ b

unfoldable pub starts_with : Bytes → Bytes → Bool
starts_with [] s = true
starts_with (x ∷ b) [] = false
starts_with (x ∷ b) (y ∷ s) = (x == y) && starts_with b s

-- The inner loop of `FindAndDelete`, on fuel: what is left, and how often `b` was deleted.
unfoldable pub delete_loop : ℕ → Bytes → Bytes → ℕ → Bytes × ℕ
delete_loop zero b s n_found = (s, n_found)
delete_loop (suc fuel) b s n_found =
    let rest = delete_loop fuel b (drop (length b) s) (n_found + 1) in
    if starts_with b s then rest else (s, n_found)

-- The outer loop, on fuel, from a position on.
unfoldable pub find_loop : ℕ → Bytes → Bytes → ℕ → Bytes × ℕ
find_loop zero b s n_found = (s, n_found)
find_loop (suc fuel) b s n_found =
    let (s', n) = delete_loop (length s) b s n_found in
    elim (get_op s') [
      | none ↦ (s', n)
      | some (op, rest) ↦
          let (r, m) = find_loop fuel b rest n in (take (length s' - length rest) s' ++ r, m)
    ]

unfoldable pub find_and_delete : Bytes → Bytes → Bytes × ℕ
find_and_delete b script =
    if length b == 0 then (script, 0) else find_loop (length script + 1) b script 0

unfoldable pub is_pay_to_script_hash : Bytes → Bool
is_pay_to_script_hash script =
    length script == 23 && at_is 0 op_hash160 && at_is 1 0x14 && at_is 22 op_equal
  where
    at_is : ℕ → ℕ → Bool
    at_is i b = holds (get_elem? script i) (λ x. x == b)

-- The loop of `IsPushOnly`, on fuel.
unfoldable pub push_only_loop : ℕ → Bytes → Bool
push_only_loop fuel [] = true
push_only_loop zero (b ∷ pc) = false
push_only_loop (suc fuel) (b ∷ pc) =
    holds (get_op (b ∷ pc)) (λ p. not (ltb op_16 p.0.0) && push_only_loop fuel p.1)

unfoldable pub is_push_only : Bytes → Bool
is_push_only script = push_only_loop (length script) script

-- `DecodeOP_N`, where its assertion holds.
abbrev pub decode_op_n : ℕ → ℕ
decode_op_n opcode = if opcode == 0 then 0 else opcode - (op_1 - 1)

-- How much one opcode counts, after another.
unfoldable pub sig_ops_of : Bool → ℕ → ℕ → ℕ
sig_ops_of f_accurate last_opcode opcode =
    if opcode == 0xac || opcode == 0xad
    then 1
    else if opcode == 0xae || opcode == 0xaf
    then (if f_accurate && leb op_1 last_opcode && leb last_opcode op_16
        then decode_op_n last_opcode
        else 20)
    else 0

-- The loop of `GetSigOpCount(fAccurate)`, on fuel.
unfoldable pub sig_op_loop : ℕ → Bool → ℕ → ℕ → Bytes → ℕ
sig_op_loop fuel f_accurate last_opcode n [] = n
sig_op_loop zero f_accurate last_opcode n (b ∷ pc) = n
sig_op_loop (suc fuel) f_accurate last_opcode n (b ∷ pc) =
    or_else n (get_op (b ∷ pc))
      (λ p. sig_op_loop fuel f_accurate p.0.0 (n + sig_ops_of f_accurate last_opcode p.0.0) p.1)

unfoldable pub get_sig_op_count : Bool → Bytes → ℕ
get_sig_op_count f_accurate script =
    sig_op_loop (length script) f_accurate op_invalidopcode 0 script

-- The loop of `GetSigOpCount(scriptSig)`: the operand that is read last, or none where the source
-- returns 0.
unfoldable pub last_push_loop : ℕ → Bytes → Bytes → Option Bytes
last_push_loop fuel last [] = some last
last_push_loop zero last (b ∷ pc) = none
last_push_loop (suc fuel) last (b ∷ pc) = elim (get_op (b ∷ pc)) [
  | none ↦ none
  | some ((opcode, vch), rest) ↦ if ltb op_16 opcode then none else last_push_loop fuel vch rest
]

-- `GetSigOpCount(scriptSig)` of the script that is spent.
unfoldable pub get_p2sh_sig_op_count : Bytes → Bytes → ℕ
get_p2sh_sig_op_count script script_sig =
    if not (is_pay_to_script_hash script)
    then get_sig_op_count true script
    else elim (last_push_loop (length script_sig) [] script_sig) [
      | none ↦ 0
      | some last ↦ get_sig_op_count true last
    ]
