-- ===== src/Script/Eval.antt =====
-- `EvalScript` and `VerifyScript` of src/script.cpp.
use montecoin.Prelude.{
  ℕ, zero, suc, ◌+◌, Bool, true, false, not, ◌&&◌, ◌||◌, List, [], ◌∷◌, Option, none, some, length,
  ltb, leb, ◌==◌, if◌then◌else◌,
}
use montecoin.Script.{
  Bytes, holds, ◌>>=◌, ◌>>◌, require, get_op, is_push_only, is_pay_to_script_hash, op_pushdata4,
  op_16,
}
use montecoin.Script.Opcode.{decode, is_disabled}
use montecoin.Script.Number.{cast_to_bool}
use montecoin.Script.Vm.{Env, Stack, Vm, exec_op}

-- `fExec`: no branch that is open is passed over.
abbrev pub all_true : List Bool → Bool
all_true [] = true
all_true (b ∷ vf) = b && all_true vf

-- What an instruction does: push its operand, run the `switch`, or nothing.
unfoldable pub execute : Env → Bool → ℕ → Bytes → Bytes → Vm → Option Vm
execute env f_exec opcode vch pc vm =
    if f_exec && leb opcode op_pushdata4
    then some (record vm { stack = vch ∷ vm.stack })
    else if f_exec || (leb 0x63 opcode && leb opcode 0x68)
    then exec_op env (decode opcode) f_exec pc vm
    else some vm

abbrev pub counted : ℕ → Vm → Vm
counted opcode vm = record vm {
  n_op_count = if ltb op_16 opcode then vm.n_op_count + 1 else vm.n_op_count;
}

-- The checks of an instruction that has been read, what it does, and the limit on the stacks.
unfoldable pub run_op : Env → ℕ → Bytes → Bytes → Vm → Option Vm
run_op env opcode vch pc vm = do
  require (leb (length vch) 520)
  require (not (ltb op_16 opcode && ltb 201 (vm.n_op_count + 1)))
  require (not (is_disabled opcode))
  vm' ← execute env (all_true vm.vf_exec) opcode vch pc (counted opcode vm)
  require (leb (length vm'.stack + length vm'.altstack) 1000)
  some vm'

-- The loop, on fuel; an exception counts as `return false`.
unfoldable pub eval_loop : Env → ℕ → Bytes → Vm → Option Vm
eval_loop env fuel [] vm = some vm
eval_loop env zero (b ∷ pc) vm = none
eval_loop env (suc fuel) (b ∷ pc) vm = do
  ((opcode, vch), rest) ← get_op (b ∷ pc)
  vm' ← run_op env opcode vch rest vm
  eval_loop env fuel rest vm'

abbrev pub start : Bytes → Stack → Vm
start script stack = record {
  stack = stack;
  altstack = [];
  vf_exec = [];
  n_op_count = 0;
  code_hash = script;
}

-- The stack that is left, or `return false`.
unfoldable pub eval_script : Env → Bytes → Stack → Option Stack
eval_script env script stack = do
  require (leb (length script) 10_000)
  vm ← eval_loop env (length script) script (start script stack)
  require (length vm.vf_exec == 0)
  some vm.stack

-- Whether the topmost element is there and true.
abbrev pub top_is_true : Stack → Bool
top_is_true [] = false
top_is_true (x ∷ s) = cast_to_bool x

abbrev pub verify_redeem : Env → Stack → Bool
verify_redeem env [] = false
verify_redeem env (pub_key_serialized ∷ s) =
    holds (eval_script env pub_key_serialized s) top_is_true

-- The part for scripts that are named by their hash. The source takes `stackCopy.back()` with no test:
-- a redeeming script that is not there does not verify here.
unfoldable pub verify_script : Env → Bytes → Bytes → Bool → Bool
verify_script env script_sig script_pub_key f_validate_pay_to_script_hash =
    holds (eval_script env script_sig []) (λ stack.
      holds (eval_script env script_pub_key stack) (λ stack'.
        top_is_true stack'
        && (if f_validate_pay_to_script_hash && is_pay_to_script_hash script_pub_key
            then is_push_only script_sig && verify_redeem env stack
            else true)))
