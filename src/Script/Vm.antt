-- ===== src/Script/Vm.antt =====
-- What the opcodes do: the `switch` of `EvalScript` in src/script.cpp. A stack is a list whose first
-- element is the top, so that `stacktop(-i)` is element `i - 1`. `none` is `return false` or an
-- exception, which `EvalScript` answers in the same way. The cases of opcodes that are disabled are
-- not reached.
use montecoin.Prelude.{
  ℕ, zero, suc, ◌+◌, Bool, true, false, not, ◌&&◌, ◌||◌, List, [], ◌∷◌, Option, none, some, length,
  take, drop, get_elem?, ltb, leb, ◌==◌, if◌then◌else◌,
}
use montecoin.Prelude.Int.{ℤ, pos, negsuc, ◌+ℤ◌, ◌-ℤ◌, ltb_ℤ, leb_ℤ}
use montecoin.Script.{Bytes, ◌>>=◌, ◌>>◌, require, push_data, find_and_delete}
use montecoin.Script.Opcode.{
  Branch, op_if, op_notif, op_else, op_endif, StackOp, op_toaltstack, op_fromaltstack, op_2drop,
  op_2dup, op_3dup, op_2over, op_2rot, op_2swap, op_ifdup, op_depth, op_drop, op_dup, op_nip,
  op_over, op_rot, op_swap, op_tuck, op_size, op_pick, op_roll, UnaryOp, op_1add, op_1sub,
  op_negate, op_abs, op_not, op_0notequal, BinaryOp, op_add, op_sub, op_booland, op_boolor,
  op_numequal, op_numnotequal, op_lessthan, op_greaterthan, op_lessthanorequal,
  op_greaterthanorequal, op_min, op_max, HashOp, op_ripemd160, op_sha1, op_sha256, op_hash160,
  op_hash256, Opcode, small, op_nop, op_verify, op_return, op_within, op_codeseparator, branch,
  stack_op, equal, unary, binary, numequal_verify, hash_op, checksig, checkmultisig, unknown,
}
use montecoin.Script.Number.{
  Mpi, getvch, cast_to_big_num, getint, cast_to_bool, from_bool, eq_ℤ, num,
}

-- What the machine takes from elsewhere: OpenSSL's numbers and hashes, `Hash160` and `Hash` of
-- src/util.h, and `CheckSig` of src/script.cpp at the transaction, the input and the type of hash that
-- are checked.
pub record Env : Type 0 where
  pub mpi : Mpi
  pub ripemd160 : Bytes → Bytes
  pub sha1 : Bytes → Bytes
  pub sha256 : Bytes → Bytes
  pub hash160 : Bytes → Bytes
  pub hash256 : Bytes → Bytes
  pub check_sig : Bytes → Bytes → Bytes → Bool

abbrev pub Stack : Type 0
Stack = List Bytes

-- `vf_exec` has the innermost branch first; `code_hash` is the script from `pbegincodehash` on.
pub record Vm : Type 0 where
  pub stack : Stack
  pub altstack : Stack
  pub vf_exec : List Bool
  pub n_op_count : ℕ
  pub code_hash : Bytes

-- The topmost elements, of which there must be so many.
abbrev pub with1 : {A : Type 0} → Stack → (Bytes → Stack → Option A) → Option A
with1 [] k = none
with1 (x1 ∷ s) k = k x1 s

abbrev pub with2 : {A : Type 0} → Stack → (Bytes → Bytes → Stack → Option A) → Option A
with2 (x2 ∷ x1 ∷ s) k = k x1 x2 s
with2 (x2 ∷ []) k = none
with2 [] k = none

abbrev pub with3 : {A : Type 0} → Stack → (Bytes → Bytes → Bytes → Stack → Option A) → Option A
with3 (x3 ∷ x2 ∷ x1 ∷ s) k = k x1 x2 x3 s
with3 (x3 ∷ x2 ∷ []) k = none
with3 (x3 ∷ []) k = none
with3 [] k = none

abbrev pub with4 :
    {A : Type 0} → Stack → (Bytes → Bytes → Bytes → Bytes → Stack → Option A) → Option A
with4 s k = with2 s (λ x3 x4 r. with2 r (λ x1 x2 r'. k x1 x2 x3 x4 r'))

unfoldable pub erase_at : ℕ → Stack → Stack
erase_at n [] = []
erase_at zero (x ∷ s) = s
erase_at (suc n) (x ∷ s) = x ∷ erase_at n s

-- OP_PICK and OP_ROLL.
unfoldable pub pick : Env → Bool → Stack → Option Stack
pick env roll s =
    with2 s (λ x1 x2 r. do bn ← cast_to_big_num env.mpi x2; pick_at (getint bn) (x1 ∷ r))
  where
    pick_at : ℤ → Stack → Option Stack
    pick_at (negsuc n) r = none
    pick_at (pos n) r = do vch ← get_elem? r n; some (vch ∷ (if roll then erase_at n r else r))

unfoldable pub exec_stack : Env → StackOp → Stack → Stack → Option (Stack × Stack)
exec_stack env op_toaltstack s a = with1 s (λ x r. some (r, x ∷ a))
exec_stack env op_fromaltstack s a = with1 a (λ x r. some (x ∷ s, r))
exec_stack env op_2drop s a = with2 s (λ x1 x2 r. some (r, a))
exec_stack env op_2dup s a = with2 s (λ x1 x2 r. some (x2 ∷ x1 ∷ x2 ∷ x1 ∷ r, a))
exec_stack env op_3dup s a = with3 s (λ x1 x2 x3 r. some (x3 ∷ x2 ∷ x1 ∷ x3 ∷ x2 ∷ x1 ∷ r, a))
exec_stack env op_2over s a = with4 s (λ x1 x2 x3 x4 r. some (x2 ∷ x1 ∷ x4 ∷ x3 ∷ x2 ∷ x1 ∷ r, a))
exec_stack env op_2rot s a =
    with2 s (λ x5 x6 s'. with4 s' (λ x1 x2 x3 x4 r. some (x2 ∷ x1 ∷ x6 ∷ x5 ∷ x4 ∷ x3 ∷ r, a)))
exec_stack env op_2swap s a = with4 s (λ x1 x2 x3 x4 r. some (x2 ∷ x1 ∷ x4 ∷ x3 ∷ r, a))
exec_stack env op_ifdup s a =
    with1 s (λ x r. some ((if cast_to_bool x then x ∷ x ∷ r else x ∷ r), a))
exec_stack env op_depth s a = some (getvch env.mpi (pos (length s)) ∷ s, a)
exec_stack env op_drop s a = with1 s (λ x r. some (r, a))
exec_stack env op_dup s a = with1 s (λ x r. some (x ∷ x ∷ r, a))
exec_stack env op_nip s a = with2 s (λ x1 x2 r. some (x2 ∷ r, a))
exec_stack env op_over s a = with2 s (λ x1 x2 r. some (x1 ∷ x2 ∷ x1 ∷ r, a))
exec_stack env op_rot s a = with3 s (λ x1 x2 x3 r. some (x1 ∷ x3 ∷ x2 ∷ r, a))
exec_stack env op_swap s a = with2 s (λ x1 x2 r. some (x1 ∷ x2 ∷ r, a))
exec_stack env op_tuck s a = with2 s (λ x1 x2 r. some (x2 ∷ x1 ∷ x2 ∷ r, a))
exec_stack env op_size s a = with1 s (λ x r. some (getvch env.mpi (pos (length x)) ∷ x ∷ r, a))
exec_stack env op_pick s a = do s' ← pick env false s; some (s', a)
exec_stack env op_roll s a = do s' ← pick env true s; some (s', a)

-- The inner `switch` of the operations on one number.
unfoldable pub unary_value : UnaryOp → ℤ → ℤ
unary_value op_1add bn = bn +ℤ pos 1
unary_value op_1sub bn = bn -ℤ pos 1
unary_value op_negate bn = pos 0 -ℤ bn
unary_value op_abs bn = if ltb_ℤ bn (pos 0) then pos 0 -ℤ bn else bn
unary_value op_not bn = num (eq_ℤ bn (pos 0))
unary_value op_0notequal bn = num (not (eq_ℤ bn (pos 0)))

-- The inner `switch` of the operations on two.
unfoldable pub binary_value : BinaryOp → ℤ → ℤ → ℤ
binary_value op_add bn1 bn2 = bn1 +ℤ bn2
binary_value op_sub bn1 bn2 = bn1 -ℤ bn2
binary_value op_booland bn1 bn2 = num (not (eq_ℤ bn1 (pos 0)) && not (eq_ℤ bn2 (pos 0)))
binary_value op_boolor bn1 bn2 = num (not (eq_ℤ bn1 (pos 0)) || not (eq_ℤ bn2 (pos 0)))
binary_value op_numequal bn1 bn2 = num (eq_ℤ bn1 bn2)
binary_value op_numnotequal bn1 bn2 = num (not (eq_ℤ bn1 bn2))
binary_value op_lessthan bn1 bn2 = num (ltb_ℤ bn1 bn2)
binary_value op_greaterthan bn1 bn2 = num (ltb_ℤ bn2 bn1)
binary_value op_lessthanorequal bn1 bn2 = num (leb_ℤ bn1 bn2)
binary_value op_greaterthanorequal bn1 bn2 = num (leb_ℤ bn2 bn1)
binary_value op_min bn1 bn2 = if ltb_ℤ bn1 bn2 then bn1 else bn2
binary_value op_max bn1 bn2 = if ltb_ℤ bn2 bn1 then bn1 else bn2

unfoldable pub exec_binary : Env → BinaryOp → Stack → Option Stack
exec_binary env o s = with2 s (λ x1 x2 r. do
  bn1 ← cast_to_big_num env.mpi x1
  bn2 ← cast_to_big_num env.mpi x2
  some (getvch env.mpi (binary_value o bn1 bn2) ∷ r))

-- The end of an operation in VERIFY: the truth value on top goes, or the script fails.
unfoldable pub verify_top : Stack → Option Stack
verify_top s = with1 s (λ x r. require (cast_to_bool x) >> some r)

unfoldable pub bytes_eq : Bytes → Bytes → Bool
bytes_eq [] [] = true
bytes_eq [] (y ∷ ys) = false
bytes_eq (x ∷ xs) [] = false
bytes_eq (x ∷ xs) (y ∷ ys) = (x == y) && bytes_eq xs ys

-- The result of a comparison or a check of signatures, which the VERIFY variant drops.
abbrev pub push_result : Bool → Bool → Stack → Option Stack
push_result false b s = some (from_bool b ∷ s)
push_result true b s = require b >> some s

unfoldable pub exec_hash : Env → HashOp → Bytes → Bytes
exec_hash env op_ripemd160 vch = env.ripemd160 vch
exec_hash env op_sha1 vch = env.sha1 vch
exec_hash env op_sha256 vch = env.sha256 vch
exec_hash env op_hash160 vch = env.hash160 vch
exec_hash env op_hash256 vch = env.hash256 vch

unfoldable pub exec_within : Env → Stack → Option Stack
exec_within env s = with3 s (λ x1 x2 x3 r. do
  bn1 ← cast_to_big_num env.mpi x1
  bn2 ← cast_to_big_num env.mpi x2
  bn3 ← cast_to_big_num env.mpi x3
  some (from_bool (leb_ℤ bn2 bn1 && ltb_ℤ bn1 bn3) ∷ r))

unfoldable pub exec_checksig : Env → Bytes → Bool → Stack → Option Stack
exec_checksig env code_hash verify s = with2 s (λ vch_sig vch_pub_key r.
    push_result verify
      (env.check_sig vch_sig vch_pub_key (find_and_delete (push_data vch_sig) code_hash).0) r)

-- The signatures, then the keys, in the order in which the source tries them: topmost first.
unfoldable pub match_sigs : Env → Bytes → Stack → Stack → Bool
match_sigs env script_code [] keys = true
match_sigs env script_code (sig ∷ sigs) [] = false
match_sigs env script_code (sig ∷ sigs) (key ∷ keys) =
    let sigs' = (if env.check_sig sig key script_code then sigs else sig ∷ sigs) in
    if ltb (length keys) (length sigs') then false else match_sigs env script_code sigs' keys

unfoldable pub delete_sigs : Stack → Bytes → Bytes
delete_sigs [] script_code = script_code
delete_sigs (sig ∷ sigs) script_code =
    delete_sigs sigs (find_and_delete (push_data sig) script_code).0

-- A count of keys or signatures between 0 and a limit.
abbrev pub count_up_to : ℕ → ℤ → Option ℕ
count_up_to limit (negsuc n) = none
count_up_to limit (pos n) = if ltb limit n then none else some n

-- With the new number of operations.
unfoldable pub exec_checkmultisig : Env → Bytes → Bool → ℕ → Stack → Option (Stack × ℕ)
exec_checkmultisig env code_hash verify n_op_count s = do
  top ← get_elem? s 0
  bn ← cast_to_big_num env.mpi top
  n_keys_count ← count_up_to 20 (getint bn)
  require (leb (n_op_count + n_keys_count) 201)
  require (leb (2 + n_keys_count) (length s))
  second ← get_elem? s (1 + n_keys_count)
  bn' ← cast_to_big_num env.mpi second
  n_sigs_count ← count_up_to n_keys_count (getint bn')
  require (leb (3 + n_keys_count + n_sigs_count) (length s))
  let keys = take n_keys_count (drop 1 s)
  let sigs = take n_sigs_count (drop (2 + n_keys_count) s)
  s' ←
      push_result verify (match_sigs env (delete_sigs sigs code_hash) sigs keys)
        (drop (3 + n_keys_count + n_sigs_count) s)
  some (s', n_op_count + n_keys_count)

-- OP_IF to OP_ENDIF, which are read in a branch that is not executed too.
unfoldable pub exec_branch : Branch → Bool → Stack → List Bool → Option (Stack × List Bool)
exec_branch op_if true s vf = with1 s (λ x r. some (r, cast_to_bool x ∷ vf))
exec_branch op_if false s vf = some (s, false ∷ vf)
exec_branch op_notif true s vf = with1 s (λ x r. some (r, not (cast_to_bool x) ∷ vf))
exec_branch op_notif false s vf = some (s, false ∷ vf)
exec_branch op_else f s [] = none
exec_branch op_else f s (b ∷ vf) = some (s, not b ∷ vf)
exec_branch op_endif f s [] = none
exec_branch op_endif f s (b ∷ vf) = some (s, vf)

abbrev pub on_stack : Vm → Option Stack → Option Vm
on_stack vm none = none
on_stack vm (some s) = some (record vm { stack = s })

-- The `switch`; `pc` is the script after the opcode.
unfoldable pub exec_op : Env → Opcode → Bool → Bytes → Vm → Option Vm
exec_op env (small n) f pc vm = some (record vm { stack = getvch env.mpi n ∷ vm.stack })
exec_op env op_nop f pc vm = some vm
exec_op env op_verify f pc vm = on_stack vm (verify_top vm.stack)
exec_op env op_return f pc vm = none
exec_op env op_within f pc vm = on_stack vm (exec_within env vm.stack)
exec_op env op_codeseparator f pc vm = some (record vm { code_hash = pc })
exec_op env (branch b) f pc vm = do
  (s, vf) ← exec_branch b f vm.stack vm.vf_exec
  some (record vm { stack = s; vf_exec = vf })
exec_op env (stack_op o) f pc vm = do
  (s, a) ← exec_stack env o vm.stack vm.altstack
  some (record vm { stack = s; altstack = a })
exec_op env (equal v) f pc vm =
    on_stack vm (with2 vm.stack (λ x1 x2 r. push_result v (bytes_eq x1 x2) r))
exec_op env (unary o) f pc vm = on_stack vm (
    with1 vm.stack
      (λ x r. do bn ← cast_to_big_num env.mpi x; some (getvch env.mpi (unary_value o bn) ∷ r)))
exec_op env (binary o) f pc vm = on_stack vm (exec_binary env o vm.stack)
exec_op env numequal_verify f pc vm =
    on_stack vm (exec_binary env op_numequal vm.stack >>= λ s. verify_top s)
exec_op env (hash_op o) f pc vm = on_stack vm (with1 vm.stack (λ x r. some (exec_hash env o x ∷ r)))
exec_op env (checksig v) f pc vm = on_stack vm (exec_checksig env vm.code_hash v vm.stack)
exec_op env (checkmultisig v) f pc vm = do
  (s, n) ← exec_checkmultisig env vm.code_hash v vm.n_op_count vm.stack
  some (record vm { stack = s; n_op_count = n })
exec_op env unknown f pc vm = none
