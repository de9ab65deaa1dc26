-- ===== src/Script/Run.antt =====
-- Scripts run instruction by instruction, and scripts that only push (`EvalScript` of src/script.cpp).
use montecoin.Prelude.{
  ℕ, ◌+◌, ◌≤◌, ◌<◌, ◌≡◌, refl, ◌∙◌, true, List, [], ◌∷◌, ◌++◌, none, some, length, leb, arith,
}
use montecoin.Script.{Bytes, get_op, push_data}
use montecoin.Script.Opcode.{is_disabled}
use montecoin.Script.Vm.{Env, Stack, Vm}
use montecoin.Script.Eval.{execute, run_op, eval_loop, start, eval_script}
use montecoin.Script.Push.{push_opcode, get_op-push_data}
use montecoin.Script.Fuel.{get_op_lt, eval_loop_enough}

-- The machine after a push.
abbrev pub pushed : Bytes → Vm → Vm
pushed b vm = record vm { stack = b ∷ vm.stack }

run_push :
    (env : Env) (b pc : Bytes) (vm : Vm)
    → length b ≤ 520
    → vm.vf_exec ≡ []
    → length vm.stack + length vm.altstack < 1000
    → run_op env (push_opcode (length b)) b pc vm ≡ some (pushed b vm)
unfolding run_op execute is_disabled
run_push env b pc vm l f s = ground (arith, l, f, s)

-- An instruction that goes well, and one that fails.
pub eval_step :
    (env : Env) (s : Bytes) (opcode : ℕ) (vch rest : Bytes) (vm vm' : Vm)
    → get_op s ≡ some ((opcode, vch), rest)
    → run_op env opcode vch rest vm ≡ some vm'
    → eval_loop env (length s) s vm ≡ eval_loop env (length rest) rest vm'
unfolding eval_loop get_op
eval_step env [] opcode vch rest vm vm' g r = cc
eval_step env (b ∷ pc) opcode vch rest vm vm' g r =
    let lt = get_op_lt b pc g in
    rw (g, r) (eval_loop_enough env (length pc) (length rest) rest vm' (omega arith) (omega arith))

pub eval_fail :
    (env : Env) (s : Bytes) (opcode : ℕ) (vch rest : Bytes) (vm : Vm)
    → get_op s ≡ some ((opcode, vch), rest)
    → run_op env opcode vch rest vm ≡ none
    → eval_loop env (length s) s vm ≡ none
unfolding eval_loop get_op
eval_fail env [] opcode vch rest vm g r = cc
eval_fail env (b ∷ pc) opcode vch rest vm g r = rw (g, r) refl

-- An opcode that has no operand.
pub get_op_one :
    (opcode : ℕ) (rest : Bytes) → 0x4e < opcode → get_op (opcode ∷ rest) ≡ some ((opcode, []), rest)
unfolding get_op
get_op_one opcode rest h = ground (arith, h)

pub eval_push :
    (env : Env) (b rest : Bytes) (vm : Vm)
    → length b ≤ 520
    → vm.vf_exec ≡ []
    → length vm.stack + length vm.altstack < 1000
    → eval_loop env (length (push_data b ++ rest)) (push_data b ++ rest) vm
      ≡ eval_loop env (length rest) rest (pushed b vm)
eval_push env b rest vm l f s =
    eval_step env (push_data b ++ rest) (push_opcode (length b)) b rest vm (pushed b vm)
      (get_op-push_data b rest (omega arith)) (run_push env b rest vm l f s)

-- A script that pushes the elements of a list, in this order.
abbrev pub push_all : List Bytes → Bytes
push_all [] = []
push_all (b ∷ bs) = push_data b ++ push_all bs

abbrev pub AllSmall : List Bytes → Type 0
AllSmall [] = Unit
AllSmall (b ∷ bs) = (length b ≤ 520) × AllSmall bs

-- The stack after the elements of a list are pushed.
abbrev pub pushed_on : List Bytes → Stack → Stack
pushed_on [] s = s
pushed_on (b ∷ bs) s = pushed_on bs (b ∷ s)

eval_loop-push_all :
    (env : Env) (bs : List Bytes) (vm : Vm)
    → AllSmall bs
    → vm.vf_exec ≡ []
    → length bs + length vm.stack + length vm.altstack ≤ 1000
    → eval_loop env (length (push_all bs)) (push_all bs) vm
      ≡ some (record vm { stack = pushed_on bs vm.stack })
unfolding eval_loop
eval_loop-push_all env [] vm h f s = refl
eval_loop-push_all env (b ∷ bs) vm (l, h) f s =
    eval_push env b (push_all bs) vm l f (omega arith)
    ∙ eval_loop-push_all env bs (pushed b vm) h f (omega arith)

-- A script of pushes, of at most 520 bytes each and of as many as the stack has room for, is evaluated
-- from an empty stack to the end, and leaves what it pushes, the last on top.
pub eval_script-push_all :
    (env : Env) (bs : List Bytes)
    → AllSmall bs
    → length bs ≤ 1000
    → length (push_all bs) ≤ 10_000
    → eval_script env (push_all bs) [] ≡ some (pushed_on bs [])
unfolding eval_script
eval_script-push_all env bs h n l =
    let e = eval_loop-push_all env bs (start (push_all bs) []) h refl (omega arith) in
    let p : leb (length (push_all bs)) 10_000 ≡ true = ground arith in rw (p, e) refl
