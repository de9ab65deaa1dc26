-- ===== src/Script/Static.antt =====
-- What the evaluation of src/script.cpp asks of a script wherever its instructions stand, in branches
-- that are not executed too, and the bounds that it keeps.
use montecoin.Prelude.{
  ℕ, zero, suc, ◌+◌, ◌-◌, ◌≤◌, ◌≡◌, refl, ap, ◌∙◌, ◌⊎◌, Bool, true, false, not, ◌&&◌, [], ◌∷◌, none,
  some, length, leb, ◌==◌, arith, Bool-cases, Option-cases, inl, inr,
}
use montecoin.Script.{Bytes, holds, ◌>>=◌, get_op}
use montecoin.Script.Opcode.{decode, is_disabled, opcode_table, find_opcode}
use montecoin.Script.Vm.{Env, Stack, Vm, exec_op}
use montecoin.Script.Eval.{all_true, execute, counted, run_op, eval_loop, start, eval_script}
use montecoin.Script.Branches.{depth_after}
use montecoin.Script.Fuel.{bind-some_iff}
use montecoin.Script.Effect.{op_cost, run_op_static}

-- An instruction that may stand anywhere.
abbrev is_allowed : ℕ → Bytes → Bool
is_allowed opcode vch =
    leb (length vch) 520 && not (is_disabled opcode) && not (opcode == 0x65) && not (opcode == 0x66)

-- A script whose instructions are all there and allowed: no operand of more than 520 bytes, no
-- disabled opcode, no more operations than the script may still have, and branches that end.
unfoldable pub is_well_formed : ℕ → Bytes → ℕ → ℕ → Bool
is_well_formed fuel [] depth ops = depth == 0
is_well_formed zero (b ∷ pc) depth ops = false
is_well_formed (suc fuel) (b ∷ pc) depth ops = holds (get_op (b ∷ pc)) (λ p.
    holds (depth_after p.0.0 depth) (λ depth'.
      is_allowed p.0.0 p.0.1
      && leb (op_cost p.0.0) ops
      && is_well_formed fuel p.1 depth' (ops - op_cost p.0.0)))

-- The bounds of the machine: 1000 elements on both stacks, and 201 operations.
unfoldable pub IsBounded : Vm → Type 0
IsBounded vm = (length vm.stack + length vm.altstack ≤ 1000) × (vm.n_op_count ≤ 201)

-- An instruction that goes well keeps the bounds.
pub run_op-IsBounded :
    (env : Env) (opcode : ℕ) (vch pc : Bytes) (vm vm' : Vm)
    → run_op env opcode vch pc vm ≡ some vm'
    → IsBounded vm
    → IsBounded vm'
unfolding IsBounded
run_op-IsBounded env opcode vch pc vm vm' h (s, n) =
    let (_, _, ops, stacks, m) = run_op_static env opcode vch pc vm vm' h in
    (stacks, m.2 (ground (arith, ops, n)))

-- OP_VERIF and OP_VERNOTIF, which are in the range of the branches and are none.
execute_verif :
    (env : Env) (f : Bool) (opcode : ℕ) (vch pc : Bytes) (vm : Vm)
    → (opcode ≡ 0x65) ⊎ (opcode ≡ 0x66)
    → execute env f opcode vch pc vm ≡ none
unfolding execute decode find_opcode opcode_table exec_op
execute_verif env true opcode vch pc vm (inl e) = rw e refl
execute_verif env false opcode vch pc vm (inl e) = rw e refl
execute_verif env true opcode vch pc vm (inr e) = rw e refl
execute_verif env false opcode vch pc vm (inr e) = rw e refl

run_op_verif :
    (env : Env) (opcode : ℕ) (vch pc : Bytes) (vm vm' : Vm)
    → run_op env opcode vch pc vm ≡ some vm'
    → not (opcode == 0x65) && not (opcode == 0x66) ≡ true
unfolding run_op
run_op_verif env opcode vch pc vm vm' h =
    elim (Bool-cases (not (opcode == 0x65) && not (opcode == 0x66))) [
      | inl e ↦ e
      | inr e ↦
          let q =
            execute_verif env (all_true vm.vf_exec) opcode vch pc (counted opcode vm)
              (ground (arith, e)) in
          absurd (ground (arith, q, h))
    ]

-- One instruction that went well: the operations that are left are enough, and the rest decides.
well_formed_step :
    (env : Env) (fuel x : ℕ) (pc : Bytes) (opcode : ℕ) (vch rest : Bytes) (vm v : Vm) (ops : ℕ)
    → get_op (x ∷ pc) ≡ some ((opcode, vch), rest)
    → run_op env opcode vch rest vm ≡ some v
    → vm.n_op_count ≤ 201
    → 201 ≤ ops + vm.n_op_count
    → (v.n_op_count ≤ 201
        → 201 ≤ ops - op_cost opcode + v.n_op_count
        → is_well_formed fuel rest (length v.vf_exec) (ops - op_cost opcode) ≡ true)
    → is_well_formed (suc fuel) (x ∷ pc) (length vm.vf_exec) ops ≡ true
unfolding is_well_formed
well_formed_step env fuel x pc opcode vch rest vm v ops g e n l ih =
    let (size, able, left, _, m) = run_op_static env opcode vch rest vm v e in
    let verif = run_op_verif env opcode vch rest vm v e in
    let r = ih (m.2 (ground (arith, left, n))) (ground (arith, left, n, l, m.1)) in
    rw (g, m.0) (ground (arith, size, able, verif, r, left, n, l))

eval_loop_well_formed :
    (env : Env) (fuel : ℕ) (script : Bytes) (vm vm' : Vm) (ops : ℕ)
    → eval_loop env fuel script vm ≡ some vm'
    → length vm'.vf_exec ≡ 0
    → vm.n_op_count ≤ 201
    → 201 ≤ ops + vm.n_op_count
    → is_well_formed fuel script (length vm.vf_exec) ops ≡ true
unfolding eval_loop is_well_formed
eval_loop_well_formed env fuel [] vm vm' ops h d n l =
    let e : vm ≡ vm' = cc in rw (ap (λ v. length v.vf_exec) e ∙ d) refl
eval_loop_well_formed env zero (x ∷ pc) vm vm' ops h d n l = cc
eval_loop_well_formed env (suc fuel) (x ∷ pc) vm vm' ops h d n l =
    let (p, g, h1) =
      bind-some_iff (get_op (x ∷ pc))
        (λ p. run_op env p.0.0 p.0.1 p.1 vm >>= eval_loop env fuel p.1) h in
    let (v, e, h2) = bind-some_iff (run_op env p.0.0 p.0.1 p.1 vm) (eval_loop env fuel p.1) h1 in
    well_formed_step env fuel x pc p.0.0 p.0.1 p.1 vm v ops g e n l
      (eval_loop_well_formed env fuel p.1 v vm' (ops - op_cost p.0.0) h2 d)

-- A script that is evaluated without failure, from whatever stack, has at most 10,000 bytes, and each
-- of its instructions, executed or not, can be read, pushes at most 520 bytes and is not disabled;
-- there are at most 201 operations, and each branch that is opened is ended.
pub eval_script-is_well_formed :
    (env : Env) (script : Bytes) (stack stack' : Stack)
    → eval_script env script stack ≡ some stack'
    → (length script ≤ 10_000) × (is_well_formed (length script) script 0 201 ≡ true)
unfolding eval_script
eval_script-is_well_formed env script stack stack' h =
    elim (Option-cases (eval_loop env (length script) script (start script stack))) [
      | inl e ↦ absurd (ground (arith, e, h))
      | inr (v, e) ↦ (
        ground (arith, h),
        eval_loop_well_formed env (length script) script (start script stack) v 201 e
            (ground (arith, e, h)) (omega arith) (omega arith),
      )
    ]
