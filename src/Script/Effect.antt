-- ===== src/Script/Effect.antt =====
-- What each instruction of src/script.cpp does to the open branches and to the count of operations.
use montecoin.Prelude.{
  ℕ, ◌+◌, ◌≤◌, ◌≡◌, refl, sym, ap, ◌∙◌, ◌⊎◌, Bool, true, false, ◌&&◌, ◌||◌, ◌∷◌, Option, none, some,
  length, ltb, leb, if◌then◌else◌, arith, Bool-cases, Option-cases, inl, inr,
}
use montecoin.Script.{Bytes, ◌>>◌, require, op_pushdata4, op_16}
use montecoin.Script.Opcode.{
  Branch, Opcode, small, op_nop, op_verify, op_return, op_within, op_codeseparator, branch,
  stack_op, equal, unary, binary, numequal_verify, hash_op, checksig, checkmultisig, unknown,
  decode, is_disabled,
}
use montecoin.Script.Vm.{
  Env, Stack, Vm, exec_branch, exec_stack, exec_checkmultisig, on_stack, exec_op,
}
use montecoin.Script.Eval.{all_true, execute, counted, run_op}
use montecoin.Script.Branches.{
  depth_after, depth_of, is_branch, Cases, decode-Cases, exec_branch_depth,
}

-- What an operation does to the branches and to the count of operations.
abbrev pub Keeps : Vm → Vm → Type 0
Keeps vm vm' =
    (vm'.vf_exec ≡ vm.vf_exec)
    × (vm.n_op_count ≤ vm'.n_op_count)
    × (vm.n_op_count ≤ 201 → vm'.n_op_count ≤ 201)

Keeps-same :
    (vm vm' : Vm) → vm'.vf_exec ≡ vm.vf_exec → vm'.n_op_count ≡ vm.n_op_count → Keeps vm vm'
Keeps-same vm vm' e n = (e, omega (arith, n), λ h. omega (arith, n, h))

Keeps-stacks :
    (vm : Vm) (s a : Stack) {vm' : Vm}
    → some (record vm { stack = s; altstack = a }) ≡ some vm'
    → Keeps vm vm'
Keeps-stacks vm s a {vm'} h =
    let e : record vm { stack = s; altstack = a } ≡ vm' = cc in
    Keeps-same vm vm' (ap (λ v. v.vf_exec) (sym e)) (ap (λ v. v.n_op_count) (sym e))

on_stack-Keeps : (vm : Vm) (m : Option Stack) {vm' : Vm} → on_stack vm m ≡ some vm' → Keeps vm vm'
on_stack-Keeps vm none h = cc
on_stack-Keeps vm (some s) h = Keeps-stacks vm s vm.altstack h

require-true :
    {B : Type 0} (b : Bool) (k : Option B) {r : B}
    → (require b >> k) ≡ some r
    → (b ≡ true) × (k ≡ some r)
require-true false k h = cc
require-true true k h = (refl, h)

exec_checkmultisig_ops :
    (env : Env) (code : Bytes) (v : Bool) (n : ℕ) (s : Stack) {r : Stack × ℕ}
    → exec_checkmultisig env code v n s ≡ some r
    → (n ≤ r.1) × (r.1 ≤ 201)
unfolding exec_checkmultisig
exec_checkmultisig_ops env code v n s h = ground (arith, h)

exec_op-Keeps :
    (env : Env) (o : Opcode) (f : Bool) (pc : Bytes) (vm vm' : Vm)
    → is_branch o ≡ false
    → exec_op env o f pc vm ≡ some vm'
    → Keeps vm vm'
unfolding exec_op
exec_op-Keeps env (branch b) f pc vm vm' n h = cc
exec_op-Keeps env (small z) f pc vm vm' n h = Keeps-stacks vm _ _ h
exec_op-Keeps env op_nop f pc vm vm' n h = Keeps-stacks vm _ _ h
exec_op-Keeps env op_verify f pc vm vm' n h = on_stack-Keeps vm _ h
exec_op-Keeps env op_return f pc vm vm' n h = cc
exec_op-Keeps env op_within f pc vm vm' n h = on_stack-Keeps vm _ h
exec_op-Keeps env op_codeseparator f pc vm vm' n h =
    let e : record vm { code_hash = pc } ≡ vm' = cc in
    Keeps-same vm vm' (ap (λ v. v.vf_exec) (sym e)) (ap (λ v. v.n_op_count) (sym e))
exec_op-Keeps env (stack_op o) f pc vm vm' n h =
    elim (Option-cases (exec_stack env o vm.stack vm.altstack)) [
      | inl e ↦ cc
      | inr (p, e) ↦ Keeps-stacks vm p.0 p.1 {vm' = vm'} (ground (arith, e, h))
    ]
exec_op-Keeps env (equal v) f pc vm vm' n h = on_stack-Keeps vm _ h
exec_op-Keeps env (unary o) f pc vm vm' n h = on_stack-Keeps vm _ h
exec_op-Keeps env (binary o) f pc vm vm' n h = on_stack-Keeps vm _ h
exec_op-Keeps env numequal_verify f pc vm vm' n h = on_stack-Keeps vm _ h
exec_op-Keeps env (hash_op o) f pc vm vm' n h = on_stack-Keeps vm _ h
exec_op-Keeps env (checksig v) f pc vm vm' n h = on_stack-Keeps vm _ h
exec_op-Keeps env (checkmultisig v) f pc vm vm' n h =
    elim (Option-cases (exec_checkmultisig env vm.code_hash v vm.n_op_count vm.stack)) [
      | inl e ↦ cc
      | inr (p, e) ↦
          let (le, ge) = exec_checkmultisig_ops env vm.code_hash v vm.n_op_count vm.stack e in
          let q : record vm { stack = p.0; n_op_count = p.1 } ≡ vm' = ground (arith, e, h) in
          rw (sym q) (refl, le, λ _. ge)
    ]
exec_op-Keeps env unknown f pc vm vm' n h = cc

-- What an instruction that goes well has done to the branches and to the count.
abbrev pub Moves : ℕ → Vm → Vm → Type 0
Moves opcode vm vm' =
    (depth_after opcode (length vm.vf_exec) ≡ some (length vm'.vf_exec))
    × (vm.n_op_count ≤ vm'.n_op_count)
    × (vm.n_op_count ≤ 201 → vm'.n_op_count ≤ 201)

exec_branch-Moves :
    (env : Env) (b : Branch) (f : Bool) (pc : Bytes) (opcode : ℕ) (vm vm' : Vm)
    → ((n : ℕ) → depth_after opcode n ≡ depth_of b n)
    → exec_op env (branch b) f pc vm ≡ some vm'
    → Moves opcode vm vm'
unfolding exec_op
exec_branch-Moves env b f pc opcode vm vm' d h =
    elim (Option-cases (exec_branch b f vm.stack vm.vf_exec)) [
      | inl e ↦ cc
      | inr (p, e) ↦
          let q : record vm { stack = p.0; vf_exec = p.1 } ≡ vm' = ground (arith, e, h) in
          rw (sym q) (
            d (length vm.vf_exec) ∙ exec_branch_depth b f vm.stack vm.vf_exec e,
            omega arith,
            λ l. l,
          )
    ]

Keeps-Moves :
    (opcode : ℕ) (vm vm' : Vm)
    → ((n : ℕ) → depth_after opcode n ≡ some n)
    → Keeps vm vm'
    → Moves opcode vm vm'
Keeps-Moves opcode vm vm' d (vf, n, l) =
    (d (length vm.vf_exec) ∙ ap (λ v. some (length v)) (sym vf), n, l)

execute-Moves :
    (env : Env) (f : Bool) (opcode : ℕ) (vch pc : Bytes) (vm vm' : Vm)
    → execute env f opcode vch pc vm ≡ some vm'
    → Moves opcode vm vm'
unfolding execute Cases
execute-Moves env f opcode vch pc vm vm' h = elim (decode-Cases opcode) [
  | inl (b, e, range, d) ↦
      exec_branch-Moves env b f pc opcode vm vm' d
        (ap (λ o. exec_op env o f pc vm) (sym e) ∙ ground (arith, range, h))
  | inr (e, d) ↦ Keeps-Moves opcode vm vm' d (elim (Bool-cases (f && leb opcode op_pushdata4)) [
    | inl p ↦ Keeps-stacks vm (vch ∷ vm.stack) vm.altstack (rw p at h)
    | inr p ↦ elim (Bool-cases (f || (leb 0x63 opcode && leb opcode 0x68))) [
      | inl q ↦ exec_op-Keeps env (decode opcode) f pc vm vm' e (rw (p, q) at h)
      | inr q ↦ Keeps-stacks vm vm.stack vm.altstack (rw (p, q) at h)
    ]
  ])
]

abbrev pub op_cost : ℕ → ℕ
op_cost opcode = if ltb op_16 opcode then 1 else 0

-- What is known of an instruction that went well.
pub run_op_static :
    (env : Env) (opcode : ℕ) (vch pc : Bytes) (vm vm' : Vm)
    → run_op env opcode vch pc vm ≡ some vm'
    → (length vch ≤ 520)
      × (is_disabled opcode ≡ false)
      × (vm.n_op_count + op_cost opcode ≤ 201 ⊎ (op_cost opcode ≡ 0))
      × (length vm'.stack + length vm'.altstack ≤ 1000)
      × Moves opcode (counted opcode vm) vm'
unfolding run_op
run_op_static env opcode vch pc vm vm' h =
    elim (Option-cases (execute env (all_true vm.vf_exec) opcode vch pc (counted opcode vm))) [
      | inl e ↦ absurd (ground (arith, e, h))
      | inr (v, e) ↦
          let q : v ≡ vm' = ground (arith, e, h) in
          let m =
            execute-Moves env (all_true vm.vf_exec) opcode vch pc (counted opcode vm) vm'
              (e ∙ ap some q) in
          (ground (arith, h), ground (arith, h), ground (arith, h), ground (arith, e, q, h), m)
    ]
