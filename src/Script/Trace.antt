-- ===== src/Script/Trace.antt =====
-- The loop of `EvalScript` of src/script.cpp step by step, with no fuel: how it runs to its end, and the
-- machines that it comes to on the way.
use montecoin.Prelude.{
  ℕ, zero, suc, ◌≤◌, ◌≡◌, ◌↔◌, refl, ◌∙◌, [], ◌∷◌, Option, none, some, length, arith, Option-cases,
  inl, inr,
}
use mathlib.Core.Path.{subst}
use montecoin.Script.{Bytes, get_op}
use montecoin.Script.Vm.{Env, Vm}
use montecoin.Script.Eval.{run_op, eval_loop}
use montecoin.Script.Fuel.{get_op_lt}
use montecoin.Script.Run.{eval_step}
use montecoin.Script.Static.{IsBounded, run_op-IsBounded}

-- A run of the loop, in finitely many steps: to the end of the script, with the machine that is left, or to
-- an instruction that cannot be read or fails.
pub data Runs (env : Env) : Bytes → Vm → Option Vm → Type 0 where
  finished : (vm : Vm) → Runs env [] vm (some vm)
  unread : (b : ℕ) (pc : Bytes) (vm : Vm) → get_op (b ∷ pc) ≡ none → Runs env (b ∷ pc) vm none
  failed :
      (b : ℕ) (pc : Bytes) (vm : Vm) (opcode : ℕ) (vch rest : Bytes)
      → get_op (b ∷ pc) ≡ some ((opcode, vch), rest)
      → run_op env opcode vch rest vm ≡ none
      → Runs env (b ∷ pc) vm none
  step :
      (b : ℕ) (pc : Bytes) (vm : Vm) (opcode : ℕ) (vch rest : Bytes) (vm' : Vm) (r : Option Vm)
      → get_op (b ∷ pc) ≡ some ((opcode, vch), rest)
      → run_op env opcode vch rest vm ≡ some vm'
      → Runs env rest vm' r
      → Runs env (b ∷ pc) vm r

-- Every evaluation is such a run.
eval_loop-Runs_self :
    (env : Env) (fuel : ℕ) (script : Bytes) (vm : Vm)
    → length script ≤ fuel
    → Runs env script vm (eval_loop env fuel script vm)
unfolding eval_loop
eval_loop-Runs_self env fuel [] vm h = finished vm
eval_loop-Runs_self env zero (b ∷ pc) vm h = absurd (omega arith)
eval_loop-Runs_self env (suc fuel) (b ∷ pc) vm h = elim (Option-cases (get_op (b ∷ pc))) [
  | inl e ↦ rw e (unread b pc vm e)
  | inr (((opcode, vch), rest), e) ↦ elim (Option-cases (run_op env opcode vch rest vm)) [
    | inl e' ↦ rw (e, e') (failed b pc vm opcode vch rest e e')
    | inr (vm', e') ↦
        let lt = get_op_lt b pc e in
        rw (e, e')
          (step b pc vm opcode vch rest vm' (eval_loop env fuel rest vm') e e'
            (eval_loop-Runs_self env fuel rest vm' (omega (arith, lt, h))))
  ]
]

-- A run determines what the loop gives.
Runs-eval_loop :
    (env : Env) {script : Bytes} {vm : Vm} {r : Option Vm}
    → Runs env script vm r
    → (fuel : ℕ) → length script ≤ fuel
    → eval_loop env fuel script vm ≡ r
unfolding eval_loop
Runs-eval_loop env (finished vm) fuel h = refl
Runs-eval_loop env (unread b pc vm e) zero h = absurd (omega arith)
Runs-eval_loop env (unread b pc vm e) (suc fuel) h = rw e refl
Runs-eval_loop env (failed b pc vm opcode vch rest e e') zero h = absurd (omega arith)
Runs-eval_loop env (failed b pc vm opcode vch rest e e') (suc fuel) h = rw (e, e') refl
Runs-eval_loop env (step b pc vm opcode vch rest vm' r e e' run) zero h = absurd (omega arith)
Runs-eval_loop env (step b pc vm opcode vch rest vm' r e e' run) (suc fuel) h =
    let lt = get_op_lt b pc e in rw (e, e') (Runs-eval_loop env run fuel (omega (arith, lt, h)))

-- On fuel that is at least the length of the script, the loop gives a result exactly if a finite run leads
-- to it: to the end of the script, or to an instruction that cannot be read or fails. As it gives some
-- result, there is such a run for every script and machine, and the fuel is never what ends the loop.
pub eval_loop-Runs :
    (env : Env) (fuel : ℕ) (script : Bytes) (vm : Vm) (r : Option Vm)
    → length script ≤ fuel
    → (eval_loop env fuel script vm ≡ r) ↔ Runs env script vm r
eval_loop-Runs env fuel script vm r h = (
  λ e. subst (Runs env script vm) e (eval_loop-Runs_self env fuel script vm h),
  λ run. Runs-eval_loop env run fuel h,
)

-- The machines that an evaluation comes to, each with the script that is left by then.
pub data Reaches (env : Env) (script : Bytes) (vm : Vm) : Bytes → Vm → Type 0 where
  here : Reaches env script vm script vm
  next :
      (s : Bytes) (v : Vm) (opcode : ℕ) (vch rest : Bytes) (v' : Vm)
      → Reaches env script vm s v
      → get_op s ≡ some ((opcode, vch), rest)
      → run_op env opcode vch rest v ≡ some v'
      → Reaches env script vm rest v'

-- Every machine that an evaluation comes to after some instructions, from one with at most 1000 elements on
-- both stacks and 201 operations, keeps these bounds. It is one that the loop goes through: from there, with
-- the script that is left, the loop gives what it gives from the beginning.
pub Reaches-IsBounded :
    (env : Env) (script : Bytes) (vm : Vm) (s : Bytes) (v : Vm)
    → Reaches env script vm s v
    → IsBounded vm
    → IsBounded v × (eval_loop env (length script) script vm ≡ eval_loop env (length s) s v)
Reaches-IsBounded env script vm s v here b = (b, refl)
Reaches-IsBounded env script vm s' v' (next s v opcode vch rest after before g r) b =
    let (kept, same) = Reaches-IsBounded env script vm s v before b in
    (
      run_op-IsBounded env opcode vch rest v after r kept,
      same ∙ eval_step env s opcode vch rest v after g r,
    )
