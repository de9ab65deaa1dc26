-- ===== src/Script/HashRun.antt =====
-- How a script that names another one by its hash is evaluated (`EvalScript` of src/script.cpp), and that
-- pushes are pushes only.
use montecoin.Prelude.{
  none, ℕ, zero, suc, ◌+◌, ◌≤◌, ◌<◌, ◌≡◌, refl, ap, ◌∙◌, true, not, ◌&&◌, List, [], ◌∷◌, ◌++◌, some,
  length, ltb, leb, arith, Option-cases, inl, inr, length-append,
}
use montecoin.Script.{Bytes, get_op, push_only_loop, is_push_only, push_data}
use montecoin.Script.Opcode.{decode, is_disabled, opcode_table, find_opcode}
use montecoin.Script.Number.{from_bool}
use montecoin.Script.Vm.{Env, Stack, bytes_eq, exec_hash, exec_op}
use montecoin.Script.Eval.{execute, run_op, eval_loop, eval_script}
use montecoin.Script.Push.{push_opcode, get_op-push_data}
use montecoin.Script.Fuel.{get_op_lt}
use montecoin.Script.Run.{eval_step, get_op_one, eval_push, push_all, AllSmall}
use montecoin.Script.Pushes.{eval_push_fail}
use montecoin.Script.Destination.{script_id, push_uint160, set_destination}
use montecoin.Script.KeyRun.{push_uint160_data, machine}

-- Fuel at least the length of the script is enough for the loop of `IsPushOnly`.
push_only_enough :
    (fuel fuel' : ℕ) (s : Bytes)
    → length s ≤ fuel
    → length s ≤ fuel'
    → push_only_loop fuel s ≡ push_only_loop fuel' s
unfolding push_only_loop
push_only_enough fuel fuel' [] h h' = refl
push_only_enough zero fuel' (b ∷ pc) h h' = absurd (omega arith)
push_only_enough (suc fuel) zero (b ∷ pc) h h' = absurd (omega arith)
push_only_enough (suc fuel) (suc fuel') (b ∷ pc) h h' = elim (Option-cases (get_op (b ∷ pc))) [
  | inl e ↦ rw e refl
  | inr (p, e) ↦
      let lt = get_op_lt b pc e in
      rw e (
        ap (λ k. not (ltb 0x60 p.0.0) && k)
          (push_only_enough fuel fuel' p.1 (omega arith) (omega arith)))
]

push_only_step :
    (s : Bytes) (opcode : ℕ) (vch rest : Bytes)
    → get_op s ≡ some ((opcode, vch), rest)
    → opcode ≤ 0x60
    → push_only_loop (length s) s ≡ push_only_loop (length rest) rest
unfolding push_only_loop get_op
push_only_step [] opcode vch rest g h = cc
push_only_step (b ∷ pc) opcode vch rest g h =
    let lt = get_op_lt b pc g in
    let p : not (ltb 0x60 opcode) ≡ true = ground (arith, h) in
    rw (g, p) (push_only_enough (length pc) (length rest) rest (omega arith) (omega arith))

pub is_push_only-push_all : (bs : List Bytes) → AllSmall bs → is_push_only (push_all bs) ≡ true
unfolding is_push_only push_only_loop
is_push_only-push_all [] h = refl
is_push_only-push_all (b ∷ bs) (l, h) =
    push_only_step (push_data b ++ push_all bs) (push_opcode (length b)) b (push_all bs)
      (get_op-push_data b (push_all bs) (omega arith)) (ground arith)
    ∙ is_push_only-push_all bs h

run_hash :
    (env : Env) (code pc x : Bytes) (s : Stack)
    → length s < 1000
    → run_op env 0xa9 [] pc (machine code (x ∷ s) 0) ≡ some (machine code (env.hash160 x ∷ s) 1)
unfolding run_op execute is_disabled decode find_opcode opcode_table exec_op exec_hash
run_hash env code pc x s l =
    let p : leb (suc (length s) + 0) 1000 ≡ true = ground (arith, l) in rw p refl

run_equal :
    (env : Env) (code pc h d : Bytes) (s : Stack)
    → length s < 1000
    → run_op env 0x87 [] pc (machine code (d ∷ h ∷ s) 1)
      ≡ some (machine code (from_bool (bytes_eq h d) ∷ s) 2)
unfolding run_op execute is_disabled decode find_opcode opcode_table exec_op
run_equal env code pc h d s l =
    let p : leb (suc (length s) + 0) 1000 ≡ true = ground (arith, l) in rw p refl

eval_script_hash :
    (env : Env) (code x h : Bytes) (s : Stack)
    → length h ≡ 20
    → length s ≤ 998
    → eval_loop env
        (length (set_destination (script_id h)))
        (set_destination (script_id h))
        (machine code (x ∷ s) 0)
      ≡ some (machine code (from_bool (bytes_eq (env.hash160 x) h) ∷ s) 2)
unfolding set_destination eval_loop
eval_script_hash env code x h s l n =
    let rest : Bytes = 0x87 ∷ [] in
    let p : Bytes = push_uint160 h ++ rest in
    let d : Bytes = env.hash160 x in
    let hash =
      eval_step env (0xa9 ∷ p) 0xa9 [] p _ _ (get_op_one 0xa9 p (omega arith))
        (run_hash env code p x s (omega arith)) in
    let push = eval_push env h rest (machine code (d ∷ s) 1) (omega arith) refl (omega arith) in
    hash
    ∙ (rw (push_uint160_data h l) at push)
    ∙ eval_step env rest 0x87 [] [] _ _ (get_op_one 0x87 [] (omega arith))
        (run_equal env code [] d h s (omega arith))

length-script_hash : (h : Bytes) → length h ≡ 20 → length (set_destination (script_id h)) ≡ 23
unfolding set_destination
length-script_hash h l = ground (arith, l, length-append h (0x87 ∷ []))

pub eval_script-script_id :
    (env : Env) (x h : Bytes) (s : Stack)
    → length h ≡ 20
    → length s ≤ 998
    → eval_script env (set_destination (script_id h)) (x ∷ s)
      ≡ some (from_bool (bytes_eq (env.hash160 x) h) ∷ s)
unfolding eval_script
eval_script-script_id env x h s l n =
    let script = set_destination (script_id h) in
    let p : leb (length script) 10_000 ≡ true = ground (arith, length-script_hash h l) in
    rw (p, eval_script_hash env script x h s l n) refl

-- With 1000 elements on the stack there is no room for the hash to compare with.
pub eval_script-full :
    (env : Env) (x h : Bytes) (s : Stack)
    → length h ≡ 20
    → length s ≡ 999
    → eval_script env (set_destination (script_id h)) (x ∷ s) ≡ none
unfolding eval_script set_destination
eval_script-full env x h s l n =
    let rest : Bytes = 0x87 ∷ [] in
    let p : Bytes = push_uint160 h ++ rest in
    let code : Bytes = 0xa9 ∷ p in
    let small : leb (length code) 10_000 ≡ true = ground (arith, length-script_hash h l) in
    let hash =
      eval_step env code 0xa9 [] p _ _ (get_op_one 0xa9 p (omega arith))
        (run_hash env code p x s (omega (arith, n))) in
    let push =
      eval_push_fail env h rest (machine code (env.hash160 x ∷ s) 1) (omega (arith, l)) refl
        (inr (omega (arith, n))) in
    rw (small, hash ∙ (rw (push_uint160_data h l) at push)) refl
