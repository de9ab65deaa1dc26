-- ===== src/Script/KeyRun.antt =====
-- How a script that names a key by its hash is evaluated (`EvalScript` of src/script.cpp).
use montecoin.Prelude.{
  ℕ, ◌≤◌, ◌≡◌, refl, ap, ◌∙◌, true, false, [], ◌∷◌, ◌++◌, some, length, leb, arith, Bool-cases, inl,
  inr, length-append,
}
use mathlib.Core.List.{append-nil}
use montecoin.Serialize.{le_bytes}
use montecoin.Script.{
  Bytes, ◌>>◌, require, push_size, push_data, find_and_delete, is_pay_to_script_hash,
}
use montecoin.Script.Opcode.{decode, is_disabled, opcode_table, find_opcode}
use montecoin.Script.Number.{from_bool}
use montecoin.Script.Vm.{Env, Stack, Vm, bytes_eq, exec_stack, exec_hash, exec_checksig, exec_op}
use montecoin.Script.Eval.{execute, run_op, eval_loop, eval_script}
use montecoin.Script.Run.{
  eval_step, eval_fail, get_op_one, eval_push, push_all, eval_script-push_all,
}
use montecoin.Script.Destination.{key_id, push_uint160, set_destination}

-- A machine outside of all branches.
abbrev pub machine : Bytes → Stack → ℕ → Vm
machine code s n = record {
  stack = s;
  altstack = [];
  vf_exec = [];
  n_op_count = n;
  code_hash = code;
}

run_dup :
    (env : Env) (code pc key sig : Bytes)
    → run_op env 0x76 [] pc (machine code (key ∷ sig ∷ []) 0)
      ≡ some (machine code (key ∷ key ∷ sig ∷ []) 1)
unfolding run_op execute is_disabled decode find_opcode opcode_table exec_op exec_stack
run_dup env code pc key sig = refl

run_hash :
    (env : Env) (code pc key sig : Bytes)
    → run_op env 0xa9 [] pc (machine code (key ∷ key ∷ sig ∷ []) 1)
      ≡ some (machine code (env.hash160 key ∷ key ∷ sig ∷ []) 2)
unfolding run_op execute is_disabled decode find_opcode opcode_table exec_op exec_hash
run_hash env code pc key sig = refl

run_equal :
    (env : Env) (code pc key sig h d : Bytes)
    → run_op env 0x88 [] pc (machine code (d ∷ h ∷ key ∷ sig ∷ []) 2)
      ≡ (require (bytes_eq h d) >> some (machine code (key ∷ sig ∷ []) 3))
unfolding run_op execute is_disabled decode find_opcode opcode_table exec_op
run_equal env code pc key sig h d = elim (Bool-cases (bytes_eq h d)) [
  | inl e ↦ rw e refl
  | inr e ↦ rw e refl
]

run_checksig :
    (env : Env) (code pc key sig : Bytes)
    → run_op env 0xac [] pc (machine code (key ∷ sig ∷ []) 3)
      ≡ some (
          machine code
            (from_bool (env.check_sig sig key (find_and_delete (push_data sig) code).0) ∷ [])
            4)
unfolding run_op execute is_disabled decode find_opcode opcode_table exec_op exec_checksig
run_checksig env code pc key sig = refl

pub push_uint160_data : (h : Bytes) → length h ≡ 20 → push_data h ≡ push_uint160 h
unfolding push_data push_size
push_uint160_data h l = rw l refl

-- The last two instructions, where the hashes agree and where they do not.
eval_end :
    (env : Env) (code key sig h d : Bytes)
    → eval_loop env 2 (0x88 ∷ 0xac ∷ []) (machine code (d ∷ h ∷ key ∷ sig ∷ []) 2) ≡ (
        require (bytes_eq h d)
        >> some (
            machine code
              (from_bool (env.check_sig sig key (find_and_delete (push_data sig) code).0) ∷ [])
              4))
unfolding eval_loop
eval_end env code key sig h d = elim (Bool-cases (bytes_eq h d)) [
  | inl e ↦ rw e (
      eval_step env (0x88 ∷ 0xac ∷ []) 0x88 [] (0xac ∷ []) _ (machine code (key ∷ sig ∷ []) 3)
        (get_op_one 0x88 (0xac ∷ []) (omega arith))
        (rw e at (run_equal env code (0xac ∷ []) key sig h d))
      ∙ eval_step env (0xac ∷ []) 0xac [] [] _ _ (get_op_one 0xac [] (omega arith))
          (run_checksig env code [] key sig))
  | inr e ↦ rw e (
      eval_fail env (0x88 ∷ 0xac ∷ []) 0x88 [] (0xac ∷ []) _
        (get_op_one 0x88 (0xac ∷ []) (omega arith))
        (rw e at (run_equal env code (0xac ∷ []) key sig h d)))
]

eval_pub_key_hash :
    (env : Env) (code key sig h : Bytes)
    → length h ≡ 20
    → eval_loop env
        (length (set_destination (key_id h)))
        (set_destination (key_id h))
        (machine code (key ∷ sig ∷ []) 0)
      ≡ (require (bytes_eq (env.hash160 key) h)
          >> some (
              machine code
                (from_bool (env.check_sig sig key (find_and_delete (push_data sig) code).0) ∷ [])
                4))
unfolding set_destination
eval_pub_key_hash env code key sig h l =
    let rest : Bytes = 0x88 ∷ 0xac ∷ [] in
    let p : Bytes = push_uint160 h ++ rest in
    let d : Bytes = env.hash160 key in
    let dup =
      eval_step env (0x76 ∷ 0xa9 ∷ p) 0x76 [] (0xa9 ∷ p) _ _
        (get_op_one 0x76 (0xa9 ∷ p) (omega arith)) (run_dup env code (0xa9 ∷ p) key sig) in
    let hash =
      eval_step env (0xa9 ∷ p) 0xa9 [] p _ _ (get_op_one 0xa9 p (omega arith))
        (run_hash env code p key sig) in
    let push =
      eval_push env h rest (machine code (d ∷ key ∷ sig ∷ []) 2) (omega arith) refl (omega arith) in
    dup ∙ hash ∙ (rw (push_uint160_data h l) at push) ∙ eval_end env code key sig d h

length-push_data_le : (b : Bytes) → length b ≤ 520 → length (push_data b) ≤ 530
unfolding push_data push_size le_bytes
length-push_data_le b l = ground (arith, l, length-append (push_size (length b)) b)

pub length-set_destination : (h : Bytes) → length h ≡ 20 → length (set_destination (key_id h)) ≡ 25
unfolding set_destination
length-set_destination h l = ground (arith, l, length-append h (0x88 ∷ 0xac ∷ []))

pub eval_sig :
    (env : Env) (sig key : Bytes)
    → length sig ≤ 520
    → length key ≤ 520
    → eval_script env (push_data sig ++ push_data key) [] ≡ some (key ∷ sig ∷ [])
eval_sig env sig key ls lk =
    let e : push_all (sig ∷ key ∷ []) ≡ push_data sig ++ push_data key =
      ap (λ k. push_data sig ++ k) (append-nil (push_data key)) in
    let l : length (push_data sig ++ push_data key) ≤ 10_000 = ground (
      arith,
      length-append (push_data sig) (push_data key),
      length-push_data_le sig ls,
      length-push_data_le key lk,
    ) in
    rw e at (eval_script-push_all env (sig ∷ key ∷ []) (ls, (lk, tt)) (omega arith) (rw e l))

pub eval_script_key_hash :
    (env : Env) (sig key h : Bytes)
    → length h ≡ 20
    → eval_script env (set_destination (key_id h)) (key ∷ sig ∷ []) ≡ (
        require (bytes_eq (env.hash160 key) h)
        >> some (
            from_bool (
              env.check_sig sig key
                (find_and_delete (push_data sig) (set_destination (key_id h))).0)
            ∷ []))
unfolding eval_script
eval_script_key_hash env sig key h l =
    let p : leb (length (set_destination (key_id h))) 10_000 ≡ true =
      ground (arith, length-set_destination h l) in
    let e = eval_pub_key_hash env (set_destination (key_id h)) key sig h l in
    elim (Bool-cases (bytes_eq (env.hash160 key) h)) [
      | inl q ↦ rw (p, e, q) refl
      | inr q ↦ rw (p, e, q) refl
    ]

pub not_script_hash :
    (h : Bytes) → length h ≡ 20 → is_pay_to_script_hash (set_destination (key_id h)) ≡ false
unfolding is_pay_to_script_hash
not_script_hash h l = rw (length-set_destination h l) refl
