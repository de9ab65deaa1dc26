-- ===== src/Script/Pushes.antt =====
-- Scripts of pushes that `EvalScript` of src/script.cpp does not evaluate: an element is too large, there are
-- too many for the stack, or the script is too long.
use montecoin.Prelude.{
  ℕ, ◌+◌, ◌^◌, ◌≤◌, ◌<◌, ◌≡◌, ◌⊎◌, refl, ◌∙◌, Bool, true, false, ◌&&◌, List, [], ◌∷◌, ◌++◌, none,
  length, leb, arith, Bool-cases, inl, inr, length-append,
}
use montecoin.Script.{Bytes, push_size, push_data}
use montecoin.Script.Opcode.{is_disabled}
use montecoin.Script.Vm.{Env, Vm}
use montecoin.Script.Eval.{execute, run_op, eval_loop, start, eval_script}
use montecoin.Script.Push.{push_opcode, get_op-push_data}
use montecoin.Script.Run.{eval_fail, eval_push, pushed, push_all, AllSmall}

-- Whether every element is small enough for the stack.
abbrev pub all_small : List Bytes → Bool
all_small [] = true
all_small (b ∷ bs) = leb (length b) 520 && all_small bs

pub all_small-AllSmall : (bs : List Bytes) → all_small bs ≡ true → AllSmall bs
all_small-AllSmall [] h = tt
all_small-AllSmall (b ∷ bs) h = (ground (arith, h), all_small-AllSmall bs (ground (arith, h)))

-- A push of too much fails, and so does one on a full stack.
run_large_push :
    (env : Env) (opcode : ℕ) (b pc : Bytes) (vm : Vm)
    → 520 < length b
    → run_op env opcode b pc vm ≡ none
unfolding run_op
run_large_push env opcode b pc vm h =
    let c : leb (length b) 520 ≡ false = ground (arith, h) in rw c refl

run_full_push :
    (env : Env) (b pc : Bytes) (vm : Vm)
    → length b ≤ 520
    → vm.vf_exec ≡ []
    → 1000 ≤ length vm.stack + length vm.altstack
    → run_op env (push_opcode (length b)) b pc vm ≡ none
unfolding run_op execute is_disabled
run_full_push env b pc vm l f h = ground (arith, l, f, h)

run_push_fail :
    (env : Env) (b pc : Bytes) (vm : Vm)
    → vm.vf_exec ≡ []
    → (520 < length b) ⊎ (1000 ≤ length vm.stack + length vm.altstack)
    → run_op env (push_opcode (length b)) b pc vm ≡ none
run_push_fail env b pc vm f (inl h) = run_large_push env (push_opcode (length b)) b pc vm h
run_push_fail env b pc vm f (inr h) = elim (Bool-cases (leb (length b) 520)) [
  | inl c ↦ run_full_push env b pc vm (ground (arith, c)) f h
  | inr c ↦ run_large_push env (push_opcode (length b)) b pc vm (ground (arith, c))
]

pub eval_push_fail :
    (env : Env) (b rest : Bytes) (vm : Vm)
    → length b < 2 ^ 32
    → vm.vf_exec ≡ []
    → (520 < length b) ⊎ (1000 ≤ length vm.stack + length vm.altstack)
    → eval_loop env (length (push_data b ++ rest)) (push_data b ++ rest) vm ≡ none
eval_push_fail env b rest vm l f h =
    eval_fail env (push_data b ++ rest) (push_opcode (length b)) b rest vm
      (get_op-push_data b rest l) (run_push_fail env b rest vm f h)

length-push_all :
    (b : Bytes) (bs : List Bytes) → length b + length (push_all bs) ≤ length (push_all (b ∷ bs))
unfolding push_data
length-push_all b bs =
    omega (arith, length-append (push_data b) (push_all bs), length-append (push_size (length b)) b)

eval_loop-push_all_fail :
    (env : Env) (bs : List Bytes) (vm : Vm)
    → length (push_all bs) ≤ 10_000
    → vm.vf_exec ≡ []
    → length vm.stack + length vm.altstack ≤ 1000
    → all_small bs && leb (length bs + (length vm.stack + length vm.altstack)) 1000 ≡ false
    → eval_loop env (length (push_all bs)) (push_all bs) vm ≡ none
eval_loop-push_all_fail env [] vm l f s h = absurd (ground (arith, s, h))
eval_loop-push_all_fail env (b ∷ bs) vm l f s h =
    let n = length-push_all b bs in
    elim (Bool-cases (leb (length b) 520)) [
      | inr c ↦
          eval_push_fail env b (push_all bs) vm (omega (arith, n, l)) f (inl (ground (arith, c)))
      | inl c ↦ elim (Bool-cases (leb 1000 (length vm.stack + length vm.altstack))) [
        | inl d ↦
            eval_push_fail env b (push_all bs) vm (omega (arith, n, l)) f (inr (ground (arith, d)))
        | inr d ↦
            eval_push env b (push_all bs) vm (ground (arith, c)) f (ground (arith, d))
            ∙ eval_loop-push_all_fail env bs (pushed b vm) (omega (arith, n, l)) f
                (ground (arith, d)) (ground (arith, c, h))
      ]
    ]

-- Pushes that do not fit are not evaluated from an empty stack.
pub eval_script-push_all_fail :
    (env : Env) (bs : List Bytes)
    → leb (length (push_all bs)) 10_000 && (all_small bs && leb (length bs) 1000) ≡ false
    → eval_script env (push_all bs) [] ≡ none
unfolding eval_script
eval_script-push_all_fail env bs h = elim (Bool-cases (leb (length (push_all bs)) 10_000)) [
  | inr c ↦ rw c refl
  | inl c ↦
      let e =
        eval_loop-push_all_fail env bs (start (push_all bs) []) (ground (arith, c)) refl
          (omega arith) (ground (arith, c, h)) in
      rw (c, e) refl
]
