-- ===== src/Script/ScriptHash.antt =====
-- Payment to the hash of a script, through `VerifyScript` of src/script.cpp.
use montecoin.Prelude.{
  none, ◌+◌, ◌≤◌, ◌<◌, ◌≡◌, refl, ap, ◌∙◌, true, false, ◌&&◌, List, [], ◌∷◌, ◌++◌, some, length,
  leb, arith, Bool-cases, inl, inr, length-append,
}
use montecoin.Script.{is_pay_to_script_hash, Bytes, holds}
use montecoin.Script.Opcode.{decode, is_disabled, opcode_table, find_opcode}
use montecoin.Script.Number.{cast_to_bool}
use montecoin.Script.Vm.{Env, Stack, bytes_eq, exec_op}
use montecoin.Script.Eval.{execute, run_op, eval_script, top_is_true, verify_script}
use montecoin.Script.Run.{
  eval_fail, get_op_one, push_all, AllSmall, pushed_on, eval_script-push_all,
}
use montecoin.Script.Pushes.{all_small, all_small-AllSmall, eval_script-push_all_fail}
use montecoin.Script.Destination.{script_id, set_destination}
use montecoin.Script.KeyRun.{machine}
use montecoin.Script.Template.{script_hash_is}
use montecoin.Script.HashRun.{is_push_only-push_all, eval_script-script_id, eval_script-full}

pushed_on_last :
    (bs : List Bytes) (x : Bytes) (s : Stack) → pushed_on (bs ++ x ∷ []) s ≡ x ∷ pushed_on bs s
pushed_on_last [] x s = refl
pushed_on_last (b ∷ bs) x s = pushed_on_last bs x (b ∷ s)

length-pushed_on : (bs : List Bytes) (s : Stack) → length (pushed_on bs s) ≡ length bs + length s
length-pushed_on [] s = omega arith
length-pushed_on (b ∷ bs) s = omega (arith, length-pushed_on bs (b ∷ s))

-- Where the pushes fit, the redeeming script is checked against its hash and evaluated.
verify_script-script_id_fits :
    (env : Env) (bs : List Bytes) (redeem h : Bytes)
    → AllSmall (bs ++ redeem ∷ [])
    → length bs ≤ 998
    → length (push_all (bs ++ redeem ∷ [])) ≤ 10_000
    → length h ≡ 20
    → verify_script env (push_all (bs ++ redeem ∷ [])) (set_destination (script_id h)) true
      ≡ bytes_eq (env.hash160 redeem) h
        && holds (eval_script env redeem (pushed_on bs [])) top_is_true
unfolding verify_script cast_to_bool
verify_script-script_id_fits env bs redeem h small n l lh =
    let sig = push_all (bs ++ redeem ∷ []) in
    let s = pushed_on bs [] in
    let len : length (bs ++ redeem ∷ []) ≤ 1000 =
      ground (arith, n, length-append bs (redeem ∷ [])) in
    let e : eval_script env sig [] ≡ some (redeem ∷ s) =
      eval_script-push_all env (bs ++ redeem ∷ []) small len l
      ∙ ap some (pushed_on_last bs redeem []) in
    let e' = eval_script-script_id env redeem h s lh (ground (arith, n, length-pushed_on bs [])) in
    elim (Bool-cases (bytes_eq (env.hash160 redeem) h)) [
      | inl q ↦
          rw (e, e', q, script_hash_is h lh, is_push_only-push_all (bs ++ redeem ∷ []) small) refl
      | inr q ↦ rw (e, e', q) refl
    ]

-- Pushes that do not fit do not verify.
verify_script-unread :
    (env : Env) (bs : List Bytes) (h : Bytes)
    → leb (length (push_all bs)) 10_000 && (all_small bs && leb (length bs) 1000) ≡ false
    → verify_script env (push_all bs) (set_destination (script_id h)) true ≡ false
unfolding verify_script
verify_script-unread env bs h e = rw (eval_script-push_all_fail env bs e) refl

-- More than 998 pushes before the redeeming script are too many.
verify_script-crowded :
    (env : Env) (bs : List Bytes) (redeem h : Bytes)
    → length (push_all (bs ++ redeem ∷ [])) ≤ 10_000
    → all_small (bs ++ redeem ∷ []) ≡ true
    → 998 < length bs
    → length h ≡ 20
    → verify_script env (push_all (bs ++ redeem ∷ [])) (set_destination (script_id h)) true ≡ false
unfolding verify_script
verify_script-crowded env bs redeem h l small n lh =
    let sig = push_all (bs ++ redeem ∷ []) in
    let s = pushed_on bs [] in
    let long = length-append bs (redeem ∷ []) in
    elim (Bool-cases (leb (length (bs ++ redeem ∷ [])) 1000)) [
      | inr c ↦ verify_script-unread env (bs ++ redeem ∷ []) h (ground (arith, small, c))
      | inl c ↦
          let e : eval_script env sig [] ≡ some (redeem ∷ s) =
            eval_script-push_all env (bs ++ redeem ∷ [])
              (all_small-AllSmall (bs ++ redeem ∷ []) small) (ground (arith, c)) l
            ∙ ap some (pushed_on_last bs redeem []) in
          let full = length-pushed_on bs [] in
          let e' = eval_script-full env redeem h s lh (ground (arith, c, n, long, full)) in
          rw (e, e') refl
    ]

-- To spend what is paid to the hash of a script, with a script that pushes some elements and then the
-- redeeming script: it verifies exactly if it has at most 10,000 bytes, no push has more than 520 bytes, the
-- redeeming script included, at most 998 elements are pushed before that, the redeeming script has this
-- hash, of 20 bytes, and its evaluation on the elements does not fail and leaves something true on top.
pub verify_script-script_id :
    (env : Env) (bs : List Bytes) (redeem h : Bytes)
    → length h ≡ 20
    → verify_script env (push_all (bs ++ redeem ∷ [])) (set_destination (script_id h)) true
      ≡ leb (length (push_all (bs ++ redeem ∷ []))) 10_000
        && (all_small (bs ++ redeem ∷ [])
            && (leb (length bs) 998
                && (bytes_eq (env.hash160 redeem) h
                    && holds (eval_script env redeem (pushed_on bs [])) top_is_true)))
verify_script-script_id env bs redeem h lh =
    let all = bs ++ redeem ∷ [] in
    elim (Bool-cases (leb (length (push_all all)) 10_000)) [
      | inr c ↦ rw c (verify_script-unread env all h (ground (arith, c)))
      | inl c ↦ elim (Bool-cases (all_small all)) [
        | inr d ↦ rw (c, d) (verify_script-unread env all h (ground (arith, c, d)))
        | inl d ↦ elim (Bool-cases (leb (length bs) 998)) [
          | inr n ↦
              rw (c, d, n)
                (verify_script-crowded env bs redeem h (ground (arith, c)) d (ground (arith, n)) lh)
          | inl n ↦
              rw (c, d, n)
                (verify_script-script_id_fits env bs redeem h (all_small-AllSmall all d)
                  (ground (arith, n)) (ground (arith, c)) lh)
        ]
      ]
    ]

run_hash_empty : (env : Env) (code pc : Bytes) → run_op env 0xa9 [] pc (machine code [] 0) ≡ none
unfolding run_op execute is_disabled decode find_opcode opcode_table exec_op
run_hash_empty env code pc = refl

-- A script that is named by its hash is not evaluated without failure from an empty stack: where
-- `VerifyScript` takes the redeeming script from the top of its copy of the stack, there is one.
script_hash_stack :
    (env : Env) (script_pub_key : Bytes) (stack stack' : Stack)
    → is_pay_to_script_hash script_pub_key ≡ true
    → eval_script env script_pub_key stack ≡ some stack'
    → 1 ≤ length stack
unfolding eval_script is_pay_to_script_hash
script_hash_stack env s (x ∷ stack) stack' p h = omega arith
script_hash_stack env [] [] stack' p h = cc
script_hash_stack env (b ∷ s) [] stack' p h =
    let q : b ≡ 0xa9 = ground (arith, p) in
    let e =
      eval_fail env (0xa9 ∷ s) 0xa9 [] s (machine (0xa9 ∷ s) [] 0) (get_op_one 0xa9 s (omega arith))
        (run_hash_empty env (0xa9 ∷ s) s) in
    absurd (ground (arith, rw q at h, e))
