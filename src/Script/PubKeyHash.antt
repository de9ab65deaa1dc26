-- ===== src/Script/PubKeyHash.antt =====
-- Payment to the hash of a key, through `VerifyScript` of src/script.cpp.
use montecoin.Prelude.{
  ◌≤◌, ◌≡◌, refl, ap, Bool, true, false, ◌&&◌, [], ◌∷◌, ◌++◌, length, leb, if◌then◌else◌, arith,
  Bool-cases, inl, inr,
}
use mathlib.Core.List.{append-nil}
use montecoin.Script.{Bytes, push_data, find_and_delete}
use montecoin.Script.Number.{cast_to_bool}
use montecoin.Script.Vm.{Env, bytes_eq}
use montecoin.Script.Eval.{verify_script}
use montecoin.Script.Pushes.{eval_script-push_all_fail}
use montecoin.Script.Run.{push_all}
use montecoin.Script.Destination.{key_id, set_destination}
use montecoin.Script.KeyRun.{eval_sig, eval_script_key_hash, not_script_hash}

-- What the script of a key's hash comes to, on a stack with a key and a signature.
abbrev pub checked : Env → Bytes → Bytes → Bytes → Bool
checked env sig key h =
    bytes_eq (env.hash160 key) h
    && env.check_sig sig key (find_and_delete (push_data sig) (set_destination (key_id h))).0

and_false_if : (b c : Bool) → (if b && false then c else true) ≡ true
and_false_if true c = refl
and_false_if false c = refl

-- Where the pushes fit, the key is checked against its hash and the signature for the key.
verify_script-set_destination_fits :
    (env : Env) (sig key h : Bytes) (f_validate : Bool)
    → length sig ≤ 520
    → length key ≤ 520
    → length h ≡ 20
    → verify_script env (push_data sig ++ push_data key) (set_destination (key_id h)) f_validate
      ≡ checked env sig key h
unfolding verify_script cast_to_bool
verify_script-set_destination_fits env sig key h f_validate ls lk lh =
    let script = set_destination (key_id h) in
    let check = env.check_sig sig key (find_and_delete (push_data sig) script).0 in
    let e = eval_sig env sig key ls lk in
    let e' = eval_script_key_hash env sig key h lh in
    let n = not_script_hash h lh in
    elim (Bool-cases (bytes_eq (env.hash160 key) h)) [
      | inr q ↦ rw (e, e', q) refl
      | inl q ↦ elim (Bool-cases check) [
        | inr c ↦ rw (e, e', q, c) refl
        | inl c ↦ rw (e, e', q, c, n) (and_false_if f_validate _)
      ]
    ]

verify_script-unread :
    (env : Env) (sig key script : Bytes) (f_validate : Bool)
    → leb (length sig) 520 && leb (length key) 520 ≡ false
    → verify_script env (push_data sig ++ push_data key) script f_validate ≡ false
unfolding verify_script
verify_script-unread env sig key script f_validate h =
    let e : push_all (sig ∷ key ∷ []) ≡ push_data sig ++ push_data key =
      ap (λ k. push_data sig ++ k) (append-nil (push_data key)) in
    let none_left = eval_script-push_all_fail env (sig ∷ key ∷ []) (
      not_all (leb (length (push_all (sig ∷ key ∷ []))) 10_000) (leb (length sig) 520)
        (leb (length key) 520) h) in
    rw (rw e at none_left) refl
  where
    not_all :
        (long a b : Bool) → a && b ≡ false → long && ((a && (b && true)) && leb 2 1000) ≡ false
    not_all true a b h = ground (arith, h)
    not_all false a b h = refl

-- To spend what is paid to the hash of a key, with a signature and a key: the script verifies exactly if
-- each of the two has at most 520 bytes, the key has this hash, of 20 bytes, and the signature is good for
-- the key.
pub verify_script-set_destination :
    (env : Env) (sig key h : Bytes) (f_validate : Bool)
    → length h ≡ 20
    → verify_script env (push_data sig ++ push_data key) (set_destination (key_id h)) f_validate
      ≡ leb (length sig) 520 && leb (length key) 520 && checked env sig key h
verify_script-set_destination env sig key h f_validate lh =
    elim (Bool-cases (leb (length sig) 520 && leb (length key) 520)) [
      | inr c ↦ rw c (verify_script-unread env sig key (set_destination (key_id h)) f_validate c)
      | inl c ↦ rw c (
          verify_script-set_destination_fits env sig key h f_validate (ground (arith, c))
            (ground (arith, c)) lh)
    ]
