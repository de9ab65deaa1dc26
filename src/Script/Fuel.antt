-- ===== src/Script/Fuel.antt =====
-- Every instruction takes at least its opcode from the script, so the loops of src/script.cpp end.
use montecoin.Prelude.{
  ℕ, sym, ap, zero, suc, ◌≤◌, ◌<◌, ◌≡◌, refl, ◌∙◌, Bool, true, false, [], ◌∷◌, Option, none, some,
  length, take, drop, ltb, leb, ◌==◌, if◌then◌else◌, arith, Bool-cases, Option-cases, inl, inr,
  length-drop, if_none,
}
use montecoin.Serialize.{read, read_uint}
use montecoin.Script.{Bytes, ◌>>=◌, operand_size, read_operand, get_op}
use montecoin.Script.Vm.{Env, Vm}
use montecoin.Script.Eval.{run_op, eval_loop}

-- A step that went well, taken apart.
pub bind-some_iff :
    {A B : Type 0} (m : Option A) (f : A → Option B) {b : B}
    → (m >>= f) ≡ some b
    → (a : A) × (m ≡ some a) × (f a ≡ some b)
bind-some_iff none f h = cc
bind-some_iff (some a) f h = (a, refl, h)

read_le : (n : ℕ) (s : Bytes) {x rest : Bytes} → read n s ≡ some (x, rest) → length rest ≤ length s
unfolding read
read_le n s h =
    let e = (if_none (ltb (length s) n) (some (take n s, drop n s)) h).1 in
    ground (arith, e, length-drop n s)

read_uint_le :
    (k : ℕ) (s : Bytes) {n : ℕ} {rest : Bytes}
    → read_uint k s ≡ some (n, rest)
    → length rest ≤ length s
unfolding read_uint
read_uint_le k s h = elim (Option-cases (read k s)) [
  | inl miss ↦ absurd (ground (arith, miss))
  | inr ((x, r), e) ↦ ground (arith, e, read_le k s e)
]

operand_size_le :
    (opcode : ℕ) (s : Bytes) {n : ℕ} {rest : Bytes}
    → operand_size opcode s ≡ some (n, rest)
    → length rest ≤ length s
unfolding operand_size
operand_size_le opcode s {n} {rest} h = split (ltb opcode 0x4c) (opcode == 0x4c) (opcode == 0x4d) h
  where
    split :
        (a b c : Bool)
        → (if a
            then some (opcode, s)
            else if b
            then read_uint 1 s
            else if c
            then read_uint 2 s
            else read_uint 4 s)
          ≡ some (n, rest)
        → length rest ≤ length s
    split true b c h = ground arith
    split false true c h = read_uint_le 1 s h
    split false false true h = read_uint_le 2 s h
    split false false false h = read_uint_le 4 s h

read_operand_le :
    (opcode : ℕ) (s : Bytes) {o : ℕ × Bytes} {rest : Bytes}
    → read_operand opcode s ≡ some (o, rest)
    → length rest ≤ length s
unfolding read_operand
read_operand_le opcode s {o} {rest} h =
    let (p, e, h') =
      bind-some_iff (operand_size opcode s) (λ p. read p.0 p.1 >>= λ q. some ((opcode, q.0), q.1))
        h in
    let (q, e', h'') = bind-some_iff (read p.0 p.1) (λ q. some ((opcode, q.0), q.1)) h' in
    ground (arith, h'', operand_size_le opcode s e, read_le p.0 p.1 e')

pub get_op_lt :
    (b : ℕ) (pc : Bytes) {o : ℕ × Bytes} {rest : Bytes}
    → get_op (b ∷ pc) ≡ some (o, rest)
    → length rest < length (b ∷ pc)
unfolding get_op
get_op_lt b pc {o} {rest} h = elim (Bool-cases (leb b 0x4e)) [
  | inl e ↦
      let le =
        read_operand_le b pc
          (sym (ap (λ t. if t then read_operand b pc else some ((b, []), pc)) e) ∙ h) in
      ground (arith, le)
  | inr e ↦ ground (arith, e, h)
]

next :
    (env : Env) (f : ℕ → Bytes → Vm → Option Vm) (fuel fuel' : ℕ) (b : ℕ) (pc : Bytes) (vm : Vm)
    → ((rest : Bytes)
        → length rest < length (b ∷ pc)
        → (vm' : Vm) → f fuel rest vm' ≡ f fuel' rest vm')
    → (get_op (b ∷ pc) >>= λ p. run_op env p.0.0 p.0.1 p.1 vm >>= f fuel p.1)
      ≡ (get_op (b ∷ pc) >>= λ p. run_op env p.0.0 p.0.1 p.1 vm >>= f fuel' p.1)
next env f fuel fuel' b pc vm ih = elim (Option-cases (get_op (b ∷ pc))) [
  | inl e ↦ rw e refl
  | inr (p, e) ↦
      rw e (λ i. run_op env p.0.0 p.0.1 p.1 vm >>= λ vm'. ih p.1 (get_op_lt b pc e) vm' i)
]

-- Run on fuel that is at least the length of the script, the loop does what it does on any other such
-- fuel.
pub eval_loop_enough :
    (env : Env) (fuel fuel' : ℕ) (script : Bytes) (vm : Vm)
    → length script ≤ fuel
    → length script ≤ fuel'
    → eval_loop env fuel script vm ≡ eval_loop env fuel' script vm
unfolding eval_loop
eval_loop_enough env fuel fuel' [] vm h h' = refl
eval_loop_enough env zero fuel' (b ∷ pc) vm h h' = absurd (omega arith)
eval_loop_enough env (suc fuel) zero (b ∷ pc) vm h h' = absurd (omega arith)
eval_loop_enough env (suc fuel) (suc fuel') (b ∷ pc) vm h h' =
    next env (eval_loop env) fuel fuel' b pc vm
      (λ rest lt vm'. eval_loop_enough env fuel fuel' rest vm' (omega arith) (omega arith))
