-- ===== src/Script/SigOps.antt =====
-- The count of signature checks, `GetSigOpCount` of src/script.cpp.
use montecoin.Prelude.{
  ℕ, zero, suc, ◌+◌, ◌*◌, ◌≤◌, Bool, true, false, [], ◌∷◌, length, arith, Option-cases, inl, inr,
}
use montecoin.Script.{Bytes, get_op, sig_ops_of, sig_op_loop, get_sig_op_count}
use montecoin.Script.Fuel.{get_op_lt}

sig_ops_of_le :
    (last last' opcode : ℕ) → sig_ops_of true last opcode ≤ sig_ops_of false last' opcode
unfolding sig_ops_of
sig_ops_of_le last last' opcode = ground arith

sig_op_loop_le :
    (fuel last n n' : ℕ) (s : Bytes)
    → n ≤ n'
    → sig_op_loop fuel true last n s ≤ sig_op_loop fuel false last n' s
unfolding sig_op_loop
sig_op_loop_le fuel last n n' [] h = h
sig_op_loop_le zero last n n' (b ∷ pc) h = h
sig_op_loop_le (suc fuel) last n n' (b ∷ pc) h = elim (Option-cases (get_op (b ∷ pc))) [
  | inl e ↦ rw e h
  | inr (p, e) ↦
      let le = sig_ops_of_le last last p.0.0 in
      rw e (
        sig_op_loop_le fuel p.0.0 (n + sig_ops_of true last p.0.0)
          (n' + sig_ops_of false last p.0.0) p.1 (omega arith))
]

sig_ops_of_max : (b : Bool) (last opcode : ℕ) → sig_ops_of b last opcode ≤ 20
unfolding sig_ops_of
sig_ops_of_max b last opcode = ground arith

sig_op_loop_max :
    (fuel : ℕ) (b : Bool) (last n : ℕ) (s : Bytes) → sig_op_loop fuel b last n s ≤ n + 20 * length s
unfolding sig_op_loop
sig_op_loop_max fuel b last n [] = omega arith
sig_op_loop_max zero b last n (x ∷ pc) = omega arith
sig_op_loop_max (suc fuel) b last n (x ∷ pc) = elim (Option-cases (get_op (x ∷ pc))) [
  | inl e ↦ rw e (omega arith)
  | inr (p, e) ↦
      let ih = sig_op_loop_max fuel b p.0.0 (n + sig_ops_of b last p.0.0) p.1 in
      let le = sig_ops_of_max b last p.0.0 in let lt = get_op_lt x pc e in rw e (omega arith)
]

-- What is counted of a script in the accurate way is at most what is counted in the other, and this is
-- at most 20 for each byte.
pub get_sig_op_count_le :
    (s : Bytes)
    → (get_sig_op_count true s ≤ get_sig_op_count false s)
      × (get_sig_op_count false s ≤ 20 * length s)
unfolding get_sig_op_count
get_sig_op_count_le s =
    let le = sig_op_loop_max (length s) false 0xff 0 s in
    (sig_op_loop_le (length s) 0xff 0 0 s (omega arith), omega arith)
