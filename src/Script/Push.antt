-- ===== src/Script/Push.antt =====
-- What `operator<<` writes is what `GetOp` reads.
use montecoin.Prelude.{
  ℕ, ◌^◌, ◌≤◌, ◌<◌, ◌≡◌, refl, ap, ◌∙◌, true, ◌∷◌, ◌++◌, some, length, ltb, leb, if◌then◌else◌,
  arith, Bool-cases, inl, inr,
}
use mathlib.Core.List.{append_assoc}
use montecoin.Serialize.{read_uint, le_bytes}
use montecoin.Serialize.Bytes.{read_prefix, read_uint-le_bytes}
use montecoin.Script.{Bytes, operand_size, read_operand, get_op, push_size, push_data}

-- The opcode that a push of so many bytes has.
abbrev pub push_opcode : ℕ → ℕ
push_opcode n =
    if ltb n 0x4c then n else if leb n 0xff then 0x4c else if leb n 0xffff then 0x4d else 0x4e

get_op-operand :
    (opcode n : ℕ) (pc b rest : Bytes)
    → opcode ≤ 0x4e
    → operand_size opcode pc ≡ some (n, b ++ rest)
    → n ≡ length b
    → get_op (opcode ∷ pc) ≡ some ((opcode, b), rest)
unfolding get_op read_operand
get_op-operand opcode n pc b rest h e l =
    let p : leb opcode 0x4e ≡ true = ground arith in rw (p, e, l, read_prefix b rest) refl

byte : (n : ℕ) (s : Bytes) → n < 256 → n ∷ s ≡ le_bytes 1 n ++ s
unfolding le_bytes
byte n s h = ap (λ (k : ℕ). k ∷ s) (omega arith)

-- Read back from a script, the bytes that were pushed come with the opcode of the shortest push, and
-- the script goes on behind them.
pub get_op-push_data :
    (b rest : Bytes)
    → length b < 2 ^ 32
    → get_op (push_data b ++ rest) ≡ some ((push_opcode (length b), b), rest)
unfolding push_data push_size operand_size
get_op-push_data b rest h =
    let n = length b in
    elim (Bool-cases (ltb n 0x4c)) [
      | inl p ↦ rw p (get_op-operand n n (b ++ rest) b rest (ground arith) (rw p refl) refl)
      | inr p ↦ elim (Bool-cases (leb n 0xff)) [
        | inl q ↦
            let one : n ∷ b ++ rest ≡ le_bytes 1 n ++ (b ++ rest) =
              byte n (b ++ rest) (ground arith) in
            rw (p, q)
              (get_op-operand 0x4c n (n ∷ b ++ rest) b rest (omega arith)
                (ap (read_uint 1) one ∙ read_uint-le_bytes 1 n (b ++ rest) (ground arith)) refl)
        | inr q ↦ elim (Bool-cases (leb n 0xffff)) [
          | inl r ↦
              rw (p, q, r, append_assoc (le_bytes 2 n) b rest)
                (get_op-operand 0x4d n (le_bytes 2 n ++ (b ++ rest)) b rest (omega arith)
                  (read_uint-le_bytes 2 n (b ++ rest) (ground arith)) refl)
          | inr r ↦
              rw (p, q, r, append_assoc (le_bytes 4 n) b rest)
                (get_op-operand 0x4e n (le_bytes 4 n ++ (b ++ rest)) b rest (omega arith)
                  (read_uint-le_bytes 4 n (b ++ rest) (omega arith)) refl)
        ]
      ]
    ]
