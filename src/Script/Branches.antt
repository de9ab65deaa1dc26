-- ===== src/Script/Branches.antt =====
-- Which bytes are branches, and how many branches are open after them.
use montecoin.Prelude.{
  ℕ, ◌+◌, ◌-◌, ◌≡◌, refl, ap, ◌∙◌, ◌⊎◌, Bool, true, false, ◌&&◌, ◌||◌, List, [], ◌∷◌, Option, none,
  some, length, leb, ◌==◌, if◌then◌else◌, arith, Bool-cases, inl, inr,
}
use montecoin.Script.Opcode.{
  Branch, op_if, op_notif, op_else, op_endif, Opcode, small, op_nop, op_verify, op_return,
  op_within, op_codeseparator, branch, stack_op, equal, unary, binary, numequal_verify, hash_op,
  checksig, checkmultisig, unknown, decode, opcode_table, find_opcode,
}
use montecoin.Script.Vm.{Stack, exec_branch}

-- How many branches are open after an instruction, or none where it has no branch to end or to turn.
unfoldable pub depth_after : ℕ → ℕ → Option ℕ
depth_after opcode n =
    if opcode == 0x63 || opcode == 0x64
    then some (n + 1)
    else if opcode == 0x67
    then (if n == 0 then none else some n)
    else if opcode == 0x68
    then (if n == 0 then none else some (n - 1))
    else some n

abbrev pub is_branch : Opcode → Bool
is_branch (branch b) = true
is_branch (small n) = false
is_branch op_nop = false
is_branch op_verify = false
is_branch op_return = false
is_branch op_within = false
is_branch op_codeseparator = false
is_branch (stack_op o) = false
is_branch (equal v) = false
is_branch (unary o) = false
is_branch (binary o) = false
is_branch numequal_verify = false
is_branch (hash_op o) = false
is_branch (checksig v) = false
is_branch (checkmultisig v) = false
is_branch unknown = false

unfoldable pub depth_of : Branch → ℕ → Option ℕ
depth_of op_if n = some (n + 1)
depth_of op_notif n = some (n + 1)
depth_of op_else n = if n == 0 then none else some n
depth_of op_endif n = if n == 0 then none else some (n - 1)

-- A branch operation, where it goes well, opens, keeps or ends a branch.
pub exec_branch_depth :
    (b : Branch) (f : Bool) (s : Stack) (vf : List Bool) {p : Stack × List Bool}
    → exec_branch b f s vf ≡ some p
    → depth_of b (length vf) ≡ some (length p.1)
unfolding exec_branch depth_of
exec_branch_depth op_if true s vf h = ground (arith, h)
exec_branch_depth op_if false s vf h = ground (arith, h)
exec_branch_depth op_notif true s vf h = ground (arith, h)
exec_branch_depth op_notif false s vf h = ground (arith, h)
exec_branch_depth op_else f s [] h = cc
exec_branch_depth op_else f s (b ∷ vf) h = ground (arith, h)
exec_branch_depth op_endif f s [] h = cc
exec_branch_depth op_endif f s (b ∷ vf) h = ground (arith, h)

-- The four bytes of branches.
unfoldable is_branch_byte : ℕ → Bool
is_branch_byte k = k == 0x63 || k == 0x64 || k == 0x67 || k == 0x68

-- Every branch of a table has one of them.
abbrev branch_byte : ℕ → Opcode → Bool
branch_byte k o = if is_branch o then is_branch_byte k else true

abbrev plain : List (ℕ × Opcode) → Bool
plain [] = true
plain ((k, o) ∷ table) = branch_byte k o && plain table

and_true : (a b : Bool) → a && b ≡ true → (a ≡ true) × (b ≡ true)
and_true true b h = (refl, h)
and_true false b h = cc

not_branch :
    (k : ℕ) (o : Opcode) → branch_byte k o ≡ true → is_branch_byte k ≡ false → is_branch o ≡ false
not_branch k o h n = elim (Bool-cases (is_branch o)) [
  | inr e ↦ e
  | inl e ↦ absurd (ground (arith, e, h, n))
]

find_opcode-plain :
    (opcode : ℕ) (table : List (ℕ × Opcode))
    → plain table ≡ true
    → is_branch_byte opcode ≡ false
    → is_branch (find_opcode opcode table) ≡ false
unfolding find_opcode
find_opcode-plain opcode [] h n = refl
find_opcode-plain opcode ((k, o) ∷ table) h n =
    let (b, t) = and_true (branch_byte k o) (plain table) h in
    let rest = find_opcode-plain opcode table t n in
    elim (Bool-cases (k == opcode)) [
      | inl e ↦
          let q : k ≡ opcode = ground (arith, e) in
          rw e (not_branch k o b (ap is_branch_byte q ∙ n))
      | inr e ↦ rw e rest
    ]

opcode_table-plain : plain opcode_table ≡ true
unfolding opcode_table is_branch_byte
opcode_table-plain = refl

unfoldable pub Cases : ℕ → Type 0
Cases opcode =
    ((b : Branch) × (decode opcode ≡ branch b)
      × (leb 0x63 opcode && leb opcode 0x68 ≡ true)
      × ((n : ℕ) → depth_after opcode n ≡ depth_of b n))
    ⊎ (is_branch (decode opcode) ≡ false) × ((n : ℕ) → depth_after opcode n ≡ some n)

decode_plain : (opcode : ℕ) → is_branch_byte opcode ≡ false → is_branch (decode opcode) ≡ false
unfolding decode
decode_plain opcode h =
    let t = find_opcode-plain opcode opcode_table opcode_table-plain h in
    elim (Bool-cases (leb 0x51 opcode && leb opcode 0x60)) [
      | inl a ↦ rw a refl
      | inr a ↦ elim (Bool-cases (leb 0xb0 opcode && leb opcode 0xb9)) [
        | inl b ↦ rw (a, b) refl
        | inr b ↦ rw (a, b) t
      ]
    ]

branch_byte_cases :
    (k : ℕ) → is_branch_byte k ≡ true → (k ≡ 0x63) ⊎ ((k ≡ 0x64) ⊎ ((k ≡ 0x67) ⊎ (k ≡ 0x68)))
unfolding is_branch_byte
branch_byte_cases k h = ground (arith, h)

pub decode-Cases : (opcode : ℕ) → Cases opcode
unfolding Cases decode depth_after depth_of opcode_table find_opcode is_branch_byte
decode-Cases opcode = elim (Bool-cases (is_branch_byte opcode)) [
  | inl h ↦ elim (branch_byte_cases opcode h) [
    | inl e ↦ rw e (inl (op_if, refl, refl, λ n. refl))
    | inr (inl e) ↦ rw e (inl (op_notif, refl, refl, λ n. refl))
    | inr (inr (inl e)) ↦ rw e (inl (op_else, refl, refl, λ n. refl))
    | inr (inr (inr e)) ↦ rw e (inl (op_endif, refl, refl, λ n. refl))
  ]
  | inr h ↦ inr (decode_plain opcode h, λ n. ground (arith, h))
]
