-- ===== src/Script/Solver.antt =====
-- The standard forms of scripts: `Solver`, `ScriptSigArgsExpected` and `IsStandard` of src/script.cpp.
use montecoin.Prelude.{
  ℕ, zero, suc, ◌+◌, ◌-◌, Bool, true, false, not, ◌&&◌, ◌||◌, List, [], ◌∷◌, ◌++◌, Option, none,
  some, length, take, drop, get_or, ltb, leb, ◌==◌, if◌then◌else◌,
}
use montecoin.Prelude.Int.{ℤ, pos, negsuc}
use montecoin.Script.{
  Bytes, ◌>>=◌, get_op, is_pay_to_script_hash, op_1, op_16, op_invalidopcode, decode_op_n,
}
use montecoin.Script.Vm.{bytes_eq}

-- `txnouttype`
pub data TxnOutType : Type 0 where
  tx_nonstandard tx_pubkey tx_pubkeyhash tx_scripthash tx_multisig : TxnOutType

-- The parameters of templates.
abbrev pub op_smallinteger : ℕ
op_smallinteger = 0xfa

abbrev pub op_pubkeys : ℕ
op_pubkeys = 0xfb

abbrev pub op_pubkeyhash : ℕ
op_pubkeyhash = 0xfd

abbrev pub op_pubkey : ℕ
op_pubkey = 0xfe

-- `mTemplates`, in the order of the keys.
abbrev pub templates : List (TxnOutType × Bytes)
templates =
    (tx_pubkey, op_pubkey ∷ 0xac ∷ [])
    ∷ (tx_pubkeyhash, 0x76 ∷ 0xa9 ∷ op_pubkeyhash ∷ 0x88 ∷ 0xac ∷ [])
    ∷ (tx_multisig, op_smallinteger ∷ op_pubkeys ∷ op_smallinteger ∷ 0xae ∷ [])
    ∷ []

abbrev pub is_key_size : Bytes → Bool
is_key_size vch = leb 33 (length vch) && leb (length vch) 120

-- What the comparison holds: the opcode and the operand of the script, the position, the solutions.
pub record Scan : Type 0 where
  pub opcode1 : ℕ
  pub vch1 : Bytes
  pub pc1 : Bytes
  pub v_solutions : List Bytes

abbrev pub scan : ℕ → Bytes → Bytes → List Bytes → Scan
scan opcode vch pc sols = record { opcode1 = opcode; vch1 = vch; pc1 = pc; v_solutions = sols }

-- The loop for `OP_PUBKEYS`, on fuel. After a read that fails the opcode is invalid and no template
-- goes on, wherever the position is.
unfoldable pub pubkeys_loop : ℕ → Scan → Scan
pubkeys_loop zero s = s
pubkeys_loop (suc fuel) s =
    if is_key_size s.vch1
    then elim (get_op s.pc1) [
      | none ↦ record {
        opcode1 = op_invalidopcode;
        vch1 = [];
        pc1 = [];
        v_solutions = s.v_solutions ++ s.vch1 ∷ [];
      }
      | some ((opcode, vch), rest) ↦ pubkeys_loop fuel (record {
        opcode1 = opcode;
        vch1 = vch;
        pc1 = rest;
        v_solutions = s.v_solutions ++ s.vch1 ∷ [];
      })
    ]
    else s

-- One element of a template: the solutions with what it adds.
unfoldable pub match_op : ℕ → Bytes → Scan → Option (List Bytes)
match_op opcode2 vch2 s =
    if opcode2 == op_pubkey
    then (if is_key_size s.vch1 then some (s.v_solutions ++ s.vch1 ∷ []) else none)
    else if opcode2 == op_pubkeyhash
    then (if length s.vch1 == 20 then some (s.v_solutions ++ s.vch1 ∷ []) else none)
    else if opcode2 == op_smallinteger
    then (if s.opcode1 == 0 || (leb op_1 s.opcode1 && leb s.opcode1 op_16)
        then some (s.v_solutions ++ (decode_op_n s.opcode1 ∷ []) ∷ [])
        else none)
    else if (s.opcode1 == opcode2) && bytes_eq s.vch1 vch2
    then some s.v_solutions
    else none

abbrev pub at_end : Bytes → Bool
at_end [] = true
at_end (b ∷ pc) = false

-- The loop that compares a script with a template, on fuel: the solutions if they match.
unfoldable pub match_loop : ℕ → Bytes → Bytes → List Bytes → Option (List Bytes)
match_loop zero pc1 pc2 sols = none
match_loop (suc fuel) pc1 pc2 sols = if at_end pc1 && at_end pc2 then some sols else (do
  ((opcode1, vch1), rest1) ← get_op pc1
  ((opcode2, vch2), rest2) ← get_op pc2
  let s = scan opcode1 vch1 rest1 sols
  let s' = if opcode2 == op_pubkeys then pubkeys_loop (length rest1 + 1) s else s
  ((opcode2', vch2'), rest2') ←
      (if opcode2 == op_pubkeys then get_op rest2 else some ((opcode2, vch2), rest2))
  sols' ← match_op opcode2' vch2' s'
  match_loop fuel s'.pc1 rest2' sols')

-- The first byte of the first solution, and of the last.
abbrev pub first_byte : List Bytes → ℕ
first_byte sols = get_or (get_or sols 0 []) 0 0

abbrev pub last_byte : List Bytes → ℕ
last_byte sols = get_or (get_or sols (length sols - 1) []) 0 0

-- The additional checks of a multisignature script.
abbrev pub multisig_ok : List Bytes → Bool
multisig_ok sols =
    leb 1 (first_byte sols)
    && leb 1 (last_byte sols)
    && leb (first_byte sols) (last_byte sols)
    && (length sols - 2 == last_byte sols)

unfoldable pub is_multisig : TxnOutType → Bool
is_multisig tx_multisig = true
is_multisig _ = false

-- What `Solver` returns, its type and its solutions.
pub record Solved : Type 0 where
  pub result : Bool
  pub type_ret : TxnOutType
  pub v_solutions : List Bytes

abbrev pub solved : Bool → TxnOutType → List Bytes → Solved
solved ok t sols = record { result = ok; type_ret = t; v_solutions = sols }

-- A template that matches decides; else the others do.
abbrev pub matched : TxnOutType → Option (List Bytes) → Solved → Solved
matched t none rest = rest
matched t (some sols) rest = solved (not (is_multisig t) || multisig_ok sols) t sols

unfoldable pub scan_templates : Bytes → List (TxnOutType × Bytes) → Solved
scan_templates script [] = solved false tx_nonstandard []
scan_templates script ((t, tplate) ∷ rest) =
    matched t (match_loop (length script + length tplate + 1) script tplate [])
      (scan_templates script rest)

unfoldable pub solver : Bytes → Solved
solver script_pub_key =
    if is_pay_to_script_hash script_pub_key
    then solved true tx_scripthash (take 20 (drop 2 script_pub_key) ∷ [])
    else scan_templates script_pub_key templates

unfoldable pub script_sig_args_expected : TxnOutType → List Bytes → ℤ
script_sig_args_expected tx_nonstandard sols = negsuc 0
script_sig_args_expected tx_pubkey sols = pos 1
script_sig_args_expected tx_pubkeyhash sols = pos 2
script_sig_args_expected tx_scripthash sols = pos 1
script_sig_args_expected tx_multisig [] = negsuc 0
script_sig_args_expected tx_multisig ([] ∷ sols) = negsuc 0
script_sig_args_expected tx_multisig ((m ∷ vch) ∷ sols) = pos (m + 1)

abbrev pub is_nonstandard : TxnOutType → Bool
is_nonstandard tx_nonstandard = true
is_nonstandard tx_pubkey = false
is_nonstandard tx_pubkeyhash = false
is_nonstandard tx_scripthash = false
is_nonstandard tx_multisig = false

unfoldable pub is_standard : Bytes → Bool
is_standard script_pub_key =
    let s = solver script_pub_key in
    let m = first_byte s.v_solutions in
    let n = last_byte s.v_solutions in
    if not s.result
    then false
    else if is_multisig s.type_ret && (ltb n 1 || ltb 3 n)
    then false
    else if is_multisig s.type_ret && (ltb m 1 || ltb n m)
    then false
    else not (is_nonstandard s.type_ret)
