-- ===== src/Script/Tests.antt =====
-- Scripts that are run, and the theorems at concrete scripts.
use montecoin.Prelude.{
  ℕ, zero, suc, ◌+◌, ◌-◌, ◌≤◌, ◌<◌, ◌≡◌, ◌≢◌, ◌*◌, ◌↔◌, inl, inr, refl, Bool, true, false, not,
  ◌&&◌, List, [], ◌∷◌, ◌++◌, Option, none, some, length, take, ltb, leb, ◌==◌, if◌then◌else◌, arith,
}
use montecoin.Prelude.Int.{ℤ, pos, negsuc}
use montecoin.Script.{
  Bytes, holds, get_op, operand_size, read_operand, push_data, push_size, find_and_delete,
  find_loop, delete_loop, starts_with, is_pay_to_script_hash, get_sig_op_count,
}
use montecoin.Script.Opcode.{decode, find_opcode, opcode_table, is_disabled}
use montecoin.Script.Number.{Mpi, cast_to_bool, getint, getvch, setvch, cast_to_big_num}
use montecoin.Script.Vm.{
  Stack, exec_hash, Env, Vm, bytes_eq, exec_op, exec_branch, exec_binary, exec_checkmultisig,
  match_sigs, delete_sigs, binary_value,
}
use montecoin.Script.Eval.{
  execute, run_op, eval_loop, start, eval_script, top_is_true, verify_script,
}
use montecoin.Script.Destination.{
  no_destination, key_id, script_id, set_destination, set_multisig, extract_destination,
  extract_destinations,
}
use montecoin.Script.Solver.{
  tx_multisig, solver, scan_templates, match_loop, match_op, pubkeys_loop, is_multisig,
}
use montecoin.Script.Trace.{Runs, eval_loop-Runs, Reaches, Reaches-IsBounded}
use montecoin.Script.Static.{is_well_formed, IsBounded, eval_script-is_well_formed}
use montecoin.Script.Branches.{depth_after}
use montecoin.Script.Run.{push_all, pushed_on}
use montecoin.Script.Pushes.{all_small}
use montecoin.Script.PubKeyHash.{checked, verify_script-set_destination}
use montecoin.Script.ScriptHash.{verify_script-script_id}
use montecoin.Script.Template.{extract_destination-set_destination}
use montecoin.Script.Multisig.{Matches, match_sigs_lem}
use montecoin.Script.SigOps.{get_sig_op_count_le}

-- Numbers of one byte, as OpenSSL writes them; a hash that keeps the first bytes; a signature that is
-- good for the key with the same bytes.
abbrev test_bn2mpi : ℤ → Bytes
test_bn2mpi (pos n) = if n == 0 then 0 ∷ 0 ∷ 0 ∷ 0 ∷ [] else 0 ∷ 0 ∷ 0 ∷ 1 ∷ n ∷ []
test_bn2mpi (negsuc n) = 0 ∷ 0 ∷ 0 ∷ 1 ∷ (0x80 + n + 1) ∷ []

abbrev test_mpi2bn : Bytes → ℤ
test_mpi2bn (a ∷ b ∷ c ∷ d ∷ n ∷ []) = if ltb n 0x80 then pos n else negsuc (n - 0x81)
test_mpi2bn _ = pos 0

abbrev test_mpi : Mpi
test_mpi = record { mpi2bn = test_mpi2bn; bn2mpi = test_bn2mpi }

abbrev zeros : Bytes
zeros = 0 ∷ 0 ∷ 0 ∷ 0 ∷ 0 ∷ 0 ∷ 0 ∷ 0 ∷ 0 ∷ 0 ∷ 0 ∷ 0 ∷ 0 ∷ 0 ∷ 0 ∷ 0 ∷ 0 ∷ 0 ∷ 0 ∷ 0 ∷ []

abbrev test_hash : Bytes → Bytes
test_hash b = take 20 (b ++ zeros)

abbrev test_env : Env
test_env = record {
  mpi = test_mpi;
  ripemd160 = test_hash;
  sha1 = test_hash;
  sha256 = test_hash;
  hash160 = test_hash;
  hash256 = test_hash;
  check_sig = λ sig key code. bytes_eq sig key;
}

-- 2 + 3 is 5.
adds : eval_script test_env (0x52 ∷ 0x53 ∷ 0x93 ∷ 0x55 ∷ 0x87 ∷ []) [] ≡ some ((1 ∷ []) ∷ [])
unfolding eval_script eval_loop run_op execute get_op decode find_opcode opcode_table is_disabled
    exec_op exec_binary binary_value cast_to_big_num setvch getvch bytes_eq
    montecoin.Prelude.Int.◌+ℤ◌
adds = refl

-- A branch that is not executed.
abbrev if_else : Bytes
if_else = 0x00 ∷ 0x63 ∷ 0x52 ∷ 0x67 ∷ 0x53 ∷ 0x68 ∷ []

if_else_runs : eval_script test_env if_else [] ≡ some ((3 ∷ []) ∷ [])
unfolding eval_script eval_loop run_op execute get_op decode find_opcode opcode_table is_disabled
    exec_op exec_branch cast_to_bool setvch getvch read_operand operand_size
    montecoin.Serialize.read
if_else_runs = refl

-- Two signatures of three keys.
abbrev two_of_three : Bytes
two_of_three = set_multisig 2 ((7 ∷ []) ∷ (8 ∷ []) ∷ (9 ∷ []) ∷ [])

two_of_three_runs :
    verify_script test_env (0x00 ∷ push_data (7 ∷ []) ++ push_data (9 ∷ [])) two_of_three true
    ≡ true
unfolding verify_script eval_script eval_loop run_op execute get_op decode find_opcode opcode_table
    is_disabled exec_op exec_checkmultisig setvch getvch read_operand operand_size
    montecoin.Serialize.read push_data push_size set_multisig cast_to_big_num getint match_sigs
    delete_sigs find_and_delete find_loop delete_loop starts_with bytes_eq cast_to_bool
    is_pay_to_script_hash
two_of_three_runs = refl

-- In the wrong order the signatures are not accepted.
two_of_three_order :
    verify_script test_env (0x00 ∷ push_data (9 ∷ []) ++ push_data (7 ∷ [])) two_of_three true
    ≡ false
unfolding verify_script eval_script eval_loop run_op execute get_op decode find_opcode opcode_table
    is_disabled exec_op exec_checkmultisig setvch getvch read_operand operand_size
    montecoin.Serialize.read push_data push_size set_multisig cast_to_big_num getint match_sigs
    delete_sigs find_and_delete find_loop delete_loop starts_with bytes_eq cast_to_bool
    is_pay_to_script_hash
two_of_three_order = refl

-- Keys of 33 bytes, as a standard script has them.
abbrev long_key : ℕ → Bytes
long_key n = n ∷ zeros ++ 1 ∷ 2 ∷ 3 ∷ 4 ∷ 5 ∷ 6 ∷ 7 ∷ 8 ∷ 9 ∷ 10 ∷ 11 ∷ 12 ∷ []

standard_multisig :
    extract_destinations test_hash (set_multisig 1 (long_key 2 ∷ long_key 3 ∷ []))
    ≡ some (tx_multisig, key_id (2 ∷ take 19 zeros) ∷ key_id (3 ∷ take 19 zeros) ∷ [], 1)
unfolding extract_destinations extract_destination solver scan_templates match_loop match_op
    pubkeys_loop is_multisig set_multisig push_data push_size get_op read_operand operand_size
    montecoin.Serialize.read bytes_eq is_pay_to_script_hash
standard_multisig = refl

abbrev after_if_else : Vm
after_if_else = record {
  stack = (3 ∷ []) ∷ [];
  altstack = [];
  vf_exec = [];
  n_op_count = 3;
  code_hash = if_else;
}

start-IsBounded : IsBounded (start if_else [])
unfolding IsBounded
start-IsBounded = (omega arith, omega arith)

eval_loop-Runs_example :
    (eval_loop test_env 6 if_else (start if_else []) ≡ some after_if_else)
    ↔ Runs test_env if_else (start if_else []) (some after_if_else)
eval_loop-Runs_example =
    eval_loop-Runs test_env 6 if_else (start if_else []) (some after_if_else) (omega arith)

-- The machine after the first two instructions, and the script that is left.
abbrev in_branch : Vm
in_branch = record {
  stack = [];
  altstack = [];
  vf_exec = false ∷ [];
  n_op_count = 1;
  code_hash = if_else;
}

abbrev branch_left : Bytes
branch_left = 0x52 ∷ 0x67 ∷ 0x53 ∷ 0x68 ∷ []

in_branch_reached : Reaches test_env if_else (start if_else []) branch_left in_branch
unfolding run_op execute get_op decode find_opcode opcode_table is_disabled exec_op exec_branch
    cast_to_bool read_operand operand_size montecoin.Serialize.read
in_branch_reached =
    Reaches.next (0x63 ∷ branch_left) (record (start if_else []) { stack = [] ∷ [] }) 0x63 []
      branch_left in_branch
      (Reaches.next if_else (start if_else []) 0x00 [] (0x63 ∷ branch_left)
        (record (start if_else []) { stack = [] ∷ [] }) Reaches.here refl refl)
      refl refl

Reaches-IsBounded_example :
    IsBounded in_branch
    × (eval_loop test_env 6 if_else (start if_else []) ≡ eval_loop test_env 4 branch_left in_branch)
Reaches-IsBounded_example =
    Reaches-IsBounded test_env if_else (start if_else []) branch_left in_branch in_branch_reached
      start-IsBounded

eval_script-is_well_formed_example :
    (length if_else ≤ 10_000) × (is_well_formed (length if_else) if_else 0 201 ≡ true)
eval_script-is_well_formed_example =
    eval_script-is_well_formed test_env if_else [] ((3 ∷ []) ∷ []) if_else_runs

-- A branch that is not ended, and a disabled opcode in a branch that is not executed.
not_ended : is_well_formed 3 (0x00 ∷ 0x63 ∷ 0x52 ∷ []) 0 201 ≡ false
unfolding is_well_formed get_op read_operand operand_size depth_after is_disabled
    montecoin.Serialize.read
not_ended = refl

disabled_inside : is_well_formed 4 (0x00 ∷ 0x63 ∷ 0x7e ∷ 0x68 ∷ []) 0 201 ≡ false
unfolding is_well_formed get_op read_operand operand_size depth_after is_disabled
    montecoin.Serialize.read
disabled_inside = refl

two_pushes : length (push_all ((7 ∷ []) ∷ [] ∷ [])) ≤ 10_000
unfolding push_data push_size
two_pushes = omega arith

verify_script-set_destination_example :
    verify_script test_env
      (push_data (7 ∷ []) ++ push_data (7 ∷ []))
      (set_destination (key_id (7 ∷ take 19 zeros)))
      true
    ≡ leb 1 520 && leb 1 520 && checked test_env (7 ∷ []) (7 ∷ []) (7 ∷ take 19 zeros)
verify_script-set_destination_example =
    verify_script-set_destination test_env (7 ∷ []) (7 ∷ []) (7 ∷ take 19 zeros) true refl

verify_script-script_id_example :
    verify_script test_env
      (push_all ((7 ∷ []) ∷ (0x57 ∷ 0x87 ∷ []) ∷ []))
      (set_destination (script_id (0x57 ∷ 0x87 ∷ take 18 zeros)))
      true
    ≡ leb (length (push_all ((7 ∷ []) ∷ (0x57 ∷ 0x87 ∷ []) ∷ []))) 10_000
      && (all_small ((7 ∷ []) ∷ (0x57 ∷ 0x87 ∷ []) ∷ [])
          && (leb 1 998
              && (bytes_eq (test_hash (0x57 ∷ 0x87 ∷ [])) (0x57 ∷ 0x87 ∷ take 18 zeros)
                  && holds
                      (eval_script test_env (0x57 ∷ 0x87 ∷ []) (pushed_on ((7 ∷ []) ∷ []) []))
                      top_is_true)))
verify_script-script_id_example =
    verify_script-script_id test_env ((7 ∷ []) ∷ []) (0x57 ∷ 0x87 ∷ [])
      (0x57 ∷ 0x87 ∷ take 18 zeros) refl

key_id≢no : (h : Bytes) → key_id h ≢ no_destination
key_id≢no h e = cc

extract_destination-set_destination_example :
    extract_destination test_hash (set_destination (key_id zeros)) ≡ some (key_id zeros)
extract_destination-set_destination_example =
    extract_destination-set_destination test_hash (key_id zeros) refl (key_id≢no zeros)

match_sigs_lem_example :
    (match_sigs test_env [] ((7 ∷ []) ∷ []) ((8 ∷ []) ∷ (7 ∷ []) ∷ []) ≡ true)
    ↔ Matches test_env [] ((7 ∷ []) ∷ []) ((8 ∷ []) ∷ (7 ∷ []) ∷ [])
match_sigs_lem_example = match_sigs_lem test_env [] ((7 ∷ []) ∷ []) ((8 ∷ []) ∷ (7 ∷ []) ∷ [])

get_sig_op_count_le_example :
    (get_sig_op_count true two_of_three ≤ get_sig_op_count false two_of_three)
    × (get_sig_op_count false two_of_three ≤ 20 * length two_of_three)
get_sig_op_count_le_example = get_sig_op_count_le two_of_three

abbrev one_redeem : Stack
one_redeem = (0x57 ∷ 0x87 ∷ []) ∷ []

abbrev to_redeem : Bytes
to_redeem = set_destination (script_id (0x57 ∷ 0x87 ∷ take 18 zeros))

to_redeem_runs : eval_script test_env to_redeem one_redeem ≡ some ((1 ∷ []) ∷ [])
unfolding eval_script eval_loop run_op execute get_op decode find_opcode opcode_table is_disabled
    exec_op exec_hash read_operand operand_size montecoin.Serialize.read set_destination bytes_eq
to_redeem_runs = refl

to_redeem_form : is_pay_to_script_hash to_redeem ≡ true
unfolding is_pay_to_script_hash set_destination
to_redeem_form = refl
