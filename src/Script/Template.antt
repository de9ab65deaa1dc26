-- ===== src/Script/Template.antt =====
-- The destination that src/script.cpp reads from a script is the one that the script was made for.
use montecoin.Prelude.{
  ℕ, suc, ◌<◌, ◌≡◌, ◌≢◌, refl, ◌∙◌, true, false, List, [], ◌∷◌, ◌++◌, none, some, length, take,
  get_elem?, ◌==◌, arith, length-append,
}
use montecoin.Serialize.Bytes.{take_prefix}
use montecoin.Script.{Bytes, get_op, is_pay_to_script_hash}
use montecoin.Script.Solver.{
  matched, solved, op_pubkey, tx_pubkey, tx_pubkeyhash, tx_scripthash, op_pubkeyhash, match_op,
  match_loop, is_multisig, scan_templates, solver,
}
use montecoin.Script.Vm.{bytes_eq}
use montecoin.Script.Push.{get_op-push_data}
use montecoin.Script.Run.{get_op_one}
use montecoin.Script.Destination.{
  Destination, key_id, script_id, no_destination, push_uint160, set_destination, destination_of,
  extract_destination,
}
use montecoin.Script.KeyRun.{push_uint160_data, length-set_destination, not_script_hash}

-- An opcode without operand, and the operand of a hash, compared with a template.
match_same :
    (fuel opcode : ℕ) (pc1 pc2 : Bytes) (sols : List Bytes)
    → 0x4e < opcode
    → opcode < 0xfa
    → match_loop (suc fuel) (opcode ∷ pc1) (opcode ∷ pc2) sols ≡ match_loop fuel pc1 pc2 sols
unfolding match_loop match_op bytes_eq
match_same fuel opcode pc1 pc2 sols l u =
    let p : opcode == 0xfb ≡ false = ground (arith, u) in
    let q : opcode == 0xfe ≡ false = ground (arith, u) in
    let r : opcode == 0xfd ≡ false = ground (arith, u) in
    let s : opcode == 0xfa ≡ false = ground (arith, u) in
    let e : opcode == opcode ≡ true = ground arith in
    rw (get_op_one opcode pc1 l, get_op_one opcode pc2 l, p, q, r, s, e) refl

get_op_uint160 :
    (h rest : Bytes) → length h ≡ 20 → get_op (push_uint160 h ++ rest) ≡ some ((20, h), rest)
get_op_uint160 h rest l =
    let g = get_op-push_data h rest (omega arith) in rw (push_uint160_data h l, l) at g

match_hash :
    (fuel : ℕ) (h pc1 pc2 : Bytes) (sols : List Bytes)
    → length h ≡ 20
    → match_loop (suc fuel) (push_uint160 h ++ pc1) (op_pubkeyhash ∷ pc2) sols
      ≡ match_loop fuel pc1 pc2 (sols ++ h ∷ [])
unfolding match_loop match_op
match_hash fuel h pc1 pc2 sols l =
    rw (get_op_uint160 h pc1 l, get_op_one op_pubkeyhash pc2 (omega arith), l) refl

-- The first template asks for a key, which is not there.
match_pubkey :
    (fuel : ℕ) (pc1 pc2 : Bytes) (sols : List Bytes)
    → match_loop (suc fuel) (0x76 ∷ pc1) (op_pubkey ∷ pc2) sols ≡ none
unfolding match_loop match_op
match_pubkey fuel pc1 pc2 sols =
    rw (get_op_one 0x76 pc1 (omega arith), get_op_one op_pubkey pc2 (omega arith)) refl

match_key_hash :
    (h : Bytes)
    → length h ≡ 20
    → match_loop 31 (set_destination (key_id h)) (0x76 ∷ 0xa9 ∷ op_pubkeyhash ∷ 0x88 ∷ 0xac ∷ []) []
      ≡ some (h ∷ [])
unfolding match_loop set_destination
match_key_hash h l =
    match_same 30 0x76 _ _ [] (omega arith) (omega arith)
    ∙ match_same 29 0xa9 _ _ [] (omega arith) (omega arith)
    ∙ match_hash 28 h (0x88 ∷ 0xac ∷ []) (0x88 ∷ 0xac ∷ []) [] l
    ∙ match_same 27 0x88 _ _ (h ∷ []) (omega arith) (omega arith)
    ∙ match_same 26 0xac [] [] (h ∷ []) (omega arith) (omega arith)

solver-key_id :
    (h : Bytes)
    → length h ≡ 20
    → solver (set_destination (key_id h)) ≡ solved true tx_pubkeyhash (h ∷ [])
unfolding solver scan_templates set_destination is_multisig
solver-key_id h l =
    let script : Bytes = 0xa9 ∷ push_uint160 h ++ 0x88 ∷ 0xac ∷ [] in
    rw (not_script_hash h l, length-set_destination h l, match_key_hash h l) (first script)
  where
    first :
        (pc : Bytes)
        → matched tx_pubkey
            (match_loop 28 (0x76 ∷ pc) (op_pubkey ∷ 0xac ∷ []) [])
            (solved true tx_pubkeyhash (h ∷ []))
          ≡ solved true tx_pubkeyhash (h ∷ [])
    first pc = rw (match_pubkey 27 pc (0xac ∷ []) []) refl

get_elem?-append : (xs : Bytes) (y : ℕ) (ys : Bytes) → get_elem? (xs ++ y ∷ ys) (length xs) ≡ some y
get_elem?-append [] y ys = refl
get_elem?-append (x ∷ xs) y ys = get_elem?-append xs y ys

pub script_hash_is :
    (h : Bytes) → length h ≡ 20 → is_pay_to_script_hash (set_destination (script_id h)) ≡ true
unfolding is_pay_to_script_hash set_destination
script_hash_is h l =
    let n : length (h ++ 0x87 ∷ []) ≡ 21 = ground (arith, l, length-append h (0x87 ∷ [])) in
    let last : get_elem? (h ++ 0x87 ∷ []) 20 ≡ some 0x87 = rw l at (get_elem?-append h 0x87 []) in
    rw (n, last) refl

solver-script_id :
    (h : Bytes)
    → length h ≡ 20
    → solver (set_destination (script_id h)) ≡ solved true tx_scripthash (h ∷ [])
unfolding solver set_destination
solver-script_id h l =
    let p : take 20 (h ++ 0x87 ∷ []) ≡ h = rw l at (take_prefix h (0x87 ∷ [])) in
    rw (script_hash_is h l, p) refl

-- A destination with a hash of 20 bytes.
abbrev pub HasHash : Destination → Type 0
HasHash no_destination = Unit
HasHash (key_id h) = length h ≡ 20
HasHash (script_id h) = length h ≡ 20

-- The destination that a script pays to is read back from the script, where it has one.
pub extract_destination-set_destination :
    (hash160 : Bytes → Bytes) (d : Destination)
    → HasHash d
    → d ≢ no_destination
    → extract_destination hash160 (set_destination d) ≡ some d
unfolding extract_destination destination_of
extract_destination-set_destination hash160 no_destination h n = absurd (n refl)
extract_destination-set_destination hash160 (key_id h) l n = rw (solver-key_id h l) refl
extract_destination-set_destination hash160 (script_id h) l n = rw (solver-script_id h l) refl
