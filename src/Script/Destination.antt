-- ===== src/Script/Destination.antt =====
-- Destinations and the scripts that pay to them: `CScriptVisitor`, `SetMultisig`, `ExtractDestination`
-- and `ExtractDestinations` of src/script.cpp.
use montecoin.Prelude.{
  ℕ, ◌+◌, ◌-◌, List, [], ◌∷◌, ◌++◌, Option, none, some, length, take, drop, map, get_or, ◌==◌,
  if◌then◌else◌,
}
use montecoin.Script.{Bytes, ◌>>=◌, push_data, op_1}
use montecoin.Script.Solver.{
  TxnOutType, tx_nonstandard, tx_pubkey, tx_pubkeyhash, tx_scripthash, tx_multisig, solver,
  first_byte, is_multisig,
}

-- `CTxDestination`, with the bytes of the hash.
pub data Destination : Type 0 where
  no_destination : Destination
  key_id script_id : Bytes → Destination

-- What `operator<<` of a hash of 160 bits writes.
abbrev pub push_uint160 : Bytes → Bytes
push_uint160 b = 20 ∷ b

unfoldable pub set_destination : Destination → Bytes
set_destination no_destination = []
set_destination (key_id h) = 0x76 ∷ 0xa9 ∷ push_uint160 h ++ 0x88 ∷ 0xac ∷ []
set_destination (script_id h) = 0xa9 ∷ push_uint160 h ++ 0x87 ∷ []

-- `EncodeOP_N`, where its assertion holds.
abbrev pub encode_op_n : ℕ → ℕ
encode_op_n n = if n == 0 then 0 else op_1 + (n - 1)

abbrev pub push_keys : List Bytes → Bytes
push_keys [] = []
push_keys (key ∷ keys) = push_data key ++ push_keys keys

-- From the bytes of the keys.
unfoldable pub set_multisig : ℕ → List Bytes → Bytes
set_multisig n_required keys =
    encode_op_n n_required ∷ push_keys keys ++ encode_op_n (length keys) ∷ 0xae ∷ []

-- The first solution.
abbrev pub first : List Bytes → Bytes
first sols = get_or sols 0 []

unfoldable pub destination_of : (Bytes → Bytes) → TxnOutType → List Bytes → Option Destination
destination_of hash160 tx_nonstandard sols = none
destination_of hash160 tx_pubkey sols = some (key_id (hash160 (first sols)))
destination_of hash160 tx_pubkeyhash sols = some (key_id (first sols))
destination_of hash160 tx_scripthash sols = some (script_id (first sols))
destination_of hash160 tx_multisig sols = none

-- `CPubKey::GetID` is the hash of the key.
unfoldable pub extract_destination : (Bytes → Bytes) → Bytes → Option Destination
extract_destination hash160 script_pub_key =
    let s = solver script_pub_key in
    if s.result then destination_of hash160 s.type_ret s.v_solutions else none

-- The type, the addresses and how many signatures are asked for.
unfoldable pub extract_destinations :
    (Bytes → Bytes) → Bytes → Option (TxnOutType × List Destination × ℕ)
extract_destinations hash160 script_pub_key =
    let s = solver script_pub_key in
    let keys = take (length s.v_solutions - 2) (drop 1 s.v_solutions) in
    if s.result
    then (if is_multisig s.type_ret
        then some (s.type_ret, map (λ key. key_id (hash160 key)) keys, first_byte s.v_solutions)
        else (do
          address ← extract_destination hash160 script_pub_key
          some (s.type_ret, address ∷ [], 1)))
    else none
