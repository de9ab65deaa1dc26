-- ===== src/Inputs/Marks.antt =====
-- The marks of spent outputs, `CTxIndex::vSpent` of src/main.h, as a function of the outpoint.
use montecoin.Prelude.{
  ==-cases, ℕ, ◌≡◌, Bool, false, ◌||◌, List, [], ◌∷◌, Option, none, some, get_elem?, set,
  get_elem?-set, ◌==◌, if◌then◌else◌, inl, inr,
}
use montecoin.Tx.{OutPoint, TxIn, out_point_key, out_point_eq}
use montecoin.Inputs.{DiskTxPos, TxIndex}

-- The mark of an output in the entry of its transaction, if there is one.
abbrev pub mark : Option TxIndex → ℕ → Option DiskTxPos
mark none n = none
mark (some t) n = get_elem? t.v_spent n

-- Whether an input spends the outpoint.
abbrev pub spends : List TxIn → OutPoint → Bool
spends [] r = false
spends (txin ∷ vin) r = out_point_eq txin.prevout r || spends vin r

-- Whether an input spends an output of the transaction.
abbrev pub spends_from : List TxIn → ℕ → Bool
spends_from [] h = false
spends_from (txin ∷ vin) h = (txin.prevout.hash == h) || spends_from vin h

abbrev pub with_mark : TxIndex → ℕ → DiskTxPos → TxIndex
with_mark t n p = record t { v_spent = set t.v_spent n p }

-- A mark that is set is seen at its own outpoint only.
pub mark-set :
    (e : Option TxIndex) (t : TxIndex) (prevout r : OutPoint) (p : DiskTxPos) {old : DiskTxPos}
    → (prevout.hash ≡ r.hash → e ≡ some t)
    → get_elem? t.v_spent prevout.n ≡ some old
    → mark (if prevout.hash == r.hash then some (with_mark t prevout.n p) else e) r.n
      ≡ (if out_point_eq prevout r then some p else mark e r.n)
mark-set e t prevout r p he h = elim (==-cases prevout.hash r.hash) [
  | inl (eq, b) ↦ rw (b, he eq, get_elem?-set t.v_spent prevout.n r.n p h)
  | inr b ↦ rw b
]
