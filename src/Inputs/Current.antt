-- ===== src/Inputs/Current.antt =====
-- The entries of the transaction index that `FetchInputs` of src/main.cpp finds for a block: those that
-- the block has changed already, before those of the index.
use montecoin.Prelude.{
  ℕ, ◌≡◌, refl, sym, ap, ◌∙◌, Bool, true, false, ◌||◌, List, [], ◌∷◌, Option, none, some, length,
  leb, ◌==◌, if◌then◌else◌, nat_key, arith, Bool-cases, Option-cases, ==-cases, inl, inr,
}
use montecoin.Prelude.Dict
use montecoin.Prelude.Dict.{Dict}
use montecoin.Tx.{TxIn, Transaction, is_coin_base}
use montecoin.Inputs.{TxIndex, disk_tx_pos_eq}
use montecoin.Inputs.Connect.{MapPrevTx}
use montecoin.Inputs.Fetch.{
  fetched, Sources, pool_pos, first_found, find_index, with_index, fetch_entry, fetch_input,
  when_found, fetch_loop, in_range, range_loop, with_range, fetch_inputs,
}
use montecoin.Inputs.Spend.{index_of, index_of-insert}

-- The entry of a transaction as the block sees it.
abbrev pub current : (ℕ → Option TxIndex) → Dict ℕ TxIndex → ℕ → Option TxIndex
current read queued h = first_found true (Dict.lookup h queued) (read h)

-- The transactions that were fetched have the entries that the block sees.
abbrev pub Agrees : (ℕ → Option TxIndex) → Dict ℕ TxIndex → MapPrevTx → Type 0
Agrees read queued inputs =
    (h : ℕ) (t : TxIndex) → index_of inputs h ≡ some t → current read queued h ≡ some t

with_index_lem :
    (t : TxIndex) (o : Option Transaction) {e : TxIndex × Transaction}
    → with_index t o ≡ some e
    → t ≡ e.0
with_index_lem t none h = cc
with_index_lem t (some tx) h = cc

fetch_entry_index :
    (s : Sources) (hash : ℕ) (o : Option TxIndex) {e : TxIndex × Transaction}
    → fetch_entry s true hash o ≡ some e
    → o ≡ some e.0
fetch_entry_index s hash none h = cc
fetch_entry_index s hash (some t) h = elim (Bool-cases (disk_tx_pos_eq t.pos_on_disk pool_pos)) [
  | inl b ↦ ap some (with_index_lem t (Dict.lookup hash s.pool) (rw b at h))
  | inr b ↦ ap some (with_index_lem t (s.read_from_disk t.pos_on_disk) (rw b at h))
]

fetch_input_index :
    (s : Sources) (queued : Dict ℕ TxIndex) (hash : ℕ) {e : TxIndex × Transaction}
    → fetch_input s true queued hash ≡ some e
    → current s.read_tx_index queued hash ≡ some e.0
unfolding fetch_input find_index
fetch_input_index s queued hash h = fetch_entry_index s hash (current s.read_tx_index queued hash) h

Agrees-insert :
    (read : ℕ → Option TxIndex) (queued : Dict ℕ TxIndex) (inputs : MapPrevTx) (hash : ℕ)
    (e : TxIndex × Transaction)
    → current read queued hash ≡ some e.0
    → Agrees read queued inputs
    → Agrees read queued (Dict.insert hash e inputs)
Agrees-insert read queued inputs hash e c a h t i =
    let j : (if hash == h then some e.0 else index_of inputs h) ≡ some t =
      sym (index_of-insert hash h e.0 e.1 inputs) ∙ i in
    elim (==-cases hash h) [ inl (eq, b) ↦ rw (← eq) (c ∙ (rw b at j)) | inr b ↦ a h t (rw b at j) ]

fetch_loop-Agrees :
    (s : Sources) (queued : Dict ℕ TxIndex) (vin : List TxIn) (inputs : MapPrevTx)
    {inputs' : MapPrevTx}
    → fetch_loop s true queued vin inputs ≡ some inputs'
    → Agrees s.read_tx_index queued inputs
    → Agrees s.read_tx_index queued inputs'
unfolding fetch_loop
fetch_loop-Agrees s queued [] inputs h a = λ k t i. a k t (cc)
fetch_loop-Agrees s queued (txin ∷ vin) inputs {inputs'} h a =
    elim (Bool-cases (Dict.contains txin.prevout.hash inputs)) [
      | inl b ↦ fetch_loop-Agrees s queued vin inputs (rw b at h) a
      | inr b ↦
          let h' : when_found (fetch_input s true queued txin.prevout.hash)
                (λ e. fetch_loop s true queued vin (Dict.insert txin.prevout.hash e inputs))
              ≡ some inputs' =
            rw b at h in
          elim (Option-cases (fetch_input s true queued txin.prevout.hash)) [
            | inl n ↦ absurd (ground (arith, (rw n at h')))
            | inr (e, f) ↦
                fetch_loop-Agrees s queued vin (Dict.insert txin.prevout.hash e inputs) (rw f at h')
                  (Agrees-insert s.read_tx_index queued inputs txin.prevout.hash e
                    (fetch_input_index s queued txin.prevout.hash f) a)
          ]
    ]

range_loop_same :
    (inputs : MapPrevTx) (vin : List TxIn) {inputs' : MapPrevTx}
    → range_loop inputs vin ≡ fetched inputs'
    → inputs ≡ inputs'
unfolding range_loop
range_loop_same inputs [] h = cc
range_loop_same inputs (txin ∷ vin) {inputs'} h =
    step (Dict.lookup txin.prevout.hash inputs) (range_loop_same inputs vin) h
  where
    step :
        (o : Option (TxIndex × Transaction))
        → (range_loop inputs vin ≡ fetched inputs' → inputs ≡ inputs')
        → in_range o txin.prevout.n (range_loop inputs vin) ≡ fetched inputs'
        → inputs ≡ inputs'
    step none ih e = cc
    step (some x) ih e =
        elim (Bool-cases
          (leb (length x.1.vout) txin.prevout.n || leb (length x.0.v_spent) txin.prevout.n)) [
            | inl b ↦ absurd (ground (arith, (rw b at e)))
            | inr b ↦ ih (rw b at e)
          ]

none_yet : (read : ℕ → Option TxIndex) (queued : Dict ℕ TxIndex) → Agrees read queued []
unfolding Dict.lookup
none_yet read queued k t i = cc

-- What is fetched for a block has the entries that the block sees.
pub fetch_inputs-Agrees :
    (s : Sources) (queued : Dict ℕ TxIndex) (f_miner : Bool) (tx : Transaction) {inputs : MapPrevTx}
    → is_coin_base tx ≡ false
    → fetch_inputs s queued true f_miner tx ≡ fetched inputs
    → Agrees s.read_tx_index queued inputs
unfolding fetch_inputs
fetch_inputs-Agrees s queued f_miner tx {inputs} nb h =
    finish (fetch_loop s true queued tx.vin [])
      (λ m e. fetch_loop-Agrees s queued tx.vin [] e (none_yet s.read_tx_index queued)) (rw nb at h)
  where
    finish :
        (o : Option MapPrevTx)
        → ((m : MapPrevTx) → o ≡ some m → Agrees s.read_tx_index queued m)
        → with_range o tx.vin ≡ fetched inputs
        → Agrees s.read_tx_index queued inputs
    finish none a e = cc
    finish (some m) a e = rw (← range_loop_same m tx.vin e) (a m refl)
