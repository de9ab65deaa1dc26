-- ===== src/Inputs/View.antt =====
-- The outputs as a block sees them while `ConnectBlock` of src/main.cpp connects its transactions: the
-- marks in the queued changes, before those of the index.
use montecoin.Prelude.{
  ℕ, ◌≡◌, refl, sym, ap, ◌∙◌, Bool, true, false, List, [], ◌∷◌, Option, none, some, if◌then◌else◌,
  nat_key, arith, Bool-cases, ==-cases, inl, inr,
}
use montecoin.Prelude.Dict
use montecoin.Prelude.Dict.{Dict}
use montecoin.Tx.{OutPoint, TxIn, Transaction, is_coin_base, out_point_key}
use montecoin.Tx.Check.Duplicates.{DistinctPrevouts}
use montecoin.Inputs.{DiskTxPos, TxIndex, is_null_pos}
use montecoin.Inputs.Connect.{MapPrevTx, ok, Env, Mode, connect_inputs}
use montecoin.Inputs.Marks.{mark, spends, spends_from}
use montecoin.Inputs.Spend.{index_of, spent_at, IsUnspent, AllUnspent}
use montecoin.Inputs.Pool.{connect_inputs_entries, spends→from}
use montecoin.Inputs.Current.{current, Agrees}

-- The mark of an output as the block sees it.
abbrev pub view : (ℕ → Option TxIndex) → Dict ℕ TxIndex → OutPoint → Option DiskTxPos
view read queued r = mark (current read queued r.hash) r.n

abbrev pub is_free : Option DiskTxPos → Bool
is_free none = false
is_free (some p) = is_null_pos p

-- Every input's output passes the test.
abbrev pub AllIn : (OutPoint → Bool) → List TxIn → Type 0
AllIn u [] = Unit {0}
AllIn u (txin ∷ vin) = (u txin.prevout ≡ true) × AllIn u vin

found_of :
    (o : Option TxIndex) (n : ℕ) {p : DiskTxPos} → mark o n ≡ some p → (t : TxIndex) × (o ≡ some t)
found_of none n h = cc
found_of (some t) n h = (t, refl)

-- What is fetched with an entry has the marks that the block sees.
view_of :
    (read : ℕ → Option TxIndex) (queued : Dict ℕ TxIndex) (inputs : MapPrevTx) (h : ℕ) (t : TxIndex)
    → Agrees read queued inputs
    → index_of inputs h ≡ some t
    → current read queued h ≡ index_of inputs h
view_of read queued inputs h t a i = a h t i ∙ sym i

unspent_view :
    (read : ℕ → Option TxIndex) (queued : Dict ℕ TxIndex) (inputs : MapPrevTx) (r : OutPoint)
    → Agrees read queued inputs
    → IsUnspent inputs r
    → is_free (view read queued r) ≡ true
unspent_view read queued inputs r a (p, at, null) =
    let (t, i) = found_of (index_of inputs r.hash) r.n at in
    let v : view read queued r ≡ some p =
      ap (λ o. mark o r.n) (view_of read queued inputs r.hash t a i) ∙ at in
    rw v null

AllUnspent-AllIn :
    (read : ℕ → Option TxIndex) (queued : Dict ℕ TxIndex) (inputs : MapPrevTx) (vin : List TxIn)
    → Agrees read queued inputs
    → AllUnspent inputs vin
    → AllIn (λ r. is_free (view read queued r)) vin
AllUnspent-AllIn read queued inputs [] a h = tt
AllUnspent-AllIn read queued inputs (txin ∷ vin) a h = (
  unspent_view read queued inputs txin.prevout a h.0,
  AllUnspent-AllIn read queued inputs vin a h.1,
)

-- A transaction that is spent from has an output that is spent.
spent_output :
    (inputs : MapPrevTx) (vin : List TxIn) (h : ℕ)
    → AllUnspent inputs vin
    → spends_from vin h ≡ true
    → (n : ℕ) × (spends vin (record { hash = h; n = n }) ≡ true)
      × (t : TxIndex) × (index_of inputs h ≡ some t)
spent_output inputs [] h a e = cc
spent_output inputs (txin ∷ vin) h a e = elim (==-cases txin.prevout.hash h) [
  | inl (eq, b) ↦
      let (p, at, null) = a.0 in
      let (t, i) = found_of (index_of inputs txin.prevout.hash) txin.prevout.n at in
      (txin.prevout.n, ground (arith, eq), t, rw (← eq) i)
  | inr b ↦
      let (n, s, t, i) = spent_output inputs vin h a.1 (rw b at e) in (n, ground (arith, s), t, i)
]

unspent_elsewhere :
    (vin : List TxIn) (r : OutPoint) → spends_from vin r.hash ≡ false → spends vin r ≡ false
unspent_elsewhere vin r f = elim (Bool-cases (spends vin r)) [
  | inl s ↦ absurd (ground (arith, f, spends→from vin r s))
  | inr s ↦ s
]

-- `ConnectInputs` in a block spends different outputs, which the block sees and sees not spent, and the
-- block then sees these spent and the others as before.
pub connect_inputs-view :
    (env : Env) (mode : Mode) (tx : Transaction) (read : ℕ → Option TxIndex) (inputs : MapPrevTx)
    (queued queued' : Dict ℕ TxIndex)
    → Agrees read queued inputs
    → is_coin_base tx ≡ false
    → mode.f_block ≡ true
    → is_null_pos mode.pos_this_tx ≡ false
    → connect_inputs env mode tx inputs queued ≡ ok queued'
    → AllIn (λ r. is_free (view read queued r)) tx.vin
      × DistinctPrevouts tx.vin
      × ((r : OutPoint)
          → view read queued' r
            ≡ (if spends tx.vin r then some mode.pos_this_tx else view read queued r))
connect_inputs-view env mode tx read inputs queued queued' a nb b nq h =
    let (m, all, d, e, c) = connect_inputs_entries env mode tx inputs queued queued' nb b nq h in
    (
      AllUnspent-AllIn read queued inputs tx.vin a all,
      d,
      λ r. elim (Bool-cases (spends_from tx.vin r.hash)) [
        | inl f ↦
            let (n, s, t, i) = spent_output inputs tx.vin r.hash all f in
            let at : spent_at m (record { hash = r.hash; n = n }) ≡ some mode.pos_this_tx =
              rw s at (e (record { hash = r.hash; n = n })) in
            let (t', i') = found_of (index_of m r.hash) n at in
            let l : Dict.lookup r.hash queued' ≡ some t' = (rw f at (c r.hash)) ∙ i' in
            let now : view read queued' r ≡ spent_at m r = rw (l, i') refl in
            let before = ap (λ o. mark o r.n) (view_of read queued inputs r.hash t a i) in
            now ∙ e r ∙ ap (λ o. if spends tx.vin r then some mode.pos_this_tx else o) (sym before)
        | inr f ↦
            let l : Dict.lookup r.hash queued' ≡ Dict.lookup r.hash queued = rw f at (c r.hash) in
            let s : spends tx.vin r ≡ false = unspent_elsewhere tx.vin r f in rw (l, s) refl
      ],
    )
