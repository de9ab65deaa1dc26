-- ===== src/Inputs/Spend.antt =====
-- The second loop of `ConnectInputs` of src/main.cpp, which marks the outputs that are spent.
use montecoin.Prelude.{
  Bool-cases, sym, ap, ℕ, ◌+◌, ◌≡◌, ◌≢◌, refl, ◌∙◌, Bool, true, false, not, ◌||◌, List, [], ◌∷◌,
  Option, none, some, get_elem?, arith, ◌==◌, if◌then◌else◌, nat_key, Option-cases, inl, inr,
}
use montecoin.Prelude.Dict
use montecoin.Prelude.Dict.{Dict, lookup-insert}
use montecoin.Tx.{OutPoint, TxIn, Transaction, out_point_eq, out_point_eq_iff, out_point_key}
use montecoin.Tx.Check.Duplicates.{NoneSpends, DistinctPrevouts}
use montecoin.Inputs.{DiskTxPos, TxIndex, is_null_pos}
use montecoin.Inputs.Connect.{
  MapPrevTx, Outcome, ok, refused, thrown, aborted, ◌>>=◌, refuse_if, Env, Mode, check_signature,
  spend_input, spend_loop,
}
use montecoin.Inputs.Outcome.{bind-ok}
use montecoin.Inputs.Marks.{mark, mark-set, with_mark, spends}

abbrev pub entry_index : Option (TxIndex × Transaction) → Option TxIndex
entry_index none = none
entry_index (some e) = some e.0

abbrev pub index_of : MapPrevTx → ℕ → Option TxIndex
index_of inputs h = entry_index (Dict.lookup h inputs)

-- The mark of an output among the spent transactions.
abbrev pub spent_at : MapPrevTx → OutPoint → Option DiskTxPos
spent_at inputs r = mark (index_of inputs r.hash) r.n

-- The output is there and not spent.
abbrev pub IsUnspent : MapPrevTx → OutPoint → Type 0
IsUnspent inputs r = (p : DiskTxPos) × (spent_at inputs r ≡ some p) × (is_null_pos p ≡ true)

checked_ok :
    {B : Type 0} (c : Bool) (m : Outcome (Unit {0})) (b : B) {b' : B}
    → (refuse_if (not c) 0 >>= λ _. m >>= λ _. ok b) ≡ ok b'
    → (c ≡ true) × (m ≡ ok tt) × (b' ≡ b)
checked_ok true (ok u) b h = (refl, refl, cc)
checked_ok true (refused n) b h = cc
checked_ok true thrown b h = cc
checked_ok true aborted b h = cc
checked_ok false m b h = cc

pub ok_inj : {B : Type 0} {a b : B} → ok a ≡ ok b → a ≡ b
ok_inj h = cc

-- What one round that goes well has found, and what it leaves.
pub spend_input_ok :
    (env : Env) (mode : Mode) (tx : Transaction) (i : ℕ) (txin : TxIn) (inputs : MapPrevTx)
    (pool : Dict ℕ TxIndex) {s : MapPrevTx × Dict ℕ TxIndex}
    → spend_input env mode tx i txin (inputs, pool) ≡ ok s
    → (e : TxIndex × Transaction) × (p : DiskTxPos) × (Dict.lookup txin.prevout.hash inputs
        ≡ some e)
      × (get_elem? e.0.v_spent txin.prevout.n ≡ some p)
      × (is_null_pos p ≡ true)
      × (check_signature env mode e.1 tx i ≡ ok tt)
      × (s ≡ (
        Dict.insert txin.prevout.hash (with_mark e.0 txin.prevout.n mode.pos_this_tx, e.1) inputs,
        (if mode.f_block || mode.f_miner
            then Dict.insert txin.prevout.hash (with_mark e.0 txin.prevout.n mode.pos_this_tx) pool
            else pool),
      ))
unfolding spend_input
spend_input_ok env mode tx i txin inputs pool h =
    elim (Option-cases (Dict.lookup txin.prevout.hash inputs)) [
      | inl miss ↦ absurd (ground arith)
      | inr (e, found) ↦ elim (Option-cases (get_elem? e.0.v_spent txin.prevout.n)) [
        | inl miss ↦ absurd (ground arith)
        | inr (p, at) ↦
            let c =
              checked_ok (is_null_pos p) (check_signature env mode e.1 tx i) _
                (rw (found, at) at h) in
            (e, p, found, at, c.0, c.1, c.2)
      ]
    ]

pub index_of-insert :
    (k h : ℕ) (t : TxIndex) (x : Transaction) (inputs : MapPrevTx)
    → index_of (Dict.insert k (t, x) inputs) h ≡ (if k == h then some t else index_of inputs h)
index_of-insert k h t x inputs =
    rw (lookup-insert k h (t, x) inputs) (split (k == h) (Dict.lookup h inputs))
  where
    split :
        (c : Bool) (o : Option (TxIndex × Transaction))
        → entry_index (if c then some (t, x) else o) ≡ (if c then some t else entry_index o)
    split true o = refl
    split false o = refl

-- A round marks its own output, which was not spent, and no other.
spend_input_marks :
    (env : Env) (mode : Mode) (tx : Transaction) (i : ℕ) (txin : TxIn) (inputs : MapPrevTx)
    (pool : Dict ℕ TxIndex) {s : MapPrevTx × Dict ℕ TxIndex}
    → spend_input env mode tx i txin (inputs, pool) ≡ ok s
    → IsUnspent inputs txin.prevout
      × ((r : OutPoint)
          → spent_at s.0 r
            ≡ (if out_point_eq txin.prevout r then some mode.pos_this_tx else spent_at inputs r))
spend_input_marks env mode tx i txin inputs pool h =
    let (e, p, found, at, null, sig, eq) = spend_input_ok env mode tx i txin inputs pool h in
    let t = with_mark e.0 txin.prevout.n mode.pos_this_tx in
    let idx : index_of inputs txin.prevout.hash ≡ some e.0 = ap entry_index found in
    (
      (p, rw idx at, null),
      λ r.
          rw (eq, index_of-insert txin.prevout.hash r.hash t e.1 inputs)
            (mark-set (index_of inputs r.hash) e.0 txin.prevout r mode.pos_this_tx
              (λ same. rw (← same) idx) at),
    )

IsUnspent-before :
    (inputs inputs' : MapPrevTx) (p r : OutPoint) (q : DiskTxPos)
    → is_null_pos q ≡ false
    → spent_at inputs' r ≡ (if out_point_eq p r then some q else spent_at inputs r)
    → IsUnspent inputs' r
    → (p ≢ r) × IsUnspent inputs r
IsUnspent-before inputs inputs' p r q nq e (o, at, null) = elim (Bool-cases (out_point_eq p r)) [
  | inl b ↦ let same : some q ≡ some o = sym (rw b at e) ∙ at in absurd (ground arith)
  | inr b ↦ (
    λ same. absurd (ground (arith, b, (out_point_eq_iff p r).1 same)),
    (o, sym (rw b at e) ∙ at, null),
  )
]

-- Every input's output is there and not spent.
abbrev pub AllUnspent : MapPrevTx → List TxIn → Type 0
AllUnspent inputs [] = Unit {0}
AllUnspent inputs (txin ∷ vin) = IsUnspent inputs txin.prevout × AllUnspent inputs vin

AllUnspent-before :
    (inputs inputs' : MapPrevTx) (p : OutPoint) (q : DiskTxPos) (vin : List TxIn)
    → is_null_pos q ≡ false
    → ((r : OutPoint)
        → spent_at inputs' r ≡ (if out_point_eq p r then some q else spent_at inputs r))
    → AllUnspent inputs' vin
    → NoneSpends p vin × AllUnspent inputs vin
AllUnspent-before inputs inputs' p q [] nq e h = (tt, tt)
AllUnspent-before inputs inputs' p q (txin ∷ vin) nq e h =
    let a = IsUnspent-before inputs inputs' p txin.prevout q nq (e txin.prevout) h.0 in
    let b = AllUnspent-before inputs inputs' p q vin nq e h.1 in ((a.0, b.0), (a.1, b.1))

-- The loop that goes well spends different outputs, each there and not spent before, and marks these
-- and no others with the position of the transaction.
pub spend_loop_marks :
    (env : Env) (mode : Mode) (tx : Transaction) (i : ℕ) (vin : List TxIn) (inputs : MapPrevTx)
    (pool : Dict ℕ TxIndex) {s : MapPrevTx × Dict ℕ TxIndex}
    → is_null_pos mode.pos_this_tx ≡ false
    → spend_loop env mode tx i vin (inputs, pool) ≡ ok s
    → AllUnspent inputs vin
      × DistinctPrevouts vin
      × ((r : OutPoint)
          → spent_at s.0 r ≡ (if spends vin r then some mode.pos_this_tx else spent_at inputs r))
unfolding spend_loop
spend_loop_marks env mode tx i [] inputs pool nq h =
    (tt, tt, λ r. ap (λ x. spent_at x.0 r) (ok_inj (sym h)))
spend_loop_marks env mode tx i (txin ∷ vin) inputs pool nq h =
    let (s₁, e₁, h₁) =
      bind-ok (spend_input env mode tx i txin (inputs, pool)) (spend_loop env mode tx (i + 1) vin)
        h in
    let a = spend_input_marks env mode tx i txin inputs pool e₁ in
    let b = spend_loop_marks env mode tx (i + 1) vin s₁.0 s₁.1 nq h₁ in
    let c = AllUnspent-before inputs s₁.0 txin.prevout mode.pos_this_tx vin nq a.1 b.0 in
    ((a.0, c.1), (c.0, b.1), λ r. ground (arith, a.1 r, b.2 r))
