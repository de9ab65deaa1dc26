-- ===== src/Inputs/Value.antt =====
-- What the first loop of `ConnectInputs` of src/main.cpp adds up: the outputs that a transaction spends.
use montecoin.Prelude.{
  ◌≡◌, refl, sym, ◌∙◌, false, true, List, [], ◌∷◌, get_elem?, arith, nat_key, Option-cases, inl,
  inr,
}
use montecoin.Prelude.Int.{ℤ, pos, ◌≤ℤ◌, ◌+ℤ◌, int_laws, +ℤ_assoc}
use montecoin.Prelude.Int64
use montecoin.Prelude.Dict
use montecoin.Tx.{TxIn, TxOut, Transaction, is_coin_base}
use montecoin.Tx.Money.{money_range, max_money}
use montecoin.Tx.Value.{total, AllInRange, money_range_iff, add_in_range, zero_+ℤ}
use montecoin.Inputs.Connect.{
  MapPrevTx, ok, Env, get_output_for, value_in_loop, get_value_in, check_input, check_loop,
}
use montecoin.Inputs.Outcome.{bind-ok}

-- The outputs that the inputs name, one for each input.
abbrev pub Spends : MapPrevTx → List TxIn → List TxOut → Type 0
Spends inputs [] [] = Unit {0}
Spends inputs [] (o ∷ outs) = ⊥
Spends inputs (txin ∷ vin) [] = ⊥
Spends inputs (txin ∷ vin) (o ∷ outs) = (get_output_for inputs txin ≡ ok o) × Spends inputs vin outs

-- What one round of the first loop has found.
check_input_ok :
    (env : Env) (inputs : MapPrevTx) (tx : Transaction) (acc : ℤ) (txin : TxIn) {v : ℤ}
    → check_input env inputs tx acc txin ≡ ok v
    → (o : TxOut) × (get_output_for inputs txin ≡ ok o)
      × (v ≡ Int64.add acc o.n_value)
      × (money_range o.n_value ≡ true)
      × (money_range v ≡ true)
unfolding check_input get_output_for
check_input_ok env inputs tx acc txin {v} h =
    elim (Option-cases (Dict.lookup txin.prevout.hash inputs)) [
      | inl miss ↦ absurd (ground arith)
      | inr (e, found) ↦ elim (Option-cases (get_elem? e.1.vout txin.prevout.n)) [
        | inl miss ↦ absurd (ground arith)
        | inr (o, out) ↦ (o, ground arith, ground arith, ground arith, ground arith)
      ]
    ]

-- The first loop adds up the spent outputs: each of them is an amount in range, and so is the sum,
-- which is the unbounded one.
check_loop_ok :
    (env : Env) (inputs : MapPrevTx) (tx : Transaction) (acc : ℤ) (vin : List TxIn) {v : ℤ}
    → money_range acc ≡ true
    → check_loop env inputs tx acc vin ≡ ok v
    → (outs : List TxOut) × Spends inputs vin outs
      × AllInRange outs
      × (v ≡ acc +ℤ total outs)
      × (value_in_loop inputs acc vin ≡ ok v)
      × (money_range v ≡ true)
unfolding check_loop value_in_loop
check_loop_ok env inputs tx acc [] {v} r h =
    let e : acc ≡ v = cc in
    let z : acc ≡ acc +ℤ pos 0 = omega int_laws in ([], tt, tt, sym e ∙ z, h, rw (← e) r)
check_loop_ok env inputs tx acc (txin ∷ vin) {v} r h =
    let (v', e, h') =
      bind-ok (check_input env inputs tx acc txin) (λ n. check_loop env inputs tx n vin) h in
    let (o, out, add, amount, r') = check_input_ok env inputs tx acc txin e in
    let (outs, s, a, sum, loop, r'') = check_loop_ok env inputs tx v' vin r' h' in
    let in_range = (money_range_iff o.n_value).0 amount in
    let exact = add_in_range acc o.n_value ((money_range_iff acc).0 r) in_range in
    (
      o ∷ outs,
      (out, s),
      (in_range, a),
      sum ∙ rw (add, exact) (+ℤ_assoc acc o.n_value (total outs)),
      rw (out, ← add) loop,
      r'',
    )

-- A transaction that passes the loop spends outputs that are there, each of them an amount; their sum,
-- with no bound, is what `GetValueIn` returns, and is in range.
pub get_value_in-check_loop :
    (env : Env) (inputs : MapPrevTx) (tx : Transaction) {v : ℤ}
    → is_coin_base tx ≡ false
    → check_loop env inputs tx (pos 0) tx.vin ≡ ok v
    → (outs : List TxOut) × Spends inputs tx.vin outs
      × AllInRange outs
      × (get_value_in inputs tx ≡ ok v)
      × (v ≡ total outs)
      × (pos 0 ≤ℤ v)
      × (v ≤ℤ pos max_money)
unfolding get_value_in money_range
get_value_in-check_loop env inputs tx nb h =
    let (outs, s, a, sum, loop, m) = check_loop_ok env inputs tx (pos 0) tx.vin refl h in
    let r = (money_range_iff _).0 m in
    let z : pos 0 +ℤ total outs ≡ total outs = zero_+ℤ (total outs) in
    (outs, s, a, rw nb loop, sum ∙ z, r.0, r.1)
