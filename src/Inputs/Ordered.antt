-- ===== src/Inputs/Ordered.antt =====
-- The maps that `ConnectInputs` of src/main.cpp changes keep their keys in order, as `std::map` does.
use montecoin.Prelude.{
  ◌≡◌, sym, ℕ, ◌+◌, Bool, true, false, ◌||◌, List, [], ◌∷◌, if◌then◌else◌, nat_key,
}
use montecoin.Prelude.Dict
use montecoin.Prelude.Dict.{Dict, Ascending, insert-Ascending}
use montecoin.Tx.{TxIn, Transaction, is_coin_base}
use montecoin.Inputs.{TxIndex}
use montecoin.Inputs.Connect.{MapPrevTx, ok, Env, Mode, spend_input, spend_loop, connect_inputs}
use montecoin.Inputs.Outcome.{bind-ok, connect_inputs-ok}
use montecoin.Inputs.Marks.{with_mark}
use montecoin.Inputs.Spend.{spend_input_ok, ok_inj}

if-Ascending :
    (c : Bool) (k : ℕ) (t : TxIndex) (pool : Dict ℕ TxIndex)
    → Ascending pool
    → Ascending (if c then Dict.insert k t pool else pool)
if-Ascending true k t pool a = insert-Ascending k t pool a
if-Ascending false k t pool a = a

spend_loop-Ascending :
    (env : Env) (mode : Mode) (tx : Transaction) (i : ℕ) (vin : List TxIn) (inputs : MapPrevTx)
    (pool : Dict ℕ TxIndex) {s : MapPrevTx × Dict ℕ TxIndex}
    → spend_loop env mode tx i vin (inputs, pool) ≡ ok s
    → Ascending pool
    → Ascending s.1
unfolding spend_loop
spend_loop-Ascending env mode tx i [] inputs pool h a = rw (sym (ok_inj h)) a
spend_loop-Ascending env mode tx i (txin ∷ vin) inputs pool h a =
    let (s₁, e₁, h₁) =
      bind-ok (spend_input env mode tx i txin (inputs, pool)) (spend_loop env mode tx (i + 1) vin)
        h in
    let (e, p, found, at, null, sig, eq) = spend_input_ok env mode tx i txin inputs pool e₁ in
    spend_loop-Ascending env mode tx (i + 1) vin s₁.0 s₁.1 h₁ (
      rw eq (
        if-Ascending (mode.f_block || mode.f_miner) txin.prevout.hash
          (with_mark e.0 txin.prevout.n mode.pos_this_tx) pool a))

pub connect_inputs-Ascending :
    (env : Env) (mode : Mode) (tx : Transaction) (inputs : MapPrevTx) (pool pool' : Dict ℕ TxIndex)
    → is_coin_base tx ≡ false
    → connect_inputs env mode tx inputs pool ≡ ok pool'
    → Ascending pool
    → Ascending pool'
connect_inputs-Ascending env mode tx inputs pool pool' nb h a =
    let (v, s, e₁, e₂, e₃, e₄) = connect_inputs-ok env mode tx inputs pool nb h in
    rw (← e₄) (spend_loop-Ascending env mode tx 0 tx.vin inputs pool e₂ a)
