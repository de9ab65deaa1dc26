-- ===== src/Inputs/Outcome.antt =====
-- What a call of src/main.cpp that ends well says of its steps.
use montecoin.Prelude.{◌≡◌, refl, Bool, true, false, ℕ}
use montecoin.Prelude.Int.{ℤ, pos}
use montecoin.Prelude.Dict.{Dict}
use montecoin.Tx.{Transaction, is_coin_base}
use montecoin.Inputs.{TxIndex}
use montecoin.Inputs.Connect.{
  Outcome, ok, refused, thrown, aborted, ◌>>=◌, refuse_if, Env, Mode, MapPrevTx, check_loop,
  spend_loop, settle, connect_inputs,
}

pub bind-ok :
    {A B : Type 0} (m : Outcome A) (f : A → Outcome B) {b : B}
    → (m >>= f) ≡ ok b
    → (a : A) × (m ≡ ok a) × (f a ≡ ok b)
bind-ok (ok a) f h = (a, refl, h)
bind-ok (refused n) f h = cc
bind-ok thrown f h = cc
bind-ok aborted f h = cc

pub refuse_if-ok :
    {B : Type 0} (c : Bool) (n : ℕ) (k : Unit {0} → Outcome B) {b : B}
    → (refuse_if c n >>= k) ≡ ok b
    → (c ≡ false) × (k tt ≡ ok b)
refuse_if-ok true n k h = cc
refuse_if-ok false n k h = (refl, h)

-- The four steps of `ConnectInputs` when it accepts a transaction that is not a coinbase.
pub connect_inputs-ok :
    (env : Env) (mode : Mode) (tx : Transaction) (inputs : MapPrevTx) (pool : Dict ℕ TxIndex)
    {pool' : Dict ℕ TxIndex}
    → is_coin_base tx ≡ false
    → connect_inputs env mode tx inputs pool ≡ ok pool'
    → (v : ℤ) × (s : MapPrevTx × Dict ℕ TxIndex) × (check_loop env inputs tx (pos 0) tx.vin ≡ ok v)
      × (spend_loop env mode tx 0 tx.vin (inputs, pool) ≡ ok s)
      × (settle env mode tx v ≡ ok tt)
      × (s.1 ≡ pool')
unfolding connect_inputs
connect_inputs-ok env mode tx inputs pool {pool'} nb h =
    let h₀ : (check_loop env inputs tx (pos 0) tx.vin >>= λ v.
    spend_loop env mode tx 0 tx.vin (inputs, pool) >>= λ s. settle env mode tx v >>= λ _. ok s.1)
        ≡ ok pool' =
      rw nb at h in
    let (v, e₁, h₁) =
      bind-ok (check_loop env inputs tx (pos 0) tx.vin)
        (λ v. spend_loop env mode tx 0 tx.vin (inputs, pool) >>= λ s.
          settle env mode tx v >>= λ _. ok s.1)
        h₀ in
    let (s, e₂, h₂) =
      bind-ok (spend_loop env mode tx 0 tx.vin (inputs, pool))
        (λ s. settle env mode tx v >>= λ _. ok s.1) h₁ in
    let (u, e₃, h₃) = bind-ok (settle env mode tx v) (λ _. ok s.1) h₂ in (v, s, e₁, e₂, e₃, cc)
