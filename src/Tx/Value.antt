-- ===== src/Tx/Value.antt =====
-- The value of a transaction's outputs: `CTransaction::GetValueOut` of src/main.h.
use montecoin.Prelude.{
  ◌≡◌, ◌↔◌, sym, ◌∙◌, true, ◌&&◌, List, [], ◌∷◌, Option, none, some, arith, if◌then◌else◌, ap,
  if_some, &&-eq-true,
}
use montecoin.Prelude.Int.{ℤ, pos, ◌+ℤ◌, ◌-ℤ◌, ◌≤ℤ◌, int_laws, +ℤ_assoc}
use montecoin.Prelude.Int64
use montecoin.Prelude.Int64.{add_fits, sub_fits}
use montecoin.Tx.Money.{money_range, max_money}
use montecoin.Tx.{TxOut}

-- The loop of `GetValueOut`; `none` is the exception that it throws.
unfoldable pub value_out_loop : ℤ → List TxOut → Option ℤ
value_out_loop n_value_out [] = some n_value_out
value_out_loop n_value_out (txout ∷ vout) =
    let n_value_out' = Int64.add n_value_out txout.n_value in
    let rest = value_out_loop n_value_out' vout in
    if money_range txout.n_value && money_range n_value_out' then rest else none

unfoldable pub get_value_out : List TxOut → Option ℤ
unfolding value_out_loop
get_value_out vout = value_out_loop (pos 0) vout

-- The sum of the values, with no bound.
abbrev pub total : List TxOut → ℤ
total [] = pos 0
total (txout ∷ vout) = txout.n_value +ℤ total vout

-- Every value lies between 0 and the money supply's limit.
abbrev pub AllInRange : List TxOut → Type 0
AllInRange [] = Unit {0}
AllInRange (txout ∷ vout) =
    ((pos 0 ≤ℤ txout.n_value) × (txout.n_value ≤ℤ pos max_money)) × AllInRange vout

pub money_range_iff : (v : ℤ) → (money_range v ≡ true) ↔ ((pos 0 ≤ℤ v) × (v ≤ℤ pos max_money))
unfolding money_range
money_range_iff v = ground arith

-- Two amounts in range are added without a wrap-around.
pub add_in_range :
    (a b : ℤ)
    → (pos 0 ≤ℤ a) × (a ≤ℤ pos max_money)
    → (pos 0 ≤ℤ b) × (b ≤ℤ pos max_money)
    → Int64.add a b ≡ a +ℤ b
unfolding ◌+ℤ◌
add_in_range a b ha hb = add_fits a b (ground arith) (ground arith)

pub sub_in_range :
    (a b : ℤ)
    → (pos 0 ≤ℤ a) × (a ≤ℤ pos max_money)
    → (pos 0 ≤ℤ b) × (b ≤ℤ pos max_money)
    → Int64.sub a b ≡ a -ℤ b
unfolding ◌-ℤ◌
sub_in_range a b ha hb = sub_fits a b (ground arith) (ground arith)

pub total_nonneg : (vout : List TxOut) → AllInRange vout → pos 0 ≤ℤ total vout
total_nonneg [] h = omega arith
total_nonneg (txout ∷ vout) h = omega (int_laws, total_nonneg vout h.1)

+ℤ_zero : (a : ℤ) → a +ℤ pos 0 ≡ a
+ℤ_zero a = omega int_laws

pub zero_+ℤ : (a : ℤ) → pos 0 +ℤ a ≡ a
zero_+ℤ a = omega int_laws

value_out_loop_sound :
    (acc : ℤ) (vout : List TxOut) (v : ℤ)
    → (pos 0 ≤ℤ acc) × (acc ≤ℤ pos max_money)
    → value_out_loop acc vout ≡ some v
    → (v ≡ acc +ℤ total vout) × AllInRange vout × (v ≤ℤ pos max_money)
unfolding value_out_loop
value_out_loop_sound acc [] v h e =
    let e' : acc ≡ v = cc in (sym e' ∙ sym (+ℤ_zero acc), tt, rw (← e') h.1)
value_out_loop_sound acc (txout ∷ vout) v h e =
    let g = if_some (money_range txout.n_value && money_range (Int64.add acc txout.n_value)) _ e in
    let c = &&-eq-true (money_range txout.n_value) _ g.0 in
    let r = (money_range_iff txout.n_value).0 c.0 in
    let s = add_in_range acc txout.n_value h r in
    let t =
      value_out_loop_sound (Int64.add acc txout.n_value) vout v ((money_range_iff _).0 c.1) g.1 in
    (t.0 ∙ rw s (+ℤ_assoc acc txout.n_value (total vout)), (r, t.1), t.2)

value_out_loop_complete :
    (acc : ℤ) (vout : List TxOut)
    → (pos 0 ≤ℤ acc)
    → AllInRange vout
    → acc +ℤ total vout ≤ℤ pos max_money
    → value_out_loop acc vout ≡ some (acc +ℤ total vout)
unfolding value_out_loop
value_out_loop_complete acc [] h r b = ap some (omega int_laws)
value_out_loop_complete acc (txout ∷ vout) h r b =
    let n = total_nonneg vout r.1 in
    let s = add_in_range acc txout.n_value (h, omega (int_laws, n)) r.0 in
    let m : money_range (Int64.add acc txout.n_value) ≡ true =
      (money_range_iff _).1 (rw s (omega int_laws, omega (int_laws, n))) in
    let t =
      value_out_loop_complete (acc +ℤ txout.n_value) vout (omega int_laws) r.1
        (rw (+ℤ_assoc acc txout.n_value (total vout)) b) in
    rw ((money_range_iff txout.n_value).1 r.0, m, s)
      (t ∙ ap some (+ℤ_assoc acc txout.n_value (total vout)))

-- `GetValueOut` returns exactly the sum of the outputs, and throws unless every value and the sum
-- are amounts between 0 and the limit of the money supply.
pub get_value_out-some_iff :
    (vout : List TxOut) (v : ℤ)
    → (get_value_out vout ≡ some v) ↔ ((v ≡ total vout) × AllInRange vout × (v ≤ℤ pos max_money))
unfolding get_value_out
get_value_out-some_iff vout v = (
  λ e.
      let t = value_out_loop_sound (pos 0) vout v (omega arith, omega arith) e in
      (t.0 ∙ zero_+ℤ (total vout), t.1, t.2),
  λ h.
      let t =
        value_out_loop_complete (pos 0) vout (omega arith) h.1
          (rw (zero_+ℤ (total vout), ← h.0) h.2) in
      t ∙ ap some (zero_+ℤ (total vout) ∙ sym h.0),
)
