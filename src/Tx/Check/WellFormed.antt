-- ===== src/Tx/Check/WellFormed.antt =====
-- What `CheckTransaction` accepts, said without its loops.
use montecoin.Prelude.{
  ℕ, ◌≤◌, ◌≡◌, ◌≢◌, ◌↔◌, refl, Bool, true, false, not, ◌&&◌, List, [], ◌∷◌, length, ltb, ◌==◌,
  if◌then◌else◌, arith, no_hit, Bool-cases, inl, inr,
}
use montecoin.Prelude.Int.{ℤ, pos, ◌+ℤ◌, ◌≤ℤ◌, +ℤ_assoc, int_laws}
use montecoin.Prelude.Int64
use montecoin.Tx.Codec.{transaction_codec}
use montecoin.Tx.Money.{money_range, max_money}
use montecoin.Tx.Value.{total, AllInRange, total_nonneg, add_in_range, money_range_iff}
use montecoin.Tx.{
  TxIn, TxOut, Transaction, is_null, is_empty, is_coin_base, is_coin_stake, out_point_key,
}
use montecoin.Tx.Check.Duplicates.{DistinctPrevouts, has_duplicate_lem}
use montecoin.Tx.Check.{
  Verdict, valid, invalid, and_then, check_outputs, has_null_prevout, coin_base_script_size,
  check_inputs, check_transaction, max_block_size,
}

-- No output is empty.
abbrev pub NoneEmpty : List TxOut → Type 0
NoneEmpty [] = Unit {0}
NoneEmpty (txout ∷ vout) = (is_empty txout ≡ false) × NoneEmpty vout

-- The outputs are amounts in range, with a sum in range, and in a user transaction none is empty.
pub record OutputsOk (user : Bool) (acc : ℤ) (vout : List TxOut) : Type 0 where
  pub in_range : AllInRange vout
  pub sum_in_range : acc +ℤ total vout ≤ℤ pos max_money
  pub none_empty : user ≡ true → NoneEmpty vout

-- What one round of the loop has checked.
check_outputs_round :
    (user : Bool) (acc : ℤ) (txout : TxOut) (vout : List TxOut)
    → check_outputs user acc (txout ∷ vout) ≡ valid
    → (user ≡ true → is_empty txout ≡ false)
      × (pos 0 ≤ℤ txout.n_value)
      × (txout.n_value ≤ℤ pos max_money)
      × (money_range (Int64.add acc txout.n_value) ≡ true)
      × (check_outputs user (Int64.add acc txout.n_value) vout ≡ valid)
unfolding check_outputs
check_outputs_round user acc txout vout e =
    (λ u. ground arith, ground arith, ground arith, ground arith, ground arith)

check_outputs_sound :
    (user : Bool) (acc : ℤ) (vout : List TxOut)
    → (pos 0 ≤ℤ acc) × (acc ≤ℤ pos max_money)
    → check_outputs user acc vout ≡ valid
    → OutputsOk user acc vout
unfolding check_outputs
check_outputs_sound user acc [] h e = record {
  in_range = tt;
  sum_in_range = omega int_laws;
  none_empty = λ u. tt;
}
check_outputs_sound user acc (txout ∷ vout) h e =
    let c = check_outputs_round user acc txout vout e in
    let s = add_in_range acc txout.n_value h (c.1, c.2) in
    let t =
      check_outputs_sound user (Int64.add acc txout.n_value) vout ((money_range_iff _).0 c.3) c.4 in
    record {
      in_range = ((c.1, c.2), t.in_range);
      sum_in_range = rw (← +ℤ_assoc acc txout.n_value (total vout), ← s) t.sum_in_range;
      none_empty = λ u. (c.0 u, t.none_empty u);
    }

check_outputs_complete :
    (user : Bool) (acc : ℤ) (vout : List TxOut)
    → pos 0 ≤ℤ acc
    → OutputsOk user acc vout
    → check_outputs user acc vout ≡ valid
unfolding check_outputs
check_outputs_complete user acc [] h o = refl
check_outputs_complete user acc (txout ∷ vout) h o =
    let r = o.in_range.0 in
    let n = total_nonneg vout o.in_range.1 in
    let s = add_in_range acc txout.n_value (h, omega (int_laws, n, o.sum_in_range)) r in
    let m : money_range (Int64.add acc txout.n_value) ≡ true =
      (money_range_iff _).1 (rw s (omega int_laws, omega (int_laws, n, o.sum_in_range))) in
    let rest : check_outputs user (acc +ℤ txout.n_value) vout ≡ valid =
      check_outputs_complete user (acc +ℤ txout.n_value) vout (omega int_laws) (record {
        in_range = o.in_range.1;
        sum_in_range = rw (+ℤ_assoc acc txout.n_value (total vout)) o.sum_in_range;
        none_empty = λ u. (o.none_empty u).1;
      }) in
    elim (Bool-cases user) [
      | inl u ↦ rw ((o.none_empty u).0, m, s) (ground (arith, rest))
      | inr u ↦ rw (u, m, s) (ground (arith, rest))
    ]

-- No input refers to the null outpoint.
abbrev pub NoneNull : List TxIn → Type 0
NoneNull [] = Unit {0}
NoneNull (txin ∷ vin) = (is_null txin.prevout ≡ false) × NoneNull vin

has_null_prevout_lem : (vin : List TxIn) → (has_null_prevout vin ≡ false) ↔ NoneNull vin
unfolding has_null_prevout
has_null_prevout_lem [] = (λ h. tt, λ h. refl)
has_null_prevout_lem (txin ∷ vin) =
    let ih = has_null_prevout_lem vin in
    let n = no_hit (is_null txin.prevout) (has_null_prevout vin) in
    (λ h. let s = n.0 h in (s.0, ih.0 s.1), λ h. n.1 (h.0, ih.1 h.1))

-- A transaction that is neither a coinbase nor a coinstake.
abbrev pub is_user : Transaction → Bool
is_user tx = not (is_coin_base tx) && not (is_coin_stake tx)

pub record IsWellFormed (tx : Transaction) : Type 0 where
  pub has_inputs : tx.vin ≢ []
  pub has_outputs : tx.vout ≢ []
  pub fits_block : transaction_codec.get_serialize_size tx ≤ max_block_size
  pub outputs : OutputsOk (is_user tx) (pos 0) tx.vout
  pub distinct : DistinctPrevouts tx.vin
  pub coin_base_script :
      is_coin_base tx ≡ true
      → (2 ≤ coin_base_script_size tx.vin) × (coin_base_script_size tx.vin ≤ 100)
  pub spends : is_coin_base tx ≡ false → NoneNull tx.vin

check_inputs_lem :
    (tx : Transaction)
    → (check_inputs tx ≡ valid) ↔ (
        DistinctPrevouts tx.vin
        × (is_coin_base tx ≡ true
            → (2 ≤ coin_base_script_size tx.vin) × (coin_base_script_size tx.vin ≤ 100))
        × (is_coin_base tx ≡ false → NoneNull tx.vin))
unfolding check_inputs
check_inputs_lem tx =
    let d = has_duplicate_lem tx.vin in
    let n = has_null_prevout_lem tx.vin in
    (
      λ h. (d.0 (ground arith), λ c. ground arith, λ c. n.0 (ground arith)),
      λ h. elim (Bool-cases (is_coin_base tx)) [
        | inl c ↦ let l = h.1 c in rw (d.1 h.0, c) (ground arith)
        | inr c ↦ rw (d.1 h.0, c, n.1 (h.2 c))
      ],
    )

and_then-valid : (v w : Verdict) → (and_then v w ≡ valid) ↔ ((v ≡ valid) × (w ≡ valid))
and_then-valid valid w = (λ h. (refl, h), λ h. h.1)
and_then-valid (invalid n) w = (λ h. cc, λ h. h.0)

some_items : {A : Type 0} (xs : List A) → ((length xs == 0) ≡ false) ↔ (xs ≢ [])
some_items [] = (λ h. cc, λ h. absurd (h refl))
some_items (x ∷ xs) = (λ h e. cc, λ h. ground arith)

refuse_if :
    (c : Bool) (n : ℕ) (v : Verdict)
    → ((if c then invalid n else v) ≡ valid) ↔ ((c ≡ false) × (v ≡ valid))
refuse_if true n v = (λ h. cc, λ h. cc)
refuse_if false n v = (λ h. (refl, h), λ h. h.1)

-- `CheckTransaction` accepts exactly the well-formed transactions: those with inputs and outputs that
-- fit a block, whose outputs are amounts with a sum in range, none of them empty in a user
-- transaction, that spend no outpoint twice, and none that is null unless in a coinbase, whose
-- script has between 2 and 100 bytes.
pub check_transaction-valid_iff :
    (tx : Transaction) → (check_transaction tx ≡ valid) ↔ IsWellFormed tx
unfolding check_transaction
check_transaction-valid_iff tx =
    let r₁ = refuse_if (length tx.vin == 0) 10 _ in
    let r₂ = refuse_if (length tx.vout == 0) 10 _ in
    let r₃ = refuse_if (ltb max_block_size (transaction_codec.get_serialize_size tx)) 100 _ in
    let a = and_then-valid (check_outputs (is_user tx) (pos 0) tx.vout) (check_inputs tx) in
    let i = check_inputs_lem tx in
    (
      λ h.
          let s₁ = r₁.0 h in
          let s₂ = r₂.0 s₁.1 in
          let s₃ = r₃.0 s₂.1 in
          let b = a.0 s₃.1 in
          let c = i.0 b.1 in
          record {
            has_inputs = (some_items tx.vin).0 s₁.0;
            has_outputs = (some_items tx.vout).0 s₂.0;
            fits_block = ground (arith, s₃.0);
            outputs =
                check_outputs_sound (is_user tx) (pos 0) tx.vout (omega arith, omega arith) b.0;
            distinct = c.0;
            coin_base_script = c.1;
            spends = c.2;
          },
      λ w. r₁.1 (
        (some_items tx.vin).1 w.has_inputs,
        r₂.1 (
          (some_items tx.vout).1 w.has_outputs,
          r₃.1 (
            ground (arith, w.fits_block),
            a.1 (
              check_outputs_complete (is_user tx) (pos 0) tx.vout (omega arith) w.outputs,
              i.1 (w.distinct, w.coin_base_script, w.spends),
            ),
          ),
        ),
      ),
    )
