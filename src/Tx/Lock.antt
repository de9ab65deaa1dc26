-- ===== src/Tx/Lock.antt =====
-- When a transaction is final: `CTransaction::IsFinal` and `setDepositID` of src/main.h.
use montecoin.Prelude.{
  ℕ, suc, ◌+◌, ◌-◌, ◌%◌, ◌^◌, ◌≡◌, Bool, true, false, List, [], ◌∷◌, arith, ltb, ◌==◌,
  if◌then◌else◌,
}
use montecoin.Prelude.Int.{ℤ, pos, ltb_ℤ, ◌≤ℤ◌}
use montecoin.Tx.{TxIn, Transaction, uint_max, is_zero}

abbrev pub locktime_threshold : ℕ
locktime_threshold = 500_000_000

abbrev pub locktime_threshold_deposit_id : ℕ
locktime_threshold_deposit_id = 1_400_000_000

-- `CTxIn::IsFinal`
unfoldable pub tx_in_is_final : TxIn → Bool
tx_in_is_final txin = txin.n_sequence == uint_max

-- The loop of `IsFinal` over the inputs.
unfoldable pub all_final : List TxIn → Bool
unfolding tx_in_is_final
all_final [] = true
all_final (txin ∷ vin) = if tx_in_is_final txin then all_final vin else false

-- `n_best_height` and `adjusted_time` stand for the height or the time where 0 is given.
unfoldable pub is_final : ℤ → ℤ → Transaction → ℤ → ℤ → Bool
unfolding all_final
is_final n_best_height adjusted_time tx n_block_height n_block_time =
    if tx.n_lock_time == 0
    then true
    else (let height = (if is_zero n_block_height then n_best_height else n_block_height) in
        let time = (if is_zero n_block_time then adjusted_time else n_block_time) in
        if ltb_ℤ (pos tx.n_lock_time)
          (if ltb tx.n_lock_time locktime_threshold then height else time)
        then true
        else all_final tx.vin)

-- `false` for an id that is too large; the sum is an unsigned int.
unfoldable pub set_deposit_id : ℕ → Transaction → Transaction × Bool
set_deposit_id n_deposit_id tx =
    if ltb (locktime_threshold_deposit_id - locktime_threshold) n_deposit_id
    then (tx, false)
    else (record tx { n_lock_time = (locktime_threshold + n_deposit_id) % 2 ^ 32 }, true)

-- A transaction that is final at a height and a time stays final at every later height and time.
is_final_mono :
    (best now : ℤ) (tx : Transaction) (h h' t t' : ℤ)
    → pos 1 ≤ℤ h
    → pos 1 ≤ℤ t
    → h ≤ℤ h'
    → t ≤ℤ t'
    → is_final best now tx h t ≡ true
    → is_final best now tx h' t' ≡ true
unfolding is_final
is_final_mono best now tx h h' t t' ph pt hh tt' f = ground arith

-- A deposit id that is accepted makes the transaction final at every height once the time is past
-- the largest lock time of a deposit, and keeps all but the lock time.
set_deposit_id-is_final :
    (id : ℕ) (tx : Transaction) (best now h t : ℤ)
    → (set_deposit_id id tx).1 ≡ true
    → pos (suc locktime_threshold_deposit_id) ≤ℤ t
    → (is_final best now (set_deposit_id id tx).0 h t ≡ true)
      × ((set_deposit_id id tx).0.vin ≡ tx.vin)
      × ((set_deposit_id id tx).0.vout ≡ tx.vout)
unfolding set_deposit_id is_final
set_deposit_id-is_final id tx best now h t ok late = ground arith
