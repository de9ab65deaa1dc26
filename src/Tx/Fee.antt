-- ===== src/Tx/Fee.antt =====
-- The least fee of a transaction, `CTransaction::GetMinFee` of src/main.cpp.
use montecoin.Prelude.{
  ℕ, ◌+◌, ◌-◌, ◌*◌, ◌/◌, ◌%◌, ◌^◌, ◌≤◌, ◌<◌, ◌≡◌, refl, false, not, ◌&&◌, List, [], ◌∷◌, arith, leb,
  ◌==◌, if◌then◌else◌, Bool-cases, inl, inr, ap, ◌∙◌,
}
use montecoin.Prelude.Int.{ℤ, pos, ltb_ℤ}
use montecoin.Prelude.Int64
use montecoin.Prelude.Int64.{mul_fits}
use native.Mathlib.Nat.{mul-le-mul}
use Prim.Native.Nat.{min}
use montecoin.Tx.Money.{cent, max_money, min_tx_fee, min_relay_tx_fee, money_range}
use montecoin.Tx.{TxOut}
use montecoin.Tx.Check.{max_block_size}

abbrev pub max_block_size_gen : ℕ
max_block_size_gen = max_block_size / 2

-- `GetMinFee_mode`
pub data GetMinFeeMode : Type 0 where
  gmf_block gmf_relay gmf_send : GetMinFeeMode

abbrev pub base_fee : GetMinFeeMode → ℕ
base_fee gmf_block = min_tx_fee
base_fee gmf_relay = min_relay_tx_fee
base_fee gmf_send = min_tx_fee

-- The loop against dust.
unfoldable pub dust_fee : ℤ → ℤ → List TxOut → ℤ
dust_fee n_base_fee n_min_fee [] = n_min_fee
dust_fee n_base_fee n_min_fee (txout ∷ vout) =
    dust_fee n_base_fee (if ltb_ℤ txout.n_value (pos cent) then n_base_fee else n_min_fee) vout

-- `if (!MoneyRange(nMinFee)) nMinFee = MAX_MONEY;`
unfoldable pub cap_fee : ℤ → ℤ
cap_fee n_min_fee = if not (money_range n_min_fee) then pos max_money else n_min_fee

-- The price near a full block, for the unsigned int `nNewBlockSize`.
unfoldable pub raise_fee : ℕ → ℤ → ℤ
raise_fee n_new_block_size n_min_fee =
    if leb max_block_size_gen n_new_block_size
    then pos max_money
    else cap_fee
        (Int64.mul n_min_fee (pos (max_block_size_gen / (max_block_size_gen - n_new_block_size))))

unfoldable pub get_min_fee : List TxOut → ℕ → GetMinFeeMode → ℕ → ℤ
get_min_fee vout n_block_size mode n_bytes =
    let n_base_fee = pos (base_fee mode) in
    let n_new_block_size = (n_block_size + n_bytes) % 2 ^ 32 in
    let fee = Int64.mul (pos (1 + n_bytes / 1000)) n_base_fee in
    let n_min_fee = (if ltb_ℤ fee n_base_fee then dust_fee n_base_fee fee vout else fee) in
    if not (n_block_size == 1) && leb (max_block_size_gen / 2) n_new_block_size
    then raise_fee n_new_block_size n_min_fee
    else cap_fee n_min_fee

-- What the fee amounts to: a price for each thousand bytes begun, more of it in a block that is more
-- than half full, at most all the money.
abbrev pub min_fee : ℕ → GetMinFeeMode → ℕ → ℕ
min_fee n_block_size mode n_bytes =
    let price = (1 + n_bytes / 1000) * base_fee mode in
    let size = (n_block_size + n_bytes) % 2 ^ 32 in
    if not (n_block_size == 1) && leb (max_block_size_gen / 2) size
    then (if leb max_block_size_gen size
        then max_money
        else min max_money (price * (max_block_size_gen / (max_block_size_gen - size))))
    else min max_money price

cap_fee_lem : (n : ℕ) → cap_fee (pos n) ≡ pos (min max_money n)
unfolding cap_fee money_range
cap_fee_lem n = ground arith

price_le :
    (mode : GetMinFeeMode) (n : ℕ) → n < 2 ^ 32 → (1 + n / 1000) * base_fee mode ≤ 4_294_968_000_000
price_le gmf_block n h = omega arith
price_le gmf_relay n h = omega arith
price_le gmf_send n h = omega arith

price_ge : (mode : GetMinFeeMode) (n : ℕ) → base_fee mode ≤ (1 + n / 1000) * base_fee mode
price_ge gmf_block n = omega arith
price_ge gmf_relay n = omega arith
price_ge gmf_send n = omega arith

raise_fee_lem :
    (size price : ℕ)
    → price ≤ 4_294_968_000_000
    → raise_fee size (pos price)
      ≡ pos (
          if leb max_block_size_gen size
          then max_money
          else min max_money (price * (max_block_size_gen / (max_block_size_gen - size))))
unfolding raise_fee
raise_fee_lem size price h = elim (Bool-cases (leb max_block_size_gen size)) [
  | inl e ↦ rw e
  | inr e ↦
      let q : max_block_size_gen / (max_block_size_gen - size) ≤ 500_000 = omega arith in
      let b : price * (max_block_size_gen / (max_block_size_gen - size))
          ≤ 4_294_968_000_000 * 500_000 =
        mul-le-mul h q in
      rw (e, mul_fits price (max_block_size_gen / (max_block_size_gen - size)) (omega (arith, b)))
        (cap_fee_lem (price * (max_block_size_gen / (max_block_size_gen - size))))
]

-- The fee is what that price amounts to, for every size that an unsigned int holds: no product on the
-- way to it overflows an int64, and the rule against dust changes nothing.
pub get_min_fee_lem :
    (vout : List TxOut) (n_block_size : ℕ) (mode : GetMinFeeMode) (n_bytes : ℕ)
    → n_bytes < 2 ^ 32
    → get_min_fee vout n_block_size mode n_bytes ≡ pos (min_fee n_block_size mode n_bytes)
unfolding get_min_fee
get_min_fee_lem vout n_block_size mode n_bytes h =
    let l = price_le mode n_bytes h in
    let g = price_ge mode n_bytes in
    let m = mul_fits (1 + n_bytes / 1000) (base_fee mode) (omega (arith, l)) in
    let t : ltb_ℤ (pos ((1 + n_bytes / 1000) * base_fee mode)) (pos (base_fee mode)) ≡ false =
      ground (arith, g) in
    elim (Bool-cases (
      not (n_block_size == 1)
      && leb (max_block_size_gen / 2) ((n_block_size + n_bytes) % 2 ^ 32))) [
        | inl e ↦
            rw (m, t, e)
              (raise_fee_lem ((n_block_size + n_bytes) % 2 ^ 32)
                ((1 + n_bytes / 1000) * base_fee mode) l)
        | inr e ↦ rw (m, t, e) (cap_fee_lem ((1 + n_bytes / 1000) * base_fee mode))
      ]

-- The fee that consensus and relay ask for gives no size and is the same for every transaction.
pub get_min_fee_default :
    (vout : List TxOut) (mode : GetMinFeeMode)
    → (get_min_fee vout 1 mode 0 ≡ pos (base_fee mode))
      × (get_min_fee vout 1000 mode 0 ≡ pos (base_fee mode))
get_min_fee_default vout mode = (
  get_min_fee_lem vout 1 mode 0 (omega arith) ∙ ap pos (small mode),
  get_min_fee_lem vout 1000 mode 0 (omega arith) ∙ ap pos (small mode),
)
  where
    small : (mode : GetMinFeeMode) → min max_money ((1 + 0 / 1000) * base_fee mode) ≡ base_fee mode
    small gmf_block = refl
    small gmf_relay = refl
    small gmf_send = refl
