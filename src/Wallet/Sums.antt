-- ===== src/Wallet/Sums.antt =====
-- The values of coins, added up without bounds and as src/wallet.cpp adds them.
use montecoin.Prelude.{◌≡◌, ◌∙◌, true, false, List, [], ◌∷◌, arith}
use montecoin.Prelude.Int.{ℤ, pos, ◌+ℤ◌, ◌≤ℤ◌, int_laws, +ℤ_assoc, eq_of_parts}
use montecoin.Prelude.Int64
use montecoin.Tx.Money.{max_money}
use montecoin.Tx.Value.{add_in_range}
use montecoin.Wallet.{Coin, Flags, flagged, add_values, eq_ℤ}

-- The sum of the values, with no bound.
abbrev pub total : List Coin → ℤ
total [] = pos 0
total (c ∷ coins) = c.n_value +ℤ total coins

abbrev pub All : (Coin → Type 0) → List Coin → Type 0
All P [] = Unit {0}
All P (c ∷ coins) = P c × All P coins

abbrev pub NonNegative : List Coin → Type 0
NonNegative coins = All (λ c. pos 0 ≤ℤ c.n_value) coins

-- The coins of a vector with flags.
abbrev pub coins_of : Flags → List Coin
coins_of [] = []
coins_of ((c, b) ∷ flags) = c ∷ coins_of flags

-- The coins are worth something between nothing and all the money.
abbrev pub InRange : List Coin → Type 0
InRange coins = NonNegative coins × (total coins ≤ℤ pos max_money)

pub total_nonneg : (coins : List Coin) → NonNegative coins → pos 0 ≤ℤ total coins
total_nonneg [] h = omega int_laws
total_nonneg (c ∷ coins) h = omega (int_laws, h.0, total_nonneg coins h.1)

-- What is flagged is worth at most all.
pub flagged_le :
    (flags : Flags)
    → NonNegative (coins_of flags)
    → (pos 0 ≤ℤ total (flagged flags)) × (total (flagged flags) ≤ℤ total (coins_of flags))
flagged_le [] h = (omega int_laws, omega int_laws)
flagged_le ((c, true) ∷ flags) h =
    let (a, b) = flagged_le flags h.1 in (omega (int_laws, h.0, a), omega (int_laws, b))
flagged_le ((c, false) ∷ flags) h =
    let (a, b) = flagged_le flags h.1 in (a, omega (int_laws, h.0, b))

-- The sum as it is added up, from a value on.
pub add_values_lem :
    (n : ℤ) (coins : List Coin)
    → NonNegative coins
    → pos 0 ≤ℤ n
    → n +ℤ total coins ≤ℤ pos max_money
    → add_values n coins ≡ n +ℤ total coins
add_values_lem n [] h p le = omega int_laws
add_values_lem n (c ∷ coins) h p le =
    let t = total_nonneg coins h.1 in
    let e : Int64.add n c.n_value ≡ n +ℤ c.n_value =
      add_in_range n c.n_value (p, omega (int_laws, h.0, le, t))
        (h.0, omega (int_laws, p, le, t)) in
    let ih =
      add_values_lem (n +ℤ c.n_value) coins h.1 (omega (int_laws, p, h.0)) (omega (int_laws, le)) in
    rw e (ih ∙ +ℤ_assoc n c.n_value (total coins))

pub eq_ℤ-true : (a b : ℤ) → eq_ℤ a b ≡ true → a ≡ b
eq_ℤ-true a b h = eq_of_parts a b (ground (arith, h))
