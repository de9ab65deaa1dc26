-- ===== src/Tx/Money.antt =====
-- Amounts: the constants of src/main.h and src/util.h, and `MoneyRange`.
use montecoin.Prelude.{ℕ, ◌*◌, Bool, ◌&&◌}
use montecoin.Prelude.Int.{ℤ, pos, leb_ℤ}

abbrev pub coin : ℕ
coin = 100_000_000

abbrev pub cent : ℕ
cent = 1_000_000

abbrev pub max_money : ℕ
max_money = 42_000_000 * coin

abbrev pub min_tx_fee : ℕ
min_tx_fee = cent

abbrev pub min_relay_tx_fee : ℕ
min_relay_tx_fee = cent

unfoldable pub money_range : ℤ → Bool
money_range n_value = leb_ℤ (pos 0) n_value && leb_ℤ n_value (pos max_money)
