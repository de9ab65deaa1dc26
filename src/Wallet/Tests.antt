-- ===== src/Wallet/Tests.antt =====
-- A choice of coins, and the theorem about it.
use montecoin.Prelude.{ℕ, ◌≡◌, refl, false, [], ◌∷◌, List, some, leb, arith}
use montecoin.Prelude.Int.{ℤ, pos, ◌≤ℤ◌, ◌+ℤ◌}
use montecoin.Wallet.{Coin, Demand, select_coins_min_conf}
use montecoin.Wallet.Sums.{total}
use montecoin.Wallet.Eligible.{eligible}
use montecoin.Wallet.Selected.{Pays, select_coins_min_conf-Pays}

abbrev coin : ℕ → ℕ → ℤ → Coin
coin tx value depth = record {
  tx = tx;
  i = 0;
  n_value = pos value;
  n_time = 100;
  n_depth = depth;
  is_from_me = false;
}

-- The last coin has too few confirmations.
abbrev coins : List Coin
coins =
    coin 1 3_000_000 (pos 9)
    ∷ coin 2 2_000_000 (pos 9)
    ∷ coin 3 4_000_000 (pos 9)
    ∷ coin 4 5_000_000 (pos 2)
    ∷ []

abbrev demand : Demand
demand = record {
  n_target_value = pos 5_000_000;
  n_spend_time = 200;
  n_conf_mine = pos 1;
  n_conf_theirs = pos 6;
}

two_coins :
    select_coins_min_conf demand (λ rep i. leb 1 i) (λ rep i. false) coins
    ≡ some (coin 1 3_000_000 (pos 9) ∷ coin 2 2_000_000 (pos 9) ∷ [], pos 5_000_000)
unfolding select_coins_min_conf montecoin.Wallet.choose montecoin.Wallet.scan_loop
    montecoin.Prelude.Int64.add montecoin.Wallet.best_subset
    montecoin.Wallet.approximate_best_subset montecoin.Wallet.approximate_loop
    montecoin.Wallet.repetition montecoin.Wallet.pass_loop montecoin.Wallet.sort_by_value
    montecoin.Wallet.insert_by_value
two_coins = refl

select_coins_min_conf-Pays_example :
    Pays demand
      (λ c. pos 6 ≤ℤ c.n_depth)
      (total (eligible demand coins))
      (select_coins_min_conf demand (λ rep i. leb 1 i) (λ rep i. false) coins)
unfolding ◌+ℤ◌
select_coins_min_conf-Pays_example =
    select_coins_min_conf-Pays demand (λ c. pos 6 ≤ℤ c.n_depth) (λ rep i. leb 1 i) (λ rep i. false)
      coins ((omega arith, (omega arith, (omega arith, (omega arith, tt)))), omega arith)
      (omega arith, omega arith) (omega arith, (omega arith, (omega arith, tt)))
