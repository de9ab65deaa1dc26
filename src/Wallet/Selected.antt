-- ===== src/Wallet/Selected.antt =====
-- What `SelectCoinsMinConf` of src/wallet.cpp returns.
use montecoin.Prelude.{
  ℕ, ◌≡◌, refl, sym, ◌∙◌, Bool, true, false, List, [], ◌∷◌, Option, none, some, arith, Bool-cases,
  inl, inr,
}
use mathlib.Core.List.{reverse_aux}
use montecoin.Prelude.Int.{ℤ, pos, ◌+ℤ◌, ◌≤ℤ◌, int_laws, ltb_ℤ}
use montecoin.Tx.Money.{max_money}
use montecoin.Wallet.{
  Coin, Flags, CoinScan, exact, scanned, Demand, scan_loop, sort_by_value, flagged, add_values,
  chosen, one_coin, prefers, pick_best, best_subset, choose, select_coins_min_conf, eq_ℤ,
}
use montecoin.Wallet.Sums.{
  All, total, NonNegative, InRange, coins_of, flagged_le, add_values_lem, eq_ℤ-true,
}
use montecoin.Wallet.Subset.{IsSubset}
use montecoin.Wallet.Best.{best_subset-IsSubset}
use montecoin.Wallet.Eligible.{
  eligible, eligible_le, reverse_aux-All, sort_by_value-All, reverse_aux-total, sort_by_value-total,
  LowestOk, ScanOk, scan_loop-ScanOk, at_least,
}

flagged-All : (P : Coin → Type 0) (flags : Flags) → All P (coins_of flags) → All P (flagged flags)
flagged-All P [] a = tt
flagged-All P ((c, true) ∷ flags) a = (a.0, flagged-All P flags a.1)
flagged-All P ((c, false) ∷ flags) a = flagged-All P flags a.1

less : (x y : ℤ) → ltb_ℤ x y ≡ true → x +ℤ pos 1 ≤ℤ y
unfolding ◌+ℤ◌
less x y h = ground (arith, h)

module _ (d : Demand) (P : Coin → Type 0) (all : ℤ) where
  -- The coins that are returned pay, and what is returned with them is their value; without any, all
  -- the coins are too little.
  abbrev pub Pays : Option (List Coin × ℤ) → Type 0
  Pays none = all +ℤ pos 1 ≤ℤ d.n_target_value
  Pays (some (coins, value)) =
      All P coins × (value ≡ total coins) × (d.n_target_value ≤ℤ value) × (value ≤ℤ all)

  chosen-Pays :
      (coins : List Coin)
      → all ≤ℤ pos max_money
      → All P coins
      → NonNegative coins
      → total coins ≤ℤ all
      → d.n_target_value ≤ℤ total coins
      → Pays (some (chosen coins))
  chosen-Pays coins m p n le pays =
      let e : add_values (pos 0) coins ≡ total coins =
        add_values_lem (pos 0) coins n (omega int_laws) (omega (int_laws, le, m))
        ∙ omega int_laws in
      (p, e, rw e pays, rw e le)

  one-Pays :
      (c : Coin)
      → all ≤ℤ pos max_money
      → P c
      → pos 0 ≤ℤ c.n_value
      → d.n_target_value ≤ℤ c.n_value
      → c.n_value ≤ℤ all
      → Pays (some (chosen (c ∷ [])))
  one-Pays c m p n pays le =
      chosen-Pays (c ∷ []) m (p, tt) (n, tt) (omega (int_laws, le)) (omega (int_laws, pays))

  pick_best-Pays :
      (coins : List Coin) (best : Flags × ℤ) (lowest : Option Coin)
      → all ≤ℤ pos max_money
      → All P coins
      → NonNegative coins
      → total coins ≤ℤ all
      → IsSubset coins d.n_target_value best.0 best.1
      → LowestOk d P all lowest
      → Pays (some (pick_best d.n_target_value best lowest))
  pick_best-Pays coins best lowest m p n le s lo = by_choice lowest lo
    where
      subset : Pays (some (chosen (flagged best.0)))
      subset =
          let n' : NonNegative (coins_of best.0) = rw s.over n in
          let (a, b) = flagged_le best.0 n' in
          let b' : total (flagged best.0) ≤ℤ total coins = rw s.over at b in
          chosen-Pays (flagged best.0) m (flagged-All P best.0 (rw s.over p))
            (flagged-All (λ c. pos 0 ≤ℤ c.n_value) best.0 n') (omega (int_laws, b', le))
            (rw s.worth s.enough)

      by_choice :
          (o : Option Coin) → LowestOk d P all o → Pays (some (pick_best d.n_target_value best o))
      by_choice none lo = subset
      by_choice (some c) (pc, nc, pays, part) =
          elim (Bool-cases (prefers d.n_target_value best.1 c)) [
            | inl b ↦ rw b (one-Pays c m pc nc pays part)
            | inr b ↦ rw b subset
          ]

  -- The coins that are smaller than the target are too little, and a bigger coin is taken if there is
  -- one.
  too_small :
      all ≤ℤ pos max_money
      → (lower : ℤ) (v : List Coin) (lowest : Option Coin) → lower ≡ total v
      → ltb_ℤ lower d.n_target_value ≡ true
      → LowestOk d P all lowest
      → (lowest ≡ none → total v ≡ all)
      → Pays (one_coin lowest)
  too_small m lower v none e k lo un =
      let same : lower ≡ all = e ∙ un refl in less all d.n_target_value (rw same at k)
  too_small m lower v (some c) e k (p, n, pays, part) un = one-Pays c m p n pays part

  choose-Pays :
      (rand rand' : ℕ → ℕ → Bool) (r : CoinScan)
      → all ≤ℤ pos max_money
      → (pos 0 ≤ℤ d.n_target_value) × (d.n_target_value ≤ℤ pos max_money)
      → ScanOk d P all r
      → Pays (choose d.n_target_value rand rand' r)
  unfolding choose
  choose-Pays rand rand' (exact c) m t (p, n, e, le) = one-Pays c m p n (rw e (omega int_laws)) le
  choose-Pays rand rand' (scanned v lower lowest) m t (p, n, e, le, lo, un) =
      let coins = reverse_aux v [] in
      let p' = reverse_aux-All P v [] p tt in
      let n' = reverse_aux-All (λ c. pos 0 ≤ℤ c.n_value) v [] n tt in
      let sum : total coins ≡ lower = reverse_aux-total v [] ∙ omega int_laws ∙ sym e in
      let le' : total coins ≤ℤ all = rw (sum, e) le in
      elim (Bool-cases (eq_ℤ lower d.n_target_value)) [
        | inl q ↦
            let same = eq_ℤ-true lower d.n_target_value q in
            rw q (chosen-Pays coins m p' n' le' (rw (sum, same) (omega int_laws)))
        | inr q ↦ elim (Bool-cases (ltb_ℤ lower d.n_target_value)) [
          | inl k ↦ rw (q, k) (too_small m lower v lowest e k lo un)
          | inr k ↦
              let sorted = sort_by_value coins in
              let st = sort_by_value-total coins in
              let pays = at_least lower d.n_target_value k in
              let ns = sort_by_value-All (λ c. pos 0 ≤ℤ c.n_value) coins n' in
              let les : total sorted ≤ℤ all = rw st le' in
              rw (q, k)
                (pick_best-Pays sorted (best_subset d.n_target_value rand rand' sorted lower) lowest
                  m (sort_by_value-All P coins p') ns les
                  (best_subset-IsSubset sorted d.n_target_value lower rand rand'
                    (ns, omega (int_laws, les, m)) t (st ∙ sum) pays)
                  lo)
        ]
      ]

-- The choice of coins, for coins that are worth something between nothing and all the money and a
-- target in the range of money. A choice that succeeds returns coins that have every property that all
-- eligible coins have, with their exact value, which is at least the target and at most the value of
-- all eligible coins; it fails only if all eligible coins together are worth less than the target. This
-- is so whatever the random bits are.
pub select_coins_min_conf-Pays :
    (d : Demand) (P : Coin → Type 0) (rand rand' : ℕ → ℕ → Bool) (coins : List Coin)
    → InRange coins
    → (pos 0 ≤ℤ d.n_target_value) × (d.n_target_value ≤ℤ pos max_money)
    → All P (eligible d coins)
    → Pays d P (total (eligible d coins)) (select_coins_min_conf d rand rand' coins)
unfolding select_coins_min_conf
select_coins_min_conf-Pays d P rand rand' coins r t p =
    let all = total (eligible d coins) in
    let m : all ≤ℤ pos max_money = omega (int_laws, eligible_le d coins r.0, r.1) in
    choose-Pays d P all rand rand' (scan_loop d coins [] (pos 0) none) m t (
      scan_loop-ScanOk d P coins [] (pos 0) none all t p r.0 tt tt refl (omega int_laws) m tt
        (λ z. omega int_laws))
