-- ===== src/Wallet/Best.antt =====
-- The subset that src/wallet.cpp takes after its two approximations.
use montecoin.Prelude.{
  ℕ, zero, suc, ◌≡◌, refl, ap, ◌∙◌, Bool, true, false, not, ◌&&◌, List, [], ◌∷◌, arith, Bool-cases,
  inl, inr,
}
use montecoin.Prelude.Int.{ℤ, pos, ◌+ℤ◌, ◌≤ℤ◌, int_laws, leb_ℤ}
use montecoin.Prelude.Int64
use montecoin.Tx.Money.{cent, max_money}
use montecoin.Tx.Value.{add_in_range}
use montecoin.Wallet.{
  Coin, Flags, Approx, flagged, flag_all, pass_loop, repetition, approximate_loop,
  approximate_best_subset, best_subset, iterations, eq_ℤ,
}
use montecoin.Wallet.Sums.{total, coins_of, InRange}
use montecoin.Wallet.Subset.{IsSubset, Ready, pass_loop-Sound}

coins_of-flag_all : (b : Bool) (coins : List Coin) → coins_of (flag_all b coins) ≡ coins
coins_of-flag_all b [] = refl
coins_of-flag_all b (c ∷ coins) = ap (λ (r : List Coin). c ∷ r) (coins_of-flag_all b coins)

none_flagged : (coins : List Coin) → total (flagged (flag_all false coins)) ≡ pos 0
none_flagged [] = refl
none_flagged (c ∷ coins) = none_flagged coins

all_flagged : (coins : List Coin) → flagged (flag_all true coins) ≡ coins
all_flagged [] = refl
all_flagged (c ∷ coins) = ap (λ (r : List Coin). c ∷ r) (all_flagged coins)

none-Ready :
    (take : ℕ → Bool → Bool) (i : ℕ) (coins : List Coin) → Ready take i (flag_all false coins)
none-Ready take i [] = tt
none-Ready take i (c ∷ coins) = (λ _. refl, none-Ready take (suc i) coins)

rest-Ready : (i : ℕ) (flags : Flags) → Ready (λ i included. not included) i flags
rest-Ready i [] = tt
rest-Ready i ((c, b) ∷ flags) = (λ h. ground (arith, h), rest-Ready (suc i) flags)

module _ (coins : List Coin) (target : ℤ) (r : InRange coins) where
  repetition-IsSubset :
      (rand : ℕ → Bool) (best : Flags) (n : ℤ)
      → IsSubset coins target best n
      → IsSubset coins target
          (repetition target rand coins best n).vf_best
          (repetition target rand coins best n).n_best
  unfolding repetition
  repetition-IsSubset rand best n h =
      let start : Approx = record {
        n_total = pos 0;
        f_reached_target = false;
        vf_best = best;
        n_best = n;
      } in
      let take = λ (i : ℕ) (included : Bool). rand i in
      let first = pass_loop target take 0 [] (flag_all false coins) start in
      let zero_sum : pos 0 ≡ pos 0 +ℤ total (flagged (flag_all false coins)) =
        rw (none_flagged coins) (omega int_laws) in
      let s =
        pass_loop-Sound coins target r take 0 [] (flag_all false coins) start
          (none-Ready take 0 coins) (coins_of-flag_all false coins, zero_sum, h) in
      elim (Bool-cases first.1.f_reached_target) [
        | inl f ↦ rw f s.2
        | inr f ↦
            rw f
              (pass_loop-Sound coins target r (λ i included. not included) 0 [] first.0 first.1
                (rest-Ready 0 first.0) s).2
      ]

  loop-IsSubset :
      (left : ℕ) (rand : ℕ → ℕ → Bool) (best : Flags) (n : ℤ)
      → IsSubset coins target best n
      → IsSubset coins target
          (approximate_loop left target rand coins best n).0
          (approximate_loop left target rand coins best n).1
  unfolding approximate_loop
  loop-IsSubset zero rand best n h = h
  loop-IsSubset (suc left) rand best n h = elim (Bool-cases (eq_ℤ n target)) [
    | inl e ↦ rw e h
    | inr e ↦
        let s = repetition target (rand left) coins best n in
        rw e (loop-IsSubset left rand s.vf_best s.n_best (repetition-IsSubset (rand left) best n h))
  ]

  subset-IsSubset :
      (count : ℕ) (n : ℤ) (rand : ℕ → ℕ → Bool)
      → total coins ≡ n
      → target ≤ℤ n
      → IsSubset coins target
          (approximate_best_subset count coins n target rand).0
          (approximate_best_subset count coins n target rand).1
  unfolding approximate_best_subset
  subset-IsSubset count n rand e le = loop-IsSubset count rand (flag_all true coins) n (record {
    over = coins_of-flag_all true coins;
    worth = ap total (all_flagged coins) ∙ e;
    enough = le;
  })

-- The subset that is taken is one of the coins, worth what is said, and enough.
pub best_subset-IsSubset :
    (coins : List Coin) (target n : ℤ) (rand rand' : ℕ → ℕ → Bool)
    → InRange coins
    → (pos 0 ≤ℤ target) × (target ≤ℤ pos max_money)
    → total coins ≡ n
    → target ≤ℤ n
    → IsSubset coins target
        (best_subset target rand rand' coins n).0
        (best_subset target rand rand' coins n).1
unfolding best_subset
best_subset-IsSubset coins target n rand rand' r t e le =
    let best = approximate_best_subset iterations coins n target rand in
    let target' = Int64.add target (pos cent) in
    let sum : target' ≡ target +ℤ pos cent =
      add_in_range target (pos cent) t (omega int_laws, omega int_laws) in
    elim (Bool-cases (not (eq_ℤ best.1 target) && leb_ℤ target' n)) [
      | inr c ↦ rw c (subset-IsSubset coins target r iterations n rand e le)
      | inl c ↦
          let le' : target' ≤ℤ n = second (eq_ℤ best.1 target) target' n c in
          let s = subset-IsSubset coins target' r iterations n rand' e le' in
          let more : target ≤ℤ target' = rw sum (omega int_laws) in
          rw c (record {
            over = s.over;
            worth = s.worth;
            enough = trans target target' _ more s.enough;
          })
    ]
  where
    second : (b : Bool) (x y : ℤ) → (not b && leb_ℤ x y) ≡ true → x ≤ℤ y
    second b x y h = ground (arith, h)

    trans : (x y z : ℤ) → x ≤ℤ y → y ≤ℤ z → x ≤ℤ z
    trans x y z h k = omega (int_laws, h, k)
