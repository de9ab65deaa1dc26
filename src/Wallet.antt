-- ===== src/Wallet.antt =====
-- The choice of coins for a payment, src/wallet.cpp: `SelectCoinsMinConf` with `ApproximateBestSubset`
-- and `CompareValueOnly`, and `SelectCoins`.
pub mod Sums
pub mod Subset
pub mod Best
pub mod Eligible
pub mod Selected
mod Tests
use montecoin.Prelude.{
  ℕ, zero, suc, ◌+◌, ◌-◌, ◌*◌, ◌^◌, Bool, true, false, not, ◌&&◌, ◌||◌, List, [], ◌∷◌, map, Option,
  none, some, ltb, ◌==◌, if◌then◌else◌,
}
use mathlib.Core.List.{reverse_aux}
use montecoin.Prelude.Int.{ℤ, pos, ltb_ℤ, leb_ℤ}
use montecoin.Prelude.Int64
use montecoin.Tx.Money.{cent}

-- An output that the wallet can spend: `COutput`, with what is read of its transaction. `tx` and `i`
-- name the output.
pub record Coin : Type 0 where
  pub tx : ℕ
  pub i : ℕ
  pub n_value : ℤ
  pub n_time : ℕ
  pub n_depth : ℤ
  pub is_from_me : Bool

abbrev pub eq_ℤ : ℤ → ℤ → Bool
eq_ℤ a b = leb_ℤ a b && leb_ℤ b a

-- A vector of coins with a vector of flags.
abbrev pub Flags : Type 0
Flags = List (Coin × Bool)

abbrev pub flag_all : Bool → List Coin → Flags
flag_all b [] = []
flag_all b (c ∷ coins) = (c, b) ∷ flag_all b coins

-- The variables of a repetition in `ApproximateBestSubset`; the flags go along by themselves.
pub record Approx : Type 0 where
  pub n_total : ℤ
  pub f_reached_target : Bool
  pub vf_best : Flags
  pub n_best : ℤ

-- The pass over the coins. The flags of the coins before the present one are in reverse order; `take`
-- tells of a place and its flag whether the coin is tried.
unfoldable pub pass_loop : ℤ → (ℕ → Bool → Bool) → ℕ → Flags → Flags → Approx → Flags × Approx
pass_loop target take i before [] s = (reverse_aux before [], s)
pass_loop target take i before ((c, included) ∷ after) s =
    let n_total' = Int64.add s.n_total c.n_value in
    let better = ltb_ℤ n_total' s.n_best in
    let reached : Approx = record {
      n_total = Int64.sub n_total' c.n_value;
      f_reached_target = true;
      vf_best = (if better then reverse_aux before ((c, true) ∷ after) else s.vf_best);
      n_best = (if better then n_total' else s.n_best);
    } in
    if take i included
    then (if leb_ℤ target n_total'
        then pass_loop target take (suc i) ((c, false) ∷ before) after reached
        else pass_loop target take (suc i) ((c, true) ∷ before) after
            (record s { n_total = n_total' }))
    else pass_loop target take (suc i) ((c, included) ∷ before) after s

-- The two passes of a repetition: random coins first, then the ones that are left out.
unfoldable pub repetition : ℤ → (ℕ → Bool) → List Coin → Flags → ℤ → Approx
repetition target rand coins vf_best n_best =
    let start : Approx = record {
      n_total = pos 0;
      f_reached_target = false;
      vf_best = vf_best;
      n_best = n_best;
    } in
    let first = pass_loop target (λ i included. rand i) 0 [] (flag_all false coins) start in
    if first.1.f_reached_target
    then first.1
    else (pass_loop target (λ i included. not included) 0 [] first.0 first.1).1

abbrev pub if_not : {A : Type 0} → Bool → A → (Unit {0} → A) → A
if_not true a k = a
if_not false a k = k tt

-- The repetitions, `rand` being the random bits of each; the first argument is the number that is left.
unfoldable pub approximate_loop : ℕ → ℤ → (ℕ → ℕ → Bool) → List Coin → Flags → ℤ → Flags × ℤ
approximate_loop zero target rand coins vf_best n_best = (vf_best, n_best)
approximate_loop (suc left) target rand coins vf_best n_best =
    if_not (eq_ℤ n_best target) (vf_best, n_best)
      (λ _.
        let s = repetition target (rand left) coins vf_best n_best in
        approximate_loop left target rand coins s.vf_best s.n_best)

abbrev pub iterations : ℕ
iterations = 1000

unfoldable pub approximate_best_subset : ℕ → List Coin → ℤ → ℤ → (ℕ → ℕ → Bool) → Flags × ℤ
approximate_best_subset iterations coins n_total_lower target rand =
    approximate_loop iterations target rand coins (flag_all true coins) n_total_lower

-- `sort(vValue.rbegin(), vValue.rend(), CompareValueOnly())`: the greatest value first.
unfoldable pub insert_by_value : Coin → List Coin → List Coin
insert_by_value c [] = c ∷ []
insert_by_value c (d ∷ coins) =
    if leb_ℤ d.n_value c.n_value then c ∷ d ∷ coins else d ∷ insert_by_value c coins

unfoldable pub sort_by_value : List Coin → List Coin
sort_by_value [] = []
sort_by_value (c ∷ coins) = insert_by_value c (sort_by_value coins)

-- The loop over the coins: a coin that pays exactly, or the coins that are too small with their sum and
-- the smallest of the others. The coins come in reverse order.
pub data CoinScan : Type 0 where
  exact : Coin → CoinScan
  scanned : List Coin → ℤ → Option Coin → CoinScan

-- `coinLowestLarger.first`
abbrev pub lowest_value : Option Coin → ℤ
lowest_value none = pos (2 ^ 63 - 1)
lowest_value (some c) = c.n_value

-- The numbers of confirmations that are asked for, and the time of the payment.
pub record Demand : Type 0 where
  pub n_target_value : ℤ
  pub n_spend_time : ℕ
  pub n_conf_mine : ℤ
  pub n_conf_theirs : ℤ

abbrev pub is_eligible : Demand → Coin → Bool
is_eligible d c =
    not (ltb_ℤ c.n_depth (if c.is_from_me then d.n_conf_mine else d.n_conf_theirs))
    && not (ltb d.n_spend_time c.n_time)

unfoldable pub scan_loop : Demand → List Coin → List Coin → ℤ → Option Coin → CoinScan
scan_loop d [] v_value n_total_lower lowest = scanned v_value n_total_lower lowest
scan_loop d (c ∷ coins) v_value n_total_lower lowest =
    if not (is_eligible d c)
    then scan_loop d coins v_value n_total_lower lowest
    else if eq_ℤ c.n_value d.n_target_value
    then exact c
    else if ltb_ℤ c.n_value (Int64.add d.n_target_value (pos cent))
    then scan_loop d coins (c ∷ v_value) (Int64.add n_total_lower c.n_value) lowest
    else if ltb_ℤ c.n_value (lowest_value lowest)
    then scan_loop d coins v_value n_total_lower (some c)
    else scan_loop d coins v_value n_total_lower lowest

-- The coins that are returned, with the sum of their values.
abbrev pub flagged : Flags → List Coin
flagged [] = []
flagged ((c, b) ∷ flags) = if b then c ∷ flagged flags else flagged flags

abbrev pub add_values : ℤ → List Coin → ℤ
add_values n [] = n
add_values n (c ∷ coins) = add_values (Int64.add n c.n_value) coins

abbrev pub chosen : List Coin → List Coin × ℤ
chosen coins = (coins, add_values (pos 0) coins)

abbrev pub one_coin : Option Coin → Option (List Coin × ℤ)
one_coin none = none
one_coin (some c) = some (chosen (c ∷ []))

-- Whether the bigger coin is taken rather than a subset of this value.
abbrev pub prefers : ℤ → ℤ → Coin → Bool
prefers target n_best c =
    not (eq_ℤ n_best target) && ltb_ℤ n_best (Int64.add target (pos cent)) || leb_ℤ c.n_value n_best

abbrev pub pick_best : ℤ → Flags × ℤ → Option Coin → List Coin × ℤ
pick_best target best none = chosen (flagged best.0)
pick_best target best (some c) =
    if prefers target best.1 c then chosen (c ∷ []) else chosen (flagged best.0)

-- The better of the two approximations; `rand` and `rand'` are the random bits of the two.
unfoldable pub best_subset : ℤ → (ℕ → ℕ → Bool) → (ℕ → ℕ → Bool) → List Coin → ℤ → Flags × ℤ
best_subset target rand rand' coins n_total_lower =
    let best = approximate_best_subset iterations coins n_total_lower target rand in
    let target' = Int64.add target (pos cent) in
    if not (eq_ℤ best.1 target) && leb_ℤ target' n_total_lower
    then approximate_best_subset iterations coins n_total_lower target' rand'
    else best

unfoldable pub choose : ℤ → (ℕ → ℕ → Bool) → (ℕ → ℕ → Bool) → CoinScan → Option (List Coin × ℤ)
choose target rand rand' (exact c) = some (chosen (c ∷ []))
choose target rand rand' (scanned v_value n_total_lower lowest) =
    if eq_ℤ n_total_lower target
    then some (chosen (reverse_aux v_value []))
    else if ltb_ℤ n_total_lower target
    then one_coin lowest
    else some (
        pick_best target
          (best_subset target rand rand' (sort_by_value (reverse_aux v_value [])) n_total_lower)
          lowest)

-- `SelectCoinsMinConf`, for the coins as `random_shuffle` leaves them; `none` is `false`.
unfoldable pub select_coins_min_conf :
    Demand → (ℕ → ℕ → Bool) → (ℕ → ℕ → Bool) → List Coin → Option (List Coin × ℤ)
select_coins_min_conf d rand rand' coins =
    choose d.n_target_value rand rand' (scan_loop d coins [] (pos 0) none)

-- `SelectCoins`. The coins are those of `AvailableCoins`, shuffled for each try; with coins selected by
-- hand, all of these are taken.
abbrev pub demand : ℤ → ℕ → ℤ → ℤ → Demand
demand n_target_value n_spend_time n_conf_mine n_conf_theirs = record {
  n_target_value = n_target_value;
  n_spend_time = n_spend_time;
  n_conf_mine = n_conf_mine;
  n_conf_theirs = n_conf_theirs;
}

abbrev pub or_try : {A : Type 0} → Option A → Option A → Option A
or_try none b = b
or_try (some a) b = some a

unfoldable pub select_coins :
    ℤ → ℕ → Bool → (ℕ → List Coin) → (ℕ → ℕ → ℕ → Bool) → Option (List Coin × ℤ)
select_coins target time has_selected coins rand =
    let by_hand = chosen (coins 0) in
    let try = λ (k : ℕ) (mine theirs : ℤ).
      select_coins_min_conf (demand target time mine theirs) (rand (2 * k)) (rand (2 * k + 1))
        (coins k) in
    if has_selected
    then (if leb_ℤ target by_hand.1 then some by_hand else none)
    else or_try (try 0 (pos 1) (pos 6)) (or_try (try 1 (pos 1) (pos 1)) (try 2 (pos 0) (pos 1)))
