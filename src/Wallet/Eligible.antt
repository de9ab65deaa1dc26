-- ===== src/Wallet/Eligible.antt =====
-- The loop over the coins in `SelectCoinsMinConf` of src/wallet.cpp, and the sort behind it.
use montecoin.Prelude.{
  ◌≡◌, refl, ap, ◌∙◌, false, List, [], ◌∷◌, Option, none, some, arith, if◌then◌else◌, Bool-cases,
  inl, inr,
}
use mathlib.Core.List.{reverse_aux}
use montecoin.Prelude.Int.{ℤ, pos, ◌+ℤ◌, ◌≤ℤ◌, int_laws, leb_ℤ, ltb_ℤ}
use montecoin.Prelude.Int64
use montecoin.Tx.Money.{cent, max_money}
use montecoin.Tx.Value.{add_in_range}
use montecoin.Wallet.{
  Coin, CoinScan, exact, scanned, Demand, is_eligible, scan_loop, lowest_value, insert_by_value,
  sort_by_value, eq_ℤ,
}
use montecoin.Wallet.Sums.{All, total, NonNegative, total_nonneg, eq_ℤ-true}

-- The coins with enough confirmations that are not later than the payment.
abbrev pub eligible : Demand → List Coin → List Coin
eligible d [] = []
eligible d (c ∷ coins) = if is_eligible d c then c ∷ eligible d coins else eligible d coins

pub eligible_le :
    (d : Demand) (coins : List Coin) → NonNegative coins → total (eligible d coins) ≤ℤ total coins
eligible_le d [] n = omega int_laws
eligible_le d (c ∷ coins) n =
    let ih = eligible_le d coins n.1 in
    elim (Bool-cases (is_eligible d c)) [
      | inl e ↦ rw e (omega (int_laws, ih))
      | inr e ↦ rw e (omega (int_laws, ih, n.0))
    ]

pub at_least : (x y : ℤ) → ltb_ℤ x y ≡ false → y ≤ℤ x
at_least x y k = ground (arith, k)

module _ (P : Coin → Type 0) where
  pub eligible-All : (d : Demand) (coins : List Coin) → All P coins → All P (eligible d coins)
  eligible-All d [] a = tt
  eligible-All d (c ∷ coins) a = elim (Bool-cases (is_eligible d c)) [
    | inl b ↦ rw b (a.0, eligible-All d coins a.1)
    | inr b ↦ rw b (eligible-All d coins a.1)
  ]

  pub reverse_aux-All : (xs ys : List Coin) → All P xs → All P ys → All P (reverse_aux xs ys)
  reverse_aux-All [] ys a b = b
  reverse_aux-All (x ∷ xs) ys a b = reverse_aux-All xs (x ∷ ys) a.1 (a.0, b)

  insert_by_value-All : (c : Coin) (xs : List Coin) → P c → All P xs → All P (insert_by_value c xs)
  unfolding insert_by_value
  insert_by_value-All c [] p a = (p, tt)
  insert_by_value-All c (x ∷ xs) p a = elim (Bool-cases (leb_ℤ x.n_value c.n_value)) [
    | inl b ↦ rw b (p, a)
    | inr b ↦ rw b (a.0, insert_by_value-All c xs p a.1)
  ]

  pub sort_by_value-All : (xs : List Coin) → All P xs → All P (sort_by_value xs)
  unfolding sort_by_value
  sort_by_value-All [] a = tt
  sort_by_value-All (x ∷ xs) a =
      insert_by_value-All x (sort_by_value xs) a.0 (sort_by_value-All xs a.1)

pub reverse_aux-total : (xs ys : List Coin) → total (reverse_aux xs ys) ≡ total xs +ℤ total ys
reverse_aux-total [] ys = omega int_laws
reverse_aux-total (x ∷ xs) ys = reverse_aux-total xs (x ∷ ys) ∙ omega int_laws

insert_by_value-total :
    (c : Coin) (xs : List Coin) → total (insert_by_value c xs) ≡ c.n_value +ℤ total xs
unfolding insert_by_value
insert_by_value-total c [] = refl
insert_by_value-total c (x ∷ xs) = elim (Bool-cases (leb_ℤ x.n_value c.n_value)) [
  | inl b ↦ rw b refl
  | inr b ↦ rw (b, insert_by_value-total c xs) (omega int_laws)
]

pub sort_by_value-total : (xs : List Coin) → total (sort_by_value xs) ≡ total xs
unfolding sort_by_value
sort_by_value-total [] = refl
sort_by_value-total (x ∷ xs) =
    insert_by_value-total x (sort_by_value xs)
    ∙ ap (λ (z : ℤ). x.n_value +ℤ z) (sort_by_value-total xs)

module _ (d : Demand) (P : Coin → Type 0) where
  -- The smallest of the bigger coins pays.
  abbrev pub LowestOk : ℤ → Option Coin → Type 0
  LowestOk all none = Unit {0}
  LowestOk all (some c) =
      P c × (pos 0 ≤ℤ c.n_value) × (d.n_target_value ≤ℤ c.n_value) × (c.n_value ≤ℤ all)

  -- What the loop finds of the coins that are eligible.
  abbrev pub ScanOk : ℤ → CoinScan → Type 0
  ScanOk all (exact c) =
      P c × (pos 0 ≤ℤ c.n_value) × (c.n_value ≡ d.n_target_value) × (c.n_value ≤ℤ all)
  ScanOk all (scanned v lower lowest) =
      All P v
      × NonNegative v
      × (lower ≡ total v)
      × (total v ≤ℤ all)
      × LowestOk all lowest
      × (lowest ≡ none → total v ≡ all)

  pub scan_loop-ScanOk :
      (coins v : List Coin) (lower : ℤ) (lowest : Option Coin) (all : ℤ)
      → (pos 0 ≤ℤ d.n_target_value) × (d.n_target_value ≤ℤ pos max_money)
      → All P (eligible d coins)
      → NonNegative coins
      → All P v
      → NonNegative v
      → lower ≡ total v
      → total v +ℤ total (eligible d coins) ≤ℤ all
      → all ≤ℤ pos max_money
      → LowestOk all lowest
      → (lowest ≡ none → total v +ℤ total (eligible d coins) ≡ all)
      → ScanOk all (scan_loop d coins v lower lowest)
  unfolding scan_loop
  scan_loop-ScanOk [] v lower lowest all t p n pv nv e le m lo un =
      (pv, nv, e, omega (int_laws, le), lo, λ z. omega int_laws ∙ un z)
  scan_loop-ScanOk (c ∷ coins) v lower lowest all t p n pv nv e le m lo un =
      elim (Bool-cases (is_eligible d c)) [
        | inr b ↦ rw b (
            scan_loop-ScanOk coins v lower lowest all t (rw b at p) n.1 pv nv e (rw b at le) m lo
              (rw b at un))
        | inl b ↦
            let p' : P c × All P (eligible d coins) = rw b at p in
            let le' : total v +ℤ (c.n_value +ℤ total (eligible d coins)) ≤ℤ all = rw b at le in
            let un' : lowest ≡ none → total v +ℤ (c.n_value +ℤ total (eligible d coins)) ≡ all =
              rw b at un in
            let rest =
              total_nonneg (eligible d coins)
                (eligible-All (λ x. pos 0 ≤ℤ x.n_value) d coins n.1) in
            let low = total_nonneg v nv in
            let part : c.n_value ≤ℤ all = omega (int_laws, le', rest, low) in
            let small : c.n_value ≤ℤ pos max_money = omega (int_laws, le', m, rest, low) in
            elim (Bool-cases (eq_ℤ c.n_value d.n_target_value)) [
              | inl q ↦ rw (b, q) (p'.0, n.0, eq_ℤ-true c.n_value d.n_target_value q, part)
              | inr q ↦
                  elim (Bool-cases (ltb_ℤ c.n_value (Int64.add d.n_target_value (pos cent)))) [
                    | inl k ↦
                        let s : Int64.add lower c.n_value ≡ total (c ∷ v) = rw e (
                          add_in_range (total v) c.n_value
                            (low, omega (int_laws, le', m, rest, n.0)) (n.0, small)
                          ∙ omega int_laws) in
                        rw (b, q, k)
                          (scan_loop-ScanOk coins (c ∷ v) (Int64.add lower c.n_value) lowest all t
                            p'.1 n.1 (p'.0, pv) (n.0, nv) s (omega (int_laws, le')) m lo
                            (λ z. omega int_laws ∙ un' z))
                    | inr k ↦
                        let sum : Int64.add d.n_target_value (pos cent)
                            ≡ d.n_target_value +ℤ pos cent =
                          add_in_range d.n_target_value (pos cent) t
                            (omega int_laws, omega int_laws) in
                        let pays = enough c.n_value (rw sum at k) in
                        elim (Bool-cases (ltb_ℤ c.n_value (lowest_value lowest))) [
                          | inl l ↦
                              rw (b, q, k, l)
                                (scan_loop-ScanOk coins v lower (some c) all t p'.1 n.1 pv nv e
                                  (omega (int_laws, le', n.0)) m (p'.0, n.0, pays, part) (λ z. cc))
                          | inr l ↦
                              rw (b, q, k, l)
                                (scan_loop-ScanOk coins v lower lowest all t p'.1 n.1 pv nv e
                                  (omega (int_laws, le', n.0)) m lo
                                  (λ z. absurd (too_much c.n_value lowest z small l)))
                        ]
                  ]
            ]
      ]
    where
      enough : (x : ℤ) → ltb_ℤ x (d.n_target_value +ℤ pos cent) ≡ false → d.n_target_value ≤ℤ x
      enough x k = omega (int_laws, at_least x (d.n_target_value +ℤ pos cent) k)

      too_much :
          (x : ℤ) (o : Option Coin)
          → o ≡ none
          → x ≤ℤ pos max_money
          → ltb_ℤ x (lowest_value o) ≡ false
          → ⊥
      too_much x none z h l = ground (arith, h, l)
      too_much x (some o) z h l = cc
