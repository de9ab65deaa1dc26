-- ===== src/Wallet/Subset.antt =====
-- `ApproximateBestSubset` of src/wallet.cpp: the best subset is worth what is said, and enough.
use montecoin.Prelude.{
  ℕ, suc, ◌≡◌, refl, sym, ap, ◌∙◌, Bool, true, false, List, [], ◌∷◌, arith, if◌then◌else◌,
  Bool-cases, inl, inr,
}
use mathlib.Core.List.{reverse_aux}
use montecoin.Prelude.Int.{ℤ, pos, ◌+ℤ◌, ◌-ℤ◌, ◌≤ℤ◌, int_laws, leb_ℤ, ltb_ℤ, +ℤ_cancel}
use montecoin.Prelude.Int64
use montecoin.Tx.Money.{max_money}
use montecoin.Tx.Value.{add_in_range, sub_in_range}
use montecoin.Wallet.{Coin, Flags, Approx, flagged, pass_loop}
use montecoin.Wallet.Sums.{total, NonNegative, coins_of, InRange, flagged_le}

-- Flags over these coins that are worth this, and enough.
pub record IsSubset (coins : List Coin) (target : ℤ) (flags : Flags) (n : ℤ) : Type 0 where
  pub over : coins_of flags ≡ coins
  pub worth : total (flagged flags) ≡ n
  pub enough : target ≤ℤ n

reverse_aux-coins :
    (xs ys zs : Flags)
    → coins_of ys ≡ coins_of zs
    → coins_of (reverse_aux xs ys) ≡ coins_of (reverse_aux xs zs)
reverse_aux-coins [] ys zs e = e
reverse_aux-coins ((c, b) ∷ xs) ys zs e =
    reverse_aux-coins xs ((c, b) ∷ ys) ((c, b) ∷ zs) (ap (λ (r : List Coin). c ∷ r) e)

reverse_aux-flagged :
    (xs ys : Flags) → total (flagged (reverse_aux xs ys)) ≡ total (flagged xs) +ℤ total (flagged ys)
reverse_aux-flagged [] ys = omega int_laws
reverse_aux-flagged ((c, true) ∷ xs) ys = reverse_aux-flagged xs ((c, true) ∷ ys) ∙ omega int_laws
reverse_aux-flagged ((c, false) ∷ xs) ys = reverse_aux-flagged xs ((c, false) ∷ ys)

nonneg_at :
    (before after : Flags)
    → NonNegative (coins_of (reverse_aux before after))
    → NonNegative (coins_of after)
nonneg_at [] after h = h
nonneg_at ((c, b) ∷ before) after h = (nonneg_at before ((c, b) ∷ after) h).1

-- A coin that is tried is not flagged yet.
abbrev pub Ready : (ℕ → Bool → Bool) → ℕ → Flags → Type 0
Ready take i [] = Unit {0}
Ready take i ((c, b) ∷ after) = (take i b ≡ true → b ≡ false) × Ready take (suc i) after

module _ (coins : List Coin) (target : ℤ) (r : InRange coins) where
  -- What holds at each place of a pass: the sum is that of the flagged coins.
  abbrev pub Sound : Flags → Flags → Approx → Type 0
  Sound before after s =
      (coins_of (reverse_aux before after) ≡ coins)
      × (s.n_total ≡ total (flagged before) +ℤ total (flagged after))
      × IsSubset coins target s.vf_best s.n_best

  -- The same, seen from the next place.
  Sound-next :
      (before after : Flags) (c : Coin) (b : Bool) (s : Approx)
      → Sound before ((c, b) ∷ after) s
      → Sound ((c, b) ∷ before) after s
  Sound-next before after c true s h = (h.0, h.1 ∙ omega int_laws, h.2)
  Sound-next before after c false s h = (h.0, h.1, h.2)

  -- The sum with one more coin does not wrap around.
  tried :
      (before after : Flags) (c : Coin) (s : Approx)
      → Sound before ((c, false) ∷ after) s
      → (Int64.add s.n_total c.n_value ≡ total (flagged (reverse_aux before ((c, true) ∷ after))))
        × (Int64.sub (Int64.add s.n_total c.n_value) c.n_value ≡ s.n_total)
  tried before after c s h =
      let with_c = reverse_aux before ((c, true) ∷ after) in
      let same : coins_of with_c ≡ coins =
        reverse_aux-coins before ((c, true) ∷ after) ((c, false) ∷ after) refl ∙ h.0 in
      let (a, b) = flagged_le with_c (rw same r.0) in
      let n : NonNegative (coins_of ((c, false) ∷ after)) =
        nonneg_at before ((c, false) ∷ after) (rw h.0 r.0) in
      let (a', b') = flagged_le (reverse_aux before ((c, false) ∷ after)) (rw h.0 r.0) in
      let w = reverse_aux-flagged before ((c, true) ∷ after) in
      let w' = reverse_aux-flagged before ((c, false) ∷ after) in
      let b'' : total (flagged with_c) ≤ℤ total coins = rw same at b in
      let low : pos 0 ≤ℤ s.n_total = rw h.1 (rw w' at a') in
      let sum : s.n_total +ℤ c.n_value ≡ total (flagged with_c) = rw (h.1, w) (omega int_laws) in
      let high : s.n_total +ℤ c.n_value ≤ℤ pos max_money = rw sum (omega (int_laws, b'', r.1)) in
      let e : Int64.add s.n_total c.n_value ≡ s.n_total +ℤ c.n_value =
        add_in_range s.n_total c.n_value (low, omega (int_laws, high, n.0))
          (n.0, omega (int_laws, high, low)) in
      let e' : Int64.sub (s.n_total +ℤ c.n_value) c.n_value ≡ s.n_total +ℤ c.n_value -ℤ c.n_value =
        sub_in_range (s.n_total +ℤ c.n_value) c.n_value (omega (int_laws, low, n.0), high)
          (n.0, omega (int_laws, high, low)) in
      (e ∙ sum, (rw e e') ∙ +ℤ_cancel s.n_total c.n_value)

  -- A place where the coin is tried.
  at_tried :
      (before after : Flags) (c : Coin) (s : Approx)
      → Sound before ((c, false) ∷ after) s
      → (leb_ℤ target (Int64.add s.n_total c.n_value) ≡ false
          → Sound ((c, true) ∷ before) after (record s { n_total = Int64.add s.n_total c.n_value }))
        × (leb_ℤ target (Int64.add s.n_total c.n_value) ≡ true
            → Sound ((c, false) ∷ before) after (record {
              n_total = Int64.sub (Int64.add s.n_total c.n_value) c.n_value;
              f_reached_target = true;
              vf_best =
                  (if ltb_ℤ (Int64.add s.n_total c.n_value) s.n_best
                    then reverse_aux before ((c, true) ∷ after)
                    else s.vf_best);
              n_best =
                  (if ltb_ℤ (Int64.add s.n_total c.n_value) s.n_best
                    then Int64.add s.n_total c.n_value
                    else s.n_best);
            }))
  at_tried before after c s h =
      let (e, e') = tried before after c s h in
      let same : coins_of (reverse_aux before ((c, true) ∷ after)) ≡ coins =
        reverse_aux-coins before ((c, true) ∷ after) ((c, false) ∷ after) refl ∙ h.0 in
      let w = reverse_aux-flagged before ((c, true) ∷ after) in
      (
        λ n. (same, e ∙ w ∙ omega int_laws, h.2),
        λ t. (
          h.0,
          e' ∙ h.1,
          elim (Bool-cases (ltb_ℤ (Int64.add s.n_total c.n_value) s.n_best)) [
            | inl k ↦ rw k (record { over = same; worth = sym e; enough = ground (arith, t) })
            | inr k ↦ rw k h.2
          ],
        ),
      )

  pub pass_loop-Sound :
      (take : ℕ → Bool → Bool) (i : ℕ) (before after : Flags) (s : Approx)
      → Ready take i after
      → Sound before after s
      → Sound []
          (pass_loop target take i before after s).0
          (pass_loop target take i before after s).1
  unfolding pass_loop
  pass_loop-Sound take i before [] s y h =
      let w = reverse_aux-flagged before [] in (h.0, h.1 ∙ sym w ∙ omega int_laws, h.2)
  pass_loop-Sound take i before ((c, b) ∷ after) s y h = elim (Bool-cases (take i b)) [
    | inr t ↦ rw t (
        pass_loop-Sound take (suc i) ((c, b) ∷ before) after s y.1
          (Sound-next before after c b s h))
    | inl t ↦
        let f = y.0 t in
        let h' : Sound before ((c, false) ∷ after) s = rw f at h in
        let (low, high) = at_tried before after c s h' in
        elim (Bool-cases (leb_ℤ target (Int64.add s.n_total c.n_value))) [
          | inl k ↦
              rw (t, k) (pass_loop-Sound take (suc i) ((c, false) ∷ before) after _ y.1 (high k))
          | inr k ↦
              rw (t, k) (pass_loop-Sound take (suc i) ((c, true) ∷ before) after _ y.1 (low k))
        ]
  ]
