-- ===== src/Chain/Target.antt =====
-- How fast a target can rise: `ComputeMaxBits`, `ComputeMinWork` and `ComputeMinStake` of src/main.cpp.
use montecoin.Prelude.{
  ℕ, zero, suc, ◌+◌, ◌-◌, ◌*◌, ◌/◌, ◌^◌, ◌≤◌, ◌<◌, ◌≡◌, refl, sym, ap, ◌∙◌, true, false, Option,
  none, some, ◌&&◌, arith, if◌then◌else◌, Bool-cases, inl, inr,
}
use Prim.Native.Nat.{min}
use mathlib.Core.Option
use native.Mathlib.Nat.{mul_assoc, pow-succ', one-le-pow, le-mul_of_pos_right}
use montecoin.Prelude.Int.{ℤ, pos, negsuc, pos_part, ◌-ℤ◌, ltb_ℤ}
use montecoin.Prelude.Int64
use montecoin.Prelude.Int64.{sub_fits, sub_range}

abbrev pub day : ℕ
day = 24 * 60 * 60

-- A number of OpenSSL, of which the product with 2 is used.
abbrev pub twice : ℤ → ℤ
twice (pos n) = pos (n * 2)
twice (negsuc n) = negsuc (n * 2 + 1)

-- The loop, on fuel; `none` means that the fuel ran out.
unfoldable pub max_loop : ℕ → ℤ → ℤ → ℤ → Option ℤ
max_loop zero limit n_time result = none
max_loop (suc fuel) limit n_time result =
    let rest = max_loop fuel limit (Int64.sub n_time (pos day)) (twice result) in
    if ltb_ℤ (pos 0) n_time && ltb_ℤ result limit then rest else some result

abbrev pub at_most : ℤ → ℤ → ℤ
at_most limit result = if ltb_ℤ limit result then limit else result

-- The numbers of OpenSSL behind `SetCompact` and `GetCompact`. The fuel is one round more than there are
-- seconds left.
module _ (set_compact : ℕ → ℤ) (get_compact : ℤ → ℕ) where
  unfoldable pub compute_max_bits : ℤ → ℕ → ℤ → Option ℕ
  compute_max_bits target_limit n_base n_time =
      Option.map (λ result. get_compact (at_most target_limit result))
        (max_loop (suc (pos_part n_time)) target_limit n_time (twice (set_compact n_base)))

-- The days, begun ones included.
abbrev pub days_of : ℤ → ℕ
days_of (pos n) = (n + (day - 1)) / day
days_of (negsuc n) = 0

-- A day less, as an int64.
less_day :
    (n : ℕ) → n < 2 ^ 63 → 0 < n → days_of (Int64.sub (pos n) (pos day)) + 1 ≡ days_of (pos n)
unfolding ◌-ℤ◌
less_day n h p =
    let e : Int64.sub (pos n) (pos day) ≡ pos n -ℤ pos day =
      sub_fits (pos n) (pos day) (ground arith) (ground arith) in
    rw e (ground arith)

-- What a day less is, where there is one.
day_less :
    (k : ℕ) (t : ℤ)
    → pos_part t < 2 ^ 63
    → days_of t ≡ suc k
    → (ltb_ℤ (pos 0) t ≡ true)
      × (days_of (Int64.sub t (pos day)) ≡ k)
      × (pos_part (Int64.sub t (pos day)) < 2 ^ 63)
day_less k (negsuc n) h e = absurd (omega (arith, e))
day_less k (pos n) h e =
    let p : 0 < n = omega (arith, e) in
    let l = less_day n h p in
    (ground (arith, p), omega (arith, l, e), (sub_range (pos n) (pos day)).0)

pos_at_most : (l b : ℕ) → at_most (pos l) (pos b) ≡ pos (min l b)
pos_at_most l b = ground arith

no_days : (b k : ℕ) → k ≡ 0 → b ≡ b * 2 ^ k
no_days b k z = rw z (omega arith)

no_time : (t : ℤ) → days_of t ≡ 0 → ltb_ℤ (pos 0) t ≡ false
no_time (pos n) z = ground (arith, z)
no_time (negsuc n) z = ground arith

doubled : (b k : ℕ) → b * 2 * 2 ^ k ≡ b * 2 ^ suc k
doubled b k = mul_assoc b 2 (2 ^ k) ∙ ap (λ (x : ℕ). b * x) (sym (pow-succ' 2 k))

reached : (l b k : ℕ) → ltb_ℤ (pos b) (pos l) ≡ false → min l b ≡ min l (b * 2 ^ suc k)
reached l b k c =
    let le : l ≤ b = ground (arith, c) in
    let more = le-mul_of_pos_right {m = 2 ^ suc k} b (one-le-pow (suc k) 2 (omega arith)) in
    omega (arith, le, more)

-- The loop ends within one round more than there are days, begun ones included.
max_loop_lem :
    (fuel l b : ℕ) (t : ℤ)
    → pos_part t < 2 ^ 63
    → days_of t < fuel
    → (r : ℤ) × (max_loop fuel (pos l) t (pos b) ≡ some r)
      × (at_most (pos l) r ≡ pos (min l (b * 2 ^ days_of t)))
unfolding max_loop
max_loop_lem zero l b t h e = absurd (omega (arith, e))
max_loop_lem (suc fuel) l b t h e =
    by_days (days_of t) refl (max_loop_lem fuel l (b * 2) (Int64.sub t (pos day)))
  where
    by_days :
        (k : ℕ)
        → days_of t ≡ k
        → (pos_part (Int64.sub t (pos day)) < 2 ^ 63
            → days_of (Int64.sub t (pos day)) < fuel
            → (r : ℤ) × (max_loop fuel (pos l) (Int64.sub t (pos day)) (pos (b * 2)) ≡ some r)
              × (at_most (pos l) r ≡ pos (min l (b * 2 * 2 ^ days_of (Int64.sub t (pos day))))))
        → (r : ℤ) × (max_loop (suc fuel) (pos l) t (pos b) ≡ some r)
          × (at_most (pos l) r ≡ pos (min l (b * 2 ^ days_of t)))
    by_days zero z ih = (
      pos b,
      rw (no_time t z) refl,
      pos_at_most l b ∙ ap (λ (x : ℕ). pos (min l x)) (no_days b (days_of t) z),
    )
    by_days (suc k) z ih =
        let (p, less, small) = day_less k t h z in
        elim (Bool-cases (ltb_ℤ (pos b) (pos l))) [
          | inl c ↦
              let (r, run, top) = ih small (omega (arith, less, z, e)) in
              (
                r,
                rw (p, c) run,
                top
                    ∙ ap (λ (x : ℕ). pos (min l (b * 2 * 2 ^ x))) less
                    ∙ ap (λ (x : ℕ). pos (min l x)) (doubled b k)
                    ∙ ap (λ (x : ℕ). pos (min l (b * 2 ^ x))) (sym z),
              )
          | inr c ↦ (
            pos b,
            rw (p, c) refl,
            pos_at_most l b
                ∙ ap pos (reached l b k c)
                ∙ ap (λ (x : ℕ). pos (min l (b * 2 ^ x))) (sym z),
          )
        ]

days_of_le : (t : ℤ) → days_of t ≤ pos_part t
days_of_le (pos n) = omega arith
days_of_le (negsuc n) = omega arith

-- For a positive target and a time that an int64 holds, the loop ends by its own test, on any fuel above
-- the days that are left, begun ones included. The target that comes out is the least of the limit and
-- twice the target, doubled for each of these days, and `ComputeMaxBits` gives what `GetCompact` makes of
-- it.
pub compute_max_bits_lem :
    (set_compact : ℕ → ℤ) (get_compact : ℤ → ℕ) (limit n_base base fuel : ℕ) (n_time : ℤ)
    → set_compact n_base ≡ pos base
    → pos_part n_time < 2 ^ 63
    → days_of n_time < fuel
    → (r : ℤ) × (max_loop fuel (pos limit) n_time (twice (set_compact n_base)) ≡ some r)
      × (at_most (pos limit) r ≡ pos (min limit (base * 2 * 2 ^ days_of n_time)))
      × (compute_max_bits set_compact get_compact (pos limit) n_base n_time
          ≡ some (get_compact (pos (min limit (base * 2 * 2 ^ days_of n_time)))))
unfolding compute_max_bits
compute_max_bits_lem set_compact get_compact limit n_base base fuel n_time e h less =
    let run = λ (n : ℕ) (l : days_of n_time < n). max_loop_lem n limit (base * 2) n_time h l in
    let (r, ends, top) = run fuel less in
    let (r', ends', top') = run (suc (pos_part n_time)) (omega (arith, days_of_le n_time)) in
    (r, rw e ends, top, rw (e, ends', top') refl)
