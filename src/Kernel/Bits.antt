-- ===== src/Kernel/Bits.antt =====
-- The bits of a new stake modifier of src/kernel.cpp: which block gives which bit.
use montecoin.Prelude.{
  ℕ, zero, suc, ◌+◌, ◌*◌, ◌/◌, ◌%◌, ◌^◌, ◌≤◌, ◌<◌, ◌≡◌, refl, sym, ap, ◌∙◌, List, [], ◌∷◌, some,
  none, length, nat_key, arith, Bool, true, false, if◌then◌else◌, Option-cases, inl, inr,
}
use Prim.Native.Nat.{bit_or, bit_or-bitwise, digits, max, min}
use native.Mathlib.Nat.{mul_assoc, pow-suc, pow-succ', two-pow-succ, pow-le-pow_right}
use mathlib.Core.List.{reverse, reverse_aux}
use montecoin.Prelude.Int.{ℤ, pos}
use montecoin.Prelude.Int64
use montecoin.Prelude.Dict
use montecoin.Prelude.Dict.{Dict}
use montecoin.Kernel.{
  KernelBlock, KernelEnv, entropy_at, round_loop, new_stake_modifier, select_block_from_candidates,
  selection_interval_section, candidates, selection_start, sort_by_timestamp, insert_by_time,
}

-- The number whose binary digits are the entropy bits of the blocks, the lowest digit first.
abbrev pub number_of : List KernelBlock → ℕ
number_of [] = 0
number_of (b ∷ bs) = (if b.stake_entropy_bit then 1 else 0) + 2 * number_of bs

or_digits :
    (k fuel a c : ℕ) → a < 2 ^ k → a ≤ fuel → digits (λ b. b) max fuel a (c * 2 ^ k) ≡ a + c * 2 ^ k
or_digits k zero a c h f = omega (arith, f)
or_digits k (suc fuel) zero c h f = omega arith
or_digits zero (suc fuel) (suc a) c h f = absurd (omega (arith, h))
or_digits (suc k) (suc fuel) (suc a) c h f =
    let e : c * 2 ^ suc k ≡ c * 2 ^ k * 2 =
      ap (λ (x : ℕ). c * x) (pow-suc 2 k) ∙ sym (mul_assoc c (2 ^ k) 2) in
    let half : c * 2 ^ k * 2 / 2 ≡ c * 2 ^ k = omega arith in
    let ih = or_digits k fuel (suc a / 2) c (omega (arith, h, two-pow-succ k)) (omega (arith, f)) in
    rw e (rw half (omega (arith, ih)))

-- A digit above all those of a number is added to it.
bit_or_above : (k a c : ℕ) → a < 2 ^ k → bit_or a (c * 2 ^ k) ≡ a + c * 2 ^ k
bit_or_above k a c h = bit_or-bitwise a (c * 2 ^ k) ∙ or_digits k a a c h (omega arith)

bit_or-entropy_at :
    (n new : ℕ) (b : KernelBlock)
    → n < 64
    → new < 2 ^ n
    → bit_or new (entropy_at n b) ≡ new + (if b.stake_entropy_bit then 1 else 0) * 2 ^ n
bit_or-entropy_at n new b small h =
    let c : ℕ = if b.stake_entropy_bit then 1 else 0 in
    let more : 2 ^ suc n ≤ 2 ^ 64 =
      pow-le-pow_right {n = 2} (omega arith) {i = suc n} {j = 64} (omega (arith, small)) in
    let below : 2 ^ n < 2 ^ 64 = omega (arith, more, two-pow-succ n, h) in
    let kept : c * 2 ^ n % 2 ^ 64 ≡ c * 2 ^ n = bit_kept b.stake_entropy_bit (2 ^ n) below in
    rw kept (bit_or_above n new c h)
  where
    bit_kept :
        (bit : Bool) (p : ℕ)
        → p < 2 ^ 64
        → (if bit then 1 else 0) * p % 2 ^ 64 ≡ (if bit then 1 else 0) * p
    bit_kept true p l = omega (arith, l)
    bit_kept false p l = omega arith

module _ (env : KernelEnv) (items : List (ℕ × ℕ)) (prev : ℕ) where
  -- The blocks that the rounds from one on select, each from the candidates that were not selected before,
  -- with the interval that ends where the round's section does.
  abbrev pub Selects : ℕ → ℤ → Dict ℕ KernelBlock → List KernelBlock → Type 0
  Selects n_round stop selected [] = Unit {0}
  Selects n_round stop selected (b ∷ bs) =
      let section = selection_interval_section env.n_modifier_interval n_round in
      let stop' = Int64.add stop (pos section) in
      (select_block_from_candidates env items selected stop' prev ≡ some b)
      × Selects (suc n_round) stop' (Dict.insert b.hash_block b selected) bs

  round_loop-Selects :
      (left n_round : ℕ) (stop : ℤ) (selected : Dict ℕ KernelBlock) (new : ℕ) {m : ℕ}
      → n_round + left ≤ 64
      → new < 2 ^ n_round
      → round_loop env items prev left n_round stop selected new ≡ some m
      → (bs : List KernelBlock) × (length bs ≡ left)
        × Selects n_round stop selected bs
        × (m ≡ new + number_of bs * 2 ^ n_round)
  unfolding round_loop
  round_loop-Selects zero n_round stop selected new {m} t lt h =
      let same : new ≡ m = cc in ([], refl, tt, omega (arith, same))
  round_loop-Selects (suc left) n_round stop selected new {m} t lt h =
      let section = selection_interval_section env.n_modifier_interval n_round in
      let stop' = Int64.add stop (pos section) in
      elim (Option-cases (select_block_from_candidates env items selected stop' prev)) [
        | inl e ↦ (let f : none ≡ some m = rw e at h in cc)
        | inr (b, e) ↦
            let bit : ℕ = if b.stake_entropy_bit then 1 else 0 in
            let or = bit_or-entropy_at n_round new b (omega (arith, t)) lt in
            let less = new_bit b.stake_entropy_bit new n_round lt in
            let (bs, l, picked, sum) =
              round_loop-Selects left (suc n_round) stop' (Dict.insert b.hash_block b selected)
                (bit_or new (entropy_at n_round b)) (omega (arith, t)) (rw or less) (rw e at h) in
            (
              b ∷ bs,
              omega (arith, l),
              (e, picked),
              sum ∙ rw or (regroup new bit (number_of bs) n_round),
            )
      ]
    where
      new_bit :
          (bit : Bool) (new n : ℕ) → new < 2 ^ n → new + (if bit then 1 else 0) * 2 ^ n < 2 ^ suc n
      new_bit true new n l = omega (arith, l, two-pow-succ n)
      new_bit false new n l = omega (arith, l, two-pow-succ n)

      regroup : (a c s n : ℕ) → a + c * 2 ^ n + s * 2 ^ suc n ≡ a + (c + 2 * s) * 2 ^ n
      regroup a c s n =
          let e : s * 2 ^ suc n ≡ s * (2 * 2 ^ n) = ap (λ (x : ℕ). s * x) (pow-succ' 2 n) in
          grind (arith, e)

length-insert_by_time :
    (x : ℕ × ℕ) (xs : List (ℕ × ℕ)) → length (insert_by_time x xs) ≡ suc (length xs)
unfolding insert_by_time
length-insert_by_time x [] = refl
length-insert_by_time x (y ∷ ys) = ground (arith, length-insert_by_time x ys)

length-sort_by_timestamp : (xs : List (ℕ × ℕ)) → length (sort_by_timestamp xs) ≡ length xs
unfolding sort_by_timestamp
length-sort_by_timestamp [] = refl
length-sort_by_timestamp (x ∷ xs) =
    omega (arith, length-insert_by_time x (sort_by_timestamp xs), length-sort_by_timestamp xs)

length-reverse_aux : (xs ys : List (ℕ × ℕ)) → length (reverse_aux xs ys) ≡ length xs + length ys
length-reverse_aux [] ys = omega arith
length-reverse_aux (x ∷ xs) ys = omega (arith, length-reverse_aux xs (x ∷ ys))

-- A new stake modifier is the number whose bits are the entropy bits of the blocks that the rounds select,
-- that of the first round lowest. There is a round for each candidate, of the blocks back to the start of
-- the selection, but at most 64. In each round the block is the one that `SelectBlockFromCandidates` finds
-- among the candidates in the order of their time, for the end of the interval of this round and with the
-- blocks of the rounds before as the selected ones.
pub new_stake_modifier_bits :
    (env : KernelEnv) (b : KernelBlock) (chain : List KernelBlock) (prev m : ℕ)
    → new_stake_modifier env b chain prev ≡ some m
    → (bs : List KernelBlock) × (length bs
        ≡ min 64 (length (candidates (selection_start env b.n_time) (b ∷ chain))))
      × Selects env
          (sort_by_timestamp (reverse (candidates (selection_start env b.n_time) (b ∷ chain))))
          prev
          0
          (selection_start env b.n_time)
          []
          bs
      × (m ≡ number_of bs)
unfolding new_stake_modifier
new_stake_modifier_bits env b chain prev m h =
    let start = selection_start env b.n_time in
    let sorted = sort_by_timestamp (reverse (candidates start (b ∷ chain))) in
    let (bs, l, picked, sum) =
      round_loop-Selects env sorted prev (min 64 (length sorted)) 0 start [] 0 (omega arith)
        (omega arith) h in
    let n = length-sort_by_timestamp (reverse (candidates start (b ∷ chain))) in
    let n' = length-reverse_aux (candidates start (b ∷ chain)) [] in
    (bs, omega (arith, l, n, n'), picked, omega (arith, sum))
