-- ===== src/Chain/Retarget.antt =====
-- The target of the next block: `GetNextTargetRequired` of src/main.cpp, which is
-- `GetNextTargetRequiredV2`; what follows its first statement is never reached.
use montecoin.Prelude.{
  ℕ, zero, suc, ◌+◌, ◌*◌, ◌/◌, ◌≡◌, refl, Bool, ◌||◌, [], ◌∷◌, arith, if◌then◌else◌, Bool-cases,
  inl, inr,
}
use montecoin.Prelude.Int.{ℤ, pos, ltb_ℤ, leb_ℤ, ◌*ℤ◌, ◌≤ℤ◌, int_laws}
use montecoin.Prelude.Int64
use montecoin.Reward.{tdiv}
use montecoin.Chain.{Chain, BlockIndex, get_last_block_index}

-- What the rule takes for a kind of proof: the limit of targets, and the time of a period and of a block
-- in seconds; with `SetCompact` and `GetCompact` (OpenSSL).
pub record Rule : Type 0 where
  pub target_limit : ℤ
  pub n_target_timespan : ℕ
  pub n_target_spacing : ℕ
  pub set_compact : ℕ → ℤ
  pub get_compact : ℤ → ℕ

-- The loop that goes back over blocks with the same proof, and counts; the first argument is how often
-- it may still.
unfoldable pub back_loop : ℕ → Bool → Chain → ℕ → Chain × ℕ
back_loop zero stake pindex n = (pindex, n)
back_loop (suc left) stake [] n = ([], n)
back_loop (suc left) stake (b ∷ []) n = (b ∷ [], n)
back_loop (suc left) stake (b ∷ p ∷ pprev) n =
    back_loop left stake (get_last_block_index stake (p ∷ pprev)) (n + 1)

abbrev pub time_of : Chain → ℕ
time_of [] = 0
time_of (b ∷ pindex) = b.n_time

-- The time between the two blocks, and 1 if it is negative.
abbrev pub actual_spacing : ℕ → ℕ → ℤ
actual_spacing n_time n_time_before =
    let n_actual = Int64.sub (pos n_time) (pos n_time_before) in
    if ltb_ℤ n_actual (pos 0) then pos 1 else n_actual

-- The target moved towards the one at which the blocks would have come in time.
unfoldable pub moved_target : Rule → ℕ → ℕ → ℤ → ℤ
moved_target rule n_bits n_actual_interval n_actual_spacing =
    let n_interval = rule.n_target_timespan / rule.n_target_spacing in
    let spacing = rule.n_target_spacing * n_actual_interval in
    tdiv
      (rule.set_compact n_bits
        *ℤ Int64.add
            (Int64.add (Int64.mul (Int64.sub (pos n_interval) (pos 1)) (pos spacing))
              n_actual_spacing)
            n_actual_spacing)
      ((n_interval + 1) * spacing)

abbrev pub in_limit : ℤ → ℤ → ℤ
in_limit limit bn_new = if leb_ℤ bn_new (pos 0) || ltb_ℤ limit bn_new then limit else bn_new

-- The rule for the last block with the proof and the one with it before.
unfoldable pub from_two : Rule → Bool → BlockIndex → Chain → ℤ
from_two rule stake prev [] = rule.target_limit
from_two rule stake prev (b ∷ []) = rule.target_limit
from_two rule stake prev (b ∷ p ∷ pprev) =
    let back = back_loop 119 stake (b ∷ p ∷ pprev) 1 in
    in_limit rule.target_limit
      (moved_target rule prev.n_bits back.1 (actual_spacing prev.n_time (time_of back.0)))

unfoldable pub from_last : Rule → Bool → Chain → ℤ
from_last rule stake [] = rule.target_limit
from_last rule stake (b ∷ []) = rule.target_limit
from_last rule stake (b ∷ p ∷ pprev) =
    from_two rule stake b (get_last_block_index stake (p ∷ pprev))

unfoldable pub get_next_target_required : Rule → Bool → Chain → ℕ
get_next_target_required rule stake pindex_last =
    rule.get_compact (from_last rule stake (get_last_block_index stake pindex_last))

in_limit_lem :
    (limit bn : ℤ) → pos 1 ≤ℤ limit → (pos 1 ≤ℤ in_limit limit bn) × (in_limit limit bn ≤ℤ limit)
in_limit_lem limit bn h = elim (Bool-cases (leb_ℤ bn (pos 0) || ltb_ℤ limit bn)) [
  | inl c ↦ rw c (h, omega int_laws)
  | inr c ↦ rw c (ground (arith, c), ground (arith, c))
]

from_last_lem :
    (rule : Rule) (stake : Bool) (pindex : Chain)
    → pos 1 ≤ℤ rule.target_limit
    → (pos 1 ≤ℤ from_last rule stake pindex) × (from_last rule stake pindex ≤ℤ rule.target_limit)
unfolding from_last from_two
from_last_lem rule stake [] h = (h, omega int_laws)
from_last_lem rule stake (b ∷ []) h = (h, omega int_laws)
from_last_lem rule stake (b ∷ p ∷ pprev) h = by_prev (get_last_block_index stake (p ∷ pprev))
  where
    bn_new : BlockIndex → BlockIndex → Chain → ℤ
    bn_new c q pindex =
        let back = back_loop 119 stake (c ∷ q ∷ pindex) 1 in
        moved_target rule b.n_bits back.1 (actual_spacing b.n_time (time_of back.0))

    by_prev :
        (pindex : Chain)
        → (pos 1 ≤ℤ from_two rule stake b pindex)
          × (from_two rule stake b pindex ≤ℤ rule.target_limit)
    by_prev [] = (h, omega int_laws)
    by_prev (c ∷ []) = (h, omega int_laws)
    by_prev (c ∷ q ∷ pindex) = in_limit_lem rule.target_limit (bn_new c q pindex) h

-- The bits of the next block are those of a target between 1 and the limit, for every chain and
-- whatever the bits of its blocks are.
pub get_next_target_required_bounds :
    (rule : Rule) (stake : Bool) (pindex_last : Chain)
    → pos 1 ≤ℤ rule.target_limit
    → (target : ℤ) × (get_next_target_required rule stake pindex_last ≡ rule.get_compact target)
      × (pos 1 ≤ℤ target)
      × (target ≤ℤ rule.target_limit)
unfolding get_next_target_required
get_next_target_required_bounds rule stake pindex_last h =
    let last = get_last_block_index stake pindex_last in
    let b = from_last_lem rule stake last h in (from_last rule stake last, refl, b.0, b.1)
