-- ===== src/Prelude/Int64.antt =====
-- The C++ type int64: integers that wrap around at 64 bits.
use montecoin.Prelude.Tests.{ltb, if◌then◌else◌}
use montecoin.Prelude.Int.{ℤ, pos, negsuc, pos_part, neg_part, ◌+ℤ◌, ◌-ℤ◌, ◌*ℤ◌, ◌≤ℤ◌}
use Prim.Native.Nat.{ℕ, ◌*◌, ◌-◌, ◌%◌, ◌^◌, ◌≤◌, ◌<◌}
use mathlib.Core.Path.{◌≡◌}
use native.Mathlib.Omega.{arith}

-- The bit pattern of an integer, and the integer that a pattern stands for.
abbrev pub to_word : ℤ → ℕ
to_word (pos n) = n % 2 ^ 64
to_word (negsuc n) = 2 ^ 64 - 1 - n % 2 ^ 64

abbrev pub from_word : ℕ → ℤ
from_word w = if ltb w (2 ^ 63) then pos w else negsuc (2 ^ 64 - 1 - w)

unfoldable pub wrap : ℤ → ℤ
wrap z = from_word (to_word z)

unfoldable pub add : ℤ → ℤ → ℤ
unfolding ◌+ℤ◌ wrap
add a b = wrap (a +ℤ b)

unfoldable pub sub : ℤ → ℤ → ℤ
unfolding ◌-ℤ◌ wrap
sub a b = wrap (a -ℤ b)

-- An integer that fits is kept.
pub wrap_fits : (z : ℤ) → pos_part z < 2 ^ 63 → neg_part z ≤ 2 ^ 63 → wrap z ≡ z
unfolding wrap
wrap_fits (pos n) h k = ground arith
wrap_fits (negsuc n) h k = ground arith

pub add_fits :
    (a b : ℤ) → pos_part (a +ℤ b) < 2 ^ 63 → neg_part (a +ℤ b) ≤ 2 ^ 63 → add a b ≡ a +ℤ b
unfolding add
add_fits a b h k = wrap_fits (a +ℤ b) h k

pub sub_fits :
    (a b : ℤ) → pos_part (a -ℤ b) < 2 ^ 63 → neg_part (a -ℤ b) ≤ 2 ^ 63 → sub a b ≡ a -ℤ b
unfolding sub
sub_fits a b h k = wrap_fits (a -ℤ b) h k

unfoldable pub mul : ℤ → ℤ → ℤ
unfolding ◌*ℤ◌ wrap
mul a b = wrap (a *ℤ b)

pub mul_fits : (a b : ℕ) → a * b < 2 ^ 63 → mul (pos a) (pos b) ≡ pos (a * b)
unfolding mul ◌*ℤ◌
mul_fits a b h =
    let e : pos a *ℤ pos b ≡ pos (a * b) = ground arith in
    rw e (wrap_fits (pos (a * b)) h (omega arith))

wrap_range : (z : ℤ) → (pos_part (wrap z) < 2 ^ 63) × (neg_part (wrap z) ≤ 2 ^ 63)
unfolding wrap
wrap_range (pos n) = ground arith
wrap_range (negsuc n) = ground arith

-- A number that wraps around becomes less.
pub wrap_le : (n : ℕ) → wrap (pos n) ≤ℤ pos n
unfolding wrap
wrap_le n = ground arith

pub mul_le : (a b : ℕ) → mul (pos a) (pos b) ≤ℤ pos (a * b)
unfolding mul ◌*ℤ◌
mul_le a b = let e : pos a *ℤ pos b ≡ pos (a * b) = ground arith in rw e (wrap_le (a * b))

pub mul_range : (a b : ℤ) → (pos_part (mul a b) < 2 ^ 63) × (neg_part (mul a b) ≤ 2 ^ 63)
unfolding mul
mul_range a b = wrap_range (a *ℤ b)

pub sub_range : (a b : ℤ) → (pos_part (sub a b) < 2 ^ 63) × (neg_part (sub a b) ≤ 2 ^ 63)
unfolding sub
sub_range a b = wrap_range (a -ℤ b)
