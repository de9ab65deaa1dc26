-- ===== src/Chain/Suffix.antt =====
-- What a chain of src/main.h has in common with another: the blocks from some block back.
use montecoin.Prelude.{◌≤◌, ◌≡◌, ◌⊎◌, inl, inr, refl, ap, [], ◌∷◌, length, arith}
use montecoin.Chain.{Chain}

-- The first chain is what is left of the second after some steps back.
unfoldable pub IsSuffix : Chain → Chain → Type 0
IsSuffix s [] = s ≡ []
IsSuffix s (b ∷ c) = (s ≡ b ∷ c) ⊎ IsSuffix s c

pub refl-IsSuffix : (c : Chain) → IsSuffix c c
unfolding IsSuffix
refl-IsSuffix [] = refl
refl-IsSuffix (b ∷ c) = inl refl

pub length-IsSuffix : (s c : Chain) → IsSuffix s c → length s ≤ length c
unfolding IsSuffix
length-IsSuffix s [] h = rw h (omega arith)
length-IsSuffix s (b ∷ c) (inl h) = rw h (omega arith)
length-IsSuffix s (b ∷ c) (inr h) = omega (arith, length-IsSuffix s c h)

pub trans-IsSuffix : (r s c : Chain) → IsSuffix r s → IsSuffix s c → IsSuffix r c
unfolding IsSuffix
trans-IsSuffix r s [] h k = rw k at h
trans-IsSuffix r s (b ∷ c) h (inl k) = rw k at h
trans-IsSuffix r s (b ∷ c) h (inr k) = inr (trans-IsSuffix r s c h k)

-- A suffix of the same length is the whole chain, and the shorter of two is a suffix of the longer.
pub whole-IsSuffix : (s c : Chain) → IsSuffix s c → length c ≤ length s → s ≡ c
unfolding IsSuffix
whole-IsSuffix s [] h l = h
whole-IsSuffix s (b ∷ c) (inl h) l = h
whole-IsSuffix s (b ∷ c) (inr h) l = absurd (omega (arith, length-IsSuffix s c h))

pub shorter-IsSuffix :
    (r s c : Chain) → IsSuffix r c → IsSuffix s c → length r ≤ length s → IsSuffix r s
unfolding IsSuffix
shorter-IsSuffix r s [] h k l = rw k h
shorter-IsSuffix r s (b ∷ c) h (inl k) l = rw k h
shorter-IsSuffix r s (b ∷ c) (inl h) (inr k) l =
    absurd (omega (arith, length-IsSuffix s c k, ap (λ x. length x) h))
shorter-IsSuffix r s (b ∷ c) (inr h) (inr k) l = shorter-IsSuffix r s c h k l
