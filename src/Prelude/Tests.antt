-- ===== src/Prelude/Tests.antt =====
-- Boolean tests on the native numbers, the conditional, and splits that keep the equation.
use Prim.Native.Nat.{ℕ, ◌≤◌, ◌<◌, compare, Ordering}
use mathlib.Core.Path.{◌≡◌, refl}
use mathlib.Core.Logic.{◌↔◌, ◌⊎◌, inl, inr, ◌≢◌}
use mathlib.Core.Bool.{Bool, true, false, ◌&&◌}
use mathlib.Core.Option.{Option, none, some}
use native.Mathlib.Omega.{arith}

abbrev pub ltb : ℕ → ℕ → Bool
ltb a b = elim (compare a b) [ Ordering.lt ↦ true | _ ↦ false ]

abbrev pub leb : ℕ → ℕ → Bool
leb a b = elim (compare a b) [ Ordering.gt ↦ false | _ ↦ true ]

infix 50 ◌==◌
abbrev pub ◌==◌ : ℕ → ℕ → Bool
a == b = elim (compare a b) [ Ordering.eq ↦ true | _ ↦ false ]

infix 1 if◌then◌else◌
abbrev pub if◌then◌else◌ {ℓ} : {A : Type ℓ} → Bool → A → A → A
if true then x else y = x
if false then x else y = y

pub ltb→lt : (a b : ℕ) → ltb a b ≡ true → a < b
ltb→lt a b h = ground arith

pub lt→ltb : (a b : ℕ) → a < b → ltb a b ≡ true
lt→ltb a b h = ground arith

pub leb→le : (a b : ℕ) → leb a b ≡ true → a ≤ b
leb→le a b h = ground arith

pub ==_iff : (a b : ℕ) → ((a == b) ≡ true) ↔ (a ≡ b)
==_iff a b = ground arith

pub Bool-cases : (b : Bool) → (b ≡ true) ⊎ (b ≡ false)
Bool-cases true = inl refl
Bool-cases false = inr refl

-- Two numbers are the same, or the test tells them apart.
pub ==-cases : (a b : ℕ) → ((a ≡ b) × ((a == b) ≡ true)) ⊎ ((a == b) ≡ false)
==-cases a b = ground arith

pub Option-cases {ℓ} : {A : Type ℓ} (o : Option A) → (o ≡ none) ⊎ ((a : A) × (o ≡ some a))
Option-cases none = inl refl
Option-cases (some a) = inr (a, refl)

pub &&-eq-true : (a b : Bool) → (a && b) ≡ true → (a ≡ true) × (b ≡ true)
&&-eq-true a b h = ground arith

pub some_inj {ℓ} : {A : Type ℓ} {a b : A} → some a ≡ some b → a ≡ b
some_inj h = cc

-- What a guarded result that is there says.
pub if_some {ℓ} :
    {A : Type ℓ} (b : Bool) (o : Option A) {v : A}
    → (if b then o else none) ≡ some v
    → (b ≡ true) × (o ≡ some v)
if_some true o h = (refl, h)
if_some false o h = cc

pub if_none {ℓ} :
    {A : Type ℓ} (b : Bool) (o : Option A) {v : A}
    → (if b then none else o) ≡ some v
    → (b ≡ false) × (o ≡ some v)
if_none true o h = cc
if_none false o h = (refl, h)

-- A search that stops at the first hit finds none.
pub no_hit : (c b : Bool) → ((if c then true else b) ≡ false) ↔ ((c ≡ false) × (b ≡ false))
no_hit true b = (λ h. cc, λ h. h.0)
no_hit false b = (λ h. (refl, h), λ h. h.1)

-- The keys of the program's ordered containers: the tests that `std::map` and `==` make.
pub record Key (K : Type 0) : Type 0 where
  pub before : K → K → Bool
  pub beq : K → K → Bool
  pub beq_iff : (a b : K) → (beq a b ≡ true) ↔ (a ≡ b)

instance abbrev pub nat_key : Key ℕ
nat_key = record { before = ltb; beq = ◌==◌; beq_iff = ==_iff }

module _ {K : Type 0} ⦃o : Key K⦄ where
  pub beq_refl : (a : K) → o.beq a a ≡ true
  beq_refl a = (o.beq_iff a a).1 refl

  pub beq_ne : (a b : K) → a ≢ b → o.beq a b ≡ false
  beq_ne a b h = elim (Bool-cases (o.beq a b)) [
    | inl e ↦ absurd (h ((o.beq_iff a b).0 e))
    | inr e ↦ e
  ]

  -- Equal keys are compared alike, on either side.
  pub beq_left : (i k j : K) → o.beq i k ≡ true → o.beq i j ≡ o.beq k j
  beq_left i k j e = rw ((o.beq_iff i k).0 e) refl

  pub beq_right : (i k j : K) → o.beq k j ≡ true → o.beq i k ≡ o.beq i j
  beq_right i k j e = rw ((o.beq_iff k j).0 e) refl
