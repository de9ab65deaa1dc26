-- ===== src/Prelude/OrderedSet.antt =====
-- `std::set`, as a list in the order of its elements. The laws need no order.
use montecoin.Prelude.Tests.{Key, beq_ne, beq_left, beq_right, if◌then◌else◌}
use mathlib.Core.Path.{◌≡◌, refl}
use mathlib.Core.Bool.{Bool, true, false, ◌||◌}
use mathlib.Core.Logic.{◌↔◌, ◌≢◌}
use mathlib.Core.List.{List, [], ◌∷◌, ◌++◌}
use native.Mathlib.Omega.{arith}

module _ {K : Type 0} ⦃o : Key K⦄ where
  unfoldable pub contains : K → List K → Bool
  contains k [] = false
  contains k (j ∷ s) = o.beq j k || contains k s

  unfoldable pub insert : K → List K → List K
  insert k [] = k ∷ []
  insert k (j ∷ s) = if o.before k j then k ∷ j ∷ s else if o.beq j k then j ∷ s else j ∷ insert k s

  unfoldable pub erase : K → List K → List K
  erase k [] = []
  erase k (j ∷ s) = if o.beq j k then erase k s else j ∷ erase k s

  pub contains-insert :
      (k j : K) (s : List K) → contains j (insert k s) ≡ (o.beq k j || contains j s)
  unfolding contains insert
  contains-insert k j [] = refl
  contains-insert k j (i ∷ s) =
      ground (arith, beq_left i k j, beq_right i k j, contains-insert k j s)

  pub contains-erase :
      (k j : K) (s : List K) → contains j (erase k s) ≡ (if o.beq k j then false else contains j s)
  unfolding contains erase
  contains-erase k j [] = ground arith
  contains-erase k j (i ∷ s) = ground (arith, beq_left i k j, beq_right i k j, contains-erase k j s)

  pub contains-append :
      (j : K) (s t : List K) → contains j (s ++ t) ≡ (contains j s || contains j t)
  unfolding contains
  contains-append j [] t = refl
  contains-append j (i ∷ s) t = ground (arith, contains-append j s t)

  -- What is not in a set after an insertion.
  pub contains-insert-false :
      (k j : K) (s : List K)
      → (contains j (insert k s) ≡ false) ↔ ((k ≢ j) × (contains j s ≡ false))
  contains-insert-false k j s = rw (contains-insert k j s) (
    λ h. (
      λ e. or_absurd (o.beq k j) (contains j s) ((o.beq_iff k j).1 e) h,
      or_right (o.beq k j) (contains j s) h,
    ),
    λ h. rw (beq_ne k j h.0) h.1,
  )
    where
      or_absurd : (a b : Bool) → a ≡ true → (a || b) ≡ false → ⊥
      or_absurd a b h e = ground arith

      or_right : (a b : Bool) → (a || b) ≡ false → b ≡ false
      or_right a b h = ground arith
