-- ===== src/Prelude/Dict.antt =====
-- `std::map`, as an association list in the order of its keys. The laws need no order.
use montecoin.Prelude.Tests.{
  ltb, ◌==◌, nat_key, some_inj, Bool-cases, Key, beq_refl, beq_ne, beq_left, beq_right,
  if◌then◌else◌,
}
use mathlib.Core.Path.{◌≡◌, refl, sym, ◌∙◌}
use mathlib.Core.Logic.{◌≢◌, ◌⊎◌, inl, inr}
use Prim.Native.Nat.{ℕ, ◌<◌}
use mathlib.Core.Bool.{Bool, true, false, ◌||◌}
use mathlib.Core.Option.{Option, none, some}
use mathlib.Core.List.{List, [], ◌∷◌}
use native.Mathlib.Omega.{arith}

abbrev pub Dict : Type 0 → Type 0 → Type 0
Dict K V = List (K × V)

abbrev has : {V : Type 0} → Option V → Bool
has none = false
has (some v) = true

module _ {K V : Type 0} ⦃o : Key K⦄ where
  unfoldable pub lookup : K → Dict K V → Option V
  lookup k [] = none
  lookup k ((j, v) ∷ m) = if o.beq j k then some v else lookup k m

  unfoldable pub contains : K → Dict K V → Bool
  unfolding lookup
  contains k m = elim (lookup k m) [ none ↦ false | some _ ↦ true ]

  unfoldable pub insert : K → V → Dict K V → Dict K V
  insert k v [] = (k, v) ∷ []
  insert k v ((j, w) ∷ m) =
      if o.before k j
      then (k, v) ∷ (j, w) ∷ m
      else if o.beq j k
      then (k, v) ∷ m
      else (j, w) ∷ insert k v m

  unfoldable pub erase : K → Dict K V → Dict K V
  erase k [] = []
  erase k ((j, w) ∷ m) = if o.beq j k then erase k m else (j, w) ∷ erase k m

  -- A lookup after a write.
  pub lookup-insert :
      (k j : K) (v : V) (m : Dict K V)
      → lookup j (insert k v m) ≡ (if o.beq k j then some v else lookup j m)
  unfolding lookup insert
  lookup-insert k j v [] = refl
  lookup-insert k j v ((i, w) ∷ m) =
      ground (arith, beq_left i k j, beq_right i k j, lookup-insert k j v m)

  -- A lookup after a deletion.
  pub lookup-erase :
      (k j : K) (m : Dict K V) → lookup j (erase k m) ≡ (if o.beq k j then none else lookup j m)
  unfolding lookup erase
  lookup-erase k j [] = ground arith
  lookup-erase k j ((i, w) ∷ m) =
      ground (arith, beq_left i k j, beq_right i k j, lookup-erase k j m)

  contains_lem : (k : K) (m : Dict K V) → contains k m ≡ has (lookup k m)
  unfolding contains
  contains_lem k m = go (lookup k m)
    where
      go : (e : Option V) → (elim e [ none ↦ false | some _ ↦ true ]) ≡ has e
      go none = refl
      go (some v) = refl

  pub contains-insert :
      (k j : K) (v : V) (m : Dict K V) → contains j (insert k v m) ≡ (o.beq k j || contains j m)
  contains-insert k j v m =
      rw (contains_lem j (insert k v m), contains_lem j m, lookup-insert k j v m)
        (split (o.beq k j) (lookup j m))
    where
      split : (c : Bool) (e : Option V) → has (if c then some v else e) ≡ (c || has e)
      split true e = refl
      split false e = refl

  pub lookup-insert_self : (k : K) (v : V) (m : Dict K V) → lookup k (insert k v m) ≡ some v
  lookup-insert_self k v m = rw (lookup-insert, beq_refl k)

  pub lookup-insert_ne :
      (k j : K) (v : V) (m : Dict K V) → k ≢ j → lookup j (insert k v m) ≡ lookup j m
  lookup-insert_ne k j v m h = rw (lookup-insert, beq_ne k j h)

  pub lookup-erase_self : (k : K) (m : Dict K V) → lookup k (erase k m) ≡ none
  lookup-erase_self k m = rw (lookup-erase, beq_refl k)

  pub lookup-erase_ne : (k j : K) (m : Dict K V) → k ≢ j → lookup j (erase k m) ≡ lookup j m
  lookup-erase_ne k j m h = rw (lookup-erase, beq_ne k j h)

  -- Where an entry that is found after a write comes from, and one after a deletion.
  pub lookup-insert-some :
      (k j : K) (v : V) (m : Dict K V) {w : V}
      → lookup j (insert k v m) ≡ some w
      → ((k ≡ j) × (v ≡ w)) ⊎ ((o.beq k j ≡ false) × (lookup j m ≡ some w))
  lookup-insert-some k j v m {w} h = elim (Bool-cases (o.beq k j)) [
    | inl e ↦
        let l = rw e at (lookup-insert k j v m) in
        let r : some v ≡ some w = sym l ∙ h in inl ((o.beq_iff k j).0 e, some_inj r)
    | inr e ↦
        let l = rw e at (lookup-insert k j v m) in
        let r : lookup j m ≡ some w = sym l ∙ h in inr (e, r)
  ]

  pub lookup-erase-some :
      (k j : K) (m : Dict K V) {w : V}
      → lookup j (erase k m) ≡ some w
      → (o.beq k j ≡ false) × (lookup j m ≡ some w)
  lookup-erase-some k j m {w} h = elim (Bool-cases (o.beq k j)) [
    | inl e ↦
        let l = rw e at (lookup-erase k j m) in
        let r : none ≡ some w = sym l ∙ h in absurd (ground arith)
    | inr e ↦
        let l = rw e at (lookup-erase k j m) in let r : lookup j m ≡ some w = sym l ∙ h in (e, r)
  ]

  pub contains-true : (k : K) (m : Dict K V) {v : V} → lookup k m ≡ some v → contains k m ≡ true
  unfolding contains
  contains-true k m h = ground (arith, h)

  pub contains-false : (k : K) (m : Dict K V) → contains k m ≡ false → lookup k m ≡ none
  unfolding contains
  contains-false k m h = ground (arith, h)

-- The keys ascend, as in `std::map`.
abbrev pub AllAfter : {V : Type 0} → ℕ → Dict ℕ V → Type 0
AllAfter k [] = Unit {0}
AllAfter k ((j, v) ∷ m) = (k < j) × AllAfter k m

abbrev pub Ascending : {V : Type 0} → Dict ℕ V → Type 0
Ascending [] = Unit {0}
Ascending ((k, v) ∷ m) = AllAfter k m × Ascending m

module _ {V : Type 0} where
  after_lower : (i k : ℕ) (m : Dict ℕ V) → i < k → AllAfter k m → AllAfter i m
  after_lower i k [] l a = tt
  after_lower i k ((j, v) ∷ m) l a = (omega (arith, l, a.0), after_lower i k m l a.1)

  subst_key : (k j : ℕ) (m : Dict ℕ V) → j == k ≡ true → AllAfter j m → AllAfter k m
  subst_key k j [] q a = tt
  subst_key k j ((i, v) ∷ m) q a = (ground (arith, q, a.0), subst_key k j m q a.1)

  insert-AllAfter :
      (i k : ℕ) (v : V) (m : Dict ℕ V) → i < k → AllAfter i m → AllAfter i (insert k v m)
  unfolding insert
  insert-AllAfter i k v [] l a = (l, tt)
  insert-AllAfter i k v ((j, w) ∷ m) l a = elim (Bool-cases (ltb k j)) [
    | inl p ↦ rw p (l, a)
    | inr p ↦ elim (Bool-cases (j == k)) [
      | inl q ↦ rw (p, q) (l, a.1)
      | inr q ↦ rw (p, q) (a.0, insert-AllAfter i k v m l a.1)
    ]
  ]

  pub insert-Ascending : (k : ℕ) (v : V) (m : Dict ℕ V) → Ascending m → Ascending (insert k v m)
  unfolding insert
  insert-Ascending k v [] a = (tt, tt)
  insert-Ascending k v ((j, w) ∷ m) a = elim (Bool-cases (ltb k j)) [
    | inl p ↦ rw p ((ground (arith, p), after_lower k j m (ground (arith, p)) a.0), a)
    | inr p ↦ elim (Bool-cases (j == k)) [
      | inl q ↦ rw (p, q) (subst_key k j m q a.0, a.1)
      | inr q ↦
          rw (p, q) (insert-AllAfter j k v m (ground (arith, p, q)) a.0, insert-Ascending k v m a.1)
    ]
  ]

  pub lookup_before : (k : ℕ) (m : Dict ℕ V) → AllAfter k m → lookup k m ≡ none
  unfolding lookup
  lookup_before k [] a = refl
  lookup_before k ((j, v) ∷ m) a = let ih = lookup_before k m a.1 in ground (arith, a.0, ih)
