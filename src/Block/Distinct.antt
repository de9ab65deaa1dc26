-- ===== src/Block/Distinct.antt =====
-- The set of the hashes in `CheckBlock` of src/main.cpp is as large as the block exactly if they are
-- distinct.
use montecoin.Prelude.{
  ℕ, suc, ◌+◌, ◌≤◌, ◌<◌, ◌≡◌, ◌≢◌, ◌↔◌, refl, false, List, [], ◌∷◌, length, ltb, ◌==◌,
  if◌then◌else◌, arith, nat_key, Bool-cases, inl, inr,
}
use montecoin.Prelude.OrderedSet.{contains, insert, contains-insert-false}
use montecoin.Block.{insert_all}

abbrev AllAbove : ℕ → List ℕ → Type 0
AllAbove k [] = Unit {0}
AllAbove k (j ∷ s) = (k < j) × AllAbove k s

abbrev Ascending : List ℕ → Type 0
Ascending [] = Unit {0}
Ascending (j ∷ s) = AllAbove j s × Ascending s

-- A hash is not in a list, and a list repeats none.
abbrev pub NotIn : ℕ → List ℕ → Type 0
NotIn k [] = Unit {0}
NotIn k (j ∷ s) = (k ≢ j) × NotIn k s

abbrev pub Distinct : List ℕ → Type 0
Distinct [] = Unit {0}
Distinct (k ∷ s) = NotIn k s × Distinct s

lower_above : (i k : ℕ) (s : List ℕ) → i < k → AllAbove k s → AllAbove i s
lower_above i k [] l a = tt
lower_above i k (j ∷ s) l a = (omega (arith, l, a.0), lower_above i k s l a.1)

insert-above : (i k : ℕ) (s : List ℕ) → i < k → AllAbove i s → AllAbove i (insert k s)
unfolding insert
insert-above i k [] l a = (l, tt)
insert-above i k (j ∷ s) l a = elim (Bool-cases (ltb k j)) [
  | inl p ↦ rw p (l, a)
  | inr p ↦ elim (Bool-cases (j == k)) [
    | inl q ↦ rw (p, q) a
    | inr q ↦ rw (p, q) (a.0, insert-above i k s l a.1)
  ]
]

insert-Ascending : (k : ℕ) (s : List ℕ) → Ascending s → Ascending (insert k s)
unfolding insert
insert-Ascending k [] a = (tt, tt)
insert-Ascending k (j ∷ s) a = elim (Bool-cases (ltb k j)) [
  | inl p ↦ rw p ((ground (arith, p), lower_above k j s (ground (arith, p)) a.0), a)
  | inr p ↦ elim (Bool-cases (j == k)) [
    | inl q ↦ rw (p, q) a
    | inr q ↦ rw (p, q) (insert-above j k s (ground (arith, p, q)) a.0, insert-Ascending k s a.1)
  ]
]

absent : (k : ℕ) (s : List ℕ) → AllAbove k s → contains k s ≡ false
unfolding contains
absent k [] a = refl
absent k (j ∷ s) a = let ih = absent k s a.1 in ground (arith, a.0, ih)

length-insert :
    (k : ℕ) (s : List ℕ)
    → Ascending s
    → length (insert k s) ≡ (if contains k s then length s else suc (length s))
unfolding insert contains
length-insert k [] a = refl
length-insert k (j ∷ s) a =
    let ih = length-insert k s a.1 in
    elim (Bool-cases (ltb k j)) [
      | inl p ↦
          let c = absent k s (lower_above k j s (ground (arith, p)) a.0) in
          let q : j == k ≡ false = ground (arith, p) in rw (p, q, c) refl
      | inr p ↦ elim (Bool-cases (j == k)) [
        | inl q ↦ rw (p, q) refl
        | inr q ↦ rw (p, q) (ground (arith, ih))
      ]
    ]

-- No hash of the first list is in the second.
abbrev Apart : List ℕ → List ℕ → Type 0
Apart [] s = Unit {0}
Apart (k ∷ ks) s = (contains k s ≡ false) × Apart ks s

Apart-insert : (ks s : List ℕ) (k : ℕ) → Apart ks (insert k s) ↔ (NotIn k ks × Apart ks s)
Apart-insert [] s k = (λ h. (tt, tt), λ h. tt)
Apart-insert (j ∷ ks) s k =
    let (f, g) = contains-insert-false k j s in
    let (f', g') = Apart-insert ks s k in
    (
      λ h. (((f h.0).0, (f' h.1).0), ((f h.0).1, (f' h.1).1)),
      λ h. (g (h.0.0, h.1.0), g' (h.0.1, h.1.1)),
    )

insert_all_le : (s ks : List ℕ) → Ascending s → length (insert_all s ks) ≤ length s + length ks
unfolding insert_all
insert_all_le s [] a = omega arith
insert_all_le s (k ∷ ks) a =
    let l = length-insert k s a in
    let ih = insert_all_le (insert k s) ks (insert-Ascending k s a) in ground (arith, l, ih)

insert_all_from :
    (s ks : List ℕ)
    → Ascending s
    → (length (insert_all s ks) ≡ length s + length ks) ↔ (Apart ks s × Distinct ks)
unfolding insert_all
insert_all_from s [] a = (λ h. (tt, tt), λ h. omega arith)
insert_all_from s (k ∷ ks) a =
    let l = length-insert k s a in
    let a' = insert-Ascending k s a in
    let le = insert_all_le (insert k s) ks a' in
    let (f, g) = insert_all_from (insert k s) ks a' in
    let (f', g') = Apart-insert ks s k in
    elim (Bool-cases (contains k s)) [
      | inl c ↦ (λ h. absurd (ground (arith, c, l, le, h)), λ h. absurd (ground (arith, c, h.0.0)))
      | inr c ↦ (
        λ h.
            let (ap, d) = f (ground (arith, c, l, h)) in let (n, ap') = f' ap in ((c, ap'), (n, d)),
        λ h. let e = g (g' (h.1.0, h.0.1), h.1.1) in ground (arith, c, l, e),
      )
    ]

Apart-empty : (ks : List ℕ) → Apart ks []
unfolding contains
Apart-empty [] = tt
Apart-empty (k ∷ ks) = (refl, Apart-empty ks)

pub insert_all_lem : (ks : List ℕ) → (length (insert_all [] ks) ≡ length ks) ↔ Distinct ks
insert_all_lem ks =
    let (f, g) = insert_all_from [] ks tt in
    (λ h. (f (omega (arith, h))).1, λ d. omega (arith, g (Apart-empty ks, d)))
