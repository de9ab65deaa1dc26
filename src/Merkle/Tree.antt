-- ===== src/Merkle/Tree.antt =====
-- What `BuildMerkleTree` of src/main.h leaves in the tree.
use montecoin.Prelude.{
  ℕ, zero, suc, ◌+◌, ◌-◌, ◌*◌, ◌/◌, ◌≤◌, ◌<◌, ◌≡◌, refl, sym, ◌∙◌, true, false, List, [], ◌∷◌, ◌++◌,
  length, get_or, ltb, arith, Bool-cases, inl, inr, length-append, get_or-append_left,
  get_or-append_end,
}
use montecoin.Merkle.{push_pairs, push_levels}
use mathlib.Core.Path.{subst}
use Prim.Native.Nat.{min}

-- The nodes of a list stay where they are in another.
abbrev pub Extends : List ℕ → List ℕ → Type 0
Extends tree tree' = (x : ℕ) → x < length tree → get_or tree' x 0 ≡ get_or tree x 0

module _ (hash : ℕ → ℕ → ℕ) where
  -- The pairs from `m` on of the level of `n_size` nodes at `j` stand above the level.
  abbrev pub HasPairs : List ℕ → ℕ → ℕ → ℕ → Type 0
  HasPairs tree j n_size m =
      (a : ℕ)
      → m ≤ a
      → a < (n_size + 1) / 2
      → get_or tree (j + n_size + a) 0
        ≡ hash (get_or tree (j + 2 * a) 0) (get_or tree (j + min (2 * a + 1) (n_size - 1)) 0)

  Extends-append_left :
      (tree tree' : List ℕ) (y : ℕ) {n : ℕ}
      → length (tree ++ y ∷ []) ≡ n
      → Extends (tree ++ y ∷ []) tree'
      → Extends tree tree'
  Extends-append_left tree tree' y l e x h =
      e x (omega (arith, length-append tree (y ∷ []))) ∙ get_or-append_left tree (y ∷ []) x 0 h

  -- The pairs from `m` on are the pair `m` and those after it.
  one_more :
      (tree' tree : List ℕ) (j n_size m : ℕ)
      → length tree ≡ j + n_size + m
      → ltb (2 * m) n_size ≡ true
      → Extends tree tree'
      → get_or tree' (j + n_size + m) 0
        ≡ hash (get_or tree (j + 2 * m) 0) (get_or tree (j + min (2 * m + 1) (n_size - 1)) 0)
      → HasPairs tree' j n_size (m + 1)
      → HasPairs tree' j n_size m
  one_more tree' tree j n_size m l e up y next a h k = elim (Bool-cases (ltb m a)) [
    | inl lt ↦ next a (ground arith) k
    | inr ge ↦
        let same : a ≡ m = ground arith in
        rw
          (
            same,
            up (j + 2 * m) (ground arith),
            up (j + min (2 * m + 1) (n_size - 1)) (ground arith),
          )
          y
  ]

  push_pairs_lem :
      (fuel j n_size m : ℕ) (tree : List ℕ)
      → (n_size + 1) / 2 ≤ m + fuel
      → m ≤ (n_size + 1) / 2
      → length tree ≡ j + n_size + m
      → (length (push_pairs hash fuel j n_size (2 * m) tree) ≡ j + n_size + (n_size + 1) / 2)
        × Extends tree (push_pairs hash fuel j n_size (2 * m) tree)
        × HasPairs (push_pairs hash fuel j n_size (2 * m) tree) j n_size m
  unfolding push_pairs
  push_pairs_lem zero j n_size m tree f b l =
      (omega arith, λ x h. refl, λ a h k. absurd (omega arith))
  push_pairs_lem (suc fuel) j n_size m tree f b l = elim (Bool-cases (ltb (2 * m) n_size)) [
    | inr e ↦
        let done : (n_size + 1) / 2 ≤ m = ground arith in
        rw e (omega arith, λ x h. refl, λ a h k. absurd (omega arith))
    | inl e ↦
        let more : m + 1 ≤ (n_size + 1) / 2 = ground arith in
        let y =
          hash (get_or tree (j + 2 * m) 0) (get_or tree (j + min (2 * m + 1) (n_size - 1)) 0) in
        let l' : length (tree ++ y ∷ []) ≡ j + n_size + (m + 1) =
          length-append tree (y ∷ []) ∙ omega arith in
        let step : 2 * m + 2 ≡ 2 * (m + 1) = omega arith in
        let ih = push_pairs_lem fuel j n_size (m + 1) (tree ++ y ∷ []) (omega arith) more l' in
        let up =
          Extends-append_left tree (push_pairs hash fuel j n_size (2 * (m + 1)) (tree ++ y ∷ [])) y
            l' ih.1 in
        rw (e, step)
          (
            ih.0,
            up,
            one_more (push_pairs hash fuel j n_size (2 * (m + 1)) (tree ++ y ∷ [])) tree j n_size m
                l e up
                (ih.1 (j + n_size + m) (omega (arith, l'))
                  ∙ get_or-append_end tree y (j + n_size + m) 0 (sym l))
                ih.2,
          )
  ]

  -- Level by level up to a level of one node, the last of the tree.
  abbrev pub IsTree : List ℕ → ℕ → ℕ → ℕ → Type 0
  IsTree tree zero n_size j = Unit {0}
  IsTree tree (suc fuel) n_size j =
      (ltb 1 n_size ≡ true
        → HasPairs tree j n_size 0 × IsTree tree fuel ((n_size + 1) / 2) (j + n_size))
      × (ltb 1 n_size ≡ false → length tree ≡ j + n_size)

  -- Pairs stay where they are in a tree that grows.
  pairs_up :
      (tree tree' : List ℕ) (j n_size : ℕ)
      → ltb 1 n_size ≡ true
      → length tree ≡ j + n_size + (n_size + 1) / 2
      → Extends tree tree'
      → HasPairs tree j n_size 0
      → HasPairs tree' j n_size 0
  pairs_up tree tree' j n_size c l e p a h k =
      let b : j + n_size + a < length tree = omega (arith, l) in
      let b₁ : j + 2 * a < length tree = omega (arith, l) in
      let b₂ : j + min (2 * a + 1) (n_size - 1) < length tree = ground (arith, l, c) in
      rw (e (j + n_size + a) b, e (j + 2 * a) b₁, e (j + min (2 * a + 1) (n_size - 1)) b₂) (p a h k)

  pub push_levels_lem :
      (fuel n_size j : ℕ) (tree : List ℕ)
      → length tree ≡ j + n_size
      → Extends tree (push_levels hash fuel n_size j tree)
        × IsTree (push_levels hash fuel n_size j tree) fuel n_size j
  unfolding push_levels
  push_levels_lem zero n_size j tree l = (λ x h. refl, tt)
  push_levels_lem (suc fuel) n_size j tree l = elim (Bool-cases (ltb 1 n_size)) [
    | inr e ↦ rw e (λ x h. refl, (λ c. cc, λ c. l))
    | inl e ↦
        let p = push_pairs_lem n_size j n_size 0 tree (omega arith) (omega arith) (omega arith) in
        let ih =
          push_levels_lem fuel ((n_size + 1) / 2) (j + n_size)
            (push_pairs hash n_size j n_size 0 tree) p.0 in
        let t = push_pairs hash n_size j n_size 0 tree in
        let same : push_levels hash (suc fuel) n_size j tree
            ≡ push_levels hash fuel ((n_size + 1) / 2) (j + n_size) t =
          rw e refl in
        subst (λ u. Extends tree u × IsTree u (suc fuel) n_size j) (sym same)
          (
            λ x h. ih.0 x (omega (arith, p.0)) ∙ p.1 x h,
            (
              λ c. (
                pairs_up t (push_levels hash fuel ((n_size + 1) / 2) (j + n_size) t) j n_size e p.0
                    ih.0 p.2,
                ih.1,
              ),
              λ c. absurd (ground (arith, e, c)),
            ),
          )
  ]
