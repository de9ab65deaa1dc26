-- ===== src/Chain/Fork.antt =====
-- The fork that `Reorganize` of src/main.cpp looks for.
use montecoin.Prelude.{
  ℕ, suc, ◌≤◌, ◌≡◌, ◌≢◌, ◌⊎◌, inl, inr, refl, sym, ap, ◌∙◌, true, false, [], ◌∷◌, ◌++◌, some,
  length, ltb, arith, Bool-cases,
}
use montecoin.Chain.{BlockIndex, Chain, same_block, go_down, find_fork, list_above}
use montecoin.Chain.Suffix.{
  IsSuffix, refl-IsSuffix, length-IsSuffix, trans-IsSuffix, whole-IsSuffix, shorter-IsSuffix,
}

-- The heights of a chain count down to 0.
unfoldable pub HasHeights : Chain → Type 0
HasHeights [] = Unit
HasHeights (b ∷ c) = (b.n_height ≡ length c) × HasHeights c

-- Blocks of the two chains that have the same hash have the same blocks before them.
unfoldable pub Agree : Chain → Chain → Type 0
Agree f l =
    (a b : BlockIndex) (c d : Chain)
    → IsSuffix (a ∷ c) f
    → IsSuffix (b ∷ d) l
    → a.hash_block ≡ b.hash_block
    → a ∷ c ≡ b ∷ d

-- The chain that two chains have in common, and no longer one.
unfoldable pub IsFork : Chain → Chain → Chain → Type 0
IsFork f l fork =
    IsSuffix fork f
    × IsSuffix fork l
    × ((s : Chain) → IsSuffix s f → IsSuffix s l → IsSuffix s fork)

-- What the inner loop leaves: a chain no longer than the other, and the same or as long.
go_down_lem :
    (h : ℕ) (l : Chain)
    → HasHeights l
    → 1 ≤ length l
    → (l' : Chain) × (go_down h l ≡ some l')
      × IsSuffix l' l
      × (1 ≤ length l')
      × (length l' ≤ suc h)
      × ((l' ≡ l) ⊎ (length l' ≡ suc h))
unfolding go_down HasHeights IsSuffix
go_down_lem h [] k n = absurd (omega arith)
go_down_lem h (b ∷ c) (e, k) n = elim (Bool-cases (ltb h b.n_height)) [
  | inr p ↦ (b ∷ c, rw p refl, inl refl, omega arith, ground (arith, p, e), inl refl)
  | inl p ↦
      let (l', q, s, n', u, o) = go_down_lem h c k (ground (arith, p, e)) in
      (
        l',
        rw p q,
        inr s,
        n',
        u,
        inr (elim o [ inl w ↦ rw w (ground (arith, p, e, w, u)) | inr w ↦ w ]),
      )
]

heights-IsSuffix : (s c : Chain) → IsSuffix s c → HasHeights c → HasHeights s
unfolding IsSuffix HasHeights
heights-IsSuffix s [] h k = rw h tt
heights-IsSuffix s (b ∷ c) (inl h) k = rw h k
heights-IsSuffix s (b ∷ c) (inr h) k = heights-IsSuffix s c h k.1

-- Pointers to chains that agree are equal exactly if the chains are.
pub same_block_eq :
    (f : BlockIndex) (fs l : Chain) → Agree (f ∷ fs) l → same_block (f ∷ fs) l ≡ true → f ∷ fs ≡ l
unfolding Agree
same_block_eq f fs [] a h = cc
same_block_eq f fs (b ∷ d) a h =
    a f b fs d (refl-IsSuffix (f ∷ fs)) (refl-IsSuffix (b ∷ d)) (ground (arith, h))

same_block_refl : (c : Chain) → same_block c c ≡ true
same_block_refl [] = refl
same_block_refl (b ∷ c) = ground arith

pub Agree-less : (f f' l l' : Chain) → IsSuffix f' f → IsSuffix l' l → Agree f l → Agree f' l'
unfolding Agree
Agree-less f f' l l' s t a x y c d p q =
    a x y c d (trans-IsSuffix (x ∷ c) f' f p s) (trans-IsSuffix (y ∷ d) l' l q t)

pub in_tail : (f : BlockIndex) (fs : Chain) → IsSuffix fs (f ∷ fs)
unfolding IsSuffix
in_tail f fs = inr (refl-IsSuffix fs)

height : (f : BlockIndex) (fs : Chain) → HasHeights (f ∷ fs) → f.n_height ≡ length fs
unfolding HasHeights
height f fs h = h.0

-- A fork with what is left of the other chain is one with the other chain.
whole_IsFork :
    (f : BlockIndex) (fs l l' : Chain) → IsSuffix l' l → f ∷ fs ≡ l' → IsFork (f ∷ fs) l (f ∷ fs)
unfolding IsFork
whole_IsFork f fs l l' s e = (refl-IsSuffix (f ∷ fs), rw e s, λ t p q. p)

-- A common part that is not the whole of a chain is in its tail.
pub tail_IsSuffix :
    (f : BlockIndex) (fs s : Chain) → IsSuffix s (f ∷ fs) → s ≢ f ∷ fs → IsSuffix s fs
unfolding IsSuffix
tail_IsSuffix f fs s (inl h) n = absurd (n h)
tail_IsSuffix f fs s (inr h) n = h

-- After both loops have gone down by a block, what was common is common still.
common_below :
    (f : BlockIndex) (fs l l' t : Chain)
    → f.n_height ≡ length fs
    → (l' ≡ l) ⊎ (length l' ≡ suc f.n_height)
    → length l' ≤ suc f.n_height
    → IsSuffix l' l
    → same_block (f ∷ fs) l' ≡ false
    → IsSuffix t (f ∷ fs)
    → IsSuffix t l
    → IsSuffix t fs × IsSuffix t l'
common_below f fs l l' t hf o u s q tf tl =
    let n = length-IsSuffix t (f ∷ fs) tf in
    let tl' : IsSuffix t l' = elim o [
      | inl e ↦ rw e tl
      | inr e ↦ shorter-IsSuffix t l' l tl s (omega arith)
    ] in
    let ne : t ≢ f ∷ fs = λ e.
      let w : t ≡ l' = whole-IsSuffix t l' tl' (rw e (omega arith)) in
      let b : same_block (f ∷ fs) l' ≡ true =
        ap (λ c. same_block (f ∷ fs) c) (sym w ∙ e) ∙ same_block_refl (f ∷ fs) in
      absurd (ground (arith, b, q)) in
    (tail_IsSuffix f fs t tf ne, tl')

find_fork_from :
    (f l : Chain) (g : BlockIndex)
    → HasHeights f
    → HasHeights l
    → Agree f l
    → IsSuffix (g ∷ []) f
    → IsSuffix (g ∷ []) l
    → (fork : Chain) × (find_fork f l ≡ some fork) × IsFork f l fork
unfolding find_fork IsFork
find_fork_from [] l g hf hl a gf gl = absurd (omega (arith, length-IsSuffix (g ∷ []) [] gf))
find_fork_from (f ∷ fs) l g hf hl a gf gl =
    let (l', e, s, n, u, o) =
      go_down_lem f.n_height l hl (omega (arith, length-IsSuffix (g ∷ []) l gl)) in
    elim (Bool-cases (same_block (f ∷ fs) l)) [
      | inl p ↦
          (f ∷ fs, rw p refl, whole_IsFork f fs l l (refl-IsSuffix l) (same_block_eq f fs l a p))
      | inr p ↦ elim (Bool-cases (same_block (f ∷ fs) l')) [
        | inl q ↦ (
          f ∷ fs,
          rw (p, e, q) refl,
          whole_IsFork f fs l l' s (
              same_block_eq f fs l' (Agree-less (f ∷ fs) (f ∷ fs) l l' (refl-IsSuffix (f ∷ fs)) s a)
                q),
        )
        | inr q ↦
            let common = λ (t : Chain). common_below f fs l l' t (height f fs hf) o u s q in
            let (gf', gl') = common (g ∷ []) gf gl in
            let (fork, r, k) =
              find_fork_from fs l' g (heights-IsSuffix fs (f ∷ fs) (in_tail f fs) hf)
                (heights-IsSuffix l' l s hl) (Agree-less (f ∷ fs) fs l l' (in_tail f fs) s a) gf'
                gl' in
            let (sf, sl, top) = k in
            (
              fork,
              rw (p, e, q) r,
              (
                trans-IsSuffix fork fs (f ∷ fs) sf (in_tail f fs),
                trans-IsSuffix fork l' l sl s,
                λ t tf tl. let (x, y) = common t tf tl in top t x y,
              ),
            )
      ]
    ]

-- What is listed above a part of a chain, and the part.
list_above_part : (fork c : Chain) → Agree c fork → IsSuffix fork c → list_above fork c ++ fork ≡ c
unfolding list_above IsSuffix
list_above_part fork [] a s = s
list_above_part fork (b ∷ c) a s = elim (Bool-cases (same_block (b ∷ c) fork)) [
  | inl p ↦ rw p (sym (same_block_eq b c fork a p))
  | inr p ↦ rw p (
      ap (◌∷◌ b) (
        list_above_part fork c (Agree-less (b ∷ c) c fork fork (in_tail b c) (refl-IsSuffix fork) a)
          (below s p)))
]
  where
    below : IsSuffix fork (b ∷ c) → same_block (b ∷ c) fork ≡ false → IsSuffix fork c
    below (inl e) p =
        absurd (ground (arith, ap (λ x. same_block (b ∷ c) x) e, same_block_refl (b ∷ c), p))
    below (inr h) p = h

pub Agree-sym : (f l : Chain) → Agree f l → Agree l f
unfolding Agree
Agree-sym f l a x y c d p q e = sym (a y x d c q p (sym e))

-- From two chains of the index that begin with the same block, the search comes to an end with the
-- longest chain that they have in common; the blocks that are listed for disconnection are those of the
-- best chain above it, and the blocks for connection those of the new chain above it.
pub find_fork_lem :
    (best new : Chain) (genesis : BlockIndex)
    → HasHeights best
    → HasHeights new
    → Agree best new
    → IsSuffix (genesis ∷ []) best
    → IsSuffix (genesis ∷ []) new
    → (fork : Chain) × (find_fork best new ≡ some fork)
      × IsFork best new fork
      × (list_above fork best ++ fork ≡ best)
      × (list_above fork new ++ fork ≡ new)
unfolding IsFork
find_fork_lem best new g hb hn a gb gn =
    let (fork, e, k) = find_fork_from best new g hb hn a gb gn in
    let (sf, sl, top) = k in
    (
      fork,
      e,
      k,
      list_above_part fork best (Agree-less best best new fork (refl-IsSuffix best) sl a) sf,
      list_above_part fork new
          (Agree-less new new best fork (refl-IsSuffix new) sf (Agree-sym best new a)) sl,
    )
