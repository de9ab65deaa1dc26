-- ===== src/BestChain/Above.antt =====
-- The blocks above a fork and those below it, for `Reorganize` of src/main.cpp.
use mathlib.Core.List.{reverse_aux}
use montecoin.Prelude.{
  ℕ, ◌≤◌, ◌≡◌, refl, sym, ap, Bool, false, List, [], ◌∷◌, ◌++◌, Option, length, arith, Bool-cases,
  inl, inr,
}
use montecoin.Tx.{OutPoint, Transaction}
use montecoin.Block.{Block}
use montecoin.Chain.{Chain, same_block}
use montecoin.Chain.Suffix.{IsSuffix, refl-IsSuffix, length-IsSuffix}
use montecoin.Chain.Fork.{Agree, Agree-less, same_block_eq, in_tail, tail_IsSuffix}
use montecoin.BestChain.{pointers_above}
use montecoin.BestChain.Reorganized.{Leads, Reads}

-- What is above a block is what is above a fork and what is below that.
pub pointers-split :
    (genesis fork c : Chain)
    → Agree c fork
    → Agree c genesis
    → IsSuffix fork c
    → IsSuffix genesis fork
    → pointers_above genesis c ≡ pointers_above fork c ++ pointers_above genesis fork
unfolding pointers_above IsSuffix
pointers-split g fork [] a a' s s' = rw s refl
pointers-split g fork (b ∷ c) a a' s s' = elim (Bool-cases (same_block (b ∷ c) fork)) [
  | inl p ↦
      let e : b ∷ c ≡ fork = same_block_eq b c fork a p in
      rw p (ap (λ (x : Chain). pointers_above g x) e)
  | inr p ↦
      let below : IsSuffix fork c = tail_IsSuffix b c fork s (λ e. differ e p) in
      let q : same_block (b ∷ c) g ≡ false = above below in
      rw (p, q)
        (ap (◌∷◌ (b ∷ c)) (
          pointers-split g fork c
            (Agree-less (b ∷ c) c fork fork (in_tail b c) (refl-IsSuffix fork) a)
            (Agree-less (b ∷ c) c g g (in_tail b c) (refl-IsSuffix g) a') below s'))
]
  where
    differ : fork ≡ b ∷ c → same_block (b ∷ c) fork ≡ false → ⊥
    differ e p = absurd (ground (arith, ap (λ x. same_block (b ∷ c) x) e, p))

    above : IsSuffix fork c → same_block (b ∷ c) g ≡ false
    above below = elim (Bool-cases (same_block (b ∷ c) g)) [
      | inl q ↦
          let e : b ∷ c ≡ g = same_block_eq b c g a' q in
          let l : length (b ∷ c) ≤ length fork = rw (sym e) at (length-IsSuffix g fork s') in
          absurd (omega (arith, l, length-IsSuffix fork c below))
      | inr q ↦ q
    ]

-- Blocks that are read for two lists of pointers.
pub Reads-append :
    (read : Chain → Option Block) (ps qs : List Chain) (bs cs : List Block)
    → Reads read ps bs
    → Reads read qs cs
    → Reads read (ps ++ qs) (bs ++ cs)
Reads-append read [] qs [] cs a b = b
Reads-append read [] qs (x ∷ bs) cs a b = absurd a
Reads-append read (p ∷ ps) qs [] cs a b = absurd a
Reads-append read (p ∷ ps) qs (x ∷ bs) cs (e, a) b = (e, Reads-append read ps qs bs cs a b)

pub Reads-split :
    (read : Chain → Option Block) (ps qs : List Chain) (bs : List Block)
    → Reads read (ps ++ qs) bs
    → (xs : List Block) × (ys : List Block) × (bs ≡ xs ++ ys) × Reads read ps xs × Reads read qs ys
Reads-split read [] qs bs a = ([], bs, refl, tt, a)
Reads-split read (p ∷ ps) qs [] a = absurd a
Reads-split read (p ∷ ps) qs (b ∷ bs) (e, a) =
    let (xs, ys, same, r, r') = Reads-split read ps qs bs a in
    (b ∷ xs, ys, ap (◌∷◌ b) same, (e, r), r')

pub Reads-reversed :
    (read : Chain → Option Block) (ps qs : List Chain) (bs cs : List Block)
    → Reads read ps bs
    → Reads read qs cs
    → Reads read (reverse_aux ps qs) (reverse_aux bs cs)
Reads-reversed read [] qs [] cs a b = b
Reads-reversed read [] qs (x ∷ bs) cs a b = absurd a
Reads-reversed read (p ∷ ps) qs [] cs a b = absurd a
Reads-reversed read (p ∷ ps) qs (x ∷ bs) cs (e, a) b =
    Reads-reversed read ps (p ∷ qs) bs (x ∷ cs) a (e, b)

pub Leads-append :
    (get_hash : Transaction → ℕ) (u v w : OutPoint → Bool) (bs cs : List Block)
    → Leads get_hash u bs v
    → Leads get_hash v cs w
    → Leads get_hash u (bs ++ cs) w
Leads-append get_hash u v w [] cs a b = rw (← a) b
Leads-append get_hash u v w (x ∷ bs) cs (u₁, d, k, a) b =
    (u₁, d, k, Leads-append get_hash u₁ v w bs cs a b)

pub Leads-split :
    (get_hash : Transaction → ℕ) (u w : OutPoint → Bool) (bs cs : List Block)
    → Leads get_hash u (bs ++ cs) w
    → (v : OutPoint → Bool) × Leads get_hash u bs v × Leads get_hash v cs w
Leads-split get_hash u w [] cs a = (u, refl, a)
Leads-split get_hash u w (x ∷ bs) cs (u₁, d, k, a) =
    let (v, l, r) = Leads-split get_hash u₁ w bs cs a in (v, (u₁, d, k, l), r)
