-- ===== src/BestChain/Current.antt =====
-- The steps by which the best chain of src/main.cpp changes (`SetBestChainInner`, `Reorganize`), and the
-- unspent outputs that the blocks of the best chain lead to.
use mathlib.Core.List.{reverse, reverse-append, reverse-reverse}
use montecoin.Prelude.{
  ◌≡◌, refl, sym, ap, ◌∙◌, Bool, false, List, [], ◌∷◌, ◌++◌, some, length, arith, Bool-cases, inl,
  inr,
}
use montecoin.Tx.{OutPoint}
use montecoin.Inputs.{TxDb}
use montecoin.Inputs.Connect.{ok}
use montecoin.Block.{Block}
use montecoin.Block.Unspent.{unspent}
use montecoin.Chain.{BlockIndex, Chain, same_block}
use montecoin.Chain.Suffix.{IsSuffix, refl-IsSuffix, length-IsSuffix}
use montecoin.Chain.Fork.{HasHeights, Agree, Agree-less, IsFork, same_block_eq, find_fork_lem}
use montecoin.BestChain.{ChainEnv, State, pointers_above, reorganize, set_best_chain_inner}
use montecoin.BestChain.Reorganized.{Leads, Reads, Sound, reorganize-Leads}
use montecoin.BestChain.Followed.{set_best_chain_inner-Accepts}
use montecoin.BestChain.Above.{
  pointers-split, Reads-append, Reads-split, Reads-reversed, Leads-append, Leads-split,
}

-- The chains of the index of blocks: their heights count down to that of the first block, which they
-- share, and blocks of the same hash have the same blocks before them.
pub record IsIndex (genesis : BlockIndex) (chains : Chain → Type 0) : Type 0 where
  pub heights : (c : Chain) → chains c → HasHeights c
  pub agree : (c d : Chain) → chains c → chains d → Agree c d
  pub rooted : (c : Chain) → chains c → IsSuffix (genesis ∷ []) c

module _ (t : TxDb) (e : ChainEnv t) where
  open t use {Db, read_tx_index}

  -- A change of the best chain.
  pub data Change (chains : Chain → Type 0) : Chain → State Db → Chain → State Db → Type 0 where
    follow :
        {best new : Chain} {p : BlockIndex} {b : Block} {s s' : State Db}
        → chains new
        → new ≡ p ∷ best
        → e.read_from_disk new ≡ some b
        → set_best_chain_inner t e new b s ≡ ok s'
        → Change chains best s new s'
    switch :
        {best new : Chain} {s s' : State Db}
        → chains new
        → reorganize t e best new s ≡ ok s'
        → Change chains best s new s'

  -- Changes one after the other.
  pub data Changes (chains : Chain → Type 0) : Chain → State Db → Chain → State Db → Type 0 where
    none_yet : {best : Chain} {s : State Db} → Changes chains best s best s
    after_change :
        {c₀ c₁ c₂ : Chain} {s₀ s₁ s₂ : State Db}
        → Changes chains c₀ s₀ c₁ s₁
        → Change chains c₁ s₁ c₂ s₂
        → Changes chains c₀ s₀ c₂ s₂

  -- The blocks of the chain behind the first one, as they are on disk, lead from a set of unspent outputs
  -- to that of the index.
  abbrev pub IsCurrent : BlockIndex → (OutPoint → Bool) → Chain → State Db → Type 0
  IsCurrent genesis u c s =
      (bs : List Block) × Reads e.read_from_disk (pointers_above (genesis ∷ []) c) (reverse bs)
      × Leads e.check.get_hash u bs (unspent (read_tx_index s.db))

  follow-IsCurrent :
      (genesis p : BlockIndex) (u : OutPoint → Bool) (best : Chain) (b : Block) (s s' : State Db)
      → Sound t e
      → Agree (p ∷ best) best
      → IsSuffix (genesis ∷ []) best
      → e.read_from_disk (p ∷ best) ≡ some b
      → set_best_chain_inner t e (p ∷ best) b s ≡ ok s'
      → IsCurrent genesis u best s
      → IsCurrent genesis u (p ∷ best) s'
  unfolding pointers_above
  follow-IsCurrent g p u best b s s' sound a rooted r h (bs, reads, leads) =
      let (d, k, gone, linked) = set_best_chain_inner-Accepts t e (p ∷ best) b s s' sound h in
      let l =
        Leads-append e.check.get_hash u (unspent (read_tx_index s.db))
          (unspent (read_tx_index s'.db)) bs (b ∷ []) leads
          (unspent (read_tx_index s'.db), d, k, refl) in
      let a' : Agree (p ∷ best) (g ∷ []) =
        Agree-less (p ∷ best) (p ∷ best) best (g ∷ []) (refl-IsSuffix (p ∷ best)) rooted a in
      (bs ++ b ∷ [], rw (other a', reverse-append bs (b ∷ [])) (r, reads), l)
    where
      other : Agree (p ∷ best) (g ∷ []) → same_block (p ∷ best) (g ∷ []) ≡ false
      other a' = elim (Bool-cases (same_block (p ∷ best) (g ∷ []))) [
        | inl q ↦
            let e : p ∷ best ≡ g ∷ [] = same_block_eq p best (g ∷ []) a' q in
            absurd (omega (arith, length-IsSuffix (g ∷ []) best rooted, ap (λ x. length x) e))
        | inr q ↦ q
      ]

  switch-IsCurrent :
      (genesis : BlockIndex) (chains : Chain → Type 0) (u : OutPoint → Bool) (best new : Chain)
      (s s' : State Db)
      → Sound t e
      → IsIndex genesis chains
      → chains best
      → chains new
      → reorganize t e best new s ≡ ok s'
      → IsCurrent genesis u best s
      → IsCurrent genesis u new s'
  unfolding IsFork
  switch-IsCurrent g chains u best new s s' sound index in_best in_new h (bs, reads, leads) =
      let get_hash = e.check.get_hash in
      let read = e.read_from_disk in
      let root = g ∷ [] in
      let rooted = index.rooted best in_best in
      let rooted' = index.rooted new in_new in
      let (fork, found, k, _, _) =
        find_fork_lem best new g (index.heights best in_best) (index.heights new in_new)
          (index.agree best new in_best in_new) rooted rooted' in
      let (below, below', longest) = k in
      let on_fork = longest root rooted rooted' in
      let agrees = λ (c s : Chain) (i : chains c) (j : IsSuffix s best).
        Agree-less c c best s (refl-IsSuffix c) j (index.agree c best i in_best) in
      let split =
        pointers-split root fork best (agrees best fork in_best below)
          (agrees best root in_best rooted) below on_fork in
      let split' =
        pointers-split root fork new (agrees new fork in_new below) (agrees new root in_new rooted)
          below' on_fork in
      let (xs, ys, same, top, low) =
        Reads-split read (pointers_above fork best) (pointers_above root fork) (reverse bs)
          (rw split at reads) in
      let bs_same : bs ≡ reverse ys ++ reverse xs =
        sym (reverse-reverse bs) ∙ ap reverse same ∙ reverse-append xs ys in
      let (v, l, l') =
        Leads-split get_hash u (unspent (read_tx_index s.db)) (reverse ys) (reverse xs)
          (rw bs_same at leads) in
      let (zs, reads', leads') =
        reorganize-Leads t e best new fork s s' v (reverse xs) sound found
          (rw (reverse-reverse xs) top) l' h in
      let turned = Reads-reversed read (reverse (pointers_above fork new)) [] zs [] reads' tt in
      (
        reverse ys ++ zs,
        rw (split', reverse-append (reverse ys) zs, reverse-reverse ys)
            (Reads-append read (pointers_above fork new) (pointers_above root fork) (reverse zs) ys
              (rw (reverse-reverse (pointers_above fork new)) at turned) low),
        Leads-append get_hash u v (unspent (read_tx_index s'.db)) (reverse ys) zs l leads',
      )

  Change-IsCurrent :
      (genesis : BlockIndex) (chains : Chain → Type 0) (u : OutPoint → Bool) {c c' : Chain}
      {s s' : State Db}
      → Sound t e
      → IsIndex genesis chains
      → Change chains c s c' s'
      → chains c
      → IsCurrent genesis u c s
      → chains c' × IsCurrent genesis u c' s'
  Change-IsCurrent g chains u {c} {c'} {s} {s'} sound index (follow {p = p} {b = b} n eq r h) i k =
      let a : Agree (p ∷ c) c = rw eq at (index.agree c' c n i) in
      (
        n,
        rw eq (
            follow-IsCurrent g p u c b s s' sound a (index.rooted c i) (rw eq at r) (rw eq at h) k),
      )
  Change-IsCurrent g chains u {c} {c'} {s} {s'} sound index (switch n h) i k =
      (n, switch-IsCurrent g chains u c c' s s' sound index i n h k)

  -- After any changes of the best chain, by blocks that follow it and by reorganisations, the blocks of the
  -- best chain lead to the unspent outputs of the index, from the set from which they did so before. The
  -- chains are those of an index of blocks; deletions work, the other writes leave the index of
  -- transactions as it is, and the blocks' files have numbers other than the one that stands for none.
  pub Changes-IsCurrent :
      (genesis : BlockIndex) (chains : Chain → Type 0) (u : OutPoint → Bool) {c c' : Chain}
      {s s' : State Db}
      → Sound t e
      → IsIndex genesis chains
      → chains c
      → IsCurrent genesis u c s
      → Changes chains c s c' s'
      → chains c' × IsCurrent genesis u c' s'
  Changes-IsCurrent g chains u sound index i k none_yet = (i, k)
  Changes-IsCurrent g chains u sound index i k (after_change w h) =
      let (i', k') = Changes-IsCurrent g chains u sound index i k w in
      Change-IsCurrent g chains u sound index h i' k'
