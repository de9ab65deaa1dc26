-- ===== src/Orphans/Limit.antt =====
-- `LimitOrphanTxSize` of src/main.cpp comes to its end and keeps the limit.
use montecoin.Prelude.{
  ℕ, sym, zero, suc, ◌+◌, ◌≤◌, ◌<◌, ◌≡◌, refl, ◌∙◌, true, List, [], ◌∷◌, none, some, length, ltb,
  nat_key, Bool-cases, ==-cases, Option-cases, inl, inr, arith, some_inj,
}
use mathlib.Core.Path.{subst}
use montecoin.Prelude.Dict
use montecoin.Prelude.Dict.{Dict, lookup-erase-some}
use montecoin.Tx.{Transaction}
use montecoin.Orphans.{
  Orphans, erase_orphan_tx, lower_bound, or_first, limit_loop, limit_orphan_tx_size,
}
use montecoin.Orphans.Listed.{Holds, erase_orphan_tx-erase}

-- Every stored stream Holds a transaction, as `AddOrphanTx` saw to.
abbrev pub AllReadable : Dict ℕ (List ℕ) → Type 0
AllReadable m =
    (h : ℕ) (msg : List ℕ) → Dict.lookup h m ≡ some msg → (tx : Transaction) × Holds msg tx

length-erase_le : (k : ℕ) (m : Dict ℕ (List ℕ)) → length (Dict.erase k m) ≤ length m
unfolding Dict.erase
length-erase_le k [] = omega arith
length-erase_le k ((j, v) ∷ m) = ground (arith, length-erase_le k m)

length-erase_lt :
    (k : ℕ) (m : Dict ℕ (List ℕ)) {v : List ℕ}
    → Dict.lookup k m ≡ some v
    → length (Dict.erase k m) < length m
unfolding Dict.erase Dict.lookup
length-erase_lt k [] h = cc
length-erase_lt k ((j, w) ∷ m) h = elim (==-cases j k) [
  | inl (eq, b) ↦ rw b (omega (arith, length-erase_le k m))
  | inr b ↦ rw b (omega (arith, length-erase_lt k m (rw b at h)))
]

-- A key that stands in the map is found.
found_or :
    (k j : ℕ) (v : List ℕ) (m : Dict ℕ (List ℕ))
    → (w : List ℕ) × (Dict.lookup k m ≡ some w)
    → (w : List ℕ) × (Dict.lookup k ((j, v) ∷ m) ≡ some w)
unfolding Dict.lookup
found_or k j v m (w, h) = elim (==-cases j k) [ inl (eq, b) ↦ (v, rw b refl) | inr b ↦ (w, rw b h) ]

found_here : (k : ℕ) (v : List ℕ) (m : Dict ℕ (List ℕ)) → Dict.lookup k ((k, v) ∷ m) ≡ some v
unfolding Dict.lookup
found_here k v m = ground arith

lower_bound-found :
    (h k : ℕ) (m : Dict ℕ (List ℕ))
    → lower_bound h m ≡ some k
    → (w : List ℕ) × (Dict.lookup k m ≡ some w)
unfolding lower_bound
lower_bound-found h k [] e = cc
lower_bound-found h k ((j, v) ∷ m) e = elim (Bool-cases (ltb j h)) [
  | inl b ↦ found_or k j v m (lower_bound-found h k m (rw b at e))
  | inr b ↦ let same : j ≡ k = some_inj (rw b at e) in (v, rw (← same) (found_here j v m))
]

-- The orphan to evict is one that is stored.
or_first-found :
    (h : ℕ) (m : Dict ℕ (List ℕ))
    → 1 ≤ length m
    → (k : ℕ) × (w : List ℕ) × (or_first (lower_bound h m) m ≡ some k) × (Dict.lookup k m ≡ some w)
or_first-found h m n = elim (Option-cases (lower_bound h m)) [
  | inr (k, e) ↦ let (w, found) = lower_bound-found h k m e in (k, w, rw e refl, found)
  | inl e ↦ first m n e
]
  where
    first :
        (m : Dict ℕ (List ℕ))
        → 1 ≤ length m
        → lower_bound h m ≡ none
        → (k : ℕ) × (w : List ℕ) × (or_first (lower_bound h m) m ≡ some k)
          × (Dict.lookup k m ≡ some w)
    first [] n e = absurd (omega arith)
    first ((k, v) ∷ m) n e = (k, v, rw e refl, found_here k v m)

-- One round.
limit_loop_step :
    (get_rand_hash : ℕ → ℕ) (fuel n_max_orphans n_evicted : ℕ) (s : Orphans) {k : ℕ} {s₁ : Orphans}
    → ltb n_max_orphans (length s.map_orphan_transactions) ≡ true
    → or_first
        (lower_bound (get_rand_hash n_evicted) s.map_orphan_transactions)
        s.map_orphan_transactions
      ≡ some k
    → erase_orphan_tx k s ≡ some s₁
    → limit_loop get_rand_hash (suc fuel) n_max_orphans n_evicted s
      ≡ limit_loop get_rand_hash fuel n_max_orphans (n_evicted + 1) s₁
unfolding limit_loop
limit_loop_step rand fuel max n s b picked erased = rw (b, picked, erased) refl

limit_loop_ends :
    (get_rand_hash : ℕ → ℕ) (fuel n_max_orphans n_evicted : ℕ) (s : Orphans)
    → length s.map_orphan_transactions ≤ fuel
    → AllReadable s.map_orphan_transactions
    → (s' : Orphans) × (n : ℕ) × (limit_loop get_rand_hash fuel n_max_orphans n_evicted s
        ≡ some (s', n))
      × (length s'.map_orphan_transactions ≤ n_max_orphans)
      × (n + length s'.map_orphan_transactions ≤ n_evicted + length s.map_orphan_transactions)
      × AllReadable s'.map_orphan_transactions
unfolding limit_loop
limit_loop_ends rand zero max n s f a = (s, n, refl, omega arith, omega arith, a)
limit_loop_ends rand (suc fuel) max n s f a =
    elim (Bool-cases (ltb max (length s.map_orphan_transactions))) [
      | inr b ↦ (s, n, rw b refl, ground (arith, b), omega arith, a)
      | inl b ↦
          let m = s.map_orphan_transactions in
          let (k, w, picked, found) = or_first-found (rand n) m (ground (arith, b)) in
          let (tx, is) = a k w found in
          let (s₁, erased, map₁) = erase_orphan_tx-erase k w tx s is found in
          let shorter : length s₁.map_orphan_transactions < length m =
            subst (λ u. length u < length m) (sym map₁) (length-erase_lt k m found) in
          let a₁ : AllReadable s₁.map_orphan_transactions =
            subst AllReadable (sym map₁) (λ h msg e. a h msg (lookup-erase-some k h m e).1) in
          let (s', n', run, kept, count, a') =
            limit_loop_ends rand fuel max (n + 1) s₁ (omega (arith, shorter, f)) a₁ in
          (
            s',
            n',
            limit_loop_step rand fuel max n s b picked erased ∙ run,
            kept,
            omega (arith, count, shorter),
            a',
          )
    ]

-- Where every stored stream Holds a transaction, `LimitOrphanTxSize` comes to its end whatever random
-- numbers it gets, leaves at most the number of orphans that it is given, and evicts no more of them than
-- there were.
pub limit_orphan_tx_size_ends :
    (get_rand_hash : ℕ → ℕ) (n_max_orphans : ℕ) (s : Orphans)
    → AllReadable s.map_orphan_transactions
    → (s' : Orphans) × (n : ℕ) × (limit_orphan_tx_size get_rand_hash n_max_orphans s ≡ some (s', n))
      × (length s'.map_orphan_transactions ≤ n_max_orphans)
      × (n + length s'.map_orphan_transactions ≤ length s.map_orphan_transactions)
      × AllReadable s'.map_orphan_transactions
unfolding limit_orphan_tx_size
limit_orphan_tx_size_ends rand max s a =
    let (s', n, run, kept, count, a') =
      limit_loop_ends rand (length s.map_orphan_transactions) max 0 s (omega arith) a in
    (s', n, run, kept, omega (arith, count), a')
