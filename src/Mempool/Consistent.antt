-- ===== src/Mempool/Consistent.antt =====
-- The two maps of the memory pool, `mapTx` and `mapNextTx` of src/main.h, belong together.
use montecoin.Prelude.{
  ℕ, ◌+◌, ◌≡◌, refl, sym, ap, ◌∙◌, true, false, List, none, some, get_elem?, if◌then◌else◌, ◌==◌,
  arith, nat_key, Bool-cases, ==-cases, some_inj, if_none, inl, inr,
}
use mathlib.Core.Path.{subst}
use montecoin.Prelude.Dict
use montecoin.Prelude.Dict.{
  Dict, lookup-insert, lookup-insert_self, lookup-insert-some, lookup-erase, lookup-erase-some,
  contains-true,
}
use montecoin.Tx.{OutPoint, TxIn, Transaction, out_point_key}
use montecoin.Tx.Check.Duplicates.{DistinctPrevouts}
use montecoin.Inputs.Marks.{spends}
use montecoin.Mempool.{InPoint, TxMemPool, add_unchecked, erase_inputs, removed, remove, clear}
use montecoin.Mempool.Next.{
  in_point, lookup-add_inputs_other, lookup-add_inputs_at, spends-get_elem?, get_elem?-spends,
  lookup-erase_inputs,
}

-- Every transaction stands under its hash, each of its inputs is entered under the output that it
-- spends, and nothing else is entered. So no two transactions of the pool spend the same output.
pub record IsConsistent (get_hash : Transaction → ℕ) (pool : TxMemPool) : Type 0 where
  pub hashed : (h : ℕ) (tx : Transaction) → Dict.lookup h pool.map_tx ≡ some tx → get_hash tx ≡ h
  pub entered :
      (h : ℕ) (tx : Transaction) (k : ℕ) (txin : TxIn)
      → Dict.lookup h pool.map_tx ≡ some tx
      → get_elem? tx.vin k ≡ some txin
      → Dict.lookup txin.prevout pool.map_next_tx ≡ some (in_point h k)
  pub backed :
      (p : OutPoint) (q : InPoint)
      → Dict.lookup p pool.map_next_tx ≡ some q
      → (tx : Transaction) × (txin : TxIn) × (Dict.lookup q.ptx pool.map_tx ≡ some tx)
        × (get_elem? tx.vin q.n ≡ some txin)
        × (txin.prevout ≡ p)

-- None of the inputs spends what a transaction of the pool spends.
abbrev pub NoConflict : TxMemPool → List TxIn → Type 0
NoConflict pool vin = (p : OutPoint) → spends vin p ≡ true → Dict.lookup p pool.map_next_tx ≡ none

pub clear-IsConsistent :
    (get_hash : Transaction → ℕ) (pool : TxMemPool) → IsConsistent get_hash (clear pool)
unfolding clear Dict.lookup
clear-IsConsistent get_hash pool = record {
  hashed = λ h tx e. cc;
  entered = λ h tx k txin e at. cc;
  backed = λ p q e. cc;
}

-- An output that is entered is not spent by the newcomer.
not_spent :
    (pool : TxMemPool) (vin : List TxIn) (p : OutPoint) {q : InPoint}
    → NoConflict pool vin
    → Dict.lookup p pool.map_next_tx ≡ some q
    → spends vin p ≡ false
not_spent pool vin p {q} free was = elim (Bool-cases (spends vin p)) [
  | inl s ↦ let no : none ≡ some q = sym (free p s) ∙ was in absurd (ground arith)
  | inr s ↦ s
]

-- What is there stays where a new key is entered.
lookup-insert_kept :
    (k j : ℕ) (v : Transaction) (m : Dict ℕ Transaction) {w : Transaction}
    → Dict.lookup k m ≡ none
    → Dict.lookup j m ≡ some w
    → Dict.lookup j (Dict.insert k v m) ≡ some w
lookup-insert_kept k j v m {w} new h = elim (==-cases k j) [
  | inl (eq, b) ↦ let no : none ≡ some w = sym (rw eq at new) ∙ h in absurd (ground arith)
  | inr b ↦ lookup-insert k j v m ∙ rw b h
]

-- A transaction that is new to the pool, spends different outputs and none that the pool spends can be
-- added to a consistent pool, which stays so.
pub add_unchecked-IsConsistent :
    (get_hash : Transaction → ℕ) (pool : TxMemPool) (tx : Transaction)
    → IsConsistent get_hash pool
    → DistinctPrevouts tx.vin
    → Dict.lookup (get_hash tx) pool.map_tx ≡ none
    → NoConflict pool tx.vin
    → IsConsistent get_hash (add_unchecked (get_hash tx) tx pool)
unfolding add_unchecked
add_unchecked-IsConsistent get_hash pool tx c d new free = record {
  hashed = λ h x e. elim (lookup-insert-some (get_hash tx) h tx pool.map_tx e) [
    | inl (eq, same) ↦ rw (← same) eq
    | inr (ne, old) ↦ c.hashed h x old
  ];
  entered = λ h x k txin e at. elim (lookup-insert-some (get_hash tx) h tx pool.map_tx e) [
    | inl (eq, same) ↦
        let at' : get_elem? tx.vin k ≡ some txin = rw (← same) at at in
        rw (← eq) (
          lookup-add_inputs_at (get_hash tx) 0 k tx.vin pool.map_next_tx d at'
          ∙ ap (λ n. some (in_point (get_hash tx) n)) (omega arith))
    | inr (ne, old) ↦
        let was = c.entered h x k txin old at in
        lookup-add_inputs_other (get_hash tx) 0 tx.vin pool.map_next_tx txin.prevout
          (not_spent pool tx.vin txin.prevout free was)
        ∙ was
  ];
  backed = λ p q e. elim (Bool-cases (spends tx.vin p)) [
    | inl s ↦
        let (k, txin, at, eq) = spends-get_elem? tx.vin p s in
        let l = lookup-add_inputs_at (get_hash tx) 0 k tx.vin pool.map_next_tx d at in
        let same : in_point (get_hash tx) (0 + k) ≡ q = some_inj (sym (rw eq at l) ∙ e) in
        let zero_plus : 0 + k ≡ k = omega arith in
        (
          tx,
          txin,
          rw (← same) (lookup-insert_self (get_hash tx) tx pool.map_tx),
          rw (← same, zero_plus) at,
          eq,
        )
    | inr s ↦
        let (x, txin, found, at, eq) =
          c.backed p q
            (sym (lookup-add_inputs_other (get_hash tx) 0 tx.vin pool.map_next_tx p s) ∙ e) in
        (x, txin, lookup-insert_kept (get_hash tx) q.ptx tx pool.map_tx new found, at, eq)
  ];
}

removed-IsConsistent :
    (get_hash : Transaction → ℕ) (pool : TxMemPool) (tx : Transaction)
    → IsConsistent get_hash pool
    → Dict.lookup (get_hash tx) pool.map_tx ≡ some tx
    → IsConsistent get_hash (removed (get_hash tx) tx pool)
removed-IsConsistent get_hash pool tx c here = record {
  hashed = λ h x e. c.hashed h x (lookup-erase-some (get_hash tx) h pool.map_tx e).1;
  entered = λ h x k txin e at.
      let (ne, old) = lookup-erase-some (get_hash tx) h pool.map_tx e in
      let was = c.entered h x k txin old at in
      elim (Bool-cases (spends tx.vin txin.prevout)) [
        | inl s ↦
            let (j, t, at₁, eq) = spends-get_elem? tx.vin txin.prevout s in
            let mine = c.entered (get_hash tx) tx j t here at₁ in
            let same : in_point (get_hash tx) j ≡ in_point h k =
              some_inj (sym (rw eq at mine) ∙ was) in
            absurd (ground (arith, ne, ap (λ (q : InPoint). q.ptx) same))
        | inr s ↦ lookup-erase_inputs tx.vin pool.map_next_tx txin.prevout ∙ rw s was
      ];
  backed = λ p q e.
      let (s, old) = kept tx.vin pool.map_next_tx p e in
      let (x, txin, found, at, eq) = c.backed p q old in
      elim (==-cases (get_hash tx) q.ptx) [
        | inl (same, b) ↦
            let mine : some tx ≡ some x = sym (rw same at here) ∙ found in
            let at₁ : get_elem? tx.vin q.n ≡ some txin = rw (some_inj mine) at in
            let t : spends tx.vin p ≡ true = rw (← eq) (get_elem?-spends tx.vin q.n at₁) in
            absurd (ground (arith, s, t))
        | inr b ↦ (x, txin, lookup-erase (get_hash tx) q.ptx pool.map_tx ∙ rw b found, at, eq)
      ];
}
  where
    kept :
        (vin : List TxIn) (m : Dict OutPoint InPoint) (p : OutPoint) {q : InPoint}
        → Dict.lookup p (erase_inputs vin m) ≡ some q
        → (spends vin p ≡ false) × (Dict.lookup p m ≡ some q)
    kept vin m p h =
        if_none (spends vin p) (Dict.lookup p m) (sym (lookup-erase_inputs vin m p) ∙ h)

-- In a consistent pool, a removal of one of its transactions takes it out and no other, and the pool
-- stays consistent.
pub remove-IsConsistent :
    (get_hash : Transaction → ℕ) (pool : TxMemPool) (tx : Transaction)
    → IsConsistent get_hash pool
    → Dict.lookup (get_hash tx) pool.map_tx ≡ some tx
    → IsConsistent get_hash (remove get_hash tx pool)
      × ((h : ℕ)
          → Dict.lookup h (remove get_hash tx pool).map_tx
            ≡ (if get_hash tx == h then none else Dict.lookup h pool.map_tx))
unfolding remove
remove-IsConsistent get_hash pool tx c here =
    let same : remove get_hash tx pool ≡ removed (get_hash tx) tx pool =
      rw (contains-true (get_hash tx) pool.map_tx here) refl in
    subst
      (λ u.
        IsConsistent get_hash u
        × ((h : ℕ)
            → Dict.lookup h u.map_tx
              ≡ (if get_hash tx == h then none else Dict.lookup h pool.map_tx)))
      (sym same)
      (removed-IsConsistent get_hash pool tx c here, λ h. lookup-erase (get_hash tx) h pool.map_tx)
