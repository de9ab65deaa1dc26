-- ===== src/Block/Unspent.antt =====
-- What `ConnectBlock` of src/main.cpp does to the set of unspent outputs: the abstract view of the
-- transaction index and of the changes that a block queues.
use montecoin.Prelude.{
  ℕ, ◌≡◌, refl, sym, ◌∙◌, Bool, true, false, not, ◌&&◌, List, [], ◌∷◌, ◌++◌, map, Option, length,
  ltb, ◌==◌, if◌then◌else◌, nat_key, arith, Bool-cases, ==-cases, inl, inr,
}
use montecoin.Tx.{out_point_eq_iff, out_point_key, OutPoint, TxIn, Transaction, is_coin_base}
use montecoin.Tx.Check.Duplicates.{NoneSpends, DistinctPrevouts}
use montecoin.Inputs.{TxIndex}
use montecoin.Inputs.Marks.{mark, spends}
use montecoin.Inputs.View.{is_free, AllIn}
use montecoin.Block.Distinct.{NotIn, Distinct}

-- The inputs that spend outputs; those of a coinbase do not.
abbrev pub spent_by : Transaction → List TxIn
spent_by tx = if is_coin_base tx then [] else tx.vin

-- Whether an output of the index is there and not spent.
abbrev pub unspent : (ℕ → Option TxIndex) → OutPoint → Bool
unspent read r = is_free (mark (read r.hash) r.n)

-- The unspent outputs behind a transaction: without those that it spends, with its own.
abbrev pub behind : (Transaction → ℕ) → Transaction → (OutPoint → Bool) → OutPoint → Bool
behind get_hash tx u r =
    if get_hash tx == r.hash then ltb r.n (length tx.vout) else u r && not (spends (spent_by tx) r)

-- The transactions lead from one set of unspent outputs to another: each spends different outputs of the
-- set before it, and the set at the start has none under the hash of a transaction.
module _ (get_hash : Transaction → ℕ) (start : OutPoint → Bool) where
  abbrev pub Accepts : (OutPoint → Bool) → List Transaction → (OutPoint → Bool) → Type 0
  Accepts u [] u' = (r : OutPoint) → u' r ≡ u r
  Accepts u (tx ∷ vtx) u' =
      AllIn u (spent_by tx)
      × DistinctPrevouts (spent_by tx)
      × ((r : OutPoint) → get_hash tx ≡ r.hash → start r ≡ false)
      × Accepts (behind get_hash tx u) vtx u'

-- The inputs of all transactions.
abbrev pub all_spent : List Transaction → List TxIn
all_spent [] = []
all_spent (tx ∷ vtx) = spent_by tx ++ all_spent vtx

AllIn-NoneSpends :
    (u : OutPoint → Bool) (r : OutPoint) (vin : List TxIn)
    → AllIn u vin
    → u r ≡ false
    → NoneSpends r vin
AllIn-NoneSpends u r [] a f = tt
AllIn-NoneSpends u r (txin ∷ vin) a f = (
  λ eq. let now : u r ≡ true = rw eq a.0 in absurd (ground (arith, f, now)),
  AllIn-NoneSpends u r vin a.1 f,
)

NoneSpends-append :
    (r : OutPoint) (xs ys : List TxIn) → NoneSpends r xs → NoneSpends r ys → NoneSpends r (xs ++ ys)
NoneSpends-append r [] ys a b = b
NoneSpends-append r (x ∷ xs) ys a b = (a.0, NoneSpends-append r xs ys a.1 b)

module _ (get_hash : Transaction → ℕ) (start : OutPoint → Bool) where
  -- An output that is gone and that no transaction makes again is not spent.
  gone-NoneSpends :
      (u u' : OutPoint → Bool) (r : OutPoint) (vtx : List Transaction)
      → Accepts get_hash start u vtx u'
      → NotIn r.hash (map get_hash vtx)
      → u r ≡ false
      → NoneSpends r (all_spent vtx)
  gone-NoneSpends u u' r [] a n f = tt
  gone-NoneSpends u u' r (tx ∷ vtx) (a, d, o, rest) n f =
      NoneSpends-append r (spent_by tx) (all_spent vtx) (AllIn-NoneSpends u r (spent_by tx) a f) (
        gone-NoneSpends (behind get_hash tx u) u' r vtx rest n.1
          (elim (==-cases (get_hash tx) r.hash) [
            | inl (same, b) ↦ absurd (n.0 (sym same))
            | inr b ↦ rw (b, f) refl
          ]))

  -- What is unspent under the hash of a transaction to come was unspent at the start.
  abbrev pub AllOld : (OutPoint → Bool) → List Transaction → Type 0
  AllOld u [] = Unit {0}
  AllOld u (tx ∷ vtx) =
      ((r : OutPoint) → get_hash tx ≡ r.hash → u r ≡ true → start r ≡ true) × AllOld u vtx

  pub AllOld-start : (vtx : List Transaction) → AllOld start vtx
  AllOld-start [] = tt
  AllOld-start (tx ∷ vtx) = (λ r eq h. h, AllOld-start vtx)

  pub AllOld-behind :
      (tx : Transaction) (u : OutPoint → Bool) (vtx : List Transaction)
      → NotIn (get_hash tx) (map get_hash vtx)
      → AllOld u vtx
      → AllOld (behind get_hash tx u) vtx
  AllOld-behind tx u [] n old = tt
  AllOld-behind tx u (x ∷ vtx) n old = (
    λ r eq free. elim (==-cases (get_hash tx) r.hash) [
      | inl (same, b) ↦ absurd (n.0 (same ∙ sym eq))
      | inr b ↦ old.0 r eq (first (u r) (not (spends (spent_by tx) r)) (rw b at free))
    ],
    AllOld-behind tx u vtx n.1 old.1,
  )
    where
      first : (a b : Bool) → (a && b) ≡ true → a ≡ true
      first a b h = ground (arith, h)

  -- An output that is spent is made by no transaction to come.
  pub spent-NotIn :
      (u u₁ u' : OutPoint → Bool) (r : OutPoint) (vtx : List Transaction)
      → Accepts get_hash start u₁ vtx u'
      → AllOld u vtx
      → u r ≡ true
      → NotIn r.hash (map get_hash vtx)
  spent-NotIn u u₁ u' r [] a old h = tt
  spent-NotIn u u₁ u' r (tx ∷ vtx) (a, d, o, rest) old h = (
    λ eq. absurd (ground (arith, o r (sym eq), old.0 r (sym eq) h)),
    spent-NotIn u (behind get_hash tx u₁) u' r vtx rest old.1 h,
  )

  -- The outputs that a transaction spends are gone behind it.
  spent_then :
      (tx : Transaction) (u u' : OutPoint → Bool) (vtx : List Transaction) (vin : List TxIn)
      → Accepts get_hash start (behind get_hash tx u) vtx u'
      → ((r : OutPoint) → get_hash tx ≡ r.hash → u r ≡ false)
      → AllOld u vtx
      → AllIn u vin
      → ((r : OutPoint) → spends vin r ≡ true → spends (spent_by tx) r ≡ true)
      → DistinctPrevouts vin
      → DistinctPrevouts (all_spent vtx)
      → DistinctPrevouts (vin ++ all_spent vtx)
  spent_then tx u u' vtx [] rest new old a within d ds = ds
  spent_then tx u u' vtx (txin ∷ vin) rest new old a within d ds =
      let r = txin.prevout in
      let w : spends (spent_by tx) r ≡ true =
        within r (ground (arith, (out_point_eq_iff r r).1 refl)) in
      let f : behind get_hash tx u r ≡ false = elim (==-cases (get_hash tx) r.hash) [
        | inl (same, b) ↦ absurd (ground (arith, a.0, new r same))
        | inr b ↦ rw (b, w) (ground arith)
      ] in
      (
        NoneSpends-append r vin (all_spent vtx) d.0 (
            gone-NoneSpends (behind get_hash tx u) u' r vtx rest
              (spent-NotIn u (behind get_hash tx u) u' r vtx rest old a.0) f),
        spent_then tx u u' vtx vin rest new old a.1 (λ r s. within r (ground (arith, s))) d.1 ds,
      )

  pub new_at :
      (tx : Transaction) (u : OutPoint → Bool) (vtx : List Transaction)
      → AllOld u (tx ∷ vtx)
      → ((r : OutPoint) → get_hash tx ≡ r.hash → start r ≡ false)
      → (r : OutPoint) → get_hash tx ≡ r.hash
      → u r ≡ false
  new_at tx u vtx old o r eq = elim (Bool-cases (u r)) [
    | inl b ↦ absurd (ground (arith, old.0 r eq b, o r eq))
    | inr b ↦ b
  ]

  all-Distinct :
      (u u' : OutPoint → Bool) (vtx : List Transaction)
      → Distinct (map get_hash vtx)
      → AllOld u vtx
      → Accepts get_hash start u vtx u'
      → DistinctPrevouts (all_spent vtx)
  all-Distinct u u' [] d old a = tt
  all-Distinct u u' (tx ∷ vtx) d old (a, p, o, rest) =
      spent_then tx u u' vtx (spent_by tx) rest (new_at tx u vtx old o) old.1 a (λ r s. s) p
        (all-Distinct (behind get_hash tx u) u' vtx d.1 (AllOld-behind tx u vtx d.0 old.1) rest)

-- Transactions of different hashes that are accepted spend no output twice.
pub Accepts-DistinctPrevouts :
    (get_hash : Transaction → ℕ) (u u' : OutPoint → Bool) (vtx : List Transaction)
    → Distinct (map get_hash vtx)
    → Accepts get_hash u u vtx u'
    → DistinctPrevouts (all_spent vtx)
Accepts-DistinctPrevouts get_hash u u' vtx d a =
    all-Distinct get_hash u u u' vtx d (AllOld-start get_hash u vtx) a
