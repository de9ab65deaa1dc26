-- ===== src/Block/Order.antt =====
-- The order in which `DisconnectBlock` of src/main.cpp takes the transactions of a block out.
use montecoin.Prelude.{ℕ, ◌≡◌, ◌≢◌, sym, ◌∙◌, Bool, true, ◌||◌, List, [], ◌∷◌, map, arith}
use mathlib.Core.List.{reverse, reverse_aux}
use montecoin.Tx.{OutPoint, Transaction}
use montecoin.Inputs.Marks.{spends}
use montecoin.Block.Distinct.{NotIn, Distinct}
use montecoin.Block.Unspent.{
  spent_by, behind, Accepts, all_spent, AllOld, AllOld-start, AllOld-behind, spent-NotIn,
}
use montecoin.Block.Undo.{AllIn-spends}
use montecoin.Block.Known.{spends-append, either}

spends_split :
    {C : Type 0} (tx : Transaction) (vtx : List Transaction) (r : OutPoint)
    → spends (all_spent (tx ∷ vtx)) r ≡ true
    → (spends (spent_by tx) r ≡ true → C)
    → (spends (all_spent vtx) r ≡ true → C)
    → C
spends_split tx vtx r h f g =
    either (spends (spent_by tx) r) (spends (all_spent vtx) r)
      (sym (spends-append (spent_by tx) (all_spent vtx) r) ∙ h) f g

module _ (get_hash : Transaction → ℕ) where
  -- What is spent behind the first transaction of the list is none of its own outputs, and so on.
  abbrev pub InOrder : List Transaction → Type 0
  InOrder [] = Unit {0}
  InOrder (tx ∷ vtx) =
      ((r : OutPoint) → spends (all_spent vtx) r ≡ true → get_hash tx ≢ r.hash) × InOrder vtx

  -- No output that is spent has the hash of a transaction to come.
  abbrev Behind : List Transaction → List Transaction → Type 0
  Behind acc vtx =
      (r : OutPoint) → spends (all_spent acc) r ≡ true → NotIn r.hash (map get_hash vtx)

  abbrev Forward : List Transaction → Type 0
  Forward [] = Unit {0}
  Forward (tx ∷ vtx) =
      ((r : OutPoint) → spends (spent_by tx) r ≡ true → NotIn r.hash (map get_hash vtx))
      × Forward vtx

  Accepts-Forward :
      (start u u' : OutPoint → Bool) (vtx : List Transaction)
      → Distinct (map get_hash vtx)
      → AllOld get_hash start u vtx
      → Accepts get_hash start u vtx u'
      → Forward vtx
  Accepts-Forward start u u' [] d old a = tt
  Accepts-Forward start u u' (tx ∷ vtx) d old (a, p, o, rest) = (
    λ r s.
        spent-NotIn get_hash start u (behind get_hash tx u) u' r vtx rest old.1
          (AllIn-spends u (spent_by tx) r a s),
    Accepts-Forward start (behind get_hash tx u) u' vtx d.1
        (AllOld-behind get_hash start tx u vtx d.0 old.1) rest,
  )

  reversed_order :
      (vtx acc : List Transaction)
      → Forward vtx
      → Behind acc vtx
      → InOrder acc
      → InOrder (reverse_aux vtx acc)
  reversed_order [] acc f b o = o
  reversed_order (tx ∷ vtx) acc f b o =
      reversed_order vtx (tx ∷ acc) f.1 (λ r s. spends_split tx acc r s (f.0 r) (λ s'. (b r s').1))
        ((λ r s eq. (b r s).0 (sym eq)), o)

  pub reverse-InOrder :
      (u u' : OutPoint → Bool) (vtx : List Transaction)
      → Distinct (map get_hash vtx)
      → Accepts get_hash u u vtx u'
      → InOrder (reverse vtx)
  reverse-InOrder u u' vtx d a =
      reversed_order vtx [] (Accepts-Forward u u u' vtx d (AllOld-start get_hash u vtx) a)
        (λ r s. cc) tt

reversed_spent :
    (vtx acc : List Transaction) (r : OutPoint)
    → spends (all_spent (reverse_aux vtx acc)) r ≡ true
    → (spends (all_spent vtx) r || spends (all_spent acc) r) ≡ true
reversed_spent [] acc r h = h
reversed_spent (tx ∷ vtx) acc r h =
    let ih = reversed_spent vtx (tx ∷ acc) r h in
    ground (
      arith,
      ih,
      spends-append (spent_by tx) (all_spent acc) r,
      spends-append (spent_by tx) (all_spent vtx) r,
    )

-- What the transactions spend does not depend on their order.
pub reverse-spends :
    (vtx : List Transaction) (r : OutPoint)
    → spends (all_spent (reverse vtx)) r ≡ true
    → spends (all_spent vtx) r ≡ true
reverse-spends vtx r h = let e = reversed_spent vtx [] r h in ground (arith, e)
