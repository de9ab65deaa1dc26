-- ===== src/Block/Undo.antt =====
-- The sets of unspent outputs as `DisconnectBlock` of src/main.cpp goes back from the one behind a block
-- to the one before it.
use montecoin.Prelude.{
  ℕ, ◌≡◌, refl, ap, ◌∙◌, Bool, true, false, ◌&&◌, ◌||◌, List, [], ◌∷◌, map, ◌==◌, if◌then◌else◌,
  nat_key, arith, Bool-cases, ==-cases, inl, inr,
}
use mathlib.Core.List.{reverse, reverse_aux}
use montecoin.Tx.{out_point_eq, out_point_eq_iff, out_point_key, OutPoint, TxIn, Transaction}
use montecoin.Inputs.Marks.{spends}
use montecoin.Inputs.View.{AllIn}
use montecoin.Block.Distinct.{Distinct}
use montecoin.Block.Unspent.{spent_by, behind, Accepts, AllOld, AllOld-start, AllOld-behind, new_at}

pub AllIn-spends :
    (u : OutPoint → Bool) (vin : List TxIn) (r : OutPoint)
    → AllIn u vin
    → spends vin r ≡ true
    → u r ≡ true
AllIn-spends u [] r a s = cc
AllIn-spends u (txin ∷ vin) r a s = elim (Bool-cases (out_point_eq txin.prevout r)) [
  | inl e ↦ rw (← (out_point_eq_iff txin.prevout r).0 e) a.0
  | inr e ↦ AllIn-spends u vin r a.1 (rw e at s)
]

module _ (get_hash : Transaction → ℕ) where
  -- The unspent outputs before a transaction, from those behind it: without its own, with those that it
  -- spends.
  abbrev pub before : Transaction → (OutPoint → Bool) → OutPoint → Bool
  before tx u r = if get_hash tx == r.hash then false else u r || spends (spent_by tx) r

  abbrev pub undo : List Transaction → (OutPoint → Bool) → OutPoint → Bool
  undo [] u = u
  undo (tx ∷ vtx) u = undo vtx (before tx u)

  before-behind :
      (tx : Transaction) (u : OutPoint → Bool)
      → AllIn u (spent_by tx)
      → ((r : OutPoint) → get_hash tx ≡ r.hash → u r ≡ false)
      → (r : OutPoint) → before tx (behind get_hash tx u) r ≡ u r
  before-behind tx u a new r = elim (==-cases (get_hash tx) r.hash) [
    | inl (same, b) ↦ rw (b, new r same) refl
    | inr b ↦ elim (Bool-cases (spends (spent_by tx) r)) [
      | inl s ↦ rw (b, s, AllIn-spends u (spent_by tx) r a s) refl
      | inr s ↦ rw (b, s) (back (u r))
    ]
  ]
    where
      back : (c : Bool) → (c && true || false) ≡ c
      back c = ground arith

  -- The transactions undone in the reverse order.
  undo-Accepts :
      (start u u' : OutPoint → Bool) (vtx acc : List Transaction)
      → Distinct (map get_hash vtx)
      → AllOld get_hash start u vtx
      → Accepts get_hash start u vtx u'
      → undo (reverse_aux vtx acc) u' ≡ undo acc u
  undo-Accepts start u u' [] acc d old a = ap (undo acc) (λ i r. a r i)
  undo-Accepts start u u' (tx ∷ vtx) acc d old (a, p, o, rest) =
      undo-Accepts start (behind get_hash tx u) u' vtx (tx ∷ acc) d.1
        (AllOld-behind get_hash start tx u vtx d.0 old.1) rest
      ∙ ap (undo acc) (λ i r. before-behind tx u a (new_at get_hash start tx u vtx old o) r i)

  pub undo-reverse :
      (u u' : OutPoint → Bool) (vtx : List Transaction)
      → Distinct (map get_hash vtx)
      → Accepts get_hash u u vtx u'
      → undo (reverse vtx) u' ≡ u
  undo-reverse u u' vtx d a = undo-Accepts u u u' vtx [] d (AllOld-start get_hash u vtx) a
