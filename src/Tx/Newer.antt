-- ===== src/Tx/Newer.antt =====
-- `CTransaction::IsNewerThan` of src/main.h: which of two spends of the same outputs is newer.
use Prim.Native.Nat.{min}
use montecoin.Prelude.{
  ℕ, ◌≡◌, refl, Bool, true, false, not, ◌&&◌, List, [], ◌∷◌, arith, length, ltb, leb, ◌==◌,
  if◌then◌else◌,
}
use montecoin.Tx.{TxIn, Transaction, uint_max, out_point_eq}

-- The first loop, over two lists of one length.
unfoldable pub same_prevouts : List TxIn → List TxIn → Bool
same_prevouts [] bs = true
same_prevouts (a ∷ as') [] = false
same_prevouts (a ∷ as') (b ∷ bs) =
    if not (out_point_eq a.prevout b.prevout) then false else same_prevouts as' bs

-- The two updates of `fNewer` and `nLowest` in the body of the second loop, and the body.
unfoldable pub lower_by_new : TxIn → Bool × ℕ → Bool × ℕ
lower_by_new a (f_newer, n_lowest) =
    if leb a.n_sequence n_lowest then (false, a.n_sequence) else (f_newer, n_lowest)

unfoldable pub lower_by_old : TxIn → Bool × ℕ → Bool × ℕ
lower_by_old b (f_newer, n_lowest) =
    if ltb b.n_sequence n_lowest then (true, b.n_sequence) else (f_newer, n_lowest)

unfoldable pub newer_step : TxIn → TxIn → Bool × ℕ → Bool × ℕ
unfolding lower_by_new lower_by_old
newer_step a b s = if a.n_sequence == b.n_sequence then s else lower_by_old b (lower_by_new a s)

unfoldable pub newer_loop : List TxIn → List TxIn → Bool × ℕ → Bool
unfolding newer_step
newer_loop [] bs s = s.0
newer_loop (a ∷ as') [] s = s.0
newer_loop (a ∷ as') (b ∷ bs) s = newer_loop as' bs (newer_step a b s)

unfoldable pub is_newer_than : Transaction → Transaction → Bool
unfolding same_prevouts newer_loop
is_newer_than tx old =
    if not (length tx.vin == length old.vin)
    then false
    else if not (same_prevouts tx.vin old.vin)
    then false
    else newer_loop tx.vin old.vin (false, uint_max)

-- The least sequence number, below `m`, of the first inputs where the two lists differ in it.
abbrev pub least : ℕ → List TxIn → List TxIn → ℕ
least m [] bs = m
least m (a ∷ as') [] = m
least m (a ∷ as') (b ∷ bs) =
    least (if a.n_sequence == b.n_sequence then m else min m a.n_sequence) as' bs

newer_step_lem :
    (a b : TxIn) (f : Bool) (low ma mb : ℕ)
    → f ≡ ltb mb ma
    → low ≡ min ma mb
    → let ma' = (if a.n_sequence == b.n_sequence then ma else min ma a.n_sequence) in
      let mb' = (if b.n_sequence == a.n_sequence then mb else min mb b.n_sequence) in
      ((newer_step a b (f, low)).0 ≡ ltb mb' ma') × ((newer_step a b (f, low)).1 ≡ min ma' mb')
unfolding newer_step
newer_step_lem a b f low ma mb p q = ground arith

newer_loop_lem :
    (as' bs : List TxIn) (s : Bool × ℕ) (ma mb : ℕ)
    → s.0 ≡ ltb mb ma
    → s.1 ≡ min ma mb
    → newer_loop as' bs s ≡ ltb (least mb bs as') (least ma as' bs)
unfolding newer_loop
newer_loop_lem [] [] s ma mb p q = p
newer_loop_lem [] (b ∷ bs) s ma mb p q = p
newer_loop_lem (a ∷ as') [] s ma mb p q = p
newer_loop_lem (a ∷ as') (b ∷ bs) s ma mb p q =
    let r = newer_step_lem a b s.0 s.1 ma mb p q in
    newer_loop_lem as' bs (newer_step a b s) _ _ r.0 r.1

-- A transaction is newer than another exactly if both spend the same outputs in the same order and,
-- over the inputs whose sequence numbers differ, the least sequence number is the other's.
is_newer_than_lem :
    (tx old : Transaction)
    → is_newer_than tx old ≡ (
        (length tx.vin == length old.vin)
        && same_prevouts tx.vin old.vin
        && ltb (least uint_max old.vin tx.vin) (least uint_max tx.vin old.vin))
unfolding is_newer_than
is_newer_than_lem tx old =
    ground (arith, newer_loop_lem tx.vin old.vin (false, uint_max) uint_max uint_max refl refl)

-- No two transactions are each newer than the other.
is_newer_than_asymm : (a b : Transaction) → is_newer_than a b ≡ true → is_newer_than b a ≡ false
is_newer_than_asymm a b h = ground (arith, is_newer_than_lem a b, is_newer_than_lem b a)
