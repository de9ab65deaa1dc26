-- ===== src/Tx/Check/Duplicates.antt =====
-- The loop of `CheckTransaction` that looks for an outpoint that is spent twice.
use montecoin.Prelude.{◌≡◌, ◌≢◌, ◌↔◌, refl, false, List, [], ◌∷◌, no_hit}
use montecoin.Prelude.OrderedSet.{contains, contains-insert-false, insert}
use montecoin.Tx.{OutPoint, TxIn, out_point_key}
use montecoin.Tx.Check.{has_duplicate}

abbrev pub NoneSpends : OutPoint → List TxIn → Type 0
NoneSpends p [] = Unit {0}
NoneSpends p (txin ∷ vin) = (p ≢ txin.prevout) × NoneSpends p vin

-- No two inputs spend the same outpoint.
abbrev pub DistinctPrevouts : List TxIn → Type 0
DistinctPrevouts [] = Unit {0}
DistinctPrevouts (txin ∷ vin) = NoneSpends txin.prevout vin × DistinctPrevouts vin

abbrev pub Fresh : List OutPoint → List TxIn → Type 0
Fresh seen [] = Unit {0}
Fresh seen (txin ∷ vin) = (contains txin.prevout seen ≡ false) × Fresh seen vin

Fresh-insert :
    (p : OutPoint) (seen : List OutPoint) (vin : List TxIn)
    → Fresh (insert p seen) vin ↔ (NoneSpends p vin × Fresh seen vin)
Fresh-insert p seen [] = (λ h. (tt, tt), λ h. tt)
Fresh-insert p seen (txin ∷ vin) =
    let ih = Fresh-insert p seen vin in
    let c = contains-insert-false p txin.prevout seen in
    (
      λ h. (((c.0 h.0).0, (ih.0 h.1).0), ((c.0 h.0).1, (ih.0 h.1).1)),
      λ h. (c.1 (h.0.0, h.1.0), ih.1 (h.0.1, h.1.1)),
    )

-- The loop finds no duplicate exactly if no input spends what was seen, and none spends what another
-- one does.
pub has_duplicate-false_iff :
    (seen : List OutPoint) (vin : List TxIn)
    → (has_duplicate seen vin ≡ false) ↔ (Fresh seen vin × DistinctPrevouts vin)
unfolding has_duplicate
has_duplicate-false_iff seen [] = (λ h. (tt, tt), λ h. refl)
has_duplicate-false_iff seen (txin ∷ vin) =
    let ih = has_duplicate-false_iff (insert txin.prevout seen) vin in
    let f = Fresh-insert txin.prevout seen vin in
    let n = no_hit (contains txin.prevout seen) (has_duplicate (insert txin.prevout seen) vin) in
    (
      λ h. let s = n.0 h in let r = ih.0 s.1 in let g = f.0 r.0 in ((s.0, g.1), (g.0, r.1)),
      λ h. n.1 (h.0.0, ih.1 (f.1 (h.1.0, h.0.1), h.1.1)),
    )

Fresh-nil : (vin : List TxIn) → Fresh [] vin
unfolding contains
Fresh-nil [] = tt
Fresh-nil (txin ∷ vin) = (refl, Fresh-nil vin)

pub has_duplicate_lem : (vin : List TxIn) → (has_duplicate [] vin ≡ false) ↔ DistinctPrevouts vin
has_duplicate_lem vin =
    let h = has_duplicate-false_iff [] vin in (λ e. (h.0 e).1, λ d. h.1 (Fresh-nil vin, d))
