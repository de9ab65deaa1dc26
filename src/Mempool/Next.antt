-- ===== src/Mempool/Next.antt =====
-- The map from spent outputs to the inputs that spend them, `mapNextTx` of src/main.h.
use montecoin.Prelude.{
  ℕ, suc, zero, ◌+◌, ◌≡◌, refl, sym, ◌∙◌, Bool, true, false, ◌||◌, List, [], ◌∷◌, Option, none,
  some, get_elem?, if◌then◌else◌, arith, Bool-cases, inl, inr,
}
use montecoin.Prelude.Dict
use montecoin.Prelude.Dict.{Dict, lookup-insert, lookup-erase, lookup-insert_self}
use montecoin.Tx.{OutPoint, TxIn, out_point_key, out_point_eq, out_point_eq_iff}
use montecoin.Tx.Check.Duplicates.{NoneSpends, DistinctPrevouts}
use montecoin.Inputs.Marks.{spends}
use montecoin.Mempool.{InPoint, add_inputs, erase_inputs}

abbrev pub in_point : ℕ → ℕ → InPoint
in_point hash i = record { ptx = hash; n = i }

pub NoneSpends-spends : (p : OutPoint) (vin : List TxIn) → NoneSpends p vin → spends vin p ≡ false
NoneSpends-spends p [] h = refl
NoneSpends-spends p (txin ∷ vin) h =
    let ih = NoneSpends-spends p vin h.1 in
    elim (Bool-cases (out_point_eq txin.prevout p)) [
      | inl e ↦ absurd (h.0 (sym ((out_point_eq_iff txin.prevout p).0 e)))
      | inr e ↦ ground (arith, e, ih)
    ]

-- What no input spends is left alone.
pub lookup-add_inputs_other :
    (hash i : ℕ) (vin : List TxIn) (m : Dict OutPoint InPoint) (p : OutPoint)
    → spends vin p ≡ false
    → Dict.lookup p (add_inputs hash i vin m) ≡ Dict.lookup p m
unfolding add_inputs
lookup-add_inputs_other hash i [] m p h = refl
lookup-add_inputs_other hash i (txin ∷ vin) m p h =
    let (h₁, h₂) = neither (out_point_eq txin.prevout p) (spends vin p) h in
    lookup-add_inputs_other hash (i + 1) vin (Dict.insert txin.prevout (in_point hash i) m) p h₂
    ∙ lookup-insert txin.prevout p (in_point hash i) m
    ∙ rw h₁ refl
  where
    neither : (a b : Bool) → (a || b) ≡ false → (a ≡ false) × (b ≡ false)
    neither a b h = ground arith

-- Each input is entered under the output that it spends, if they are all different.
pub lookup-add_inputs_at :
    (hash i k : ℕ) (vin : List TxIn) (m : Dict OutPoint InPoint) {txin : TxIn}
    → DistinctPrevouts vin
    → get_elem? vin k ≡ some txin
    → Dict.lookup txin.prevout (add_inputs hash i vin m) ≡ some (in_point hash (i + k))
unfolding add_inputs
lookup-add_inputs_at hash i k [] m d h = cc
lookup-add_inputs_at hash i zero (t ∷ vin) m {txin} d h =
    let same : t ≡ txin = ground arith in
    let plus : i + 0 ≡ i = omega arith in
    rw (← same, plus)
      (lookup-add_inputs_other hash (i + 1) vin (Dict.insert t.prevout (in_point hash i) m)
          t.prevout (NoneSpends-spends t.prevout vin d.0)
        ∙ lookup-insert_self t.prevout (in_point hash i) m)
lookup-add_inputs_at hash i (suc k) (t ∷ vin) m d h =
    let plus : i + suc k ≡ i + 1 + k = omega arith in
    rw plus
      (lookup-add_inputs_at hash (i + 1) k vin (Dict.insert t.prevout (in_point hash i) m) d.1 h)

-- A spent outpoint is that of some input.
pub spends-get_elem? :
    (vin : List TxIn) (p : OutPoint)
    → spends vin p ≡ true
    → (k : ℕ) × (txin : TxIn) × (get_elem? vin k ≡ some txin) × (txin.prevout ≡ p)
spends-get_elem? [] p h = cc
spends-get_elem? (t ∷ vin) p h = elim (Bool-cases (out_point_eq t.prevout p)) [
  | inl e ↦ (0, t, refl, (out_point_eq_iff t.prevout p).0 e)
  | inr e ↦
      let (k, txin, at, eq) = spends-get_elem? vin p (ground (arith, h, e)) in (suc k, txin, at, eq)
]

pub get_elem?-spends :
    (vin : List TxIn) (k : ℕ) {txin : TxIn}
    → get_elem? vin k ≡ some txin
    → spends vin txin.prevout ≡ true
get_elem?-spends [] k h = cc
get_elem?-spends (t ∷ vin) zero {txin} h =
    let same : t ≡ txin = ground arith in
    rw same (ground (arith, (out_point_eq_iff txin.prevout txin.prevout).1 refl))
get_elem?-spends (t ∷ vin) (suc k) {txin} h = ground (arith, get_elem?-spends vin k h)

pub lookup-erase_inputs :
    (vin : List TxIn) (m : Dict OutPoint InPoint) (p : OutPoint)
    → Dict.lookup p (erase_inputs vin m) ≡ (if spends vin p then none else Dict.lookup p m)
unfolding erase_inputs
lookup-erase_inputs [] m p = refl
lookup-erase_inputs (t ∷ vin) m p =
    lookup-erase_inputs vin (Dict.erase t.prevout m) p
    ∙ join (out_point_eq t.prevout p) (spends vin p) (Dict.lookup p m) (lookup-erase t.prevout p m)
  where
    join :
        (a b : Bool) (x : Option InPoint) {y : Option InPoint}
        → y ≡ (if a then none else x)
        → (if b then none else y) ≡ (if a || b then none else x)
    join true true x h = refl
    join true false x h = h
    join false true x h = refl
    join false false x h = h
