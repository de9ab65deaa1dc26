-- ===== src/Inputs/Pool.antt =====
-- The pending changes of the index that `ConnectInputs` of src/main.cpp collects in `mapTestPool`.
use montecoin.Prelude.{
  ℕ, ◌+◌, ◌≡◌, refl, ap, sym, ◌∙◌, Bool, true, false, ◌&&◌, ◌||◌, List, [], ◌∷◌, Option, some,
  arith, ◌==◌, if◌then◌else◌, nat_key,
}
use montecoin.Prelude.Dict
use montecoin.Prelude.Dict.{Dict, lookup-insert}
use montecoin.Tx.{OutPoint, TxIn, Transaction, is_coin_base}
use montecoin.Tx.Check.Duplicates.{DistinctPrevouts}
use montecoin.Inputs.{DiskTxPos, TxIndex, is_null_pos}
use montecoin.Inputs.Connect.{MapPrevTx, ok, Env, Mode, spend_input, spend_loop, connect_inputs}
use montecoin.Inputs.Outcome.{bind-ok, connect_inputs-ok}
use montecoin.Inputs.Marks.{mark, with_mark, spends, spends_from}
use montecoin.Inputs.Spend.{
  index_of, index_of-insert, spent_at, AllUnspent, spend_input_ok, spend_loop_marks, ok_inj,
}

-- A round writes the changed entry to both maps, under the hash of the spent transaction.
spend_input_pool :
    (env : Env) (mode : Mode) (tx : Transaction) (i : ℕ) (txin : TxIn) (inputs : MapPrevTx)
    (pool : Dict ℕ TxIndex) {s : MapPrevTx × Dict ℕ TxIndex}
    → mode.f_block ≡ true
    → spend_input env mode tx i txin (inputs, pool) ≡ ok s
    → (t : TxIndex) × ((h : ℕ)
        → index_of s.0 h ≡ (if txin.prevout.hash == h then some t else index_of inputs h))
      × ((h : ℕ)
          → Dict.lookup h s.1 ≡ (if txin.prevout.hash == h then some t else Dict.lookup h pool))
spend_input_pool env mode tx i txin inputs pool b h =
    let (e, p, found, at, null, sig, eq) = spend_input_ok env mode tx i txin inputs pool h in
    let t = with_mark e.0 txin.prevout.n mode.pos_this_tx in
    (
      t,
      λ h. rw eq (index_of-insert txin.prevout.hash h t e.1 inputs),
      λ h. rw (eq, b) (lookup-insert txin.prevout.hash h t pool),
    )

-- The loop leaves the other transactions' entries, and the pool holds the changed ones.
spend_loop_pool :
    (env : Env) (mode : Mode) (tx : Transaction) (i : ℕ) (vin : List TxIn) (inputs : MapPrevTx)
    (pool : Dict ℕ TxIndex) {s : MapPrevTx × Dict ℕ TxIndex}
    → mode.f_block ≡ true
    → spend_loop env mode tx i vin (inputs, pool) ≡ ok s
    → (h : ℕ)
    → (spends_from vin h ≡ false → index_of s.0 h ≡ index_of inputs h)
      × (Dict.lookup h s.1 ≡ (if spends_from vin h then index_of s.0 h else Dict.lookup h pool))
unfolding spend_loop
spend_loop_pool env mode tx i [] inputs pool b e h =
    (λ _. ap (λ x. index_of x.0 h) (ok_inj (sym e)), ap (λ x. Dict.lookup h x.1) (ok_inj (sym e)))
spend_loop_pool env mode tx i (txin ∷ vin) inputs pool b e h =
    let (s₁, e₁, h₁) =
      bind-ok (spend_input env mode tx i txin (inputs, pool)) (spend_loop env mode tx (i + 1) vin)
        e in
    let a = spend_input_pool env mode tx i txin inputs pool b e₁ in
    let c = spend_loop_pool env mode tx (i + 1) vin s₁.0 s₁.1 b h₁ h in
    join (txin.prevout.hash == h) (spends_from vin h) (index_of inputs h) (Dict.lookup h pool)
      (some a.0) (a.1 h) (a.2 h) c.0 c.1
  where
    join :
        (c d : Bool) (x y z : Option TxIndex) {x₁ x₂ y₁ y₂ : Option TxIndex}
        → x₁ ≡ (if c then z else x)
        → y₁ ≡ (if c then z else y)
        → (d ≡ false → x₂ ≡ x₁)
        → y₂ ≡ (if d then x₂ else y₁)
        → ((c || d) ≡ false → x₂ ≡ x) × (y₂ ≡ (if c || d then x₂ else y))
    join true true x y z p q r s = (λ n. cc, s)
    join true false x y z p q r s = (λ n. cc, s ∙ q ∙ sym p ∙ sym (r refl))
    join false true x y z p q r s = (λ n. cc, s)
    join false false x y z p q r s = (λ n. r refl ∙ p, s ∙ q)

pub spends→from :
    (vin : List TxIn) (r : OutPoint) → spends vin r ≡ true → spends_from vin r.hash ≡ true
spends→from [] r h = cc
spends→from (txin ∷ vin) r h =
    either (txin.prevout.hash == r.hash) (txin.prevout.n == r.n) (spends vin r) h
      (spends→from vin r)
  where
    either :
        (a b c : Bool) {d : Bool} → (a && b || c) ≡ true → (c ≡ true → d ≡ true) → (a || d) ≡ true
    either true b c h i = refl
    either false b c h i = i h

-- In a block, at a position that is not the null one, `ConnectInputs` accepts a transaction other than a
-- coinbase only if its inputs spend different outputs, each there and not spent. The pending changes
-- then hold the entries of the transactions it spends, with these outputs marked, and what they held of
-- any other transaction.
pub connect_inputs_entries :
    (env : Env) (mode : Mode) (tx : Transaction) (inputs : MapPrevTx) (pool pool' : Dict ℕ TxIndex)
    → is_coin_base tx ≡ false
    → mode.f_block ≡ true
    → is_null_pos mode.pos_this_tx ≡ false
    → connect_inputs env mode tx inputs pool ≡ ok pool'
    → (m : MapPrevTx) × AllUnspent inputs tx.vin
      × DistinctPrevouts tx.vin
      × ((r : OutPoint)
          → spent_at m r ≡ (if spends tx.vin r then some mode.pos_this_tx else spent_at inputs r))
      × ((h : ℕ)
          → Dict.lookup h pool'
            ≡ (if spends_from tx.vin h then index_of m h else Dict.lookup h pool))
connect_inputs_entries env mode tx inputs pool pool' nb b nq h =
    let (v, s, e₁, e₂, e₃, e₄) = connect_inputs-ok env mode tx inputs pool nb h in
    let a = spend_loop_marks env mode tx 0 tx.vin inputs pool nq e₂ in
    (s.0, a.0, a.1, a.2, λ h. rw (← e₄) (spend_loop_pool env mode tx 0 tx.vin inputs pool b e₂ h).1)

-- In a block, at a position that is not the null one, `ConnectInputs` accepts a transaction other than a
-- coinbase only if its inputs spend different outputs, each there and not spent. The pending changes
-- then mark exactly these outputs with its position, keep the marks of the other outputs of the
-- transactions it spends, and hold what they held of any other transaction.
pub connect_inputs_marks :
    (env : Env) (mode : Mode) (tx : Transaction) (inputs : MapPrevTx) (pool pool' : Dict ℕ TxIndex)
    → is_coin_base tx ≡ false
    → mode.f_block ≡ true
    → is_null_pos mode.pos_this_tx ≡ false
    → connect_inputs env mode tx inputs pool ≡ ok pool'
    → AllUnspent inputs tx.vin
      × DistinctPrevouts tx.vin
      × ((r : OutPoint)
          → mark (Dict.lookup r.hash pool') r.n ≡ (
              if spends tx.vin r
              then some mode.pos_this_tx
              else if spends_from tx.vin r.hash
              then spent_at inputs r
              else mark (Dict.lookup r.hash pool) r.n))
connect_inputs_marks env mode tx inputs pool pool' nb b nq h =
    let (m, a, d, e, c) = connect_inputs_entries env mode tx inputs pool pool' nb b nq h in
    (
      a,
      d,
      λ r. rw (c r.hash) (
          join (spends tx.vin r) (spends_from tx.vin r.hash) (index_of m r.hash)
            (Dict.lookup r.hash pool) (spent_at inputs r) r.n mode.pos_this_tx
            (spends→from tx.vin r) (e r)),
    )
  where
    join :
        (c d : Bool) (x y : Option TxIndex) (z : Option DiskTxPos) (n : ℕ) (p : DiskTxPos)
        → (c ≡ true → d ≡ true)
        → mark x n ≡ (if c then some p else z)
        → mark (if d then x else y) n ≡ (if c then some p else if d then z else mark y n)
    join true true x y z n p i e = e
    join true false x y z n p i e = absurd (ground (arith, i refl))
    join false true x y z n p i e = e
    join false false x y z n p i e = refl
