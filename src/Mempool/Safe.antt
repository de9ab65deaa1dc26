-- ===== src/Mempool/Safe.antt =====
-- What `CTxMemPool::accept` of src/main.cpp keeps of the memory pool.
use montecoin.Prelude.{
  ℕ, ◌≡◌, refl, sym, ap, Bool, true, false, List, [], ◌∷◌, none, some, if◌then◌else◌, nat_key, ◌==◌,
  arith, Bool-cases, inl, inr,
}
use montecoin.Prelude.Int.{pos, ◌≤ℤ◌, ◌+ℤ◌}
use mathlib.Core.Path.{subst}
use montecoin.Prelude.Dict
use montecoin.Prelude.Dict.{Dict, lookup-insert, contains-false}
use montecoin.Tx.{
  TxIn, TxOut, Transaction, is_coin_base, is_coin_stake, out_point_key, out_point_eq,
  out_point_eq_iff,
}
use montecoin.Tx.Check.{Verdict, valid, invalid, check_transaction}
use montecoin.Tx.Check.WellFormed.{IsWellFormed, check_transaction-valid_iff}
use montecoin.Tx.Money.{min_tx_fee, max_money}
use montecoin.Tx.Value.{total, AllInRange, get_value_out}
use montecoin.Inputs.Connect.{
  MapPrevTx, Outcome, ok, refused, thrown, aborted, ◌>>=◌, ◌>>◌, refuse_if, get_value_in,
  connect_inputs,
}
use montecoin.Inputs.Outcome.{bind-ok}
use montecoin.Inputs.Value.{Spends}
use montecoin.Inputs.Balance.{connect_inputs_fee}
use montecoin.Inputs.Fetch.{Fetched, fetched, missing, fetch_inputs}
use montecoin.Inputs.Fetch
use montecoin.Inputs.Spend.{ok_inj}
use montecoin.Mempool.{TxMemPool, add_unchecked, exists}
use montecoin.Mempool.Consistent.{IsConsistent, NoConflict, add_unchecked-IsConsistent}
use montecoin.Mempool.Accept.{
  PoolEnv, from_verdict, has_conflict, check_new, check_fees, check_funds, accept_fetched,
  accept_rest, accept, sources, store, loose,
}

from_verdict-ok : (v : Verdict) {u : Unit {0}} → from_verdict v ≡ ok u → v ≡ valid
from_verdict-ok valid h = refl
from_verdict-ok (invalid n) h = cc

has_conflict-NoConflict :
    (pool : TxMemPool) (vin : List TxIn) → has_conflict pool vin ≡ false → NoConflict pool vin
unfolding has_conflict
has_conflict-NoConflict pool [] h p s = cc
has_conflict-NoConflict pool (txin ∷ vin) h p s = elim (Bool-cases (out_point_eq txin.prevout p)) [
  | inl e ↦
      let same = (out_point_eq_iff txin.prevout p).0 e in
      rw (← same) (contains-false txin.prevout pool.map_next_tx (ground (arith, h)))
  | inr e ↦ has_conflict-NoConflict pool vin (ground (arith, h)) p (ground (arith, s, e))
]

-- Eight checks in a row.
eight :
    (v : Verdict) (c₁ c₂ c₃ c₄ c₅ c₆ c₇ : Bool)
    → (from_verdict v
        >> (refuse_if c₁ 100
            >> (refuse_if c₂ 100
                >> (refuse_if c₃ 0
                    >> (refuse_if c₄ 0
                        >> (refuse_if c₅ 0 >> (refuse_if c₆ 0 >> refuse_if c₇ 0)))))))
      ≡ ok tt
    → (v ≡ valid) × (c₁ ≡ false) × (c₂ ≡ false) × (c₅ ≡ false) × (c₇ ≡ false)
eight (invalid n) c₁ c₂ c₃ c₄ c₅ c₆ c₇ h = cc
eight valid true c₂ c₃ c₄ c₅ c₆ c₇ h = cc
eight valid false true c₃ c₄ c₅ c₆ c₇ h = cc
eight valid false false true c₄ c₅ c₆ c₇ h = cc
eight valid false false false true c₅ c₆ c₇ h = cc
eight valid false false false false true c₆ c₇ h = cc
eight valid false false false false false true c₇ h = cc
eight valid false false false false false false true h = cc
eight valid false false false false false false false h = (refl, refl, refl, refl, refl)

-- What the first checks have found.
check_new_ok :
    (e : PoolEnv) (pool : TxMemPool) (tx : Transaction) (f_check_inputs : Bool)
    → check_new e pool tx f_check_inputs ≡ ok tt
    → (check_transaction tx ≡ valid)
      × (is_coin_base tx ≡ false)
      × (is_coin_stake tx ≡ false)
      × (exists (e.get_hash tx) pool ≡ false)
      × (has_conflict pool tx.vin ≡ false)
unfolding check_new
check_new_ok e pool tx f h =
    eight (check_transaction tx) (is_coin_base tx) (is_coin_stake tx) _ _
      (exists (e.get_hash tx) pool) _ (has_conflict pool tx.vin) h

accept_fetched_ok :
    (e : PoolEnv) (pool : TxMemPool) (tx : Transaction) (r : Fetched) {flag : Bool}
    {pool' : TxMemPool}
    → accept_fetched e pool tx r ≡ (flag, ok pool')
    → (inputs : MapPrevTx) × (r ≡ fetched inputs)
      × (check_funds e tx inputs ≡ ok tt)
      × (pool' ≡ add_unchecked (e.get_hash tx) tx pool)
unfolding accept_fetched
accept_fetched_ok e pool tx (fetched inputs) {flag} {pool'} h =
    let (u, ran, stored) =
      bind-ok (check_funds e tx inputs) (λ _. store e pool tx)
        (ap (λ (x : Bool × Outcome TxMemPool). x.1) h) in
    (inputs, refl, ran, ok_inj (sym stored))
accept_fetched_ok e pool tx missing h = cc
accept_fetched_ok e pool tx (Fetch.invalid n) h = cc
accept_fetched_ok e pool tx Fetch.aborted h = cc

accept_rest_ok :
    (e : PoolEnv) (pool : TxMemPool) (tx : Transaction) (f_check_inputs : Bool) {flag : Bool}
    {pool' : TxMemPool}
    → accept_rest e pool tx f_check_inputs (ok tt) ≡ (flag, ok pool')
    → pool' ≡ add_unchecked (e.get_hash tx) tx pool
accept_rest_ok e pool tx true h =
    (accept_fetched_ok e pool tx (fetch_inputs (sources e pool) [] false false tx) h).3
accept_rest_ok e pool tx false {flag} {pool'} h =
    ok_inj (sym (ap (λ (x : Bool × Outcome TxMemPool). x.1) h))

accept_ok :
    (e : PoolEnv) (pool : TxMemPool) (tx : Transaction) (f_check_inputs flag : Bool)
    {pool' : TxMemPool}
    → accept e pool tx f_check_inputs ≡ (flag, ok pool')
    → (check_new e pool tx f_check_inputs ≡ ok tt) × (pool' ≡ add_unchecked (e.get_hash tx) tx pool)
unfolding accept
accept_ok e pool tx f flag {pool'} h = go (check_new e pool tx f) refl h
  where
    go :
        (c : Outcome (Unit {0}))
        → check_new e pool tx f ≡ c
        → accept_rest e pool tx f c ≡ (flag, ok pool')
        → (check_new e pool tx f ≡ ok tt) × (pool' ≡ add_unchecked (e.get_hash tx) tx pool)
    go (ok u) eq k = (eq, accept_rest_ok e pool tx f k)
    go (refused n) eq k = cc
    go thrown eq k = cc
    go aborted eq k = cc

-- A transaction that `accept` takes into a consistent pool is well formed, was not in the pool and spends
-- no output that a transaction of the pool spends. It is then in the pool under its hash beside the
-- transactions that were there, and the pool is consistent.
pub accept-IsConsistent :
    (e : PoolEnv) (pool : TxMemPool) (tx : Transaction) (f_check_inputs flag : Bool)
    (pool' : TxMemPool)
    → IsConsistent e.get_hash pool
    → accept e pool tx f_check_inputs ≡ (flag, ok pool')
    → IsConsistent e.get_hash pool'
      × IsWellFormed tx
      × (Dict.lookup (e.get_hash tx) pool.map_tx ≡ none)
      × NoConflict pool tx.vin
      × ((h : ℕ)
          → Dict.lookup h pool'.map_tx
            ≡ (if e.get_hash tx == h then some tx else Dict.lookup h pool.map_tx))
unfolding add_unchecked exists
accept-IsConsistent e pool tx f flag pool' c h =
    let (new, eq) = accept_ok e pool tx f flag h in
    let (v, nb, ns, fresh, free) = check_new_ok e pool tx f new in
    let w = (check_transaction-valid_iff tx).0 v in
    let none_there = contains-false (e.get_hash tx) pool.map_tx fresh in
    let no_conflict = has_conflict-NoConflict pool tx.vin free in
    subst
      (λ u.
        IsConsistent e.get_hash u
        × IsWellFormed tx
        × (Dict.lookup (e.get_hash tx) pool.map_tx ≡ none)
        × NoConflict pool tx.vin
        × ((h : ℕ)
            → Dict.lookup h u.map_tx
              ≡ (if e.get_hash tx == h then some tx else Dict.lookup h pool.map_tx)))
      (sym eq)
      (
        add_unchecked-IsConsistent e.get_hash pool tx c w.distinct none_there no_conflict,
        w,
        none_there,
        no_conflict,
        λ h. lookup-insert (e.get_hash tx) h tx pool.map_tx,
      )

-- A transaction that `accept` takes with a check of its inputs spends outputs that were fetched, each of
-- them an amount in range, as is their sum. Its own outputs and the least fee are worth at most that sum.
-- The sums have no bound: none of them wraps around.
pub accept_fee :
    (e : PoolEnv) (pool : TxMemPool) (tx : Transaction) (flag : Bool) (pool' : TxMemPool)
    → accept e pool tx true ≡ (flag, ok pool')
    → (inputs : MapPrevTx) × (outs : List TxOut) × (fetch_inputs (sources e pool) [] false false tx
        ≡ fetched inputs)
      × Spends inputs tx.vin outs
      × AllInRange outs
      × (get_value_in inputs tx ≡ ok (total outs))
      × (get_value_out tx.vout ≡ some (total tx.vout))
      × (total outs ≤ℤ pos max_money)
      × (total tx.vout +ℤ pos min_tx_fee ≤ℤ total outs)
unfolding accept check_funds
accept_fee e pool tx flag pool' h =
    let (new, eq) = accept_ok e pool tx true flag h in
    let (v, nb, ns, fresh, free) = check_new_ok e pool tx true new in
    let h' : accept_fetched e pool tx (fetch_inputs (sources e pool) [] false false tx)
        ≡ (flag, ok pool') =
      rw new at h in
    let (inputs, got, funds, eq') =
      accept_fetched_ok e pool tx (fetch_inputs (sources e pool) [] false false tx) h' in
    let (u, fees, rest) =
      bind-ok (check_fees e tx inputs)
        (λ _. connect_inputs e.env loose tx inputs [] >>= λ changed. ok tt) funds in
    let (changed, connected, done) =
      bind-ok (connect_inputs e.env loose tx inputs []) (λ changed. ok tt) rest in
    let (outs, a₀, a₁, a₂, a₃, a₄, a₅) =
      connect_inputs_fee e.env loose tx inputs [] changed nb ns connected in
    (inputs, outs, got, a₀, a₁, a₂, a₃, a₄, a₅)
