-- ===== src/Orphans/Listed.antt =====
-- The lists of the orphans that wait for a transaction, `mapOrphanTransactionsByPrev` of src/main.cpp.
use montecoin.Prelude.{
  ℕ, ==_iff, ◌≡◌, refl, ap, ◌∙◌, Bool, true, false, ◌&&◌, ◌||◌, List, [], ◌∷◌, Option, none, some,
  length, ltb, if◌then◌else◌, ◌==◌, nat_key,
}
use montecoin.Prelude.Dict
use montecoin.Prelude.Dict.{Dict, lookup-insert, lookup-erase}
use montecoin.Tx.{TxIn, Transaction}
use montecoin.Tx.Codec.{transaction_codec}
use montecoin.Inputs.Marks.{spends_from}
use montecoin.Orphans.{
  ByPrev, Orphans, or_empty, at, add_by_prev, is_empty_dict, erase_by_prev, add_orphan_tx,
  erase_orphan_tx,
}

-- What is listed under a transaction that is waited for.
abbrev pub listed : ℕ → ℕ → ByPrev → Option (List ℕ)
listed prev hash m = Dict.lookup hash (at prev m)

at-insert :
    (h p : ℕ) (x : Dict ℕ (List ℕ)) (m : ByPrev)
    → at p (Dict.insert h x m) ≡ (if h == p then x else at p m)
at-insert h p x m = ap or_empty (lookup-insert h p x m) ∙ split (h == p) (Dict.lookup p m)
  where
    split :
        (c : Bool) (o : Option (Dict ℕ (List ℕ)))
        → or_empty (if c then some x else o) ≡ (if c then x else or_empty o)
    split true o = refl
    split false o = refl

at-erase : (h p : ℕ) (m : ByPrev) → at p (Dict.erase h m) ≡ (if h == p then [] else at p m)
at-erase h p m = ap or_empty (lookup-erase h p m) ∙ split (h == p) (Dict.lookup p m)
  where
    split :
        (c : Bool) (o : Option (Dict ℕ (List ℕ)))
        → or_empty (if c then none else o) ≡ (if c then [] else or_empty o)
    split true o = refl
    split false o = refl

-- Whether a list is kept empty or is taken away makes no difference.
at-put :
    (h p : ℕ) (x : Dict ℕ (List ℕ)) (m : ByPrev)
    → at p (if is_empty_dict x then Dict.erase h m else Dict.insert h x m)
      ≡ (if h == p then x else at p m)
at-put h p [] m = at-erase h p m
at-put h p (e ∷ x) m = at-insert h p (e ∷ x) m

under :
    (c : Bool) (j : ℕ) (x y : Dict ℕ (List ℕ)) {o : Option (List ℕ)}
    → Dict.lookup j x ≡ o
    → Dict.lookup j (if c then x else y) ≡ (if c then o else Dict.lookup j y)
under true j x y h = h
under false j x y h = refl

-- The change for one input, and those for the rest, in one test.
join :
    (a b c : Bool) (new there here : Option (List ℕ)) {y : Option (List ℕ)}
    → (a ≡ true → there ≡ here)
    → y ≡ (if a then (if c then new else there) else here)
    → (if b && c then new else y) ≡ (if (a || b) && c then new else here)
join true true true new there here i h = refl
join true true false new there here i h = h ∙ i refl
join true false true new there here i h = h
join true false false new there here i h = h ∙ i refl
join false true true new there here i h = refl
join false true false new there here i h = h
join false false c new there here i h = h

pub listed-add_by_prev :
    (hash : ℕ) (msg : List ℕ) (vin : List TxIn) (m : ByPrev) (p j : ℕ)
    → listed p j (add_by_prev hash msg vin m)
      ≡ (if spends_from vin p && (hash == j) then some msg else listed p j m)
unfolding add_by_prev
listed-add_by_prev hash msg [] m p j = refl
listed-add_by_prev hash msg (txin ∷ vin) m p j =
    let h = txin.prevout.hash in
    let x = Dict.insert hash msg (at h m) in
    listed-add_by_prev hash msg vin (Dict.insert h x m) p j
    ∙ join (h == p) (spends_from vin p) (hash == j) (some msg) (listed h j m) (listed p j m)
        (λ e. ap (λ k. listed k j m) ((==_iff h p).0 e))
        (ap (Dict.lookup j) (at-insert h p x m)
          ∙ under (h == p) j x (at p m) (lookup-insert hash j msg (at h m)))

pub listed-erase_by_prev :
    (hash : ℕ) (vin : List TxIn) (m : ByPrev) (p j : ℕ)
    → listed p j (erase_by_prev hash vin m)
      ≡ (if spends_from vin p && (hash == j) then none else listed p j m)
unfolding erase_by_prev
listed-erase_by_prev hash [] m p j = refl
listed-erase_by_prev hash (txin ∷ vin) m p j =
    let h = txin.prevout.hash in
    let x = Dict.erase hash (at h m) in
    listed-erase_by_prev hash vin (if is_empty_dict x then Dict.erase h m else Dict.insert h x m) p
      j
    ∙ join (h == p) (spends_from vin p) (hash == j) none (listed h j m) (listed p j m)
        (λ e. ap (λ k. listed k j m) ((==_iff h p).0 e))
        (ap (Dict.lookup j) (at-put h p x m)
          ∙ under (h == p) j x (at p m) (lookup-erase hash j (at h m)))

-- The bytes of a transaction.
abbrev pub Holds : List ℕ → Transaction → Type 0
Holds msg tx = (rest : List ℕ) × (transaction_codec.unserialize msg ≡ some (tx, rest))

-- `AddOrphanTx` of a transaction that is not stored yet and has at most 5000 bytes stores it and lists it
-- under each transaction that it spends, and changes no other entry and no other list.
pub add_orphan_tx-listed :
    (get_hash : Transaction → ℕ) (msg : List ℕ) (tx : Transaction) (s : Orphans)
    → Holds msg tx
    → Dict.contains (get_hash tx) s.map_orphan_transactions ≡ false
    → ltb 5000 (length msg) ≡ false
    → (s' : Orphans) × (add_orphan_tx get_hash msg s ≡ some (s', true))
      × ((j : ℕ)
          → Dict.lookup j s'.map_orphan_transactions
            ≡ (if get_hash tx == j then some msg else Dict.lookup j s.map_orphan_transactions))
      × ((p j : ℕ)
          → listed p j s'.map_orphan_transactions_by_prev ≡ (
              if spends_from tx.vin p && (get_hash tx == j)
              then some msg
              else listed p j s.map_orphan_transactions_by_prev))
unfolding add_orphan_tx
add_orphan_tx-listed get_hash msg tx s (rest, is) new small = (
  record {
    map_orphan_transactions = Dict.insert (get_hash tx) msg s.map_orphan_transactions;
    map_orphan_transactions_by_prev =
        add_by_prev (get_hash tx) msg tx.vin s.map_orphan_transactions_by_prev;
  },
  rw (is, new, small) refl,
  λ j. lookup-insert (get_hash tx) j msg s.map_orphan_transactions,
  λ p j. listed-add_by_prev (get_hash tx) msg tx.vin s.map_orphan_transactions_by_prev p j,
)

-- `EraseOrphanTx` of a stored transaction takes it and its entries in the lists away, and no others.
erase_orphan_tx-listed :
    (hash : ℕ) (msg : List ℕ) (tx : Transaction) (s : Orphans)
    → Holds msg tx
    → Dict.lookup hash s.map_orphan_transactions ≡ some msg
    → (s' : Orphans) × (erase_orphan_tx hash s ≡ some s')
      × ((j : ℕ)
          → Dict.lookup j s'.map_orphan_transactions
            ≡ (if hash == j then none else Dict.lookup j s.map_orphan_transactions))
      × ((p j : ℕ)
          → listed p j s'.map_orphan_transactions_by_prev ≡ (
              if spends_from tx.vin p && (hash == j)
              then none
              else listed p j s.map_orphan_transactions_by_prev))
unfolding erase_orphan_tx
erase_orphan_tx-listed hash msg tx s (rest, is) stored = (
  record {
    map_orphan_transactions = Dict.erase hash s.map_orphan_transactions;
    map_orphan_transactions_by_prev = erase_by_prev hash tx.vin s.map_orphan_transactions_by_prev;
  },
  rw (stored, is) refl,
  λ j. lookup-erase hash j s.map_orphan_transactions,
  λ p j. listed-erase_by_prev hash tx.vin s.map_orphan_transactions_by_prev p j,
)

-- What an erasure leaves of the map of orphans.
pub erase_orphan_tx-erase :
    (hash : ℕ) (msg : List ℕ) (tx : Transaction) (s : Orphans)
    → Holds msg tx
    → Dict.lookup hash s.map_orphan_transactions ≡ some msg
    → (s' : Orphans) × (erase_orphan_tx hash s ≡ some s')
      × (s'.map_orphan_transactions ≡ Dict.erase hash s.map_orphan_transactions)
unfolding erase_orphan_tx
erase_orphan_tx-erase hash msg tx s (rest, is) stored = (
  record {
    map_orphan_transactions = Dict.erase hash s.map_orphan_transactions;
    map_orphan_transactions_by_prev = erase_by_prev hash tx.vin s.map_orphan_transactions_by_prev;
  },
  rw (stored, is) refl,
  refl,
)
