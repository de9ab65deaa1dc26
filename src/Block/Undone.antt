-- ===== src/Block/Undone.antt =====
-- `DisconnectBlock` of src/main.cpp, of a block that `ConnectBlock` connected.
use montecoin.Prelude.{
  ℕ, ◌≡◌, ◌≢◌, refl, ap, ◌∙◌, Bool, true, false, List, [], ◌∷◌, Option, none, some, ◌==◌,
  if◌then◌else◌, nat_key, arith, Bool-cases, inl, inr,
}
use mathlib.Core.List.{reverse}
use montecoin.Prelude.Int.{ℤ}
use montecoin.Prelude.Dict
use montecoin.Tx.{
  out_point_eq_iff, out_point_key, OutPoint, TxIn, Transaction, uint_max, is_coin_base,
}
use montecoin.Inputs.{
  TxIndex, DiskTxPos, null_pos, TxDb, or_same, disconnect_loop, disconnect_inputs,
}
use montecoin.Inputs.Connect.{ok}
use montecoin.Inputs.Marks.{mark, spends}
use montecoin.Inputs.View.{is_free}
use montecoin.Inputs.Disconnect.{db_mark, AllThere, disconnect_loop_total, disconnect_inputs_marks}
use montecoin.Block.{Block}
use montecoin.Block.Connect.{ConnectEnv}
use montecoin.Block.Finish.{Connected, start, connect_block}
use montecoin.Block.Disconnect.{written, disconnect_all, disconnect_block, Erases}
use montecoin.Block.Unspent.{spent_by, unspent, all_spent, AllOld-start}
use montecoin.Block.Accepted.{Keeps, rest_current}
use montecoin.Block.Connected.{connect_block-ok, from_start, connect_block-Accepts}
use montecoin.Block.Known.{is_there, spends-append, loop_spent}
use montecoin.Block.Order.{InOrder, reverse-InOrder, reverse-spends}
use montecoin.Block.Undo.{undo-reverse}
use montecoin.Block.Restore.{coin_base_erased, disconnect_all-unspent}

there_some : (o : Option DiskTxPos) → is_there o ≡ true → (p : DiskTxPos) × (o ≡ some p)
there_some none h = cc
there_some (some p) h = (p, refl)

module _ (t : TxDb) (get_hash : Transaction → ℕ) where
  open t use {Db, read_tx_index, update_tx_index, erase_tx_index}

  -- Whether writes work.
  abbrev pub Updates : Type 0
  Updates = (d : Db) (k : ℕ) (v : TxIndex) → (d' : Db) × (update_tx_index d k v ≡ some d')

  -- The index has a mark of each output that the inputs spend.
  abbrev pub Marked : Db → List TxIn → Type 0
  Marked db vin = (r : OutPoint) → spends vin r ≡ true → is_there (db_mark t db r) ≡ true

  Marked-AllThere : (db : Db) (vin : List TxIn) → Marked db vin → AllThere t db vin
  Marked-AllThere db [] m = tt
  Marked-AllThere db (txin ∷ vin) m = (
    there_some (db_mark t db txin.prevout)
        (m txin.prevout (ground (arith, (out_point_eq_iff txin.prevout txin.prevout).1 refl))),
    Marked-AllThere db vin (λ r s. m r (ground (arith, s))),
  )

  inputs_total :
      (db : Db) (tx : Transaction)
      → Updates
      → Marked db (spent_by tx)
      → (db' : Db) × (disconnect_inputs t db (get_hash tx) tx ≡ (db', true))
  unfolding disconnect_inputs
  inputs_total db tx works m = elim (Bool-cases (is_coin_base tx)) [
    | inl c ↦ (or_same db (erase_tx_index db (get_hash tx)), rw c refl)
    | inr c ↦
        let d = (disconnect_loop t db tx.vin).0 in
        let e = disconnect_loop_total t db tx.vin works (Marked-AllThere db tx.vin (rw c at m)) in
        (or_same d (erase_tx_index d (get_hash tx)), rw (c, e) refl)
  ]

  inputs-Marked :
      (db db' : Db) (tx : Transaction) (vin : List TxIn)
      → Erases t get_hash
      → disconnect_inputs t db (get_hash tx) tx ≡ (db', true)
      → ((r : OutPoint) → spends vin r ≡ true → get_hash tx ≢ r.hash)
      → Marked db vin
      → Marked db' vin
  inputs-Marked db db' tx vin works h other m r s = elim (Bool-cases (is_coin_base tx)) [
    | inl c ↦
        let e : get_hash tx == r.hash ≡ false = ground (arith, other r s) in
        rw (coin_base_erased t get_hash db db' tx works c h r.hash, e) (m r s)
    | inr c ↦
        let (gone, marks) =
          disconnect_inputs_marks t db db' (get_hash tx) tx c (λ d. works d (get_hash tx)) h in
        rw (marks r (other r s)) (still (spends tx.vin r) (db_mark t db r) (m r s))
  ]
    where
      still :
          (b : Bool) (o : Option DiskTxPos)
          → is_there o ≡ true
          → is_there (if b then some null_pos else o) ≡ true
      still true o h = refl
      still false o h = h

  -- Transactions that are in order, and of whose inputs the index has marks, are all disconnected.
  disconnect_all_total :
      (db : Db) (vtx : List Transaction)
      → Updates
      → Erases t get_hash
      → InOrder get_hash vtx
      → Marked db (all_spent vtx)
      → (db' : Db) × (disconnect_all t get_hash db vtx ≡ (db', true))
  unfolding disconnect_all
  disconnect_all_total db [] up er o m = (db, refl)
  disconnect_all_total db (tx ∷ vtx) up er o m =
      let (d, e) = inputs_total db tx up (λ r s. m r (here r s)) in
      let m' = inputs-Marked db d tx (all_spent vtx) er e o.0 (λ r s. m r (later r s)) in
      let (db', rest) = disconnect_all_total d vtx up er o.1 m' in (db', rw e rest)
    where
      here : (r : OutPoint) → spends (spent_by tx) r ≡ true → spends (all_spent (tx ∷ vtx)) r ≡ true
      here r s = ground (arith, s, spends-append (spent_by tx) (all_spent vtx) r)

      later :
          (r : OutPoint) → spends (all_spent vtx) r ≡ true → spends (all_spent (tx ∷ vtx)) r ≡ true
      later r s = ground (arith, s, spends-append (spent_by tx) (all_spent vtx) r)

-- `written` at the end, where the write works.
last_works :
    (t : TxDb) (get_hash : Transaction → ℕ) (write_prev : t.Db → Option t.Db) (has_prev : Bool)
    (d : t.Db)
    → ((d : t.Db)
        → (d' : t.Db) × (write_prev d ≡ some d')
          × ((k : ℕ) → t.read_tx_index d' k ≡ t.read_tx_index d k))
    → (d' : t.Db) × ((if has_prev then written t get_hash d (write_prev d) else (d, true))
        ≡ (d', true))
      × ((k : ℕ) → t.read_tx_index d' k ≡ t.read_tx_index d k)
last_works t get_hash write_prev false d works = (d, refl, λ k. refl)
last_works t get_hash write_prev true d works = let (d', e, same) = works d in (d', rw e refl, same)

module _ (t : TxDb) (e : ConnectEnv) where
  open t use {Db, read_tx_index}

  -- A block that is connected has left a mark of each output that it spends.
  connect_block-Marked :
      (write_index : Db → ℤ → ℤ → Option Db) (write_prev : Db → Option Db) (b : Block) (db : Db)
      (c : Connected Db)
      → e.n_file == uint_max ≡ false
      → ((m s : ℤ) → Keeps t e (λ d. write_index d m s))
      → Keeps t e write_prev
      → connect_block t e write_index write_prev false b db ≡ ok c
      → Marked t e.check.get_hash c.db (all_spent b.vtx)
  unfolding Dict.lookup
  connect_block-Marked write_index write_prev b db c nq keeps keeps' h r s =
      let (q, d, h₁, h₂) = connect_block-ok t e write_index write_prev false b db c h in
      let (a, up) = from_start t e false b.vtx db q nq h₁ in
      let same = rest_current t e write_index write_prev b.vtx db q c keeps keeps' up h₂ in
      let old = AllOld-start e.check.get_hash (unspent (read_tx_index db)) b.vtx in
      let seen =
        loop_spent e (read_tx_index db) false b.vtx (start e false b.vtx) q nq h₁ d old r s in
      rw (same r.hash) seen

  -- A block that was connected can be disconnected, and the unspent outputs are then what they were
  -- before it was connected. Where it is disconnected, writes and deletions work, and the writing of the
  -- block before leaves the index of transactions as it is; for the call that connects the block, its
  -- file has a number other than the one that stands for none, and the writing of the index of blocks
  -- leaves the index of transactions as it is.
  pub disconnect_block-connect_block :
      (write_index : Db → ℤ → ℤ → Option Db) (write_prev write_prev' : Db → Option Db)
      (has_prev : Bool) (b : Block) (db : Db) (c : Connected Db)
      → e.n_file == uint_max ≡ false
      → ((m s : ℤ) → Keeps t e (λ d. write_index d m s))
      → Keeps t e write_prev
      → Updates t e.check.get_hash
      → Erases t e.check.get_hash
      → ((d : Db)
          → (d' : Db) × (write_prev' d ≡ some d')
            × ((k : ℕ) → read_tx_index d' k ≡ read_tx_index d k))
      → connect_block t e write_index write_prev false b db ≡ ok c
      → (db' : Db) × (disconnect_block t e.check.get_hash write_prev' has_prev c.db b.vtx
          ≡ (db', true))
        × ((r : OutPoint) → unspent (read_tx_index db') r ≡ unspent (read_tx_index db) r)
  unfolding disconnect_block
  disconnect_block-connect_block write_index write_prev write_prev' has_prev b db c nq keeps keeps'
        updates erases works h =
      let get_hash = e.check.get_hash in
      let u = unspent (read_tx_index db) in
      let u' = unspent (read_tx_index c.db) in
      let (q, d, _, _) = connect_block-ok t e write_index write_prev false b db c h in
      let a = connect_block-Accepts t e write_index write_prev b db c nq keeps keeps' h in
      let marked = connect_block-Marked write_index write_prev b db c nq keeps keeps' h in
      let (d₁, e₁) =
        disconnect_all_total t get_hash c.db (reverse b.vtx) updates erases
          (reverse-InOrder get_hash u u' b.vtx d a) (λ r s. marked r (reverse-spends b.vtx r s)) in
      let (d₂, e₂, same) = last_works t get_hash write_prev' has_prev d₁ works in
      let back : unspent (read_tx_index d₁) ≡ u =
        disconnect_all-unspent t get_hash c.db d₁ (reverse b.vtx) erases e₁
        ∙ undo-reverse get_hash u u' b.vtx d a in
      (
        d₂,
        rw e₁ e₂,
        λ r.
            ap (λ (o : Option TxIndex). is_free (mark o r.n)) (same r.hash)
            ∙ ap (λ (v : OutPoint → Bool). v r) back,
      )
