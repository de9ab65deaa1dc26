-- ===== src/Block/Restore.antt =====
-- What `DisconnectBlock` of src/main.cpp does to the set of unspent outputs.
use montecoin.Prelude.{
  ℕ, ◌≡◌, refl, sym, ap, ◌∙◌, Bool, true, false, ◌||◌, List, [], ◌∷◌, Option, none, some, ◌==◌,
  if◌then◌else◌, nat_key, arith, Bool-cases, ==-cases, inl, inr,
}
use mathlib.Core.List.{reverse}
use montecoin.Tx.{OutPoint, Transaction, is_coin_base}
use montecoin.Inputs.{DiskTxPos, null_pos, TxDb, or_same, disconnect_inputs}
use montecoin.Inputs.Marks.{mark, spends}
use montecoin.Inputs.View.{is_free}
use montecoin.Inputs.Disconnect.{db_mark, disconnect_inputs_marks}
use montecoin.Block.Disconnect.{
  go_on, written, written_same, disconnect_all, disconnect_block, Erases,
}
use montecoin.Block.Unspent.{unspent}
use montecoin.Block.Undo.{before, undo}

module _ (t : TxDb) (get_hash : Transaction → ℕ) where
  open t use {Db, read_tx_index, erase_tx_index, read-erase}

  -- A coinbase is only taken out.
  pub coin_base_erased :
      (db db' : Db) (tx : Transaction)
      → Erases t get_hash
      → is_coin_base tx ≡ true
      → disconnect_inputs t db (get_hash tx) tx ≡ (db', true)
      → (k : ℕ) → read_tx_index db' k ≡ (if get_hash tx == k then none else read_tx_index db k)
  unfolding disconnect_inputs
  coin_base_erased db db' tx works c h k =
      let (d, w) = works db (get_hash tx) in
      let h₁ : ◌≡◌ {A = Db × Bool} (or_same db (erase_tx_index db (get_hash tx)), true)
          (db', true) =
        rw c at h in
      let q : d ≡ db' = ap (λ (x : Db × Bool). x.0) (rw w at h₁) in
      rw (← q) (read-erase db d (get_hash tx) k w)

  -- `DisconnectInputs` leads to the unspent outputs before the transaction.
  disconnect_inputs-unspent :
      (db db' : Db) (tx : Transaction)
      → Erases t get_hash
      → disconnect_inputs t db (get_hash tx) tx ≡ (db', true)
      → (r : OutPoint)
      → unspent (read_tx_index db') r ≡ before get_hash tx (unspent (read_tx_index db)) r
  disconnect_inputs-unspent db db' tx works h r = elim (Bool-cases (is_coin_base tx)) [
    | inl c ↦ elim (Bool-cases (get_hash tx == r.hash)) [
      | inl b ↦ rw (coin_base_erased db db' tx works c h r.hash, b) refl
      | inr b ↦
          rw (coin_base_erased db db' tx works c h r.hash, b, c)
            (nothing (unspent (read_tx_index db) r))
    ]
    | inr c ↦
        let (gone, marks) =
          disconnect_inputs_marks t db db' (get_hash tx) tx c (λ d. works d (get_hash tx)) h in
        elim (==-cases (get_hash tx) r.hash) [
          | inl (same, b) ↦ rw (b, ← same, gone) refl
          | inr b ↦
              rw (b, c)
                (ap is_free (marks r (λ e. absurd (ground (arith, b, e))))
                  ∙ given_back (spends tx.vin r) (db_mark t db r))
        ]
  ]
    where
      nothing : (b : Bool) → b ≡ (b || false)
      nothing b = ground arith

      given_back :
          (s : Bool) (o : Option DiskTxPos)
          → is_free (if s then some null_pos else o) ≡ (is_free o || s)
      given_back true o = ground arith
      given_back false o = ground arith

  pub disconnect_all-unspent :
      (db db' : Db) (vtx : List Transaction)
      → Erases t get_hash
      → disconnect_all t get_hash db vtx ≡ (db', true)
      → unspent (read_tx_index db') ≡ undo get_hash vtx (unspent (read_tx_index db))
  unfolding disconnect_all
  disconnect_all-unspent db db' [] works h =
      ap (λ (x : Db × Bool). unspent (read_tx_index x.0)) (sym h)
  disconnect_all-unspent db db' (tx ∷ vtx) works h =
      split (disconnect_inputs t db (get_hash tx) tx)
        (λ d e. disconnect_all-unspent d db' vtx works e) refl h
    where
      split :
          (x : Db × Bool)
          → ((d : Db)
              → disconnect_all t get_hash d vtx ≡ (db', true)
              → unspent (read_tx_index db') ≡ undo get_hash vtx (unspent (read_tx_index d)))
          → disconnect_inputs t db (get_hash tx) tx ≡ x
          → go_on t get_hash x (λ d. disconnect_all t get_hash d vtx) ≡ (db', true)
          → unspent (read_tx_index db') ≡ undo get_hash (tx ∷ vtx) (unspent (read_tx_index db))
      split (d, true) ih e h =
          ih d h ∙ ap (undo get_hash vtx) (λ i r. disconnect_inputs-unspent db d tx works e r i)
      split (d, false) ih e h =
          let b : false ≡ true = ap (λ (x : Db × Bool). x.1) h in absurd (ground (arith, b))

  -- `DisconnectBlock` leads to the unspent outputs before the block.
  pub disconnect_block-unspent :
      (write_prev : Db → Option Db) (has_prev : Bool) (db db' : Db) (vtx : List Transaction)
      → Erases t get_hash
      → ((d d' : Db) → write_prev d ≡ some d' → (k : ℕ) → read_tx_index d' k ≡ read_tx_index d k)
      → disconnect_block t get_hash write_prev has_prev db vtx ≡ (db', true)
      → unspent (read_tx_index db') ≡ undo get_hash (reverse vtx) (unspent (read_tx_index db))
  unfolding disconnect_block
  disconnect_block-unspent write_prev has_prev db db' vtx works keeps h =
      split (disconnect_all t get_hash db (reverse vtx)) refl h
    where
      split :
          (x : Db × Bool)
          → disconnect_all t get_hash db (reverse vtx) ≡ x
          → go_on t get_hash x
              (λ d. if has_prev then written t get_hash d (write_prev d) else (d, true))
            ≡ (db', true)
          → unspent (read_tx_index db') ≡ undo get_hash (reverse vtx) (unspent (read_tx_index db))
      split (d, true) e h =
          (λ i r.
            is_free (mark (written_same t get_hash write_prev has_prev d db' keeps h r.hash i) r.n))
          ∙ disconnect_all-unspent db d (reverse vtx) works e
      split (d, false) e h =
          let b : false ≡ true = ap (λ (x : Db × Bool). x.1) h in absurd (ground (arith, b))
