-- ===== src/Inputs/Disconnect.antt =====
-- `DisconnectInputs` of src/main.cpp, which gives the spent outputs back.
use montecoin.Prelude.{
  ℕ, nat_key, beq_refl, beq_ne, ap, ◌≡◌, ◌≢◌, refl, ◌∙◌, Bool, true, false, List, [], ◌∷◌, Option,
  none, some, arith, if◌then◌else◌, Option-cases, Bool-cases, inl, inr, length, leb, if_none,
  get_elem?-some, get_elem?-bound,
}
use montecoin.Tx.{OutPoint, TxIn, Transaction, out_point_eq, is_coin_base}
use montecoin.Inputs.{
  DiskTxPos, TxIndex, null_pos, TxDb, disconnect_input, disconnect_loop, disconnect_inputs, or_same,
}
use montecoin.Inputs.Marks.{mark, mark-set, with_mark, spends}

module _ (t : TxDb) where
  open t use {Db, read_tx_index, update_tx_index, erase_tx_index, read-update, read-erase}

  -- The mark of an output in the index.
  abbrev pub db_mark : Db → OutPoint → Option DiskTxPos
  db_mark db r = mark (read_tx_index db r.hash) r.n

  disconnect_input_marks :
      (db : Db) (prevout : OutPoint) {db' : Db}
      → disconnect_input t db prevout ≡ some db'
      → (r : OutPoint)
      → db_mark db' r ≡ (if out_point_eq prevout r then some null_pos else db_mark db r)
  unfolding disconnect_input
  disconnect_input_marks db prevout {db'} h r =
      elim (Option-cases (read_tx_index db prevout.hash)) [
        | inl miss ↦ absurd (ground arith)
        | inr (e, found) ↦
            let (inside, written) =
              if_none (leb (length e.v_spent) prevout.n)
                (update_tx_index db prevout.hash (with_mark e prevout.n null_pos))
                (rw found at h) in
            let (p, at) = get_elem?-some e.v_spent prevout.n inside in
            rw (read-update db db' prevout.hash r.hash (with_mark e prevout.n null_pos) written) (
              mark-set (read_tx_index db r.hash) e prevout r null_pos (λ same. rw (← same) found)
                at)
      ]

  disconnect_loop_marks :
      (db : Db) (vin : List TxIn) {db' : Db}
      → disconnect_loop t db vin ≡ (db', true)
      → (r : OutPoint) → db_mark db' r ≡ (if spends vin r then some null_pos else db_mark db r)
  unfolding disconnect_loop
  disconnect_loop_marks db [] h r = rw (ap (λ (x : Db × Bool). x.0) h)
  disconnect_loop_marks db (txin ∷ vin) {db'} h r =
      elim (Option-cases (disconnect_input t db txin.prevout)) [
        | inl miss ↦ absurd (ground arith)
        | inr (db₁, e) ↦
            let a = disconnect_input_marks db txin.prevout e r in
            let b = disconnect_loop_marks db₁ vin (rw e at h) r in ground (arith, a, b)
      ]

  -- Every input's output is in the index.
  abbrev pub AllThere : Db → List TxIn → Type 0
  AllThere db [] = Unit {0}
  AllThere db (txin ∷ vin) =
      ((p : DiskTxPos) × (db_mark db txin.prevout ≡ some p)) × AllThere db vin

  still_there :
      (db db' : Db) (prevout : OutPoint) (vin : List TxIn)
      → disconnect_input t db prevout ≡ some db'
      → AllThere db vin
      → AllThere db' vin
  still_there db db' prevout [] h a = tt
  still_there db db' prevout (txin ∷ vin) h ((p, e), a) = (
    one (out_point_eq prevout txin.prevout) null_pos p
        (disconnect_input_marks db prevout h txin.prevout ∙ rw e),
    still_there db db' prevout vin h a,
  )
    where
      one :
          (c : Bool) (p q : DiskTxPos) {o : Option DiskTxPos}
          → o ≡ (if c then some p else some q)
          → (p : DiskTxPos) × (o ≡ some p)
      one true p q h = (p, h)
      one false p q h = (q, h)

  disconnect_input_total :
      (db : Db) (prevout : OutPoint) {p : DiskTxPos}
      → ((d : Db) (k : ℕ) (v : TxIndex) → (d' : Db) × (update_tx_index d k v ≡ some d'))
      → db_mark db prevout ≡ some p
      → (db' : Db) × (disconnect_input t db prevout ≡ some db')
  unfolding disconnect_input
  disconnect_input_total db prevout works e = elim (Option-cases (read_tx_index db prevout.hash)) [
    | inl miss ↦ absurd (ground arith)
    | inr (x, found) ↦
        let (d, w) = works db prevout.hash (with_mark x prevout.n null_pos) in
        (d, rw (found, get_elem?-bound x.v_spent prevout.n (rw found at e)) w)
  ]

  -- Where writing works, the loop comes to its end if every input's output is in the index.
  pub disconnect_loop_total :
      (db : Db) (vin : List TxIn)
      → ((d : Db) (k : ℕ) (v : TxIndex) → (d' : Db) × (update_tx_index d k v ≡ some d'))
      → AllThere db vin
      → (disconnect_loop t db vin).1 ≡ true
  unfolding disconnect_loop
  disconnect_loop_total db [] works a = refl
  disconnect_loop_total db (txin ∷ vin) works ((p, e), a) =
      let (db₁, e₁) = disconnect_input_total db txin.prevout works e in
      rw e₁ (disconnect_loop_total db₁ vin works (still_there db db₁ txin.prevout vin e₁ a))

  -- `DisconnectInputs`, when it goes well, clears the marks of the outputs that the transaction spent and
  -- no others, and takes the transaction itself out of the index, if the deletion does not fail.
  pub disconnect_inputs_marks :
      (db db' : Db) (hash : ℕ) (tx : Transaction)
      → is_coin_base tx ≡ false
      → ((d : Db) → (d' : Db) × (erase_tx_index d hash ≡ some d'))
      → disconnect_inputs t db hash tx ≡ (db', true)
      → (read_tx_index db' hash ≡ none)
        × ((r : OutPoint)
            → hash ≢ r.hash
            → db_mark db' r ≡ (if spends tx.vin r then some null_pos else db_mark db r))
  unfolding disconnect_inputs
  disconnect_inputs_marks db db' hash tx nb works h =
      let h₁ : ◌≡◌ {A = Db × Bool}
          (if (disconnect_loop t db tx.vin).1
            then (
              or_same (disconnect_loop t db tx.vin).0
                  (erase_tx_index (disconnect_loop t db tx.vin).0 hash),
              true,
            )
            else ((disconnect_loop t db tx.vin).0, false))
          (db', true) =
        rw nb at h in
      elim (Bool-cases (disconnect_loop t db tx.vin).1) [
        | inr e ↦ absurd (ground arith)
        | inl e ↦
            let (d', w) = works (disconnect_loop t db tx.vin).0 in
            let h₂ : ◌≡◌ {A = Db × Bool} (d', true) (db', true) = rw (e, w) at h₁ in
            let d'≡db' : d' ≡ db' = ap (λ (x : Db × Bool). x.0) h₂ in
            let l =
              disconnect_loop_marks db tx.vin (ap (λ b. ((disconnect_loop t db tx.vin).0, b)) e) in
            let g = λ (j : ℕ). read-erase (disconnect_loop t db tx.vin).0 d' hash j w in
            (
              rw (← d'≡db', g hash, beq_refl hash),
              λ r ne. rw (← d'≡db', g r.hash, beq_ne hash r.hash ne) (l r),
            )
      ]
