-- ===== src/Block/Disconnect.antt =====
-- `DisconnectBlock` of src/main.cpp: the transactions of a block are taken out of the index, the last
-- one first, and the block before is written again without its successor.
use montecoin.Prelude.{
  ℕ, ◌≡◌, refl, sym, ap, ◌∙◌, Bool, true, false, List, [], ◌∷◌, Option, none, some, length, set,
  leb, ◌==◌, if◌then◌else◌, arith, Bool-cases, Option-cases, inl, inr,
}
use mathlib.Core.List.{reverse, reverse_aux}
use montecoin.Tx.{OutPoint, TxIn, Transaction, is_coin_base}
use montecoin.Inputs.{
  TxIndex, TxDb, null_pos, or_same, clear_mark, disconnect_input, disconnect_loop,
  disconnect_inputs,
}

-- `write_prev` is the writing of the block before, with its `hashNext` set to 0, to the index of blocks
-- in the same database; `none` if it fails. There is none before the first block.
module _ (t : TxDb) (get_hash : Transaction → ℕ) where
  open t use {Db, read_tx_index, update_tx_index, erase_tx_index, read-update, read-erase}

  abbrev pub go_on : Db × Bool → (Db → Db × Bool) → Db × Bool
  go_on (db, true) k = k db
  go_on (db, false) k = (db, false)

  abbrev pub written : Db → Option Db → Db × Bool
  written db none = (db, false)
  written db (some db') = (db', true)

  -- The loop, over the transactions in reverse order.
  unfoldable pub disconnect_all : Db → List Transaction → Db × Bool
  disconnect_all db [] = (db, true)
  disconnect_all db (tx ∷ vtx) =
      go_on (disconnect_inputs t db (get_hash tx) tx) (λ db'. disconnect_all db' vtx)

  unfoldable pub disconnect_block : (Db → Option Db) → Bool → Db → List Transaction → Db × Bool
  disconnect_block write_prev has_prev db vtx =
      go_on (disconnect_all db (reverse vtx))
        (λ db'. if has_prev then written db' (write_prev db') else (db', true))

  -- What is not in the index is not put there.
  input_absent :
      (db db' : Db) (p : OutPoint) (k : ℕ)
      → disconnect_input t db p ≡ some db'
      → read_tx_index db k ≡ none
      → read_tx_index db' k ≡ none
  unfolding disconnect_input
  input_absent db db' p k h n = elim (Option-cases (read_tx_index db p.hash)) [
    | inl e ↦ cc
    | inr (x, e) ↦ elim (Bool-cases (p.hash == k)) [
      | inl q ↦ absurd (ground (arith, ap (λ (j : ℕ). read_tx_index db j) (same p.hash k q), e, n))
      | inr q ↦
          let (w, u) = update x e h in let r = read-update db db' p.hash k w u in (rw q at r) ∙ n
    ]
  ]
    where
      same : (a b : ℕ) → a == b ≡ true → a ≡ b
      same a b q = ground (arith, q)

      update :
          (x : TxIndex)
          → read_tx_index db p.hash ≡ some x
          → clear_mark t db p (read_tx_index db p.hash) ≡ some db'
          → (w : TxIndex) × (update_tx_index db p.hash w ≡ some db')
      update x e h = elim (Bool-cases (leb (length x.v_spent) p.n)) [
        | inl c ↦ let b = rw (e, c) at h in cc
        | inr c ↦ (record x { v_spent = set x.v_spent p.n null_pos }, rw (e, c) at h)
      ]

  loop_absent :
      (db db' : Db) (vin : List TxIn) (k : ℕ)
      → disconnect_loop t db vin ≡ (db', true)
      → read_tx_index db k ≡ none
      → read_tx_index db' k ≡ none
  unfolding disconnect_loop
  loop_absent db db' [] k h n = let e : db ≡ db' = ap (λ (x : Db × Bool). x.0) h in rw (sym e) n
  loop_absent db db' (txin ∷ vin) k h n = elim (Option-cases (disconnect_input t db txin.prevout)) [
    | inl e ↦
        let b : false ≡ true = ap (λ (x : Db × Bool). x.1) (rw e at h) in absurd (ground (arith, b))
    | inr (d, e) ↦ loop_absent d db' vin k (rw e at h) (input_absent db d txin.prevout k e n)
  ]

  -- A deletion.
  erase_absent :
      (db db' : Db) (j k : ℕ)
      → erase_tx_index db j ≡ some db'
      → read_tx_index db k ≡ none
      → read_tx_index db' k ≡ none
  erase_absent db db' j k e n = elim (Bool-cases (j == k)) [
    | inl q ↦ rw q at (read-erase db db' j k e)
    | inr q ↦ (rw q at (read-erase db db' j k e)) ∙ n
  ]

  -- Whether deletions work.
  abbrev pub Erases : Type 0
  Erases = (d : Db) (hash : ℕ) → (d' : Db) × (erase_tx_index d hash ≡ some d')

  inputs_absent :
      (db db' : Db) (hash : ℕ) (tx : Transaction)
      → Erases
      → disconnect_inputs t db hash tx ≡ (db', true)
      → (read_tx_index db' hash ≡ none)
        × ((k : ℕ) → read_tx_index db k ≡ none → read_tx_index db' k ≡ none)
  unfolding disconnect_inputs
  inputs_absent db db' hash tx works h = elim (Bool-cases (is_coin_base tx)) [
    | inl c ↦ finish db (rw c at h) (λ k n. n)
    | inr c ↦
        let d = (disconnect_loop t db tx.vin).0 in
        let h₁ : ◌≡◌ {A = Db × Bool}
            (if (disconnect_loop t db tx.vin).1
              then (or_same d (erase_tx_index d hash), true)
              else (d, false))
            (db', true) =
          rw c at h in
        elim (Bool-cases (disconnect_loop t db tx.vin).1) [
          | inl e ↦ finish d (rw e at h₁) (λ k n. loop_absent db d tx.vin k (ap (λ b. (d, b)) e) n)
          | inr e ↦
              let b : false ≡ true = ap (λ (x : Db × Bool). x.1) (rw e at h₁) in
              absurd (ground (arith, b))
        ]
  ]
    where
      finish :
          (d : Db)
          → ◌≡◌ {A = Db × Bool} (or_same d (erase_tx_index d hash), true) (db', true)
          → ((k : ℕ) → read_tx_index db k ≡ none → read_tx_index d k ≡ none)
          → (read_tx_index db' hash ≡ none)
            × ((k : ℕ) → read_tx_index db k ≡ none → read_tx_index db' k ≡ none)
      finish d e pre =
          let (d', w) = works d hash in
          let q : d' ≡ db' = ap (λ (x : Db × Bool). x.0) (rw w at e) in
          let r = read-erase d d' hash hash w in
          let s : hash == hash ≡ true = ground arith in
          rw (← q) (rw s at r, λ k n. erase_absent d d' hash k w (pre k n))

  -- None of these transactions is in the index.
  abbrev pub AllOut : Db → List Transaction → Type 0
  AllOut db [] = Unit {0}
  AllOut db (tx ∷ vtx) = (read_tx_index db (get_hash tx) ≡ none) × AllOut db vtx

  all_absent :
      (db db' : Db) (vtx : List Transaction)
      → Erases
      → disconnect_all db vtx ≡ (db', true)
      → AllOut db' vtx × ((k : ℕ) → read_tx_index db k ≡ none → read_tx_index db' k ≡ none)
  unfolding disconnect_all
  all_absent db db' [] works h =
      let e : db ≡ db' = ap (λ (x : Db × Bool). x.0) h in (tt, λ k n. rw (sym e) n)
  all_absent db db' (tx ∷ vtx) works h =
      split (disconnect_inputs t db (get_hash tx) tx) (λ d e. all_absent d db' vtx works e) refl h
    where
      split :
          (r : Db × Bool)
          → ((d : Db)
              → disconnect_all d vtx ≡ (db', true)
              → AllOut db' vtx × ((k : ℕ) → read_tx_index d k ≡ none → read_tx_index db' k ≡ none))
          → disconnect_inputs t db (get_hash tx) tx ≡ r
          → go_on r (λ d. disconnect_all d vtx) ≡ (db', true)
          → AllOut db' (tx ∷ vtx)
            × ((k : ℕ) → read_tx_index db k ≡ none → read_tx_index db' k ≡ none)
      split (d, true) ih e h =
          let (out, pre) = inputs_absent db d (get_hash tx) tx works e in
          let (rest, pre') = ih d h in ((pre' (get_hash tx) out, rest), λ k n. pre' k (pre k n))
      split (d, false) ih e h =
          let b : false ≡ true = ap (λ (x : Db × Bool). x.1) h in absurd (ground (arith, b))

  reversed_out :
      (db : Db) (xs acc : List Transaction)
      → AllOut db (reverse_aux xs acc)
      → AllOut db xs × AllOut db acc
  reversed_out db [] acc h = (tt, h)
  reversed_out db (x ∷ xs) acc h = let (a, b) = reversed_out db xs (x ∷ acc) h in ((b.0, a), b.1)

  out_still :
      (d d' : Db) (vtx : List Transaction)
      → ((k : ℕ) → read_tx_index d k ≡ none → read_tx_index d' k ≡ none)
      → AllOut d vtx
      → AllOut d' vtx
  out_still d d' [] pre a = tt
  out_still d d' (tx ∷ vtx) pre a = (pre (get_hash tx) a.0, out_still d d' vtx pre a.1)

  -- What the writing at the end leaves.
  pub written_same :
      (write_prev : Db → Option Db) (has_prev : Bool) (d db' : Db)
      → ((d d' : Db) → write_prev d ≡ some d' → (k : ℕ) → read_tx_index d' k ≡ read_tx_index d k)
      → (if has_prev then written d (write_prev d) else (d, true)) ≡ (db', true)
      → (k : ℕ) → read_tx_index db' k ≡ read_tx_index d k
  written_same write_prev false d db' keeps h k =
      ap (λ (x : Db × Bool). read_tx_index x.0 k) (sym h)
  written_same write_prev true d db' keeps h k = elim (Option-cases (write_prev d)) [
    | inl e ↦
        let b : false ≡ true = ap (λ (x : Db × Bool). x.1) (rw e at h) in absurd (ground (arith, b))
    | inr (d', e) ↦
        let q : d' ≡ db' = ap (λ (x : Db × Bool). x.0) (rw e at h) in rw (← q) (keeps d d' e k)
  ]

  -- Where deletions work and the writing of the block before leaves the index of transactions as it is,
  -- a disconnection that goes well takes every transaction of the block out of the index and puts none
  -- there.
  pub disconnect_block-absent :
      (write_prev : Db → Option Db) (has_prev : Bool) (db db' : Db) (vtx : List Transaction)
      → Erases
      → ((d d' : Db) → write_prev d ≡ some d' → (k : ℕ) → read_tx_index d' k ≡ read_tx_index d k)
      → disconnect_block write_prev has_prev db vtx ≡ (db', true)
      → AllOut db' vtx × ((k : ℕ) → read_tx_index db k ≡ none → read_tx_index db' k ≡ none)
  unfolding disconnect_block
  disconnect_block-absent write_prev has_prev db db' vtx works keeps h =
      split (disconnect_all db (reverse vtx)) refl h
    where
      split :
          (r : Db × Bool)
          → disconnect_all db (reverse vtx) ≡ r
          → go_on r (λ d. if has_prev then written d (write_prev d) else (d, true)) ≡ (db', true)
          → AllOut db' vtx × ((k : ℕ) → read_tx_index db k ≡ none → read_tx_index db' k ≡ none)
      split (d, true) e h =
          let (out, pre) = all_absent db d (reverse vtx) works e in
          let last = λ (k : ℕ) (n : read_tx_index d k ≡ none).
            written_same write_prev has_prev d db' keeps h k ∙ n in
          (out_still d db' vtx last (reversed_out d vtx [] out).0, λ k n. last k (pre k n))
      split (d, false) e h =
          let b : false ≡ true = ap (λ (x : Db × Bool). x.1) h in absurd (ground (arith, b))
