-- ===== src/Block/Round.antt =====
-- One round of the loop of `ConnectBlock` of src/main.cpp, on the set of unspent outputs.
use montecoin.Prelude.{
  ℕ, zero, suc, ◌+◌, ◌%◌, ◌^◌, ◌≡◌, refl, ap, ◌∙◌, Bool, true, false, not, ◌&&◌, List, [], ◌∷◌,
  Option, none, some, length, replicate, get_elem?, ltb, ◌==◌, if◌then◌else◌, nat_key, arith,
  Bool-cases, inl, inr,
}
use montecoin.Prelude.Int.{ℤ}
use montecoin.Prelude.Int64
use montecoin.Prelude.Dict
use montecoin.Prelude.Dict.{Dict, lookup-insert, Ascending, insert-Ascending}
use montecoin.Tx.{OutPoint, Transaction, uint_max, is_coin_base}
use montecoin.Tx.Check.Duplicates.{DistinctPrevouts}
use montecoin.Tx.Value.{get_value_out}
use montecoin.Inputs.{DiskTxPos, TxIndex, null_pos, is_null_pos, new_tx_index}
use montecoin.Inputs.Connect.{
  MapPrevTx, Outcome, ok, refused, thrown, aborted, ◌>>=◌, or_else, connect_inputs,
}
use montecoin.Inputs.Outcome.{bind-ok, refuse_if-ok}
use montecoin.Inputs.Fetch.{Fetched, fetched, missing, fetch_inputs}
use montecoin.Inputs.Fetch
use montecoin.Inputs.Marks.{mark, spends}
use montecoin.Inputs.Current.{fetch_inputs-Agrees}
use montecoin.Inputs.Ordered.{connect_inputs-Ascending}
use montecoin.Inputs.View.{view, is_free, AllIn, connect_inputs-view}
use montecoin.Block.{max_block_sigops, get_legacy_sig_op_count}
use montecoin.Block.Connect.{
  ConnectEnv, Queue, unscored, when_fetched, overwrites, has_null_mark, sources, block_mode, tx_pos,
  count_payment, with_queued, connect_payment, connect_coin_base, begin_tx, queue_tx, connect_tx,
}
use montecoin.Block.Unspent.{spent_by, unspent, behind}

pub unscored-ok : {A : Type 0} (m : Outcome A) {a : A} → unscored m ≡ ok a → m ≡ ok a
unscored-ok (ok a) h = h
unscored-ok (refused n) h = cc
unscored-ok thrown h = cc
unscored-ok aborted h = cc

when_fetched-ok :
    (f : Fetched) {inputs : MapPrevTx} → when_fetched f ≡ ok inputs → f ≡ fetched inputs
when_fetched-ok (fetched m) h = cc
when_fetched-ok missing h = cc
when_fetched-ok (Fetch.invalid n) h = cc
when_fetched-ok Fetch.aborted h = cc

-- The marks of a transaction that passes the check of BIP 30.
no_free : (v : List DiskTxPos) (n : ℕ) → has_null_mark v ≡ false → is_free (get_elem? v n) ≡ false
no_free [] n h = refl
no_free (p ∷ v) zero h = ground (arith, h)
no_free (p ∷ v) (suc n) h = no_free v n (ground (arith, h))

overwrites_none : (o : Option TxIndex) (n : ℕ) → overwrites o ≡ false → is_free (mark o n) ≡ false
overwrites_none none n h = refl
overwrites_none (some t) n h = no_free t.v_spent n h

free_new : (len n : ℕ) → is_free (get_elem? (replicate len null_pos) n) ≡ ltb n len
free_new zero n = ground arith
free_new (suc len) zero = ground arith
free_new (suc len) (suc n) = free_new len n ∙ ground arith

abbrev queue_of : Dict ℕ TxIndex → Outcome Queue → Dict ℕ TxIndex
queue_of d (ok x) = x.queued
queue_of d (refused k) = d
queue_of d thrown = d
queue_of d aborted = d

pub queued_of : (d : Dict ℕ TxIndex) {q q' : Queue} → ok q ≡ ok q' → q.queued ≡ q'.queued
queued_of d h = ap (λ (x : Outcome Queue). queue_of d x) h

with_queued-ok :
    (q : Queue) (m : Outcome (Dict ℕ TxIndex)) {q' : Queue}
    → (m >>= λ queued'. ok (record q { queued = queued' })) ≡ ok q'
    → (d : Dict ℕ TxIndex) × (m ≡ ok d) × (d ≡ q'.queued)
with_queued-ok q m {q'} h =
    let (d, e, k) = bind-ok m (λ queued'. ok (record q { queued = queued' })) h in
    (d, e, queued_of d k)

module _ (e : ConnectEnv) (read : ℕ → Option TxIndex) where
  -- A payment that is connected.
  pub payment_view :
      (tx : Transaction) (n : ℕ) (q q' : Queue)
      → is_coin_base tx ≡ false
      → is_null_pos (tx_pos e read n) ≡ false
      → connect_payment e read tx n q ≡ ok q'
      → AllIn (λ r. is_free (view read q.queued r)) tx.vin
        × DistinctPrevouts tx.vin
        × ((r : OutPoint)
            → view read q'.queued r
              ≡ (if spends tx.vin r then some (tx_pos e read n) else view read q.queued r))
        × (Ascending q.queued → Ascending q'.queued)
  unfolding connect_payment
  payment_view tx n q q' nb nq h =
      let connect : MapPrevTx → Outcome (Dict ℕ TxIndex) =
        λ inputs. unscored (connect_inputs e.inputs (block_mode e read n) tx inputs q.queued) in
      let (inputs, e₁, h₁) = bind-ok _ _ h in
      let (q₁, e₂, h₂) =
        bind-ok (count_payment e read tx inputs q) (λ q₁. with_queued e read q₁ (connect inputs))
          h₁ in
      let (queued', e₃, same) = with_queued-ok q₁ (connect inputs) h₂ in
      let e₄ = unscored-ok _ e₃ in
      let (all, d, v) =
        connect_inputs-view e.inputs (block_mode e read n) tx read inputs q.queued queued'
          (fetch_inputs-Agrees (sources e read) q.queued false tx nb (when_fetched-ok _ e₁)) nb refl
          nq e₄ in
      let o =
        connect_inputs-Ascending e.inputs (block_mode e read n) tx inputs q.queued queued' nb e₄ in
      rw (← same) (all, d, v, o)

  pub begin_tx-ok :
      (f_just_check : Bool) (tx : Transaction) (q : Queue) {q' : Queue}
      → begin_tx e read f_just_check tx q ≡ ok q'
      → (overwrites (read (e.check.get_hash tx)) ≡ false) × (q.queued ≡ q'.queued)
  unfolding begin_tx
  begin_tx-ok f_just_check tx q h =
      let (o, h₁) = refuse_if-ok _ _ _ h in
      let (l, h₂) =
        refuse_if-ok (ltb max_block_sigops ((q.n_sig_ops + get_legacy_sig_op_count tx) % 2 ^ 32))
          100 _ h₁ in
      (o, queued_of q.queued h₂)

  pub coin_base_queued :
      (tx : Transaction) (q : Queue) {q' : Queue}
      → connect_coin_base e read tx q ≡ ok q'
      → q.queued ≡ q'.queued
  unfolding connect_coin_base
  coin_base_queued tx q {q'} h =
      let paid : ℤ → Queue = λ v. record q { n_value_out = Int64.add q.n_value_out v } in
      let (v, e₁, h₁) = bind-ok (or_else thrown (get_value_out tx.vout)) (λ v. ok (paid v)) h in
      queued_of q.queued {q = paid v} h₁

  -- The middle of a round.
  middle_view :
      (tx : Transaction) (n : ℕ) (q q' : Queue)
      → is_null_pos (tx_pos e read n) ≡ false
      → (if is_coin_base tx then connect_coin_base e read tx q else connect_payment e read tx n q)
        ≡ ok q'
      → AllIn (λ r. is_free (view read q.queued r)) (spent_by tx)
        × DistinctPrevouts (spent_by tx)
        × ((r : OutPoint)
            → is_free (view read q'.queued r)
              ≡ (is_free (view read q.queued r) && not (spends (spent_by tx) r)))
        × (Ascending q.queued → Ascending q'.queued)
  middle_view tx n q q' nq h = elim (Bool-cases (is_coin_base tx)) [
    | inl b ↦
        let same = coin_base_queued tx q (rw b at h) in
        rw b (tt, tt, λ r. rw (← same) (ground arith), λ o. rw (← same) o)
    | inr b ↦
        let (a, d, v, o) = payment_view tx n q q' b nq (rw b at h) in
        rw b (a, d, λ r. rw (v r) (unspent_after (spends tx.vin r) (view read q.queued r)), o)
  ]
    where
      unspent_after :
          (s : Bool) (o : Option DiskTxPos)
          → is_free (if s then some (tx_pos e read n) else o) ≡ (is_free o && not s)
      unspent_after true o = ground (arith, nq)
      unspent_after false o = ground arith

  -- The end of a round.
  queued_view :
      (tx : Transaction) (n : ℕ) (queued queued' : Dict ℕ TxIndex) (r : OutPoint)
      → is_free (view read queued' r)
        ≡ (is_free (view read queued r) && not (spends (spent_by tx) r))
      → is_free (
          view read
            (Dict.insert
              (e.check.get_hash tx)
              (new_tx_index (tx_pos e read n) (length tx.vout))
              queued')
            r)
        ≡ behind e.check.get_hash tx (λ r. is_free (view read queued r)) r
  unfolding new_tx_index
  queued_view tx n queued queued' r v =
      let t = new_tx_index (tx_pos e read n) (length tx.vout) in
      let l = lookup-insert (e.check.get_hash tx) r.hash t queued' in
      elim (Bool-cases (e.check.get_hash tx == r.hash)) [
        | inl b ↦ rw (l, b) (free_new (length tx.vout) r.n)
        | inr b ↦ rw (l, b) v
      ]

  -- One round: what it needs of the set of unspent outputs, and the set behind it.
  pub tx_view :
      (f_just_check : Bool) (tx : Transaction) (q q' : Queue)
      → e.n_file == uint_max ≡ false
      → connect_tx e read f_just_check tx q ≡ ok q'
      → AllIn (λ r. is_free (view read q.queued r)) (spent_by tx)
        × DistinctPrevouts (spent_by tx)
        × ((r : OutPoint) → e.check.get_hash tx ≡ r.hash → unspent read r ≡ false)
        × ((r : OutPoint)
            → is_free (view read q'.queued r)
              ≡ behind e.check.get_hash tx (λ r. is_free (view read q.queued r)) r)
        × (Ascending q.queued → Ascending q'.queued)
  unfolding connect_tx new_tx_index
  tx_view f_just_check tx q q' nq h =
      let (q₁, e₁, h₁) = bind-ok _ _ h in
      let (q₂, e₂, h₂) =
        bind-ok
          (if is_coin_base tx
            then connect_coin_base e read tx q₁
            else connect_payment e read tx q.n_tx_pos q₁)
          (λ q''. ok (queue_tx e read tx q.n_tx_pos q'')) h₁ in
      let (o, same) = begin_tx-ok f_just_check tx q e₁ in
      let last = queued_of q.queued h₂ in
      let (a, d, v, up) = middle_view tx q.n_tx_pos q₁ q₂ nq e₂ in
      let a' : AllIn (λ r. is_free (view read q.queued r)) (spent_by tx) = rw same a in
      let v' : (r : OutPoint)
          → is_free (view read q₂.queued r)
            ≡ (is_free (view read q.queued r) && not (spends (spent_by tx) r)) =
        rw same v in
      let up' : Ascending q.queued → Ascending q₂.queued = rw same up in
      let t = new_tx_index (tx_pos e read q.n_tx_pos) (length tx.vout) in
      (
        a',
        d,
        λ r eq. rw eq at (overwrites_none (read (e.check.get_hash tx)) r.n o),
        λ r. rw (← last) (queued_view tx q.n_tx_pos q.queued q₂.queued r (v' r)),
        λ up. rw (← last) (insert-Ascending (e.check.get_hash tx) t q₂.queued (up' up)),
      )
