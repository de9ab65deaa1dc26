-- ===== src/Block/Known.antt =====
-- The marks that `ConnectBlock` of src/main.cpp leaves, for `DisconnectBlock` to look for.
use montecoin.Prelude.{
  ℕ, ◌≡◌, refl, sym, ◌∙◌, Bool, true, false, ◌||◌, List, [], ◌∷◌, ◌++◌, map, Option, none, some,
  length, ◌==◌, if◌then◌else◌, nat_key, arith, Bool-cases, ==-cases, inl, inr,
}
use montecoin.Prelude.Dict.{lookup-insert}
use montecoin.Tx.{OutPoint, TxIn, Transaction, uint_max, is_coin_base}
use montecoin.Inputs.{DiskTxPos, TxIndex, is_null_pos, new_tx_index}
use montecoin.Inputs.Connect.{ok}
use montecoin.Inputs.Outcome.{bind-ok}
use montecoin.Inputs.Marks.{spends}
use montecoin.Inputs.View.{view, is_free}
use montecoin.Block.Distinct.{NotIn, Distinct}
use montecoin.Block.Connect.{
  ConnectEnv, Queue, tx_pos, connect_payment, connect_coin_base, queue_tx, connect_tx, connect_loop,
}
use montecoin.Block.Unspent.{
  spent_by, behind, unspent, all_spent, AllOld, AllOld-behind, new_at, spent-NotIn,
}
use montecoin.Block.Round.{queued_of, payment_view, begin_tx-ok, coin_base_queued, tx_view}
use montecoin.Block.Accepted.{loop_Accepts}
use montecoin.Block.Undo.{AllIn-spends}

abbrev pub is_there : Option DiskTxPos → Bool
is_there none = false
is_there (some p) = true

free_there : (o : Option DiskTxPos) → is_free o ≡ true → is_there o ≡ true
free_there none h = cc
free_there (some p) h = refl

pub spends-append :
    (xs ys : List TxIn) (r : OutPoint) → spends (xs ++ ys) r ≡ (spends xs r || spends ys r)
spends-append [] ys r = refl
spends-append (x ∷ xs) ys r = ground (arith, spends-append xs ys r)

pub either : {C : Type 0} (a b : Bool) → (a || b) ≡ true → (a ≡ true → C) → (b ≡ true → C) → C
either true b h f g = f refl
either false b h f g = g h

module _ (e : ConnectEnv) (read : ℕ → Option TxIndex) where
  -- The block sees a mark of the output.
  abbrev Seen : Queue → OutPoint → Type 0
  Seen q r = is_there (view read q.queued r) ≡ true

  middle-Seen :
      (tx : Transaction) (n : ℕ) (q q' : Queue) (r : OutPoint)
      → is_null_pos (tx_pos e read n) ≡ false
      → (if is_coin_base tx then connect_coin_base e read tx q else connect_payment e read tx n q)
        ≡ ok q'
      → Seen q r
      → Seen q' r
  middle-Seen tx n q q' r nq h s = elim (Bool-cases (is_coin_base tx)) [
    | inl b ↦ rw (← coin_base_queued e read tx q (rw b at h)) s
    | inr b ↦
        let (a, d, v, o) = payment_view e read tx n q q' b nq (rw b at h) in
        rw (v r) (still (spends tx.vin r) (view read q.queued r) s)
  ]
    where
      still :
          (c : Bool) (o : Option DiskTxPos)
          → is_there o ≡ true
          → is_there (if c then some (tx_pos e read n) else o) ≡ true
      still true o h = refl
      still false o h = h

  tx-Seen :
      (f_just_check : Bool) (tx : Transaction) (q q' : Queue) (r : OutPoint)
      → e.n_file == uint_max ≡ false
      → connect_tx e read f_just_check tx q ≡ ok q'
      → e.check.get_hash tx == r.hash ≡ false
      → Seen q r
      → Seen q' r
  unfolding connect_tx
  tx-Seen f_just_check tx q q' r nq h ne s =
      let (q₁, e₁, h₁) = bind-ok _ _ h in
      let (q₂, e₂, h₂) =
        bind-ok
          (if is_coin_base tx
            then connect_coin_base e read tx q₁
            else connect_payment e read tx q.n_tx_pos q₁)
          (λ q''. ok (queue_tx e read tx q.n_tx_pos q'')) h₁ in
      let (o, same) = begin_tx-ok e read f_just_check tx q e₁ in
      let last = queued_of q.queued h₂ in
      let s₁ : Seen q₁ r = rw (← same) s in
      let s₂ = middle-Seen tx q.n_tx_pos q₁ q₂ r nq e₂ s₁ in
      let l =
        lookup-insert (e.check.get_hash tx) r.hash
          (new_tx_index (tx_pos e read q.n_tx_pos) (length tx.vout)) q₂.queued in
      rw (← last, l, ne) s₂

  loop-Seen :
      (f_just_check : Bool) (vtx : List Transaction) (q q' : Queue) (r : OutPoint)
      → e.n_file == uint_max ≡ false
      → connect_loop e read f_just_check vtx q ≡ ok q'
      → NotIn r.hash (map e.check.get_hash vtx)
      → Seen q r
      → Seen q' r
  unfolding connect_loop
  loop-Seen f_just_check [] q q' r nq h n s = rw (← queued_of q.queued h) s
  loop-Seen f_just_check (tx ∷ vtx) q q' r nq h n s =
      let (q₁, e₁, h₁) =
        bind-ok (connect_tx e read f_just_check tx q) (connect_loop e read f_just_check vtx) h in
      loop-Seen f_just_check vtx q₁ q' r nq h₁ n.1
        (tx-Seen f_just_check tx q q₁ r nq e₁ (other (e.check.get_hash tx) r.hash n.0) s)
    where
      other : (a b : ℕ) → (b ≡ a → ⊥) → a == b ≡ false
      other a b n = ground (arith, n)

  -- An output that one of the transactions spends is seen at the end, and no later transaction has its
  -- hash.
  pub loop_spent :
      (f_just_check : Bool) (vtx : List Transaction) (q q' : Queue)
      → e.n_file == uint_max ≡ false
      → connect_loop e read f_just_check vtx q ≡ ok q'
      → Distinct (map e.check.get_hash vtx)
      → AllOld e.check.get_hash (unspent read) (λ r. is_free (view read q.queued r)) vtx
      → (r : OutPoint) → spends (all_spent vtx) r ≡ true
      → Seen q' r
  unfolding connect_loop
  loop_spent f_just_check [] q q' nq h d old r s = cc
  loop_spent f_just_check (tx ∷ vtx) q q' nq h d old r s =
      let (q₁, e₁, h₁) =
        bind-ok (connect_tx e read f_just_check tx q) (connect_loop e read f_just_check vtx) h in
      let (a, p, new, v, up) = tx_view e read f_just_check tx q q₁ nq e₁ in
      let u : (OutPoint → Bool) = λ r. is_free (view read q.queued r) in
      let u₁ : (OutPoint → Bool) = λ r. is_free (view read q₁.queued r) in
      let ext : behind e.check.get_hash tx u ≡ u₁ = λ i r. sym (v r) i in
      let get_hash = e.check.get_hash in
      let old₁ = AllOld-behind get_hash (unspent read) tx u vtx d.0 old.1 in
      let old₂ : AllOld get_hash (unspent read) u₁ vtx = rw ext at old₁ in
      let (rest, ups) = loop_Accepts e read f_just_check vtx q₁ q' nq h₁ in
      let u' : (OutPoint → Bool) = λ r. is_free (view read q'.queued r) in
      let old_here = new_at get_hash (unspent read) tx u vtx old new in
      let s' : (spends (spent_by tx) r || spends (all_spent vtx) r) ≡ true =
        sym (spends-append (spent_by tx) (all_spent vtx) r) ∙ s in
      either (spends (spent_by tx) r) (spends (all_spent vtx) r) s'
        (λ here.
          let free : u r ≡ true = AllIn-spends u (spent_by tx) r a here in
          let later = spent-NotIn get_hash (unspent read) u u₁ u' r vtx rest old.1 free in
          loop-Seen f_just_check vtx q₁ q' r nq h₁ later (
            tx-Seen f_just_check tx q q₁ r nq e₁ (other r free (old_here r))
              (free_there (view read q.queued r) free)))
        (loop_spent f_just_check vtx q₁ q' nq h₁ d.1 old₂ r)
    where
      other :
          (r : OutPoint)
          → is_free (view read q.queued r) ≡ true
          → (e.check.get_hash tx ≡ r.hash → is_free (view read q.queued r) ≡ false)
          → e.check.get_hash tx == r.hash ≡ false
      other r free n = elim (==-cases (e.check.get_hash tx) r.hash) [
        | inl (same, b) ↦ absurd (ground (arith, free, n same))
        | inr b ↦ b
      ]
