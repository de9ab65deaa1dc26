-- ===== src/Block/Accepted.antt =====
-- The loop of `ConnectBlock` of src/main.cpp and what is written behind it, on the set of unspent outputs.
use montecoin.Prelude.{
  ℕ, ◌≡◌, sym, ap, ◌∙◌, Bool, true, false, List, [], ◌∷◌, Option, none, some, ◌==◌, if◌then◌else◌,
  nat_key, ==-cases, inl, inr,
}
use montecoin.Prelude.Int.{ℤ}
use montecoin.Prelude.Dict
use montecoin.Prelude.Dict.{Dict, Ascending, lookup_before}
use montecoin.Tx.{OutPoint, Transaction, uint_max}
use montecoin.Inputs.{TxIndex, TxDb}
use montecoin.Inputs.Connect.{Outcome, ok, refused, thrown, aborted, or_else}
use montecoin.Inputs.Outcome.{bind-ok}
use montecoin.Inputs.Fetch.{first_found}
use montecoin.Inputs.Current.{current}
use montecoin.Inputs.Spend.{ok_inj}
use montecoin.Inputs.View.{view, is_free}
use montecoin.Block.Connect.{ConnectEnv, Queue, connect_tx, connect_loop}
use montecoin.Block.Finish.{
  Connected, mint, money_supply, has_prev, check_reward, update_all, write_changes, connected,
  connect_rest,
}
use montecoin.Block.Unspent.{unspent, behind, Accepts}
use montecoin.Block.Round.{queued_of, tx_view}

pub or_else-ok : {A : Type 0} (o : Option A) {a : A} → or_else (refused 0) o ≡ ok a → o ≡ some a
or_else-ok none h = cc
or_else-ok (some a) h = cc

module _ (e : ConnectEnv) (read : ℕ → Option TxIndex) where
  pub loop_Accepts :
      (f_just_check : Bool) (vtx : List Transaction) (q q' : Queue)
      → e.n_file == uint_max ≡ false
      → connect_loop e read f_just_check vtx q ≡ ok q'
      → Accepts e.check.get_hash
          (unspent read)
          (λ r. is_free (view read q.queued r))
          vtx
          (λ r. is_free (view read q'.queued r))
        × (Ascending q.queued → Ascending q'.queued)
  unfolding connect_loop
  loop_Accepts f_just_check [] q q' nq h =
      let same = queued_of q.queued h in
      (λ r. ap (λ (x : Dict ℕ TxIndex). is_free (view read x r)) (sym same), λ o. rw (← same) o)
  loop_Accepts f_just_check (tx ∷ vtx) q q' nq h =
      let (q₁, e₁, h₁) =
        bind-ok (connect_tx e read f_just_check tx q) (connect_loop e read f_just_check vtx) h in
      let (a, p, n, v, up) = tx_view e read f_just_check tx q q₁ nq e₁ in
      let (ih, ups) = loop_Accepts f_just_check vtx q₁ q' nq h₁ in
      let u : (OutPoint → Bool) =
        behind e.check.get_hash tx (λ r. is_free (view read q.queued r)) in
      let ext : ◌≡◌ {A = OutPoint → Bool} (λ r. is_free (view read q₁.queued r)) u = λ i r. v r i in
      ((a, p, n, rw ext at ih), λ o. ups (up o))

-- The writing of the queued changes leaves the entries that the block sees.
update_all-current :
    (t : TxDb) (e : ConnectEnv) (db : t.Db) (queued : Dict ℕ TxIndex) {db' : t.Db}
    → Ascending queued
    → update_all t e db queued ≡ ok db'
    → (k : ℕ) → t.read_tx_index db' k ≡ current (t.read_tx_index db) queued k
unfolding update_all Dict.lookup
update_all-current t e db [] o h k = ap (λ (d : t.Db). t.read_tx_index d k) (sym (ok_inj h))
update_all-current t e db ((j, x) ∷ queued) o h k =
    let (d, e₁, h₁) =
      bind-ok (or_else (refused 0) (t.update_tx_index db j x)) (λ d. update_all t e d queued) h in
    let ih = update_all-current t e d queued o.1 h₁ k in
    let r = t.read-update db d j k x (or_else-ok (t.update_tx_index db j x) e₁) in
    elim (==-cases j k) [
      | inl (same, b) ↦
          let n : Dict.lookup k queued ≡ none = rw (← same) (lookup_before j queued o.0) in
          rw b (rw (n, r, b) at ih)
      | inr b ↦ rw b (rw (r, b) at ih)
    ]

module _ (t : TxDb) (e : ConnectEnv) where
  open t use {Db, read_tx_index}

  -- A write that leaves the index of transactions as it is.
  abbrev pub Keeps : (Db → Option Db) → Type 0
  Keeps write = (d d' : Db) → write d ≡ some d' → (k : ℕ) → read_tx_index d' k ≡ read_tx_index d k

  connected-ok :
      (q : Queue) (m : Outcome Db) {c : Connected Db} → connected t e q m ≡ ok c → m ≡ ok c.db
  connected-ok q (ok a) h = cc
  connected-ok q (refused n) h = cc
  connected-ok q thrown h = cc
  connected-ok q aborted h = cc

  last_write :
      (write_prev : Db → Option Db) (b : Bool) (d d' : Db)
      → Keeps write_prev
      → (if b then or_else (refused 0) (write_prev d) else ok d) ≡ ok d'
      → (k : ℕ) → read_tx_index d' k ≡ read_tx_index d k
  last_write write_prev true d d' keeps h k = keeps d d' (or_else-ok (write_prev d) h) k
  last_write write_prev false d d' keeps h k = ap (λ (x : Db). read_tx_index x k) (sym (ok_inj h))

  -- What is written behind the loop.
  pub rest_current :
      (write_index : Db → ℤ → ℤ → Option Db) (write_prev : Db → Option Db) (vtx : List Transaction)
      (db : Db) (q : Queue) (c : Connected Db)
      → ((m s : ℤ) → Keeps (λ d. write_index d m s))
      → Keeps write_prev
      → Ascending q.queued
      → connect_rest t e write_index write_prev false vtx db q ≡ ok c
      → (k : ℕ) → read_tx_index c.db k ≡ current (read_tx_index db) q.queued k
  unfolding connect_rest write_changes
  rest_current write_index write_prev vtx db q c keeps keeps' o h k =
      let (d, e₁, h₁) =
        bind-ok (or_else (refused 0) (write_index db (mint q) (money_supply e q)))
          (λ d. connected t e q (write_changes t e write_prev vtx q d)) h in
      let h₂ = connected-ok q (write_changes t e write_prev vtx q d) h₁ in
      let (d₂, e₃, h₃) = bind-ok _ _ h₂ in
      let (u, e₄, h₄) =
        bind-ok (check_reward e vtx q.n_fees)
          (λ _. if has_prev e then or_else (refused 0) (write_prev d₂) else ok d₂) h₃ in
      let r₁ =
        keeps (mint q) (money_supply e q) db d
          (or_else-ok (write_index db (mint q) (money_supply e q)) e₁) k in
      let r₂ = update_all-current t e d q.queued o e₃ k in
      let r₃ = last_write write_prev (has_prev e) d₂ c.db keeps' h₄ k in
      r₃ ∙ r₂ ∙ ap (λ (x : Option TxIndex). first_found true (Dict.lookup k q.queued) x) r₁
