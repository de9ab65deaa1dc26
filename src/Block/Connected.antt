-- ===== src/Block/Connected.antt =====
-- What `ConnectBlock` of src/main.cpp promises of a block that it connects.
use montecoin.Prelude.{◌≡◌, sym, Bool, false, not, List, map, Option, ◌==◌, nat_key}
use mathlib.Core.Path.{subst}
use montecoin.Prelude.Int.{ℤ}
use montecoin.Prelude.Dict
use montecoin.Tx.{OutPoint, Transaction, uint_max}
use montecoin.Tx.Check.{Verdict, valid, invalid}
use montecoin.Tx.Check.Duplicates.{DistinctPrevouts}
use montecoin.Inputs.{TxDb}
use montecoin.Inputs.Connect.{ok}
use montecoin.Inputs.Outcome.{bind-ok}
use montecoin.Inputs.Marks.{mark}
use montecoin.Inputs.View.{view, is_free}
use montecoin.Block.{Block, check_block}
use montecoin.Block.Distinct.{Distinct}
use montecoin.Block.WellFormed.{check_block-valid_iff}
use montecoin.Block.Connect.{ConnectEnv, Queue, when_valid, connect_loop}
use montecoin.Block.Finish.{Connected, start, connect_rest, connect_block}
use montecoin.Block.Unspent.{unspent, Accepts, all_spent, Accepts-DistinctPrevouts}
use montecoin.Block.Accepted.{loop_Accepts, rest_current, Keeps}

when_valid-ok : (v : Verdict) → when_valid v ≡ ok tt → v ≡ valid
when_valid-ok valid h = cc
when_valid-ok (invalid n) h = cc

module _ (t : TxDb) (e : ConnectEnv) where
  open t use {Db, read_tx_index}

  -- The parts of a call that goes well.
  pub connect_block-ok :
      (write_index : Db → ℤ → ℤ → Option Db) (write_prev : Db → Option Db) (f_just_check : Bool)
      (b : Block) (db : Db) (c : Connected Db)
      → connect_block t e write_index write_prev f_just_check b db ≡ ok c
      → (q : Queue) × Distinct (map e.check.get_hash b.vtx)
        × (connect_loop e (read_tx_index db) f_just_check b.vtx (start e f_just_check b.vtx) ≡ ok q)
        × (connect_rest t e write_index write_prev f_just_check b.vtx db q ≡ ok c)
  unfolding connect_block
  connect_block-ok write_index write_prev f_just_check b db c h =
      let v = check_block e.check (not f_just_check) (not f_just_check) b in
      let (u, e₁, h₁) = bind-ok _ _ h in
      let (q, e₂, h₂) =
        bind-ok (connect_loop e (read_tx_index db) f_just_check b.vtx (start e f_just_check b.vtx))
          (connect_rest t e write_index write_prev f_just_check b.vtx db) h₁ in
      let w =
        (check_block-valid_iff e.check (not f_just_check) (not f_just_check) b).0
          (when_valid-ok v e₁) in
      (q, w.distinct, e₂, h₂)

  -- Nothing is queued at the start.
  pub from_start :
      (f_just_check : Bool) (vtx : List Transaction) (db : Db) (q : Queue)
      → e.n_file == uint_max ≡ false
      → connect_loop e (read_tx_index db) f_just_check vtx (start e f_just_check vtx) ≡ ok q
      → Accepts e.check.get_hash
          (unspent (read_tx_index db))
          (unspent (read_tx_index db))
          vtx
          (λ r. is_free (view (read_tx_index db) q.queued r))
        × Dict.Ascending q.queued
  unfolding Dict.lookup
  from_start f_just_check vtx db q nq h =
      let (a, up) =
        loop_Accepts e (read_tx_index db) f_just_check vtx (start e f_just_check vtx) q nq h in
      (a, up tt)

  -- In a block that is connected, or only checked with success, no output is spent twice, be it by one
  -- transaction or by two. The block's file has a number other than the one that stands for none.
  pub connect_block-distinct :
      (write_index : Db → ℤ → ℤ → Option Db) (write_prev : Db → Option Db) (f_just_check : Bool)
      (b : Block) (db : Db) (c : Connected Db)
      → e.n_file == uint_max ≡ false
      → connect_block t e write_index write_prev f_just_check b db ≡ ok c
      → DistinctPrevouts (all_spent b.vtx)
  connect_block-distinct write_index write_prev f_just_check b db c nq h =
      let (q, d, h₁, h₂) = connect_block-ok write_index write_prev f_just_check b db c h in
      let u = unspent (read_tx_index db) in
      Accepts-DistinctPrevouts e.check.get_hash u
        (λ r. is_free (view (read_tx_index db) q.queued r)) b.vtx d
        (from_start f_just_check b.vtx db q nq h₁).0

  -- A block that is connected leads from the unspent outputs of the index before to those of the index
  -- behind it: one transaction after the other spends different outputs that are unspent by then, and
  -- these are replaced by its own, of whose hash the index before had no unspent output. The block's
  -- file has a number other than the one that stands for none, and the writing of the index of blocks
  -- leaves the index of transactions as it is.
  pub connect_block-Accepts :
      (write_index : Db → ℤ → ℤ → Option Db) (write_prev : Db → Option Db) (b : Block) (db : Db)
      (c : Connected Db)
      → e.n_file == uint_max ≡ false
      → ((m s : ℤ) → Keeps t e (λ d. write_index d m s))
      → Keeps t e write_prev
      → connect_block t e write_index write_prev false b db ≡ ok c
      → Accepts e.check.get_hash
          (unspent (read_tx_index db))
          (unspent (read_tx_index db))
          b.vtx
          (unspent (read_tx_index c.db))
  connect_block-Accepts write_index write_prev b db c nq keeps keeps' h =
      let (q, d, h₁, h₂) = connect_block-ok write_index write_prev false b db c h in
      let (a, up) = from_start false b.vtx db q nq h₁ in
      let r = rest_current t e write_index write_prev b.vtx db q c keeps keeps' up h₂ in
      let u' = λ (r : OutPoint). is_free (view (read_tx_index db) q.queued r) in
      let same : u' ≡ unspent (read_tx_index c.db) = λ i x. is_free (mark (sym (r x.hash) i) x.n) in
      let u = unspent (read_tx_index db) in
      subst (λ (v : OutPoint → Bool). Accepts e.check.get_hash u u b.vtx v) same a
