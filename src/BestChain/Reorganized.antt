-- ===== src/BestChain/Reorganized.antt =====
-- What `Reorganize` of src/main.cpp does to the set of unspent outputs.
use mathlib.Core.List.{reverse, reverse_aux}
use montecoin.Prelude.{
  ℕ, ◌≡◌, sym, ap, ◌∙◌, Bool, true, false, List, [], ◌∷◌, ◌++◌, map, Option, some, ◌==◌, nat_key,
}
use montecoin.Prelude.Int.{ℤ}
use montecoin.Prelude.Dict
use montecoin.Prelude.Dict.{Dict}
use montecoin.Tx.{OutPoint, Transaction, uint_max}
use montecoin.Inputs.{TxDb}
use montecoin.Inputs.Connect.{Outcome, ok, refused, thrown, aborted, ◌>>=◌, or_else}
use montecoin.Inputs.Outcome.{bind-ok}
use montecoin.Inputs.Spend.{ok_inj}
use montecoin.Inputs.Marks.{mark}
use montecoin.Inputs.View.{is_free}
use montecoin.Block.{Block}
use montecoin.Block.Distinct.{Distinct}
use montecoin.Block.Connect.{unscored}
use montecoin.Block.Finish.{connect_block}
use montecoin.Block.Disconnect.{disconnect_block, Erases}
use montecoin.Block.Unspent.{unspent, Accepts}
use montecoin.Block.Round.{unscored-ok}
use montecoin.Block.Accepted.{or_else-ok}
use montecoin.Block.Connected.{connect_block-ok, connect_block-Accepts}
use montecoin.Block.Undo.{undo, undo-reverse}
use montecoin.Block.Restore.{disconnect_block-unspent}
use montecoin.Chain.{Chain, find_fork}
use montecoin.BestChain.{
  ChainEnv, State, block_hash, p_prev, is_some_block, pointers_above, from_flag, to_resurrect,
  resurrect, connect_env, disconnect_branch, connect_at, connect_branch, write_best, switch_branch,
  reorganize,
}

-- Blocks whose transactions have different hashes lead, one after the other, from one set of unspent
-- outputs to another.
abbrev pub Leads : (Transaction → ℕ) → (OutPoint → Bool) → List Block → (OutPoint → Bool) → Type 0
Leads get_hash u [] u' = u' ≡ u
Leads get_hash u (b ∷ bs) u' =
    (u₁ : OutPoint → Bool) × Distinct (map get_hash b.vtx)
    × Accepts get_hash u u b.vtx u₁
    × Leads get_hash u₁ bs u'

-- The blocks on disk that the pointers stand for.
abbrev pub Reads : (Chain → Option Block) → List Chain → List Block → Type 0
Reads read [] [] = Unit {0}
Reads read [] (b ∷ bs) = ⊥
Reads read (p ∷ ps) [] = ⊥
Reads read (p ∷ ps) (b ∷ bs) = (read p ≡ some b) × Reads read ps bs

-- The blocks undone, one after the other.
abbrev undo_blocks : (Transaction → ℕ) → List Block → (OutPoint → Bool) → OutPoint → Bool
undo_blocks get_hash [] u = u
undo_blocks get_hash (b ∷ bs) u = undo_blocks get_hash bs (undo get_hash (reverse b.vtx) u)

undo-Leads :
    (get_hash : Transaction → ℕ) (u u' : OutPoint → Bool) (bs acc : List Block)
    → Leads get_hash u bs u'
    → undo_blocks get_hash (reverse_aux bs acc) u' ≡ undo_blocks get_hash acc u
undo-Leads get_hash u u' [] acc l = ap (undo_blocks get_hash acc) l
undo-Leads get_hash u u' (b ∷ bs) acc (u₁, d, a, l) =
    undo-Leads get_hash u₁ u' bs (b ∷ acc) l
    ∙ ap (undo_blocks get_hash acc) (undo-reverse get_hash u u₁ b.vtx d a)

from_flag-ok : {Db : Type 0} (x : Db × Bool) {d : Db} → from_flag x ≡ ok d → x ≡ (d, true)
from_flag-ok (db, true) h = cc
from_flag-ok (db, false) h = cc

module _ (t : TxDb) (e : ChainEnv t) where
  open t use {Db, read_tx_index}

  abbrev pub KeepsIndex : (Db → Option Db) → Type 0
  KeepsIndex write =
      (d d' : Db) → write d ≡ some d' → (k : ℕ) → read_tx_index d' k ≡ read_tx_index d k

  -- Deletions work, the writes of the index of blocks, of the best block and of the end of the
  -- transaction leave the index of transactions as it is, and the blocks' files have numbers other than
  -- the one that stands for none.
  pub record Sound : Type 0 where
    pub erases : Erases t e.check.get_hash
    pub index_keeps : (pindex : Chain) (m s : ℤ) → KeepsIndex (λ d. e.write_index pindex d m s)
    pub next_keeps : (pindex : Chain) (k : ℕ) → KeepsIndex (e.write_hash_next pindex k)
    pub best_keeps : (k : ℕ) → KeepsIndex (e.write_hash_best_chain k)
    pub commit_keeps : KeepsIndex e.commit
    pub in_file : (pindex : Chain) (d : Db) → (e.env_for pindex d).n_file == uint_max ≡ false

  same_unspent :
      (d d' : Db)
      → ((k : ℕ) → read_tx_index d' k ≡ read_tx_index d k)
      → unspent (read_tx_index d') ≡ unspent (read_tx_index d)
  same_unspent d d' same = λ i r. is_free (mark (same r.hash i) r.n)

  disconnect_branch-unspent :
      (v : List Chain) (bs : List Block) (db : Db) (vs : List Transaction)
      (d : Db × List Transaction)
      → Sound
      → Reads e.read_from_disk v bs
      → disconnect_branch t e v db vs ≡ ok d
      → unspent (read_tx_index d.0) ≡ undo_blocks e.check.get_hash bs (unspent (read_tx_index db))
  unfolding disconnect_branch
  disconnect_branch-unspent [] [] db vs d s r h =
      ap (λ (x : Outcome (Db × List Transaction)). unspent (read_tx_index (db_of db x))) (sym h)
    where
      db_of : Db → Outcome (Db × List Transaction) → Db
      db_of d (ok x) = x.0
      db_of d (refused n) = d
      db_of d thrown = d
      db_of d aborted = d
  disconnect_branch-unspent [] (b ∷ bs) db vs d s r h = absurd r
  disconnect_branch-unspent (p ∷ v) [] db vs d s r h = absurd r
  disconnect_branch-unspent (p ∷ v) (b ∷ bs) db vs d s (r, rs) h =
      let get_hash = e.check.get_hash in
      let out = disconnect_block t get_hash (e.write_hash_next p 0) (is_some_block (p_prev p)) db in
      let (b', e₁, h₁) =
        bind-ok (or_else (refused 0) (e.read_from_disk p))
          (λ b.
            from_flag (out b.vtx) >>= λ d'. disconnect_branch t e v d' (vs ++ to_resurrect b.vtx))
          h in
      let (d', e₂, h₂) =
        bind-ok (from_flag (out b'.vtx))
          (λ d'. disconnect_branch t e v d' (vs ++ to_resurrect b'.vtx)) h₁ in
      let same : b' ≡ b = some_inj (sym (or_else-ok (e.read_from_disk p) e₁) ∙ r) in
      let u =
        disconnect_block-unspent t get_hash (e.write_hash_next p 0) (is_some_block (p_prev p)) db d'
          b'.vtx s.erases (s.next_keeps p 0) (from_flag-ok (out b'.vtx) e₂) in
      disconnect_branch-unspent v bs d' (vs ++ to_resurrect b'.vtx) d s rs h₂
      ∙ ap (undo_blocks get_hash bs)
          (u ∙ ap (λ (x : Block). undo get_hash (reverse x.vtx) (unspent (read_tx_index db))) same)
    where
      some_inj : {A : Type 0} {a b : A} → some a ≡ some b → a ≡ b
      some_inj h = cc

  pub connect_at-Accepts :
      (p : Chain) (b : Block) (db : Db) (supplies : Dict ℕ ℤ) (c : Db × Dict ℕ ℤ)
      → Sound
      → connect_at t e p b db supplies ≡ ok c
      → Distinct (map e.check.get_hash b.vtx)
        × Accepts e.check.get_hash
            (unspent (read_tx_index db))
            (unspent (read_tx_index db))
            b.vtx
            (unspent (read_tx_index c.0))
  unfolding connect_at
  connect_at-Accepts p b db supplies c s h =
      let env = connect_env t e p supplies db in
      let next = e.write_hash_next p (block_hash p) in
      let (x, e₁, h₁) =
        bind-ok (unscored (connect_block t env (e.write_index p) next false b db))
          (λ x. ok (x.db, Dict.insert (block_hash p) x.n_money_supply supplies)) h in
      let e₂ = unscored-ok (connect_block t env (e.write_index p) next false b db) e₁ in
      let (_, d, _, _) = connect_block-ok t env (e.write_index p) next false b db x e₂ in
      let a =
        connect_block-Accepts t env (e.write_index p) next b db x (s.in_file p db) (s.index_keeps p)
          (s.next_keeps p (block_hash p)) e₂ in
      let same : x.db ≡ c.0 = ap (λ (y : Db × Dict ℕ ℤ). y.0) (ok_inj h₁) in (d, rw same at a)

  connect_branch-Leads :
      (v : List Chain) (db : Db) (supplies : Dict ℕ ℤ) (vs : List Transaction)
      (c : Db × Dict ℕ ℤ × List Transaction)
      → Sound
      → connect_branch t e v db supplies vs ≡ ok c
      → (bs : List Block) × Reads e.read_from_disk v bs
        × Leads e.check.get_hash (unspent (read_tx_index db)) bs (unspent (read_tx_index c.0))
  unfolding connect_branch
  connect_branch-Leads [] db supplies vs c s h = (
    [],
    tt,
    ap (λ (y : Db × Dict ℕ ℤ × List Transaction). unspent (read_tx_index y.0)) (sym (ok_inj h)),
  )
  connect_branch-Leads (p ∷ v) db supplies vs c s h =
      let (b, e₁, h₁) =
        bind-ok (or_else (refused 0) (e.read_from_disk p))
          (λ b. connect_at t e p b db supplies >>= λ x. connect_branch t e v x.0 x.1 (vs ++ b.vtx))
          h in
      let (x, e₂, h₂) =
        bind-ok (connect_at t e p b db supplies) (λ x. connect_branch t e v x.0 x.1 (vs ++ b.vtx))
          h₁ in
      let (d, a) = connect_at-Accepts p b db supplies x s e₂ in
      let (bs, r, l) = connect_branch-Leads v x.0 x.1 (vs ++ b.vtx) c s h₂ in
      (b ∷ bs, (or_else-ok (e.read_from_disk p) e₁, r), (unspent (read_tx_index x.0), d, a, l))

  pub write_best_same :
      (hash : ℕ) (db db' : Db)
      → Sound
      → write_best t e hash db ≡ ok db'
      → unspent (read_tx_index db') ≡ unspent (read_tx_index db)
  unfolding write_best
  write_best_same hash db db' s h =
      let (d, e₁, h₁) =
        bind-ok (or_else (refused 0) (e.write_hash_best_chain hash db))
          (λ d. or_else (refused 0) (e.commit d)) h in
      same_unspent d db' (s.commit_keeps d db' (or_else-ok (e.commit d) h₁))
      ∙ same_unspent db d (s.best_keeps hash db d (or_else-ok (e.write_hash_best_chain hash db) e₁))

  -- The steps of a change of the branch that goes well.
  switch_branch-ok :
      (v_disconnect v_connect : List Chain) (hash : ℕ) (s : State Db) (s' : State Db)
      → switch_branch t e v_disconnect v_connect hash s ≡ ok s'
      → (d : Db × List Transaction) × (c : Db × Dict ℕ ℤ × List Transaction) × (disconnect_branch t
            e v_disconnect s.db []
          ≡ ok d)
        × (connect_branch t e v_connect d.0 s.n_money_supply [] ≡ ok c)
        × (write_best t e hash c.0 ≡ ok s'.db)
  unfolding switch_branch
  switch_branch-ok v_disconnect v_connect hash s s' h =
      let (d, e₁, h₁) = bind-ok (disconnect_branch t e v_disconnect s.db []) _ h in
      let (c, e₂, h₂) = bind-ok (connect_branch t e v_connect d.0 s.n_money_supply []) _ h₁ in
      let (db', e₃, h₃) = bind-ok (write_best t e hash c.0) _ h₂ in
      let (pool', e₄, h₄) = bind-ok (resurrect (e.pool_env db') d.1 s.pool) _ h₃ in
      let same : db' ≡ s'.db = ap (λ (x : State Db). x.db) (ok_inj h₄) in
      (d, c, e₁, e₂, e₃ ∙ ap ok same)

  -- Where the blocks of the best chain above the fork lead from a set of unspent outputs to that of the
  -- index, and a reorganisation goes well, the blocks of the new chain above the fork lead from the same
  -- set to that of the index behind it. The blocks of either chain are those on disk. Deletions work, the
  -- other writes leave the index of transactions as it is, and the blocks' files have numbers other than
  -- the one that stands for none.
  pub reorganize-Leads :
      (pindex_best pindex_new pfork : Chain) (s s' : State Db) (u : OutPoint → Bool)
      (old : List Block)
      → Sound
      → find_fork pindex_best pindex_new ≡ some pfork
      → Reads e.read_from_disk (pointers_above pfork pindex_best) (reverse old)
      → Leads e.check.get_hash u old (unspent (read_tx_index s.db))
      → reorganize t e pindex_best pindex_new s ≡ ok s'
      → (new : List Block) × Reads e.read_from_disk (reverse (pointers_above pfork pindex_new)) new
        × Leads e.check.get_hash u new (unspent (read_tx_index s'.db))
  unfolding reorganize
  reorganize-Leads pindex_best pindex_new pfork s s' u old sound f r l h =
      let get_hash = e.check.get_hash in
      let (d, c, e₁, e₂, e₃) =
        switch_branch-ok (pointers_above pfork pindex_best)
          (reverse (pointers_above pfork pindex_new)) (block_hash pindex_new) s s' (rw f at h) in
      let back : unspent (read_tx_index d.0) ≡ u =
        disconnect_branch-unspent (pointers_above pfork pindex_best) (reverse old) s.db [] d sound r
          e₁
        ∙ undo-Leads get_hash u (unspent (read_tx_index s.db)) old [] l in
      let (new, reads, leads) =
        connect_branch-Leads (reverse (pointers_above pfork pindex_new)) d.0 s.n_money_supply [] c
          sound e₂ in
      let last = write_best_same (block_hash pindex_new) c.0 s'.db sound e₃ in
      (new, reads, rw (back, ← last) at leads)
