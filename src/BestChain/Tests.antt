-- ===== src/BestChain/Tests.antt =====
-- The theorems about changes of the best chain of src/main.cpp, at a run.
use montecoin.Prelude.{
  ℕ, ◌==◌, ◌∙◌, inl, inr, if◌then◌else◌, ◌≡◌, refl, sym, ap, map, [], ◌∷◌, Option, some, nat_key,
}
use montecoin.Prelude.Dict
use montecoin.Prelude.Dict.{Dict}
use montecoin.Inputs.Memory.{memory}
use montecoin.Block.Example.{env, block, before, after}
use montecoin.Block.Distinct.{Distinct}
use montecoin.Chain.Suffix.{IsSuffix}
use montecoin.Chain.Fork.{HasHeights, Agree}
use montecoin.BestChain.Current.{
  IsIndex, IsCurrent, none_yet, after_change, follow, switch, Changes-IsCurrent,
}
use montecoin.BestChain.Followed.{AllGone, set_best_chain_inner-Accepts}
use montecoin.Block.Unspent.{Accepts, unspent}
use montecoin.Chain.{BlockIndex, Chain}
use montecoin.BestChain.{block_hash, pointers_above}
use montecoin.BestChain.Example.{
  entry, genesis, best, new, chain_env, old_state, new_state, reorganized, chain_env-Sound,
  before_block, followed,
}

set_best_chain_inner-Accepts_example :
    Distinct (map env.check.get_hash block.vtx)
    × Accepts env.check.get_hash
        (unspent (λ k. Dict.lookup k before))
        (unspent (λ k. Dict.lookup k before))
        block.vtx
        (unspent (λ k. Dict.lookup k after))
    × AllGone env.check.get_hash old_state.pool block.vtx
    × ◌≡◌ {A = Option ℕ} (Dict.lookup 1 old_state.p_next) (some 2)
set_best_chain_inner-Accepts_example =
    set_best_chain_inner-Accepts memory chain_env best block before_block old_state chain_env-Sound
      followed

-- The chains of the index, by the hash of their last block.
abbrev chain_of : ℕ → Chain
chain_of h = if h == 1 then genesis else if h == 2 then best else new

record IsTracked (c : Chain) : Type 0 where
  heights : HasHeights c
  known : (b : BlockIndex) (d : Chain) → IsSuffix (b ∷ d) c → chain_of b.hash_block ≡ b ∷ d
  rooted : IsSuffix genesis c

IsTracked-IsIndex : IsIndex (entry 1 0) IsTracked
unfolding Agree
IsTracked-IsIndex = record {
  heights = λ c i. i.heights;
  agree = λ f l i j a b c d p q e. sym (i.known a c p) ∙ ap chain_of e ∙ j.known b d q;
  rooted = λ c i. i.rooted;
}

known_genesis :
    (b : BlockIndex) (d : Chain) → IsSuffix (b ∷ d) genesis → chain_of b.hash_block ≡ b ∷ d
unfolding IsSuffix
known_genesis b d (inl h) = ap (λ c. chain_of (block_hash c)) h ∙ sym h
known_genesis b d (inr h) = cc

known_best : (b : BlockIndex) (d : Chain) → IsSuffix (b ∷ d) best → chain_of b.hash_block ≡ b ∷ d
unfolding IsSuffix
known_best b d (inl h) = ap (λ c. chain_of (block_hash c)) h ∙ sym h
known_best b d (inr h) = known_genesis b d h

known_new : (b : BlockIndex) (d : Chain) → IsSuffix (b ∷ d) new → chain_of b.hash_block ≡ b ∷ d
unfolding IsSuffix
known_new b d (inl h) = ap (λ c. chain_of (block_hash c)) h ∙ sym h
known_new b d (inr h) = known_genesis b d h

genesis-IsTracked : IsTracked genesis
unfolding HasHeights IsSuffix
genesis-IsTracked = record { heights = (refl, tt); known = known_genesis; rooted = inl refl }

best-IsTracked : IsTracked best
unfolding HasHeights IsSuffix
best-IsTracked = record {
  heights = (refl, (refl, tt));
  known = known_best;
  rooted = inr (inl refl);
}

new-IsTracked : IsTracked new
unfolding HasHeights IsSuffix
new-IsTracked = record { heights = (refl, (refl, tt)); known = known_new; rooted = inr (inl refl) }

at_start :
    IsCurrent memory chain_env
      (entry 1 0)
      (unspent (λ k. Dict.lookup k before))
      genesis
      before_block
unfolding pointers_above
at_start = ([], tt, refl)

Changes-IsCurrent_example :
    IsTracked new
    × IsCurrent memory chain_env (entry 1 0) (unspent (λ k. Dict.lookup k before)) new new_state
Changes-IsCurrent_example =
    Changes-IsCurrent memory chain_env (entry 1 0) IsTracked (unspent (λ k. Dict.lookup k before))
      chain_env-Sound IsTracked-IsIndex genesis-IsTracked at_start
      (after_change (after_change none_yet (follow best-IsTracked refl refl followed))
        (switch new-IsTracked reorganized))
