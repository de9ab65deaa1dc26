-- ===== src/Kernel/Rounds.antt =====
-- The rounds of `ComputeNextStakeModifier` of src/kernel.cpp: a round always finds a block.
use montecoin.Prelude.{
  ℕ, zero, suc, ◌+◌, ◌≤◌, ◌<◌, ◌≡◌, ◌≢◌, refl, sym, true, ◌||◌, List, [], ◌∷◌, Option, none, some,
  length, ◌==◌, if◌then◌else◌, nat_key, arith, Bool-cases, ==-cases, inl, inr,
}
use montecoin.Prelude.Int.{ℤ, pos}
use montecoin.Prelude.Int64
use Prim.Native.Nat.{bit_or}
use montecoin.Prelude.Dict
use montecoin.Prelude.Dict.{Dict, contains-insert}
use montecoin.Kernel.{
  KernelBlock, KernelEnv, better, stops, select_loop, select_block_from_candidates, round_loop,
  selection_interval_section, entropy_at,
}
use montecoin.Kernel.Sorted.{All, DistinctHashes}
use montecoin.Kernel.Select.{is_selected, Indexed}

-- How many candidates are not selected.
abbrev pub unselected : Dict ℕ KernelBlock → List (ℕ × ℕ) → ℕ
unselected selected [] = 0
unselected selected (x ∷ items) =
    (if is_selected selected x.1 then 0 else 1) + unselected selected items

is_selected-insert :
    (k h : ℕ) (b : KernelBlock) (selected : Dict ℕ KernelBlock)
    → is_selected (Dict.insert k b selected) h ≡ (k == h || is_selected selected h)
is_selected-insert k h b selected = contains-insert k h b selected

pub unselected-nil : (items : List (ℕ × ℕ)) → unselected [] items ≡ length items
unfolding Dict.contains Dict.lookup
unselected-nil [] = refl
unselected-nil (x ∷ items) = omega (arith, unselected-nil items)

-- A block that is not there changes nothing, and one that is there once takes at most one.
unselected-same :
    (h : ℕ) (b : KernelBlock) (selected : Dict ℕ KernelBlock) (items : List (ℕ × ℕ))
    → All (λ y. h ≢ y.1) items
    → unselected (Dict.insert h b selected) items ≡ unselected selected items
unselected-same h b selected [] a = refl
unselected-same h b selected (x ∷ items) a =
    let ih = unselected-same h b selected items a.1 in
    let s = is_selected-insert h x.1 b selected in
    elim (==-cases h x.1) [ inl (eq, c) ↦ absurd (a.0 eq) | inr c ↦ rw (s, c, ih) refl ]

unselected-insert :
    (h : ℕ) (b : KernelBlock) (selected : Dict ℕ KernelBlock) (items : List (ℕ × ℕ))
    → DistinctHashes items
    → unselected selected items ≤ suc (unselected (Dict.insert h b selected) items)
unselected-insert h b selected [] d = omega arith
unselected-insert h b selected (x ∷ items) d =
    let s = is_selected-insert h x.1 b selected in
    elim (==-cases h x.1) [
      | inl (eq, c) ↦
          let e = unselected-same h b selected items (rw (sym eq) at d.0) in
          rw (s, c, e) (ground arith)
      | inr c ↦ let ih = unselected-insert h b selected items d.1 in rw (s, c) (ground (arith, ih))
    ]

module _ (env : KernelEnv) (selected : Dict ℕ KernelBlock) (stop : ℤ) (prev : ℕ) where
  -- The loop selects a block once one is selected, or one is left.
  select_loop_total :
      (items : List (ℕ × ℕ)) (best : Option KernelBlock)
      → All (Indexed env) items
      → (unselected selected items ≡ 0 → (b : KernelBlock) × (best ≡ some b))
      → (r : KernelBlock) × (select_loop env selected stop prev items best ≡ some r)
  unfolding select_loop
  select_loop_total [] best i h = h refl
  select_loop_total (x ∷ items) best i h =
      let (b, m, hb, tb) = i.0 in
      elim (Bool-cases (stops stop best b)) [
        | inl c ↦ let (d, e) = stops_some best b c in (d, rw (m, c) e)
        | inr c ↦ elim (Bool-cases (is_selected selected b.hash_block)) [
          | inl d ↦
              let d' : is_selected selected x.1 ≡ true = rw hb at d in
              let (r, e) = select_loop_total items best i.1 (λ z. h (rw d' (omega (arith, z)))) in
              (r, rw (m, c, d) e)
          | inr d ↦
              let (r, e) =
                select_loop_total items (some (better env prev best b)) i.1
                  (λ z. (better env prev best b, refl)) in
              (r, rw (m, c, d) e)
        ]
      ]
    where
      stops_some :
          (best : Option KernelBlock) (b : KernelBlock)
          → stops stop best b ≡ true
          → (d : KernelBlock) × (best ≡ some d)
      stops_some none b c = cc
      stops_some (some d) b c = (d, refl)

-- A round finds a block that is not selected yet.
select_one :
    (env : KernelEnv) (selected : Dict ℕ KernelBlock) (stop : ℤ) (prev : ℕ) (items : List (ℕ × ℕ))
    → All (Indexed env) items
    → 0 < unselected selected items
    → (r : KernelBlock) × (select_block_from_candidates env items selected stop prev ≡ some r)
unfolding select_block_from_candidates
select_one env selected stop prev items i h =
    select_loop_total env selected stop prev items none i (λ z. absurd (omega (arith, z, h)))

-- As many rounds as there are candidates left find a block each.
pub round_loop_total :
    (env : KernelEnv) (items : List (ℕ × ℕ)) (prev left n_round : ℕ) (stop : ℤ)
    (selected : Dict ℕ KernelBlock) (new : ℕ)
    → All (Indexed env) items
    → DistinctHashes items
    → left ≤ unselected selected items
    → (m : ℕ) × (round_loop env items prev left n_round stop selected new ≡ some m)
unfolding round_loop
round_loop_total env items prev zero n_round stop selected new i d le = (new, refl)
round_loop_total env items prev (suc left) n_round stop selected new i d le =
    let section = selection_interval_section env.n_modifier_interval n_round in
    let stop' = Int64.add stop (pos section) in
    let (b, e) = select_one env selected stop' prev items i (omega (arith, le)) in
    let less = unselected-insert b.hash_block b selected items d in
    let (m, f) =
      round_loop_total env items prev left (suc n_round) stop' (Dict.insert b.hash_block b selected)
        (bit_or new (entropy_at n_round b)) i d (omega (arith, less, le)) in
    (m, rw e f)
