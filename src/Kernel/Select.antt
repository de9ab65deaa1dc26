-- ===== src/Kernel/Select.antt =====
-- The selection of a block, `SelectBlockFromCandidates` of src/kernel.cpp.
use montecoin.Prelude.{
  ℕ, ◌≤◌, ◌≡◌, ◌⊎◌, sym, ap, ◌∙◌, Bool, true, false, List, [], ◌∷◌, Option, none, some, ltb,
  nat_key, arith, Bool-cases, inl, inr,
}
use montecoin.Prelude.Int.{ℤ, pos, ltb_ℤ}
use montecoin.Prelude.Dict
use montecoin.Prelude.Dict.{Dict, lookup-insert}
use montecoin.Kernel.{
  KernelBlock, KernelEnv, hash_selection, better, stops, select_loop, select_block_from_candidates,
}
use montecoin.Kernel.Sorted.{All, Ascending}

abbrev pub is_selected : Dict ℕ KernelBlock → ℕ → Bool
is_selected selected h = Dict.contains h selected

module _ (env : KernelEnv) where
  -- A candidate is in the index, under its hash and with its time.
  abbrev pub Indexed : ℕ × ℕ → Type 0
  Indexed x =
      (b : KernelBlock) × (env.map_block_index x.1 ≡ some b)
      × (b.hash_block ≡ x.1)
      × (b.n_time ≡ x.0)

  module _ (selected : Dict ℕ KernelBlock) (stop : ℤ) (prev : ℕ) where
    -- The block is at most as large in its selection hash as a candidate, unless this one is selected
    -- already or too late.
    abbrev pub Beats : KernelBlock → ℕ × ℕ → Type 0
    Beats r x =
        (b : KernelBlock)
        → env.map_block_index x.1 ≡ some b
        → is_selected selected b.hash_block ≡ false
        → ltb_ℤ stop (pos b.n_time) ≡ false
        → hash_selection env prev r ≤ hash_selection env prev b

    -- The block is one of the candidates, and not selected yet.
    abbrev pub IsNew : List (ℕ × ℕ) → KernelBlock → Type 0
    IsNew [] r = ⊥
    IsNew (x ∷ xs) r =
        (env.map_block_index x.1 ≡ some r) × (is_selected selected r.hash_block ≡ false)
        ⊎ IsNew xs r

    -- What the loop makes of the block that is selected so far.
    abbrev BeatsBest : KernelBlock → Option KernelBlock → Type 0
    BeatsBest r none = Unit {0}
    BeatsBest r (some best) = hash_selection env prev r ≤ hash_selection env prev best

    abbrev FromBest : List (ℕ × ℕ) → KernelBlock → Option KernelBlock → Type 0
    FromBest items r none = IsNew items r
    FromBest items r (some best) = (r ≡ best) ⊎ IsNew items r

    later_stop :
        (time : ℕ) (r : KernelBlock) (items : List (ℕ × ℕ))
        → ltb_ℤ stop (pos time) ≡ true
        → All Indexed items
        → All (λ y. time ≤ y.0) items
        → All (Beats r) items
    later_stop time r [] l i a = tt
    later_stop time r (x ∷ items) l i a = (
      λ b m n t.
          let (b', m', h, e) = i.0 in
          let same : b'.n_time ≡ b.n_time = ap of_time (sym m' ∙ m) in
          absurd (late stop time b.n_time l (omega (arith, a.0, e, same)) t),
      later_stop time r items l i.1 a.1,
    )
      where
        of_time : Option KernelBlock → ℕ
        of_time none = 0
        of_time (some b) = b.n_time

        late : (z : ℤ) (t u : ℕ) → ltb_ℤ z (pos t) ≡ true → t ≤ u → ltb_ℤ z (pos u) ≡ false → ⊥
        late z t u l h n = ground (arith, l, h, n)

    FromBest-later :
        (x : ℕ × ℕ) (items : List (ℕ × ℕ)) (r : KernelBlock) (best : Option KernelBlock)
        → FromBest items r best
        → FromBest (x ∷ items) r best
    FromBest-later x items r none f = inr f
    FromBest-later x items r (some best) (inl e) = inl e
    FromBest-later x items r (some best) (inr n) = inr (inr n)

    -- The candidate is taken into account.
    taken :
        (x : ℕ × ℕ) (items : List (ℕ × ℕ)) (b r : KernelBlock) (best : Option KernelBlock)
        → env.map_block_index x.1 ≡ some b
        → is_selected selected b.hash_block ≡ false
        → hash_selection env prev r ≤ hash_selection env prev (better env prev best b)
        → (r ≡ better env prev best b) ⊎ IsNew items r
        → BeatsBest r best
          × FromBest (x ∷ items) r best
          × (hash_selection env prev r ≤ hash_selection env prev b)
    taken x items b r none m n le (inl e) = (tt, inl (rw e (m, n)), le)
    taken x items b r none m n le (inr new) = (tt, inr new, le)
    taken x items b r (some best) m n le f =
        elim (Bool-cases (ltb (hash_selection env prev b) (hash_selection env prev best))) [
          | inl c ↦
              let le' : hash_selection env prev r ≤ hash_selection env prev b = rw c at le in
              (ground (arith, c, le'), first (rw c at f), le')
          | inr c ↦
              let le' : hash_selection env prev r ≤ hash_selection env prev best = rw c at le in
              (le', second (rw c at f), ground (arith, c, le'))
        ]
      where
        first : (r ≡ b) ⊎ IsNew items r → (r ≡ best) ⊎ IsNew (x ∷ items) r
        first (inl e) = inr (inl (rw e (m, n)))
        first (inr new) = inr (inr new)

        second : (r ≡ best) ⊎ IsNew items r → (r ≡ best) ⊎ IsNew (x ∷ items) r
        second (inl e) = inl e
        second (inr new) = inr (inr new)

    differ : {h k : ℕ} → is_selected selected h ≡ true → is_selected selected k ≡ false → h ≡ k → ⊥
    differ s n e = let s' = rw e at s in absurd (ground (arith, s', n))

    -- What a candidate's index entry says.
    block_of :
        (x : ℕ × ℕ) (b b' : KernelBlock)
        → env.map_block_index x.1 ≡ some b
        → env.map_block_index x.1 ≡ some b'
        → b ≡ b'
    block_of x b b' m m' = let e : some b ≡ some b' = sym m ∙ m' in cc

    stopped :
        (best : Option KernelBlock) (b r : KernelBlock) (items : List (ℕ × ℕ))
        → stops stop best b ≡ true
        → best ≡ some r
        → (ltb_ℤ stop (pos b.n_time) ≡ true) × BeatsBest r best × FromBest items r best
    stopped none b r items s h = cc
    stopped (some best) b r items s h =
        let e : best ≡ r = cc in (s, rw e (ground arith), inl (sym e))

    select_loop_lem :
        (items : List (ℕ × ℕ)) (best : Option KernelBlock) (r : KernelBlock)
        → All Indexed items
        → Ascending items
        → select_loop env selected stop prev items best ≡ some r
        → BeatsBest r best × FromBest items r best × All (Beats r) items
    unfolding select_loop
    select_loop_lem [] none r i a h = cc
    select_loop_lem [] (some best) r i a h =
        let e : best ≡ r = cc in (rw e (ground arith), inl (sym e), tt)
    select_loop_lem (x ∷ items) best r i a h =
        let (b, m, hb, tb) = i.0 in
        elim (Bool-cases (stops stop best b)) [
          | inl c ↦
              let (l, be, f) = stopped best b r (x ∷ items) c (rw (m, c) at h) in
              (
                be,
                f,
                (
                  λ b' m' n t. absurd (
                      ground
                        (arith, l, t, ap (λ (k : KernelBlock). k.n_time) (block_of x b b' m m'))),
                  later_stop x.0 r items (rw tb at l) i.1 a.0,
                ),
              )
          | inr c ↦ elim (Bool-cases (is_selected selected b.hash_block)) [
            | inl d ↦
                let (be, f, all) = select_loop_lem items best r i.1 a.1 (rw (m, c, d) at h) in
                (
                  be,
                  FromBest-later x items r best f,
                  (
                    λ b' m' n t. absurd (
                        differ d n (ap (λ (k : KernelBlock). k.hash_block) (block_of x b b' m m'))),
                    all,
                  ),
                )
            | inr d ↦
                let (be, f, all) =
                  select_loop_lem items (some (better env prev best b)) r i.1 a.1
                    (rw (m, c, d) at h) in
                let (be', f', le) = taken x items b r best m d be f in
                (be', f', (λ b' m' n t. rw (← block_of x b b' m m') le, all))
          ]
        ]

    -- The selection finds a candidate that is not selected yet, whose selection hash is the least of
    -- those of the candidates that are not selected yet and not too late. The candidates are in the
    -- index, in the order of time.
    pub select_block_from_candidates_least :
        (items : List (ℕ × ℕ)) (r : KernelBlock)
        → All Indexed items
        → Ascending items
        → select_block_from_candidates env items selected stop prev ≡ some r
        → IsNew items r × All (Beats r) items
    unfolding select_block_from_candidates
    select_block_from_candidates_least items r i a h =
        let (b, f, all) = select_loop_lem items none r i a h in (f, all)
