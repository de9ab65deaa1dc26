-- ===== src/Chain.antt =====
-- The chain of blocks: `CBlockIndex` of src/main.h and the functions of src/main.h and src/main.cpp that
-- go back along it. A pointer to a block of the index is the list of the blocks from there back to the
-- first, so that `pprev` is the tail and a null pointer is the empty list; the index has one entry for
-- a hash, so that pointers are compared by the hash.
pub mod Suffix
pub mod Target
pub mod Retarget
pub mod Fork
pub mod Majority
mod Tests
use montecoin.Prelude.{
  ℕ, zero, suc, ◌+◌, ◌-◌, ◌*◌, ◌/◌, ◌≤◌, ◌<◌, ◌≡◌, Bool, true, false, not, ◌&&◌, ◌||◌, List, [],
  ◌∷◌, ◌++◌, Option, none, some, length, get_or, ltb, leb, ◌==◌, if◌then◌else◌,
}
use montecoin.Prelude.Int.{ℤ, pos, leb_ℤ}
use montecoin.Median.{sort}

-- The fields of `CBlockIndex` that are read here.
pub record BlockIndex : Type 0 where
  pub hash_block : ℕ
  pub n_height : ℕ
  pub n_version : ℤ
  pub n_time : ℕ
  pub n_bits : ℕ
  pub is_proof_of_stake : Bool

abbrev pub Chain : Type 0
Chain = List BlockIndex

abbrev pub is_null : Chain → Bool
is_null [] = true
is_null (b ∷ c) = false

-- `pindex == pother`
abbrev pub same_block : Chain → Chain → Bool
same_block [] [] = true
same_block [] (b ∷ c) = false
same_block (a ∷ c) [] = false
same_block (a ∷ c) (b ∷ d) = a.hash_block == b.hash_block

-- The inner loop of the search for the fork: `none` where it comes to a null pointer.
unfoldable pub go_down : ℕ → Chain → Option Chain
go_down n_height [] = none
go_down n_height (b ∷ plonger) =
    let rest = go_down n_height plonger in
    if ltb n_height b.n_height then rest else some (b ∷ plonger)

abbrev pub if_some_chain : Option Chain → (Chain → Option Chain) → Option Chain
if_some_chain none k = none
if_some_chain (some c) k = k c

-- The search for the fork in `Reorganize`.
unfoldable pub find_fork : Chain → Chain → Option Chain
find_fork [] plonger = none
find_fork (f ∷ pfork) plonger =
    if same_block (f ∷ pfork) plonger
    then some (f ∷ pfork)
    else if_some_chain (go_down f.n_height plonger) (λ plonger'.
      let rest = find_fork pfork plonger' in
      if same_block (f ∷ pfork) plonger' then some (f ∷ pfork) else rest)

-- The loops that list what to disconnect, and what to connect before it is reversed.
unfoldable pub list_above : Chain → Chain → List BlockIndex
list_above pfork [] = []
list_above pfork (b ∷ pindex) =
    let rest = list_above pfork pindex in if same_block (b ∷ pindex) pfork then [] else b ∷ rest

abbrev pub same_kind : Bool → Bool → Bool
same_kind true b = b
same_kind false b = not b

unfoldable pub get_last_block_index : Bool → Chain → Chain
get_last_block_index f_proof_of_stake [] = []
get_last_block_index f_proof_of_stake (b ∷ pindex) =
    let rest = get_last_block_index f_proof_of_stake pindex in
    if not (is_null pindex) && not (same_kind b.is_proof_of_stake f_proof_of_stake)
    then rest
    else b ∷ pindex

-- The loop of `IsSuperMajority`; `n_to_check` counts down.
unfoldable pub majority_loop : ℤ → ℕ → ℕ → ℕ → Chain → ℕ
majority_loop min_version n_required zero n_found pstart = n_found
majority_loop min_version n_required (suc n) n_found [] = n_found
majority_loop min_version n_required (suc n) n_found (b ∷ pstart) =
    let rest =
      majority_loop min_version n_required n
        (if leb_ℤ min_version b.n_version then n_found + 1 else n_found) pstart in
    if ltb n_found n_required then rest else n_found

unfoldable pub is_super_majority : ℤ → Chain → ℕ → ℕ → Bool
is_super_majority min_version pstart n_required n_to_check =
    leb n_required (majority_loop min_version n_required n_to_check 0 pstart)

-- `nMedianTimeSpan`
abbrev pub n_median_time_span : ℕ
n_median_time_span = 11

abbrev pub times : ℕ → Chain → List ℤ
times zero pindex = []
times (suc n) [] = []
times (suc n) (b ∷ pindex) = times n pindex ++ pos b.n_time ∷ []

unfoldable pub get_median_time_past : Chain → ℤ
get_median_time_past pindex =
    let pmedian = sort (times n_median_time_span pindex) in
    get_or pmedian (length pmedian / 2) (pos 0)

-- The steps back of a locator.
abbrev pub step_back : ℕ → Chain → Chain
step_back zero pindex = pindex
step_back (suc n) [] = []
step_back (suc n) (b ∷ pindex) = step_back n pindex

-- The loop of `CBlockLocator::Set`, on fuel.
unfoldable pub locator_loop : ℕ → Chain → ℕ → List ℕ → List ℕ
locator_loop zero pindex n_step v_have = v_have
locator_loop (suc fuel) [] n_step v_have = v_have
locator_loop (suc fuel) (b ∷ pindex) n_step v_have =
    let v_have' = v_have ++ b.hash_block ∷ [] in
    locator_loop fuel (step_back n_step (b ∷ pindex))
      (if ltb 10 (length v_have') then n_step * 2 else n_step) v_have'

unfoldable pub locator_set : ℕ → Chain → List ℕ
locator_set hash_genesis_block pindex =
    locator_loop (length pindex) pindex 1 [] ++ hash_genesis_block ∷ []
