-- ===== src/Block/WellFormed.antt =====
-- What `CheckBlock` of src/main.cpp accepts, said without its loops.
use montecoin.Prelude.{
  ℕ, ◌+◌, ◌≤◌, ◌≡◌, ◌↔◌, refl, Bool, true, false, ◌&&◌, List, [], ◌∷◌, map, length, arith,
  Bool-cases, inl, inr,
}
use montecoin.Tx.{Transaction, is_coin_base, is_coin_stake}
use montecoin.Tx.Check.{Verdict, valid, invalid, max_block_size, check_transaction, and_then}
use montecoin.Merkle.{root, build_merkle_tree}
use montecoin.Block.{
  Block, Env, max_block_sigops, n_max_clock_drift, block_size, first_is, rest_of, is_proof_of_stake,
  has_coin_base, has_empty_output, check_coin_stake_timestamp, check_transactions, block_sig_ops,
  check_rest, check_block,
}
use montecoin.Block.Distinct.{Distinct, insert_all_lem}

-- Each transaction is well formed and not later than the block.
abbrev pub AllTransactionsOk : ℕ → List Transaction → Type 0
AllTransactionsOk n_time [] = Unit {0}
AllTransactionsOk n_time (tx ∷ vtx) =
    ((check_transaction tx ≡ valid) × tx.n_time ≤ n_time) × AllTransactionsOk n_time vtx

abbrev pub NoCoinBase : List Transaction → Type 0
NoCoinBase [] = Unit {0}
NoCoinBase (tx ∷ vtx) = (is_coin_base tx ≡ false) × NoCoinBase vtx

-- In a block by proof of stake the coinbase pays nothing, and the coinstake has the time of the block.
abbrev pub StakeOk : ℕ → List Transaction → Type 0
StakeOk n_time (coin_base ∷ coin_stake ∷ vtx) =
    is_coin_stake coin_stake ≡ true
    → (has_empty_output coin_base ≡ true) × (n_time ≡ coin_stake.n_time)
StakeOk n_time (coin_base ∷ []) = Unit {0}
StakeOk n_time [] = Unit {0}

abbrev pub BeginsWithCoinBase : List Transaction → Type 0
BeginsWithCoinBase [] = ⊥
BeginsWithCoinBase (tx ∷ vtx) = (is_coin_base tx ≡ true) × NoCoinBase vtx

pub record IsWellFormed (env : Env) (pow merkle : Bool) (b : Block) : Type 0 where
  pub few : length b.vtx ≤ max_block_size
  pub small : block_size b ≤ max_block_size
  pub worked : pow ≡ true → is_proof_of_stake b ≡ false → env.check_proof_of_work b ≡ true
  pub in_time : b.n_time ≤ env.adjusted_time + n_max_clock_drift
  pub coin_base : BeginsWithCoinBase b.vtx
  pub stake : StakeOk b.n_time b.vtx
  pub all_ok : AllTransactionsOk b.n_time b.vtx
  pub distinct : Distinct (map env.get_hash b.vtx)
  pub sig_ops : block_sig_ops 0 b.vtx ≤ max_block_sigops
  pub rooted :
      merkle ≡ true
      → b.hash_merkle_root ≡ root (build_merkle_tree env.hash_pair (map env.get_hash b.vtx))
  pub signed : env.check_block_signature b ≡ true

check_transactions_lem :
    (n : ℕ) (vtx : List Transaction) → (check_transactions n vtx ≡ valid) ↔ AllTransactionsOk n vtx
unfolding check_transactions
check_transactions_lem n [] = (λ h. tt, λ h. refl)
check_transactions_lem n (tx ∷ vtx) =
    let (f, g) = check_transactions_lem n vtx in
    (
      λ h. ((ground (arith, h), ground (arith, h)), f (ground (arith, h))),
      λ h. let e = g h.1 in ground (arith, h.0.0, h.0.1, e),
    )

has_coin_base_lem : (vtx : List Transaction) → (has_coin_base vtx ≡ false) ↔ NoCoinBase vtx
has_coin_base_lem [] = (λ h. tt, λ h. refl)
has_coin_base_lem (tx ∷ vtx) =
    let (f, g) = has_coin_base_lem vtx in
    (λ h. (ground (arith, h), f (ground (arith, h))), λ h. let e = g h.1 in ground (arith, h.0, e))

length-map_hash : (env : Env) (vtx : List Transaction) → length (map env.get_hash vtx) ≡ length vtx
length-map_hash env [] = refl
length-map_hash env (tx ∷ vtx) = omega (arith, length-map_hash env vtx)

-- The checks behind the loop.
abbrev RestOk : Env → Bool → Block → Type 0
RestOk env merkle b =
    Distinct (map env.get_hash b.vtx)
    × (block_sig_ops 0 b.vtx ≤ max_block_sigops)
    × (merkle ≡ true
        → b.hash_merkle_root ≡ root (build_merkle_tree env.hash_pair (map env.get_hash b.vtx)))
    × (env.check_block_signature b ≡ true)

check_rest_lem :
    (env : Env) (merkle : Bool) (b : Block)
    → (check_rest env merkle b ≡ valid) ↔ RestOk env merkle b
unfolding check_rest
check_rest_lem env merkle b =
    let hashes = map env.get_hash b.vtx in
    let (f, g) = insert_all_lem hashes in
    let l = length-map_hash env b.vtx in
    (
      λ h. (
        f (ground (arith, h, l)),
        ground (arith, h),
        λ m. ground (arith, h, m),
        ground (arith, h),
      ),
      λ (d, s, r, c).
          let e = g d in
          elim (Bool-cases merkle) [
            | inl m ↦ let q = r m in ground (arith, e, l, s, q, c, m)
            | inr m ↦ ground (arith, e, l, s, c, m)
          ],
    )

-- The checks before the loop.
abbrev HeaderOk : Env → Bool → Block → Type 0
HeaderOk env pow b =
    (length b.vtx ≤ max_block_size)
    × (block_size b ≤ max_block_size)
    × (pow ≡ true → is_proof_of_stake b ≡ false → env.check_proof_of_work b ≡ true)
    × (b.n_time ≤ env.adjusted_time + n_max_clock_drift)
    × BeginsWithCoinBase b.vtx
    × StakeOk b.n_time b.vtx

begins_lem :
    (vtx : List Transaction)
    → ((first_is is_coin_base vtx ≡ true) × (has_coin_base (rest_of vtx) ≡ false))
      ↔ BeginsWithCoinBase vtx
begins_lem [] = (λ h. absurd (ground (arith, h)), λ h. absurd h)
begins_lem (tx ∷ vtx) = let (f, g) = has_coin_base_lem vtx in (λ h. (h.0, f h.1), λ h. (h.0, g h.1))

-- The coinbase and the time of the coinstake, as the code tests them.
abbrev stake_tests : ℕ → List Transaction → Bool
stake_tests n vtx =
    first_is has_empty_output vtx
    && first_is (λ tx. check_coin_stake_timestamp n tx.n_time) (rest_of vtx)

stake_lem :
    (n : ℕ) (vtx : List Transaction)
    → (first_is is_coin_stake (rest_of vtx) ≡ true → stake_tests n vtx ≡ true) ↔ StakeOk n vtx
stake_lem n [] = (λ h. tt, λ h s. absurd (ground (arith, s)))
stake_lem n (tx ∷ []) = (λ h. tt, λ h s. absurd (ground (arith, s)))
stake_lem n (tx ∷ stake ∷ vtx) = (
  λ h s. let e = h s in (ground (arith, e), ground (arith, e)),
  λ h s. let e = h s in ground (arith, e),
)

check_block_valid :
    (env : Env) (pow merkle : Bool) (b : Block)
    → check_block env pow merkle b ≡ valid
    → HeaderOk env pow b
      × (and_then (check_transactions b.n_time b.vtx) (check_rest env merkle b) ≡ valid)
unfolding check_block
check_block_valid env pow merkle b h =
    let begins = (begins_lem b.vtx).0 (ground (arith, h), ground (arith, h)) in
    let stake = (stake_lem b.n_time b.vtx).0 (λ s. ground (arith, h, s)) in
    (
      (
        ground (arith, h),
        ground (arith, h),
        λ p s. ground (arith, h, p, s),
        ground (arith, h),
        begins,
        stake,
      ),
      ground (arith, h),
    )

valid_and_then : (v w : Verdict) → and_then v w ≡ valid → (v ≡ valid) × (w ≡ valid)
valid_and_then valid w h = (refl, h)
valid_and_then (invalid n) w h = cc

check_block_complete :
    (env : Env) (pow merkle : Bool) (b : Block)
    → HeaderOk env pow b
    → and_then (check_transactions b.n_time b.vtx) (check_rest env merkle b) ≡ valid
    → check_block env pow merkle b ≡ valid
unfolding check_block
check_block_complete env pow merkle b (few, small, work, time, begins, stake) r =
    let (c, n) = (begins_lem b.vtx).1 begins in
    let s = (stake_lem b.n_time b.vtx).1 stake in
    let one : 1 ≤ length b.vtx = some_first b.vtx begins in
    elim (Bool-cases (is_proof_of_stake b)) [
      | inl p ↦ let t = s p in ground (arith, few, small, time, c, n, t, p, r, one)
      | inr p ↦ elim (Bool-cases pow) [
        | inl q ↦ let w = work q p in ground (arith, few, small, time, c, n, w, p, q, r, one)
        | inr q ↦ ground (arith, few, small, time, c, n, p, q, r, one)
      ]
    ]
  where
    some_first : (vtx : List Transaction) → BeginsWithCoinBase vtx → 1 ≤ length vtx
    some_first [] h = absurd h
    some_first (tx ∷ vtx) h = omega arith

-- The check accepts exactly the blocks that begin with their only coinbase, that are small enough, not
-- from the future and, where this is asked for, worked for; whose coinstake has the block's time and
-- whose coinbase then pays nothing; whose transactions are well formed, no later than the block and
-- distinct by their hashes, with signature checks within the limit (counted as an unsigned int); whose
-- root is that of the Merkle tree, where this is asked for; and whose signature is good.
pub check_block-valid_iff :
    (env : Env) (pow merkle : Bool) (b : Block)
    → (check_block env pow merkle b ≡ valid) ↔ IsWellFormed env pow merkle b
check_block-valid_iff env pow merkle b = (
  λ h.
      let (o, r) = check_block_valid env pow merkle b h in
      let (few, small, work, time, begins, stake) = o in
      let (t, c) = valid_and_then (check_transactions b.n_time b.vtx) (check_rest env merkle b) r in
      let (d, s, root_ok, signed) = (check_rest_lem env merkle b).0 c in
      record {
        few = few;
        small = small;
        worked = work;
        in_time = time;
        coin_base = begins;
        stake = stake;
        all_ok = (check_transactions_lem b.n_time b.vtx).0 t;
        distinct = d;
        sig_ops = s;
        rooted = root_ok;
        signed = signed;
      },
  λ w.
      let t = (check_transactions_lem b.n_time b.vtx).1 w.all_ok in
      let c = (check_rest_lem env merkle b).1 (w.distinct, w.sig_ops, w.rooted, w.signed) in
      check_block_complete env pow merkle b
        (w.few, w.small, w.worked, w.in_time, w.coin_base, w.stake) (rw (t, c) refl),
)
