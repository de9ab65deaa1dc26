-- ===== src/Lib.antt =====
-- A verification library for Montecoin, a proof-of-work and proof-of-stake coin (C++, src/).
--
-- A transaction comes from a peer as bytes (serialize.h), is checked by itself
-- (CheckTransaction), against the transactions that it spends (FetchInputs, ConnectInputs), and
-- is kept in the memory pool (CTxMemPool) until a block has it. A block names its transactions by
-- the root of a Merkle tree. When it is connected, the index of transactions gets a mark for
-- every output that is spent; a reorganisation of the chain (Reorganize) takes the marks back
-- (DisconnectBlock) and connects the blocks of another branch. The library models these parts:
--
-- - Prelude: numbers, lists, `std::map` (Dict), `std::set` (OrderedSet), integers (Int) and the
--   type int64 with its wrap-around (Int64). No code of the program.
-- - MruSet: src/mruset.h, the class mruset. MruSet/Recent has its theorems.
-- - Serialize: src/serialize.h, a stream of bytes as a reader and a writer (Codec); Bytes,
--   CompactSize, Vector and Blocks are its parts. An exception of a stream is `none`.
-- - Tx: src/main.h and src/main.cpp, COutPoint, CTxIn, CTxOut and CTransaction. Tx/Money:
--   amounts. Tx/Value: GetValueOut. Tx/Codec: serialization. Tx/Check: CheckTransaction. Tx/Lock:
--   IsFinal and setDepositID. Tx/Newer: IsNewerThan. Tx/Fee: GetMinFee.
-- - Reward: src/main.cpp, GetProofOfWorkReward and GetProofOfStakeReward.
-- - Inputs: src/main.h and src/main.cpp, CDiskTxPos, CTxIndex and DisconnectInputs.
--   Inputs/Connect: GetOutputFor, GetValueIn and ConnectInputs. Inputs/Fetch: FetchInputs. Marks,
--   Spend, Pool, Value, Balance, Outcome, Current, View, Ordered and Disconnect have lemmas and
--   theorems.
-- - Merkle: src/main.h, BuildMerkleTree, GetMerkleBranch and CheckMerkleBranch of CBlock.
-- - Mempool: src/main.h and src/main.cpp, CInPoint and CTxMemPool. Mempool/Accept: accept.
-- - Orphans: src/main.cpp, AddOrphanTx, EraseOrphanTx and LimitOrphanTxSize; the random numbers
--   are a parameter.
-- - Median: src/util.h, the class CMedianFilter. Median/Sorted and Median/Middle have its
--   theorems.
-- - Script: src/script.h and src/script.cpp, the class CScript (GetOp2, operator<<, FindAndDelete,
--   IsPushOnly, IsPayToScriptHash, GetSigOpCount). Script/Opcode: opcodetype. Script/Number: the
--   numbers of src/bignum.h and truth values. Script/Vm: the switch of EvalScript, on a machine
--   with two stacks, the open branches and the count of operations. Script/Eval: EvalScript and
--   VerifyScript. Script/Solver: Solver and IsStandard. Script/Destination: SetDestination and
--   ExtractDestination. The other files have lemmas and theorems: Push and Fuel (reading), Branches,
--   Effect and Static (what an evaluation asks of a script), Run, Pushes and Trace (its steps),
--   KeyRun, PubKeyHash, HashRun and ScriptHash (payments), Template, Multisig and SigOps.
-- - Chain: src/main.h and src/main.cpp, the fields of CBlockIndex that are read going back along the
--   chain: the search for the fork in Reorganize, GetLastBlockIndex, IsSuperMajority,
--   GetMedianTimePast and CBlockLocator::Set. Chain/Target: ComputeMaxBits. Chain/Retarget:
--   GetNextTargetRequired. Chain/Suffix, Chain/Fork and Chain/Majority have lemmas and theorems.
-- - Block: src/main.h and src/main.cpp, CBlock, CheckBlock and GetLegacySigOpCount. Block/Distinct: the
--   set of hashes. Block/WellFormed: what the check accepts. Block/Disconnect: DisconnectBlock.
--   Block/Connect: the loop of ConnectBlock over the transactions, with GetP2SHSigOpCount;
--   Block/Finish: the rest of ConnectBlock. Block/Unspent: the set of unspent outputs, as the abstract
--   view of the index; Round, Accepted and Connected lead from the one to the other. Undo and Restore
--   lead back, Known and Order are about the marks that a disconnection looks for, and Undone joins
--   the two. Inputs/Memory has an index in memory, and Block/Example a block, to run the
--   model on.
-- - BestChain: src/main.cpp, Reorganize and SetBestChainInner, with the store, the memory pool and the
--   links of the index of blocks as their state. Reorganized, Followed and Current have the
--   theorems; Current has the steps by which the best chain changes. Above is about the blocks
--   above a fork, and Example has a run.
-- - Kernel: src/kernel.cpp, the stake modifier (GetLastStakeModifier, SelectBlockFromCandidates,
--   ComputeNextStakeModifier, GetKernelStakeModifier). Kernel/Sorted, Select, Rounds, Modifier and
--   Bits have lemmas and theorems.
-- - Wallet: src/wallet.cpp, the choice of coins for a payment (SelectCoins, SelectCoinsMinConf and
--   ApproximateBestSubset). Wallet/Sums, Subset, Best, Eligible and Selected have lemmas and theorems.
--
-- State is passed explicitly: a function takes the maps that the source changes and returns them.
-- A call that can fail in several ways returns an Outcome: a value, `false` with the score that
-- DoS adds, an exception, or a failed assertion. An int64 wraps around at each operation of the
-- source that can overflow; a hash is a number.
--
-- Parameters stand for what is outside these parts: the check of a signature (CheckSig of
-- src/script.cpp), in the parts about transactions also the check and the standard forms of
-- scripts, OpenSSL's numbers (the record Mpi) and hashes, the coin age, the hash of a transaction
-- and of a pair of nodes, the key-value store of the transaction index (the record TxDb, whose
-- two laws say that what was written is what is read), the blocks on disk, and the limit on free
-- transactions, which counts in floating point; for blocks the proof of work, the signature of a
-- block and the clock; for the wallet the random bits and the coins that are available, shuffled;
-- for the stake modifier the index of blocks and the hash; for targets their compact form.
--
-- Loops over a list are recursive on the list. Loops that count are recursive on fuel: reading a
-- vector in blocks takes one more round than there are bytes, the eviction of orphans as many as
-- there are, a level of the Merkle tree and the number of its levels at most the number of nodes
-- of the level, and a loop that reads a script as many as the script has bytes, since each
-- instruction takes one at least (FindAndDelete and Solver get one more, Solver the bytes of the
-- template too). The rise of a target takes one round more than there are seconds left, where one
-- more than there are days would do. The rounds of the stake modifier and the repetitions for a
-- subset of coins are counted as in the source. The theorems about these loops hold with the fuel
-- that the callers give.
--
-- Not modelled: the hash that a signature signs and the making of signatures (src/script.cpp),
-- SetBestChain with its choice of the branch, the index of blocks in memory (AcceptBlock and
-- AddToBlockIndex) with the orphan blocks, the check of a stake kernel against its target, the
-- rest of the wallet, addresses, the network, remote calls and the graphical interface, which
-- are input and output around these parts; hash functions and JSON are third-party code.
pub mod Prelude
pub mod MruSet
pub mod Serialize
pub mod Tx
pub mod Reward
pub mod Inputs
pub mod Merkle
pub mod Mempool
pub mod Median
pub mod Orphans
pub mod Script
pub mod Chain
pub mod Block
pub mod BestChain
pub mod Kernel
pub mod Wallet
