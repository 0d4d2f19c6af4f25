-- ===== src/Lib.antt =====
-- A verification library of the core of essa-core: the arithmetic of offers, balances and
-- liabilities, the nested transactions on the ledger, the quorum predicates and the ballot protocol
-- of consensus, and the bucket list.
--
-- Parts, and how they interact. A trade of two offers (transactions/OfferExchange) computes with
-- 128-bit products and rounded quotients (util/numeric). Its amounts are then moved between ledger
-- entries by the operations on balances and liabilities (transactions/TransactionUtils), which call
-- addBalance of util/types and read the protocol version from the ledger header. Consensus
-- (scp/LocalNode, scp/QuorumSetUtils) decides on sets of nodes with the predicates on quorum sets;
-- weights of nodes use util/numeric too. What an account can sell or buy comes from its entry or
-- its trust line (ledger/TrustLineWrapper). The entries are read and written through transactions
-- on the ledger that nest in each other (ledger/LedgerTxn), down to one on the database. The
-- changes of each ledger go into the bucket list (bucket/BucketList), and ledgers are published in
-- checkpoints (history/HistoryManagerImpl).
--
-- Files:
--   Prelude            shared names, division, lists, results (a value, or which exception or
--                      assertion stops the code), and integers over the native numbers
--   Util.Numeric       src/util/numeric.cpp: bigDivide and bigMultiply in all their overloads;
--                      Exact compares them with rounded division
--   Util.Types         src/util/types.cpp: addBalance, the order of prices, getIssuer in Ledger.Entry
--   Ledger.Entry       src/xdr/EssaBlockChain-ledger-entries.x and the header's fields that are read
--   Transactions.Exchange
--                      src/transactions/OfferExchange.cpp: exchangeV2, exchangeV3, exchangeV10 and
--                      its parts, adjustOffer; the children hold what a fair trade is (Trade), the
--                      limits (Bounds), the price error (Thresholds), adjusted offers (Adjust),
--                      path payments (PathPayment) and the versions before 10 (Legacy)
--   Transactions.TransactionUtils
--                      src/transactions/TransactionUtils.cpp: one function per operation on one
--                      entry; Valid is the invariant, Limits and Preserved what the operations do
--   Transactions.Offers
--                      src/transactions/OfferExchange.cpp: canSellAtMost and canBuyAtMost; Capacity
--                      compares them with addBalance
--   Transactions.ManageData
--                      src/transactions/ManageDataOpFrame.cpp: doApply; Stored is about the entries,
--                      Counted about the whole
--   Transactions.OperationFrame
--                      what the operations do with the transaction of the ledger; Handles has the
--                      calls that succeed
--   Transactions.Merge src/transactions/MergeOpFrame.cpp: doApply; Credit is about the balance, Moves
--                      about the ledger
--   Transactions.CreateAccount
--                      src/transactions/CreateAccountOpFrame.cpp: doApply; Funds is about the balance,
--                      Opens about the ledger
--   Ledger.TrustLineWrapper
--                      src/ledger/TrustLineWrapper.cpp, the entry in the ledger given by a function
--   Ledger.LedgerKey   the keys of entries, with LedgerEntryKey of src/util/types.cpp
--   Ledger.EntryMap    mEntry of LedgerTxn, a list of keys with their entries
--   Ledger.LedgerTxn   src/ledger/LedgerTxn.cpp: the state of LedgerTxn::Impl, and its calls on entries
--                      and on the header; Sealing has commit, rollback and the reports of changes,
--                      Offers the queries on offers, Nested the nesting of transactions and its
--                      steps. Flat, Sound, Commit and Changes are about one transaction over its
--                      parent; Nested.Reads, Nested.Keeps, Nested.Effect, Nested.Invariant and
--                      Nested.Reports about nested ones; Offers.All, Offers.Through, Offers.Best,
--                      Offers.Scan and Offers.Book about offers
--   Scp.QuorumSet      src/scp/QuorumSetUtils.cpp; Satisfied says what a quorum set means
--   Scp.LocalNode      src/scp/LocalNode.cpp: slices, v-blocking sets, quorums, weights; InQuorum is
--                      the search of isNodeInQuorum
--   Scp.Ballot         src/xdr/EssaBlockChain-SCP.x, and the functions of src/scp/BallotProtocol.cpp
--                      on ballots and statements; Order and Newer say how they are ordered
--   Scp.Federated      src/scp/Slot.cpp: federatedAccept, federatedRatify and the quorum set of a
--                      statement; `Context` holds what the driver and the local node supply
--   Scp.Envelopes      src/scp/BallotProtocol.cpp: recordEnvelope, isStatementSane, validateValues
--   Scp.BallotState    the state of BallotProtocol, checkInvariants, bumpToBallot and
--                      updateCurrentValue, setPrepared, createStatement. Invariant is what
--                      checkInvariants asserts, Advances what every function keeps, Local the part
--                      of it for functions that only change ballots
--   Scp.BallotSteps    getPrepareCandidates, commitPredicate, findExtendedInterval (Intervals),
--                      getCommitBoundariesFromStatements
--   Scp.BallotMoves    setPreparedAccept, setPreparedConfirmed, setAcceptCommit, setConfirmCommit,
--                      each up to its emission and with it; Coherent, Settled, Accepted, Returns
--                      and Sound are about the former, Keeps about both
--   Scp.BallotAttempts the four attempt functions
--   Scp.BallotCounters checkHeardFromQuorum, and the counter that attemptBump moves to
--   Scp.BallotProtocol processEnvelope, emitCurrentStateStatement, bumpState, abandonBallot,
--                      attemptBump and advanceSlot, tied together; Emits and Advances follow them
--                      through the recursion, Bump is about counters, Confirms about the
--                      end, Rounds about the loop on attemptBump
--   Scp.BallotStored   setStateFromEnvelope, getCurrentState, getExternalizingState
--   Bucket.BucketList  src/bucket/BucketList.cpp, over an interface of buckets (`Buckets`):
--                      Spill says when a level spills, Ledgers follows addBatch
--   History            src/history/HistoryManagerImpl.cpp: the checkpoint that holds a ledger, and
--                      the ranges of src/ledger/LedgerRange.cpp and src/ledger/CheckpointRange.cpp
--   Tests              the theorems at concrete inputs, and runs
--
-- Correspondence. A function carries the source's name in snake case, a field the member's name. An
-- entry or a level that the code changes in place is passed in and returned. `Result` is the way a
-- function ends: `ok`, or `throw` of the error that a failing assert (assertion), an overflow_error
-- (overflow), a runtime_error (runtime) or a null pointer (null_pointer) stops it with. A dbgAssert
-- is taken as in a debug build, where it stops too. Unsigned counters wrap around at their width,
-- written `% 2 ^ w`; a signed sum is the exact integer, which the invariant keeps in range. A node
-- or account is its key, a number; only equality of keys is used, and the order in which a map
-- lists nodes. A value of consensus is a number too, 0 for the empty one: its order, equality and
-- emptiness are used. Statements of one slot leave out the slot's index, and envelopes their
-- signatures. The parent of a transaction is what its getNewestVersion answers, and the list of
-- transactions that nest in each other starts with the innermost one; a handle on an entry is its
-- key in the list of active ones, and the call that ends its life is explicit.
--
-- Fuel. The loop of isQuorum runs on fuel: one more than the number of nodes, as each round but the
-- last drops a node. The search of isNodeInQuorum has two more rounds than there are nodes that the
-- local node or a known quorum set names, as no node is visited twice. advanceSlot calls itself by
-- the statements that it emits: its recursion is on what the code's own limit of 50 leaves, and
-- throws the code's runtime_error there. Its loop on attemptBump has no limit in the code: `rounds`
-- bounds it, and a run that needs more ends in the error `unfinished`. 3 * 2^32 of them are enough,
-- as every round moves the phase on or raises a 32-bit counter. All other recursion is structural.
--
-- Not modelled: LedgerTxnRoot with its caches and SQL, whose answers are parameters, and the
-- inflation winners of LedgerTxn; nomination and the slots of SCP, operations but three (of them
-- the versions below 8, which take the source account from a cache) and transactions, bucket files
-- and merges, and the parts that are network, database, process or file access. Of the ballot
-- protocol: the JSON output, and the driver's notifications other than emitted envelopes,
-- externalized values and the timer.
pub mod Prelude
pub mod Util
pub mod Ledger
pub mod History
pub mod Bucket
pub mod Scp
pub mod Transactions
pub mod Tests
