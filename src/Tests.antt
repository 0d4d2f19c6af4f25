-- ===== src/Tests.antt =====
-- The theorems at concrete inputs, and runs of the definitions.
mod Exchange
mod Balances
mod Consensus
mod History
mod Buckets
mod Ballots
mod Operations
mod LedgerTxns
mod Merges
