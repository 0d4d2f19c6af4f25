-- ===== src/Ledger.antt =====
-- ledger/ and the data that it keeps.
pub mod Entry
pub mod TrustLineWrapper
pub mod LedgerKey
pub mod EntryMap
pub mod LedgerTxn
