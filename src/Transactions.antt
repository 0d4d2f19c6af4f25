-- ===== src/Transactions.antt =====
-- transactions/.
pub mod Exchange
pub mod TransactionUtils
pub mod Offers
pub mod ManageData
pub mod OperationFrame
pub mod Merge
pub mod CreateAccount
