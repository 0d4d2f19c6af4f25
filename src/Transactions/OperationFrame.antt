-- ===== src/Transactions/OperationFrame.antt =====
-- What the operations share on a transaction of the ledger, from protocol version 8 on:
-- transactions/OperationFrame.cpp and loadAccount of transactions/TransactionUtils.cpp. Below version
-- 8, TransactionFrame::loadAccount goes by a cached account.
pub mod Handles
use essa_core.Prelude.{ℕ, false, Option, none, some}
use essa_core.Prelude.Result.{Result, ok, throw, runtime}
use essa_core.Ledger.Entry.{AccountEntry, LedgerEntry, account}
use essa_core.Ledger.LedgerKey.{LedgerKey, Entry, account_key}
use essa_core.Ledger.LedgerTxn.{Newest, LedgerTxn, load, remove_active}

-- A handle goes out of scope, which deactivates it if it is active.
unfoldable pub release : LedgerKey → LedgerTxn → LedgerTxn
unfolding remove_active
release key l = record l { active = remove_active key l.active }

unfoldable pub release_header : LedgerTxn → LedgerTxn
release_header l = record l { active_header = false }

unfoldable pub load_account : Newest → LedgerTxn → ℕ → Result (Option Entry × LedgerTxn)
unfolding load
load_account parent l account_id = load parent l (account_key account_id)

-- An empty handle, or another arm than the account's, throws.
unfoldable pub as_account : Option Entry → Result AccountEntry
as_account none = throw runtime
as_account (some e) = elim e.body [ account acc ↦ ok acc | _ ↦ throw runtime ]

unfoldable pub with_body : Entry → LedgerEntry → Entry
with_body e body = record e { body = body }
