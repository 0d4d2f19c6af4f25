-- ===== src/Transactions/CreateAccount.antt =====
-- CreateAccountOpFrame::doApply of transactions/CreateAccountOpFrame.cpp, from protocol version 8 on,
-- on a transaction of the ledger.
pub mod Funds
pub mod Opens
use essa_core.Prelude.{ℕ, Option, none, some, [], if◌then◌else◌}
use essa_core.Prelude.Int.{ℤ, pos, ◌-ℤ◌, ltb_ℤ}
use essa_core.Prelude.Result.{Result, ok, runtime, ◌>>=◌, ◌>>◌, assert, or_throw}
use essa_core.Ledger.Entry.{AccountEntry, LedgerHeader, account, v0}
use essa_core.Ledger.LedgerKey.{Entry, account_key}
use essa_core.Ledger.LedgerTxn.{Newest, LedgerTxn, load_header, set_current, create}
use essa_core.Transactions.TransactionUtils.{
  add_balance, get_available_balance, get_min_balance, get_starting_sequence_number,
  to_sequence_number,
}
use essa_core.Transactions.OperationFrame.{
  release, release_header, load_account, as_account, with_body,
}

pub data CreateAccountResultCode : Type 0 where
  create_account_success create_account_underfunded create_account_low_reserve
        create_account_already_exist :
      CreateAccountResultCode

unfoldable pub new_account : LedgerHeader → ℕ → ℤ → Entry
unfolding get_starting_sequence_number to_sequence_number
new_account header account_id starting_balance = record {
  last_modified_ledger_seq = 0;
  body = account (record {
    account_id = account_id;
    balance = starting_balance;
    seq_num = to_sequence_number (get_starting_sequence_number header);
    num_sub_entries = 0;
    inflation_dest = none;
    flags = 0;
    home_domain = 0;
    thresholds = record { master_weight = 1; low = 0; medium = 0; high = 0 };
    signers = [];
    ext = v0;
  });
}

-- The source account has the funds: they go over to the new account.
unfoldable pub fund_account :
    Newest → LedgerTxn → Entry → AccountEntry → ℕ → ℤ → Result (CreateAccountResultCode × LedgerTxn)
unfolding add_balance set_current with_body create new_account
fund_account parent l this source destination starting_balance = do
  (added, body) ← add_balance l.header (account source) (pos 0 -ℤ starting_balance)
  assert added
  l1 ← set_current l (with_body this body)
  l2 ← create parent l1 (new_account l.header destination starting_balance)
  ok (create_account_success, release (account_key destination) l2)

-- By the available balance of the source account.
unfoldable pub create_from :
    Newest → LedgerTxn → Entry → ℕ → ℤ → Result (CreateAccountResultCode × LedgerTxn)
unfolding as_account get_available_balance fund_account
create_from parent l this destination starting_balance = do
  source ← as_account (some this)
  available ← get_available_balance l.header (account source)
  if ltb_ℤ available starting_balance
      then ok (create_account_underfunded, l)
      else fund_account parent l this source destination starting_balance

unfoldable pub create_missing :
    Newest → LedgerTxn → ℕ → ℕ → ℤ → Result (CreateAccountResultCode × LedgerTxn)
unfolding load_account create_from release
create_missing parent l source_id destination starting_balance = do
  (this, l1) ← load_account parent l source_id
  entry ← or_throw this runtime
  (code, l2) ← create_from parent l1 entry destination starting_balance
  ok (code, release (account_key source_id) l2)

-- Without an account of that name, by the reserve.
unfoldable pub create_new :
    Newest → LedgerTxn → ℕ → ℕ → ℤ → Result (CreateAccountResultCode × LedgerTxn)
unfolding load_header release_header get_min_balance create_missing
create_new parent l source_id destination starting_balance = do
  l1 ← load_header l
  (code, l2) ←
      if ltb_ℤ starting_balance (get_min_balance l1.header 0)
      then ok (create_account_low_reserve, l1)
      else create_missing parent l1 source_id destination starting_balance
  ok (code, release_header l2)

unfoldable pub create_unless :
    Newest → LedgerTxn → ℕ → ℕ → ℤ → Option Entry → Result (CreateAccountResultCode × LedgerTxn)
unfolding create_new
create_unless parent l source_id destination starting_balance none =
    create_new parent l source_id destination starting_balance
create_unless parent l source_id destination starting_balance (some e) =
    ok (create_account_already_exist, release (account_key destination) l)

-- doApply
unfoldable pub create_account :
    Newest → LedgerTxn → ℕ → ℕ → ℤ → Result (CreateAccountResultCode × LedgerTxn)
unfolding load_account create_unless
create_account parent l source_id destination starting_balance = do
  (found, l1) ← load_account parent l destination
  create_unless parent l1 source_id destination starting_balance found
