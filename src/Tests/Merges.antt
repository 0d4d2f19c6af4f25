-- ===== src/Tests/Merges.antt =====
-- A merge of one account into another, and the creation of a third one:
-- transactions/MergeOpFrame.cpp and transactions/CreateAccountOpFrame.cpp.
use essa_core.Prelude.{
  ◌≡◌, refl, ◌*◌, true, false, not, ◌&&◌, none, some, [], if◌then◌else◌, arith, ◌==◌,
}
use essa_core.Prelude.Int.{pos, ◌+ℤ◌, ◌-ℤ◌, ltb_ℤ, +ℤ_parts}
use essa_core.Prelude.Result.{ok, throw}
use essa_core.Ledger.Entry.{AccountEntry, LedgerHeader, v0}
use essa_core.Ledger.LedgerKey.{LedgerKey, account_key, same_key, ledger_entry_key, body_key}
use essa_core.Ledger.LedgerTxn.{
  Newest, LedgerTxn, new_ledger_txn, get_newest_version, found_or, is_some, load, load_header,
  set_current, create, activate, is_mutable, find_active, remove_active, throw_if_sealed,
  throw_if_child,
}
use essa_core.Ledger.EntryMap.{find, set}
use essa_core.Ledger.LedgerTxn.Sound.{new_ledger_txn-Sound}
use essa_core.Transactions.TransactionUtils.{
  liabilities_of, get_min_balance, get_starting_sequence_number, to_sequence_number,
  get_available_balance, get_selling_liabilities, get_buying_liabilities, add_balance,
  account_has_room,
}
use essa_core.Transactions.TransactionUtils.Limits.{available_in}
use essa_core.Transactions.TransactionUtils.Valid.{IsValidAccount}
use essa_core.Transactions.OperationFrame.Handles.{Ready, holding}
use essa_core.Transactions.Merge.Credit.{is_success}
use essa_core.Transactions.CreateAccount.{
  CreateAccountResultCode, create_account, create_unless, create_new, create_missing, create_from,
  fund_account, new_account,
}
use essa_core.Transactions.CreateAccount.Opens
use essa_core.Transactions.CreateAccount.Opens.{opened, plain_account, create_account-opened}
use essa_core.Util.Types
use essa_core.Transactions.TransactionUtils.Sequences.{starting_sequence}
use essa_core.Transactions.OperationFrame.{
  load_account, as_account, with_body, release, release_header,
}

abbrev header : LedgerHeader
header = record { ledger_version = 10; ledger_seq = 7; base_reserve = 5; id_pool = 0 }

abbrev alice : AccountEntry
alice = record {
  account_id = 1;
  balance = pos 1000;
  seq_num = pos 4;
  num_sub_entries = 0;
  inflation_dest = none;
  flags = 0;
  home_domain = 0;
  thresholds = record { master_weight = 1; low = 0; medium = 0; high = 0 };
  signers = [];
  ext = v0;
}

abbrev bob : AccountEntry
bob = record alice { account_id = 2; balance = pos 30 }

abbrev root : Newest
root (account_key a) =
    if a == 1 then some (holding 3 alice) else (if a == 2 then some (holding 5 bob) else none)
root _ = none

abbrev txn : LedgerTxn
unfolding new_ledger_txn
txn = new_ledger_txn header true

txn-Ready : Ready root txn []
unfolding new_ledger_txn
txn-Ready = record {
  unsealed = refl;
  childless = refl;
  handles = refl;
  sound = new_ledger_txn-Sound root header true;
}

alice-IsValidAccount : IsValidAccount alice
unfolding liabilities_of
alice-IsValidAccount = record {
  balance_pos = ground arith;
  buying_pos = ground arith;
  selling_pos = ground arith;
  room = ground (arith, +ℤ_parts (pos 1000) (pos 0));
}

create_account-opened_example :
    (code : CreateAccountResultCode) × (l' : LedgerTxn) × (create_account root txn 1 3 (pos 100)
      ≡ ok (code, l'))
    × (Opens.is_success code ≡ (
        not (is_some (get_newest_version root txn (account_key 3)))
        && (not (ltb_ℤ (pos 100) (pos (2 * header.base_reserve)))
            && not (ltb_ℤ (available_in header alice) (pos 100)))))
    × ((key : LedgerKey)
        → get_newest_version root l' key ≡ (
            if Opens.is_success code
            then opened
                (plain_account 3 (pos 100) (starting_sequence 7))
                1
                3
                3
                alice
                (pos 100)
                (get_newest_version root txn)
                key
            else get_newest_version root txn key))
unfolding new_ledger_txn get_newest_version found_or find
create_account-opened_example =
    create_account-opened root 1 3 refl 3 alice (pos 100) alice-IsValidAccount refl (ground arith)
      txn txn-Ready refl (ground arith) (ground arith) refl

-- It is created.
new_account_is_there :
    elim (create_account root txn 1 3 (pos 100)) [ ok r ↦ Opens.is_success r.0 | throw e ↦ false ]
    ≡ true
unfolding create_account create_unless create_new create_missing create_from fund_account
    load_account as_account with_body release release_header load load_header set_current create
    activate is_mutable find_active remove_active is_some get_newest_version found_or find set
    same_key ledger_entry_key body_key new_account get_starting_sequence_number to_sequence_number
    get_min_balance get_available_balance get_selling_liabilities get_buying_liabilities
    liabilities_of add_balance account_has_room Types.add_balance ◌+ℤ◌ ◌-ℤ◌ new_ledger_txn
    throw_if_sealed throw_if_child
new_account_is_there = refl
