-- ===== src/Transactions/ManageData.antt =====
-- transactions/ManageDataOpFrame.cpp from protocol version 8 on, on the entries that it loads: the
-- source account, and the data entries of that account by their names. A name and a value are strings
-- of bytes: numbers here.
pub mod Stored
pub mod Counted
use essa_core.Prelude.{ℕ, Bool, true, false, ◌==◌, Option, none, some, List, [], ◌∷◌, if◌then◌else◌}
use essa_core.Prelude.Int.{pos, negsuc}
use essa_core.Prelude.Result.{Result, ok, runtime, throw_if, ◌>>=◌, ◌>>◌}
use essa_core.Ledger.Entry.{AccountEntry, LedgerHeader}
use essa_core.Transactions.TransactionUtils.{add_num_entries}

pub data ManageDataResultCode : Type 0 where
  manage_data_success manage_data_name_not_found manage_data_low_reserve : ManageDataResultCode

pub record DataLedger : Type 0 where
  pub header : LedgerHeader
  pub source : AccountEntry
  pub entries : List (ℕ × ℕ)

unfoldable pub load_data : ℕ → List (ℕ × ℕ) → Option ℕ
load_data name [] = none
load_data name ((n, v) ∷ es) = if name == n then some v else load_data name es

unfoldable pub modify_data : ℕ → ℕ → List (ℕ × ℕ) → List (ℕ × ℕ)
modify_data name value [] = []
modify_data name value ((n, v) ∷ es) =
    if name == n then (n, value) ∷ es else (n, v) ∷ modify_data name value es

unfoldable pub erase_data : ℕ → List (ℕ × ℕ) → List (ℕ × ℕ)
erase_data name [] = []
erase_data name ((n, v) ∷ es) = if name == n then es else (n, v) ∷ erase_data name es

-- A new entry, if the reserve allows for it.
unfoldable pub create_data : DataLedger → ℕ → ℕ → Result (ManageDataResultCode × DataLedger)
create_data l name value = do
  (fits, source) ← add_num_entries l.header l.source (pos 1)
  ok (
      if fits
      then (manage_data_success, record l { source = source; entries = (name, value) ∷ l.entries })
      else (manage_data_low_reserve, l))

unfoldable pub remove_data : DataLedger → ℕ → Result (ManageDataResultCode × DataLedger)
remove_data l name = do
  (_, source) ← add_num_entries l.header l.source (negsuc 0)
  ok (manage_data_success, record l { source = source; entries = erase_data name l.entries })

-- By the entry there is and the value that is asked for.
unfoldable pub apply_data :
    DataLedger → ℕ → Option ℕ → Option ℕ → Result (ManageDataResultCode × DataLedger)
apply_data l name none (some value) = create_data l name value
apply_data l name (some old) (some value) =
    ok (manage_data_success, record l { entries = modify_data name value l.entries })
apply_data l name none none = ok (manage_data_name_not_found, l)
apply_data l name (some old) none = remove_data l name

-- doApply
unfoldable pub manage_data : DataLedger → ℕ → Option ℕ → Result (ManageDataResultCode × DataLedger)
manage_data l name value = do
  throw_if (l.header.ledger_version == 3) runtime
  apply_data l name (load_data name l.entries) value
