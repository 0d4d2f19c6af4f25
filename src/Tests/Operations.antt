-- ===== src/Tests/Operations.antt =====
-- An account with one data entry: transactions/ManageDataOpFrame.cpp.
use essa_core.Prelude.{none, some, [], ◌∷◌, refl, arith}
use essa_core.Prelude.Int.{pos}
use essa_core.Ledger.Entry.{v1}
use essa_core.Transactions.ManageData.{DataLedger, manage_data}
use essa_core.Transactions.ManageData.Counted.{IsCounted, Managed, manage_data-Managed}

abbrev holder : DataLedger
holder = record {
  header = record { ledger_version = 11; ledger_seq = 100; base_reserve = 100; id_pool = 7 };
  source = record {
    account_id = 1;
    balance = pos 1000;
    seq_num = pos 1;
    num_sub_entries = 3;
    inflation_dest = none;
    flags = 0;
    home_domain = 0;
    thresholds = record { master_weight = 1; low = 0; medium = 0; high = 0 };
    signers = [];
    ext = v1 (record { buying = pos 0; selling = pos 300 });
  };
  entries = (5, 50) ∷ [];
}

holder-IsCounted : IsCounted holder
holder-IsCounted = record { room = omega arith; distinct = refl; counted = omega arith }

manage_data-Managed_example : Managed holder 6 (some 60) (manage_data holder 6 (some 60))
manage_data-Managed_example = manage_data-Managed holder 6 (some 60) (omega arith) holder-IsCounted
