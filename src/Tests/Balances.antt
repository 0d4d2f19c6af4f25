-- ===== src/Tests/Balances.antt =====
-- A funded account and its liabilities: transactions/TransactionUtils.cpp.
use essa_core.Prelude.{◌≡◌, true, false, not, ◌&&◌, if◌then◌else◌, refl, arith, none, []}
use essa_core.Prelude.Result.{ok}
use essa_core.Prelude.Int.{ℤ, pos, negsuc, ◌+ℤ◌, ◌-ℤ◌, ltb_ℤ}
use essa_core.Ledger.Entry.{AccountEntry, LedgerHeader, native, account, v1}
use essa_core.Ledger.TrustLineWrapper.{inactive}
use essa_core.Transactions.Offers.{can_sell_at_most, can_buy_at_most}
use essa_core.Transactions.Offers.Capacity.{change_holding, capacity_exact}
use essa_core.Transactions.TransactionUtils.{
  liabilities_of, add_balance, add_buying_liabilities, add_selling_liabilities,
  get_available_balance, get_max_amount_receive,
}
use essa_core.Transactions.TransactionUtils.Valid.{IsValid}
use essa_core.Transactions.TransactionUtils.Limits.{usable, within, moved_entry, add_balance-within}
use essa_core.Transactions.TransactionUtils.Settles.{Settles}
use essa_core.Transactions.TransactionUtils.Preserved.{changes-IsValid}

abbrev header_11 : LedgerHeader
header_11 = record { ledger_version = 11; ledger_seq = 100; base_reserve = 100; id_pool = 7 }

-- 1000 with 300 promised and 200 to come; the reserve of its three entries is 500.
abbrev funded : AccountEntry
funded = record {
  account_id = 1;
  balance = pos 1000;
  seq_num = pos 1;
  num_sub_entries = 3;
  inflation_dest = none;
  flags = 0;
  home_domain = 0;
  thresholds = record { master_weight = 1; low = 0; medium = 0; high = 0 };
  signers = [];
  ext = v1 (record { buying = pos 200; selling = pos 300 });
}

funded-IsValid : IsValid (account funded)
unfolding liabilities_of ◌+ℤ◌
funded-IsValid = record {
  balance_pos = omega arith;
  buying_pos = omega arith;
  selling_pos = omega arith;
  room = omega arith;
}

add_balance-within_example :
    (available receivable : ℤ) × (get_available_balance header_11 (account funded) ≡ ok available)
    × (get_max_amount_receive header_11 (account funded) ≡ ok receivable)
    × (add_balance header_11 (account funded) (negsuc 150)
        ≡ ok (
            if usable (account funded) && within available receivable (negsuc 150)
            then (true, moved_entry (account funded) (negsuc 150))
            else (false, account funded)))
add_balance-within_example =
    add_balance-within header_11 (account funded) (negsuc 150) (omega arith) tt funded-IsValid refl

changes-IsValid_example :
    Settles (account funded) (add_balance header_11 (account funded) (pos 50))
    × Settles (account funded) (add_buying_liabilities header_11 (account funded) (pos 50))
    × Settles (account funded) (add_selling_liabilities header_11 (account funded) (pos 50))
changes-IsValid_example =
    changes-IsValid header_11 (account funded) (pos 50) (omega arith) tt funded-IsValid

capacity_exact_example :
    (sell buy : ℤ) × (can_sell_at_most header_11 (account funded) native inactive ≡ ok sell)
    × (can_buy_at_most header_11 (account funded) native inactive ≡ ok buy)
    × (change_holding header_11 funded native inactive (pos 0 -ℤ pos 150)
        ≡ ok (not (ltb_ℤ sell (pos 150))))
    × (change_holding header_11 funded native inactive (pos 150) ≡ ok (not (ltb_ℤ buy (pos 150))))
capacity_exact_example =
    capacity_exact header_11 funded native inactive 150 (omega arith) funded-IsValid (omega arith)
      (omega arith)
