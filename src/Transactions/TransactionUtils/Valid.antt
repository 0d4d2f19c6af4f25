-- ===== src/Transactions/TransactionUtils/Valid.antt =====
-- The invariant of balances and liabilities, and that every operation of TransactionUtils.cpp keeps
-- it: what is owed is covered, and what is to be received has room.
use essa_core.Prelude.{◌≡◌, true, false, not, ◌&&◌, if◌then◌else◌, arith}
use essa_core.Prelude.Result.{ok}
use essa_core.Prelude.Int.{ℤ, pos, ◌+ℤ◌, ltb_ℤ, eqb_ℤ, ◌≤ℤ◌, +ℤ_parts, -ℤ_parts}
use essa_core.Util.Types
use essa_core.Ledger.Entry.{AccountEntry, TrustLineEntry, LedgerEntry, account, trust_line}
use essa_core.Transactions.TransactionUtils.{max_balance, liabilities_of}

pub record IsValidAccount (acc : AccountEntry) : Type 0 where
  pub balance_pos : pos 0 ≤ℤ acc.balance
  pub buying_pos : pos 0 ≤ℤ (liabilities_of acc.ext).buying
  pub selling_pos : pos 0 ≤ℤ (liabilities_of acc.ext).selling
  pub room : acc.balance +ℤ (liabilities_of acc.ext).buying ≤ℤ max_balance

pub record IsValidTrustLine (tl : TrustLineEntry) : Type 0 where
  pub selling_pos : pos 0 ≤ℤ (liabilities_of tl.ext).selling
  pub buying_pos : pos 0 ≤ℤ (liabilities_of tl.ext).buying
  pub covered : (liabilities_of tl.ext).selling ≤ℤ tl.balance
  pub room : tl.balance +ℤ (liabilities_of tl.ext).buying ≤ℤ tl.limit
  pub limit_max : tl.limit ≤ℤ max_balance

abbrev pub IsValid : LedgerEntry → Type 0
IsValid (account acc) = IsValidAccount acc
IsValid (trust_line tl) = IsValidTrustLine tl
IsValid _ = Unit {0}

-- addBalance of util/types.cpp, where its assertions hold.
pub types_add_balance :
    (b d m : ℤ)
    → pos 0 ≤ℤ b
    → pos 0 ≤ℤ m
    → eqb_ℤ d (pos 0) ≡ false
    → Types.add_balance b d m
      ≡ ok (
          if not (ltb_ℤ (b +ℤ d) (pos 0)) && not (ltb_ℤ m (b +ℤ d))
          then (true, b +ℤ d)
          else (false, b))
unfolding Types.add_balance
types_add_balance b d m h k e = ground (arith, +ℤ_parts b d, -ℤ_parts m b, -ℤ_parts (pos 0) b)
