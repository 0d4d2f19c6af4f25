-- ===== src/Transactions/CreateAccount/Funds.antt =====
-- The funds of a new account, which the source account has: transactions/CreateAccountOpFrame.cpp.

use essa_core.Prelude.{◌≤◌, ◌≡◌, refl, true, false, arith}
use essa_core.Prelude.Int.{ℤ, pos, ◌+ℤ◌, ◌-ℤ◌, ltb_ℤ, eqb_ℤ, ◌≤ℤ◌, -ℤ_parts}
use essa_core.Prelude.Result.{ok}
use essa_core.Ledger.Entry.{AccountEntry, account, LedgerHeader}
use essa_core.Transactions.TransactionUtils.{
  add_balance, get_available_balance, get_selling_liabilities, liabilities_of, max_balance,
}
use essa_core.Transactions.TransactionUtils.Valid.{IsValidAccount}
use essa_core.Transactions.TransactionUtils.Limits.{available_in, within, moved, account_adds}

pub available_is :
    (h : LedgerHeader) (acc : AccountEntry)
    → 10 ≤ h.ledger_version
    → get_available_balance h (account acc) ≡ ok (available_in h acc)
unfolding get_available_balance get_selling_liabilities
available_is h acc v = ground arith

negated : (amount : ℤ) → ltb_ℤ (pos 0) amount ≡ true → eqb_ℤ (pos 0 -ℤ amount) (pos 0) ≡ false
negated amount h = ground (arith, h, -ℤ_parts (pos 0) amount)

within_funds :
    (available room balance amount : ℤ)
    → balance ≤ℤ room
    → ltb_ℤ (pos 0) amount ≡ true
    → ltb_ℤ available amount ≡ false
    → within available (room -ℤ balance) (pos 0 -ℤ amount) ≡ true
within_funds available room balance amount r p a = ground (
  arith,
  r,
  p,
  a,
  -ℤ_parts (pos 0) amount,
  -ℤ_parts room balance,
  -ℤ_parts (pos 0) (pos 0 -ℤ amount),
)

-- What is at most the available balance can be taken.
pub takes :
    (h : LedgerHeader) (acc : AccountEntry) (amount : ℤ)
    → 10 ≤ h.ledger_version
    → IsValidAccount acc
    → ltb_ℤ (pos 0) amount ≡ true
    → ltb_ℤ (available_in h acc) amount ≡ false
    → add_balance h (account acc) (pos 0 -ℤ amount)
      ≡ ok (true, account (moved acc (pos 0 -ℤ amount)))
takes h acc amount v w p a = rw (account_adds h acc (pos 0 -ℤ amount) v w (negated amount p)) (
    rw
      (within_funds (available_in h acc) max_balance
        (acc.balance +ℤ (liabilities_of acc.ext).buying) amount w.room p a)
      refl)
