-- ===== src/Ledger/TrustLineWrapper.antt =====
-- ledger/TrustLineWrapper.cpp: the trust line of an account in an asset, or the issuer, who needs
-- none. The entry that the ledger holds for an account and an asset is given by a function.
use essa_core.Prelude.{ℕ, Bool, true, false, Option, none, some, ◌==◌, if◌then◌else◌}
use essa_core.Prelude.Result.{Result, ok, throw, runtime, ◌>>=◌}
use essa_core.Prelude.Int.{ℤ, pos}
use essa_core.Ledger.Entry.{
  Asset, get_issuer, TrustLineEntry, LedgerEntry, trust_line, LedgerHeader,
}
use essa_core.Transactions.TransactionUtils

-- mImpl: nothing, an entry of the ledger, or the issuer.
pub data TrustLineWrapper : Type 0 where
  inactive : TrustLineWrapper
  non_issuer : TrustLineEntry → TrustLineWrapper
  issuer : (account_id : ℕ) → Asset → TrustLineWrapper

unfoldable pub load_trust_line :
    (ℕ → Asset → Option TrustLineEntry) → ℕ → Asset → Result TrustLineWrapper
load_trust_line load account_id asset = elim (get_issuer asset) [
  | none ↦ throw runtime
  | some i ↦ ok (
      if i == account_id
      then issuer account_id asset
      else elim (load account_id asset) [ none ↦ inactive | some tl ↦ non_issuer tl ])
]

unfoldable pub is_active : TrustLineWrapper → Bool
is_active inactive = false
is_active line = true

unfoldable pub get_balance : TrustLineWrapper → Result ℤ
get_balance inactive = throw runtime
get_balance (non_issuer tl) = ok tl.balance
get_balance (issuer _ _) = ok TransactionUtils.max_balance

unfoldable pub line_is_authorized : TrustLineWrapper → Result Bool
line_is_authorized inactive = throw runtime
line_is_authorized (non_issuer tl) = ok (TransactionUtils.is_authorized tl)
line_is_authorized (issuer _ _) = ok true

unfoldable pub line_available_balance : LedgerHeader → TrustLineWrapper → Result ℤ
line_available_balance header inactive = throw runtime
line_available_balance header (non_issuer tl) =
    TransactionUtils.get_available_balance header (trust_line tl)
line_available_balance header (issuer _ _) = ok TransactionUtils.max_balance

unfoldable pub line_max_amount_receive : LedgerHeader → TrustLineWrapper → Result ℤ
line_max_amount_receive header inactive = throw runtime
line_max_amount_receive header (non_issuer tl) =
    TransactionUtils.get_max_amount_receive header (trust_line tl)
line_max_amount_receive header (issuer _ _) = ok TransactionUtils.max_balance

unfoldable pub line_buying_liabilities : LedgerHeader → TrustLineWrapper → Result ℤ
line_buying_liabilities header inactive = throw runtime
line_buying_liabilities header (non_issuer tl) =
    TransactionUtils.get_buying_liabilities header (trust_line tl)
line_buying_liabilities header (issuer _ _) = ok (pos 0)

unfoldable pub line_selling_liabilities : LedgerHeader → TrustLineWrapper → Result ℤ
line_selling_liabilities header inactive = throw runtime
line_selling_liabilities header (non_issuer tl) =
    TransactionUtils.get_selling_liabilities header (trust_line tl)
line_selling_liabilities header (issuer _ _) = ok (pos 0)

-- The wrapper of the entry after a change.
abbrev pub wrap : TrustLineWrapper → Bool × LedgerEntry → Bool × TrustLineWrapper
wrap line (done, trust_line tl) = (done, non_issuer tl)
wrap line (done, _) = (done, line)

-- A change through the wrapper; the issuer's always succeeds and changes nothing.
unfoldable pub change_line :
    (LedgerEntry → Result (Bool × LedgerEntry))
    → TrustLineWrapper
    → Result (Bool × TrustLineWrapper)
change_line change inactive = throw runtime
change_line change (non_issuer tl) = do
  after ← change (trust_line tl)
  ok (wrap (non_issuer tl) after)
change_line change (issuer a asset) = ok (true, issuer a asset)

unfoldable pub line_add_balance :
    LedgerHeader → TrustLineWrapper → ℤ → Result (Bool × TrustLineWrapper)
line_add_balance header line delta =
    change_line (λ e. TransactionUtils.add_balance header e delta) line

unfoldable pub line_add_buying_liabilities :
    LedgerHeader → TrustLineWrapper → ℤ → Result (Bool × TrustLineWrapper)
line_add_buying_liabilities header line delta =
    change_line (λ e. TransactionUtils.add_buying_liabilities header e delta) line

unfoldable pub line_add_selling_liabilities :
    LedgerHeader → TrustLineWrapper → ℤ → Result (Bool × TrustLineWrapper)
line_add_selling_liabilities header line delta =
    change_line (λ e. TransactionUtils.add_selling_liabilities header e delta) line
