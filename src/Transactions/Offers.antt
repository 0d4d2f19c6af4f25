-- ===== src/Transactions/Offers.antt =====
-- transactions/OfferExchange.cpp: how much of an asset an account can sell or buy.
pub mod Capacity
use essa_core.Prelude.{ℕ, Bool, true, false, not, if◌then◌else◌}
use essa_core.Prelude.Result.{Result, ok, ◌>>=◌, ◌>>◌, assert}
use essa_core.Prelude.Int.{ℤ, pos, ltb_ℤ, pos_part}
use essa_core.Ledger.Entry.{Asset, native, Price, LedgerEntry, LedgerHeader}
use essa_core.Util.Numeric.{int64_max, round_down, try_big_divide}
use essa_core.Transactions.Exchange.{or_max}
use essa_core.Ledger.TrustLineWrapper.{
  TrustLineWrapper, is_active, line_is_authorized, line_available_balance, line_max_amount_receive,
}
use essa_core.Transactions.TransactionUtils.{get_available_balance, get_max_amount_receive}

unfoldable pub max_zero : ℤ → ℤ
max_zero x = if ltb_ℤ x (pos 0) then pos 0 else x

unfoldable pub can_sell_at_most : LedgerHeader → LedgerEntry → Asset → TrustLineWrapper → Result ℤ
can_sell_at_most header acc native line = do
  available ← get_available_balance header acc
  ok (max_zero available)
can_sell_at_most header acc asset line =
    if is_active line
    then (do
      authorized ← line_is_authorized line
      if authorized
          then (do available ← line_available_balance header line; ok (max_zero available))
          else ok (pos 0))
    else ok (pos 0)

unfoldable pub can_buy_at_most : LedgerHeader → LedgerEntry → Asset → TrustLineWrapper → Result ℤ
can_buy_at_most header acc native line = do
  receivable ← get_max_amount_receive header acc
  ok (max_zero receivable)
can_buy_at_most header acc asset line =
    if is_active line
    then (do receivable ← line_max_amount_receive header line; ok (max_zero receivable))
    else ok (pos 0)

-- The wheat that is traded while as much sheep is bought as the line can take.
unfoldable pub can_sell_at_most_based_on_sheep :
    LedgerHeader → Asset → TrustLineWrapper → Price → Result ℕ
can_sell_at_most_based_on_sheep header native sheep_line wheat_price = ok int64_max
can_sell_at_most_based_on_sheep header sheep sheep_line wheat_price = do
  seller_max_sheep ←
      if is_active sheep_line then line_max_amount_receive header sheep_line else ok (pos 0)
  assert (not (ltb_ℤ seller_max_sheep (pos 0)))
  quotient ← try_big_divide (pos_part seller_max_sheep) wheat_price.d wheat_price.n round_down
  ok (or_max quotient)
