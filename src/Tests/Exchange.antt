-- ===== src/Tests/Exchange.antt =====
-- Offers that cross: transactions/OfferExchange.cpp and util/numeric.cpp.
use essa_core.Prelude.{ℕ, ◌^◌, ◌≤◌, ◌≡◌, refl, min, true, false, ltb, arith}
use essa_core.Prelude.Result.{ok, overflow, or_throw}
use essa_core.Util.Numeric.{
  int64_max, round_up, try_big_divide, big_divide128, try_big_divide128, big_divide_u128,
  big_divide, big_divide_u64, big_multiply, quotient128,
}
use essa_core.Util.Numeric.Exact.{fit, round_div, big_divide128_exact}
use essa_core.Ledger.Entry.{Price}
use essa_core.Transactions.Exchange.{
  ExchangeResultV10, traded, exchange_v10, adjust_offer_amount,
  exchange_v10_without_price_error_thresholds, apply_price_error_thresholds,
  check_price_error_bound, calculate_offer_value, amounts,
}
use essa_core.Transactions.Exchange.Trade.{IsPrice, Favors}
use essa_core.Transactions.Exchange.Bounds.{
  IsLimits, sheep_value, wheat_value, exchange_never_throws,
}
use essa_core.Transactions.Exchange.Thresholds.{IsFairToWheat, IsFairToSheep, exchange_v10_fair}
use essa_core.Transactions.Exchange.Adjust.{adjust_offer_idempotent}
use essa_core.Transactions.Exchange.PathPayment.{IsPathTrade, path_payment_total}

-- The price of the example above exchangeV10.
abbrev two_thirds : Price
two_thirds = record { n = 2; d = 3 }

two_thirds-IsPrice : IsPrice two_thirds
two_thirds-IsPrice = omega arith

book-IsLimits : IsLimits 150 101 int64_max int64_max
book-IsLimits = omega arith

-- The worked example of the comment: without the price error thresholds and not as a path payment
-- the wheat received is 100 rather than 101.
worked_example :
    exchange_v10_without_price_error_thresholds two_thirds 150 101 int64_max int64_max false
    ≡ ok (traded 100 67 true)
unfolding exchange_v10_without_price_error_thresholds calculate_offer_value amounts big_divide128
    big_divide try_big_divide try_big_divide128 big_divide_u128 big_divide_u64 big_multiply
    quotient128
worked_example = refl

exchange_never_throws_example :
    (r : ExchangeResultV10) × (exchange_v10_without_price_error_thresholds two_thirds 150 101
        int64_max int64_max true
      ≡ ok r)
    × (r.num_wheat_received ≤ min 101 150)
    × (r.num_sheep_send ≤ min int64_max int64_max)
    × Favors two_thirds r.wheat_stays r.num_wheat_received r.num_sheep_send
    × (r.wheat_stays
        ≡ ltb (sheep_value two_thirds int64_max 101) (wheat_value two_thirds 150 int64_max))
exchange_never_throws_example =
    exchange_never_throws two_thirds two_thirds-IsPrice 150 101 int64_max int64_max true
      book-IsLimits

exchange_v10_fair_example :
    (r : ExchangeResultV10) × (exchange_v10 two_thirds 150 101 int64_max int64_max false ≡ ok r)
    × (r.num_wheat_received ≤ min 101 150)
    × (r.num_sheep_send ≤ min int64_max int64_max)
    × Favors two_thirds r.wheat_stays r.num_wheat_received r.num_sheep_send
    × IsFairToWheat two_thirds r.num_wheat_received r.num_sheep_send
    × IsFairToSheep two_thirds r.num_wheat_received r.num_sheep_send
exchange_v10_fair_example =
    exchange_v10_fair two_thirds two_thirds-IsPrice 150 101 int64_max int64_max book-IsLimits

adjust_offer_idempotent_example :
    (a : ℕ) × (adjust_offer_amount two_thirds 28 int64_max ≡ ok a)
    × (a ≤ 28)
    × (adjust_offer_amount two_thirds a int64_max ≡ ok a)
adjust_offer_idempotent_example =
    adjust_offer_idempotent two_thirds two_thirds-IsPrice 28 int64_max (omega arith) (omega arith)

-- Of 28 wheat at this price only 27 can be traded, for 18 sheep.
adjusted_27 : adjust_offer_amount two_thirds 28 int64_max ≡ ok 27
unfolding adjust_offer_amount exchange_v10 apply_price_error_thresholds check_price_error_bound
    exchange_v10_without_price_error_thresholds calculate_offer_value amounts big_divide128
    big_divide try_big_divide try_big_divide128 big_divide_u128 big_divide_u64 big_multiply
    quotient128
adjusted_27 = refl

small-IsLimits : IsLimits 27 40 int64_max int64_max
small-IsLimits = omega arith

still_27 : adjust_offer_amount two_thirds 27 int64_max ≡ ok 27
unfolding adjust_offer_amount exchange_v10 apply_price_error_thresholds check_price_error_bound
    exchange_v10_without_price_error_thresholds calculate_offer_value amounts big_divide128
    big_divide try_big_divide try_big_divide128 big_divide_u128 big_divide_u64 big_multiply
    quotient128
still_27 = refl

path_payment_total_example :
    (r : ExchangeResultV10) × (exchange_v10 two_thirds 27 40 int64_max int64_max true ≡ ok r)
    × IsPathTrade two_thirds 27 40 int64_max int64_max r
path_payment_total_example =
    path_payment_total two_thirds two_thirds-IsPrice 27 40 int64_max int64_max small-IsLimits
      still_27

big_divide128_exact_example :
    big_divide128 (2 ^ 127) 3 round_up ≡ or_throw (fit (round_div round_up (2 ^ 127) 3)) overflow
big_divide128_exact_example =
    big_divide128_exact (2 ^ 127) 3 round_up (omega arith) (omega arith) (omega arith)
