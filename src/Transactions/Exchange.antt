-- ===== src/Transactions/Exchange.antt =====
-- transactions/OfferExchange.h and transactions/OfferExchange.cpp: how two crossing offers trade.
-- Amounts are `int64_t` that the callers keep at 0 or more, and a price has two positive `int32_t`
-- parts, so both are numbers here; a division by a price of 0 fails the assertion in `bigDivide`.
pub mod Trade
pub mod Bounds
pub mod Thresholds
pub mod Adjust
pub mod PathPayment
pub mod Legacy
use essa_core.Prelude.{
  ℕ, ◌+◌, ◌-◌, ◌*◌, ◌/◌, ◌%◌, ◌^◌, ◌≤◌, ◌<◌, min, Bool, true, false, not, ◌&&◌, ◌||◌, Option, none,
  some, ltb, leb, ◌==◌, if◌then◌else◌,
}
use essa_core.Prelude.Result.{Result, ok, throw, runtime, ◌>>=◌, ◌>>◌, throw_if}
use essa_core.Ledger.Entry.{Price}
use essa_core.Util.Numeric.{
  int64_max, round_down, round_up, try_big_divide, big_divide, big_divide128, big_multiply,
}

pub data ExchangeResultType : Type 0 where
  normal reduced_to_zero bogus : ExchangeResultType

pub record ExchangeResult : Type 0 where
  pub num_wheat_received : ℕ
  pub num_sheep_send : ℕ
  pub reduced : Bool

unfoldable pub type_of : ExchangeResult → ExchangeResultType
type_of r =
    if not (r.num_wheat_received == 0) && not (r.num_sheep_send == 0)
    then normal
    else (if r.reduced then reduced_to_zero else bogus)

pub record ExchangeResultV10 : Type 0 where
  pub num_wheat_received : ℕ
  pub num_sheep_send : ℕ
  pub wheat_stays : Bool

-- A quotient that does not fit stands for as much as there can be.
abbrev pub or_max : Option ℕ → ℕ
or_max none = int64_max
or_max (some x) = x

abbrev pub overflowed : Option ℕ → Bool
overflowed none = true
overflowed (some x) = false

unfoldable pub exchange_v2 : ℕ → Price → ℕ → ℕ → Result ExchangeResult
exchange_v2 wheat_received price max_wheat_receive max_sheep_send = do
  let capped = min wheat_received max_wheat_receive
  quotient ← try_big_divide capped price.n price.d round_down
  let sheep = min (or_max quotient) max_sheep_send
  wheat ← big_divide sheep price.d price.n round_down
  ok (record {
    num_wheat_received = wheat;
    num_sheep_send = sheep;
    reduced = ltb max_wheat_receive wheat_received || ltb max_sheep_send (or_max quotient);
  })

unfoldable pub exchange_v3 : ℕ → Price → ℕ → ℕ → Result ExchangeResult
exchange_v3 wheat_received price max_wheat_receive max_sheep_send = do
  let capped = min wheat_received max_wheat_receive
  quotient ← try_big_divide capped price.n price.d round_up
  let sheep = min (or_max quotient) max_sheep_send
  new_wheat_received ← try_big_divide sheep price.d price.n round_down
  ok (record {
    num_wheat_received = min capped (or_max new_wheat_received);
    num_sheep_send = sheep;
    reduced =
        ltb max_wheat_receive wheat_received
        || overflowed quotient
        || ltb max_sheep_send (or_max quotient);
  })

abbrev abs_diff : ℕ → ℕ → ℕ
abs_diff a b = if ltb b a then a - b else b - a

-- Whether the effective price is within 1% of the price, or, if it may, favours wheat.
unfoldable pub check_price_error_bound : Price → ℕ → ℕ → Bool → Bool
check_price_error_bound price wheat_receive sheep_send can_favor_wheat =
    let lhs = big_multiply (100 * price.n) wheat_receive in
    let rhs = big_multiply (100 * price.d) sheep_send in
    if can_favor_wheat && ltb lhs rhs
    then true
    else leb (abs_diff lhs rhs) (big_multiply price.n wheat_receive)

unfoldable pub calculate_offer_value : ℕ → ℕ → ℕ → ℕ → ℕ
calculate_offer_value price_n price_d max_send max_receive =
    min (big_multiply max_send price_n) (big_multiply max_receive price_d)

-- The two amounts, wheat first, once it is known which offer stays.
unfoldable pub amounts : Price → ℕ → ℕ → Bool → Bool → Result (ℕ × ℕ)
amounts price wheat_value sheep_value true is_path_payment =
    if ltb price.d price.n || is_path_payment
    then (do
      wheat ← big_divide128 sheep_value price.n round_down
      sheep ← big_divide wheat price.n price.d round_up
      ok (wheat, sheep))
    else (do
      sheep ← big_divide128 sheep_value price.d round_down
      wheat ← big_divide sheep price.d price.n round_down
      ok (wheat, sheep))
amounts price wheat_value sheep_value false is_path_payment =
    if ltb price.d price.n
    then (do
      wheat ← big_divide128 wheat_value price.n round_down
      sheep ← big_divide wheat price.n price.d round_down
      ok (wheat, sheep))
    else (do
      sheep ← big_divide128 wheat_value price.d round_down
      wheat ← big_divide sheep price.d price.n round_up
      ok (wheat, sheep))

-- The limits come in the source's order: wheat to send and to receive, sheep to send and to receive.
unfoldable pub exchange_v10_without_price_error_thresholds :
    Price → ℕ → ℕ → ℕ → ℕ → Bool → Result ExchangeResultV10
exchange_v10_without_price_error_thresholds price mws mwr mss msr is_path_payment = do
  let wheat_value = calculate_offer_value price.n price.d mws msr
  let sheep_value = calculate_offer_value price.d price.n mss mwr
  let wheat_stays = ltb sheep_value wheat_value
  (wheat, sheep) ← amounts price wheat_value sheep_value wheat_stays is_path_payment
  throw_if (ltb (min mwr mws) wheat) runtime
  throw_if (ltb (min msr mss) sheep) runtime
  ok (record { num_wheat_received = wheat; num_sheep_send = sheep; wheat_stays = wheat_stays })

abbrev pub traded : ℕ → ℕ → Bool → ExchangeResultV10
traded wheat sheep stays = record {
  num_wheat_received = wheat;
  num_sheep_send = sheep;
  wheat_stays = stays;
}

unfoldable pub apply_price_error_thresholds : Price → ℕ → ℕ → Bool → Bool → Result ExchangeResultV10
apply_price_error_thresholds price wheat sheep wheat_stays is_path_payment =
    if ltb 0 wheat && ltb 0 sheep
    then (do
      let wheat_receive_value = big_multiply wheat price.n
      let sheep_send_value = big_multiply sheep price.d
      throw_if (wheat_stays && ltb sheep_send_value wheat_receive_value) runtime
      throw_if (not wheat_stays && ltb wheat_receive_value sheep_send_value) runtime
      (if not is_path_payment
          then ok (
              if check_price_error_bound price wheat sheep false
              then traded wheat sheep wheat_stays
              else traded 0 0 wheat_stays)
          else (do
            throw_if (not (check_price_error_bound price wheat sheep true)) runtime
            ok (traded wheat sheep wheat_stays))))
    else ok (traded 0 0 wheat_stays)

unfoldable pub exchange_v10 : Price → ℕ → ℕ → ℕ → ℕ → Bool → Result ExchangeResultV10
exchange_v10 price mws mwr mss msr is_path_payment = do
  before ← exchange_v10_without_price_error_thresholds price mws mwr mss msr is_path_payment
  apply_price_error_thresholds price before.num_wheat_received before.num_sheep_send
      before.wheat_stays is_path_payment

-- The amount of wheat that an offer can trade with a buyer who has no limits.
unfoldable pub adjust_offer_amount : Price → ℕ → ℕ → Result ℕ
adjust_offer_amount price max_wheat_send max_sheep_receive = do
  res ← exchange_v10 price max_wheat_send int64_max int64_max max_sheep_receive false
  ok res.num_wheat_received
