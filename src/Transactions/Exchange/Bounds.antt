-- ===== src/Transactions/Exchange/Bounds.antt =====
-- exchangeV10WithoutPriceErrorThresholds never throws, and its result stays within all four limits.
use essa_core.Prelude.{
  ℕ, ◌*◌, ◌/◌, ◌^◌, ◌≤◌, ◌<◌, ◌≡◌, min, Bool, true, false, ltb, if◌then◌else◌, arith, le_scaled,
  div-le, refl,
}
use essa_core.Prelude.Result.{ok, runtime, ◌>>◌, throw_if}
use essa_core.Util.Numeric.{int64_max, Rounding, round_down, round_up, big_divide, big_divide128}
use essa_core.Util.Numeric.Exact.{
  round_div, big_multiply_exact, big_divide_exact, big_divide128_exact,
}
use essa_core.Ledger.Entry.{Price}
use essa_core.Transactions.Exchange.{
  ExchangeResultV10, traded, calculate_offer_value, amounts,
  exchange_v10_without_price_error_thresholds,
}
use essa_core.Transactions.Exchange.Trade.{
  IsPrice, trade, Favors, trade_wheat_le, trade_sheep_le, trade-Favors,
}

-- The value of an offer, in sheep times the denominator of the price.
abbrev pub wheat_value : Price → ℕ → ℕ → ℕ
wheat_value p mws msr = min (mws * p.n) (msr * p.d)

abbrev pub sheep_value : Price → ℕ → ℕ → ℕ
sheep_value p mss mwr = min (mss * p.d) (mwr * p.n)

product_lt : (a b : ℕ) → a ≤ int64_max → b < 2 ^ 31 → a * b ≤ int64_max * 2 ^ 31
product_lt a b h k = grind arith

pub offer_value_exact :
    (n d send receive : ℕ)
    → n < 2 ^ 31
    → d < 2 ^ 31
    → send ≤ int64_max
    → receive ≤ int64_max
    → calculate_offer_value n d send receive ≡ min (send * n) (receive * d)
unfolding calculate_offer_value
offer_value_exact n d send receive hn hd hs hr = rw (
  big_multiply_exact send n (omega arith) (omega arith),
  big_multiply_exact receive d (omega arith) (omega arith),
)

-- A quotient that fits is returned.
pub divide :
    (a b c : ℕ) (r : Rounding)
    → a ≤ int64_max
    → b < 2 ^ 31
    → 0 < c
    → c < 2 ^ 31
    → round_div r (a * b) c ≤ int64_max
    → big_divide a b c r ≡ ok (round_div r (a * b) c)
divide a b c r ha hb hc hd h = ground (arith, big_divide_exact a b c r)

pub divide128 :
    (a b : ℕ) → 0 < b → b < 2 ^ 31 → a ≤ int64_max * b → big_divide128 a b round_down ≡ ok (a / b)
divide128 a b h k l =
    ground
      (arith, big_divide128_exact a b round_down, div-le a b int64_max h l, product_lt int64_max b)

module _ (p : Price) (ip : IsPrice p) (path : Bool) where
  amounts-trade :
      (stays : Bool) (wv sv : ℕ)
      → (if stays then sv else wv) ≤ int64_max * p.n
      → (if stays then sv else wv) ≤ int64_max * p.d
      → amounts p wv sv stays path ≡ ok (trade p stays path (if stays then sv else wv))
  unfolding amounts trade
  amounts-trade true wv sv h k = ground (
    arith,
    divide128 sv p.n ip.n_pos ip.n_max h,
    divide128 sv p.d ip.d_pos ip.d_max k,
    trade_wheat_le p ip true path sv int64_max h,
    trade_sheep_le p ip true path sv int64_max k,
    divide (sv / p.n) p.n p.d round_up,
    divide (sv / p.d) p.d p.n round_down,
  )
  amounts-trade false wv sv h k = ground (
    arith,
    divide128 wv p.n ip.n_pos ip.n_max h,
    divide128 wv p.d ip.d_pos ip.d_max k,
    trade_wheat_le p ip false path wv int64_max h,
    trade_sheep_le p ip false path wv int64_max k,
    divide (wv / p.n) p.n p.d round_down,
    divide (wv / p.d) p.d p.n round_up,
  )

-- The four limits are `int64_t`.
pub record IsLimits (mws mwr mss msr : ℕ) : Type 0 where
  pub wheat_send : mws ≤ int64_max
  pub wheat_receive : mwr ≤ int64_max
  pub sheep_send : mss ≤ int64_max
  pub sheep_receive : msr ≤ int64_max

abbrev pub stays_of : Price → ℕ → ℕ → ℕ → ℕ → Bool
stays_of p mws mwr mss msr = ltb (sheep_value p mss mwr) (wheat_value p mws msr)

-- The value of the smaller offer, which is used up.
abbrev pub smaller_value : Price → ℕ → ℕ → ℕ → ℕ → ℕ
smaller_value p mws mwr mss msr =
    if stays_of p mws mwr mss msr then sheep_value p mss mwr else wheat_value p mws msr

abbrev pub trade_of : Price → ℕ → ℕ → ℕ → ℕ → Bool → ℕ × ℕ
trade_of p mws mwr mss msr path =
    trade p (stays_of p mws mwr mss msr) path (smaller_value p mws mwr mss msr)

module _ (p : Price) (mws mwr mss msr : ℕ) where
  pub smaller_value_le :
      (smaller_value p mws mwr mss msr ≤ min mwr mws * p.n)
      × (smaller_value p mws mwr mss msr ≤ min msr mss * p.d)
  smaller_value_le = ground arith

within_limits :
    (w s a b : ℕ) (stays : Bool)
    → w ≤ a
    → s ≤ b
    → (do throw_if (ltb a w) runtime; throw_if (ltb b s) runtime; ok (traded w s stays))
      ≡ ok (traded w s stays)
within_limits w s a b stays h k = ground arith

module _ (p : Price) (ip : IsPrice p) (mws mwr mss msr : ℕ) (path : Bool) where
  pub trade_of_le :
      ((trade_of p mws mwr mss msr path).0 ≤ min mwr mws)
      × ((trade_of p mws mwr mss msr path).1 ≤ min msr mss)
  trade_of_le =
      let (w, s) = smaller_value_le p mws mwr mss msr in
      (trade_wheat_le p ip _ path _ _ w, trade_sheep_le p ip _ path _ _ s)

  -- No division overflows and neither bounds check fails.
  pub exchange_trades :
      IsLimits mws mwr mss msr
      → exchange_v10_without_price_error_thresholds p mws mwr mss msr path
        ≡ ok (
            traded
              (trade_of p mws mwr mss msr path).0
              (trade_of p mws mwr mss msr path).1
              (stays_of p mws mwr mss msr))
  unfolding exchange_v10_without_price_error_thresholds
  exchange_trades il =
      let (w, s) = smaller_value_le p mws mwr mss msr in
      let (wb, sb) = trade_of_le in
      let hw = le_scaled _ (min mwr mws) int64_max p.n w (omega (arith, il.wheat_send)) in
      let hs = le_scaled _ (min msr mss) int64_max p.d s (omega (arith, il.sheep_send)) in
      rw
        (
          offer_value_exact p.n p.d mws msr ip.n_max ip.d_max il.wheat_send il.sheep_receive,
          offer_value_exact p.d p.n mss mwr ip.d_max ip.n_max il.sheep_send il.wheat_receive,
          amounts-trade p ip path _ _ _ hw hs,
        )
        (within_limits _ _ _ _ _ wb sb)

  -- It never throws; what is traded stays within the limits, and the rounding favours the offer
  -- that stays, which is the one of the larger value.
  pub exchange_never_throws :
      IsLimits mws mwr mss msr
      → (r : ExchangeResultV10) × (exchange_v10_without_price_error_thresholds p mws mwr mss msr
            path
          ≡ ok r)
        × (r.num_wheat_received ≤ min mwr mws)
        × (r.num_sheep_send ≤ min msr mss)
        × Favors p r.wheat_stays r.num_wheat_received r.num_sheep_send
        × (r.wheat_stays ≡ ltb (sheep_value p mss mwr) (wheat_value p mws msr))
  exchange_never_throws il =
      (_, exchange_trades il, trade_of_le.0, trade_of_le.1, trade-Favors p ip _ path _, refl)
