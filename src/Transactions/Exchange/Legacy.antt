-- ===== src/Transactions/Exchange/Legacy.antt =====
-- The exchange functions of the protocol versions below 10: exchangeV2 and exchangeV3.
use essa_core.Prelude.{
  ℕ, ◌*◌, ◌/◌, ◌≤◌, ◌≡◌, min, false, ◌||◌, ltb, arith, ceil_div, div-mul_le, le-ceil_div_mul,
  mul_le_right, div-le, le-div,
}
use essa_core.Prelude.Result.{ok}
use essa_core.Util.Numeric.{int64_max, round_down, round_up, try_big_divide, big_divide, Rounding}
use essa_core.Util.Numeric.Exact.{fit, try_big_divide_exact, big_divide_exact, round_div}
use essa_core.Ledger.Entry.{Price}
use essa_core.Transactions.Exchange.{ExchangeResult, or_max, overflowed, exchange_v2, exchange_v3}
use essa_core.Transactions.Exchange.Trade.{IsPrice}

or_max-fit : (x : ℕ) → or_max (fit x) ≡ min x int64_max
or_max-fit x = ground arith

overflowed-fit : (x : ℕ) → overflowed (fit x) ≡ ltb int64_max x
overflowed-fit x = ground arith

abbrev pub v2_sheep : Price → ℕ → ℕ → ℕ → ℕ
v2_sheep p wheat mwr mss = min (min (min wheat mwr * p.n / p.d) int64_max) mss

abbrev pub v3_sheep : Price → ℕ → ℕ → ℕ → ℕ
v3_sheep p wheat mwr mss = min (min (ceil_div (min wheat mwr * p.n) p.d) int64_max) mss

module _ (p : Price) (ip : IsPrice p) (wheat mwr mss : ℕ) (wheat_max : wheat ≤ int64_max)
    (mwr_max : mwr ≤ int64_max) (mss_max : mss ≤ int64_max) where
  first_quotient :
      (r : Rounding)
      → try_big_divide (min wheat mwr) p.n p.d r ≡ ok (fit (round_div r (min wheat mwr * p.n) p.d))
  first_quotient r =
      try_big_divide_exact (min wheat mwr) p.n p.d r (omega arith) (omega (arith, ip.n_max))
        ip.d_pos (omega (arith, ip.d_max))

  second_quotient :
      (sheep : ℕ)
      → sheep ≤ mss
      → try_big_divide sheep p.d p.n round_down ≡ ok (fit (sheep * p.d / p.n))
  second_quotient sheep h =
      try_big_divide_exact sheep p.d p.n round_down (omega arith) (omega (arith, ip.d_max)) ip.n_pos
        (omega (arith, ip.n_max))

  second_divide :
      (sheep : ℕ)
      → sheep ≤ mss
      → sheep * p.d / p.n ≤ int64_max
      → big_divide sheep p.d p.n round_down ≡ ok (sheep * p.d / p.n)
  second_divide sheep h k =
      let exact =
        big_divide_exact sheep p.d p.n round_down (omega arith) (omega (arith, ip.d_max)) ip.n_pos
          (omega (arith, ip.n_max)) in
      ground (arith, exact)

  v2_value : v2_sheep p wheat mwr mss * p.d ≤ min wheat mwr * p.n
  v2_value = grind (arith, div-mul_le (min wheat mwr * p.n) p.d)

  v2_wheat_le : v2_sheep p wheat mwr mss * p.d / p.n ≤ min wheat mwr
  v2_wheat_le = div-le _ p.n _ ip.n_pos v2_value

  v2_run :
      exchange_v2 wheat p mwr mss
      ≡ ok (record {
        num_wheat_received = v2_sheep p wheat mwr mss * p.d / p.n;
        num_sheep_send = v2_sheep p wheat mwr mss;
        reduced = ltb mwr wheat || ltb mss (min (min wheat mwr * p.n / p.d) int64_max);
      })
  unfolding exchange_v2
  v2_run =
      rw (first_quotient round_down, or_max-fit)
        (ground (arith, v2_wheat_le, second_divide (v2_sheep p wheat mwr mss)))

  -- exchangeV2 never throws: its last division cannot overflow, as its comment says.
  pub exchange_v2_total :
      (r : ExchangeResult) × (exchange_v2 wheat p mwr mss ≡ ok r)
      × (r.num_wheat_received ≤ min wheat mwr)
      × (r.num_sheep_send ≤ mss)
      × (r.num_wheat_received * p.n ≤ r.num_sheep_send * p.d)
  exchange_v2_total = (_, v2_run, v2_wheat_le, omega arith, div-mul_le _ p.n)

  v3_wheat : ℕ
  v3_wheat = min (min wheat mwr) (min (v3_sheep p wheat mwr mss * p.d / p.n) int64_max)

  v3_run :
      exchange_v3 wheat p mwr mss
      ≡ ok (record {
        num_wheat_received = v3_wheat;
        num_sheep_send = v3_sheep p wheat mwr mss;
        reduced =
            ltb mwr wheat
            || ltb int64_max (ceil_div (min wheat mwr * p.n) p.d)
            || ltb mss (min (ceil_div (min wheat mwr * p.n) p.d) int64_max);
      })
  unfolding exchange_v3 v3_wheat
  v3_run = rw (
    first_quotient round_up,
    or_max-fit,
    overflowed-fit,
    second_quotient (v3_sheep p wheat mwr mss) (omega arith),
    or_max-fit,
  )

  v3_favors : v3_wheat * p.n ≤ v3_sheep p wheat mwr mss * p.d
  unfolding v3_wheat
  v3_favors =
      let sheep = v3_sheep p wheat mwr mss in
      omega (
        arith,
        div-mul_le (sheep * p.d) p.n,
        mul_le_right v3_wheat (sheep * p.d / p.n) p.n (omega arith),
      )

  v3_whole :
      (ltb mwr wheat
          || ltb int64_max (ceil_div (min wheat mwr * p.n) p.d)
          || ltb mss (min (ceil_div (min wheat mwr * p.n) p.d) int64_max))
        ≡ false
      → v3_wheat ≡ wheat
  unfolding v3_wheat
  v3_whole h =
      let sheep = v3_sheep p wheat mwr mss in
      let enough = le-ceil_div_mul (min wheat mwr * p.n) p.d ip.d_pos in
      let whole : sheep ≡ ceil_div (min wheat mwr * p.n) p.d = ground arith in
      let uncapped : min wheat mwr ≡ wheat = ground arith in
      let covered : min wheat mwr * p.n ≤ sheep * p.d = rw whole enough in
      omega (arith, uncapped, le-div (sheep * p.d) p.n (min wheat mwr) ip.n_pos covered)

  -- exchangeV3 never throws, favours the seller of wheat, and trades all of the wheat unless it
  -- says that the trade is reduced.
  pub exchange_v3_total :
      (r : ExchangeResult) × (exchange_v3 wheat p mwr mss ≡ ok r)
      × (r.num_wheat_received ≤ min wheat mwr)
      × (r.num_sheep_send ≤ mss)
      × (r.num_wheat_received * p.n ≤ r.num_sheep_send * p.d)
      × (r.reduced ≡ false → r.num_wheat_received ≡ wheat)
  unfolding v3_wheat
  exchange_v3_total = (_, v3_run, omega arith, omega arith, v3_favors, v3_whole)
