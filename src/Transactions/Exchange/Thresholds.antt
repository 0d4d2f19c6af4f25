-- ===== src/Transactions/Exchange/Thresholds.antt =====
-- The price error bound: no seller loses more than 1% against the price, or nothing is traded.
use essa_core.Prelude.{
  ℕ, ◌*◌, ◌≤◌, ◌≡◌, min, Bool, true, false, ◌&&◌, ltb, if◌then◌else◌, arith, ◌↔◌,
}
use essa_core.Prelude.Result.{ok}
use essa_core.Util.Numeric.{int64_max, big_multiply}
use essa_core.Util.Numeric.Exact.{big_multiply_exact}
use essa_core.Ledger.Entry.{Price}
use essa_core.Transactions.Exchange.{
  ExchangeResultV10, traded, check_price_error_bound, apply_price_error_thresholds, exchange_v10,
}
use essa_core.Transactions.Exchange.Trade.{IsPrice, Favors, trade-Favors}
use essa_core.Transactions.Exchange.Bounds.{
  IsLimits, trade_of, stays_of, exchange_trades, trade_of_le,
}

-- The wheat seller gets at least 99% of the price.
abbrev pub IsFairToWheat : Price → ℕ → ℕ → Type 0
IsFairToWheat p wheat sheep = 99 * (wheat * p.n) ≤ 100 * (sheep * p.d)

-- The sheep seller pays at most 101% of the price.
abbrev pub IsFairToSheep : Price → ℕ → ℕ → Type 0
IsFairToSheep p wheat sheep = 100 * (sheep * p.d) ≤ 101 * (wheat * p.n)

-- What the thresholds leave of a trade that is not a path payment.
abbrev pub kept : Price → ℕ → ℕ → Bool → ExchangeResultV10
kept p wheat sheep stays =
    if ltb 0 wheat && ltb 0 sheep && check_price_error_bound p wheat sheep false
    then traded wheat sheep stays
    else traded 0 0 stays

-- What they leave of a path payment.
abbrev pub kept_path : ℕ → ℕ → Bool → ExchangeResultV10
kept_path wheat sheep stays =
    if ltb 0 wheat && ltb 0 sheep then traded wheat sheep stays else traded 0 0 stays

module _ (p : Price) (ip : IsPrice p) (wheat sheep : ℕ) (hw : wheat ≤ int64_max)
    (hs : sheep ≤ int64_max) where
  lhs : big_multiply (100 * p.n) wheat ≡ 100 * (wheat * p.n)
  lhs =
      rw (big_multiply_exact (100 * p.n) wheat (omega (arith, ip.n_max)) (omega arith))
        (omega arith)

  rhs : big_multiply (100 * p.d) sheep ≡ 100 * (sheep * p.d)
  rhs =
      rw (big_multiply_exact (100 * p.d) sheep (omega (arith, ip.d_max)) (omega arith))
        (omega arith)

  cap : big_multiply p.n wheat ≡ wheat * p.n
  cap = rw (big_multiply_exact p.n wheat (omega (arith, ip.n_max)) (omega arith)) (omega arith)

  pub check_exact :
      (check_price_error_bound p wheat sheep false ≡ true)
      ↔ (IsFairToWheat p wheat sheep × IsFairToSheep p wheat sheep)
  unfolding check_price_error_bound
  check_exact = rw (lhs, rhs, cap) ((λ h. ground arith), (λ h. ground arith))

  pub check_path_exact :
      (check_price_error_bound p wheat sheep true ≡ true) ↔ IsFairToWheat p wheat sheep
  unfolding check_price_error_bound
  check_path_exact = rw (lhs, rhs, cap) ((λ h. ground arith), (λ h. ground arith))

  wheat_side : big_multiply wheat p.n ≡ wheat * p.n
  wheat_side = big_multiply_exact wheat p.n (omega arith) (omega (arith, ip.n_max))

  sheep_side : big_multiply sheep p.d ≡ sheep * p.d
  sheep_side = big_multiply_exact sheep p.d (omega arith) (omega (arith, ip.d_max))

  pub thresholds_kept :
      (stays : Bool)
      → Favors p stays wheat sheep
      → apply_price_error_thresholds p wheat sheep stays false ≡ ok (kept p wheat sheep stays)
  unfolding apply_price_error_thresholds
  thresholds_kept true h = rw (wheat_side, sheep_side) (ground arith)
  thresholds_kept false h = rw (wheat_side, sheep_side) (ground arith)

  -- What the thresholds make of a path payment: only a price too low for the wheat seller throws.
  pub thresholds_path :
      (stays : Bool)
      → Favors p stays wheat sheep
      → IsFairToWheat p wheat sheep
      → apply_price_error_thresholds p wheat sheep stays true ≡ ok (kept_path wheat sheep stays)
  unfolding apply_price_error_thresholds
  thresholds_path true h f = rw (wheat_side, sheep_side) (ground (arith, check_path_exact.1 f))
  thresholds_path false h f = rw (wheat_side, sheep_side) (ground (arith, check_path_exact.1 f))

  pub kept_fair :
      (stays : Bool)
      → IsFairToWheat p
          (kept p wheat sheep stays).num_wheat_received
          (kept p wheat sheep stays).num_sheep_send
        × IsFairToSheep p
            (kept p wheat sheep stays).num_wheat_received
            (kept p wheat sheep stays).num_sheep_send
  kept_fair stays = ground (arith, check_exact)

  pub kept-Favors :
      (stays : Bool)
      → Favors p stays wheat sheep
      → Favors p
          (kept p wheat sheep stays).wheat_stays
          (kept p wheat sheep stays).num_wheat_received
          (kept p wheat sheep stays).num_sheep_send
  kept-Favors true h = ground arith
  kept-Favors false h = ground arith

path-Favors :
    (p : Price) (wheat sheep : ℕ) (stays : Bool)
    → stays ≡ true
    → Favors p stays wheat sheep
    → let r = kept_path wheat sheep stays in
      IsFairToWheat p wheat sheep
      × (r.wheat_stays ≡ true)
      × (r.num_wheat_received * p.n ≤ r.num_sheep_send * p.d)
path-Favors p wheat sheep true e h = ground arith
path-Favors p wheat sheep false e h = cc

module _ (p : Price) (ip : IsPrice p) (mws mwr mss msr : ℕ) (il : IsLimits mws mwr mss msr) where
  wheat_max : (path : Bool) → (trade_of p mws mwr mss msr path).0 ≤ int64_max
  wheat_max path = omega (arith, (trade_of_le p ip mws mwr mss msr path).0, il.wheat_send)

  sheep_max : (path : Bool) → (trade_of p mws mwr mss msr path).1 ≤ int64_max
  sheep_max path = omega (arith, (trade_of_le p ip mws mwr mss msr path).1, il.sheep_send)

  -- What exchangeV10 returns outside path payments.
  abbrev pub settled : ExchangeResultV10
  settled = let t = trade_of p mws mwr mss msr false in kept p t.0 t.1 (stays_of p mws mwr mss msr)

  pub exchange_v10-settled : exchange_v10 p mws mwr mss msr false ≡ ok settled
  unfolding exchange_v10
  exchange_v10-settled =
      rw (exchange_trades p ip mws mwr mss msr false il) (
        thresholds_kept p ip _ _ (wheat_max false) (sheep_max false) _
          (trade-Favors p ip _ false _))

  -- Outside path payments exchangeV10 never throws: what is traded is within the four limits,
  -- favours the offer that stays, and is within 1% of the price for both sellers.
  pub exchange_v10_fair :
      (r : ExchangeResultV10) × (exchange_v10 p mws mwr mss msr false ≡ ok r)
      × (r.num_wheat_received ≤ min mwr mws)
      × (r.num_sheep_send ≤ min msr mss)
      × Favors p r.wheat_stays r.num_wheat_received r.num_sheep_send
      × IsFairToWheat p r.num_wheat_received r.num_sheep_send
      × IsFairToSheep p r.num_wheat_received r.num_sheep_send
  exchange_v10_fair =
      let (w, s) = trade_of_le p ip mws mwr mss msr false in
      let t = trade_of p mws mwr mss msr false in
      let fair = kept_fair p ip t.0 t.1 (wheat_max false) (sheep_max false) _ in
      (
        settled,
        exchange_v10-settled,
        ground (arith, w),
        ground (arith, s),
        kept-Favors p ip t.0 t.1 (wheat_max false) (sheep_max false) _
            (trade-Favors p ip _ false _),
        fair.0,
        fair.1,
      )

  -- A path payment never throws while the offer in the book stays: its seller is favoured.
  pub path_exchange_total :
      stays_of p mws mwr mss msr ≡ true
      → (r : ExchangeResultV10) × (exchange_v10 p mws mwr mss msr true ≡ ok r)
        × (r.wheat_stays ≡ true)
        × (r.num_wheat_received ≤ min mwr mws)
        × (r.num_sheep_send ≤ min msr mss)
        × (r.num_wheat_received * p.n ≤ r.num_sheep_send * p.d)
  unfolding exchange_v10
  path_exchange_total h =
      let (w, s) = trade_of_le p ip mws mwr mss msr true in
      let t = trade_of p mws mwr mss msr true in
      let favors = trade-Favors p ip (stays_of p mws mwr mss msr) true _ in
      let (fair, stays, good) = path-Favors p t.0 t.1 _ h favors in
      (
        kept_path t.0 t.1 (stays_of p mws mwr mss msr),
        rw (exchange_trades p ip mws mwr mss msr true il)
            (thresholds_path p ip _ _ (wheat_max true) (sheep_max true) _ favors fair),
        stays,
        ground (arith, w),
        ground (arith, s),
        good,
      )
