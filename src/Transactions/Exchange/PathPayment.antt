-- ===== src/Transactions/Exchange/PathPayment.antt =====
-- exchangeV10 for a path payment that crosses an adjusted offer.
use essa_core.Prelude.{ℕ, ◌≤◌, ◌≡◌, min, Bool, true, false, arith, Bool-cases, inl, inr}
use essa_core.Prelude.Result.{ok}
use essa_core.Ledger.Entry.{Price}
use essa_core.Transactions.Exchange.{ExchangeResultV10, exchange_v10, adjust_offer_amount}
use essa_core.Transactions.Exchange.Trade.{IsPrice, trade, trade-Favors}
use essa_core.Transactions.Exchange.Bounds.{
  IsLimits, trade_of, stays_of, exchange_trades, trade_of_le,
}
use essa_core.Transactions.Exchange.Thresholds.{
  kept_path, IsFairToWheat, thresholds_path, path_exchange_total,
}
use essa_core.Transactions.Exchange.Adjust.{offered, wheat_kept, adjusted_fair}

-- What a path payment through an offer of `mws` may come to.
pub record IsPathTrade (p : Price) (mws mwr mss msr : ℕ) (r : ExchangeResultV10) : Type 0 where
  pub wheat_le : r.num_wheat_received ≤ min mwr mws
  pub sheep_le : r.num_sheep_send ≤ min msr mss
  pub fair : IsFairToWheat p r.num_wheat_received r.num_sheep_send
  pub taken : r.wheat_stays ≡ false → r.num_wheat_received ≡ mws

module _ (p : Price) (t : ℕ × ℕ) (stays : Bool) where
  kept_path_fair :
      IsFairToWheat p t.0 t.1
      → IsFairToWheat p
          (kept_path t.0 t.1 stays).num_wheat_received
          (kept_path t.0 t.1 stays).num_sheep_send
  kept_path_fair h = ground arith

  -- The thresholds of a path payment keep what those of an adjustment keep.
  kept_path_whole :
      (m : ℕ) → m ≡ t.0 → wheat_kept p t ≡ m → (kept_path t.0 t.1 stays).num_wheat_received ≡ m
  kept_path_whole m all same = ground arith

module _ (p : Price) (ip : IsPrice p) (mws mwr mss msr : ℕ) (il : IsLimits mws mwr mss msr) where
  -- While the buyer's offer stays, the offer in the book is taken at the amounts to which it was
  -- adjusted.
  trade_is_offered :
      stays_of p mws mwr mss msr ≡ false → trade_of p mws mwr mss msr true ≡ offered p mws msr
  unfolding trade
  trade_is_offered e = rw e

  taken_whole :
      stays_of p mws mwr mss msr ≡ false
      → adjust_offer_amount p mws msr ≡ ok mws
      → (r : ExchangeResultV10) × (exchange_v10 p mws mwr mss msr true ≡ ok r)
        × IsPathTrade p mws mwr mss msr r
  unfolding exchange_v10
  taken_whole e a =
      let t = trade_of p mws mwr mss msr true in
      let o = offered p mws msr in
      let same = trade_is_offered e in
      let (w, s) = trade_of_le p ip mws mwr mss msr true in
      let favors = trade-Favors p ip (stays_of p mws mwr mss msr) true _ in
      let (all, kept, fair) = adjusted_fair p ip mws msr il.wheat_send il.sheep_receive a in
      (
        kept_path t.0 t.1 (stays_of p mws mwr mss msr),
        rw (exchange_trades p ip mws mwr mss msr true il) (
            thresholds_path p ip t.0 t.1 (omega (arith, w, il.wheat_send))
              (omega (arith, s, il.sheep_send)) _ favors (rw same fair)),
        record {
          wheat_le = ground (arith, w);
          sheep_le = ground (arith, s);
          fair = kept_path_fair p t _ (rw same fair);
          taken = λ _. kept_path_whole p t _ mws (rw same all) (rw same kept);
        },
      )

  -- A path payment through an adjusted offer never throws. Its trade is within the limits, gives
  -- the wheat seller at least 99% of the price, and takes the whole offer unless the offer stays.
  pub path_payment_total :
      adjust_offer_amount p mws msr ≡ ok mws
      → (r : ExchangeResultV10) × (exchange_v10 p mws mwr mss msr true ≡ ok r)
        × IsPathTrade p mws mwr mss msr r
  path_payment_total a = elim (Bool-cases (stays_of p mws mwr mss msr)) [
    | inl stays ↦
        let (r, e, st, w, s, f) = path_exchange_total p ip mws mwr mss msr il stays in
        (r, e, record { wheat_le = w; sheep_le = s; fair = omega (arith, f); taken = λ x. cc })
    | inr leaves ↦ taken_whole leaves a
  ]
